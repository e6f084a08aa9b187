-- ===== src/Client/Transfer/Write.antt =====
-- Writing jobs: `write`, `modify_time` and `remove_download_file`. A file is written under its name
-- with `.download` behind it, and is renamed when the next file begins or the job is done.
pub mod Steps
pub mod Midway
pub mod Copies
use kd_desk_tc.Prelude.{
  ℕ, ◌+◌, ◌%◌, ◌^◌, Bool, true, false, not, ◌&&◌, Option, none, some, ◌++◌, ◌==◌, nat_eq, list_eq,
  if◌then◌else◌, length, get_elem?, take,
}
use kd_desk_tc.Strings.{bytes}
use kd_desk_tc.Proto.{Text}
use kd_desk_tc.Client.Proto.{FileEntry, FileTransferBlock}
use kd_desk_tc.Client.Compress.{Zstd, decompress}
use kd_desk_tc.Client.Files.{System}
use kd_desk_tc.Client.Transfer.{TransferJob, as_usize, join}
use kd_desk_tc.Client.Transfer.Disk
use kd_desk_tc.Client.Transfer.Disk.{Disk}

abbrev pub Writer : Type 0
Writer = TransferJob ℕ

-- What the system lets a call of `write` do: close the file before, make the new one, and write all
-- bytes, or only so many of them before it fails.
pub record Outcome : Type 0 where
  pub synced : Bool
  pub created : Bool
  pub written : Option ℕ

unfoldable pub download_path : Text → Text
download_path p = p ++ bytes ".download"

unfoldable pub finish_file : System → Writer → FileEntry → Disk → Disk
finish_file sys job entry d =
    let p = join sys job.path entry.name in
    Disk.set_file_mtime (Disk.rename d (download_path p) p) p entry.modified_time

unfoldable pub modify_time : System → Writer → Disk → Disk
modify_time sys job d = elim (get_elem? job.files (as_usize job.file_num)) [
  | none ↦ d
  | some entry ↦ finish_file sys job entry d
]

unfoldable pub remove_download_file : System → Writer → Disk → Disk
remove_download_file sys job d = elim (get_elem? job.files (as_usize job.file_num)) [
  | none ↦ d
  | some entry ↦ Disk.remove_file d (download_path (join sys job.path entry.name))
]

-- The state after a call, and whether it succeeded.
abbrev pub Written : Type 0
Written = Writer × Disk × Bool

unfoldable pub is_open : Option ℕ → Bool
is_open none = false
is_open (some i) = true

-- The new file, once the file before is renamed and closed.
unfoldable pub create_next : System → Bool → ℕ → FileEntry → Writer → Disk → Written
create_next sys created file_num entry job d =
    let job = record job { file_num = file_num } in
    let made = Disk.create d (download_path (join sys job.path entry.name)) in
    if created then (record job { file = some made.1 }, made.0, true) else (job, d, false)

unfoldable pub next_file : System → Outcome → ℕ → FileEntry → Writer → Disk → Written
next_file sys out file_num entry job d =
    let d = modify_time sys job d in
    if is_open job.file && not out.synced
    then (job, d, false)
    else create_next sys out.created file_num entry job d

unfoldable pub select_file : System → Outcome → ℕ → FileEntry → Writer → Disk → Written
select_file sys out file_num entry job d =
    if as_usize file_num == as_usize job.file_num && is_open job.file
    then (job, d, true)
    else next_file sys out file_num entry job d

-- The bytes on the wire, and what they stand for.
unfoldable pub append_data : Option ℕ → Text → Text → Writer → Disk → Written
append_data written wire payload job d = elim job.file [
  | none ↦ (job, d, false)
  | some i ↦ elim written [
    | none ↦ (
      record job {
        finished_size = (job.finished_size + length payload) % 2 ^ 64;
        transferred = (job.transferred + length wire) % 2 ^ 64;
      },
      Disk.append d i payload,
      true,
    )
    | some n ↦ (job, Disk.append d i (take n payload), false)
  ]
]

unfoldable pub wire_of : FileTransferBlock → Option Text → Text
wire_of block none = block.payload
wire_of block (some raw) = raw

unfoldable pub write_data : Zstd → Outcome → FileTransferBlock → Option Text → Written → Written
write_data z out block raw (job, d, false) = (job, d, false)
write_data z out block raw (job, d, true) =
    let wire = wire_of block raw in
    append_data out.written wire (if block.compressed then decompress z wire else wire) job d

unfoldable pub write :
    System → Zstd → Outcome → FileTransferBlock → Option Text → Writer → Disk → Written
write sys z out block raw job d =
    if not (block.id == job.id)
    then (job, d, false)
    else elim (get_elem? job.files (as_usize block.file_num)) [
      | none ↦ (job, d, false)
      | some entry ↦ write_data z out block raw (select_file sys out block.file_num entry job d)
    ]
