-- ===== src/Client/Transfer.antt =====
-- KdDeskTC_Client/libs/hbb_common/src/fs.rs, lines 12 to 15 and 197 to 554, and compress.rs: the jobs
-- that read files into blocks on one machine and write blocks into files on the other. A file that
-- is open for reading is the reads that are still to come, each of which yields bytes or fails; one
-- that is open for writing is the number of its contents on the disk, which a rename keeps.
pub mod Disk
pub mod Write
pub mod Runs
pub mod Fills
pub mod Packing
pub mod Blocks
pub mod Progress
pub mod Whole
use kd_desk_tc.Prelude.{
  ℕ, zero, suc, ◌+◌, ◌-◌, ◌*◌, ◌%◌, ◌^◌, Bool, true, false, not, ◌&&◌, ◌||◌, Option, none, some,
  List, [], ◌∷◌, ◌++◌, ◌==◌, list_eq, nat_eq, if◌then◌else◌, length, take, drop, get_elem?, ltb,
}
use kd_desk_tc.Strings.{bytes}
use kd_desk_tc.Proto.{Text}
use kd_desk_tc.Client.Proto.{FileEntry, FileTransferBlock, FileAction, FileResponse, Message}
use kd_desk_tc.Client.Compress.{Zstd, compress_level, compress}
use kd_desk_tc.Client.Files.{System, get_recursive_files}

unfoldable pub get_transfer_max_size : ℕ
get_transfer_max_size = 50 * 1024 * 1024

pub record TransferJob (F : Type 0) : Type 0 where
  pub id : ℕ
  pub path : Text
  pub files : List FileEntry
  pub file_num : ℕ
  pub file : Option F
  pub total_size : ℕ
  pub finished_size : ℕ
  pub transferred : ℕ

-- What follows the last dot of a name; the accumulator is what follows the last dot so far, if any.
unfoldable pub after_dot : Text → Text → Text
after_dot ext [] = ext
after_dot ext (c ∷ s) = if c == b'.' then after_dot s s else after_dot ext s

unfoldable pub get_ext : Text → Text
unfolding after_dot
get_ext name = after_dot [] name

unfoldable pub one_of : Text → List Text → Bool
one_of ext [] = false
one_of ext (e ∷ es) = (ext == e) || one_of ext es

unfoldable pub is_compressed_file : Text → Bool
unfolding get_ext one_of
is_compressed_file name = one_of (get_ext name) (
    bytes "xz"
    ∷ bytes "gz"
    ∷ bytes "zip"
    ∷ bytes "7z"
    ∷ bytes "rar"
    ∷ bytes "bz2"
    ∷ bytes "tgz"
    ∷ bytes "png"
    ∷ bytes "jpg"
    ∷ [])

-- The sum of the sizes, as a `u64`.
unfoldable pub sum_sizes : List FileEntry → ℕ
sum_sizes [] = 0
sum_sizes (f ∷ fs) = (f.size + sum_sizes fs) % 2 ^ 64

unfoldable pub new_write : {F : Type 0} → ℕ → Text → List FileEntry → TransferJob F
new_write id path files = record {
  id = id;
  path = path;
  files = files;
  file_num = 0;
  file = none;
  total_size = sum_sizes files;
  finished_size = 0;
  transferred = 0;
}

unfoldable pub new_read : {F : Type 0} → ℕ → System → ℕ → Text → Bool → Option (TransferJob F)
unfolding new_write
new_read depth sys id path include_hidden =
    elim (get_recursive_files depth sys path include_hidden) [
      | none ↦ none
      | some files ↦ some (new_write id path files)
    ]

unfoldable pub new_read_total_size : ℕ → System → Text → Bool → ℕ
new_read_total_size depth sys path include_hidden =
    elim (get_recursive_files depth sys path include_hidden) [
      | none ↦ 0
      | some files ↦ sum_sizes files
    ]

unfoldable pub new_read_is_too_large : ℕ → System → Text → Bool → Bool
unfolding new_read_total_size get_transfer_max_size
new_read_is_too_large depth sys path include_hidden =
    not (ltb (new_read_total_size depth sys path include_hidden) get_transfer_max_size)

-- `file_num as usize`, and `file_num += 1`.
unfoldable pub as_usize : ℕ → ℕ
as_usize n = if ltb n (2 ^ 31) then n else n + 2 ^ 64 - 2 ^ 32

unfoldable pub next_num : ℕ → ℕ
next_num n = (n + 1) % 2 ^ 32

unfoldable pub join : System → Text → Text → Text
join sys path name = if name == [] then path else sys.join path name

-- The reads of an open file that are still to come.
abbrev pub Reads : Type 0
Reads = List (Option Text)

abbrev pub Opened : Type 0
Opened = Text → Option Reads

-- The loop that fills the buffer, which has this much room: the bytes and the reads that are left. A
-- read that yields nothing ends the file; a read that yields too much is cut and goes on later.
unfoldable pub fill : ℕ → Reads → Option (Text × Reads)
fill room [] = some ([], [])
fill room (none ∷ rs) = none
fill room (some [] ∷ rs) = some ([], rs)
fill room (some (b ∷ bs) ∷ rs) =
    let n = length (b ∷ bs) in
    let rest = fill (room - n) rs in
    if ltb n room
    then elim rest [ none ↦ none | some r ↦ some ((b ∷ bs) ++ r.0, r.1) ]
    else if n == room
    then some (b ∷ bs, rs)
    else some (take room (b ∷ bs), some (drop room (b ∷ bs)) ∷ rs)

abbrev pub buf_size : ℕ
buf_size = 128 * 1024

pub data ReadResult : Type 0 where
  failed : ReadResult
  finished : ReadResult
  block : FileTransferBlock → ReadResult

abbrev pub Reader : Type 0
Reader = TransferJob Reads

unfoldable pub read_failed : Reader → Reader × ReadResult
read_failed job = (record job { file_num = next_num job.file_num; file = none }, ReadResult.failed)

-- The payload of a block, and whether it is compressed.
unfoldable pub pack : Zstd → Text → Text → Text × Bool
pack z name buf =
    if is_compressed_file name
    then (buf, false)
    else if ltb (length (compress z buf compress_level)) (length buf)
    then (compress z buf compress_level, true)
    else (buf, false)

unfoldable pub to_block : Reader → Text × Bool → FileTransferBlock
to_block job p = record { id = job.id; file_num = job.file_num; payload = p.0; compressed = p.1 }

unfoldable pub read_filled : Zstd → Text → Reader → Text × Reads → Reader × ReadResult
unfolding to_block
read_filled z name job ([], rs) = (
  record job { file_num = next_num job.file_num; file = none },
  ReadResult.block (to_block job ([], false)),
)
read_filled z name job (b ∷ bs, rs) =
    let p = pack z name (b ∷ bs) in
    (
      record job {
        file = some rs;
        finished_size = (job.finished_size + length (b ∷ bs)) % 2 ^ 64;
        transferred = (job.transferred + length p.0) % 2 ^ 64;
      },
      ReadResult.block (to_block job p),
    )

unfoldable pub read_opened : Zstd → Text → Reader → Reads → Reader × ReadResult
unfolding read_filled read_failed
read_opened z name job rs = elim (fill buf_size rs) [
  | none ↦ read_failed job
  | some r ↦ read_filled z name job r
]

-- A job that has no open file opens the next one.
unfoldable pub opened : System → Opened → Text → Reader → Option Reads
opened sys open_file name job = elim job.file [
  | none ↦ open_file (join sys job.path name)
  | some rs ↦ some rs
]

unfoldable pub read_file : Zstd → System → Opened → Text → Reader → Reader × ReadResult
unfolding read_opened read_failed opened
read_file z sys open_file name job = elim (opened sys open_file name job) [
  | none ↦ read_failed job
  | some rs ↦ read_opened z name job rs
]

unfoldable pub read : Zstd → System → Opened → Reader → Reader × ReadResult
unfolding read_file
read z sys open_file job = elim (get_elem? job.files (as_usize job.file_num)) [
  | none ↦ (record job { file = none }, ReadResult.finished)
  | some f ↦ read_file z sys open_file f.name job
]

unfoldable pub remove_job : {F : Type 0} → ℕ → List (TransferJob F) → List (TransferJob F)
remove_job id [] = []
remove_job id (job ∷ jobs) =
    let rest = remove_job id jobs in if job.id == id then rest else job ∷ rest

unfoldable pub get_job : {F : Type 0} → ℕ → List (TransferJob F) → Option (TransferJob F)
get_job id [] = none
get_job id (job ∷ jobs) = if job.id == id then some job else get_job id jobs
