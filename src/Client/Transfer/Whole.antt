-- ===== src/Client/Transfer/Whole.antt =====
-- A whole transfer: what a reading job reads on one machine, a writing job writes on the other.
use kd_desk_tc.Prelude.{
  ℕ, zero, suc, ◌+◌, ◌^◌, ◌<◌, ◌≡◌, inl, inr, refl, sym, subst, ◌∙◌, Bool, true, Option, none, some,
  List, [], ◌∷◌, All, length, get_elem?, Option-cases,
}
use mathlib.Core.Option.{some-injective}
use kd_desk_tc.Proto.{Text}
use kd_desk_tc.Client.Proto.{FileEntry, FileTransferBlock}
use kd_desk_tc.Client.Files.{System, get_recursive_files}
use kd_desk_tc.Client.Compress.{Zstd}
use kd_desk_tc.Client.Transfer
use kd_desk_tc.Client.Transfer.{Reader, Reads, ReadResult, Opened, join, fill, buf_size}
use kd_desk_tc.Client.Transfer.Packing.{Lossless}
use kd_desk_tc.Client.Transfer.Blocks.{read_all, then_blocks, bytes_of, Readable, total}
use kd_desk_tc.Client.Transfer.Progress.{read_all-ends, new_read-get_recursive_files}
use kd_desk_tc.Client.Transfer.Disk.{Disk, read_path}
use kd_desk_tc.Client.Transfer.Disk.Laws.{Sane}
use kd_desk_tc.Client.Transfer.Write.{modify_time}
use kd_desk_tc.Client.Transfer.Write.Steps.{write_all}
use kd_desk_tc.Client.Transfer.Write.Midway.{Distinct}
use kd_desk_tc.Client.Transfer.Write.Copies.{write_all-copies}

-- A block bears the number of its job.
abbrev Bears : ℕ → ReadResult → Type 0
Bears id ReadResult.failed = Unit {0}
Bears id ReadResult.finished = Unit {0}
Bears id (ReadResult.block b) = b.id ≡ id

abbrev Numbered : Reader → Reader × ReadResult → Type 0
Numbered job r = (r.0.id ≡ job.id) × Bears job.id r.1

filled-Numbered :
    (z : Zstd) (name : Text) (job : Reader) (r : Text × Reads)
    → Numbered job (Transfer.read_filled z name job r)
unfolding Transfer.read_filled
filled-Numbered z name job ([], rs) = (refl, refl)
filled-Numbered z name job (b ∷ bs, rs) = (refl, refl)

opened-Numbered :
    (z : Zstd) (name : Text) (job : Reader) (rs : Reads)
    → Numbered job (Transfer.read_opened z name job rs)
unfolding Transfer.read_opened Transfer.read_failed
opened-Numbered z name job rs = elim (Option-cases (fill buf_size rs)) [
  | inl e ↦ rw (Transfer.read_opened, e) (refl, tt)
  | inr (r, e) ↦ rw (Transfer.read_opened, e) (filled-Numbered z name job r)
]

file-Numbered :
    (z : Zstd) (sys : System) (open_file : Opened) (name : Text) (job : Reader)
    → Numbered job (Transfer.read_file z sys open_file name job)
unfolding Transfer.read_file Transfer.read_failed
file-Numbered z sys open_file name job =
    elim (Option-cases (Transfer.opened sys open_file name job)) [
      | inl e ↦ rw (Transfer.read_file, e) (refl, tt)
      | inr (rs, e) ↦ rw (Transfer.read_file, e) (opened-Numbered z name job rs)
    ]

read-Numbered :
    (z : Zstd) (sys : System) (open_file : Opened) (job : Reader)
    → Numbered job (Transfer.read z sys open_file job)
unfolding Transfer.read
read-Numbered z sys open_file job =
    elim (Option-cases (get_elem? job.files (Transfer.as_usize job.file_num))) [
      | inl e ↦ rw (Transfer.read, e) (refl, tt)
      | inr (f, e) ↦ rw (Transfer.read, e) (file-Numbered z sys open_file f.name job)
    ]

blocks_numbered :
    (id : ℕ) (r : ReadResult) (rest : Option (List FileTransferBlock)) (bs : List FileTransferBlock)
    → Bears id r
    → ((cs : List FileTransferBlock) → rest ≡ some cs → All (λ b. b.id ≡ id) cs)
    → then_blocks r rest ≡ some bs
    → All (λ b. b.id ≡ id) bs
unfolding then_blocks
blocks_numbered id ReadResult.failed rest bs h ih e = absurd (cc)
blocks_numbered id ReadResult.finished rest bs h ih e =
    subst (All (λ b. b.id ≡ id)) (some-injective [] bs e) tt
blocks_numbered id (ReadResult.block b) none bs h ih e = absurd (cc)
blocks_numbered id (ReadResult.block b) (some cs) bs h ih e =
    subst (All (λ b. b.id ≡ id)) (some-injective (b ∷ cs) bs e) (h, ih cs refl)

read_all_numbered :
    (z : Zstd) (sys : System) (open_file : Opened) (n : ℕ) (job : Reader) (id : ℕ)
    (bs : List FileTransferBlock)
    → job.id ≡ id
    → read_all z sys open_file n job ≡ some bs
    → All (λ b. b.id ≡ id) bs
unfolding read_all
read_all_numbered z sys open_file zero job id bs i e = absurd (cc)
read_all_numbered z sys open_file (suc n) job id bs i e =
    let r = Transfer.read z sys open_file job in
    let h = read-Numbered z sys open_file job in
    blocks_numbered id r.1 (read_all z sys open_file n r.0) bs (subst (λ k. Bears k r.1) i h.1)
      (λ cs k. read_all_numbered z sys open_file n r.0 id cs (h.0 ∙ i) k) e

new_read_numbered :
    (depth : ℕ) (sys : System) (id : ℕ) (path : Text) (include_hidden : Bool) (job : Reader)
    → Transfer.new_read depth sys id path include_hidden ≡ some job
    → job.id ≡ id
unfolding Transfer.new_write
new_read_numbered depth sys id path include_hidden job h =
    elim (Option-cases (get_recursive_files depth sys path include_hidden)) [
      | inl e ↦
          let n = sym (new_read-get_recursive_files depth sys id path include_hidden none e) ∙ h in
          absurd (cc)
      | inr (fs, e) ↦
          subst (λ (j : Reader). j.id ≡ id)
            (some-injective (Transfer.new_write id path fs) job
              (sym (new_read-get_recursive_files depth sys id path include_hidden (some fs) e) ∙ h))
            refl
    ]

-- A job that `new_read` makes is read to its end in a bounded number of reads, a new writing job
-- with its number and files takes all its blocks without an error, and once the last file is
-- renamed every file holds, under its own name, the bytes that the reading side had in it. There
-- are less than 2^31 files, every file opens and every read of it yields something, the calls of
-- the system succeed, no two files have one path and none has the path of another with `.download`
-- behind it, no two paths of the disk share contents, and zstd gives back what it compressed.
pub read_all-copies :
    (z : Zstd) (sys : System) (open_file : Opened) (depth id : ℕ) (from path : Text)
    (include_hidden : Bool) (job : Reader) (d : Disk)
    → Lossless z
    → Transfer.new_read depth sys id from include_hidden ≡ some job
    → length job.files < 2 ^ 31
    → All (Readable z sys open_file from) job.files
    → Distinct sys z open_file from path id job.files
    → Sane d
    → (bs : List FileTransferBlock) × (read_all z sys open_file
          (suc (length job.files + total z sys open_file from job.files))
          job
        ≡ some bs)
      × ((write_all sys z bs (Transfer.new_write id path job.files) d).2 ≡ true)
      × ((i : ℕ) (f : FileEntry)
          → get_elem? job.files i ≡ some f
          → read_path
              (modify_time sys
                (write_all sys z bs (Transfer.new_write id path job.files) d).0
                (write_all sys z bs (Transfer.new_write id path job.files) d).1)
              (join sys path f.name)
            ≡ some (bytes_of z sys open_file from f))
read_all-copies z sys open_file depth id from path include_hidden job d law h hl hr dis s =
    let r = read_all-ends z sys open_file depth id from include_hidden job law h hl hr in
    let n = new_read_numbered depth sys id from include_hidden job h in
    let copied =
      write_all-copies sys z open_file from path id job.files r.0 d dis hl r.2
        (read_all_numbered z sys open_file
          (suc (length job.files + total z sys open_file from job.files)) job id r.0 n r.1)
        s in
    (r.0, r.1, copied.0, copied.1)
