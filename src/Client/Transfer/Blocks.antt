-- ===== src/Client/Transfer/Blocks.antt =====
-- The blocks of a whole job, read by read.
use kd_desk_tc.Prelude.{
  ◌<◌, ℕ, zero, suc, ◌+◌, ◌≡◌, refl, ap, ◌∙◌, Option, none, some, List, [], ◌∷◌, ◌++◌, All, nat_eq,
  length, get_elem?,
}
use kd_desk_tc.Proto.{Text}
use kd_desk_tc.Client.Proto.{FileEntry, FileTransferBlock}
use kd_desk_tc.Client.Files.{System}
use kd_desk_tc.Client.Compress.{Zstd}
use kd_desk_tc.Client.Transfer
use kd_desk_tc.Client.Transfer.{
  Reader, Reads, ReadResult, Opened, buf_size, fill, pack, read, read_opened, read_filled,
  read_failed, opened, join, as_usize, next_num,
}
use kd_desk_tc.Client.Transfer.Fills.{content, Sound}
use kd_desk_tc.Client.Transfer.Packing.{decode_all}

-- A block goes before the rest; the job's end ends the blocks.
unfoldable pub then_blocks :
    ReadResult → Option (List FileTransferBlock) → Option (List FileTransferBlock)
then_blocks ReadResult.failed rest = none
then_blocks ReadResult.finished rest = some []
then_blocks (ReadResult.block b) none = none
then_blocks (ReadResult.block b) (some bs) = some (b ∷ bs)

-- Reading a job to its end: nothing if a read fails, or if there are more reads than the fuel.
unfoldable pub read_all : Zstd → System → Opened → ℕ → Reader → Option (List FileTransferBlock)
read_all z sys open_file zero job = none
read_all z sys open_file (suc n) job =
    let r = read z sys open_file job in then_blocks r.1 (read_all z sys open_file n r.0)

-- The blocks of one file, one at least, carry its number and add up to its bytes.
unfoldable pub FromFile : Zstd → ℕ → Text → List FileTransferBlock → Type 0
FromFile z i bytes bs = All (λ b. b.file_num ≡ i) bs × (decode_all z bs ≡ bytes) × (0 < length bs)

module _ (z : Zstd) (sys : System) (open_file : Opened) (path : Text) where
  -- What an entry's file holds.
  abbrev pub bytes_of : FileEntry → Text
  bytes_of f = elim (open_file (join sys path f.name)) [ none ↦ [] | some rs ↦ content rs ]

  abbrev pub Readable : FileEntry → Type 0
  Readable f = (rs : Reads) × (open_file (join sys path f.name) ≡ some rs) × Sound rs

  -- The blocks of the files from number `i` on, one file after the other.
  unfoldable pub Carries : ℕ → List FileEntry → List FileTransferBlock → Type 0
  unfolding FromFile
  Carries i [] bs = bs ≡ []
  Carries i (f ∷ fs) bs =
      (xs : List FileTransferBlock) × (ys : List FileTransferBlock) × (bs ≡ xs ++ ys)
      × FromFile z i (bytes_of f) xs
      × Carries (suc i) fs ys

  pub read-read_opened :
      (job : Reader) (f : FileEntry) (rs : Reads)
      → get_elem? job.files (as_usize job.file_num) ≡ some f
      → opened sys open_file f.name job ≡ some rs
      → read z sys open_file job ≡ read_opened z f.name job rs
  unfolding read Transfer.read_file
  read-read_opened job f rs h k = rw (read, h, Transfer.read_file, k) refl

  pub read_end :
      (job : Reader)
      → get_elem? job.files (as_usize job.file_num) ≡ none
      → read z sys open_file job ≡ (record job { file = none }, ReadResult.finished)
  unfolding read
  read_end job h = rw (read, h) refl

  pub read-read_filled :
      (job : Reader) (f : FileEntry) (rs : Reads) (r : Text × Reads)
      → get_elem? job.files (as_usize job.file_num) ≡ some f
      → opened sys open_file f.name job ≡ some rs
      → fill buf_size rs ≡ some r
      → read z sys open_file job ≡ read_filled z f.name job r
  unfolding read_opened
  read-read_filled job f rs r h k e = read-read_opened job f rs h k ∙ rw (read_opened, e) refl

  pub read_all_step :
      (n : ℕ) (job : Reader) (r : Reader × ReadResult)
      → read z sys open_file job ≡ r
      → read_all z sys open_file (suc n) job ≡ then_blocks r.1 (read_all z sys open_file n r.0)
  unfolding read_all
  read_all_step n job r h =
      ap (λ (q : Reader × ReadResult). then_blocks q.1 (read_all z sys open_file n q.0)) h

  -- One more block before the rest.
  pub read_all_block :
      (n : ℕ) (job next : Reader) (b : FileTransferBlock) (bs : List FileTransferBlock)
      → read z sys open_file job ≡ (next, ReadResult.block b)
      → read_all z sys open_file n next ≡ some bs
      → read_all z sys open_file (suc n) job ≡ some (b ∷ bs)
  unfolding then_blocks
  read_all_block n job next b bs h k =
      read_all_step n job (next, ReadResult.block b) h ∙ ap (then_blocks (ReadResult.block b)) k

  pub read_all_end :
      (n : ℕ) (job : Reader)
      → get_elem? job.files (as_usize job.file_num) ≡ none
      → read_all z sys open_file (suc n) job ≡ some []
  unfolding then_blocks
  read_all_end n job h =
      read_all_step n job (record job { file = none }, ReadResult.finished) (read_end job h)

  -- The bytes of all files.
  abbrev pub total : List FileEntry → ℕ
  total [] = 0
  total (f ∷ fs) = length (bytes_of f) + total fs
