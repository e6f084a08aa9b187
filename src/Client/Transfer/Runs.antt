-- ===== src/Client/Transfer/Runs.antt =====
-- Examples for the jobs, with a compression that adds a byte, so that it is never used.
use kd_desk_tc.Prelude.{
  get_elem?, ap, zero, subst, ◌≢◌, sym, ◌∙◌, ℕ, zero, suc, ◌+◌, ◌^◌, ◌≤◌, ◌≡◌, refl, sym, arith,
  ltb, if◌then◌else◌, Bool, true, false, Option, none, some, List, [], ◌∷◌, ◌++◌, length, All,
  list_eq, ◌==◌,
}
use mathlib.Core.Option.{some-injective}
use kd_desk_tc.Strings.{bytes}
use kd_desk_tc.Proto.{Text}
use kd_desk_tc.Client.Proto.{FileEntry, FileTransferBlock}
use kd_desk_tc.Client.Compress.{Zstd}
use kd_desk_tc.Client.Files.{System, DirEntry, Metadata}
use kd_desk_tc.Client.Transfer
use kd_desk_tc.Client.Transfer.{Reader, Reads, Opened}
use kd_desk_tc.Client.Transfer.Fills.{Sound}
use kd_desk_tc.Client.Transfer.Packing.{Lossless}
use kd_desk_tc.Client.Transfer.Blocks.{bytes_of, read_all, Carries, Readable, total}
use kd_desk_tc.HashMap
use kd_desk_tc.Client.Transfer.Disk.{Disk, read_path}
use kd_desk_tc.Client.Transfer.Disk.Laws.{Sane}
use kd_desk_tc.Client.Transfer.Write
use kd_desk_tc.Client.Transfer.Write.{download_path}
use kd_desk_tc.Client.Transfer.Write.Steps.{write_all}
use kd_desk_tc.Client.Transfer.Write.Midway.{Distinct}
use kd_desk_tc.Client.Transfer.Whole.{read_all-copies}
use kd_desk_tc.Client.Transfer.Progress.{read_all-ends}

-- A directory with two files, one of them empty.
abbrev meta : ℕ → Metadata
meta n = record { file_attributes = 0; is_symlink = false; len = n; modified = 9 }

abbrev child : Text → ℕ → Option DirEntry
child name n = some (record { file_name = name; meta = some (meta n); is_dir = false })

abbrev system : System
system = record {
  join = λ p n. p ++ n;
  is_dir = λ p. true;
  is_file = λ p. false;
  entries = λ p. some (child (bytes "a") 3 ∷ child (bytes "b") 0 ∷ []);
  metadata = λ p. none;
  logical_drives = 0;
}

abbrev open_file : Opened
open_file p = if p == bytes "da" then some (some (1 ∷ 2 ∷ []) ∷ some (3 ∷ []) ∷ []) else some []

rest : Text → Option Text
rest [] = none
rest (c ∷ cs) = some cs

abbrev zstd : Zstd
zstd = record { compress = λ t n. some (0 ∷ t); decompress = λ t n. rest t }

zstd-Lossless : Lossless zstd
unfolding Lossless rest
zstd-Lossless x = (0 ∷ x, refl, λ n h. refl)

abbrev entry : Text → ℕ → FileEntry
entry name n = record {
  entry_type = 4;
  name = name;
  is_hidden = false;
  size = n;
  modified_time = 9;
}

abbrev job : Reader
job = Transfer.new_write 7 (bytes "d") (entry (bytes "a") 3 ∷ entry (bytes "b") 0 ∷ [])

new_read-job : Transfer.new_read 5 system 7 (bytes "d") false ≡ some job
unfolding Transfer.new_read kd_desk_tc.Client.Files.get_recursive_files
    kd_desk_tc.Prelude.list_discrete
new_read-job = refl

readable : All (Readable zstd system open_file (bytes "d")) job.files
unfolding Transfer.new_write Transfer.join Sound kd_desk_tc.Prelude.list_discrete
readable = (
  (some (1 ∷ 2 ∷ []) ∷ some (3 ∷ []) ∷ [], refl, ((1, 2 ∷ [], refl), ((3, [], refl), tt))),
  (([], refl, tt), tt),
)

read_all-ends_example :
    (bs : List FileTransferBlock) × (read_all zstd system open_file
        (suc (length job.files + total zstd system open_file (bytes "d") job.files))
        job
      ≡ some bs)
    × Carries zstd system open_file (bytes "d") 0 job.files bs
read_all-ends_example =
    read_all-ends zstd system open_file 5 7 (bytes "d") false job zstd-Lossless new_read-job
      (unfold Transfer.new_write in omega arith) readable

-- A directory with one file.
abbrev single : System
single = record system { entries = λ p. some (child (bytes "a") 3 ∷ []) }

abbrev one : List FileEntry
one = entry (bytes "a") 3 ∷ []

abbrev empty_disk : Disk
empty_disk = record { names = []; contents = []; times = []; next = 0 }

abbrev in_e : FileEntry → Text
in_e f = Transfer.join single (bytes "e") f.name

not_longer : download_path (in_e (entry (bytes "a") 3)) ≢ in_e (entry (bytes "a") 3)
unfolding Transfer.join kd_desk_tc.Prelude.list_discrete download_path
not_longer e = absurd (omega (arith, ap length e))

one-Distinct : Distinct single zstd open_file (bytes "d") (bytes "e") 7 one
unfolding Distinct
one-Distinct zero zero f g hf hg = (
  λ e. refl,
  subst (λ x. download_path (in_e x) ≢ in_e g) (some-injective (entry (bytes "a") 3) f hf)
      (subst (λ y. download_path (in_e (entry (bytes "a") 3)) ≢ in_e y)
        (some-injective (entry (bytes "a") 3) g hg) not_longer),
)
one-Distinct zero (suc j) f g hf hg = absurd (cc)
one-Distinct (suc i) j f g hf hg = absurd (cc)

empty_disk-Sane : Sane empty_disk
unfolding Sane kd_desk_tc.Client.Transfer.Disk.Laws.Injective
    kd_desk_tc.Client.Transfer.Disk.Laws.Below HashMap.get
empty_disk-Sane = (λ p q i h k. absurd (cc), λ p i h. absurd (cc))

abbrev reader : Reader
reader = Transfer.new_write 7 (bytes "d") one

new_read-reader : Transfer.new_read 5 single 7 (bytes "d") false ≡ some reader
unfolding Transfer.new_read kd_desk_tc.Client.Files.get_recursive_files
    kd_desk_tc.Prelude.list_discrete
new_read-reader = refl

reader-Readable : All (Readable zstd single open_file (bytes "d")) reader.files
unfolding Transfer.new_write Transfer.join Sound kd_desk_tc.Prelude.list_discrete
reader-Readable =
    ((some (1 ∷ 2 ∷ []) ∷ some (3 ∷ []) ∷ [], refl, ((1, 2 ∷ [], refl), ((3, [], refl), tt))), tt)

read_all-copies_example :
    (bs : List FileTransferBlock) × (read_all zstd single open_file
        (suc (length reader.files + total zstd single open_file (bytes "d") reader.files))
        reader
      ≡ some bs)
    × ((write_all single zstd bs (Transfer.new_write 7 (bytes "e") reader.files) empty_disk).2
        ≡ true)
    × ((i : ℕ) (f : FileEntry)
        → get_elem? reader.files i ≡ some f
        → read_path
            (Write.modify_time single
              (write_all single zstd bs
                (Transfer.new_write 7 (bytes "e") reader.files)
                empty_disk).0
              (write_all single zstd bs
                (Transfer.new_write 7 (bytes "e") reader.files)
                empty_disk).1)
            (Transfer.join single (bytes "e") f.name)
          ≡ some (bytes_of zstd single open_file (bytes "d") f))
read_all-copies_example =
    read_all-copies zstd single open_file 5 7 (bytes "d") (bytes "e") false reader empty_disk
      zstd-Lossless new_read-reader (unfold Transfer.new_write in omega arith) reader-Readable
      (unfold Transfer.new_write in one-Distinct) empty_disk-Sane
