-- ===== src/Client/Transfer/Write/Steps.antt =====
-- Writing block after block, call by call.
use kd_desk_tc.Prelude.{
  ℕ, zero, suc, ◌+◌, ◌%◌, ◌^◌, ◌<◌, ◌≡◌, refl, sym, arith, Bool, true, false, not, ◌&&◌, none, some,
  List, [], ◌∷◌, ◌++◌, All, ◌==◌, nat_eq, list_eq, length, get_elem?, ==_refl, true≢false,
}
use kd_desk_tc.Proto.{Text}
use kd_desk_tc.HashMap
use kd_desk_tc.Client.Proto.{FileEntry, FileTransferBlock}
use kd_desk_tc.Client.Compress.{Zstd}
use kd_desk_tc.Client.Files.{System}
use kd_desk_tc.Client.Transfer.{as_usize}
use kd_desk_tc.Client.Transfer.Packing.{decode}
use kd_desk_tc.Client.Transfer.Disk
use kd_desk_tc.Client.Transfer.Disk.{Disk, contents_of, read_path}
use kd_desk_tc.Client.Transfer.Write
use kd_desk_tc.Client.Transfer.Write.{
  Writer, Written, Outcome, write, modify_time, download_path, is_open,
}

-- Every call of the system succeeds.
abbrev pub fine : Outcome
fine = record { synced = true; created = true; written = none }

unfoldable pub go_on : Written → Written → Written
go_on (job, d, true) rest = rest
go_on (job, d, false) rest = (job, d, false)

-- Writing blocks until one fails.
unfoldable pub write_all : System → Zstd → List FileTransferBlock → Writer → Disk → Written
write_all sys z [] job d = (job, d, true)
write_all sys z (b ∷ bs) job d =
    let r = write sys z fine b none job d in go_on r (write_all sys z bs r.0 r.1)

unfoldable pub counted : Zstd → FileTransferBlock → Writer → Writer
counted z b job = record job {
  finished_size = (job.finished_size + length (decode z b)) % 2 ^ 64;
  transferred = (job.transferred + length b.payload) % 2 ^ 64;
}

pub write_selected :
    (sys : System) (z : Zstd) (b : FileTransferBlock) (f : FileEntry) (job : Writer) (d : Disk)
    → b.id ≡ job.id
    → get_elem? job.files (as_usize b.file_num) ≡ some f
    → write sys z fine b none job d
      ≡ Write.write_data z fine b none (Write.select_file sys fine b.file_num f job d)
unfolding write Write.write_data Write.wire_of
write_selected sys z b f job d h k = rw (h, ==_refl job.id, k) refl

pub data_appended :
    (z : Zstd) (b : FileTransferBlock) (job : Writer) (d : Disk) (i : ℕ)
    → job.file ≡ some i
    → Write.write_data z fine b none (job, d, true)
      ≡ (counted z b job, Disk.append d i (decode z b), true)
unfolding Write.write_data Write.append_data Write.wire_of counted decode
data_appended z b job d i h = rw (h) refl

pub not_equal : (j i : ℕ) → j == i ≡ false → j ≡ i → ⊥
not_equal j i q e = absurd (ground arith)

pub below : (j i : ℕ) → j == i ≡ false → j < suc i → j < i
below j i q h = ground arith

pub and_false : (b : Bool) → (b && not true) ≡ false
and_false true = refl
and_false false = refl

pub false_right : (b : Bool) → (b && false) ≡ false
false_right true = refl
false_right false = refl

pub go_on-true : (job : Writer) (d : Disk) (rest : Written) → rest ≡ go_on (job, d, true) rest
unfolding go_on
go_on-true job d rest = refl

pub go_on_assoc :
    (r q : Written) (k : Writer → Disk → Written)
    → go_on r (go_on q (k q.0 q.1)) ≡ go_on (go_on r q) (k (go_on r q).0 (go_on r q).1)
unfolding go_on
go_on_assoc (job, d, true) q k = refl
go_on_assoc (job, d, false) q k = refl

pub not_suc : (i : ℕ) → i ≡ suc i → ⊥
not_suc i e = absurd (omega (arith, e))

pub go_on_if : (r rest : Written) → r.2 ≡ true → go_on r rest ≡ rest
unfolding go_on
go_on_if (job, d, true) rest h = refl
go_on_if (job, d, false) rest h = absurd (true≢false (sym h))

pub All-left :
    (xs ys : List FileTransferBlock) (id : ℕ)
    → All (λ b. b.id ≡ id) (xs ++ ys)
    → All (λ b. b.id ≡ id) xs
All-left [] ys id h = tt
All-left (x ∷ xs) ys id h = (h.0, All-left xs ys id h.1)

pub All-right :
    (xs ys : List FileTransferBlock) (id : ℕ)
    → All (λ b. b.id ≡ id) (xs ++ ys)
    → All (λ b. b.id ≡ id) ys
All-right [] ys id h = h
All-right (x ∷ xs) ys id h = All-right xs ys id h.1

pub in_range :
    (files : List FileEntry) (i : ℕ) (f : FileEntry) → get_elem? files i ≡ some f → i < length files
in_range [] i f h = absurd (cc)
in_range (g ∷ fs) zero f h = omega arith
in_range (g ∷ fs) (suc i) f h = omega (arith, in_range fs i f h)

pub rename_missing : (d : Disk) (a b : Text) → HashMap.get d.names a ≡ none → Disk.rename d a b ≡ d
unfolding Disk.rename
rename_missing d a b h = rw (Disk.rename, h) refl
