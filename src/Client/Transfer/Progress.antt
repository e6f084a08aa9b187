-- ===== src/Client/Transfer/Progress.antt =====
-- Reading jobs come to an end, and their blocks carry the files.
use kd_desk_tc.Prelude.{
  ℕ, zero, suc, ◌+◌, ◌-◌, ◌^◌, ◌≤◌, ◌<◌, ◌≡◌, ◌⊎◌, inl, inr, refl, sym, ap, subst, ◌∙◌, arith, Bool,
  false, Option, none, some, List, [], ◌∷◌, ◌++◌, All, nat_eq, length, get_elem?, Option-cases,
  lt→ltb, length-append,
}
use mathlib.Core.List.{append_assoc}
use mathlib.Core.Option.{some-injective}
use kd_desk_tc.Proto.{Text}
use kd_desk_tc.Client.Proto.{FileEntry, FileTransferBlock}
use kd_desk_tc.Client.Files.{System, get_recursive_files}
use kd_desk_tc.Client.Compress.{Zstd}
use kd_desk_tc.Client.Transfer
use kd_desk_tc.Client.Transfer.{
  Reader, Reads, ReadResult, Opened, buf_size, fill, pack, read, read_opened, read_filled,
  read_failed, opened, join, as_usize, next_num,
}
use kd_desk_tc.Client.Transfer.Fills.{content, Sound, Fills, fill-Fills}
use kd_desk_tc.Client.Transfer.Packing.{decode, decode_all, Lossless, unpacked, unpacked-pack}
use kd_desk_tc.Client.Transfer.Blocks.{
  read_all, FromFile, bytes_of, Readable, Carries, read-read_filled, read_all_block, read_all_end,
  total,
}

pub get_elem?-append :
    (pre : List FileEntry) (f : FileEntry) (fs : List FileEntry)
    → get_elem? (pre ++ f ∷ fs) (length pre) ≡ some f
get_elem?-append [] f fs = refl
get_elem?-append (p ∷ pre) f fs = get_elem?-append pre f fs

pub get_elem?-end : (pre : List FileEntry) → get_elem? (pre ++ []) (length pre) ≡ none
get_elem?-end [] = refl
get_elem?-end (p ∷ pre) = get_elem?-end pre

pub length_snoc : (pre : List FileEntry) (f : FileEntry) → length (pre ++ f ∷ []) ≡ suc (length pre)
length_snoc [] f = refl
length_snoc (p ∷ pre) f = ap suc (length_snoc pre f)

module _ (z : Zstd) (sys : System) (open_file : Opened) (path : Text) where
  module _ (files : List FileEntry) where
    -- A job that stands at file number `i`.
    abbrev pub At : ℕ → Reader → Type 0
    At i job = (job.file_num ≡ i) × (job.files ≡ files) × (job.path ≡ path)

    -- From a job between two files on, any fuel from `m` up carries these files.
    abbrev Ends : ℕ → ℕ → List FileEntry → Type 0
    Ends m i fs =
        (n : ℕ) (job : Reader)
        → m ≤ n
        → At i job
        → job.file ≡ none
        → (bs : List FileTransferBlock) × (read_all z sys open_file n job ≡ some bs)
          × Carries z sys open_file path i fs bs

    -- The job behind the last block of a file.
    past : Reader → Reader
    past job = record job { file_num = next_num job.file_num; file = none }

    past-At : (i : ℕ) (job : Reader) → i < 2 ^ 31 → At i job → At (suc i) (past job)
    unfolding past next_num
    past-At i job hi at = (ap next_num at.0 ∙ omega arith, at.1, at.2)

    found :
        (i : ℕ) (f : FileEntry) (job : Reader)
        → i < 2 ^ 31
        → get_elem? files i ≡ some f
        → At i job
        → get_elem? job.files (as_usize job.file_num) ≡ some f
    unfolding as_usize
    found i f job hi hf at = rw (at.1, at.0, lt→ltb i (2 ^ 31) hi) hf

    -- What is left of a job inside a file, with the reads that are still to come.
    Rest : ℕ → List FileEntry → ℕ → Reader → Reads → Type 0
    Rest i fs n job rs =
        (xs : List FileTransferBlock) × (ys : List FileTransferBlock) × (read_all z sys open_file n
            job
          ≡ some (xs ++ ys))
        × FromFile z i (content rs) xs
        × Carries z sys open_file path (suc i) fs ys

    last_block :
        (i : ℕ) (f : FileEntry) (fs : List FileEntry) (m n : ℕ) (job : Reader) (rs left : Reads)
        → i < 2 ^ 31
        → get_elem? files i ≡ some f
        → Ends m (suc i) fs
        → m ≤ n
        → At i job
        → opened sys open_file f.name job ≡ some rs
        → Fills buf_size rs ([], left)
        → Rest i fs (suc n) job rs
    unfolding Rest Fills FromFile past decode_all decode read_filled Transfer.to_block content
    last_block i f fs m n job rs left hi hf ends hn at ho h =
        let e = ends n (past job) hn (past-At i job hi at) refl in
        (
          Transfer.to_block job ([], false) ∷ [],
          e.0,
          read_all_block z sys open_file path n job (past job) (Transfer.to_block job ([], false))
              e.0
              (read-read_filled z sys open_file path job f rs ([], left) (found i f job hi hf at) ho
                h.0)
              e.1,
          ((at.0, tt), sym (ap content (h.4 refl)), omega arith),
          e.2,
        )

    -- The job behind a block that is not the last of its file.
    inside : Text → Reader → Text × Reads → Reader
    inside name job r = (read_filled z name job r).0

    inside-At :
        (i : ℕ) (name : Text) (job : Reader) (b : ℕ) (bs : Text) (left : Reads)
        → At i job
        → At i (inside name job (b ∷ bs, left))
    unfolding inside read_filled
    inside-At i name job b bs left at = at

    inside-opened :
        (name : Text) (job : Reader) (b : ℕ) (bs : Text) (left : Reads)
        → opened sys open_file name (inside name job (b ∷ bs, left)) ≡ some left
    unfolding opened inside read_filled
    inside-opened name job b bs left = refl

    more_blocks :
        Lossless z
        → (i : ℕ) (f : FileEntry) (fs : List FileEntry) (n : ℕ) (job : Reader) (rs left : Reads)
          (b : ℕ) (bs : Text)
        → i < 2 ^ 31
        → get_elem? files i ≡ some f
        → At i job
        → opened sys open_file f.name job ≡ some rs
        → Fills buf_size rs (b ∷ bs, left)
        → Rest i fs n (inside f.name job (b ∷ bs, left)) left
        → Rest i fs (suc n) job rs
    unfolding Rest Fills FromFile inside decode_all decode read_filled Transfer.to_block unpacked
    more_blocks law i f fs n job rs left b bs hi hf at ho h (xs, ys, e, from, carries) =
        let bk = Transfer.to_block job (pack z f.name (b ∷ bs)) in
        (
          bk ∷ xs,
          ys,
          read_all_block z sys open_file path n job (inside f.name job (b ∷ bs, left)) bk (xs ++ ys)
              (read-read_filled z sys open_file path job f rs (b ∷ bs, left)
                (found i f job hi hf at) ho h.0)
              e,
          (
            (at.0, from.0),
            ap (λ t. t ++ decode_all z xs) (unpacked-pack z f.name (b ∷ bs) law h.3)
                ∙ ap (λ t. (b ∷ bs) ++ t) from.1
                ∙ h.1,
            omega arith,
          ),
          carries,
        )

    shorter :
        (rs left : Reads) (b : ℕ) (bs : Text) (k : ℕ)
        → Fills buf_size rs (b ∷ bs, left)
        → length (content rs) ≤ k
        → length (content left) ≤ k - 1
    unfolding Fills
    shorter rs left b bs k h hk =
        omega (arith, ap length h.1, length-append (b ∷ bs) (content left))

    shorter_fuel :
        (rs left : Reads) (b : ℕ) (bs : Text) (k m n : ℕ)
        → Fills buf_size rs (b ∷ bs, left)
        → length (content rs) ≤ k
        → m + k < suc n
        → m + (k - 1) < n
    unfolding Fills
    shorter_fuel rs left b bs k m n h hk hn =
        omega (arith, ap length h.1, length-append (b ∷ bs) (content left))

    nil_or_cons : (t : Text) → (t ≡ []) ⊎ ((b : ℕ) × (bs : Text) × (t ≡ b ∷ bs))
    nil_or_cons [] = inl refl
    nil_or_cons (b ∷ bs) = inr (b, bs, refl)

    in_file :
        Lossless z
        → (i : ℕ) (f : FileEntry) (fs : List FileEntry) (m : ℕ) → i < 2 ^ 31
        → get_elem? files i ≡ some f
        → Ends m (suc i) fs
        → (n k : ℕ) (job : Reader) (rs : Reads) → length (content rs) ≤ k
        → m + k < n
        → At i job
        → opened sys open_file f.name job ≡ some rs
        → Sound rs
        → Rest i fs n job rs
    in_file law i f fs m hi hf ends zero k job rs hk hn at ho s = absurd (omega arith)
    in_file law i f fs m hi hf ends (suc n) k job rs hk hn at ho s =
        let r = fill-Fills rs buf_size (omega arith) s in
        elim (nil_or_cons r.0.0) [
          | inl e ↦
              last_block i f fs m n job rs r.0.1 hi hf ends (omega arith) at ho
                (subst (λ x. Fills buf_size rs (x, r.0.1)) e r.1)
          | inr (b, bs, e) ↦
              let h = subst (λ x. Fills buf_size rs (x, r.0.1)) e r.1 in
              let left = r.0.1 in
              more_blocks law i f fs n job rs left b bs hi hf at ho h (
                in_file law i f fs m hi hf ends n (k - 1) (inside f.name job (b ∷ bs, left)) left
                  (shorter rs left b bs k h hk) (shorter_fuel rs left b bs k m n h hk hn)
                  (inside-At i f.name job b bs left at) (inside-opened f.name job b bs left)
                  (unfold Fills in h.2))
        ]

    opened_first :
        (job : Reader) (f : FileEntry) (rs : Reads) {i : ℕ}
        → At i job
        → job.file ≡ none
        → open_file (join sys path f.name) ≡ some rs
        → opened sys open_file f.name job ≡ some rs
    unfolding opened
    opened_first job f rs at hfile ho = rw (hfile, at.2) ho

    not_found :
        (pre : List FileEntry) (job : Reader)
        → files ≡ pre ++ []
        → length files < 2 ^ 31
        → At (length pre) job
        → get_elem? job.files (as_usize job.file_num) ≡ none
    unfolding as_usize
    not_found pre job e hl at =
        rw
          (
            at.1,
            at.0,
            lt→ltb (length pre) (2 ^ 31)
                (omega (arith, ap length e, length-append {A = FileEntry} pre [])),
          )
          (ap (λ l. get_elem? l (length pre)) e ∙ get_elem?-end pre)

    first-Rest :
        Lossless z
        → (i : ℕ) (f : FileEntry) (fs : List FileEntry) (m n : ℕ) (job : Reader) → i < 2 ^ 31
        → get_elem? files i ≡ some f
        → Ends m (suc i) fs
        → m + length (bytes_of z sys open_file path f) < n
        → At i job
        → job.file ≡ none
        → Readable z sys open_file path f
        → (bs : List FileTransferBlock) × (read_all z sys open_file n job ≡ some bs)
          × Carries z sys open_file path i (f ∷ fs) bs
    unfolding Carries Rest
    first-Rest law i f fs m n job hi hf ends hn at hfile (rs, ho, s) =
        let same : bytes_of z sys open_file path f ≡ content rs = rw (bytes_of, ho) refl in
        let r =
          in_file law i f fs m hi hf ends n (length (content rs)) job rs (omega arith)
            (omega (arith, ap length same)) at (opened_first job f rs at hfile ho) s in
        (r.0 ++ r.1, r.2, (r.0, r.1, refl, subst (λ t. FromFile z i t r.0) (sym same) r.3, r.4))

    -- Every file in turn.
    all_files :
        Lossless z
        → (fs pre : List FileEntry) → files ≡ pre ++ fs
        → length files < 2 ^ 31
        → All (Readable z sys open_file path) fs
        → Ends (suc (length fs + total z sys open_file path fs)) (length pre) fs
    unfolding Carries
    all_files law [] pre e hl hr zero job hn at hfile = absurd (omega arith)
    all_files law [] pre e hl hr (suc n) job hn at hfile =
        ([], read_all_end z sys open_file path n job (not_found pre job e hl at), refl)
    all_files law (f ∷ fs) pre e hl hr n job hn at hfile =
        first-Rest law (length pre) f fs (suc (length fs + total z sys open_file path fs)) n job
          (omega (arith, ap length e, length-append pre (f ∷ fs)))
          (ap (λ l. get_elem? l (length pre)) e ∙ get_elem?-append pre f fs)
          (subst (λ i. Ends (suc (length fs + total z sys open_file path fs)) i fs)
            (length_snoc pre f)
            (all_files law fs (pre ++ f ∷ []) (e ∙ sym (append_assoc pre (f ∷ []) fs)) hl hr.1))
          (omega arith) at hfile hr.0

pub new_read-get_recursive_files :
    (depth : ℕ) (sys : System) (id : ℕ) (path : Text) (include_hidden : Bool)
    (o : Option (List FileEntry))
    → get_recursive_files depth sys path include_hidden ≡ o
    → Transfer.new_read {F = Reads} depth sys id path include_hidden
      ≡ elim o [ none ↦ none | some files ↦ some (Transfer.new_write id path files) ]
unfolding Transfer.new_read
new_read-get_recursive_files depth sys id path include_hidden o e =
    ap
      (λ (p : Option (List FileEntry)). elim p [
        | none ↦ none
        | some files ↦ some (Transfer.new_write {F = Reads} id path files)
      ])
      e

abbrev Begins : Text → Reader → Type 0
Begins path job = (job.file_num ≡ 0) × (job.path ≡ path) × (job.file ≡ none)

new_read_job :
    (depth : ℕ) (sys : System) (id : ℕ) (path : Text) (include_hidden : Bool) (job : Reader)
    → Transfer.new_read depth sys id path include_hidden ≡ some job
    → Begins path job
unfolding Transfer.new_write
new_read_job depth sys id path include_hidden job h =
    elim (Option-cases (get_recursive_files depth sys path include_hidden)) [
      | inl e ↦
          let n = sym (new_read-get_recursive_files depth sys id path include_hidden none e) ∙ h in
          absurd (cc)
      | inr (fs, e) ↦
          subst (Begins path)
            (some-injective (Transfer.new_write id path fs) job
              (sym (new_read-get_recursive_files depth sys id path include_hidden (some fs) e) ∙ h))
            (refl, refl, refl)
    ]

-- A job that `new_read` makes is read to its end, without an error, in at most one read for each
-- byte of its files, one for each file and one more, and its blocks are those of the first file,
-- then those of the second and so on: the blocks of a file, one at least, carry its number and
-- decode to its bytes. Every file opens and every read of it succeeds and yields something, in
-- pieces of any size, there are less than 2^31 files, and zstd gives back what it compressed.
pub read_all-ends :
    (z : Zstd) (sys : System) (open_file : Opened) (depth id : ℕ) (path : Text)
    (include_hidden : Bool) (job : Reader)
    → Lossless z
    → Transfer.new_read depth sys id path include_hidden ≡ some job
    → length job.files < 2 ^ 31
    → All (Readable z sys open_file path) job.files
    → (bs : List FileTransferBlock) × (read_all z sys open_file
          (suc (length job.files + total z sys open_file path job.files))
          job
        ≡ some bs)
      × Carries z sys open_file path 0 job.files bs
read_all-ends z sys open_file depth id path include_hidden job law h hl hr =
    let j = new_read_job depth sys id path include_hidden job h in
    all_files z sys open_file path job.files law job.files [] refl hl hr
      (suc (length job.files + total z sys open_file path job.files)) job (omega arith)
      (j.0, refl, j.1) j.2
