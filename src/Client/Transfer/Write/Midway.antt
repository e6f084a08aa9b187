-- ===== src/Client/Transfer/Write/Midway.antt =====
-- The state in the middle of a file and between two files.
use kd_desk_tc.Prelude.{
  ℕ, suc, ◌^◌, ◌<◌, ◌≡◌, ◌≢◌, ◌⊎◌, inl, inr, refl, sym, ap, subst, ◌∙◌, true, not, ◌&&◌, none, some,
  List, [], ◌∷◌, ◌++◌, All, ◌==◌, nat_eq, list_eq, get_elem?, ==_refl, lt→ltb, Bool-cases, if_false,
  ==→eq,
}
use mathlib.Core.List.{append_assoc, append-nil}
use mathlib.Core.Option.{some-injective}
use kd_desk_tc.Proto.{Text}
use kd_desk_tc.HashMap
use kd_desk_tc.Client.Proto.{FileEntry, FileTransferBlock}
use kd_desk_tc.Client.Compress.{Zstd}
use kd_desk_tc.Client.Files.{System}
use kd_desk_tc.Client.Transfer.{as_usize, join, Opened}
use kd_desk_tc.Client.Transfer.Packing.{decode, decode_all}
use kd_desk_tc.Client.Transfer.Blocks.{bytes_of}
use kd_desk_tc.Client.Transfer.Disk
use kd_desk_tc.Client.Transfer.Disk.{Disk, contents_of, read_path}
use kd_desk_tc.Client.Transfer.Disk.Laws.{
  Sane, Appended, append-Appended, Renamed, rename-Renamed, set_file_mtime-read_path,
  set_file_mtime-Sane, Injective,
}
use kd_desk_tc.Client.Transfer.Write
use kd_desk_tc.Client.Transfer.Write.{
  Writer, Written, Outcome, write, modify_time, download_path, is_open,
}
use kd_desk_tc.Client.Transfer.Write.Steps.{
  fine, go_on, write_all, counted, write_selected, data_appended, not_equal, below, and_false,
}

module _ (sys : System) (z : Zstd) (open_file : Opened) (from path : Text) (id : ℕ)
    (files : List FileEntry) where
  abbrev pub target : FileEntry → Text
  target f = join sys path f.name

  abbrev pub bytes : FileEntry → Text
  bytes f = bytes_of z sys open_file from f

  -- No file is written where another is, or where another is on its way.
  unfoldable pub Distinct : Type 0
  Distinct =
      (i j : ℕ) (f g : FileEntry)
      → get_elem? files i ≡ some f
      → get_elem? files j ≡ some g
      → (target f ≡ target g → i ≡ j) × (download_path (target f) ≢ target g)

  -- The first `i` files are there.
  unfoldable pub Stored : ℕ → Disk → Type 0
  Stored i d =
      (j : ℕ) (g : FileEntry)
      → j < i
      → get_elem? files j ≡ some g
      → read_path d (target g) ≡ some (bytes g)

  unfoldable pub Own : Writer → Type 0
  Own job = (job.id ≡ id) × (job.files ≡ files) × (job.path ≡ path)

  -- In the middle of file `i`, of which this much has been written.
  unfoldable pub Mid : ℕ → FileEntry → ℕ → Text → Writer → Disk → Type 0
  Mid i f ino acc job d =
      Own job
      × (job.file_num ≡ i)
      × (job.file ≡ some ino)
      × (HashMap.get d.names (download_path (target f)) ≡ some ino)
      × (contents_of d ino ≡ acc)
      × Stored i d
      × Sane d

  pub at_block :
      (job : Writer) (i n : ℕ) (f : FileEntry)
      → job.files ≡ files
      → n ≡ i
      → i < 2 ^ 31
      → get_elem? files i ≡ some f
      → get_elem? job.files (as_usize n) ≡ some f
  unfolding as_usize
  at_block job i n f h k hi hf = rw (h, k, lt→ltb i (2 ^ 31) hi) hf

  -- What a block of the file adds.
  pub add_block :
      Distinct
      → (i : ℕ) (f : FileEntry) (ino : ℕ) (acc : Text) (b : FileTransferBlock) (job : Writer)
        (d : Disk)
      → get_elem? files i ≡ some f
      → Mid i f ino acc job d
      → Mid i f ino (acc ++ decode z b) (counted z b job) (Disk.append d ino (decode z b))
  unfolding Mid Own Stored counted Appended Distinct
  add_block dis i f ino acc b job d hf (own, num, file, name, held, stored, sane) =
      let a = append-Appended d ino (decode z b) sane in
      (
        own,
        num,
        file,
        ap (λ m. HashMap.get m (download_path (target f))) a.1 ∙ name,
        a.2 ∙ ap (λ t. t ++ decode z b) held,
        λ j g hj hg.
            a.3 (target g) (λ e.
              (dis i j f g hf hg).1
                (unfold Sane Injective in sane.0 (download_path (target f)) (target g) ino name e))
            ∙ stored j g hj hg,
        a.0,
      )

  pub same_file :
      (i : ℕ) (f : FileEntry) (ino : ℕ) (job : Writer) (d : Disk)
      → job.file_num ≡ i
      → job.file ≡ some ino
      → Write.select_file sys fine i f job d ≡ (job, d, true)
  unfolding Write.select_file is_open
  same_file i f ino job d h k = rw (h, k, ==_refl (as_usize i)) refl

  pub write_more :
      Distinct
      → (i : ℕ) (f : FileEntry) (ino : ℕ) (acc : Text) (b : FileTransferBlock) (job : Writer)
        (d : Disk)
      → get_elem? files i ≡ some f
      → i < 2 ^ 31
      → b.file_num ≡ i
      → b.id ≡ id
      → Mid i f ino acc job d
      → write sys z fine b none job d ≡ (counted z b job, Disk.append d ino (decode z b), true)
  unfolding Mid Own
  write_more dis i f ino acc b job d hf hi hb hid mid =
      write_selected sys z b f job d (hid ∙ sym mid.0.0)
        (at_block job i (b.file_num) f mid.0.1 hb hi hf)
      ∙ ap (λ n. Write.write_data z fine b none (Write.select_file sys fine n f job d)) hb
      ∙ ap (Write.write_data z fine b none) (same_file i f ino job d mid.1 mid.2)
      ∙ data_appended z b job d ino mid.2

  -- The outcome of writing: it succeeds, and the files up to number `i` are there or on their way.
  unfoldable pub Writes : ℕ → FileEntry → ℕ → Text → Written → Type 0
  Writes i f ino acc r = (r.2 ≡ true) × Mid i f ino acc r.0 r.1

  pub write_all_step :
      (b : FileTransferBlock) (bs : List FileTransferBlock) (job next : Writer) (d e : Disk)
      → write sys z fine b none job d ≡ (next, e, true)
      → write_all sys z (b ∷ bs) job d ≡ write_all sys z bs next e
  unfolding write_all go_on
  write_all_step b bs job next d e h = ap (λ (r : Written). go_on r (write_all sys z bs r.0 r.1)) h

  -- The blocks of a file behind its first.
  pub write_file :
      Distinct
      → (i : ℕ) (f : FileEntry) (ino : ℕ) → get_elem? files i ≡ some f
      → i < 2 ^ 31
      → (bs : List FileTransferBlock) (acc : Text) (job : Writer) (d : Disk)
      → All (λ b. b.file_num ≡ i) bs
      → All (λ b. b.id ≡ id) bs
      → Mid i f ino acc job d
      → Writes i f ino (acc ++ decode_all z bs) (write_all sys z bs job d)
  unfolding Writes decode_all write_all
  write_file dis i f ino hf hi [] acc job d hn hid mid =
      (refl, subst (λ t. Mid i f ino t job d) (sym (append-nil acc)) mid)
  write_file dis i f ino hf hi (b ∷ bs) acc job d hn hid mid =
      subst (Writes i f ino (acc ++ decode_all z (b ∷ bs)))
        (sym (
          write_all_step b bs job (counted z b job) d (Disk.append d ino (decode z b))
            (write_more dis i f ino acc b job d hf hi hn.0 hid.0 mid)))
        (subst
          (λ t.
            Writes i f ino t
              (write_all sys z bs (counted z b job) (Disk.append d ino (decode z b))))
          (append_assoc acc (decode z b) (decode_all z bs))
          (write_file dis i f ino hf hi bs (acc ++ decode z b) (counted z b job)
            (Disk.append d ino (decode z b)) hn.1 hid.1 (add_block dis i f ino acc b job d hf mid)))

  -- Between two files: the file before is renamed first.
  unfoldable pub Between : ℕ → Writer → Disk → Type 0
  Between i job d =
      Own job
      × (((job.file_num < 2 ^ 31) × (job.file_num ≢ i)) ⊎ (job.file ≡ none))
      × Stored i (modify_time sys job d)
      × Sane (modify_time sys job d)

  unfoldable pub finished : Disk → FileEntry → Disk
  finished d f =
      Disk.set_file_mtime (Disk.rename d (download_path (target f)) (target f)) (target f)
        f.modified_time

  pub modify_found :
      (job : Writer) (d : Disk) (f : FileEntry)
      → get_elem? job.files (as_usize job.file_num) ≡ some f
      → modify_time sys job d ≡ Write.finish_file sys job f d
  unfolding modify_time
  modify_found job d f h = rw (modify_time, h) refl

  pub renamed :
      (i : ℕ) (f : FileEntry) (job : Writer) (d : Disk)
      → i < 2 ^ 31
      → get_elem? files i ≡ some f
      → Own job
      → job.file_num ≡ i
      → modify_time sys job d ≡ finished d f
  unfolding Write.finish_file Own finished
  renamed i f job d hi hf own h =
      modify_found job d f (at_block job i job.file_num f own.1 h hi hf)
      ∙ ap
          (λ p.
            Disk.set_file_mtime
              (Disk.rename d (download_path (join sys p f.name)) (join sys p f.name))
              (join sys p f.name) f.modified_time)
          own.2

  pub finished-Stored :
      Distinct
      → (i : ℕ) (f : FileEntry) (ino : ℕ) (job : Writer) (d : Disk) → get_elem? files i ≡ some f
      → Mid i f ino (bytes f) job d
      → Stored (suc i) (finished d f) × Sane (finished d f)
  unfolding Mid Stored Renamed Distinct finished
  finished-Stored dis i f ino job d hf (own, num, file, name, held, stored, sane) =
      let r = rename-Renamed d (download_path (target f)) (target f) ino sane name in
      let e = Disk.rename d (download_path (target f)) (target f) in
      let same = set_file_mtime-read_path e (target f) f.modified_time in
      (
        λ j g hj hg. elim (Bool-cases (j == i)) [
          | inl q ↦
              let eq : f ≡ g =
                some-injective f g (sym hf ∙ ap (get_elem? files) (sym (==→eq j i q)) ∙ hg) in
              subst
                (λ h.
                  read_path (Disk.set_file_mtime e (target f) f.modified_time) (target h)
                  ≡ some (bytes h))
                eq (same (target f) ∙ r.1 ∙ ap some held)
          | inr q ↦
              same (target g)
              ∙ r.2 (target g) (dis i j f g hf hg).1
                  (λ k. not_equal j i q (sym ((dis i j f g hf hg).0 k)))
              ∙ stored j g (below j i q hj) hg
        ],
        set_file_mtime-Sane e (target f) f.modified_time r.0,
      )

  pub Mid-Stored :
      Distinct
      → (i : ℕ) (f : FileEntry) (ino : ℕ) (job : Writer) (d : Disk) → i < 2 ^ 31
      → get_elem? files i ≡ some f
      → Mid i f ino (bytes f) job d
      → Stored (suc i) (modify_time sys job d) × Sane (modify_time sys job d)
  Mid-Stored dis i f ino job d hi hf mid =
      subst (λ e. Stored (suc i) e × Sane e)
        (sym (renamed i f job d hi hf (unfold Mid in mid.0) (unfold Mid in mid.1)))
        (finished-Stored dis i f ino job d hf mid)

  -- The job and the disk when the next file has been created.
  unfoldable pub started : ℕ → ℕ → Writer → Writer
  started i ino job = record job { file_num = i; file = some ino }

  unfoldable pub made : FileEntry → Disk → Disk × ℕ
  made f d = Disk.create d (download_path (target f))

  pub closed :
      (i : ℕ) (f : FileEntry) (job : Writer) (d : Disk)
      → job.path ≡ path
      → Write.next_file sys fine i f job d ≡ (
        started i (made f (modify_time sys job d)).1 job,
        (made f (modify_time sys job d)).0,
        true,
      )
  unfolding Write.next_file Write.create_next started made
  closed i f job d h =
      if_false (is_open job.file && not true) _ _ (and_false (is_open job.file))
      ∙ ap
          (λ p. (
            started i (Disk.create (modify_time sys job d) (download_path (join sys p f.name))).1
                job,
            (Disk.create (modify_time sys job d) (download_path (join sys p f.name))).0,
            true,
          ))
          h
