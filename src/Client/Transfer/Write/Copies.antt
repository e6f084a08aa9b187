-- ===== src/Client/Transfer/Write/Copies.antt =====
-- Writing the blocks of a job makes every file what its blocks say.
use kd_desk_tc.Prelude.{
  ℕ, suc, ◌^◌, ◌<◌, ◌≡◌, ◌≢◌, ◌⊎◌, inl, inr, refl, sym, ap, subst, ◌∙◌, arith, true, ◌&&◌, none,
  some, List, [], ◌∷◌, ◌++◌, All, ◌==◌, nat_eq, list_eq, length, get_elem?, ne→==, lt→ltb,
  Option-cases, if_false, length-append,
}
use mathlib.Core.List.{append_assoc}
use kd_desk_tc.Proto.{Text}
use kd_desk_tc.HashMap
use kd_desk_tc.Client.Proto.{FileEntry, FileTransferBlock}
use kd_desk_tc.Client.Compress.{Zstd}
use kd_desk_tc.Client.Files.{System}
use kd_desk_tc.Client.Transfer
use kd_desk_tc.Client.Transfer.{as_usize, join, Opened}
use kd_desk_tc.Client.Transfer.Packing.{decode, decode_all}
use kd_desk_tc.Client.Transfer.Blocks.{FromFile, Carries, bytes_of}
use kd_desk_tc.Client.Transfer.Progress.{get_elem?-append, length_snoc}
use kd_desk_tc.Client.Transfer.Disk
use kd_desk_tc.Client.Transfer.Disk.{Disk, contents_of, read_path}
use kd_desk_tc.Client.Transfer.Disk.Laws.{
  Sane, Created, create-Created, Renamed, rename-Renamed, set_file_mtime-Sane,
}
use kd_desk_tc.Client.Transfer.Write
use kd_desk_tc.Client.Transfer.Write.{
  Writer, Written, Outcome, write, modify_time, download_path, is_open,
}
use kd_desk_tc.Client.Transfer.Write.Steps.{
  fine, go_on, write_all, counted, write_selected, data_appended, false_right, go_on-true,
  go_on_assoc, not_suc, go_on_if, All-left, All-right, in_range, rename_missing,
}
use kd_desk_tc.Client.Transfer.Write.Midway.{
  target, bytes, Distinct, Stored, Own, Mid, at_block, add_block, Writes, write_all_step,
  write_file, Between, modify_found, Mid-Stored, started, made, closed,
}

module _ (sys : System) (z : Zstd) (open_file : Opened) (from path : Text) (id : ℕ)
    (files : List FileEntry) where
  opens :
      (i : ℕ) (f : FileEntry) (job : Writer) (d : Disk)
      → i < 2 ^ 31
      → ((job.file_num < 2 ^ 31) × (job.file_num ≢ i)) ⊎ (job.file ≡ none)
      → Write.select_file sys fine i f job d ≡ Write.next_file sys fine i f job d
  unfolding Write.select_file is_open as_usize
  opens i f job d hi (inl (hn, ne)) =
      if_false (as_usize i == as_usize job.file_num && is_open job.file) _ _ (
        rw
          (
            lt→ltb i (2 ^ 31) hi,
            lt→ltb job.file_num (2 ^ 31) hn,
            ne→== i job.file_num (λ e. ne (sym e)),
          )
          refl)
  opens i f job d hi (inr none_open) =
      if_false (as_usize i == as_usize job.file_num && is_open job.file) _ _ (
        ap (λ o. as_usize i == as_usize job.file_num && is_open o) none_open
        ∙ false_right (as_usize i == as_usize job.file_num))

  begin_file :
      Distinct sys z open_file from path id files
      → (i : ℕ) (f : FileEntry) (b : FileTransferBlock) (job : Writer) (d : Disk)
      → get_elem? files i ≡ some f
      → i < 2 ^ 31
      → b.file_num ≡ i
      → b.id ≡ id
      → Between sys z open_file from path id files i job d
      → (ino : ℕ) × (next : Writer) × (e : Disk) × (write sys z fine b none job d ≡ (next, e, true))
        × Mid sys z open_file from path id files i f ino (decode z b) next e
  unfolding Between Mid Own Stored Created Distinct started made
  begin_file dis i f b job d hf hi hb hid (own, free, stored, sane) =
      let before = modify_time sys job d in
      let c =
        create-Created before (download_path (target sys z open_file from path id files f)) sane in
      let r = made sys z open_file from path id files f before in
      let begun = started sys z open_file from path id files i r.1 job in
      (
        r.1,
        counted z b begun,
        Disk.append r.0 r.1 (decode z b),
        write_selected sys z b f job d (hid ∙ sym own.0)
              (at_block sys z open_file from path id files job i b.file_num f own.1 hb hi hf)
            ∙ ap (λ n. Write.write_data z fine b none (Write.select_file sys fine n f job d)) hb
            ∙ ap (Write.write_data z fine b none) (
                opens i f job d hi free ∙ closed sys z open_file from path id files i f job d own.2)
            ∙ data_appended z b begun r.0 r.1 refl,
        add_block sys z open_file from path id files dis i f r.1 [] b begun r.0 hf (
          own,
          refl,
          refl,
          c.1,
          c.2,
          λ j g hj hg.
              c.3 (target sys z open_file from path id files g) (dis i j f g hf hg).1
              ∙ stored j g hj hg,
          c.0,
        ),
      )

  write_all_append :
      (xs ys : List FileTransferBlock) (job : Writer) (d : Disk)
      → write_all sys z (xs ++ ys) job d
        ≡ go_on
            (write_all sys z xs job d)
            (write_all sys z ys (write_all sys z xs job d).0 (write_all sys z xs job d).1)
  unfolding write_all
  write_all_append [] ys job d = go_on-true job d _
  write_all_append (b ∷ xs) ys job d =
      let r = write sys z fine b none job d in
      ap (go_on r) (write_all_append xs ys r.0 r.1)
      ∙ go_on_assoc r (write_all sys z xs r.0 r.1) (λ j e. write_all sys z ys j e)

  -- All blocks of a file, its first included.
  whole_file :
      Distinct sys z open_file from path id files
      → (i : ℕ) (f : FileEntry) → get_elem? files i ≡ some f
      → i < 2 ^ 31
      → (xs : List FileTransferBlock) (job : Writer) (d : Disk)
      → FromFile z i (bytes sys z open_file from path id files f) xs
      → All (λ b. b.id ≡ id) xs
      → Between sys z open_file from path id files i job d
      → (ino : ℕ) × Writes sys z open_file from path id files i f ino
          (bytes sys z open_file from path id files f)
          (write_all sys z xs job d)
  unfolding FromFile decode_all
  whole_file dis i f hf hi [] job d h hid between = absurd (omega (arith, h.2))
  whole_file dis i f hf hi (b ∷ xs) job d h hid between =
      let (ino, next, e, w, mid) = begin_file dis i f b job d hf hi h.0.0 hid.0 between in
      (
        ino,
        subst
            (Writes sys z open_file from path id files i f ino
              (bytes sys z open_file from path id files f))
            (sym (write_all_step sys z open_file from path id files b xs job next d e w))
            (subst
              (λ t. Writes sys z open_file from path id files i f ino t (write_all sys z xs next e))
              h.1
              (write_file sys z open_file from path id files dis i f ino hf hi xs (decode z b) next
                e h.0.1 hid.1 mid)),
      )

  -- Every file is there, once the last has been renamed.
  Copied : Written → Type 0
  Copied r =
      (r.2 ≡ true)
      × Stored sys z open_file from path id files (length files) (modify_time sys r.0 r.1)

  next-Between :
      Distinct sys z open_file from path id files
      → (i : ℕ) (f : FileEntry) (ino : ℕ) (job : Writer) (d : Disk) → i < 2 ^ 31
      → get_elem? files i ≡ some f
      → Mid sys z open_file from path id files i f ino
          (bytes sys z open_file from path id files f)
          job
          d
      → Between sys z open_file from path id files (suc i) job d
  unfolding Between Mid
  next-Between dis i f ino job d hi hf mid =
      let m = Mid-Stored sys z open_file from path id files dis i f ino job d hi hf mid in
      (
        mid.0,
        inl (subst (λ n. (n < 2 ^ 31) × (n ≢ suc i)) (sym mid.1) (hi, λ e. not_suc i e)),
        m.0,
        m.1,
      )

  write_files :
      Distinct sys z open_file from path id files
      → (fs pre : List FileEntry) → files ≡ pre ++ fs
      → length files < 2 ^ 31
      → (bs : List FileTransferBlock) (job : Writer) (d : Disk)
      → Carries z sys open_file from (length pre) fs bs
      → All (λ b. b.id ≡ id) bs
      → Between sys z open_file from path id files (length pre) job d
      → Copied (write_all sys z bs job d)
  unfolding Carries Copied Between
  write_files dis [] pre e hl bs job d carries hid between =
      subst (λ l. Copied (write_all sys z l job d)) (sym carries)
        (unfold write_all in
          (
            refl,
            subst (λ n. Stored sys z open_file from path id files n (modify_time sys job d))
                (omega (arith, ap length e, length-append {A = FileEntry} pre [])) between.2,
          ))
  write_files dis (f ∷ fs) pre e hl bs job d (xs, ys, same, file, rest) hid between =
      let ids = subst (λ l. All (λ b. b.id ≡ id) l) same hid in
      let hi : length pre < 2 ^ 31 = omega (arith, ap length e, length-append pre (f ∷ fs)) in
      let hf = ap (λ l. get_elem? l (length pre)) e ∙ get_elem?-append pre f fs in
      let (ino, w) =
        whole_file dis (length pre) f hf hi xs job d file (All-left xs ys id ids) between in
      let r = write_all sys z xs job d in
      let later =
        write_files dis fs (pre ++ f ∷ []) (e ∙ sym (append_assoc pre (f ∷ []) fs)) hl ys r.0 r.1
          (subst (λ n. Carries z sys open_file from n fs ys) (sym (length_snoc pre f)) rest)
          (All-right xs ys id ids)
          (subst (λ n. Between sys z open_file from path id files n r.0 r.1)
            (sym (length_snoc pre f))
            (next-Between dis (length pre) f ino r.0 r.1 hi hf (unfold Writes in w.1))) in
      subst (λ l. Copied (write_all sys z l job d)) (sym same)
        (subst Copied
          (sym (
            write_all_append xs ys job d
            ∙ go_on_if r (write_all sys z ys r.0 r.1) (unfold Writes in w.0)))
          later)

  rename-Sane : (d : Disk) (a b : Text) → Sane d → Sane (Disk.rename d a b)
  unfolding Renamed
  rename-Sane d a b s = elim (Option-cases (HashMap.get d.names a)) [
    | inl n ↦ subst Sane (sym (rename_missing d a b n)) s
    | inr (i, n) ↦ (rename-Renamed d a b i s n).0
  ]

  modify_time-Sane : (job : Writer) (d : Disk) → Sane d → Sane (modify_time sys job d)
  unfolding modify_time Write.finish_file
  modify_time-Sane job d s = elim (Option-cases (get_elem? job.files (as_usize job.file_num))) [
    | inl n ↦ rw (modify_time, n) s
    | inr (f, n) ↦
        subst Sane (sym (modify_found sys z open_file from path id files job d f n))
          (set_file_mtime-Sane _ _ f.modified_time (rename-Sane d _ _ s))
  ]

  begins :
      (d : Disk)
      → Sane d
      → Between sys z open_file from path id files 0 (Transfer.new_write id path files) d
  unfolding Between Own Stored Transfer.new_write
  begins d s = (
    (refl, refl, refl),
    inr refl,
    λ j g hj hg. absurd (omega arith),
    modify_time-Sane (Transfer.new_write id path files) d s,
  )

-- A new writing job takes blocks that carry the files, one file after the other as a reading job
-- sends them, without an error, and once its last file is renamed every file holds, under its own
-- name, the bytes that the reading side had in it. The blocks bear the number of the job, there are
-- less than 2^31 files, no two files have one path and none has the path of another with
-- `.download` behind it, no two paths of the disk share contents, and the calls of the system
-- succeed.
pub write_all-copies :
    (sys : System) (z : Zstd) (open_file : Opened) (from path : Text) (id : ℕ)
    (files : List FileEntry) (bs : List FileTransferBlock) (d : Disk)
    → Distinct sys z open_file from path id files
    → length files < 2 ^ 31
    → Carries z sys open_file from 0 files bs
    → All (λ b. b.id ≡ id) bs
    → Sane d
    → ((write_all sys z bs (Transfer.new_write id path files) d).2 ≡ true)
      × ((i : ℕ) (f : FileEntry)
          → get_elem? files i ≡ some f
          → read_path
              (modify_time sys
                (write_all sys z bs (Transfer.new_write id path files) d).0
                (write_all sys z bs (Transfer.new_write id path files) d).1)
              (join sys path f.name)
            ≡ some (bytes_of z sys open_file from f))
unfolding Copied Stored
write_all-copies sys z open_file from path id files bs d dis hl carries hid s =
    let r =
      write_files sys z open_file from path id files dis files [] refl hl bs
        (Transfer.new_write id path files) d carries hid
        (begins sys z open_file from path id files d s) in
    (r.0, λ i f hf. r.1 i f (in_range files i f hf) hf)
