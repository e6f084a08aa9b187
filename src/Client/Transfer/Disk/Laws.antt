-- ===== src/Client/Transfer/Disk/Laws.antt =====
-- What the operations on files leave of the other files.
use kd_desk_tc.Prelude.{
  ℕ, suc, ◌<◌, ◌≡◌, ◌≢◌, inl, inr, refl, sym, ap, subst, ◌∙◌, arith, none, some, [], ◌++◌, nat_eq,
  list_eq, ◌==◌, ne→==, ==_refl, if◌then◌else◌, Option-cases,
}
use kd_desk_tc.Proto.{Text}
use kd_desk_tc.HashMap
use kd_desk_tc.HashMap.{HashMap}
use kd_desk_tc.Client.Transfer.Disk
use kd_desk_tc.Client.Transfer.Disk.{Disk, contents_of, read_path}

not_below : (n i : ℕ) → n ≡ i → i < n → ⊥
not_below n i e h = absurd (omega (arith, e))

-- No two paths lead to the same contents, and the next number is free.
unfoldable pub Injective : HashMap Text ℕ → Type 0
Injective m = (p q : Text) (i : ℕ) → HashMap.get m p ≡ some i → HashMap.get m q ≡ some i → p ≡ q

unfoldable pub Below : ℕ → HashMap Text ℕ → Type 0
Below n m = (p : Text) (i : ℕ) → HashMap.get m p ≡ some i → i < n

unfoldable pub Sane : Disk → Type 0
Sane d = Injective d.names × Below d.next d.names

set_contents : Disk → ℕ → Text → Disk
set_contents d i t = record d { contents = HashMap.insert d.contents i t }

contents_of-set_contents :
    (d : Disk) (i j : ℕ) (t : Text)
    → contents_of (set_contents d i t) j ≡ (if i == j then t else contents_of d j)
unfolding contents_of set_contents
contents_of-set_contents d i j t = ground (arith, HashMap.get-insert d.contents i t j)

read_path-some :
    (d : Disk) (q : Text) (i : ℕ)
    → HashMap.get d.names q ≡ some i
    → read_path d q ≡ some (contents_of d i)
unfolding read_path
read_path-some d q i h = rw (read_path, h) refl

read_path-none : (d : Disk) (q : Text) → HashMap.get d.names q ≡ none → read_path d q ≡ none
unfolding read_path
read_path-none d q h = rw (read_path, h) refl

-- What a path holds follows from what it leads to.
pub read_path-same :
    (d e : Disk) (q : Text)
    → HashMap.get e.names q ≡ HashMap.get d.names q
    → ((i : ℕ) → HashMap.get d.names q ≡ some i → contents_of e i ≡ contents_of d i)
    → read_path e q ≡ read_path d q
read_path-same d e q h k = elim (Option-cases (HashMap.get d.names q)) [
  | inl n ↦ read_path-none e q (h ∙ n) ∙ sym (read_path-none d q n)
  | inr (i, n) ↦ read_path-some e q i (h ∙ n) ∙ ap some (k i n) ∙ sym (read_path-some d q i n)
]

moved : HashMap Text ℕ → Text → Text → ℕ → HashMap Text ℕ
moved m a b i = HashMap.insert (HashMap.remove m a) b i

get-moved :
    (m : HashMap Text ℕ) (a b : Text) (i : ℕ) (p : Text)
    → HashMap.get (moved m a b i) p
      ≡ (if b == p then some i else if a == p then none else HashMap.get m p)
unfolding moved
get-moved m a b i p =
    rw (HashMap.get-insert (HashMap.remove m a) b i p, HashMap.get-remove m a p) refl

moved-Injective :
    (m : HashMap Text ℕ) (a b : Text) (i : ℕ)
    → Injective m
    → HashMap.get m a ≡ some i
    → Injective (moved m a b i)
unfolding Injective
moved-Injective m a b i h e p q j hp hq =
    ground (arith, get-moved m a b i p, get-moved m a b i q, h a p i e, h a q i e, h p q j)

moved-Below :
    (m : HashMap Text ℕ) (a b : Text) (i n : ℕ)
    → Below n m
    → HashMap.get m a ≡ some i
    → Below n (moved m a b i)
unfolding Below
moved-Below m a b i n h e p j hp = ground (arith, get-moved m a b i p, h p j, h a i e)

created-Injective :
    (m : HashMap Text ℕ) (p : Text) (n : ℕ)
    → Injective m
    → Below n m
    → Injective (HashMap.insert m p n)
unfolding Injective Below
created-Injective m p n h b x y j hx hy =
    ground (arith, HashMap.get-insert m p n x, HashMap.get-insert m p n y, h x y j, b x j, b y j)

created-Below :
    (m : HashMap Text ℕ) (p : Text) (n : ℕ) → Below n m → Below (suc n) (HashMap.insert m p n)
unfolding Below
created-Below m p n b x j hx = ground (arith, HashMap.get-insert m p n x, b x j)

-- `File::create`, for a path that was there and for one that was not.
create_old :
    (d : Disk) (p : Text) (i : ℕ)
    → HashMap.get d.names p ≡ some i
    → Disk.create d p ≡ (set_contents d i [], i)
unfolding set_contents Disk.create
create_old d p i h = rw (Disk.create, h) refl

fresh : Disk → Text → Disk
fresh d p = record d {
  contents = HashMap.insert d.contents d.next [];
  names = HashMap.insert d.names p d.next;
  next = suc d.next;
}

create-fresh :
    (d : Disk) (p : Text) → HashMap.get d.names p ≡ none → Disk.create d p ≡ (fresh d p, d.next)
unfolding fresh Disk.create
create-fresh d p h = rw (Disk.create, h) refl

-- What is known of the disk after a file has been created.
unfoldable pub Created : Disk → Text → Disk × ℕ → Type 0
Created d p r =
    Sane r.0
    × (HashMap.get r.0.names p ≡ some r.1)
    × (contents_of r.0 r.1 ≡ [])
    × ((q : Text) → p ≢ q → read_path r.0 q ≡ read_path d q)

contents_of-fresh :
    (d : Disk) (p : Text) (j : ℕ)
    → contents_of (fresh d p) j ≡ (if d.next == j then [] else contents_of d j)
unfolding contents_of fresh
contents_of-fresh d p j = ground (arith, HashMap.get-insert {V = Text} d.contents d.next [] j)

fresh-Created : (d : Disk) (p : Text) → Sane d → Created d p (fresh d p, d.next)
unfolding Created Sane
fresh-Created d p s = (
  unfold fresh in (created-Injective d.names p d.next s.0 s.1, created-Below d.names p d.next s.1),
  unfold fresh in HashMap.get-insert_self d.names p d.next,
  contents_of-fresh d p d.next ∙ rw (==_refl d.next) refl,
  λ q h.
      read_path-same d (fresh d p) q (unfold fresh in HashMap.get-insert_ne d.names p d.next q h)
        (λ i e.
          contents_of-fresh d p i
          ∙ rw (ne→== d.next i (λ k. not_below d.next i k (unfold Below in s.1 q i e))) refl),
)

old-Created :
    (d : Disk) (p : Text) (i : ℕ)
    → Sane d
    → HashMap.get d.names p ≡ some i
    → Created d p (set_contents d i [], i)
unfolding Created Sane
old-Created d p i s n = (
  unfold set_contents in s,
  unfold set_contents in n,
  contents_of-set_contents d i i [] ∙ rw (==_refl i) refl,
  λ q h. read_path-same d (set_contents d i []) q (unfold set_contents in refl) (λ j e.
      contents_of-set_contents d i j []
      ∙ rw (ne→== i j (λ k. h (unfold Injective in s.0 p q i n (e ∙ ap some (sym k))))) refl),
)

pub create-Created : (d : Disk) (p : Text) → Sane d → Created d p (Disk.create d p)
create-Created d p s = elim (Option-cases (HashMap.get d.names p)) [
  | inl n ↦ subst (Created d p) (sym (create-fresh d p n)) (fresh-Created d p s)
  | inr (i, n) ↦ subst (Created d p) (sym (create_old d p i n)) (old-Created d p i s n)
]

-- Appending to what one path leads to.
unfoldable pub Appended : Disk → ℕ → Text → Disk → Type 0
Appended d i t e =
    Sane e
    × (e.names ≡ d.names)
    × (contents_of e i ≡ contents_of d i ++ t)
    × ((q : Text) → HashMap.get d.names q ≢ some i → read_path e q ≡ read_path d q)

pub append-Appended : (d : Disk) (i : ℕ) (t : Text) → Sane d → Appended d i t (Disk.append d i t)
unfolding Appended Disk.append set_contents Sane
append-Appended d i t s =
    let all = contents_of d i ++ t in
    (
      s,
      refl,
      contents_of-set_contents d i i all ∙ rw (==_refl i) refl,
      λ q h. read_path-same d (set_contents d i all) q refl (λ j e.
          contents_of-set_contents d i j all ∙ rw (ne→== i j (λ k. h (e ∙ ap some (sym k)))) refl),
    )

-- A rename of a file that is there.
unfoldable pub Renamed : Disk → Text → Text → ℕ → Disk → Type 0
Renamed d a b i e =
    Sane e
    × (read_path e b ≡ some (contents_of d i))
    × ((q : Text) → a ≢ q → b ≢ q → read_path e q ≡ read_path d q)

renamed : Disk → Text → Text → ℕ → Disk
renamed d a b i = record d { names = moved d.names a b i }

rename_found :
    (d : Disk) (a b : Text) (i : ℕ)
    → HashMap.get d.names a ≡ some i
    → Disk.rename d a b ≡ renamed d a b i
unfolding moved renamed Disk.rename
rename_found d a b i h = rw (Disk.rename, h) refl

renamed-Renamed :
    (d : Disk) (a b : Text) (i : ℕ)
    → Sane d
    → HashMap.get d.names a ≡ some i
    → Renamed d a b i (renamed d a b i)
unfolding Renamed Sane contents_of renamed
renamed-Renamed d a b i s h = (
  (moved-Injective d.names a b i s.0 h, moved-Below d.names a b i d.next s.1 h),
  read_path-some (renamed d a b i) b i (get-moved d.names a b i b ∙ rw (==_refl b) refl),
  λ q ha hb.
      read_path-same d (renamed d a b i) q
        (get-moved d.names a b i q ∙ rw (ne→== b q hb, ne→== a q ha) refl) (λ j k. refl),
)

pub rename-Renamed :
    (d : Disk) (a b : Text) (i : ℕ)
    → Sane d
    → HashMap.get d.names a ≡ some i
    → Renamed d a b i (Disk.rename d a b)
rename-Renamed d a b i s h =
    subst (Renamed d a b i) (sym (rename_found d a b i h)) (renamed-Renamed d a b i s h)

-- The times do not matter.
SameFiles : Disk → Disk → Type 0
SameFiles d e = (e.names ≡ d.names) × (e.contents ≡ d.contents) × (e.next ≡ d.next)

set_file_mtime-SameFiles : (d : Disk) (p : Text) (t : ℕ) → SameFiles d (Disk.set_file_mtime d p t)
unfolding SameFiles Disk.set_file_mtime
set_file_mtime-SameFiles d p t = elim (Option-cases (HashMap.get d.names p)) [
  | inl n ↦ rw (Disk.set_file_mtime, n) (refl, refl, refl)
  | inr (i, n) ↦ rw (Disk.set_file_mtime, n) (refl, refl, refl)
]

pub set_file_mtime-read_path :
    (d : Disk) (p : Text) (t : ℕ) (q : Text)
    → read_path (Disk.set_file_mtime d p t) q ≡ read_path d q
unfolding SameFiles contents_of
set_file_mtime-read_path d p t q =
    let h = set_file_mtime-SameFiles d p t in
    read_path-same d (Disk.set_file_mtime d p t) q (ap (λ m. HashMap.get m q) h.0)
      (λ i e. ap (λ (m : HashMap ℕ Text). elim (HashMap.get m i) [ none ↦ [] | some x ↦ x ]) h.1)

pub set_file_mtime-Sane : (d : Disk) (p : Text) (t : ℕ) → Sane d → Sane (Disk.set_file_mtime d p t)
unfolding SameFiles Sane
set_file_mtime-Sane d p t s =
    let h = set_file_mtime-SameFiles d p t in
    (
      subst Injective (sym h.0) s.0,
      subst (λ n. Below n (Disk.set_file_mtime d p t).names) (sym h.2)
          (subst (Below d.next) (sym h.0) s.1),
    )
