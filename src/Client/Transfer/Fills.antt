-- ===== src/Client/Transfer/Fills.antt =====
-- One fill of the buffer of a reading job.
use kd_desk_tc.Prelude.{
  ℕ, zero, suc, ◌-◌, ◌≤◌, ◌<◌, ◌≡◌, inl, inr, refl, sym, ap, subst, ◌∙◌, arith, none, some, [], ◌∷◌,
  ◌++◌, All, ◌==◌, nat_eq, length, take, drop, ltb, Bool-cases, le→ltb, lt→ltb, ltb→lt, ne→==,
  ==→eq, ==_refl, length-take, length-append, take-append-drop,
}
use mathlib.Core.List.{append_assoc}
use kd_desk_tc.Proto.{Text}
use kd_desk_tc.Client.Transfer.{Reads, fill}

-- The bytes that the reads of a file yield.
unfoldable pub content : Reads → Text
content [] = []
content (none ∷ rs) = content rs
content (some b ∷ rs) = b ++ content rs

-- Every read succeeds, and none but the last yields nothing.
unfoldable pub Sound : Reads → Type 0
Sound rs = All (λ r. (c : ℕ) × (cs : Text) × (r ≡ some (c ∷ cs))) rs

-- What one fill of the buffer does.
unfoldable pub Fills : ℕ → Reads → Text × Reads → Type 0
Fills room rs r =
    (fill room rs ≡ some r)
    × (r.0 ++ content r.1 ≡ content rs)
    × Sound r.1
    × (length r.0 ≤ room)
    × (r.0 ≡ [] → rs ≡ [])

drop-cons : (n : ℕ) (xs : Text) → n < length xs → (c : ℕ) × (cs : Text) × (drop n xs ≡ c ∷ cs)
drop-cons zero [] h = absurd (omega arith)
drop-cons zero (x ∷ xs) h = (x, xs, refl)
drop-cons (suc n) [] h = absurd (omega arith)
drop-cons (suc n) (x ∷ xs) h = drop-cons n xs (omega arith)

pub cons≢nil : (xs : Text) → 0 < length xs → xs ≡ [] → ⊥
cons≢nil xs h e = absurd (omega (arith, ap length e))

-- A read that is cut.
fill_cut :
    (room b : ℕ) (bs : Text) (rs : Reads)
    → 0 < room
    → room < length (b ∷ bs)
    → Sound rs
    → (r : Text × Reads) × Fills room (some (b ∷ bs) ∷ rs) r
unfolding Fills Sound fill content
fill_cut room b bs rs h l s =
    let d = drop-cons room (b ∷ bs) l in
    (
      (take room (b ∷ bs), some (drop room (b ∷ bs)) ∷ rs),
      (
        rw
            (
              le→ltb (length (b ∷ bs)) room (omega arith),
              ne→== (length (b ∷ bs)) room (λ e. omega arith),
            )
            refl,
        sym (append_assoc (take room (b ∷ bs)) (drop room (b ∷ bs)) (content rs))
            ∙ ap (λ t. t ++ content rs) (take-append-drop room (b ∷ bs)),
        ((d.0, d.1, ap some d.2), s),
        omega (arith, length-take room (b ∷ bs)),
        λ e. absurd (cons≢nil (take room (b ∷ bs)) (omega (arith, length-take room (b ∷ bs))) e),
      ),
    )

fill_whole :
    (b : ℕ) (bs : Text) (rs : Reads)
    → Sound rs
    → Fills (length (b ∷ bs)) (some (b ∷ bs) ∷ rs) (b ∷ bs, rs)
unfolding Fills Sound fill content
fill_whole b bs rs s = (
  rw (le→ltb (length (b ∷ bs)) (length (b ∷ bs)) (omega arith), ==_refl (length (b ∷ bs))) refl,
  refl,
  s,
  omega arith,
  λ e. absurd (cons≢nil (b ∷ bs) (omega arith) e),
)

fill_on :
    (room b : ℕ) (bs : Text) (rs : Reads) (r : Text × Reads)
    → length (b ∷ bs) < room
    → Fills (room - length (b ∷ bs)) rs r
    → Fills room (some (b ∷ bs) ∷ rs) ((b ∷ bs) ++ r.0, r.1)
unfolding Fills Sound fill content
fill_on room b bs rs r l h = (
  rw (lt→ltb (length (b ∷ bs)) room l, h.0) refl,
  append_assoc (b ∷ bs) r.0 (content r.1) ∙ ap (λ t. (b ∷ bs) ++ t) h.1,
  h.2,
  omega (arith, length-append (b ∷ bs) r.0, h.3),
  λ e. absurd (cons≢nil ((b ∷ bs) ++ r.0) (omega (arith, length-append (b ∷ bs) r.0)) e),
)

pub fill-Fills :
    (rs : Reads) (room : ℕ) → 0 < room → Sound rs → (r : Text × Reads) × Fills room rs r
unfolding Sound
fill-Fills [] room h s =
    (([], []), unfold Fills fill content in (refl, refl, tt, omega arith, λ e. refl))
fill-Fills (none ∷ rs) room h s = absurd (cc)
fill-Fills (some [] ∷ rs) room h s = absurd (cc)
fill-Fills (some (b ∷ bs) ∷ rs) room h s = elim (Bool-cases (ltb (length (b ∷ bs)) room)) [
  | inl l ↦
      let lt = ltb→lt (length (b ∷ bs)) room l in
      let r = fill-Fills rs (room - length (b ∷ bs)) (omega arith) s.1 in
      (((b ∷ bs) ++ r.0.0, r.0.1), fill_on room b bs rs r.0 lt r.1)
  | inr l ↦ elim (Bool-cases (length (b ∷ bs) == room)) [
    | inl e ↦ (
      (b ∷ bs, rs),
      subst (λ n. Fills n (some (b ∷ bs) ∷ rs) (b ∷ bs, rs)) (==→eq (length (b ∷ bs)) room e)
          (fill_whole b bs rs s.1),
    )
    | inr e ↦ fill_cut room b bs rs h (ground arith) s.1
  ]
]
