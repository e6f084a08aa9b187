-- ===== src/Rendezvous/Relays/Rotation.antt =====
-- The rotation among the relay servers.
use kd_desk_tc.Prelude.{
  ℕ, zero, suc, ◌+◌, ◌-◌, ◌%◌, ◌^◌, ◌<◌, ◌≡◌, ap, sym, dec_lt, ◌∙◌, arith, some, List, [], ◌∷◌,
  length, get_or, get_elem?,
}
use native.Mathlib.Nat.{mod-lt, mod-add-mod, mod-eq_of_lt, add-mod_right}
use kd_desk_tc.Proto.{Text}
use kd_desk_tc.Rendezvous.Relays.{choose_relay}

-- The counter after `k` more choices.
pub rotate : ℕ → List Text → ℕ → ℕ
rotate zero servers i = i
rotate (suc k) servers i = rotate k servers (choose_relay servers i).1

choose_relay-counter :
    (x y : Text) (xs : List Text) (i : ℕ) → i + 1 < 2 ^ 64 → (choose_relay (x ∷ y ∷ xs) i).1 ≡ i + 1
unfolding choose_relay
choose_relay-counter x y xs i h = mod-eq_of_lt h

rotate_lem :
    (x y : Text) (xs : List Text) (k i : ℕ) → i + k < 2 ^ 64 → rotate k (x ∷ y ∷ xs) i ≡ i + k
unfolding rotate
rotate_lem x y xs zero i h = omega arith
rotate_lem x y xs (suc k) i h =
    rw (choose_relay-counter x y xs i (omega arith))
      (rotate_lem x y xs k (i + 1) (omega arith) ∙ omega arith)

choose_relay-at :
    (x y : Text) (xs : List Text) (i : ℕ)
    → i + 1 < 2 ^ 64
    → (choose_relay (x ∷ y ∷ xs) i).0 ≡ get_or (x ∷ y ∷ xs) ((i + 1) % length (x ∷ y ∷ xs)) []
unfolding choose_relay
choose_relay-at x y xs i h = rw (mod-eq_of_lt {n = i + 1} {m = 2 ^ 64} h)

get_or_found : (xs : List Text) (j : ℕ) (v : Text) → get_elem? xs j ≡ some v → get_or xs j [] ≡ v
get_or_found [] j v e = absurd (cc)
get_or_found (x ∷ xs) zero v e = cc
get_or_found (x ∷ xs) (suc j) v e = get_or_found xs j v e

-- Some number of steps below `n` leads from any counter to the remainder `j`.
steps_to : (n i j : ℕ) → j < n → (k : ℕ) × (k < n) × ((i + k + 1) % n ≡ j)
steps_to n i j h = elim (dec_lt j ((i + 1) % n)) [
  | yes less ↦ (
    j + n - (i + 1) % n,
    omega (arith, mod-lt (i + 1) {m = n} (omega arith)),
    turn (j + n - (i + 1) % n)
        ∙ ap (λ t. t % n) (omega (arith, mod-lt (i + 1) {m = n} (omega arith)))
        ∙ add-mod_right j n
        ∙ mod-eq_of_lt h,
  )
  | no more ↦ (
    j - (i + 1) % n,
    omega arith,
    turn (j - (i + 1) % n) ∙ ap (λ t. t % n) (omega arith) ∙ mod-eq_of_lt h,
  )
]
  where
    turn : (k : ℕ) → (i + k + 1) % n ≡ ((i + 1) % n + k) % n
    turn k = ap (λ t. t % n) regroup ∙ sym (mod-add-mod (i + 1) n k)
      where
        regroup : i + k + 1 ≡ i + 1 + k
        regroup = omega arith

-- With two relay servers or more, from any value of the counter that is not about to wrap, each
-- server of the list is chosen within as many calls as there are servers.
pub choose_relay_fair :
    (x y : Text) (xs : List Text) (i j : ℕ) (v : Text)
    → i + length (x ∷ y ∷ xs) + 1 < 2 ^ 64
    → get_elem? (x ∷ y ∷ xs) j ≡ some v
    → j < length (x ∷ y ∷ xs)
    → (k : ℕ) × (k < length (x ∷ y ∷ xs))
      × ((choose_relay (x ∷ y ∷ xs) (rotate k (x ∷ y ∷ xs) i)).0 ≡ v)
choose_relay_fair x y xs i j v h e l =
    let (k, less, turn) = steps_to (length (x ∷ y ∷ xs)) i j l in
    (
      k,
      less,
      rw (rotate_lem x y xs k i (omega arith)) (
          choose_relay-at x y xs (i + k) (omega arith)
          ∙ ap (λ t. get_or (x ∷ y ∷ xs) t []) turn
          ∙ get_or_found (x ∷ y ∷ xs) j v e),
    )
