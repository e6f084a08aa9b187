-- ===== src/Mangle/Bytes.antt =====
-- Little-endian bytes, and the zeros that `encode` trims and `decode` puts back.
use mathlib.Core.List.{reverse, reverse-cons, reverse-reverse, append_assoc, append-nil}
use kd_desk_tc.Prelude.{
  ℕ, zero, suc, ◌-◌, ◌/◌, ◌^◌, ◌≤◌, ◌<◌, ◌≡◌, refl, ap, ◌∙◌, arith, List, [], ◌∷◌, ◌++◌, length,
  length-append, take, replicate, take-append_le, take-length, length-take,
}
use kd_desk_tc.Mangle.{from_le_bytes, to_le_bytes, n_padding, trim, padded}
use native.Mathlib.Nat.{pow-suc}

pub from_le_bytes-to_le_bytes : (k n : ℕ) → n < 256 ^ k → from_le_bytes (to_le_bytes k n) ≡ n
unfolding from_le_bytes to_le_bytes
from_le_bytes-to_le_bytes zero n h = omega arith
from_le_bytes-to_le_bytes (suc k) n h =
    omega (arith, from_le_bytes-to_le_bytes k (n / 256) (omega (arith, pow-suc 256 k)))

pub length-to_le_bytes : (k n : ℕ) → length (to_le_bytes k n) ≡ k
unfolding to_le_bytes
length-to_le_bytes zero n = refl
length-to_le_bytes (suc k) n = ap suc (length-to_le_bytes k (n / 256))

pub length-reverse {ℓ} : {A : Type ℓ} (xs : List A) → length (reverse xs) ≡ length xs
length-reverse [] = refl
length-reverse (x ∷ xs) =
    omega
      (arith, ap length (reverse-cons x xs), length-append (reverse xs) (x ∷ []), length-reverse xs)

abbrev zeros : ℕ → List ℕ
zeros k = replicate k 0

zeros_last : (k : ℕ) → zeros (suc k) ≡ zeros k ++ (0 ∷ [])
zeros_last zero = refl
zeros_last (suc k) = ap (◌∷◌ 0) (zeros_last k)

n_padding-le : (r : List ℕ) → n_padding r ≤ length r
unfolding n_padding
n_padding-le [] = omega arith
n_padding-le (zero ∷ r) = omega (arith, n_padding-le r)
n_padding-le (suc b ∷ r) = omega arith

-- On a list given backwards: what is kept and the zeros that were counted make up the whole.
keeps : (r : List ℕ) → take (length r - n_padding r) (reverse r) ++ zeros (n_padding r) ≡ reverse r
unfolding n_padding
keeps [] = refl
keeps (zero ∷ r) = rw (
  reverse-cons 0 r,
  suc-sub-suc,
  take-append_le (length r - n_padding r) (reverse r) (0 ∷ []) fits,
  zeros_last (n_padding r),
  ← append_assoc _ (zeros (n_padding r)) (0 ∷ []),
  keeps r,
)
  where
    fits : length r - n_padding r ≤ length (reverse r)
    fits = omega (arith, length-reverse r)

    suc-sub-suc : suc (length r) - suc (n_padding r) ≡ length r - n_padding r
    suc-sub-suc = omega arith
keeps (suc b ∷ r) = append-nil _ ∙ ap (λ n. take n (reverse (suc b ∷ r))) all ∙ take-length _
  where
    all : suc (length r) - 0 ≡ length (reverse (suc b ∷ r))
    all = omega (arith, length-reverse (suc b ∷ r))

pub length-trim : (bytes : List ℕ) → length (trim bytes) ≤ 16
unfolding trim
length-trim bytes = omega (arith, length-take (16 - n_padding (reverse bytes)) bytes)

pub padded-trim : (bytes : List ℕ) → length bytes ≡ 16 → padded (trim bytes) ≡ bytes
unfolding trim
padded-trim bytes h = ap (λ n. take n0 bytes ++ zeros n) back ∙ whole
  where
    n : ℕ
    n = n_padding (reverse bytes)

    n0 : ℕ
    n0 = 16 - n

    back : 16 - length (take n0 bytes) ≡ n
    back = omega (arith, length-take n0 bytes, n_padding-le (reverse bytes), length-reverse bytes)

    whole : take n0 bytes ++ zeros n ≡ bytes
    whole = rw (reverse-reverse bytes, length-reverse bytes, h) at (keeps (reverse bytes))
