-- ===== src/Bits.antt =====
-- Facts on `bit_and` and `bit_or`, as arithmetic: masks of low bits, and fields joined by `|`. Each is
-- shown for the recursion on digits that the operation stands for, with any count of digits to go.
use Prim.Native.Nat.{max, bit_and, bit_or, digits, bit_and-bitwise, bit_or-bitwise}
use native.Mathlib.Nat.{
  pow-suc, mod-eq_of_lt, add-mul-mod_self_right, div-add-mod, mod-lt, zero-mod,
}
use kd_desk_tc.Prelude.{
  ℕ, zero, suc, ◌+◌, ◌*◌, ◌/◌, ◌%◌, ◌^◌, ◌≤◌, ◌<◌, ◌≡◌, refl, ap, ◌∙◌, min, arith,
}

abbrev or_digits : ℕ → ℕ → ℕ → ℕ
or_digits n a b = digits (λ rest. rest) max n a b

abbrev and_digits : ℕ → ℕ → ℕ → ℕ
and_digits n a b = digits (λ rest. 0) min n a b

half_field : (b p : ℕ) → b * (p * 2) / 2 ≡ b * p
half_field b p = omega arith

digits_above : (n k a b : ℕ) → a ≤ n → a < 2 ^ k → or_digits n a (b * 2 ^ k) ≡ a + b * 2 ^ k
digits_above n zero a b h l =
    let e : a ≡ 0 = omega arith in rw e (rw (none_left n (b * 1)) (omega arith))
  where
    none_left : (m c : ℕ) → or_digits m 0 c ≡ c
    none_left zero c = refl
    none_left (suc m) c = refl
digits_above zero (suc k) a b h l = omega arith
digits_above (suc n) (suc k) zero b h l = omega arith
digits_above (suc n) (suc k) (suc a) b h l =
    rw (pow-suc 2 k, half_field b (2 ^ k))
      (omega (arith, digits_above n k (suc a / 2) b (omega arith) (omega (arith, pow-suc 2 k))))

digits_below : (n k c b a : ℕ) → c ≤ n → c ≡ b * 2 ^ k → a < 2 ^ k → or_digits n c a ≡ c + a
digits_below zero k c b a h e l = omega arith
digits_below (suc n) k zero b a h e l = omega arith
digits_below (suc n) zero (suc c) b a h e l = omega (
  arith,
  digits_below n zero (suc c / 2) (suc c / 2) (a / 2) (omega arith) (omega arith) (omega arith),
)
digits_below (suc n) (suc k) (suc c) b a h e l =
    let even : suc c ≡ b * 2 ^ k * 2 = e ∙ rw (pow-suc 2 k) (omega arith) in
    omega (
      arith,
      digits_below n k (suc c / 2) b (a / 2) (omega arith) (omega arith)
          (omega (arith, pow-suc 2 k)),
    )

-- All ones below bit `k`.
abbrev pub mask : ℕ → ℕ
mask zero = 0
mask (suc k) = mask k * 2 + 1

mod_double : (a p : ℕ) → 0 < p → a % (p * 2) ≡ a / 2 % p * 2 + a % 2
mod_double a p h =
    ap (λ t. t % (p * 2)) whole
    ∙ add-mul-mod_self_right (a / 2 % p * 2 + a % 2) (a / 2 / p) (p * 2)
    ∙ mod-eq_of_lt (omega (arith, mod-lt (a / 2) h))
  where
    whole : a ≡ a / 2 % p * 2 + a % 2 + a / 2 / p * (p * 2)
    whole = omega (arith, div-add-mod (a / 2) p)

pow_pos : (k : ℕ) → 0 < 2 ^ k
pow_pos zero = omega arith
pow_pos (suc k) = omega (arith, pow-suc 2 k, pow_pos k)

half_odd : (m : ℕ) → (m * 2 + 1) / 2 ≡ m
half_odd m = omega arith

digits_masked : (n k a : ℕ) → a ≤ n → and_digits n a (mask k) ≡ a % 2 ^ k
digits_masked zero k a h = let e : a ≡ 0 = omega arith in rw e (rw (zero-mod (2 ^ k)) refl)
digits_masked (suc n) k zero h = rw (zero-mod (2 ^ k)) refl
digits_masked (suc n) zero (suc a) h = omega (arith, digits_masked n zero (suc a / 2) (omega arith))
digits_masked (suc n) (suc k) (suc a) h =
    rw (pow-suc 2 k, mod_double (suc a) (2 ^ k) (pow_pos k), half_odd (mask k))
      (omega (arith, digits_masked n k (suc a / 2) (omega arith)))

-- A field above the bits of `a` is joined without a carry.
pub bit_or-high : (k a b : ℕ) → a < 2 ^ k → bit_or a (b * 2 ^ k) ≡ a + b * 2 ^ k
bit_or-high k a b l = bit_or-bitwise a (b * 2 ^ k) ∙ digits_above a k a b (omega arith) l

-- The same with the fields in the other order.
pub bit_or-low : (k a b : ℕ) → a < 2 ^ k → bit_or (b * 2 ^ k) a ≡ b * 2 ^ k + a
bit_or-low k a b l =
    bit_or-bitwise (b * 2 ^ k) a ∙ digits_below (b * 2 ^ k) k (b * 2 ^ k) b a (omega arith) refl l

-- A mask keeps the low bits.
pub bit_and-mask : (k a : ℕ) → bit_and a (mask k) ≡ a % 2 ^ k
bit_and-mask k a = bit_and-bitwise a (mask k) ∙ digits_masked a k a (omega arith)
