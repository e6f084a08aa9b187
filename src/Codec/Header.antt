-- ===== src/Codec/Header.antt =====
-- The header that `encode` writes, in plain arithmetic, and `decode_head` on it.
use Prim.Native.Nat.{bit_and, bit_or}
use native.Mathlib.Nat.{mod-eq_of_lt}
use kd_desk_tc.Bits.{bit_or-high, bit_or-low, bit_and-mask}
use kd_desk_tc.Prelude.{
  ℕ, ◌+◌, ◌*◌, ◌/◌, ◌%◌, ◌^◌, ◌≤◌, ◌<◌, ◌≡◌, arith, false, List, [], ◌∷◌, ◌++◌, some, leb,
  if◌then◌else◌, length,
}
use kd_desk_tc.Codec.{BytesCodec, ok, head_value, decode_head, u16_le, u32_le, encode}

-- The length times four, with the number of further header bytes in the two low bits, as bytes.
abbrev pub header : ℕ → List ℕ
header n =
    if leb n 0x3F
    then (n * 4) ∷ []
    else if leb n 0x3FFF
    then u16_le (n * 4 + 1)
    else if leb n 0x3FFFFF
    then ((n * 4 + 2) % 256) ∷ ((n * 4 + 2) / 256 % 256) ∷ ((n * 4 + 2) / 65536) ∷ []
    else u32_le (n * 4 + 3)

low_two : (b : ℕ) → bit_and b 0x3 ≡ b % 4
low_two b = bit_and-mask 2 b

low_sixteen : (b : ℕ) → bit_and b 0xFFFF ≡ b % 65536
low_sixteen b = bit_and-mask 16 b

-- The length shifted in a machine word, its tag set.
tagged : (n w t : ℕ) → t < 4 → n * 4 < w → w ≤ 2 ^ 64 → bit_or (n * 4 % 2 ^ 64 % w) t ≡ n * 4 + t
tagged n w t h fits small = rw whole (bit_or-low 2 t n h)
  where
    whole : n * 4 % 2 ^ 64 % w ≡ n * 4
    whole = rw (mod-eq_of_lt {n = n * 4} {m = 2 ^ 64} (omega arith)) (mod-eq_of_lt fits)

-- A short enough frame is written behind its header, and the buffer before it is kept.
pub encode-header :
    (c : BytesCodec) (frame buf : List ℕ)
    → c.raw ≡ false
    → length frame ≤ 0x3FFFFFFF
    → encode c frame buf ≡ (ok tt, buf ++ (header (length frame) ++ frame))
unfolding encode
encode-header c frame buf r h = ground (
  arith,
  tagged (length frame) (2 ^ 16) 1,
  tagged (length frame) (2 ^ 32) 2,
  tagged (length frame) (2 ^ 32) 3,
  low_sixteen (length frame * 4 + 2),
)

-- One header byte.
value_one : (b : ℕ) (rest : List ℕ) → b % 4 ≡ 0 → head_value (b ∷ rest) ≡ b / 4
unfolding head_value
value_one b rest h = ground (arith, low_two b)

value_two :
    (b0 b1 : ℕ) (rest : List ℕ)
    → b0 < 256
    → b0 % 4 ≡ 1
    → head_value (b0 ∷ b1 ∷ rest) ≡ (b0 + b1 * 256) / 4
unfolding head_value
value_two b0 b1 rest h0 h = ground (arith, low_two b0, bit_or-high 8 b0 b1 h0)

value_three :
    (b0 b1 b2 : ℕ) (rest : List ℕ)
    → b0 < 256
    → b1 < 256
    → b0 % 4 ≡ 2
    → head_value (b0 ∷ b1 ∷ b2 ∷ rest) ≡ (b0 + b1 * 256 + b2 * 65536) / 4
unfolding head_value
value_three b0 b1 b2 rest h0 h1 h =
    ground
      (arith, low_two b0, bit_or-high 8 b0 b1 h0, bit_or-high 16 (b0 + b1 * 256) b2 (omega arith))

value_four :
    (b0 b1 b2 b3 : ℕ) (rest : List ℕ)
    → b0 < 256
    → b1 < 256
    → b2 < 256
    → b0 % 4 ≡ 3
    → head_value (b0 ∷ b1 ∷ b2 ∷ b3 ∷ rest) ≡ (b0 + b1 * 256 + b2 * 65536 + b3 * 16777216) / 4
unfolding head_value
value_four b0 b1 b2 b3 rest h0 h1 h2 h = ground (
  arith,
  low_two b0,
  bit_or-high 8 b0 b1 h0,
  bit_or-high 16 (b0 + b1 * 256) b2 (omega arith),
  bit_or-high 24 (b0 + b1 * 256 + b2 * 65536) b3 (omega arith),
)

abbrev pub IsByte : ℕ → Type 0
IsByte b = b < 256

-- `decode_head` reads the length back from the header, and consumes exactly the header.
pub decode_head-header :
    (c : BytesCodec) (n : ℕ) (rest : List ℕ)
    → n ≤ 0x3FFFFFFF
    → n ≤ c.max_packet_length
    → decode_head c (header n ++ rest) ≡ (ok (some n), rest)
unfolding decode_head
decode_head-header c n rest h fits = ground (
  arith,
  low_two (n * 4),
  low_two ((n * 4 + 1) % 256),
  low_two ((n * 4 + 2) % 256),
  low_two ((n * 4 + 3) % 256),
  value_one (n * 4) rest,
  value_two ((n * 4 + 1) % 256) ((n * 4 + 1) / 256) rest,
  value_three ((n * 4 + 2) % 256) ((n * 4 + 2) / 256 % 256) ((n * 4 + 2) / 65536) rest,
  value_four ((n * 4 + 3) % 256) ((n * 4 + 3) / 256 % 256) ((n * 4 + 3) / 65536 % 256)
      ((n * 4 + 3) / 16777216) rest,
)
