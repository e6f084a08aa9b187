-- ===== src/Mangle/RoundTrip.antt =====
-- `decode` against `encode`.
use Prim.Native.Nat.{bit_and, bit_or}
use kd_desk_tc.Bits.{bit_or-low, bit_and-mask}
use native.Mathlib.Nat.{mod-eq_of_lt}
use kd_desk_tc.Prelude.{
  ℕ, ◌+◌, ◌-◌, ◌*◌, ◌/◌, ◌%◌, ◌^◌, ◌≤◌, ◌<◌, ◌≡◌, refl, ap, ◌∙◌, arith, le→ltb, List, some, length,
}
use kd_desk_tc.Net.{Ipv4Addr, v4, IsIpv4, IsPort}
use kd_desk_tc.Mangle.{
  from_le_bytes, to_le_bytes, octets, from_octets, mangled, unmangled, trim, padded, encode, decode,
}
use kd_desk_tc.Mangle.Bytes.{
  from_le_bytes-to_le_bytes, length-to_le_bytes, length-trim, padded-trim,
}

-- The three fields of the word side by side.
word : ℕ → ℕ → ℕ → ℕ
word ip tm port = ((ip + tm) * 2 ^ 32 + tm) * 2 ^ 17 + (port + tm % 65536)

joined :
    (ip tm port : ℕ)
    → ip < 2 ^ 32
    → tm < 2 ^ 32
    → port < 2 ^ 16
    → bit_or
        (bit_or ((ip + tm) * 2 ^ 49 % 2 ^ 128) (tm * 2 ^ 17 % 2 ^ 128))
        (port + bit_and tm 0xFFFF)
      ≡ word ip tm port
unfolding word
joined ip tm port hi ht hp =
    rw
      (
        mod-eq_of_lt {n = (ip + tm) * 2 ^ 49} {m = 2 ^ 128} (omega arith),
        mod-eq_of_lt {n = tm * 2 ^ 17} {m = 2 ^ 128} (omega arith),
        bit_and-mask 16 tm,
        bit_or-low 49 (tm * 2 ^ 17) (ip + tm) (omega arith),
        regroup,
      )
      (bit_or-low 17 (port + tm % 65536) ((ip + tm) * 2 ^ 32 + tm) (omega arith))
  where
    regroup : (ip + tm) * 2 ^ 49 + tm * 2 ^ 17 ≡ ((ip + tm) * 2 ^ 32 + tm) * 2 ^ 17
    regroup = omega arith

ip_value : (x : Ipv4Addr) → IsIpv4 x → from_le_bytes (octets x) < 2 ^ 32
unfolding from_le_bytes
ip_value x h = omega arith

octets_back : (x : Ipv4Addr) → IsIpv4 x → from_octets (to_le_bytes 4 (from_le_bytes (octets x))) ≡ x
unfolding from_le_bytes to_le_bytes
octets_back x h = ground arith

module _ (ip tm port : ℕ) (hi : ip < 2 ^ 32) (ht : tm < 2 ^ 32) (hp : port < 2 ^ 16) where
  word_clock : bit_and (word ip tm port / 2 ^ 17) 0xFFFFFFFF ≡ tm
  unfolding word
  word_clock = bit_and-mask 32 _ ∙ omega arith

  word_ip : (word ip tm port / 2 ^ 49 + 2 ^ 128 - tm) % 2 ^ 128 % 2 ^ 32 ≡ ip
  unfolding word
  word_ip = omega arith

  word_port :
      (bit_and (word ip tm port) 0xFFFFFF + 2 ^ 128 - bit_and tm 0xFFFF) % 2 ^ 128 % 2 ^ 16 ≡ port
  unfolding word
  word_port = rw (bit_and-mask 24 (word ip tm port), bit_and-mask 16 tm) (omega arith)

  unmangled-word :
      unmangled (word ip tm port) ≡ record { ip = v4 (from_octets (to_le_bytes 4 ip)); port = port }
  unfolding unmangled
  unmangled-word = rw (word_clock, word_ip, word_port)

  word-lt : word ip tm port < 2 ^ 128
  unfolding word
  word-lt = omega arith

decode_short :
    (bytes : List ℕ)
    → length bytes ≤ 16
    → decode bytes ≡ some (unmangled (from_le_bytes (padded bytes)))
unfolding decode
decode_short bytes h = rw (le→ltb 16 (length bytes) h)

decode-trim :
    (bytes : List ℕ) (n : ℕ)
    → length bytes ≡ 16
    → from_le_bytes bytes ≡ n
    → decode (trim bytes) ≡ some (unmangled n)
decode-trim bytes n h e =
    decode_short (trim bytes) (length-trim bytes)
    ∙ ap (λ b. some (unmangled b)) (ap from_le_bytes (padded-trim bytes h) ∙ e)

mangled-word :
    (micros : ℕ) (x : Ipv4Addr) (port : ℕ)
    → IsIpv4 x
    → IsPort port
    → mangled micros x port ≡ word (from_le_bytes (octets x)) (micros % 2 ^ 32) port
unfolding mangled
mangled-word micros x port hx hp = joined _ (micros % 2 ^ 32) port (ip_value x hx) (omega arith) hp

-- Every IPv4 socket address is encoded, whatever the clock shows, in at most 16 bytes, and decoding
-- gives it back.
pub decode-encode_addr :
    (micros : ℕ) (x : Ipv4Addr) (port : ℕ)
    → IsIpv4 x
    → IsPort port
    → (bytes : List ℕ) × (encode micros (record { ip = v4 x; port = port }) ≡ some bytes)
      × (length bytes ≤ 16)
      × (decode bytes ≡ some (record { ip = v4 x; port = port }))
unfolding encode
decode-encode_addr micros x port hx hp = (
  trim (to_le_bytes 16 (mangled micros x port)),
  refl,
  length-trim (to_le_bytes 16 (mangled micros x port)),
  decode-trim (to_le_bytes 16 (mangled micros x port)) (word ip tm port)
        (length-to_le_bytes 16 (mangled micros x port)) value
      ∙ ap some (
          unmangled-word ip tm port (ip_value x hx) (omega arith) hp
          ∙ ap (λ y. record { ip = v4 y; port = port }) (octets_back x hx)),
)
  where
    ip : ℕ
    ip = from_le_bytes (octets x)

    tm : ℕ
    tm = micros % 2 ^ 32

    value : from_le_bytes (to_le_bytes 16 (mangled micros x port)) ≡ word ip tm port
    value = rw (mangled-word micros x port hx hp) (
        from_le_bytes-to_le_bytes 16 (word ip tm port)
          (word-lt ip tm port (ip_value x hx) (omega arith) hp))
