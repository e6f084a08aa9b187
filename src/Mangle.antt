-- ===== src/Mangle.antt =====
-- `AddrMangle`, which hides an IPv4 socket address in a message from routers that rewrite addresses:
-- KdDeskTC_Server/libs/hbb_common/src/lib.rs. The clock is an argument, in microseconds. A panic is
-- `none`. Overflowing subtraction wraps, as in a release build.
pub mod Bytes
pub mod RoundTrip
mod Runs
use Prim.Native.Nat.{bit_and, bit_or}
use mathlib.Core.List.{reverse}
use kd_desk_tc.Prelude.{
  ℕ, zero, suc, ◌+◌, ◌-◌, ◌*◌, ◌/◌, ◌%◌, ◌^◌, ◌<◌, Bool, true, false, List, [], ◌∷◌, ◌++◌, Option,
  none, some, length, take, replicate, ltb, if◌then◌else◌, get_or,
}
use kd_desk_tc.Net.{Ipv4Addr, IpAddr, v4, v6, SocketAddr}

-- `from_le_bytes` and `to_le_bytes`, the latter for `k` bytes.
unfoldable pub from_le_bytes : List ℕ → ℕ
from_le_bytes [] = 0
from_le_bytes (b ∷ bs) = b + 256 * from_le_bytes bs

unfoldable pub to_le_bytes : ℕ → ℕ → List ℕ
to_le_bytes zero n = []
to_le_bytes (suc k) n = (n % 256) ∷ to_le_bytes k (n / 256)

abbrev pub octets : Ipv4Addr → List ℕ
octets x = x.a ∷ x.b ∷ x.c ∷ x.d ∷ []

abbrev pub from_octets : List ℕ → Ipv4Addr
from_octets bs = record {
  a = get_or bs 0 0;
  b = get_or bs 1 0;
  c = get_or bs 2 0;
  d = get_or bs 3 0;
}

-- The loop over `bytes.iter().rev()` that counts zeros until the first other byte.
unfoldable pub n_padding : List ℕ → ℕ
n_padding [] = 0
n_padding (zero ∷ bs) = suc (n_padding bs)
n_padding (suc b ∷ bs) = 0

-- `bytes[..(16 - n_padding)]`
unfoldable pub trim : List ℕ → List ℕ
unfolding n_padding
trim bytes = take (16 - n_padding (reverse bytes)) bytes

-- The word that is sent: the address and the clock, the clock, and the port and half the clock.
unfoldable pub mangled : ℕ → Ipv4Addr → ℕ → ℕ
unfolding from_le_bytes
mangled micros x port =
    let tm = micros % 2 ^ 32 in
    let ip = from_le_bytes (octets x) in
    bit_or (bit_or ((ip + tm) * 2 ^ 49 % 2 ^ 128) (tm * 2 ^ 17 % 2 ^ 128))
      (port + bit_and tm 0xFFFF)

encode_ip : ℕ → IpAddr → ℕ → Option (List ℕ)
unfolding mangled to_le_bytes trim
encode_ip micros (v4 x) port = some (trim (to_le_bytes 16 (mangled micros x port)))
encode_ip micros (v6 x) port = none

unfoldable pub encode : ℕ → SocketAddr → Option (List ℕ)
unfolding encode_ip
encode micros addr = encode_ip micros addr.ip addr.port

-- `padded[..bytes.len()].copy_from_slice(&bytes)`, which panics on more than 16 bytes.
abbrev pub padded : List ℕ → List ℕ
padded bytes = bytes ++ replicate (16 - length bytes) 0

unfoldable pub unmangled : ℕ → SocketAddr
unfolding to_le_bytes
unmangled number =
    let tm = bit_and (number / 2 ^ 17) 0xFFFFFFFF in
    let ip = to_le_bytes 4 ((number / 2 ^ 49 + 2 ^ 128 - tm) % 2 ^ 128 % 2 ^ 32) in
    let port = (bit_and number 0xFFFFFF + 2 ^ 128 - bit_and tm 0xFFFF) % 2 ^ 128 in
    record { ip = v4 (from_octets ip); port = port % 2 ^ 16 }

unfoldable pub decode : List ℕ → Option SocketAddr
unfolding from_le_bytes unmangled
decode bytes =
    if ltb 16 (length bytes) then none else some (unmangled (from_le_bytes (padded bytes)))
