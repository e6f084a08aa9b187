-- ===== src/Codec.antt =====
-- The length-prefixed framing of every TCP stream of the server and the client:
-- KdDeskTC_Server/libs/hbb_common/src/bytes_codec.rs. A byte buffer is a list of numbers below 256,
-- its front first; `advance`, `split_to` and `put` are `drop`, `take` and `++`, and `reserve`, which
-- only grows the capacity, has no counterpart. A `usize` has 64 bits.
pub mod Header
pub mod Decode
pub mod RoundTrip
pub mod Outcome
pub mod Stream
mod Runs
use Prim.Native.Nat.{bit_and, bit_or}
use kd_desk_tc.Prelude.{
  ℕ, ◌+◌, ◌-◌, ◌*◌, ◌/◌, ◌%◌, ◌^◌, ◌<◌, Bool, true, false, List, [], ◌∷◌, ◌++◌, Option, none, some,
  length, get_or, take, drop, ltb, leb, if◌then◌else◌,
}

pub data DecodeState : Type 0 where
  head : DecodeState
  data_of : ℕ → DecodeState

pub record BytesCodec : Type 0 where
  pub state : DecodeState
  pub raw : Bool
  pub max_packet_length : ℕ

-- The two `io::Error`s of the codec.
pub data ErrorKind : Type 0 where
  invalid_data invalid_input : ErrorKind

pub data IoResult (A : Type 0) : Type 0 where
  ok : A → IoResult A
  err : ErrorKind → IoResult A

unfoldable pub new : BytesCodec
new = record { state = head; raw = false; max_packet_length = 2 ^ 64 - 1 }

unfoldable pub set_raw : BytesCodec → BytesCodec
set_raw c = record c { raw = true }

unfoldable pub set_max_packet_length : BytesCodec → ℕ → BytesCodec
set_max_packet_length c n = record c { max_packet_length = n }

-- `((src[0] & 0x3) + 1) as usize`
abbrev pub head_len : List ℕ → ℕ
head_len src = bit_and (get_or src 0 0) 0x3 + 1

-- `n |= (src[i] as usize) << k`
abbrev pub join_byte : ℕ → List ℕ → ℕ → ℕ → ℕ
join_byte n src i k = bit_or n (get_or src i 0 * 2 ^ k)

-- The number that the header's bytes spell, its two low bits cut off.
unfoldable pub head_value : List ℕ → ℕ
head_value src =
    let n0 = get_or src 0 0 in
    let n1 = if ltb 1 (head_len src) then join_byte n0 src 1 8 else n0 in
    let n2 = if ltb 2 (head_len src) then join_byte n1 src 2 16 else n1 in
    let n3 = if ltb 3 (head_len src) then join_byte n2 src 3 24 else n2 in n3 / 4

-- The result, and what is left of `src`.
unfoldable pub decode_head : BytesCodec → List ℕ → IoResult (Option ℕ) × List ℕ
decode_head c [] = (ok none, [])
decode_head c (b ∷ bs) =
    let src = b ∷ bs in
    if ltb (length src) (head_len src)
    then (ok none, src)
    else if ltb c.max_packet_length (head_value src)
    then (err invalid_data, src)
    else (ok (some (head_value src)), drop (head_len src) src)

unfoldable pub decode_data : ℕ → List ℕ → Option (List ℕ) × List ℕ
decode_data n src = if ltb (length src) n then (none, src) else (some (take n src), drop n src)

-- What `decode` returns, and the codec and the buffer that it leaves.
pub record Decoded : Type 0 where
  pub result : IoResult (Option (List ℕ))
  pub codec : BytesCodec
  pub src : List ℕ

finish : BytesCodec → Option (List ℕ) × List ℕ → Decoded
finish c (some frame, rest) = record {
  result = ok (some frame);
  codec = record c { state = head };
  src = rest;
}
finish c (none, rest) = record { result = ok none; codec = c; src = rest }

-- The second half of `decode`, once the state is `Data(n)`.
unfoldable pub decode_body : BytesCodec → ℕ → List ℕ → Decoded
unfolding decode_data finish
decode_body c n src = finish c (decode_data n src)

decode_from_head : BytesCodec → IoResult (Option ℕ) × List ℕ → Decoded
unfolding decode_body
decode_from_head c (err e, src) = record { result = err e; codec = c; src = src }
decode_from_head c (ok none, src) = record { result = ok none; codec = c; src = src }
decode_from_head c (ok (some n), src) = decode_body (record c { state = data_of n }) n src

decode_framed : DecodeState → BytesCodec → List ℕ → Decoded
unfolding decode_head decode_from_head
decode_framed head c src = decode_from_head c (decode_head c src)
decode_framed (data_of n) c src = decode_body c n src

decode_raw : BytesCodec → List ℕ → Decoded
decode_raw c [] = record { result = ok none; codec = c; src = [] }
decode_raw c (b ∷ bs) =
    let src = b ∷ bs in
    record { result = ok (some (take (length src) src)); codec = c; src = drop (length src) src }

unfoldable pub decode : BytesCodec → List ℕ → Decoded
unfolding decode_raw decode_framed
decode c src = if c.raw then decode_raw c src else decode_framed c.state c src

-- `put_u16_le` and `put_u32_le`
abbrev pub u16_le : ℕ → List ℕ
u16_le v = (v % 256) ∷ (v / 256) ∷ []

abbrev pub u32_le : ℕ → List ℕ
u32_le v = (v % 256) ∷ (v / 256 % 256) ∷ (v / 65536 % 256) ∷ (v / 16777216) ∷ []

-- `data.len() << 2`
abbrev pub shifted_len : List ℕ → ℕ
shifted_len frame = length frame * 4 % 2 ^ 64

-- The result of `encode`, and the buffer that it leaves.
unfoldable pub encode : BytesCodec → List ℕ → List ℕ → IoResult (Unit {0}) × List ℕ
encode c frame buf =
    let n = shifted_len frame in
    let h = bit_or (n % 2 ^ 32) 0x2 in
    if c.raw
    then (ok tt, buf ++ frame)
    else if leb (length frame) 0x3F
    then (ok tt, buf ++ (((n % 2 ^ 8) ∷ []) ++ frame))
    else if leb (length frame) 0x3FFF
    then (ok tt, buf ++ (u16_le (bit_or (n % 2 ^ 16) 0x1) ++ frame))
    else if leb (length frame) 0x3FFFFF
    then (ok tt, buf ++ ((u16_le (bit_and h 0xFFFF) ++ (h / 2 ^ 16 % 2 ^ 8 ∷ [])) ++ frame))
    else if leb (length frame) 0x3FFFFFFF
    then (ok tt, buf ++ (u32_le (bit_or (n % 2 ^ 32) 0x3) ++ frame))
    else (err invalid_input, buf)
