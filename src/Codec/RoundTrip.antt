-- ===== src/Codec/RoundTrip.antt =====
-- `encode` against `decode`, one frame at a time, and the limit on a frame's length.
use kd_desk_tc.Prelude.{
  ℕ, ◌≤◌, ◌<◌, ◌≡◌, refl, arith, false, List, [], ◌∷◌, ◌++◌, some, length, length-take, dec_lt,
  length-append, take-length_append, drop-length_append, leb, if◌then◌else◌,
}
use mathlib.Core.List.{append_assoc}
use kd_desk_tc.Codec.{
  BytesCodec, DecodeState, head, data_of, ok, err, invalid_input, head_len, head_value, decode_head,
  Decoded, decode_body, decode, encode,
}
use kd_desk_tc.Codec.Decode.{decode-data_of, decode-empty, decode-short, decode-big, decode-framed}
use kd_desk_tc.Codec.Header.{header, encode-header, decode_head-header}

encode-overflow :
    (c : BytesCodec) (frame buf : List ℕ)
    → c.raw ≡ false
    → 0x3FFFFFFF < length frame
    → encode c frame buf ≡ (err invalid_input, buf)
unfolding encode
encode-overflow c frame buf r h = ground arith

-- Outside raw mode `encode` appends the header and the frame if the frame has at most 0x3FFFFFFF
-- bytes, and otherwise reports the error and leaves the buffer as it was.
encode_lem :
    (c : BytesCodec) (frame buf : List ℕ)
    → c.raw ≡ false
    → encode c frame buf ≡ (
        if leb (length frame) 0x3FFFFFFF
        then (ok tt, buf ++ (header (length frame) ++ frame))
        else (err invalid_input, buf))
encode_lem c frame buf r = ground (arith, encode-header c frame buf, encode-overflow c frame buf)

decode-decode_head :
    (c : BytesCodec) (src : List ℕ) (n : ℕ) (rest : List ℕ)
    → c.raw ≡ false
    → c.state ≡ head
    → decode_head c src ≡ (ok (some n), rest)
    → decode c src ≡ decode_body (record c { state = data_of n }) n rest
unfolding decode decode_body
decode-decode_head c src n rest r s e = ground arith

body_whole :
    (c : BytesCodec) (frame rest : List ℕ)
    → c.state ≡ head
    → decode_body (record c { state = data_of (length frame) }) (length frame) (frame ++ rest)
      ≡ record { result = ok (some frame); codec = c; src = rest }
unfolding decode_body
body_whole c frame rest s =
    ground (
      arith,
      length-append frame rest,
      take-length_append frame rest,
      drop-length_append frame rest,
    )

-- In framed mode and at the start of a frame, a frame of at most 0x3FFFFFFF bytes and within the
-- limit that `encode` wrote is decoded to itself, with any bytes behind it; the codec is back at
-- the start of a frame and the rest of the buffer is untouched.
pub decode-encode :
    (c : BytesCodec) (frame rest : List ℕ)
    → c.raw ≡ false
    → c.state ≡ head
    → length frame ≤ 0x3FFFFFFF
    → length frame ≤ c.max_packet_length
    → decode c ((encode c frame []).1 ++ rest)
      ≡ record { result = ok (some frame); codec = c; src = rest }
decode-encode c frame rest r s h m =
    rw
      (
        encode-header c frame [] r h,
        append_assoc (header (length frame)) frame rest,
        decode-decode_head c (header (length frame) ++ (frame ++ rest)) (length frame)
            (frame ++ rest) r s (decode_head-header c (length frame) (frame ++ rest) h m),
      )
      (body_whole c frame rest s)

abbrev Fits : DecodeState → ℕ → Type 0
Fits head m = Unit {0}
Fits (data_of n) m = n ≤ m

-- Once a header is accepted, the frame that it announces is within the limit.
abbrev pub IsValid : BytesCodec → Type 0
IsValid c = Fits c.state c.max_packet_length

abbrev Limited : ℕ → Decoded → Type 0
Limited m d = IsValid d.codec × ((frame : List ℕ) → d.result ≡ ok (some frame) → length frame ≤ m)

body-Limited :
    (c : BytesCodec) (n : ℕ) (src : List ℕ)
    → c.state ≡ data_of n
    → n ≤ c.max_packet_length
    → Limited c.max_packet_length (decode_body c n src)
unfolding decode_body
body-Limited c n src s h = (ground arith, λ frame e. ground (arith, length-take n src))

head-Limited :
    (c : BytesCodec) (src : List ℕ)
    → c.raw ≡ false
    → c.state ≡ head
    → Limited c.max_packet_length (decode c src)
head-Limited c [] r s = rw (decode-empty c r s) (rw s tt, λ frame e. cc)
head-Limited c (b ∷ bs) r s = elim (dec_lt (length (b ∷ bs)) (head_len (b ∷ bs))) [
  | yes short ↦ rw (decode-short c b bs r s short) (rw s tt, λ frame e. cc)
  | no long ↦ elim (dec_lt c.max_packet_length (head_value (b ∷ bs))) [
    | yes big ↦ rw (decode-big c b bs r s (omega arith) big) (rw s tt, λ frame e. cc)
    | no small ↦ rw (decode-framed c b bs r s (omega arith) (omega arith)) (
        body-Limited (record c { state = data_of (head_value (b ∷ bs)) }) (head_value (b ∷ bs)) _
          refl (omega arith))
  ]
]

state-Limited :
    (c : BytesCodec) (src : List ℕ) (st : DecodeState)
    → c.raw ≡ false
    → c.state ≡ st
    → Fits st c.max_packet_length
    → Limited c.max_packet_length (decode c src)
state-Limited c src head r s v = head-Limited c src r s
state-Limited c src (data_of n) r s v = rw (decode-data_of c n src r s) (body-Limited c n src s v)

-- In framed mode every frame that `decode` hands out is within the limit, and so is the frame it is
-- in the middle of, if that held before.
pub decode-IsValid :
    (c : BytesCodec) (src : List ℕ)
    → c.raw ≡ false
    → IsValid c
    → IsValid (decode c src).codec
      × ((frame : List ℕ)
          → (decode c src).result ≡ ok (some frame)
          → length frame ≤ c.max_packet_length)
decode-IsValid c src r v = state-Limited c src c.state r refl v
