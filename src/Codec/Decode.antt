-- ===== src/Codec/Decode.antt =====
-- `decode` on a buffer that grows: a frame may arrive in any number of pieces.
use kd_desk_tc.Prelude.{
  ℕ, ◌≤◌, ◌<◌, ◌≡◌, refl, arith, false, List, [], ◌∷◌, ◌++◌, none, some, dec_lt, length, drop,
  length-append, take-append_le, drop-append_le,
}
use kd_desk_tc.Codec.{
  BytesCodec, DecodeState, head, data_of, invalid_data, ok, err, head_len, head_value, Decoded,
  decode_body, decode,
}

-- What `decode` gives once `more` has come in behind the buffer: it decodes on if it had asked for
-- more, and otherwise its answer stands.
abbrev pub resume : Decoded → List ℕ → Decoded
resume d more = elim d.result [
  | ok r ↦ elim r [
    | none ↦ decode d.codec (d.src ++ more)
    | some frame ↦ record d { src = d.src ++ more }
  ]
  | err e ↦ record d { src = d.src ++ more }
]

head_value-append :
    (src more : List ℕ) → head_len src ≤ length src → head_value (src ++ more) ≡ head_value src
unfolding head_value
head_value-append [] more h = absurd (omega arith)
head_value-append (b0 ∷ []) more h = ground arith
head_value-append (b0 ∷ b1 ∷ []) more h = ground arith
head_value-append (b0 ∷ b1 ∷ b2 ∷ []) more h = ground arith
head_value-append (b0 ∷ b1 ∷ b2 ∷ b3 ∷ bs) more h = ground arith

body-append :
    (c : BytesCodec) (n : ℕ) (src more : List ℕ)
    → c.raw ≡ false
    → c.state ≡ data_of n
    → decode_body c n (src ++ more) ≡ resume (decode_body c n src) more
unfolding decode_body decode
body-append c n src more r s =
    ground (arith, length-append src more, take-append_le n src more, drop-append_le n src more)

-- `decode` within a frame.
pub decode-data_of :
    (c : BytesCodec) (n : ℕ) (src : List ℕ)
    → c.raw ≡ false
    → c.state ≡ data_of n
    → decode c src ≡ decode_body c n src
unfolding decode decode_body
decode-data_of c n src r s = ground arith

-- `decode` at the start of a frame whose header is not complete.
pub decode-short :
    (c : BytesCodec) (b : ℕ) (bs : List ℕ)
    → c.raw ≡ false
    → c.state ≡ head
    → length (b ∷ bs) < head_len (b ∷ bs)
    → decode c (b ∷ bs) ≡ record { result = ok none; codec = c; src = b ∷ bs }
unfolding decode
decode-short c b bs r s h = ground arith

pub decode-big :
    (c : BytesCodec) (b : ℕ) (bs : List ℕ)
    → c.raw ≡ false
    → c.state ≡ head
    → head_len (b ∷ bs) ≤ length (b ∷ bs)
    → c.max_packet_length < head_value (b ∷ bs)
    → decode c (b ∷ bs) ≡ record { result = err invalid_data; codec = c; src = b ∷ bs }
unfolding decode
decode-big c b bs r s h m = ground arith

pub decode-framed :
    (c : BytesCodec) (b : ℕ) (bs : List ℕ)
    → c.raw ≡ false
    → c.state ≡ head
    → head_len (b ∷ bs) ≤ length (b ∷ bs)
    → head_value (b ∷ bs) ≤ c.max_packet_length
    → decode c (b ∷ bs)
      ≡ decode_body
          (record c { state = data_of (head_value (b ∷ bs)) })
          (head_value (b ∷ bs))
          (drop (head_len (b ∷ bs)) (b ∷ bs))
unfolding decode decode_body
decode-framed c b bs r s h m = ground arith

pub decode-empty :
    (c : BytesCodec)
    → c.raw ≡ false
    → c.state ≡ head
    → decode c [] ≡ record { result = ok none; codec = c; src = [] }
unfolding decode
decode-empty c r s = ground arith

framed-append :
    (c : BytesCodec) (b : ℕ) (bs more : List ℕ)
    → c.raw ≡ false
    → c.state ≡ head
    → head_len (b ∷ bs) ≤ length (b ∷ bs)
    → head_value (b ∷ bs) ≤ c.max_packet_length
    → decode c (b ∷ (bs ++ more)) ≡ resume (decode c (b ∷ bs)) more
framed-append c b bs more r s h m =
    rw
      (
        decode-framed c b bs r s h m,
        decode-framed c b (bs ++ more) r s (omega (arith, length-append bs more))
            (rw (head_value-append (b ∷ bs) more h) m),
        head_value-append (b ∷ bs) more h,
        drop-append_le (head_len (b ∷ bs)) (b ∷ bs) more h,
      )
      (body-append (record c { state = data_of (head_value (b ∷ bs)) }) (head_value (b ∷ bs))
        (drop (head_len (b ∷ bs)) (b ∷ bs)) more r refl)

head-append :
    (c : BytesCodec) (src more : List ℕ)
    → c.raw ≡ false
    → c.state ≡ head
    → decode c (src ++ more) ≡ resume (decode c src) more
head-append c [] more r s = rw (decode-empty c r s)
head-append c (b ∷ bs) more r s = elim (dec_lt (length (b ∷ bs)) (head_len (b ∷ bs))) [
  | yes short ↦ rw (decode-short c b bs r s short)
  | no long ↦ elim (dec_lt c.max_packet_length (head_value (b ∷ bs))) [
    | yes big ↦ rw (decode-big c b bs r s (omega arith) big) (
        decode-big c b (bs ++ more) r s (omega (arith, length-append bs more))
          (rw (head_value-append (b ∷ bs) more (omega arith)) big))
    | no small ↦ framed-append c b bs more r s (omega arith) (omega arith)
  ]
]

state-append :
    (c : BytesCodec) (src more : List ℕ) (st : DecodeState)
    → c.raw ≡ false
    → c.state ≡ st
    → decode c (src ++ more) ≡ resume (decode c src) more
state-append c src more head r s = head-append c src more r s
state-append c src more (data_of n) r s =
    rw (decode-data_of c n src r s, decode-data_of c n (src ++ more) r s)
      (body-append c n src more r s)

-- In framed mode `decode` on a whole buffer is `decode` on its front, resumed with the rest,
-- whatever it answered on the front.
pub decode-append :
    (c : BytesCodec) (src more : List ℕ)
    → c.raw ≡ false
    → decode c (src ++ more) ≡ resume (decode c src) more
decode-append c src more r = state-append c src more c.state r refl
