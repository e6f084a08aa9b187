-- ===== src/Codec/Outcome.antt =====
-- The three outcomes of `decode` in framed mode, for proofs about code that calls it.
use kd_desk_tc.Prelude.{
  ℕ, ◌≤◌, ◌<◌, ◌≡◌, refl, sym, subst, take, arith, false, List, [], ◌∷◌, none, some, length, dec_lt,
  length-drop, drop,
}
use kd_desk_tc.Codec.{
  BytesCodec, DecodeState, head, data_of, ok, err, invalid_data, head_len, head_value, Decoded,
  decode, decode_body,
}
use kd_desk_tc.Codec.Decode.{decode-data_of, decode-empty, decode-short, decode-big, decode-framed}

-- More bytes are wanted, a frame comes out and the codec is back at a frame's start, or the
-- announced length is over the limit.
pub data Outcome (c : BytesCodec) (src : List ℕ) (d : Decoded) : Type 0 where
  asks :
      (st : DecodeState) (rest : List ℕ)
      → length rest ≤ length src
      → d ≡ record { result = ok none; codec = record c { state = st }; src = rest }
      → Outcome c src d
  gives :
      (frame rest : List ℕ)
      → length rest ≤ length src
      → (c.state ≡ head → length rest < length src)
      → d ≡ record { result = ok (some frame); codec = record c { state = head }; src = rest }
      → Outcome c src d
  fails : d ≡ record { result = err invalid_data; codec = c; src = src } → Outcome c src d

body_short :
    (c : BytesCodec) (n : ℕ) (src : List ℕ)
    → length src < n
    → decode_body c n src ≡ record { result = ok none; codec = c; src = src }
unfolding decode_body
body_short c n src h = ground arith

body_full :
    (c : BytesCodec) (n : ℕ) (src : List ℕ)
    → n ≤ length src
    → decode_body c n src ≡ record {
      result = ok (some (take n src));
      codec = record c { state = head };
      src = drop n src;
    }
unfolding decode_body
body_full c n src h = ground arith

-- Within the frame, where `src` is what is left of `all`.
body-Outcome :
    (c : BytesCodec) (n : ℕ) (src all : List ℕ)
    → length src ≤ length all
    → (c.state ≡ head → length src < length all)
    → Outcome c all (decode_body (record c { state = data_of n }) n src)
body-Outcome c n src all h k = elim (dec_lt (length src) n) [
  | yes short ↦ asks (data_of n) src h (body_short _ n src short)
  | no full ↦
      gives (take n src) (drop n src) (omega (arith, length-drop n src))
        (λ e. omega (arith, length-drop n src, k e)) (body_full _ n src (omega arith))
]

head-Outcome :
    (c : BytesCodec) (src : List ℕ) → c.raw ≡ false → c.state ≡ head → Outcome c src (decode c src)
head-Outcome c [] r s = asks c.state [] (omega arith) (decode-empty c r s)
head-Outcome c (b ∷ bs) r s = elim (dec_lt (length (b ∷ bs)) (head_len (b ∷ bs))) [
  | yes short ↦ asks c.state (b ∷ bs) (omega arith) (decode-short c b bs r s short)
  | no long ↦ elim (dec_lt c.max_packet_length (head_value (b ∷ bs))) [
    | yes big ↦ fails (decode-big c b bs r s (omega arith) big)
    | no small ↦ rw (decode-framed c b bs r s (omega arith) (omega arith)) (
        body-Outcome c (head_value (b ∷ bs)) (drop (head_len (b ∷ bs)) (b ∷ bs)) (b ∷ bs)
          (omega (arith, length-drop (head_len (b ∷ bs)) (b ∷ bs)))
          (λ e. omega (arith, length-drop (head_len (b ∷ bs)) (b ∷ bs))))
  ]
]

same_state : (c : BytesCodec) (n : ℕ) → c.state ≡ data_of n → record c { state = data_of n } ≡ c
same_state c n s = λ i. record c { state = sym s i }

state-Outcome :
    (c : BytesCodec) (src : List ℕ) (st : DecodeState)
    → c.raw ≡ false
    → c.state ≡ st
    → Outcome c src (decode c src)
state-Outcome c src head r s = head-Outcome c src r s
state-Outcome c src (data_of n) r s = rw (decode-data_of c n src r s) (
    subst (λ (x : BytesCodec). Outcome c src (decode_body x n src)) (same_state c n s)
      (body-Outcome c n src src (omega arith) (λ e. absurd (cc))))

pub decode-Outcome : (c : BytesCodec) (src : List ℕ) → c.raw ≡ false → Outcome c src (decode c src)
decode-Outcome c src r = state-Outcome c src c.state r refl
