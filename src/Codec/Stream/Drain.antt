-- ===== src/Codec/Stream/Drain.antt =====
-- `drain`, one round at a time, and that it finishes.
use kd_desk_tc.Prelude.{
  ℕ, zero, suc, ◌+◌, ◌≤◌, ◌<◌, ◌≡◌, refl, arith, true, false, List, [], ◌∷◌, ◌++◌, Option, none,
  some, All, length,
}
use kd_desk_tc.Codec.{BytesCodec, head, ok, err, ErrorKind, decode, encode}
use kd_desk_tc.Codec.Decode.{decode-empty}
use kd_desk_tc.Codec.Outcome.{asks, gives, fails, decode-Outcome}
use kd_desk_tc.Codec.RoundTrip.{decode-encode}
use kd_desk_tc.Codec.Stream.{Drained, push_frame, drain, wire}

-- One round of `drain` for each outcome of `decode`.
module _ (fuel : ℕ) (c : BytesCodec) (src : List ℕ) where
  pub drain-asks :
      (c' : BytesCodec) (rest : List ℕ)
      → decode c src ≡ record { result = ok none; codec = c'; src = rest }
      → drain (suc fuel) c src
        ≡ some (record { frames = []; failed = false; codec = c'; src = rest })
  unfolding drain
  drain-asks c' rest e = rw e

  pub drain-gives :
      (frame : List ℕ) (c' : BytesCodec) (rest : List ℕ)
      → decode c src ≡ record { result = ok (some frame); codec = c'; src = rest }
      → drain (suc fuel) c src ≡ push_frame frame (drain fuel c' rest)
  unfolding drain
  drain-gives frame c' rest e = rw e

  pub drain-fails :
      (x : ErrorKind) (c' : BytesCodec) (rest : List ℕ)
      → decode c src ≡ record { result = err x; codec = c'; src = rest }
      → drain (suc fuel) c src
        ≡ some (record { frames = []; failed = true; codec = c'; src = rest })
  unfolding drain
  drain-fails x c' rest e = rw e

-- A wire that is drained gives the frames back, and leaves nothing.
pub drain-wire :
    (c : BytesCodec) (frames : List (List ℕ))
    → c.raw ≡ false
    → c.state ≡ head
    → All (λ f. (length f ≤ 0x3FFFFFFF) × (length f ≤ c.max_packet_length)) frames
    → drain (suc (length frames)) c (wire c frames)
      ≡ some (record { frames = frames; failed = false; codec = c; src = [] })
unfolding wire
drain-wire c [] r s h = drain-asks 0 c [] c [] (decode-empty c r s)
drain-wire c (f ∷ fs) r s h =
    rw
      (drain-gives (suc (length fs)) c ((encode c f []).1 ++ wire c fs) f c (wire c fs)
        (decode-encode c f (wire c fs) r s h.0.0 h.0.1))
      (rw (drain-wire c fs r s h.1))

abbrev pub Finishes : Option Drained → Type 0
Finishes o = (d : Drained) × (o ≡ some d)

push-Finishes : (frame : List ℕ) (o : Option Drained) → Finishes o → Finishes (push_frame frame o)
push-Finishes frame o (d, e) = (record d { frames = frame ∷ d.frames }, rw e)

drain_head :
    (fuel : ℕ) (c : BytesCodec) (src : List ℕ)
    → c.raw ≡ false
    → c.state ≡ head
    → length src < fuel
    → Finishes (drain fuel c src)
drain_head zero c src r s h = absurd (omega arith)
drain_head (suc fuel) c src r s h = elim (decode-Outcome c src r) [
  | asks st rest l e ↦ (_, drain-asks fuel c src _ rest e)
  | gives frame rest l k e ↦ rw (drain-gives fuel c src frame _ rest e) (
      push-Finishes frame _
        (drain_head fuel (record c { state = head }) rest r refl (omega (arith, k s))))
  | fails e ↦ (_, drain-fails fuel c src _ c src e)
]

-- The rounds that `deliver` allows are always enough.
pub drain-Finishes :
    (c : BytesCodec) (src : List ℕ) → c.raw ≡ false → Finishes (drain (length src + 2) c src)
drain-Finishes c src r = rw two (elim (decode-Outcome c src r) [
  | asks st rest l e ↦ (_, drain-asks _ c src _ rest e)
  | gives frame rest l k e ↦
      rw (drain-gives _ c src frame _ rest e)
        (push-Finishes frame _ (drain_head _ (record c { state = head }) rest r refl (omega arith)))
  | fails e ↦ (_, drain-fails _ c src _ c src e)
])
  where
    two : length src + 2 ≡ suc (suc (length src))
    two = omega arith

pub drain_same :
    (fuel : ℕ) (c c' : BytesCodec) (src src' : List ℕ)
    → decode c src ≡ decode c' src'
    → drain (suc fuel) c src ≡ drain (suc fuel) c' src'
unfolding drain
drain_same fuel c c' src src' e = rw e
