-- ===== src/Codec/Stream.antt =====
-- A whole stream: frames written one after another, cut into pieces at any places, and decoded the
-- way a framed reader calls `decode`, until it asks for more bytes.
pub mod Drain
pub mod Pieces
pub mod Delivery
use kd_desk_tc.Prelude.{
  ℕ, zero, suc, ◌+◌, ◌≤◌, ◌<◌, ◌≡◌, refl, sym, subst, ap, ◌∙◌, arith, Bool, true, false, List, [],
  ◌∷◌, ◌++◌, Option, none, some, All, length, length-append, length-drop,
}
use mathlib.Core.List.{append_assoc, append-nil, flatten}
use kd_desk_tc.Codec.{
  BytesCodec, DecodeState, head, data_of, ok, err, ErrorKind, IoResult, Decoded, decode, encode,
}
use kd_desk_tc.Codec.Decode.{resume, decode-append, decode-empty}
use kd_desk_tc.Codec.Outcome.{asks, gives, fails, decode-Outcome}
use kd_desk_tc.Codec.RoundTrip.{decode-encode}

-- The frames that came out, and the codec and the buffer at the end.
pub record Drained : Type 0 where
  pub frames : List (List ℕ)
  pub failed : Bool
  pub codec : BytesCodec
  pub src : List ℕ

abbrev push_frame : List ℕ → Option Drained → Option Drained
push_frame frame none = none
push_frame frame (some d) = some (record d { frames = frame ∷ d.frames })

drain_step : Decoded → Option Drained → Option Drained
drain_step d rest = elim d.result [
  | ok r ↦ elim r [
    | none ↦ some (record { frames = []; failed = false; codec = d.codec; src = d.src })
    | some frame ↦ push_frame frame rest
  ]
  | err e ↦ some (record { frames = []; failed = true; codec = d.codec; src = d.src })
]

-- Decode until more bytes are wanted, or an error. `none` means that the fuel ran out.
unfoldable pub drain : ℕ → BytesCodec → List ℕ → Option Drained
unfolding drain_step
drain zero c src = none
drain (suc fuel) c src =
    let rest = drain fuel (decode c src).codec (decode c src).src in drain_step (decode c src) rest

-- The frames delivered while the pieces arrive one by one. A frame takes a byte or more, and the
-- frame that was begun may be empty, so the length of the buffer and two bounds the rounds.
unfoldable pub deliver : BytesCodec → List ℕ → List (List ℕ) → Option (List (List ℕ))
deliver c carry [] = some []
deliver c carry (piece ∷ pieces) = elim (drain (length (carry ++ piece) + 2) c (carry ++ piece)) [
  | none ↦ none
  | some d ↦
      let more = deliver d.codec d.src pieces in
      elim d.failed [
        | true ↦ some d.frames
        | false ↦ elim more [ none ↦ none | some fs ↦ some (d.frames ++ fs) ]
      ]
]

-- The bytes on the wire: `encode` called for each frame in turn.
unfoldable pub wire : BytesCodec → List (List ℕ) → List ℕ
wire c [] = []
wire c (frame ∷ frames) = (encode c frame []).1 ++ wire c frames

abbrev pub joined : List (List ℕ) → List ℕ
joined [] = []
joined (p ∷ ps) = p ++ joined ps
