-- ===== src/Codec/Stream/Delivery.antt =====
-- A stream that arrives in pieces.
use kd_desk_tc.Prelude.{
  ℕ, zero, suc, ◌+◌, ◌≤◌, ◌≡◌, refl, sym, ap, ◌∙◌, false, List, [], ◌∷◌, ◌++◌, none, some, All,
  length,
}
use mathlib.Core.List.{append_assoc, append-nil}
use kd_desk_tc.Codec.{BytesCodec, head, ok, decode}
use kd_desk_tc.Codec.Decode.{decode-empty}
use kd_desk_tc.Codec.Stream.{Drained, drain, deliver, wire, joined}
use kd_desk_tc.Codec.Stream.Drain.{drain-asks, drain-wire, drain-Finishes}
use kd_desk_tc.Codec.Stream.Pieces.{drain-Remains, some_inj}

deliver_step :
    (c : BytesCodec) (carry piece : List ℕ) (pieces : List (List ℕ)) (d : Drained)
    {fs : List (List ℕ)}
    → drain (length (carry ++ piece) + 2) c (carry ++ piece) ≡ some d
    → d.failed ≡ false
    → deliver d.codec d.src pieces ≡ some fs
    → deliver c carry (piece ∷ pieces) ≡ some (d.frames ++ fs)
unfolding deliver
deliver_step c carry piece pieces d e fine more = rw (e, deliver, fine, more)

-- Delivering in pieces gives what draining the whole gives.
deliver-drain :
    (pieces : List (List ℕ)) (c : BytesCodec) (carry : List ℕ) (fuel : ℕ) (r : Drained)
    → c.raw ≡ false
    → decode c carry ≡ record { result = ok none; codec = c; src = carry }
    → drain fuel c (carry ++ joined pieces) ≡ some r
    → r.failed ≡ false
    → deliver c carry pieces ≡ some r.frames
deliver-drain pieces c carry zero r raw again e k = absurd (unfold drain in cc)
deliver-drain [] c carry (suc fuel) r raw again e k =
    unfold deliver in
    ap (λ x. some x.frames)
      (some_inj _ r (
        sym (drain-asks fuel c (carry ++ []) c carry (ap (decode c) (append-nil carry) ∙ again))
        ∙ e))
deliver-drain (piece ∷ pieces) c carry fuel r raw again e k =
    let (d, de) = drain-Finishes c (carry ++ piece) raw in
    let ((fuel', b, be, split, raw', again'), fine) =
      drain-Remains _ fuel c (carry ++ piece) (joined pieces) d r raw de
        (ap (drain fuel c) (append_assoc carry piece (joined pieces)) ∙ e) k in
    deliver_step c carry piece pieces d de fine (
      deliver-drain pieces d.codec d.src fuel' b raw' again' be
        (ap (λ x. x.failed) (sym split) ∙ k))
    ∙ ap (λ x. some x.frames) (sym split)

-- Whatever frames are written, and wherever the stream of their bytes is cut into pieces, a reader
-- in framed mode and at the start of a frame, which decodes until it is asked for more, delivers
-- exactly these frames, in order, if each has at most 0x3FFFFFFF bytes and is within the reader's
-- limit. The rounds that the reader is given are enough.
pub deliver-wire :
    (c : BytesCodec) (frames pieces : List (List ℕ))
    → c.raw ≡ false
    → c.state ≡ head
    → All (λ f. (length f ≤ 0x3FFFFFFF) × (length f ≤ c.max_packet_length)) frames
    → joined pieces ≡ wire c frames
    → deliver c [] pieces ≡ some frames
deliver-wire c frames pieces raw s fits e =
    deliver-drain pieces c [] _ _ raw (decode-empty c raw s)
      (ap (drain _ c) e ∙ drain-wire c frames raw s fits) refl
