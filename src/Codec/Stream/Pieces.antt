-- ===== src/Codec/Stream/Pieces.antt =====
-- Draining the front of a stream and then the rest.
use kd_desk_tc.Prelude.{
  ℕ, zero, suc, ◌≡◌, refl, sym, subst, ap, ◌∙◌, false, List, [], ◌∷◌, ◌++◌, Option, none, some,
}
use mathlib.Core.List.{append-nil}
use kd_desk_tc.Codec.{BytesCodec, head, ok, err, ErrorKind, decode}
use kd_desk_tc.Codec.Decode.{resume, decode-append}
use kd_desk_tc.Codec.Outcome.{asks, gives, fails, decode-Outcome}
use kd_desk_tc.Codec.Stream.{Drained, push_frame, drain}
use kd_desk_tc.Codec.Stream.Drain.{drain-asks, drain-gives, drain-fails, drain_same}

push_inversion :
    (frame : List ℕ) (o : Option Drained) (d : Drained)
    → push_frame frame o ≡ some d
    → (b : Drained) × (o ≡ some b) × (record b { frames = frame ∷ b.frames } ≡ d)
push_inversion frame none d e = absurd (cc)
push_inversion frame (some b) d e = (b, refl, cc)

-- What is still to come once `d` has been drained from the front, where the whole gives `r`.
abbrev pub Remains : List ℕ → Drained → Drained → Type 0
Remains more r d =
    (fuel : ℕ) × (b : Drained) × (drain fuel d.codec (d.src ++ more) ≡ some b)
    × (r ≡ record b { frames = d.frames ++ b.frames })
    × (d.codec.raw ≡ false)
    × (decode d.codec d.src ≡ record { result = ok none; codec = d.codec; src = d.src })

module _ (c : BytesCodec) (src : List ℕ) (raw : c.raw ≡ false) where
  asks_more :
      (c' : BytesCodec) (rest more : List ℕ)
      → decode c src ≡ record { result = ok none; codec = c'; src = rest }
      → decode c (src ++ more) ≡ decode c' (rest ++ more)
  asks_more c' rest more o = decode-append c src more raw ∙ ap (λ d. resume d more) o

  gives_more :
      (frame : List ℕ) (c' : BytesCodec) (rest more : List ℕ)
      → decode c src ≡ record { result = ok (some frame); codec = c'; src = rest }
      → decode c (src ++ more) ≡ record { result = ok (some frame); codec = c'; src = rest ++ more }
  gives_more frame c' rest more o = decode-append c src more raw ∙ ap (λ d. resume d more) o

  fails_more :
      (x : ErrorKind) (c' : BytesCodec) (rest more : List ℕ)
      → decode c src ≡ record { result = err x; codec = c'; src = rest }
      → decode c (src ++ more) ≡ record { result = err x; codec = c'; src = rest ++ more }
  fails_more x c' rest more o = decode-append c src more raw ∙ ap (λ d. resume d more) o

  -- Asked again with nothing new, `decode` asks again.
  asks_again :
      (c' : BytesCodec) (rest : List ℕ)
      → decode c src ≡ record { result = ok none; codec = c'; src = rest }
      → decode c' rest ≡ record { result = ok none; codec = c'; src = rest }
  asks_again c' rest o =
      ap (decode c') (sym (append-nil rest))
      ∙ sym (asks_more c' rest [] o)
      ∙ ap (decode c) (append-nil src)
      ∙ o

pub some_inj : (a b : Drained) → some a ≡ some b → a ≡ b
some_inj a b e = cc

push_Remains :
    (frame more : List ℕ) (d' d r' r : Drained)
    → Remains more r' d'
    → d'.failed ≡ false
    → record d' { frames = frame ∷ d'.frames } ≡ d
    → record r' { frames = frame ∷ r'.frames } ≡ r
    → Remains more r d × (d.failed ≡ false)
push_Remains frame more d' d r' r (fuel, b, e, split, raw, again) fine de re =
    subst (λ x. Remains more r x × (x.failed ≡ false)) de
      (
        subst (λ y. Remains more y (record d' { frames = frame ∷ d'.frames })) re
            (
              fuel,
              b,
              e,
              ap {A = Drained} (λ x. record x { frames = frame ∷ x.frames }) split,
              raw,
              again,
            ),
        fine,
      )

-- Draining the front and then the rest is draining the whole, where that succeeds.
pub drain-Remains :
    (f g : ℕ) (c : BytesCodec) (src more : List ℕ) (d r : Drained)
    → c.raw ≡ false
    → drain f c src ≡ some d
    → drain g c (src ++ more) ≡ some r
    → r.failed ≡ false
    → Remains more r d × (d.failed ≡ false)
drain-Remains zero g c src more d r raw e h k = absurd (unfold drain in cc)
drain-Remains (suc f) zero c src more d r raw e h k = absurd (unfold drain in cc)
drain-Remains (suc f) (suc g) c src more d r raw e h k = elim (decode-Outcome c src raw) [
  | asks st rest l o ↦
      subst (λ x. Remains more r x × (x.failed ≡ false))
        (some_inj _ d (sym (drain-asks f c src _ rest o) ∙ e))
        (
          (
            suc g,
            r,
            drain_same g (record c { state = st }) c (rest ++ more) (src ++ more)
                  (sym (asks_more c src raw _ rest more o))
                ∙ h,
            refl,
            raw,
            asks_again c src raw _ rest o,
          ),
          refl,
        )
  | gives frame rest l j o ↦
      let (d', e', de) = push_inversion frame _ d (sym (drain-gives f c src frame _ rest o) ∙ e) in
      let (r', h', re) = push_inversion frame _ r (
        sym (
          drain-gives g c (src ++ more) frame _ (rest ++ more)
            (gives_more c src raw frame _ rest more o))
        ∙ h) in
      let (below, fine) =
        drain-Remains f g (record c { state = head }) rest more d' r' raw e' h' (cc) in
      push_Remains frame more d' d r' r below fine de re
  | fails o ↦
      absurd
        (cc (drain-fails g c (src ++ more) _ c (src ++ more) (fails_more c src raw _ c src more o)))
]
