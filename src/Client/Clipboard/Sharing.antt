-- ===== src/Client/Clipboard/Sharing.antt =====
-- A text that one side copies, on the clipboard of the other.
use kd_desk_tc.Prelude.{
  ℕ, ◌*◌, ◌≤◌, ◌<◌, ◌≡◌, inl, inr, refl, sym, ap, subst, ◌∙◌, arith, Bool, true, false, not, ◌&&◌,
  Option, none, some, [], ◌==◌, ==_refl, ne→==, nat_eq, list_eq, ltb, lt→ltb, length, Bool-cases,
  if_true, if_false,
}
use kd_desk_tc.Proto.{Text}
use kd_desk_tc.Client.Proto.{Clipboard}
use kd_desk_tc.Client.Compress.{Zstd, compress, decompress, compress_level, buffer_size}
use kd_desk_tc.Client.Transfer.Packing.{Lossless, buffer_size_min}
use kd_desk_tc.Client.Clipboard.{
  Board, create_clipboard_msg, content_of, set_content, update_clipboard, check_content,
  check_clipboard, too_long,
}

decompressed :
    (z : Zstd) (t : Text)
    → Lossless z
    → length t ≤ 1024 * 1024
    → decompress z (compress z t compress_level) ≡ t
unfolding Lossless decompress compress
decompressed z t law h =
    let l = law t in
    rw (l.1, l.2 (buffer_size (length l.0)) (omega (arith, buffer_size_min (length l.0)))) refl

pub content_of-create_clipboard_msg :
    (z : Zstd) (t : Text)
    → Lossless z
    → length t ≤ 1024 * 1024
    → content_of z (create_clipboard_msg z t) ≡ t
unfolding content_of create_clipboard_msg
content_of-create_clipboard_msg z t law h =
    elim (Bool-cases (ltb (length (compress z t compress_level)) (length t))) [
      | inl e ↦ rw (e) (decompressed z t law h)
      | inr e ↦ rw (e) refl
    ]

not_empty : (t : Text) → 0 < length t → (t == []) ≡ false
not_empty t h = ne→== t [] (λ e. absurd (omega (arith, ap length e)))

check_found :
    (z : Zstd) (t : Text) (b : Board) → b.text ≡ some t → check_clipboard z b ≡ check_content z t b
unfolding check_clipboard
check_found z t b e =
    ap (λ (o : Option Text). elim o [ none ↦ (b, none) | some content ↦ check_content z content b ])
      e

-- A text that is new is noted and sent.
checked_new :
    (z : Zstd) (t : Text) (b : Board)
    → b.text ≡ some t
    → 0 < length t
    → length t < too_long
    → (t == b.old) ≡ false
    → check_clipboard z b ≡ (record b { old = t }, some (create_clipboard_msg z t))
unfolding check_content
checked_new z t b e p q n =
    check_found z t b e
    ∙ if_true (ltb (length t) too_long && not (t == [])) _ _
        (rw (lt→ltb (length t) too_long q, not_empty t p) refl)
    ∙ if_true (not (t == b.old)) _ _ (ap not n)

-- A text that was noted is not sent again.
checked_old :
    (z : Zstd) (t : Text) (b : Board)
    → b.text ≡ some t
    → b.old ≡ t
    → check_clipboard z b ≡ (b, none)
unfolding check_content
checked_old z t b e o =
    check_found z t b e ∙ elim (Bool-cases (ltb (length t) too_long && not (t == []))) [
      | inl f ↦
          if_true (ltb (length t) too_long && not (t == [])) _ (b, none) f
          ∙ if_false (not (t == b.old)) _ (b, none)
              (ap not (subst (λ (x : Text). (t == x) ≡ true) (sym o) (==_refl t)))
      | inr f ↦ if_false (ltb (length t) too_long && not (t == [])) _ (b, none) f
    ]

-- A message that carries a text puts it on a clipboard that is there.
carried :
    (z : Zstd) (utf8 : Text → Bool) (c : Clipboard) (t : Text) (b : Board)
    → content_of z c ≡ t
    → utf8 t ≡ true
    → update_clipboard z utf8 true c b ≡ set_content t b
unfolding update_clipboard
carried z utf8 c t b e u =
    if_true (utf8 (content_of z c) && true) (set_content (content_of z c) b) b (rw (e, u) refl)
    ∙ ap (λ (x : Text). set_content x b) e

set_nonempty :
    (t : Text) (b : Board) → 0 < length t → set_content t b ≡ record b { old = t; text = some t }
unfolding set_content
set_nonempty t b p = if_false (t == []) _ _ (not_empty t p)

-- One side copies a text, and the other takes the message.
unfoldable pub shared : Zstd → (Text → Bool) → Board → Board → Board × Board
shared z utf8 a b =
    let r = check_clipboard z a in
    (r.0, elim r.1 [ none ↦ b | some c ↦ update_clipboard z utf8 true c b ])

shared_new :
    (z : Zstd) (utf8 : Text → Bool) (t : Text) (a b : Board)
    → a.text ≡ some t
    → 0 < length t
    → length t < too_long
    → (t == a.old) ≡ false
    → shared z utf8 a b
      ≡ (record a { old = t }, update_clipboard z utf8 true (create_clipboard_msg z t) b)
unfolding shared
shared_new z utf8 t a b e p q n =
    ap
      (λ (r : Board × Option Clipboard).
        (r.0, elim r.1 [ none ↦ b | some c ↦ update_clipboard z utf8 true c b ]))
      (checked_new z t a e p q n)

-- A text that was copied on one side, and that this side has not seen last, is on the clipboard of
-- the other side once that has taken the message, and then neither side sends it again. The text is
-- UTF-8, has at least one and at most 2^20 bytes, and zstd gives back what it compressed.
pub check_clipboard-shares :
    (z : Zstd) (utf8 : Text → Bool) (t : Text) (a b : Board)
    → Lossless z
    → a.text ≡ some t
    → 0 < length t
    → length t ≤ 1024 * 1024
    → (t == a.old) ≡ false
    → utf8 t ≡ true
    → ((shared z utf8 a b).1.text ≡ some t)
      × (check_clipboard z (shared z utf8 a b).0 ≡ ((shared z utf8 a b).0, none))
      × (check_clipboard z (shared z utf8 a b).1 ≡ ((shared z utf8 a b).1, none))
check_clipboard-shares z utf8 t a b law e p q n u =
    let path : shared z utf8 a b ≡ (record a { old = t }, record b { old = t; text = some t }) =
      shared_new z utf8 t a b e p (omega arith) n
      ∙ ap (λ (d : Board). (record a { old = t }, d))
          (carried z utf8 (create_clipboard_msg z t) t b (content_of-create_clipboard_msg z t law q)
              u
            ∙ set_nonempty t b p) in
    let A : Board = record a { old = t } in
    let B : Board = record b { old = t; text = some t } in
    subst
      (λ (r : Board × Board).
        (r.1.text ≡ some t)
        × (check_clipboard z r.0 ≡ (r.0, none))
        × (check_clipboard z r.1 ≡ (r.1, none)))
      (sym path) (refl, checked_old z t A e refl, checked_old z t B refl refl)

-- What zstd promises of a buffer that is too small.
unfoldable pub Bounded : Zstd → Type 0
Bounded z =
    (x c : Text) (n : ℕ)
    → z.compress x compress_level ≡ some c
    → n < length x
    → z.decompress c n ≡ none

small_buffer :
    (c t : Text)
    → 1024 * 1024 < length t
    → length t < too_long
    → 30 * length c < length t
    → buffer_size (length c) < length t
unfolding buffer_size
small_buffer c t p q h = ground arith

lost_content :
    (z : Zstd) (t c : Text)
    → Bounded z
    → z.compress t compress_level ≡ some c
    → length c < length t
    → buffer_size (length c) < length t
    → content_of z (create_clipboard_msg z t) ≡ []
unfolding Bounded content_of create_clipboard_msg decompress compress
lost_content z t c law e s h =
    rw (e, lt→ltb (length c) (length t) s, law t c (buffer_size (length c)) e h) refl

set_empty : (b : Board) → set_content [] b ≡ record b { old = [] }
unfolding set_content
set_empty b = if_true _ _ _ (==_refl {A = Text} [])

-- A text of more than 2^20 and less than 2,000,000 bytes that compresses to less than a thirtieth
-- is sent, but the clipboard of the other side stays as it was. The text is not the one that was
-- seen last, and zstd refuses a buffer that is too small.
pub check_clipboard-loses :
    (z : Zstd) (utf8 : Text → Bool) (t c : Text) (a b : Board)
    → Bounded z
    → a.text ≡ some t
    → 1024 * 1024 < length t
    → length t < too_long
    → (t == a.old) ≡ false
    → utf8 [] ≡ true
    → z.compress t compress_level ≡ some c
    → 30 * length c < length t
    → ((check_clipboard z a).1 ≡ some (create_clipboard_msg z t))
      × ((shared z utf8 a b).1.text ≡ b.text)
check_clipboard-loses z utf8 t c a b law e p q n u k h = (
  ap (λ (r : Board × Option Clipboard). r.1) (checked_new z t a e (omega arith) q n),
  ap (λ (r : Board × Board). r.1.text)
      (shared_new z utf8 t a b e (omega arith) q n
        ∙ ap (λ (d : Board). (record a { old = t }, d))
            (carried z utf8 (create_clipboard_msg z t) [] b
                (lost_content z t c law k (omega arith) (small_buffer c t p q h)) u
              ∙ set_empty b)),
)
