-- ===== src/Client/Clipboard/Runs.antt =====
-- Examples for the clipboard, with a compression of runs of zeros, and one that adds a byte.
use kd_desk_tc.Prelude.{
  ℕ, zero, suc, ◌*◌, ◌<◌, ◌≡◌, refl, sym, ap, subst, ◌∙◌, arith, Bool, true, false, Option, none,
  some, List, [], ◌∷◌, ◌==◌, if◌then◌else◌, if_true, ltb, lt→ltb, list_eq, nat_eq, length,
}
use mathlib.Core.Option.{some-injective}
use kd_desk_tc.Strings.{bytes}
use kd_desk_tc.Proto.{Text}
use kd_desk_tc.Client.Compress.{Zstd}
use kd_desk_tc.Client.Transfer.Packing.{Lossless}
use kd_desk_tc.Client.Clipboard.{Board, check_clipboard, create_clipboard_msg}
use kd_desk_tc.Client.Clipboard.Sharing.{
  Bounded, shared, check_clipboard-shares, check_clipboard-loses,
}

rest : Text → Option Text
rest [] = none
rest (c ∷ cs) = some cs

abbrev longer : Zstd
longer = record { compress = λ t n. some (0 ∷ t); decompress = λ t n. rest t }

longer-Lossless : Lossless longer
unfolding Lossless rest
longer-Lossless x = (0 ∷ x, refl, λ n h. refl)

abbrev board : Text → Board
board t = record { old = []; text = some t }

check_clipboard-shares_example :
    ((shared longer (λ t. true) (board (bytes "hi")) (board [])).1.text ≡ some (bytes "hi"))
    × (check_clipboard longer (shared longer (λ t. true) (board (bytes "hi")) (board [])).0
        ≡ ((shared longer (λ t. true) (board (bytes "hi")) (board [])).0, none))
    × (check_clipboard longer (shared longer (λ t. true) (board (bytes "hi")) (board [])).1
        ≡ ((shared longer (λ t. true) (board (bytes "hi")) (board [])).1, none))
check_clipboard-shares_example =
    check_clipboard-shares longer (λ t. true) (bytes "hi") (board (bytes "hi")) (board [])
      longer-Lossless refl (omega arith) (omega arith)
      (unfold kd_desk_tc.Prelude.list_discrete in refl) refl

zeros : ℕ → Text
zeros zero = []
zeros (suc n) = 0 ∷ zeros n

length-zeros : (n : ℕ) → length (zeros n) ≡ n
unfolding zeros
length-zeros zero = refl
length-zeros (suc n) = ap suc (length-zeros n)

fitting : Text → ℕ → Option Text
fitting [] n = none
fitting (k ∷ t) n = if ltb n k then none else some (zeros k)

-- A run of zeros is kept as its length.
abbrev runs : Zstd
runs = record { compress = λ t n. some (length t ∷ []); decompress = fitting }

runs-Bounded : Bounded runs
unfolding Bounded fitting
runs-Bounded x c n e h =
    let s : length x ∷ [] ≡ c = some-injective (length x ∷ []) c e in
    ap (λ (t : Text). fitting t n) (sym s) ∙ if_true (ltb n (length x)) _ _ (lt→ltb n (length x) h)

abbrev long : Text
long = zeros 1500000

long-new : (long == []) ≡ false
unfolding zeros kd_desk_tc.Prelude.list_discrete
long-new = refl

check_clipboard-loses_example :
    ((check_clipboard runs (board long)).1 ≡ some (create_clipboard_msg runs long))
    × ((shared runs (λ t. true) (board long) (board (bytes "b"))).1.text ≡ some (bytes "b"))
check_clipboard-loses_example =
    check_clipboard-loses runs (λ t. true) long (length long ∷ []) (board long) (board (bytes "b"))
      runs-Bounded refl (omega (arith, length-zeros 1500000)) (omega (arith, length-zeros 1500000))
      long-new refl refl (omega (arith, length-zeros 1500000))
