-- ===== src/Client/Service/Backoff.antt =====
-- How long the thread of `run` sleeps after a callback that failed (service.rs, lines 221 to 235).
use kd_desk_tc.Prelude.{
  ℕ, suc, ◌*◌, ◌^◌, ◌≤◌, ◌<◌, ◌++◌, min, ◌≡◌, sym, subst, arith, List, [], ◌∷◌, All, length, ltb,
  if◌then◌else◌,
}

abbrev pub hibernate_timeout : ℕ
hibernate_timeout = 30

abbrev pub max_error_timeout : ℕ
max_error_timeout = 1000

-- `error_timeout` after a failure of a callback that took `elapsed` milliseconds: the next sleep.
unfoldable pub after_error : ℕ → ℕ → ℕ
after_error error_timeout elapsed =
    let t = if ltb max_error_timeout elapsed then hibernate_timeout else error_timeout * 2 in
    if ltb max_error_timeout t then max_error_timeout else t

-- After the failures of a whole run of the thread. A callback that succeeds leaves it.
unfoldable pub after_errors : ℕ → List ℕ → ℕ
after_errors t [] = t
after_errors t (e ∷ es) = after_errors (after_error t e) es

after_error_capped : (n e : ℕ) → e ≤ 1000 → after_error (min 1000 n) e ≡ min 1000 (n * 2)
unfolding after_error
after_error_capped n e h = grind arith

shift_double : (n k : ℕ) → n * 2 * 2 ^ k ≡ n * 2 ^ suc k
shift_double n k = grind arith

after_errors_from :
    (es : List ℕ) (n : ℕ)
    → All (λ e. e ≤ 1000) es
    → after_errors (min 1000 n) es ≡ min 1000 (n * 2 ^ length es)
unfolding after_errors
after_errors_from [] n h = omega arith
after_errors_from (e ∷ es) n h =
    rw (after_error_capped n e h.0, after_errors_from es (n * 2) h.1, shift_double n (length es))

-- A slow failure forgets what came before.
after_error_slow : (t e : ℕ) → 1000 < e → after_error t e ≡ 30
unfolding after_error
after_error_slow t e h = ground arith

slow_then_quick :
    (before : List ℕ) (slow : ℕ) (quick : List ℕ) (t : ℕ)
    → 1000 < slow
    → All (λ e. e ≤ 1000) quick
    → after_errors t (before ++ slow ∷ quick) ≡ min 1000 (30 * 2 ^ length quick)
unfolding after_errors
slow_then_quick [] slow quick t h hs =
    subst (λ u. after_errors u quick ≡ min 1000 (30 * 2 ^ length quick))
      (sym (after_error_slow t slow h)) (after_errors_from quick 30 hs)
slow_then_quick (e ∷ es) slow quick t h hs = slow_then_quick es slow quick (after_error t e) h hs

-- After a slow failure, of more than a second, and any number of quick ones behind it, the pause
-- that a service makes for its last failure, apart from the one that ends every round, is 30
-- milliseconds doubled once for each quick failure, or one second if that is less, whatever failed
-- before.
pub after_errors-doubles :
    (before : List ℕ) (slow : ℕ) (quick : List ℕ)
    → 1000 < slow
    → All (λ e. e ≤ 1000) quick
    → after_errors hibernate_timeout (before ++ slow ∷ quick) ≡ min 1000 (30 * 2 ^ length quick)
after_errors-doubles before slow quick h hs = slow_then_quick before slow quick 30 h hs
