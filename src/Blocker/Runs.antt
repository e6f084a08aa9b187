-- ===== src/Blocker/Runs.antt =====
-- Tests and examples for the limit on registrations.
use kd_desk_tc.Prelude.{◌≡◌, ◌≤◌, refl, true, false, [], ◌∷◌, none, some, arith, list_eq}
use kd_desk_tc.HashMap
use kd_desk_tc.Blocker.{Blocked, check_ip_blocker, check_known, contains}
use kd_desk_tc.Blocker.Bounds.{AllBounded, check_ip_blocker-AllBounded}
use kd_desk_tc.Blocker.Burst.{accepted, accepted-le}

-- An address that has 31 requests in the minute gets no further one.
abbrev full : Blocked
full = record { count = 31; count_at = 1000; ids = []; ids_at = 1000 }

check_known-full : check_known 2000 (5 ∷ []) (some full) ≡ (full, false)
unfolding check_known
check_known-full = refl

check_known_later :
    check_known 62000 (5 ∷ []) (some full)
    ≡ (record { count = 1; count_at = 62000; ids = (5 ∷ []) ∷ []; ids_at = 62000 }, true)
unfolding check_known contains
check_known_later = refl

accepted-le_example : accepted none ((1000, 5 ∷ []) ∷ (1500, 6 ∷ []) ∷ []) ≤ 32
accepted-le_example =
    accepted-le 1000 ((1000, 5 ∷ []) ∷ (1500, 6 ∷ []) ∷ []) none
      ((omega arith, omega arith), ((omega arith, omega arith), tt)) (λ b e. absurd (cc))

full-AllBounded : AllBounded (((1 ∷ []), full) ∷ [])
unfolding HashMap.get
full-AllBounded ip b e = ground arith

check_ip_blocker-AllBounded_example :
    AllBounded (check_ip_blocker 2000 (((1 ∷ []), full) ∷ []) (1 ∷ []) (5 ∷ [])).0
check_ip_blocker-AllBounded_example =
    check_ip_blocker-AllBounded 2000 (((1 ∷ []), full) ∷ []) (1 ∷ []) (5 ∷ []) full-AllBounded
