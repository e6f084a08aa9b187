-- ===== src/Blocker/Burst.antt =====
-- How many registrations one address gets through in a minute.
use kd_desk_tc.Prelude.{
  ℕ, ◌+◌, ◌≤◌, ◌<◌, ◌≡◌, refl, arith, Bool, true, false, Option, none, some, List, [], ◌∷◌, All,
  ◌⊎◌, inl, inr,
}
use kd_desk_tc.Blocker.{Blocked, check_entry, new_entry, check_known}
use kd_desk_tc.Blocker.Bounds.{IsBounded}

-- The requests of one address, each with its time, and how many of them were let through.
abbrev count_true : Bool → ℕ
count_true true = 1
count_true false = 0

pub accepted : Option Blocked → List (ℕ × List ℕ) → ℕ
accepted o [] = 0
accepted o ((now, id) ∷ rs) =
    count_true (check_known now id o).1 + accepted (some (check_known now id o).0) rs

-- An entry that was counted within the window that starts at `t`.
check_entry_within :
    (t now : ℕ) (id : List ℕ) (b : Blocked)
    → t ≤ b.count_at
    → now < t + 61000
    → t ≤ now
    → b.count ≤ 31
    → ((check_entry now id b).1 ≡ true → (check_entry now id b).0.count ≡ b.count + 1)
      × (b.count ≤ (check_entry now id b).0.count)
      × ((check_entry now id b).0.count ≤ 31)
      × (t ≤ (check_entry now id b).0.count_at)
unfolding check_entry
check_entry_within t now id b h1 h2 h3 h4 = ground arith

-- Any entry: a call that leaves the time alone rejects, and otherwise the entry is in the window.
check_entry_any :
    (t now : ℕ) (id : List ℕ) (b : Blocked)
    → now < t + 61000
    → t ≤ now
    → b.count ≤ 31
    → ((check_entry now id b).1 ≡ false × ((check_entry now id b).0 ≡ b))
      ⊎ ((t ≤ (check_entry now id b).0.count_at)
          × (count_true (check_entry now id b).1 ≤ (check_entry now id b).0.count)
          × ((check_entry now id b).0.count ≤ 31))
unfolding check_entry
check_entry_any t now id b h1 h2 h3 = ground arith

-- The window of a request list: all its times lie in the 61 seconds from `t` on.
abbrev pub Within : ℕ → List (ℕ × List ℕ) → Type 0
Within t rs = All (λ r. (t ≤ r.0) × (r.0 < t + 61000)) rs

count_step :
    (x : Bool) (a before after : ℕ)
    → (x ≡ true → after ≡ before + 1)
    → before ≤ after
    → a + after ≤ 31
    → count_true x + a + before ≤ 31
count_step true a before after up more h = omega (arith, up refl)
count_step false a before after up more h = omega arith

accepted-Within :
    (t : ℕ) (rs : List (ℕ × List ℕ)) (b : Blocked)
    → Within t rs
    → t ≤ b.count_at
    → b.count ≤ 31
    → accepted (some b) rs + b.count ≤ 31
unfolding accepted check_known
accepted-Within t [] b w h k = omega arith
accepted-Within t ((now, id) ∷ rs) b (w, ws) h k =
    let (up, more, low, at) = check_entry_within t now id b h w.1 w.0 k in
    let rest = accepted-Within t rs (check_entry now id b).0 ws at low in
    count_step (check_entry now id b).1 _ _ _ up more rest

accepted_any :
    (t : ℕ) (rs : List (ℕ × List ℕ)) (b : Blocked)
    → Within t rs
    → b.count ≤ 31
    → accepted (some b) rs ≤ 31
unfolding accepted check_known
accepted_any t [] b w k = omega arith
accepted_any t ((now, id) ∷ rs) b (w, ws) k = elim (check_entry_any t now id b w.1 w.0 k) [
  | inl (closed, same) ↦ rw (closed, same) (omega (arith, accepted_any t rs b ws k))
  | inr (at, one, low) ↦ omega (arith, accepted-Within t rs (check_entry now id b).0 ws at low)
]

-- Of the requests that one address makes within 61 seconds, at most 32 get through, if its entry
-- was within bounds.
pub accepted-le :
    (t : ℕ) (rs : List (ℕ × List ℕ)) (o : Option Blocked)
    → Within t rs
    → ((b : Blocked) → o ≡ some b → IsBounded b)
    → accepted o rs ≤ 32
accepted-le t rs (some b) w h = omega (arith, accepted_any t rs b w (h b refl).0)
accepted-le t [] none w h = unfold accepted in omega arith
accepted-le t ((now, id) ∷ rs) none (w, ws) h =
    unfold accepted check_known in
    omega (arith, accepted_any t rs (new_entry now) ws (unfold new_entry in omega arith))
