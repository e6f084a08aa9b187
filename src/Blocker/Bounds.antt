-- ===== src/Blocker/Bounds.antt =====
-- The counters stay within their limits, whatever the addresses ask for.
use kd_desk_tc.Prelude.{
  ℕ, ◌≤◌, ◌≡◌, refl, arith, Option, none, some, List, length, list_eq, list_discrete, sym, subst,
  ◌∙◌,
}
use kd_desk_tc.HashMap
use kd_desk_tc.HashMap.{HashMap}
use kd_desk_tc.Blocker.{Blocked, check_ids, check_entry, check_known, check_ip_blocker}

abbrev pub IsBounded : Blocked → Type 0
IsBounded b = (b.count ≤ 31) × (length b.ids ≤ 301)

check_ids-IsBounded :
    (now : ℕ) (id : List ℕ) (b : Blocked) → IsBounded b → IsBounded (check_ids now id b).0
unfolding check_ids
check_ids-IsBounded now id b h = ground arith

check_entry-IsBounded :
    (now : ℕ) (id : List ℕ) (b : Blocked) → IsBounded b → IsBounded (check_entry now id b).0
unfolding check_entry
check_entry-IsBounded now id b h = ground arith

pub check_known-IsBounded :
    (now : ℕ) (id : List ℕ) (o : Option Blocked)
    → ((b : Blocked) → o ≡ some b → IsBounded b)
    → IsBounded (check_known now id o).0
check_known-IsBounded now id none h = unfold check_known in omega arith
check_known-IsBounded now id (some b) h =
    unfold check_known in check_entry-IsBounded now id b (h b refl)

-- Every entry of the table.
abbrev pub AllBounded : HashMap (List ℕ) Blocked → Type 0
AllBounded lock = (ip : List ℕ) (b : Blocked) → HashMap.get lock ip ≡ some b → IsBounded b

-- A call keeps the counter of every address at 31 or less and its set of ids at 301 or less.
pub check_ip_blocker-AllBounded :
    (now : ℕ) (lock : HashMap (List ℕ) Blocked) (ip id : List ℕ)
    → AllBounded lock
    → AllBounded (check_ip_blocker now lock ip id).0
unfolding check_ip_blocker
check_ip_blocker-AllBounded now lock ip id h j b e = elim (list_discrete ip j) [
  | yes same ↦ subst IsBounded (entry same) (check_known-IsBounded now id _ (h ip))
  | no other ↦ h j b (sym (HashMap.get-insert_ne lock ip _ j other) ∙ e)
]
  where
    entry : ip ≡ j → (check_known now id (HashMap.get lock ip)).0 ≡ b
    entry same = cc (
      sym (HashMap.get-insert_self lock ip (check_known now id (HashMap.get lock ip)).0),
      subst
          (λ k.
            HashMap.get (HashMap.insert lock ip (check_known now id (HashMap.get lock ip)).0) k
            ≡ some b)
          (sym same) e,
    )
