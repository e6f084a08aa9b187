-- ===== src/Blocker.antt =====
-- `check_ip_blocker` of KdDeskTC_Server/src/rendezvous_server.rs, the limit on key registrations from
-- one IP address, over the table `IP_BLOCKER` of KdDeskTC_Server/src/peer.rs. Times are milliseconds
-- of one monotonic clock, and texts are lists of bytes.
pub mod Bounds
pub mod Burst
mod Runs
use kd_desk_tc.Prelude.{
  ℕ, ◌+◌, ◌-◌, ◌*◌, ◌/◌, Bool, true, false, not, ◌&&◌, ◌||◌, Option, none, some, List, [], ◌∷◌, ltb,
  if◌then◌else◌, length, ◌==◌, list_eq,
}
use kd_desk_tc.HashMap
use kd_desk_tc.HashMap.{HashMap}

abbrev pub ip_block_dur : ℕ
ip_block_dur = 60

abbrev pub day_seconds : ℕ
day_seconds = 3600 * 24

-- `instant.elapsed().as_secs()`; the elapsed time of a later instant is zero.
abbrev pub elapsed_secs : ℕ → ℕ → ℕ
elapsed_secs now t = (now - t) / 1000

-- `((u32, Instant), (HashSet<String>, Instant))`
pub record Blocked : Type 0 where
  pub count : ℕ
  pub count_at : ℕ
  pub ids : List (List ℕ)
  pub ids_at : ℕ

unfoldable pub contains : List (List ℕ) → List ℕ → Bool
contains [] id = false
contains (x ∷ xs) id = x == id || contains xs id

-- The second half: the set of ids that the address has asked for within a day.
unfoldable pub check_ids : ℕ → List ℕ → Blocked → Blocked × Bool
check_ids now id old =
    let is_new = not (contains old.ids id) in
    let day_over = ltb day_seconds (elapsed_secs now old.ids_at) in
    let kept = if day_over then [] else old.ids in
    if (not day_over && ltb 300 (length old.ids))
    then (old, not is_new)
    else (record old { ids = (if is_new then id ∷ kept else kept); ids_at = now }, true)

-- What the function does to the entry of an address that it knows, and its answer.
unfoldable pub check_entry : ℕ → List ℕ → Blocked → Blocked × Bool
unfolding check_ids
check_entry now id old =
    let minute_over = ltb ip_block_dur (elapsed_secs now old.count_at) in
    let count = if minute_over then 0 else old.count in
    if (not minute_over && ltb 30 old.count)
    then (old, false)
    else check_ids now id (record old { count = count + 1; count_at = now })

unfoldable pub new_entry : ℕ → Blocked
new_entry now = record { count = 0; count_at = now; ids = []; ids_at = now }

unfoldable pub check_known : ℕ → List ℕ → Option Blocked → Blocked × Bool
unfolding check_entry new_entry
check_known now id none = (new_entry now, true)
check_known now id (some old) = check_entry now id old

unfoldable pub check_ip_blocker :
    ℕ → HashMap (List ℕ) Blocked → List ℕ → List ℕ → HashMap (List ℕ) Blocked × Bool
unfolding check_known
check_ip_blocker now lock ip id =
    let r = check_known now id (HashMap.get lock ip) in (HashMap.insert lock ip r.0, r.1)
