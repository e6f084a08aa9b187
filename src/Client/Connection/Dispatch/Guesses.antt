-- ===== src/Client/Connection/Dispatch/Guesses.antt =====
-- How many wrong passwords an address may try.
use kd_desk_tc.Prelude.{
  ℕ, ◌≤◌, ◌≡◌, inl, inr, refl, sym, ap, subst, arith, Bool, true, false, not, ◌&&◌, Option, none,
  some, [], ◌==◌, nat_eq, list_eq, ltb, Option-cases, if_both, if_cases,
}
use kd_desk_tc.Proto.{Text}
use kd_desk_tc.HashMap
use kd_desk_tc.HashMap.{HashMap}
use kd_desk_tc.Client.Proto.{LoginRequest, FileTransfer}
use kd_desk_tc.Client.Connection.{
  Connection, Machine, Failures, act, send, send_to_cm, send_fs, send_login_error, touch, is_some,
  Data,
}
use kd_desk_tc.Client.Connection.Login
use kd_desk_tc.Client.Connection.Dispatch.Guard.{Kept, kept, ask_keeps, prepare_keeps}

-- At most 31 failures in all, and 7 in the minute of the last.
abbrev pub Limited : Failures → Type 0
Limited f = (f.total ≤ 31) × (f.in_minute ≤ 7)

abbrev pub AllLimited : HashMap Text Failures → Type 0
AllLimited m = HashMap.Values Limited m

-- A function that leaves the table alone.
add_connection_table : (c : Connection) → (Login.add_connection c).login_failures ≡ c.login_failures
unfolding Login.add_connection
add_connection_table c = ground arith

logon_by_table :
    (m : Machine) (ft : Option FileTransfer) (c : Connection)
    → (Login.logon_by m ft c).login_failures ≡ c.login_failures
unfolding Login.logon_by Login.logon_screen Login.logon_files Login.read_dir send_login_error
    send_fs send_to_cm send act touch
logon_by_table m (some ft) c =
    if_both (λ (d : Connection). d.login_failures ≡ c.login_failures) m.is_prelogin c
      (send_to_cm Data.test c) refl refl
logon_by_table m none c = elim (Option-cases m.displays) [
  | inl e ↦ rw (e) refl
  | inr (d, e) ↦ rw (e) (add_connection_table _)
]

SameTable : Connection → Connection → Type 0
SameTable c d = d.login_failures ≡ c.login_failures

logon_table :
    (m : Machine) (c : Connection)
    → (Login.send_logon_response m c).login_failures ≡ c.login_failures
unfolding Login.send_logon_response SameTable send act
logon_table m c = if_both (SameTable c) c.authorized c _ refl (
    if_both (SameTable c) (is_some c.port_forward_socket) _ _ refl
      (logon_by_table m c.file_transfer c))

no_failures : Failures
no_failures = record { minute = 0; in_minute = 0; total = 0 }

found-Limited :
    (f : Option Failures) (m : HashMap Text Failures) (ip : Text)
    → AllLimited m
    → HashMap.get m ip ≡ f
    → Limited (elim f [ none ↦ no_failures | some g ↦ g ])
unfolding no_failures
found-Limited none m ip h e = (omega arith, omega arith)
found-Limited (some g) m ip h e = HashMap.get-Values Limited m ip g h e

failures_Limited : (c : Connection) → AllLimited c.login_failures → Limited (Login.failures_of c)
unfolding Login.failures_of no_failures
failures_Limited c h =
    found-Limited (HashMap.get c.login_failures c.ip) c.login_failures c.ip h refl

count-Limited :
    (time : ℕ) (f : Failures)
    → ltb 30 f.total ≡ false
    → (time == f.minute && ltb 6 f.in_minute) ≡ false
    → Limited f
    → Limited (Login.count_failure time f)
unfolding Login.count_failure
count-Limited time f h k l = ground arith

AllLimitedIn : Connection × Bool → Type 0
AllLimitedIn r = AllLimited r.0.login_failures

forget-Limited :
    (c : Connection)
    → AllLimited c.login_failures
    → AllLimited (Login.forget_failures c).login_failures
unfolding Login.forget_failures
forget-Limited c h =
    if_both (λ (d : Connection). AllLimited d.login_failures) ((Login.failures_of c).minute == 0) c
      _ h (HashMap.remove-Values Limited c.login_failures c.ip h)

right-Limited :
    (m : Machine) (lr : LoginRequest) (c : Connection)
    → AllLimited c.login_failures
    → AllLimitedIn (Login.right_password m lr c)
unfolding AllLimitedIn Login.right_password Login.login_cm Login.try_start_cm send_to_cm act
right-Limited m lr c h =
    subst AllLimited (sym (logon_table m (Login.forget_failures c))) (forget-Limited c h)

wrong-Limited :
    (m : Machine) (lr : LoginRequest) (c : Connection)
    → AllLimited c.login_failures
    → ltb 30 (Login.failures_of c).total ≡ false
    → (Login.this_minute m == (Login.failures_of c).minute && ltb 6 (Login.failures_of c).in_minute)
      ≡ false
    → AllLimited (Login.wrong_password m lr c).login_failures
unfolding Login.wrong_password Login.login_cm Login.try_start_cm send_login_error send send_to_cm
    act
wrong-Limited m lr c h e f =
    HashMap.insert-Values Limited c.login_failures c.ip
      (Login.count_failure (Login.this_minute m) (Login.failures_of c))
      (count-Limited (Login.this_minute m) (Login.failures_of c) e f (failures_Limited c h)) h

check_password-Limited :
    (m : Machine) (lr : LoginRequest) (c : Connection)
    → AllLimited c.login_failures
    → AllLimitedIn (Login.check_password m lr c)
unfolding AllLimitedIn Login.check_password send_login_error send act
check_password-Limited m lr c h =
    if_cases AllLimitedIn (ltb 30 (Login.failures_of c).total) _ _ (λ e. h)
      (λ e.
        if_cases AllLimitedIn
          (Login.this_minute m == (Login.failures_of c).minute
            && ltb 6 (Login.failures_of c).in_minute)
          _ _ (λ f. h)
          (λ f.
            if_both AllLimitedIn (Login.expected m c == lr.password) _ _ (right-Limited m lr c h)
              (wrong-Limited m lr c h e f)))

log_in-Limited :
    (m : Machine) (lr : LoginRequest) (r : Connection × Bool)
    → AllLimitedIn r
    → AllLimitedIn (Login.log_in m lr r)
unfolding AllLimitedIn Login.log_in Login.login_cm Login.try_start_cm send_to_cm send_login_error
    send act
log_in-Limited m lr (c, false) h = h
log_in-Limited m lr (c, true) h =
    if_both AllLimitedIn (not (m.is_ip lr.username) && not (lr.username == m.config_id)) _ _ h
      (if_both AllLimitedIn (lr.password == []) _ _ h (check_password-Limited m lr c h))

kept_table : (a b : Connection) → kept a ≡ kept b → a.login_failures ≡ b.login_failures
unfolding kept
kept_table a b e = ap (λ (k : Kept). k.login_failures) e

-- A login request keeps the table of failures within its limits: if no address has more than 31
-- failures in all or more than 7 in its last minute before the request, no address has after it.
pub on_login_request-Limited :
    (m : Machine) (lr : LoginRequest) (c : Connection)
    → AllLimited c.login_failures
    → AllLimited (Login.on_login_request m lr c).0.login_failures
unfolding AllLimitedIn Login.on_login_request Login.ask_and_log_in
on_login_request-Limited m lr c h =
    let p = Login.prepare lr c in
    let hp = subst AllLimited (sym (kept_table p c (prepare_keeps lr c))) h in
    let asked = Login.ask m lr lr.union p in
    if_both AllLimitedIn p.authorized (p, true) (Login.log_in m lr asked) hp
      (log_in-Limited m lr asked
        (subst AllLimited (sym (kept_table asked.0 p (ask_keeps m lr lr.union p))) hp))
