-- ===== src/Client/Connection/Dispatch/Guard.antt =====
-- How a connection becomes authorized.
use kd_desk_tc.Prelude.{
  ℕ, ◌≡◌, ◌⊎◌, inl, inr, refl, sym, ap, subst, ◌∙◌, arith, Bool, true, false, not, ◌&&◌, ◌||◌,
  Option, none, some, List, [], ◌++◌, ◌==◌, ==→eq, nat_eq, list_eq, ltb, Bool-cases, if_true,
  if_false,
}
use kd_desk_tc.Proto.{Text}
use kd_desk_tc.HashMap
use kd_desk_tc.HashMap.{HashMap}
use kd_desk_tc.Client.Proto.{Hash, LoginRequest, LoginUnion, OptionMessage}
use kd_desk_tc.Client.Transfer.{Reader}
use kd_desk_tc.Client.Server.{name_cursor, name_pos}
use kd_desk_tc.Client.Connection.{
  Connection, Machine, Failures, act, send, send_to_cm, send_login_error, subscribe,
}
use kd_desk_tc.Client.Connection.Options
use kd_desk_tc.Client.Connection.Options.{update_option}
use kd_desk_tc.Client.Connection.Login

-- What the login looks at.
pub record Kept : Type 0 where
  pub authorized : Bool
  pub hash : Hash
  pub ip : Text
  pub login_failures : HashMap Text Failures
  pub read_jobs : List Reader

unfoldable pub kept : Connection → Kept
kept c = record {
  authorized = c.authorized;
  hash = c.hash;
  ip = c.ip;
  login_failures = c.login_failures;
  read_jobs = c.read_jobs;
}

subscribe_keeps : (name : Text) (b : Bool) (c : Connection) → kept (subscribe name b c) ≡ kept c
unfolding kept subscribe
subscribe_keeps name b c = ground arith

quality_keeps : (q : Option ℕ) (c : Connection) → kept (Options.update_quality q c) ≡ kept c
unfolding kept Options.update_quality Options.set_quality act
quality_keeps none c = refl
quality_keeps (some q) c = refl

custom_keeps : (q : ℕ) (c : Connection) → kept (Options.update_custom q c) ≡ kept c
unfolding kept Options.update_custom Options.set_quality act
custom_keeps q c = ground arith

lock_keeps : (b : Option Bool) (c : Connection) → kept (Options.update_lock b c) ≡ kept c
unfolding kept Options.update_lock
lock_keeps none c = refl
lock_keeps (some b) c = refl

show_keeps : (b : Bool) (c : Connection) → kept (record c { show_remote_cursor = b }) ≡ kept c
unfolding kept
show_keeps b c = refl

cursor_keeps : (b : Option Bool) (c : Connection) → kept (Options.update_cursor b c) ≡ kept c
unfolding Options.update_cursor
cursor_keeps none c = refl
cursor_keeps (some b) c =
    let c1 : Connection = record c { show_remote_cursor = b } in
    subscribe_keeps name_pos b (subscribe name_cursor (c.keyboard || b) c1)
    ∙ subscribe_keeps name_cursor (c.keyboard || b) c1
    ∙ show_keeps b c

audio_keeps : (b : Option Bool) (c : Connection) → kept (Options.update_audio b c) ≡ kept c
unfolding kept Options.update_audio
audio_keeps none c = refl
audio_keeps (some b) c = subscribe_keeps _ _ _

files_keeps : (b : Option Bool) (c : Connection) → kept (Options.update_files b c) ≡ kept c
unfolding kept Options.update_files send_to_cm act
files_keeps none c = refl
files_keeps (some b) c = refl

clipboard_keeps : (b : Option Bool) (c : Connection) → kept (Options.update_clipboard b c) ≡ kept c
unfolding kept Options.update_clipboard
clipboard_keeps none c = refl
clipboard_keeps (some b) c = subscribe_keeps _ _ _

privacy_keeps : (b : Option Bool) (c : Connection) → kept (Options.update_privacy b c) ≡ kept c
unfolding kept Options.update_privacy Options.set_privacy act
privacy_keeps none c = refl
privacy_keeps (some b) c = ground arith

block_keeps : (b : Option Bool) (c : Connection) → kept (Options.update_block b c) ≡ kept c
unfolding kept Options.update_block act
block_keeps none c = refl
block_keeps (some b) c = ground arith

pub options_keep : (o : OptionMessage) (c : Connection) → kept (update_option o c) ≡ kept c
unfolding update_option
options_keep o c =
    block_keeps _ _
    ∙ privacy_keeps _ _
    ∙ clipboard_keeps _ _
    ∙ files_keeps _ _
    ∙ audio_keeps _ _
    ∙ cursor_keeps _ _
    ∙ lock_keeps _ _
    ∙ custom_keeps _ _
    ∙ quality_keeps _ _

pub apply_keeps :
    (o : Option OptionMessage) (c : Connection) → kept (Login.apply_options o c) ≡ kept c
unfolding Login.apply_options
apply_keeps none c = refl
apply_keeps (some o) c = options_keep o c

pub ask_keeps :
    (m : Machine) (lr : LoginRequest) (u : LoginUnion) (c : Connection)
    → kept (Login.ask m lr u c).0 ≡ kept c
unfolding kept Login.ask Login.ask_files Login.ask_tunnel send_login_error send act
ask_keeps m lr LoginUnion.unset c = refl
ask_keeps m lr (LoginUnion.file_transfer ft) c = ground arith
ask_keeps m lr (LoginUnion.port_forward pf) c = ground arith

-- The password is right, and its sender is under the limits on failures.
unfoldable pub Granted : Machine → LoginRequest → Connection → Type 0
Granted m lr c =
    (lr.password ≡ Login.expected m c)
    × (ltb 30 (Login.failures_of c).total ≡ false)
    × ((Login.this_minute m == (Login.failures_of c).minute
          && ltb 6 (Login.failures_of c).in_minute)
        ≡ false)

cm_authorized :
    (lr : LoginRequest) (b : Bool) (c : Connection)
    → (Login.login_cm lr b c).authorized ≡ c.authorized
unfolding Login.login_cm Login.try_start_cm send_to_cm act
cm_authorized lr b c = refl

wrong_authorized :
    (m : Machine) (lr : LoginRequest) (c : Connection)
    → (Login.wrong_password m lr c).authorized ≡ c.authorized
unfolding Login.wrong_password Login.login_cm Login.try_start_cm send_to_cm send_login_error send
    act
wrong_authorized m lr c = refl

-- Either the check grants, or nothing is authorized by it.
check_password_cases :
    (m : Machine) (lr : LoginRequest) (c : Connection)
    → Granted m lr c ⊎ ((Login.check_password m lr c).0.authorized ≡ c.authorized)
unfolding Granted Login.check_password send_login_error
check_password_cases m lr c = elim (Bool-cases (ltb 30 (Login.failures_of c).total)) [
  | inl e ↦ inr (rw (e) refl)
  | inr e ↦
      elim (Bool-cases (
        Login.this_minute m == (Login.failures_of c).minute
        && ltb 6 (Login.failures_of c).in_minute)) [
          | inl f ↦ inr (rw (e, f) refl)
          | inr f ↦ elim (Bool-cases (Login.expected m c == lr.password)) [
            | inl g ↦ inl (sym (==→eq (Login.expected m c) lr.password g), e, f)
            | inr g ↦ inr (rw (e, f, g) (wrong_authorized m lr c))
          ]
        ]
]

log_in_cases :
    (m : Machine) (lr : LoginRequest) (r : Connection × Bool)
    → Granted m lr r.0 ⊎ ((Login.log_in m lr r).0.authorized ≡ r.0.authorized)
unfolding Login.log_in send_login_error send act
log_in_cases m lr (c, false) = inr refl
log_in_cases m lr (c, true) =
    elim (Bool-cases (not (m.is_ip lr.username) && not (lr.username == m.config_id))) [
      | inl e ↦ inr (rw (e) refl)
      | inr e ↦ elim (Bool-cases (lr.password == [])) [
        | inl f ↦ inr (rw (e, f) (cm_authorized lr false c))
        | inr f ↦ rw (e, f) (check_password_cases m lr c)
      ]
    ]

-- The same, of what is kept.
failures_at : Kept → Failures
failures_at k = elim (HashMap.get k.login_failures k.ip) [
  | none ↦ record { minute = 0; in_minute = 0; total = 0 }
  | some f ↦ f
]

GrantedBy : Machine → LoginRequest → Kept → Type 0
unfolding failures_at
GrantedBy m lr k =
    (lr.password ≡ m.sha256 (m.sha256 (m.config_password ++ k.hash.salt) ++ k.hash.challenge))
    × (ltb 30 (failures_at k).total ≡ false)
    × ((Login.this_minute m == (failures_at k).minute && ltb 6 (failures_at k).in_minute) ≡ false)

pub Granted-kept :
    (m : Machine) (lr : LoginRequest) (a b : Connection)
    → kept a ≡ kept b
    → Granted m lr a
    → Granted m lr b
unfolding Granted GrantedBy failures_at kept Login.expected Login.failures_of
Granted-kept m lr a b e h = subst (GrantedBy m lr) e h

pub prepare_keeps : (lr : LoginRequest) (c : Connection) → kept (Login.prepare lr c) ≡ kept c
unfolding Login.prepare kept
prepare_keeps lr c = apply_keeps lr.option c

pub kept_authorized : (a b : Connection) → kept a ≡ kept b → a.authorized ≡ b.authorized
unfolding kept
kept_authorized a b e = ap (λ (k : Kept). k.authorized) e

ask_and_log_in_cases :
    (m : Machine) (lr : LoginRequest) (c : Connection)
    → Granted m lr c ⊎ ((Login.ask_and_log_in m lr c).0.authorized ≡ c.authorized)
unfolding Login.ask_and_log_in
ask_and_log_in_cases m lr c =
    let asked = Login.ask m lr lr.union c in
    elim (Bool-cases c.authorized) [
      | inl e ↦ inr (
          ap (λ (r : Connection × Bool). r.0.authorized)
            (if_true c.authorized (c, true) (Login.log_in m lr asked) e))
      | inr e ↦ elim (log_in_cases m lr asked) [
        | inl g ↦ inl (Granted-kept m lr asked.0 c (ask_keeps m lr lr.union c) g)
        | inr f ↦ inr (
            ap (λ (r : Connection × Bool). r.0.authorized)
              (if_false c.authorized (c, true) (Login.log_in m lr asked) e)
            ∙ f
            ∙ kept_authorized asked.0 c (ask_keeps m lr lr.union c))
      ]
    ]

pub on_login_request_cases :
    (m : Machine) (lr : LoginRequest) (c : Connection)
    → Granted m lr c ⊎ ((Login.on_login_request m lr c).0.authorized ≡ c.authorized)
unfolding Login.on_login_request
on_login_request_cases m lr c = elim (ask_and_log_in_cases m lr (Login.prepare lr c)) [
  | inl g ↦ inl (Granted-kept m lr (Login.prepare lr c) c (prepare_keeps lr c) g)
  | inr f ↦ inr (f ∙ kept_authorized (Login.prepare lr c) c (prepare_keeps lr c))
]
