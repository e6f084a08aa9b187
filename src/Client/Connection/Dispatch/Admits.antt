-- ===== src/Client/Connection/Dispatch/Admits.antt =====
-- The right password opens a session.
use kd_desk_tc.Prelude.{
  ◌≡◌, inl, inr, refl, sym, ap, subst, ◌∙◌, arith, Bool, true, false, not, ◌&&◌, Option, none, some,
  [], ◌++◌, ◌||◌, ◌==◌, ==_refl, nat_eq, list_eq, ltb, Option-cases, if_true, if_false,
}
use kd_desk_tc.Strings.{bytes}
use kd_desk_tc.Proto.{Text}
use kd_desk_tc.HashMap
use kd_desk_tc.Client.Proto.{LoginRequest, LoginUnion, FileTransfer, OptionMessage}
use kd_desk_tc.Client.Connection.{
  Connection, Machine, act, send, send_to_cm, send_fs, send_login_error, touch, is_some,
}
use kd_desk_tc.Client.Connection.Options.Flags.{Flags, flags, chosen_flags, update_option-flags}
use kd_desk_tc.Client.Connection.Login
use kd_desk_tc.Client.Connection.Dispatch.Guard.{
  Granted, Granted-kept, kept, kept_authorized, prepare_keeps,
}

-- The session is open and has the settings of another state.
abbrev pub Opened : Connection → Connection → Type 0
Opened c d = (d.authorized ≡ true) × (flags d ≡ flags c)

add_connection_opened : (c d : Connection) → Opened c d → Opened c (Login.add_connection d)
unfolding Login.add_connection flags
add_connection_opened c d h = ground arith

logon_by_opened :
    (m : Machine) (ft : Option FileTransfer) (c : Connection) → Opened c (Login.logon_by m ft c)
unfolding Login.logon_by Login.logon_screen Login.logon_files Login.read_dir send_login_error
    send_fs send_to_cm send act touch flags
logon_by_opened m (some ft) c = ground arith
logon_by_opened m none c = elim (Option-cases m.displays) [
  | inl e ↦ rw (e) (refl, refl)
  | inr (d, e) ↦ rw (e) (add_connection_opened c _ (refl, refl))
]

logon_opened :
    (m : Machine) (c : Connection)
    → c.authorized ≡ false
    → c.port_forward_socket ≡ none
    → Opened c (Login.send_logon_response m c)
unfolding Login.send_logon_response is_some
logon_opened m c a p =
    subst (Opened c)
      (sym (
        if_false c.authorized c _ a
        ∙ if_false (is_some c.port_forward_socket) _ (Login.logon_by m c.file_transfer c)
            (ap is_some p)))
      (logon_by_opened m c.file_transfer c)

forgotten :
    (c : Connection)
    → ((Login.forget_failures c).authorized ≡ c.authorized)
      × (flags (Login.forget_failures c) ≡ flags c)
unfolding Login.forget_failures flags
forgotten c = ground arith

flags_tunnel : (c : Connection) → (flags c).tunnel ≡ c.port_forward_socket
unfolding flags
flags_tunnel c = refl

recorded :
    (m : Machine) (lr : LoginRequest) (c d : Connection)
    → Opened c (Login.send_logon_response m (Login.forget_failures d))
    → Opened c (Login.right_password m lr d).0
unfolding Login.right_password Login.login_cm Login.try_start_cm send_to_cm act flags
recorded m lr c d h = h

tunnel_of : (c d : Connection) → flags d ≡ flags c → d.port_forward_socket ≡ c.port_forward_socket
tunnel_of c d e = sym (flags_tunnel d) ∙ ap (λ (f : Flags). f.tunnel) e ∙ flags_tunnel c

right_opened :
    (m : Machine) (lr : LoginRequest) (c : Connection)
    → c.authorized ≡ false
    → c.port_forward_socket ≡ none
    → Opened c (Login.right_password m lr c).0
right_opened m lr c a p =
    let f = forgotten c in
    let r =
      logon_opened m (Login.forget_failures c) (f.0 ∙ a)
        (tunnel_of c (Login.forget_failures c) f.1 ∙ p) in
    recorded m lr c c (r.0, r.1 ∙ f.1)

Granted-path :
    (m : Machine) (lr : LoginRequest) (c : Connection)
    → Granted m lr c
    → Login.check_password m lr c ≡ Login.right_password m lr c
unfolding Granted Login.check_password
Granted-path m lr c (e, f, g) =
    if_false (ltb 30 (Login.failures_of c).total) _ _ f
    ∙ if_false
        (Login.this_minute m == (Login.failures_of c).minute
          && ltb 6 (Login.failures_of c).in_minute)
        _ _ g
    ∙ if_true (Login.expected m c == lr.password) _ _ (rw (e) (==_refl (Login.expected m c)))

-- The state after the options and after what the session is for.
abbrev pub Asked : Machine → LoginRequest → Option FileTransfer → Connection → Type 0
Asked m lr ft c = Login.ask m lr lr.union c ≡ (record c { file_transfer = ft }, true)

file_transfer_kept :
    (ft : Option FileTransfer) (c : Connection)
    → (kept (record c { file_transfer = ft }) ≡ kept c)
      × (flags (record c { file_transfer = ft }) ≡ flags c)
unfolding kept flags
file_transfer_kept ft c = (refl, refl)

log_in_path :
    (m : Machine) (lr : LoginRequest) (c : Connection)
    → (not (m.is_ip lr.username) && not (lr.username == m.config_id)) ≡ false
    → (lr.password == []) ≡ false
    → Login.log_in m lr (c, true) ≡ Login.check_password m lr c
unfolding Login.log_in
log_in_path m lr c u p = if_false _ _ _ u ∙ if_false _ _ _ p

admitted_path :
    (m : Machine) (lr : LoginRequest) (ft : Option FileTransfer) (c : Connection)
    → c.authorized ≡ false
    → (not (m.is_ip lr.username) && not (lr.username == m.config_id)) ≡ false
    → (lr.password == []) ≡ false
    → Asked m lr ft c
    → Granted m lr (record c { file_transfer = ft })
    → Login.ask_and_log_in m lr c ≡ Login.right_password m lr (record c { file_transfer = ft })
unfolding Login.ask_and_log_in
admitted_path m lr ft c a u p s g =
    if_false c.authorized (c, true) _ a
    ∙ ap (Login.log_in m lr) s
    ∙ log_in_path m lr (record c { file_transfer = ft }) u p
    ∙ Granted-path m lr (record c { file_transfer = ft }) g

asked_opens :
    (m : Machine) (lr : LoginRequest) (ft : Option FileTransfer) (c : Connection)
    → c.authorized ≡ false
    → c.port_forward_socket ≡ none
    → (not (m.is_ip lr.username) && not (lr.username == m.config_id)) ≡ false
    → (lr.password == []) ≡ false
    → Asked m lr ft c
    → Granted m lr c
    → Opened c (Login.ask_and_log_in m lr c).0
asked_opens m lr ft c a t u p s g =
    let b : Connection = record c { file_transfer = ft } in
    let k = file_transfer_kept ft c in
    let r = right_opened m lr b (kept_authorized b c k.0 ∙ a) (tunnel_of c b k.1 ∙ t) in
    subst (λ (x : Connection × Bool). Opened c x.0)
      (sym (admitted_path m lr ft c a u p s (Granted-kept m lr c b (sym k.0) g))) (r.0, r.1 ∙ k.1)

chosen_tunnel : (o : OptionMessage) (f : Flags) → (chosen_flags o f).tunnel ≡ f.tunnel
unfolding chosen_flags
chosen_tunnel o f = refl

applied_tunnel :
    (o : Option OptionMessage) (c : Connection)
    → (Login.apply_options o c).port_forward_socket ≡ c.port_forward_socket
unfolding Login.apply_options
applied_tunnel none c = refl
applied_tunnel (some o) c =
    sym (flags_tunnel _)
    ∙ ap (λ (f : Flags). f.tunnel) (update_option-flags o c)
    ∙ chosen_tunnel o (flags c)
    ∙ flags_tunnel c

prepared_tunnel :
    (lr : LoginRequest) (c : Connection)
    → (Login.prepare lr c).port_forward_socket ≡ c.port_forward_socket
unfolding Login.prepare
prepared_tunnel lr c = applied_tunnel lr.option c

flags_permission : (c : Connection) → (flags c).permission ≡ c.permission
unfolding flags
flags_permission c = refl

chosen_permission : (o : OptionMessage) (f : Flags) → (chosen_flags o f).permission ≡ f.permission
unfolding chosen_flags
chosen_permission o f = refl

applied_permission :
    (o : Option OptionMessage) (c : Connection)
    → (Login.apply_options o c).permission ≡ c.permission
unfolding Login.apply_options
applied_permission none c = refl
applied_permission (some o) c =
    sym (flags_permission _)
    ∙ ap (λ (f : Flags). f.permission) (update_option-flags o c)
    ∙ chosen_permission o (flags c)
    ∙ flags_permission c

prepared_permission :
    (lr : LoginRequest) (c : Connection) → (Login.prepare lr c).permission ≡ c.permission
unfolding Login.prepare
prepared_permission lr c = applied_permission lr.option c

permission_path :
    (id : Text) (lr : LoginRequest) (c : Connection)
    → Login.get_peer_permission id (Login.prepare lr c) ≡ Login.get_peer_permission id c
unfolding Login.get_peer_permission
permission_path id lr c =
    ap
      (λ (t : HashMap.HashMap Text Text). elim (HashMap.get t (id ++ bytes "->file")) [
        | none ↦ []
        | some v ↦ v
      ])
      (prepared_permission lr c)

union_asks :
    (m : Machine) (lr : LoginRequest) (u : LoginUnion) (c : Connection)
    → lr.union ≡ u
    → Login.ask m lr lr.union c ≡ Login.ask m lr u c
union_asks m lr u c e = ap (λ (v : LoginUnion). Login.ask m lr v c) e

ask_files_path :
    (m : Machine) (lr : LoginRequest) (ft : FileTransfer) (c : Connection)
    → (m.option (bytes "enable-file-transfer") == []) ≡ true
    → (Login.get_peer_permission lr.my_id c == bytes "0") ≡ false
    → Login.ask m lr (LoginUnion.file_transfer ft) c ≡ (record c { file_transfer = some ft }, true)
unfolding Login.ask Login.ask_files
ask_files_path m lr ft c e p =
    if_false
      (not (m.option (bytes "enable-file-transfer") == [])
        || Login.get_peer_permission lr.my_id c == bytes "0")
      _ _ (rw (e, p) refl)

-- A session for files is asked for and permitted, or it is one for the screen.
pub Asked-files :
    (m : Machine) (lr : LoginRequest) (ft : FileTransfer) (c : Connection)
    → lr.union ≡ LoginUnion.file_transfer ft
    → (m.option (bytes "enable-file-transfer") == []) ≡ true
    → (Login.get_peer_permission lr.my_id c == bytes "0") ≡ false
    → Asked m lr (some ft) (Login.prepare lr c)
Asked-files m lr ft c u e p =
    let b = Login.prepare lr c in
    union_asks m lr (LoginUnion.file_transfer ft) b u
    ∙ ask_files_path m lr ft b e
        (ap (λ (t : Text). t == bytes "0") (permission_path lr.my_id lr c) ∙ p)

pub Asked-screen :
    (m : Machine) (lr : LoginRequest) (c : Connection)
    → lr.union ≡ LoginUnion.unset
    → Asked m lr c.file_transfer c
unfolding Login.ask
Asked-screen m lr c u = union_asks m lr LoginUnion.unset c u

-- A login request with the right password, for the screen or for files, opens the session.
pub on_login_request-opens :
    (m : Machine) (lr : LoginRequest) (ft : Option FileTransfer) (c : Connection)
    → c.authorized ≡ false
    → c.port_forward_socket ≡ none
    → (not (m.is_ip lr.username) && not (lr.username == m.config_id)) ≡ false
    → (lr.password == []) ≡ false
    → Asked m lr ft (Login.prepare lr c)
    → Granted m lr c
    → Opened (Login.prepare lr c) (Login.on_login_request m lr c).0
unfolding Login.on_login_request
on_login_request-opens m lr ft c a t u p s g =
    let b = Login.prepare lr c in
    asked_opens m lr ft b (kept_authorized b c (prepare_keeps lr c) ∙ a) (prepared_tunnel lr c ∙ t)
      u p s (Granted-kept m lr c b (sym (prepare_keeps lr c)) g)
