-- ===== src/Controller/Login/Right.antt =====
-- A request with the right hash of the password opens a session.
use kd_desk_tc.Prelude.{
  ◌≡◌, inl, inr, refl, ap, ◌∙◌, true, false, not, ◌&&◌, Option, none, some, [], ◌++◌, ◌==◌, nat_eq,
  list_eq, ltb, if_true, if_false, Bool-cases,
}
use kd_desk_tc.Strings.{bytes}
use kd_desk_tc.Proto.{Text}
use kd_desk_tc.Client.Proto.{FileTransfer}
use kd_desk_tc.Client.Connection.{Connection, Machine}
use kd_desk_tc.Client.Connection.Login as Server
use kd_desk_tc.Client.Connection.Dispatch.Guard.{Granted}
use kd_desk_tc.Client.Connection.Dispatch.Admits.{
  Opened, Asked, Asked-files, Asked-screen, on_login_request-opens,
}
use kd_desk_tc.Controller.LoginConfig
use kd_desk_tc.Controller.LoginConfig.{LoginConfigHandler, Desk}

-- A connection that waits for its login, from an address with few failures.
pub record Waits (m : Machine) (c : Connection) : Type 0 where
  pub unauthorized : c.authorized ≡ false
  pub no_tunnel : c.port_forward_socket ≡ none
  pub few : ltb 30 (Server.failures_of c).total ≡ false
  pub few_now :
      (Server.this_minute m == (Server.failures_of c).minute
        && ltb 6 (Server.failures_of c).in_minute)
      ≡ false

-- Both machines hash with one function, whose values are not empty, the session is with this machine,
-- and it is for the screen or for files, which this machine permits.
pub record Visits (d : Desk) (m : Machine) (lc : LoginConfigHandler) (c : Connection) : Type 0 where
  pub same_hash : d.sha256 ≡ m.sha256
  pub digest : (t : Text) → (d.sha256 t == []) ≡ false
  pub addressed : (not (m.is_ip lc.id) && not (lc.id == m.config_id)) ≡ false
  pub no_forward : lc.is_port_forward ≡ false
  pub files_enabled : (m.option (bytes "enable-file-transfer") == []) ≡ true
  pub files_permitted : (Server.get_peer_permission d.config_id c == bytes "0") ≡ false

-- The hash that the machine expects, as the controlling side computes it.
unfoldable pub right_hash : Desk → Machine → Connection → Text
right_hash d m c = d.sha256 (d.sha256 (m.config_password ++ c.hash.salt) ++ c.hash.challenge)

right_hash-expected :
    (d : Desk) (m : Machine) (c : Connection)
    → d.sha256 ≡ m.sha256
    → right_hash d m c ≡ Server.expected m c
unfolding right_hash Server.expected
right_hash-expected d m c e =
    ap (λ (h : Text → Text). h (h (m.config_password ++ c.hash.salt) ++ c.hash.challenge)) e

digest_not_empty :
    (d : Desk) (m : Machine) (c : Connection)
    → ((t : Text) → (d.sha256 t == []) ≡ false)
    → (right_hash d m c == []) ≡ false
unfolding right_hash
digest_not_empty d m c h = h _

asks :
    (d : Desk) (m : Machine) (password : Text) (lc : LoginConfigHandler) (c : Connection)
    → Visits d m lc c
    → (ft : Option FileTransfer) × Asked m
        (LoginConfig.create_login_msg d password lc)
        ft
        (Server.prepare (LoginConfig.create_login_msg d password lc) c)
unfolding LoginConfig.create_login_msg LoginConfig.login_union
asks d m password lc c v = elim (Bool-cases lc.is_file_transfer) [
  | inl e ↦ (
    some (record {
      dir = LoginConfig.get_remote_dir d lc;
      show_hidden = not (LoginConfig.get_option lc (bytes "remote_show_hidden") == []);
    }),
    Asked-files m (LoginConfig.create_login_msg d password lc) _ c (if_true _ _ _ e) v.files_enabled
        v.files_permitted,
  )
  | inr e ↦ (
    (Server.prepare (LoginConfig.create_login_msg d password lc) c).file_transfer,
    Asked-screen m (LoginConfig.create_login_msg d password lc)
        (Server.prepare (LoginConfig.create_login_msg d password lc) c)
        (if_false _ _ _ e ∙ if_false _ _ _ v.no_forward),
  )
]

request_fields :
    (d : Desk) (password : Text) (lc : LoginConfigHandler)
    → ((LoginConfig.create_login_msg d password lc).username ≡ lc.id)
      × ((LoginConfig.create_login_msg d password lc).password ≡ password)
unfolding LoginConfig.create_login_msg
request_fields d password lc = (refl, refl)

-- A request with the right hash opens the session.
pub right_hash_opens :
    (d : Desk) (m : Machine) (lc : LoginConfigHandler) (c : Connection)
    → Waits m c
    → Visits d m lc c
    → Opened
        (Server.prepare (LoginConfig.create_login_msg d (right_hash d m c) lc) c)
        (Server.on_login_request m (LoginConfig.create_login_msg d (right_hash d m c) lc) c).0
unfolding Granted
right_hash_opens d m lc c w v =
    let h = right_hash d m c in
    let lr = LoginConfig.create_login_msg d h lc in
    let asked = asks d m h lc c v in
    let f = request_fields d h lc in
    on_login_request-opens m lr asked.0 c w.unauthorized w.no_tunnel
      (ap (λ (t : Text). not (m.is_ip t) && not (t == m.config_id)) f.0 ∙ v.addressed)
      (ap (λ (t : Text). t == []) f.1 ∙ digest_not_empty d m c v.digest) asked.1
      (f.1 ∙ right_hash-expected d m c v.same_hash, w.few, w.few_now)
