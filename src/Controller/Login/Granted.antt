-- ===== src/Controller/Login/Granted.antt =====
-- A user who knows the password of a machine gets in, and both sides agree on the options from then on.
use kd_desk_tc.Prelude.{
  ◌≡◌, sym, ap, subst, ◌∙◌, arith, Bool, true, false, List, ◌++◌, nat_eq, list_eq,
}
use kd_desk_tc.Proto.{Text}
use kd_desk_tc.Client.Proto.{Hash, Message}
use kd_desk_tc.Client.Connection.{Connection, Machine}
use kd_desk_tc.Client.Connection.Login as Server
use kd_desk_tc.Client.Connection.Options.Flags.{Flags, flags}
use kd_desk_tc.Client.Connection.Dispatch.{on_message}
use kd_desk_tc.Client.Connection.Dispatch.Admits.{Opened}
use kd_desk_tc.Controller.LoginConfig
use kd_desk_tc.Controller.LoginConfig.{LoginConfigHandler, Desk}
use kd_desk_tc.Controller.Login.Carried.{Synced}
use kd_desk_tc.Controller.Login.Options.{Agree, switches, switches-Agree, flags_keyboard}
use kd_desk_tc.Controller.Login.Told.{AllOff, login_tells, prepared_keyboard}
use kd_desk_tc.Controller.Login.{handle_hash, handle_login_from_ui}
use kd_desk_tc.Controller.Login.Right.{right_hash, right_hash_opens, Waits, Visits}

greeted :
    (d : Desk) (hash : Hash) (lc : LoginConfigHandler)
    → (handle_hash d hash lc).0 ≡ record lc { hash = hash }
unfolding handle_hash
greeted d hash lc = ground arith

-- The handler once its user has typed the password.
unfoldable pub typed : Desk → Machine → Bool → LoginConfigHandler → Connection → LoginConfigHandler
typed d m remember lc c =
    (handle_login_from_ui d m.config_password remember (handle_hash d c.hash lc).0).0

-- The connection once it has got the request of that handler.
unfoldable pub answered : Desk → Machine → Bool → LoginConfigHandler → Connection → Connection
answered d m remember lc c =
    let r = handle_login_from_ui d m.config_password remember (handle_hash d c.hash lc).0 in
    (on_message m (Message.login_request r.1) c).0

-- The handler that `typed` comes to.
unfoldable pub known : Desk → Machine → Bool → LoginConfigHandler → Connection → LoginConfigHandler
known d m remember lc c = record lc {
  hash = c.hash;
  remember = remember;
  password = d.sha256 (m.config_password ++ c.hash.salt);
}

pub typed_path :
    (d : Desk) (m : Machine) (remember : Bool) (lc : LoginConfigHandler) (c : Connection)
    → typed d m remember lc c ≡ known d m remember lc c
unfolding typed known handle_login_from_ui
typed_path d m remember lc c =
    ap (λ (g : LoginConfigHandler). (handle_login_from_ui d m.config_password remember g).0)
      (greeted d c.hash lc)

answered_path :
    (d : Desk) (m : Machine) (remember : Bool) (lc : LoginConfigHandler) (c : Connection)
    → answered d m remember lc c
      ≡ (Server.on_login_request m
          (LoginConfig.create_login_msg d (right_hash d m c) (known d m remember lc c))
          c).0
unfolding answered known handle_login_from_ui on_message right_hash
answered_path d m remember lc c =
    ap
      (λ (g : LoginConfigHandler).
        (Server.on_login_request m (handle_login_from_ui d m.config_password remember g).1 c).0)
      (greeted d c.hash lc)

known-Visits :
    (d : Desk) (m : Machine) (remember : Bool) (lc : LoginConfigHandler) (c : Connection)
    → Visits d m lc c
    → Visits d m (known d m remember lc c) c
unfolding known
known-Visits d m remember lc c v = record {
  same_hash = v.same_hash;
  digest = v.digest;
  addressed = v.addressed;
  no_forward = v.no_forward;
  files_enabled = v.files_enabled;
  files_permitted = v.files_permitted;
}

typed_opened :
    (d : Desk) (m : Machine) (remember : Bool) (lc : LoginConfigHandler) (c : Connection)
    → Waits m c
    → Visits d m lc c
    → Opened
        (Server.prepare
          (LoginConfig.create_login_msg d (right_hash d m c) (known d m remember lc c))
          c)
        (answered d m remember lc c)
typed_opened d m remember lc c w v =
    let k = known d m remember lc c in
    subst (Opened (Server.prepare (LoginConfig.create_login_msg d (right_hash d m c) k) c))
      (sym (answered_path d m remember lc c))
      (right_hash_opens d m k c w (known-Visits d m remember lc c v))

-- Once the password of the machine has been typed after its greeting, the request that the
-- controlling side makes authorizes the connection. The connection waits for its login and has no
-- tunnel, its address has at most 30 failures in all and at most 6 in the current minute, both
-- sides hash with one function whose values are not empty, the session names this machine and is no
-- port forwarding, and the machine permits files.
pub typed_password-opens :
    (d : Desk) (m : Machine) (remember : Bool) (lc : LoginConfigHandler) (c : Connection)
    → Waits m c
    → Visits d m lc c
    → (answered d m remember lc c).authorized ≡ true
typed_password-opens d m remember lc c w v = (typed_opened d m remember lc c w v).0

known_stored :
    (d : Desk) (m : Machine) (remember : Bool) (lc : LoginConfigHandler) (c : Connection)
    → LoginConfig.load_config lc ≡ lc.config
    → LoginConfig.load_config (known d m remember lc c) ≡ (known d m remember lc c).config
unfolding LoginConfig.load_config known
known_stored d m remember lc c h = h

known_told :
    (d : Desk) (m : Machine) (remember : Bool) (lc : LoginConfigHandler) (c : Connection)
    → Visits d m lc c
    → lc.is_file_transfer ≡ false
    → AllOff (flags c)
    → Synced (known d m remember lc c).config (
        flags (
          Server.prepare
            (LoginConfig.create_login_msg d (right_hash d m c) (known d m remember lc c))
            c))
unfolding known
known_told d m remember lc c v screen off =
    login_tells d (right_hash d m c) (known d m remember lc c) c v.no_forward screen off

-- After a login with a typed password, and after any switches that the window makes then, the
-- configuration in memory is the stored one, the connection is authorized and permits the keyboard,
-- and its lock at the end, cursor, privacy mode, clipboard, sound and files are set as the
-- configuration says. The session is for the screen, the files of peers can be written, the
-- configuration in memory was the stored one, the new connection has all these options off, the
-- keyboard permitted and no tunnel and waits for its login, its address has at most 30 failures in
-- all and at most 6 in the current minute, both sides hash with one function whose values are not
-- empty, and the session names this machine, which permits files.
pub session-Agree :
    (d : Desk) (m : Machine) (remember : Bool) (names : List Text) (lc : LoginConfigHandler)
    (c : Connection)
    → Waits m c
    → Visits d m lc c
    → lc.is_file_transfer ≡ false
    → AllOff (flags c)
    → d.can_store ≡ true
    → LoginConfig.load_config lc ≡ lc.config
    → Agree
        (switches d m names (typed d m remember lc c) (answered d m remember lc c)).0
        (switches d m names (typed d m remember lc c) (answered d m remember lc c)).1
session-Agree d m remember names lc c w v screen off writes stored =
    let k = known d m remember lc c in
    let lr = LoginConfig.create_login_msg d (right_hash d m c) k in
    let opened = typed_opened d m remember lc c w v in
    switches-Agree d m names (typed d m remember lc c) (answered d m remember lc c) writes (
      subst (λ (x : LoginConfigHandler). Agree x (answered d m remember lc c))
        (sym (typed_path d m remember lc c))
        (record {
          stored = known_stored d m remember lc c stored;
          keyboard =
              sym (flags_keyboard (answered d m remember lc c))
              ∙ ap (λ (f : Flags). f.keyboard) opened.1
              ∙ prepared_keyboard lr c
              ∙ off.6;
          authorized = opened.0;
          synced =
              subst (Synced k.config) (sym opened.1) (known_told d m remember lc c v screen off);
        }))
