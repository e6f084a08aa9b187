-- ===== src/Controller/Login/Remembered.antt =====
-- A password that is remembered.
use kd_desk_tc.Prelude.{
  ◌≡◌, ◌⊎◌, inl, inr, refl, sym, ap, ◌∙◌, Bool, true, false, not, ◌&&◌, Option, none, [], ◌++◌,
  ◌==◌, ==_refl, ==→eq, list_eq, if◌then◌else◌, if_true, if_false, Bool-cases,
}
use kd_desk_tc.Proto.{Text}
use kd_desk_tc.Client.Proto.{Hash, Message, LoginRequest, PeerInfo}
use kd_desk_tc.Client.Connection.{Connection, Machine}
use kd_desk_tc.Client.Connection.Login as Server
use kd_desk_tc.Client.Connection.Dispatch.{on_message}
use kd_desk_tc.Controller.PeerConfig.{PeerConfig}
use kd_desk_tc.Controller.LoginConfig
use kd_desk_tc.Controller.LoginConfig.{LoginConfigHandler, Desk}
use kd_desk_tc.Controller.Login.{handle_hash, known_password, Msgbox}
use kd_desk_tc.Controller.Login.Options.{saved_config}
use kd_desk_tc.Controller.Login.Right.{Waits, Visits, right_hash, right_hash_opens}
use kd_desk_tc.Controller.Login.Granted.{typed, known, typed_path}

-- What is kept of a password that is to be remembered.
kept-remembered :
    (lc : LoginConfigHandler) (stored : Text)
    → lc.remember ≡ true
    → (lc.password == []) ≡ false
    → LoginConfig.kept_password lc stored ≡ lc.password
unfolding LoginConfig.kept_password
kept-remembered lc stored r p =
    if_true lc.remember _ _ r ∙ chosen (Bool-cases (lc.password == stored))
  where
    chosen :
        ((lc.password == stored) ≡ true) ⊎ ((lc.password == stored) ≡ false)
        → (if not (lc.password == []) && not (lc.password == stored) then lc.password else stored)
          ≡ lc.password
    chosen (inl e) =
        if_false _ lc.password stored (rw (p, e) refl) ∙ sym (==→eq lc.password stored e)
    chosen (inr e) = if_true _ lc.password stored (rw (p, e) refl)

-- A new window for the same peer, after the peer has answered in another.
unfoldable pub reopened : Desk → Text → PeerInfo → Bool → LoginConfigHandler → LoginConfigHandler
reopened d username pi file lc =
    LoginConfig.initialize lc.id file false
      (LoginConfig.new (LoginConfig.handle_peer_info d username pi lc).peers)

reopened_config :
    (d : Desk) (username : Text) (pi : PeerInfo) (file : Bool) (lc : LoginConfigHandler)
    → d.can_store ≡ true
    → (reopened d username pi file lc).config.password
      ≡ LoginConfig.kept_password lc (LoginConfig.load_config lc).password
unfolding reopened LoginConfig.initialize LoginConfig.new LoginConfig.handle_peer_info
    LoginConfig.save_config LoginConfig.store_config LoginConfig.load_config
    LoginConfig.kept_password
reopened_config d username pi file lc w =
    ap (λ (c : PeerConfig). c.password) (saved_config d _ lc w)

blank_known : (lc : LoginConfigHandler) → lc.password ≡ [] → known_password lc ≡ lc.config.password
unfolding known_password
blank_known lc e = if_true (lc.password == []) _ _ (rw (e) (==_refl {A = Text} []))

reopened_blank :
    (d : Desk) (username : Text) (pi : PeerInfo) (file : Bool) (lc : LoginConfigHandler)
    → (reopened d username pi file lc).password ≡ []
unfolding reopened LoginConfig.initialize LoginConfig.new
reopened_blank d username pi file lc = refl

known_again :
    (d : Desk) (username : Text) (pi : PeerInfo) (file : Bool) (lc : LoginConfigHandler)
    → d.can_store ≡ true
    → lc.remember ≡ true
    → (lc.password == []) ≡ false
    → known_password (reopened d username pi file lc) ≡ lc.password
known_again d username pi file lc w r p =
    blank_known (reopened d username pi file lc) (reopened_blank d username pi file lc)
    ∙ reopened_config d username pi file lc w
    ∙ kept-remembered lc _ r p

known_remembers :
    (d : Desk) (m : Machine) (lc : LoginConfigHandler) (c : Connection)
    → (known d m true lc c).remember ≡ true
unfolding known
known_remembers d m lc c = refl

known_digest :
    (d : Desk) (m : Machine) (lc : LoginConfigHandler) (c : Connection)
    → (known d m true lc c).password ≡ d.sha256 (m.config_password ++ c.hash.salt)
unfolding known
known_digest d m lc c = refl

-- A handler that knows a password answers a greeting with its hash and asks nothing.
answers :
    (d : Desk) (hash : Hash) (lc : LoginConfigHandler)
    → (known_password lc == []) ≡ false
    → handle_hash d hash lc ≡ (
      record lc { hash = hash },
      LoginConfig.create_login_msg d (d.sha256 (known_password lc ++ hash.challenge)) lc,
      none,
    )
unfolding handle_hash
answers d hash lc p = if_false (known_password lc == []) _ _ p

-- The handler of a second window, once the first has got in with a typed password.
unfoldable pub second :
    Desk → Machine → Text → PeerInfo → Bool → LoginConfigHandler → Connection → LoginConfigHandler
second d m username pi file lc c = reopened d username pi file (typed d m true lc c)

second_password :
    (d : Desk) (m : Machine) (username : Text) (pi : PeerInfo) (file : Bool)
    (lc : LoginConfigHandler) (c : Connection)
    → d.can_store ≡ true
    → ((t : Text) → (d.sha256 t == []) ≡ false)
    → known_password (second d m username pi file lc c)
      ≡ d.sha256 (m.config_password ++ c.hash.salt)
unfolding second
second_password d m username pi file lc c w digest =
    let k = known d m true lc c in
    ap (λ (x : LoginConfigHandler). known_password (reopened d username pi file x))
      (typed_path d m true lc c)
    ∙ known_again d username pi file k w (known_remembers d m lc c)
        (ap (λ (t : Text). t == []) (known_digest d m lc c) ∙ digest _)
    ∙ known_digest d m lc c

-- Once a password was typed that is to be remembered and the peer has answered, a new window for
-- the same peer answers its greeting without asking, and the answer authorizes the connection. The
-- files of peers can be written, the machine has kept its password and its salt, the new connection
-- waits for its login from an address within the limits of failures, both sides hash with one
-- function whose values are not empty, and the session names this machine, which permits files.
pub remembered_password-opens :
    (d : Desk) (m n : Machine) (username : Text) (pi : PeerInfo) (file : Bool)
    (lc : LoginConfigHandler) (c e : Connection)
    → d.can_store ≡ true
    → n.config_password ≡ m.config_password
    → e.hash.salt ≡ c.hash.salt
    → Waits n e
    → Visits d n (second d m username pi file lc c) e
    → ((handle_hash d e.hash (second d m username pi file lc c)).2 ≡ none)
      × ((on_message n
            (Message.login_request (handle_hash d e.hash (second d m username pi file lc c)).1)
            e).0.authorized
          ≡ true)
unfolding on_message right_hash
remembered_password-opens d m n username pi file lc c e w same salt waits v =
    let s = second d m username pi file lc c in
    let p = second_password d m username pi file lc c w v.digest in
    let answer = answers d e.hash s (ap (λ (t : Text). t == []) p ∙ v.digest _) in
    let pw : known_password s ≡ d.sha256 (n.config_password ++ e.hash.salt) =
      p
      ∙ sym (
          ap (λ (t : Text). d.sha256 (t ++ e.hash.salt)) same
          ∙ ap (λ (t : Text). d.sha256 (m.config_password ++ t)) salt) in
    let request : (handle_hash d e.hash s).1 ≡ LoginConfig.create_login_msg d (right_hash d n e) s =
      ap (λ (r : LoginConfigHandler × LoginRequest × Option Msgbox). r.1) answer
      ∙ ap (λ (t : Text). LoginConfig.create_login_msg d (d.sha256 (t ++ e.hash.challenge)) s) pw in
    (
      ap (λ (r : LoginConfigHandler × LoginRequest × Option Msgbox). r.2) answer,
      ap (λ (lr : LoginRequest). (Server.on_login_request n lr e).0.authorized) request
          ∙ (right_hash_opens d n s e waits v).0,
    )
