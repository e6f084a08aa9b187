-- ===== src/Controller/Login.antt =====
-- The login on the controlling side, of KdDeskTC_Client/src/client.rs: what answers the greeting of
-- the peer, the password that a user types and an error. Each function returns the handler and what
-- is sent or shown; a message that cannot be sent is only logged.
pub mod Carried
pub mod Options
pub mod Told
pub mod Right
pub mod Granted
pub mod Remembered
use kd_desk_tc.Prelude.{
  ℕ, Bool, true, false, not, ◌&&◌, ◌||◌, Option, none, some, List, [], ◌∷◌, ◌++◌, ◌==◌, nat_eq,
  list_eq, if◌then◌else◌,
}
use kd_desk_tc.Strings.{bytes}
use kd_desk_tc.Proto.{Text}
use kd_desk_tc.Client.Proto.{Hash, Message, LoginRequest, TestDelay}
use kd_desk_tc.Controller.LoginConfig.{LoginConfigHandler, Desk, create_login_msg}

pub record Msgbox : Type 0 where
  pub msgtype : Text
  pub title : Text
  pub text : Text

unfoldable pub starts_with : Text → Text → Bool
starts_with s [] = true
starts_with [] (c ∷ p) = false
starts_with (b ∷ s) (c ∷ p) = let rest = starts_with s p in b == c && rest

unfoldable pub contains : Text → Text → Bool
contains [] p = starts_with [] p
contains (b ∷ s) p = let rest = contains s p in starts_with (b ∷ s) p || rest

unfoldable pub contains_any : Text → List Text → Bool
contains_any s [] = false
contains_any s (p ∷ ps) = contains s p || contains_any s ps

-- The words of an error that is not worth another try.
abbrev pub final_words : List Text
final_words =
    bytes "offline"
    ∷ bytes "exist"
    ∷ bytes "handshake"
    ∷ bytes "failed"
    ∷ bytes "resolve"
    ∷ bytes "mismatch"
    ∷ bytes "manually"
    ∷ bytes "not allowed"
    ∷ []

unfoldable pub check_if_retry : (Text → Text) → Msgbox → Bool
check_if_retry to_lowercase b =
    b.msgtype == bytes "error"
    && b.title == bytes "Connection Error"
    && not (contains_any (to_lowercase b.text) final_words)

-- False means that the session ends.
unfoldable pub handle_login_error : Text → LoginConfigHandler → LoginConfigHandler × Msgbox × Bool
handle_login_error err lc =
    if err == bytes "Wrong Password"
    then (
      record lc { password = [] },
      record {
        msgtype = bytes "re-input-password";
        title = err;
        text = bytes "Do you want to enter again?";
      },
      true,
    )
    else (lc, record { msgtype = bytes "error"; title = bytes "Login Error"; text = err }, false)

-- An answer to the peer's own test of the delay.
unfoldable pub handle_test_delay : TestDelay → Option Message
handle_test_delay t = if not t.from_client then some (Message.test_delay t) else none

unfoldable pub known_password : LoginConfigHandler → Text
known_password lc = if lc.password == [] then lc.config.password else lc.password

-- The handler, what is sent, and the question for a password if none is known.
unfoldable pub handle_hash :
    Desk → Hash → LoginConfigHandler → LoginConfigHandler × LoginRequest × Option Msgbox
handle_hash d hash lc =
    let password = known_password lc in
    let after : LoginConfigHandler = record lc { hash = hash } in
    if password == []
    then (
      after,
      create_login_msg d [] lc,
      some (record {
        msgtype = bytes "input-password";
        title = bytes "Password Required";
        text = [];
      }),
    )
    else (after, create_login_msg d (d.sha256 (password ++ hash.challenge)) lc, none)

unfoldable pub handle_login_from_ui :
    Desk → Text → Bool → LoginConfigHandler → LoginConfigHandler × LoginRequest
handle_login_from_ui d password remember lc =
    let res = d.sha256 (password ++ lc.hash.salt) in
    let after : LoginConfigHandler = record lc { remember = remember; password = res } in
    (after, create_login_msg d (d.sha256 (res ++ lc.hash.challenge)) after)
