-- ===== src/Client/Keys.antt =====
-- The key exchange that may open a session: its messages, what a stream yields, and libsodium, which
-- signs, verifies, seals and opens. The names of peers and their keys are signed in the form of an
-- `IdPk` message.
use kd_desk_tc.Prelude.{
  ℕ, Bool, true, false, Option, none, some, List, [], ◌∷◌, ◌==◌, nat_eq, list_eq, if◌then◌else◌,
  length,
}
use kd_desk_tc.Proto.{Text}

pub record PublicKey : Type 0 where
  pub asymmetric_value : Text
  pub symmetric_value : Text

-- The last is any other message, the empty one too.
pub data KeyMessage : Type 0 where
  signed_id : Text → KeyMessage
  public_key : PublicKey → KeyMessage
  other : KeyMessage

-- What `timeout(CONNECT_TIMEOUT, stream.next())` comes to.
pub data Received : Type 0 where
  timed_out reset failed unparsed : Received
  parsed : KeyMessage → Received

pub record Crypto : Type 0 where
  pub sign : Text → Text → Text
  pub verify : Text → Text → Option Text
  pub encode_id_pk : Text → Text → Text
  pub parse_id_pk : Text → Option (Text × Text)
  -- `box_::seal(key, nonce, their_pk, our_sk)` and `box_::open(sealed, nonce, their_pk, our_sk)`, with
  -- the nonce of zeros that both sides use
  pub seal : Text → Text → Text → Text
  pub open_box : Text → Text → Text → Option Text
  pub decode_base64 : Text → Option Text

-- What one side has sent, the key that its stream is encrypted with from then on, if any, whether the
-- session goes on, and whether the own key counts as not confirmed any more.
pub record Outcome : Type 0 where
  pub sent : List KeyMessage
  pub key : Option Text
  pub goes_on : Bool
  pub unconfirms : Bool

unfoldable pub stopped : Outcome
stopped = record { sent = []; key = none; goes_on = false; unconfirms = false }

-- A message is sent, and the key is set if that succeeds.
unfoldable pub sending : (KeyMessage → Bool) → KeyMessage → Option Text → Outcome
sending can_send msg key =
    if can_send msg
    then record { sent = msg ∷ []; key = key; goes_on = true; unconfirms = false }
    else stopped

-- `box_::PUBLICKEYBYTES`, `secretbox::KEYBYTES` and `sign::PUBLICKEYBYTES`
abbrev pub key_bytes : ℕ
key_bytes = 32

-- `sign::SECRETKEYBYTES`
abbrev pub secret_key_bytes : ℕ
secret_key_bytes = 64

unfoldable pub get_pk : Text → Option Text
get_pk pk = if length pk == key_bytes then some pk else none
