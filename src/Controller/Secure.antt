-- ===== src/Controller/Secure.antt =====
-- `secure_connection` of KdDeskTC_Client/src/client.rs: the key exchange of the controlling side.
pub mod Exchange
pub mod Trust
pub mod Runs
use kd_desk_tc.Prelude.{
  ℕ, Bool, true, false, not, ◌&&◌, Option, none, some, List, [], ◌∷◌, ◌==◌, nat_eq, list_eq,
  if◌then◌else◌,
}
use kd_desk_tc.Proto.{Text}
use kd_desk_tc.Client.Keys.{
  PublicKey, KeyMessage, Received, Crypto, Outcome, stopped, sending, get_pk,
}

-- The pair and the key that are made for this exchange, what can be sent, and the public key of the
-- rendezvous server in base64.
pub record Fresh : Type 0 where
  pub box_pk : Text
  pub box_sk : Text
  pub key : Text
  pub can_send : KeyMessage → Bool
  pub public_key : Text

unfoldable pub get_rs_pk : Crypto → Text → Option Text
get_rs_pk c s = elim (c.decode_base64 s) [ none ↦ none | some pk ↦ get_pk pk ]

-- An id and its key, of bytes that have been verified.
unfoldable pub id_and_pk : Option (Text × Text) → Option (Text × Text)
id_and_pk none = none
id_and_pk (some (id, pk)) = elim (get_pk pk) [ none ↦ none | some key ↦ some (id, key) ]

unfoldable pub decode_id_pk : Crypto → Text → Text → Option (Text × Text)
decode_id_pk c signed key = elim (c.verify signed key) [
  | none ↦ none
  | some bytes ↦ id_and_pk (c.parse_id_pk bytes)
]

-- The key that is signed for the peer.
unfoldable pub key_for : Text → Option (Text × Text) → Option Text
key_for peer_id none = none
key_for peer_id (some (id, pk)) = if id == peer_id then some pk else none

unfoldable pub sign_key : Crypto → Fresh → Text → Text → Option Text
sign_key c f peer_id signed_id_pk =
    if not (signed_id_pk == [])
    then elim (get_rs_pk c f.public_key) [
      | none ↦ none
      | some rs_pk ↦ key_for peer_id (decode_id_pk c signed_id_pk rs_pk)
    ]
    else none

-- The sealed key for the peer's key of this exchange.
unfoldable pub key_message : Crypto → Fresh → Text → KeyMessage
key_message c f their_pk =
    KeyMessage.public_key
      (record { asymmetric_value = f.box_pk; symmetric_value = c.seal f.key their_pk f.box_sk })

unfoldable pub empty_key : KeyMessage
empty_key = KeyMessage.public_key (record { asymmetric_value = []; symmetric_value = [] })

unfoldable pub on_signed_id : Crypto → Fresh → Text → Option (Text × Text) → Outcome
on_signed_id c f peer_id none = sending f.can_send empty_key none
on_signed_id c f peer_id (some (id, pk)) =
    if id == peer_id
    then sending f.can_send (key_message c f pk) (some f.key)
    else sending f.can_send KeyMessage.other none

unfoldable pub on_received : Crypto → Fresh → Text → Text → Received → Outcome
on_received c f peer_id sign_pk Received.timed_out = stopped
on_received c f peer_id sign_pk Received.reset = stopped
on_received c f peer_id sign_pk Received.failed = stopped
on_received c f peer_id sign_pk Received.unparsed = sending f.can_send KeyMessage.other none
on_received c f peer_id sign_pk (Received.parsed (KeyMessage.signed_id s)) =
    on_signed_id c f peer_id (decode_id_pk c s sign_pk)
on_received c f peer_id sign_pk (Received.parsed (KeyMessage.public_key pk)) =
    sending f.can_send KeyMessage.other none
on_received c f peer_id sign_pk (Received.parsed KeyMessage.other) =
    sending f.can_send KeyMessage.other none

unfoldable pub secure_connection : Crypto → Fresh → Text → Text → Received → Outcome
secure_connection c f peer_id signed_id_pk received = elim (sign_key c f peer_id signed_id_pk) [
  | none ↦ sending f.can_send KeyMessage.other none
  | some sign_pk ↦ on_received c f peer_id sign_pk received
]
