-- ===== src/Client/Server/Secure.antt =====
-- The key exchange of the controlled side: the part of `create_tcp_connection` of
-- KdDeskTC_Client/src/server.rs before the connection starts, split where it waits.
use kd_desk_tc.Prelude.{
  Bool, true, false, ◌&&◌, Option, none, some, [], ◌∷◌, ◌==◌, nat_eq, list_eq, if◌then◌else◌,
  length,
}
use kd_desk_tc.Proto.{Text}
use kd_desk_tc.Client.Keys.{
  PublicKey, KeyMessage, Received, Crypto, Outcome, stopped, key_bytes, secret_key_bytes,
}

-- The id, the keys of the configuration, and the pair that is made for this exchange.
pub record OwnKeys : Type 0 where
  pub id : Text
  pub sk : Text
  pub pk : Text
  pub box_pk : Text
  pub box_sk : Text

unfoldable pub exchanges : OwnKeys → Bool → Bool
exchanges own secure = secure && length own.pk == key_bytes && length own.sk == secret_key_bytes

unfoldable pub hello : Crypto → OwnKeys → KeyMessage
hello c own = KeyMessage.signed_id (c.sign (c.encode_id_pk own.id own.box_pk) own.sk)

unfoldable pub with_key : KeyMessage → Option Text → Outcome
with_key sent key = record { sent = sent ∷ []; key = key; goes_on = true; unconfirms = false }

unfoldable pub failed_after : KeyMessage → Outcome
failed_after sent = record { sent = sent ∷ []; key = none; goes_on = false; unconfirms = false }

unfoldable pub on_public_key : Crypto → OwnKeys → KeyMessage → PublicKey → Outcome
on_public_key c own sent pk =
    if length pk.asymmetric_value == key_bytes
    then elim (c.open_box pk.symmetric_value pk.asymmetric_value own.box_sk) [
      | none ↦ failed_after sent
      | some key ↦ if length key == key_bytes then with_key sent (some key) else failed_after sent
    ]
    else if pk.asymmetric_value == []
    then record (with_key sent none) { unconfirms = true }
    else failed_after sent

unfoldable pub on_reply : Crypto → OwnKeys → KeyMessage → Received → Outcome
on_reply c own sent Received.timed_out = failed_after sent
on_reply c own sent Received.reset = failed_after sent
on_reply c own sent Received.failed = failed_after sent
on_reply c own sent Received.unparsed = failed_after sent
on_reply c own sent (Received.parsed (KeyMessage.public_key pk)) = on_public_key c own sent pk
on_reply c own sent (Received.parsed (KeyMessage.signed_id s)) = with_key sent none
on_reply c own sent (Received.parsed KeyMessage.other) = with_key sent none

-- The exchange, with whether its first message can be sent and what answers it. Without one the
-- connection starts at once.
unfoldable pub accept : Crypto → OwnKeys → Bool → Bool → Received → Outcome
accept c own secure sends reply =
    if exchanges own secure
    then if sends then on_reply c own (hello c own) reply else stopped
    else record { sent = []; key = none; goes_on = true; unconfirms = false }
