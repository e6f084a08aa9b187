-- ===== src/Controller/Secure/Exchange.antt =====
-- Both sides of the key exchange together, and what it takes for the controlling side to set a key.
use kd_desk_tc.Prelude.{
  ℕ, ◌≡◌, ◌⊎◌, inl, inr, refl, sym, ap, subst, ◌∙◌, arith, Bool, true, false, not, ◌&&◌, Option,
  none, some, List, [], ◌∷◌, ◌==◌, ==_refl, ==→eq, nat_eq, list_eq, if◌then◌else◌, length,
  Bool-cases, Option-cases, if_true, if_false,
}
use kd_desk_tc.Proto.{Text}
use kd_desk_tc.Client.Keys.{KeyMessage, Received, Crypto, Outcome, sending, key_bytes, get_pk}
use kd_desk_tc.Client.Server.Secure as Server
use kd_desk_tc.Client.Server.Secure.{OwnKeys}
use kd_desk_tc.Controller.Secure.{
  Fresh, decode_id_pk, id_and_pk, sign_key, key_message, empty_key, on_signed_id, on_received,
  secure_connection,
}

-- What the other side receives of what was sent.
unfoldable pub arrives : List KeyMessage → Received
arrives [] = Received.reset
arrives (msg ∷ rest) = Received.parsed msg

-- Without an exchange, the first message of the controlled side is one of the session.
unfoldable pub greeting : Crypto → OwnKeys → Bool → Received
greeting c own secure =
    if Server.exchanges own secure
    then Received.parsed (Server.hello c own)
    else Received.parsed KeyMessage.other

unfoldable pub client : Crypto → OwnKeys → Bool → Fresh → Text → Text → Outcome
client c own secure f peer_id signed_id_pk =
    secure_connection c f peer_id signed_id_pk (greeting c own secure)

unfoldable pub server : Crypto → OwnKeys → Bool → Fresh → Text → Text → Outcome
server c own secure f peer_id signed_id_pk =
    Server.accept c own secure true (arrives (client c own secure f peer_id signed_id_pk).sent)

-- What libsodium promises of keys that it has made: a signature yields nothing but the message that
-- was signed, what is sealed for a key is opened with the other half, and keys have their lengths.
-- `IdPk` messages are parsed as they were written.
pub record Sound (c : Crypto) (own : OwnKeys) (f : Fresh) : Type 0 where
  pub signed : (x v y : Text) → c.verify (c.sign x own.sk) v ≡ some y → y ≡ x
  pub parses : (id pk : Text) → c.parse_id_pk (c.encode_id_pk id pk) ≡ some (id, pk)
  pub opens : (k : Text) → c.open_box (c.seal k own.box_pk f.box_sk) f.box_pk own.box_sk ≡ some k
  pub own_length : (length own.box_pk == key_bytes) ≡ true
  pub their_length : (length f.box_pk == key_bytes) ≡ true
  pub key_length : (length f.key == key_bytes) ≡ true

-- The three ways in which the controlling side answers.
data Answer (c : Crypto) (own : OwnKeys) (f : Fresh) (secure : Bool) (o : Outcome) : Type 0 where
  declines : o ≡ sending f.can_send KeyMessage.other none → Answer c own f secure o
  mismatches : o ≡ sending f.can_send empty_key none → Answer c own f secure o
  seals :
      Server.exchanges own secure ≡ true
      → o ≡ sending f.can_send (key_message c f own.box_pk) (some f.key)
      → Answer c own f secure o

get_pk_fits : (pk : Text) → (length pk == key_bytes) ≡ true → get_pk pk ≡ some pk
unfolding get_pk
get_pk_fits pk h = if_true _ _ _ h

pub verified :
    (c : Crypto) (own : OwnKeys) (f : Fresh) (v : Text)
    → Sound c own f
    → c.verify (c.sign (c.encode_id_pk own.id own.box_pk) own.sk) v
      ≡ some (c.encode_id_pk own.id own.box_pk)
    → decode_id_pk c (c.sign (c.encode_id_pk own.id own.box_pk) own.sk) v
      ≡ some (own.id, own.box_pk)
unfolding decode_id_pk id_and_pk
verified c own f v s h =
    rw (decode_id_pk, h, s.parses own.id own.box_pk, id_and_pk, get_pk_fits own.box_pk s.own_length)
      refl

hello_decodes :
    (c : Crypto) (own : OwnKeys) (f : Fresh) (v : Text)
    → Sound c own f
    → (decode_id_pk c (c.sign (c.encode_id_pk own.id own.box_pk) own.sk) v ≡ none)
      ⊎ (decode_id_pk c (c.sign (c.encode_id_pk own.id own.box_pk) own.sk) v
          ≡ some (own.id, own.box_pk))
unfolding decode_id_pk
hello_decodes c own f v s =
    elim (Option-cases (c.verify (c.sign (c.encode_id_pk own.id own.box_pk) own.sk) v)) [
      | inl e ↦ inl (rw (decode_id_pk, e) refl)
      | inr (y, e) ↦
          inr
            (verified c own f v s (e ∙ ap some (s.signed (c.encode_id_pk own.id own.box_pk) v y e)))
    ]

answers_hello :
    (c : Crypto) (own : OwnKeys) (f : Fresh) (secure : Bool) (peer_id v : Text)
    → Sound c own f
    → Server.exchanges own secure ≡ true
    → Answer c own f secure (on_received c f peer_id v (Received.parsed (Server.hello c own)))
unfolding on_received Server.hello on_signed_id
answers_hello c own f secure peer_id v s e = elim (hello_decodes c own f v s) [
  | inl n ↦ Answer.mismatches (ap (on_signed_id c f peer_id) n)
  | inr y ↦ elim (Bool-cases (own.id == peer_id)) [
    | inl same ↦
        Answer.seals e (ap (on_signed_id c f peer_id) y ∙ if_true (own.id == peer_id) _ _ same)
    | inr other ↦
        Answer.declines (ap (on_signed_id c f peer_id) y ∙ if_false (own.id == peer_id) _ _ other)
  ]
]

on_other :
    (c : Crypto) (f : Fresh) (peer_id v : Text)
    → on_received c f peer_id v (Received.parsed KeyMessage.other)
      ≡ sending f.can_send KeyMessage.other none
unfolding on_received
on_other c f peer_id v = refl

received_answer :
    (c : Crypto) (own : OwnKeys) (f : Fresh) (secure : Bool) (peer_id v : Text)
    → Sound c own f
    → Answer c own f secure (on_received c f peer_id v (greeting c own secure))
unfolding greeting
received_answer c own f secure peer_id v s = elim (Bool-cases (Server.exchanges own secure)) [
  | inl e ↦
      subst (λ (r : Received). Answer c own f secure (on_received c f peer_id v r))
        (sym (if_true (Server.exchanges own secure) _ _ e))
        (answers_hello c own f secure peer_id v s e)
  | inr e ↦ Answer.declines (
      ap (on_received c f peer_id v) (if_false (Server.exchanges own secure) _ _ e)
      ∙ on_other c f peer_id v)
]

client_answer :
    (c : Crypto) (own : OwnKeys) (f : Fresh) (secure : Bool) (peer_id signed_id_pk : Text)
    → Sound c own f
    → Answer c own f secure (client c own secure f peer_id signed_id_pk)
unfolding client secure_connection
client_answer c own f secure peer_id signed_id_pk s =
    elim (Option-cases (sign_key c f peer_id signed_id_pk)) [
      | inl e ↦ Answer.declines (rw (secure_connection, e) refl)
      | inr (v, e) ↦ rw (secure_connection, e) (received_answer c own f secure peer_id v s)
    ]

-- Both sides go on, and encrypt with one key or not at all.
abbrev Alike : Outcome → Outcome → Type 0
Alike a b = (a.goes_on ≡ true) × (b.goes_on ≡ true) × (a.key ≡ b.key)

sends_all :
    (f : Fresh) (msg : KeyMessage) (key : Option Text)
    → ((m : KeyMessage) → f.can_send m ≡ true)
    → sending f.can_send msg key
      ≡ record { sent = msg ∷ []; key = key; goes_on = true; unconfirms = false }
unfolding sending
sends_all f msg key h = if_true _ _ _ (h msg)

opened_key :
    (c : Crypto) (own : OwnKeys) (f : Fresh) (sent : KeyMessage)
    → Sound c own f
    → Server.on_reply c own sent (Received.parsed (key_message c f own.box_pk))
      ≡ Server.with_key sent (some f.key)
unfolding Server.on_reply Server.on_public_key key_message
opened_key c own f sent s =
    if_true _ _ _ s.their_length ∙ rw (s.opens f.key) (if_true _ _ _ s.key_length)

unconfirmed :
    (c : Crypto) (own : OwnKeys) (sent : KeyMessage)
    → Server.on_reply c own sent (Received.parsed empty_key)
      ≡ record (Server.with_key sent none) { unconfirms = true }
unfolding Server.on_reply Server.on_public_key empty_key kd_desk_tc.Prelude.list_discrete
    kd_desk_tc.Prelude.ℕ_discrete
unconfirmed c own sent = refl

declined :
    (c : Crypto) (own : OwnKeys) (secure : Bool)
    → ((Server.accept c own secure true (Received.parsed KeyMessage.other)).goes_on ≡ true)
      × ((Server.accept c own secure true (Received.parsed KeyMessage.other)).key ≡ none)
unfolding Server.accept Server.on_reply Server.with_key
declined c own secure = elim (Bool-cases (Server.exchanges own secure)) [
  | inl e ↦ rw (e) (refl, refl)
  | inr e ↦ rw (e) (refl, refl)
]

mismatched :
    (c : Crypto) (own : OwnKeys) (secure : Bool)
    → ((Server.accept c own secure true (Received.parsed empty_key)).goes_on ≡ true)
      × ((Server.accept c own secure true (Received.parsed empty_key)).key ≡ none)
unfolding Server.accept Server.with_key
mismatched c own secure = elim (Bool-cases (Server.exchanges own secure)) [
  | inl e ↦ rw (e, unconfirmed c own (Server.hello c own)) (refl, refl)
  | inr e ↦ rw (e) (refl, refl)
]

unsealed :
    (c : Crypto) (own : OwnKeys) (f : Fresh) (secure : Bool)
    → Sound c own f
    → Server.exchanges own secure ≡ true
    → Server.accept c own secure true (Received.parsed (key_message c f own.box_pk))
      ≡ Server.with_key (Server.hello c own) (some f.key)
unfolding Server.accept
unsealed c own f secure s e =
    if_true (Server.exchanges own secure) _ _ e ∙ opened_key c own f (Server.hello c own) s

Alike-sent :
    (c : Crypto) (own : OwnKeys) (f : Fresh) (secure : Bool) (o : Outcome)
    → Sound c own f
    → ((m : KeyMessage) → f.can_send m ≡ true)
    → Answer c own f secure o
    → Alike o (Server.accept c own secure true (arrives o.sent))
unfolding arrives Server.with_key
Alike-sent c own f secure o s h (Answer.declines e) =
    let d = declined c own secure in
    rw (e ∙ sends_all f KeyMessage.other none h) (refl, d.0, sym d.1)
Alike-sent c own f secure o s h (Answer.mismatches e) =
    let d = mismatched c own secure in rw (e ∙ sends_all f empty_key none h) (refl, d.0, sym d.1)
Alike-sent c own f secure o s h (Answer.seals x e) =
    let u = unsealed c own f secure s x in
    rw (e ∙ sends_all f (key_message c f own.box_pk) (some f.key) h)
      (refl, ap (λ (r : Outcome). r.goes_on) u, sym (ap (λ (r : Outcome). r.key) u))

-- Whatever id the controlling side looks for and whatever registration it was given, after the key
-- exchange both sides go on, and they encrypt with one key or not at all, whether the controlled
-- side asks for an exchange or not. The keys have their lengths, what can be verified is what was
-- signed, what was sealed for a key is opened with its other half, `IdPk` messages are parsed as
-- they were written, and the messages of the controlling side are sent and arrive.
pub exchange-agrees :
    (c : Crypto) (own : OwnKeys) (secure : Bool) (f : Fresh) (peer_id signed_id_pk : Text)
    → Sound c own f
    → ((m : KeyMessage) → f.can_send m ≡ true)
    → ((client c own secure f peer_id signed_id_pk).goes_on ≡ true)
      × ((server c own secure f peer_id signed_id_pk).goes_on ≡ true)
      × ((client c own secure f peer_id signed_id_pk).key
          ≡ (server c own secure f peer_id signed_id_pk).key)
unfolding server
exchange-agrees c own secure f peer_id signed_id_pk s h =
    Alike-sent c own f secure (client c own secure f peer_id signed_id_pk) s h
      (client_answer c own f secure peer_id signed_id_pk s)
