-- ===== src/Controller/Secure/Trust.antt =====
-- Whom the controlling side trusts with a key.
use kd_desk_tc.Prelude.{
  ◌≡◌, inl, inr, refl, sym, ap, ◌∙◌, arith, true, false, not, Option, none, some, [], ◌∷◌, ◌==◌,
  ==_refl, ==→eq, nat_eq, list_eq, if◌then◌else◌, Bool-cases, Option-cases, if_true, if_false,
}
use kd_desk_tc.Proto.{Text}
use kd_desk_tc.Client.Keys.{KeyMessage, Received, Crypto, Outcome, stopped, sending}
use kd_desk_tc.Client.Server.Secure as Server
use kd_desk_tc.Client.Server.Secure.{OwnKeys}
use kd_desk_tc.Controller.Secure.{
  Fresh, decode_id_pk, sign_key, key_message, empty_key, on_signed_id, on_received,
  secure_connection, get_rs_pk, key_for,
}
use kd_desk_tc.Controller.Secure.Exchange.{Sound, client, greeting, verified}

-- The key of the peer, vouched for by the rendezvous server.
Vouched : Crypto → Fresh → Text → Text → Text → Type 0
Vouched c f peer_id signed_id_pk v =
    (rs : Text) × (get_rs_pk c f.public_key ≡ some rs)
    × (decode_id_pk c signed_id_pk rs ≡ some (peer_id, v))

key_for-some :
    (peer_id v : Text) (o : Option (Text × Text))
    → key_for peer_id o ≡ some v
    → o ≡ some (peer_id, v)
unfolding key_for
key_for-some peer_id v none h = cc
key_for-some peer_id v (some (id, pk)) h = elim (Bool-cases (id == peer_id)) [
  | inl e ↦
      let p : some pk ≡ some v = sym (if_true (id == peer_id) (some pk) none e) ∙ h in
      let q : id ≡ peer_id = ==→eq id peer_id e in cc
  | inr e ↦
      absurd (let n : none ≡ some v = sym (if_false (id == peer_id) (some pk) none e) ∙ h in cc)
]

sign_key-Vouched :
    (c : Crypto) (f : Fresh) (peer_id signed_id_pk v : Text)
    → sign_key c f peer_id signed_id_pk ≡ some v
    → Vouched c f peer_id signed_id_pk v
unfolding Vouched sign_key
sign_key-Vouched c f peer_id signed_id_pk v h = elim (Option-cases (get_rs_pk c f.public_key)) [
  | inl e ↦ absurd (ground (arith))
  | inr (rs, e) ↦ (rs, e, key_for-some peer_id v (decode_id_pk c signed_id_pk rs) (ground (arith)))
]

no_key : (f : Fresh) (msg : KeyMessage) (k : Text) → (sending f.can_send msg none).key ≡ some k → ⊥
unfolding sending stopped
no_key f msg k h = ground arith

sent_key :
    (f : Fresh) (msg : KeyMessage) (key k : Text)
    → (sending f.can_send msg (some key)).key ≡ some k
    → (k ≡ key) × ((sending f.can_send msg (some key)).sent ≡ msg ∷ [])
unfolding sending stopped
sent_key f msg key k h = ground arith

-- The message that made the controlling side set a key, and what it sent.
Proven : Crypto → Fresh → Text → Text → Received → Outcome → Text → Type 0
Proven c f peer_id v received o k =
    (s b : Text) × (received ≡ Received.parsed (KeyMessage.signed_id s))
    × (decode_id_pk c s v ≡ some (peer_id, b))
    × (o.sent ≡ key_message c f b ∷ [])
    × (k ≡ f.key)

signed_keyed :
    (c : Crypto) (f : Fresh) (peer_id k : Text) (o : Option (Text × Text))
    → (on_signed_id c f peer_id o).key ≡ some k
    → (b : Text) × (o ≡ some (peer_id, b))
      × ((on_signed_id c f peer_id o).sent ≡ key_message c f b ∷ [])
      × (k ≡ f.key)
unfolding on_signed_id
signed_keyed c f peer_id k none h = absurd (no_key f empty_key k h)
signed_keyed c f peer_id k (some (id, pk)) h = elim (Bool-cases (id == peer_id)) [
  | inl e ↦
      let p =
        if_true (id == peer_id) (sending f.can_send (key_message c f pk) (some f.key))
          (sending f.can_send KeyMessage.other none) e in
      let q = sent_key f (key_message c f pk) f.key k (ap (λ (o : Outcome). o.key) (sym p) ∙ h) in
      (
        pk,
        ap (λ (t : Text). some (t, pk)) (==→eq id peer_id e),
        ap (λ (o : Outcome). o.sent) p ∙ q.1,
        q.0,
      )
  | inr e ↦
      let p =
        if_false (id == peer_id) (sending f.can_send (key_message c f pk) (some f.key))
          (sending f.can_send KeyMessage.other none) e in
      absurd (no_key f KeyMessage.other k (ap (λ (o : Outcome). o.key) (sym p) ∙ h))
]

received_keyed :
    (c : Crypto) (f : Fresh) (peer_id v : Text) (received : Received) (k : Text)
    → (on_received c f peer_id v received).key ≡ some k
    → Proven c f peer_id v received (on_received c f peer_id v received) k
unfolding on_received Proven stopped
received_keyed c f peer_id v Received.timed_out k h = absurd (cc)
received_keyed c f peer_id v Received.reset k h = absurd (cc)
received_keyed c f peer_id v Received.failed k h = absurd (cc)
received_keyed c f peer_id v Received.unparsed k h = absurd (no_key f KeyMessage.other k h)
received_keyed c f peer_id v (Received.parsed (KeyMessage.signed_id s)) k h =
    let r = signed_keyed c f peer_id k (decode_id_pk c s v) h in (s, r.0, refl, r.1, r.2, r.3)
received_keyed c f peer_id v (Received.parsed (KeyMessage.public_key pk)) k h =
    absurd (no_key f KeyMessage.other k h)
received_keyed c f peer_id v (Received.parsed KeyMessage.other) k h =
    absurd (no_key f KeyMessage.other k h)

untrusted :
    (c : Crypto) (f : Fresh) (peer_id signed_id_pk : Text) (received : Received)
    → sign_key c f peer_id signed_id_pk ≡ none
    → secure_connection c f peer_id signed_id_pk received ≡ sending f.can_send KeyMessage.other none
unfolding secure_connection
untrusted c f peer_id signed_id_pk received e = rw (secure_connection, e) refl

trusted :
    (c : Crypto) (f : Fresh) (peer_id signed_id_pk : Text) (received : Received) (v : Text)
    → sign_key c f peer_id signed_id_pk ≡ some v
    → secure_connection c f peer_id signed_id_pk received ≡ on_received c f peer_id v received
unfolding secure_connection
trusted c f peer_id signed_id_pk received v e = rw (secure_connection, e) refl

-- Whatever the controlling side receives, if it sets a key then the registration that it was given
-- is signed by the rendezvous server for the peer that it looks for, the message that it received
-- is signed with the key that this registration names, for the same peer, and it has sent the key
-- that it made, sealed for the key that this message names, and nothing else.
pub secure_connection-trusts :
    (c : Crypto) (f : Fresh) (peer_id signed_id_pk : Text) (received : Received) (k : Text)
    → (secure_connection c f peer_id signed_id_pk received).key ≡ some k
    → (rs v s b : Text) × (get_rs_pk c f.public_key ≡ some rs)
      × (decode_id_pk c signed_id_pk rs ≡ some (peer_id, v))
      × (received ≡ Received.parsed (KeyMessage.signed_id s))
      × (decode_id_pk c s v ≡ some (peer_id, b))
      × ((secure_connection c f peer_id signed_id_pk received).sent ≡ key_message c f b ∷ [])
      × (k ≡ f.key)
unfolding secure_connection Vouched Proven
secure_connection-trusts c f peer_id signed_id_pk received k h =
    elim (Option-cases (sign_key c f peer_id signed_id_pk)) [
      | inl e ↦ absurd (
          no_key f KeyMessage.other k
            (ap (λ (o : Outcome). o.key) (sym (untrusted c f peer_id signed_id_pk received e)) ∙ h))
      | inr (v, e) ↦
          let p = trusted c f peer_id signed_id_pk received v e in
          let r =
            received_keyed c f peer_id v received k (ap (λ (o : Outcome). o.key) (sym p) ∙ h) in
          let q = sign_key-Vouched c f peer_id signed_id_pk v e in
          (q.0, v, r.0, r.1, q.1, q.2, r.2, r.3, ap (λ (o : Outcome). o.sent) p ∙ r.4, r.5)
    ]

-- The rendezvous server has signed the key with which the controlled side signs.
pub record Registered (c : Crypto) (own : OwnKeys) (f : Fresh) (signed_id_pk : Text) : Type 0 where
  pub rs : Text
  pub knows : get_rs_pk c f.public_key ≡ some rs
  pub names : decode_id_pk c signed_id_pk rs ≡ some (own.id, own.pk)
  pub not_empty : (signed_id_pk == []) ≡ false
  pub verifies : (t : Text) → c.verify (c.sign t own.sk) own.pk ≡ some t

Registered-key :
    (c : Crypto) (own : OwnKeys) (f : Fresh) (signed_id_pk : Text)
    → Registered c own f signed_id_pk
    → sign_key c f own.id signed_id_pk ≡ some own.pk
unfolding sign_key key_for
Registered-key c own f signed_id_pk r =
    if_true (not (signed_id_pk == [])) _ _ (ap not r.not_empty)
    ∙ rw (sign_key, r.knows, r.names, key_for) (if_true _ _ _ (==_refl own.id))

hello_answered :
    (c : Crypto) (own : OwnKeys) (f : Fresh)
    → Sound c own f
    → ((t : Text) → c.verify (c.sign t own.sk) own.pk ≡ some t)
    → on_received c f own.id own.pk (Received.parsed (Server.hello c own))
      ≡ sending f.can_send (key_message c f own.box_pk) (some f.key)
unfolding on_received Server.hello on_signed_id
hello_answered c own f s v =
    ap (on_signed_id c f own.id) (verified c own f own.pk s (v _))
    ∙ if_true (own.id == own.id) _ _ (==_refl own.id)

-- A peer whose key is registered, and which asks for an exchange, is spoken to with the new key.
pub exchange-secures :
    (c : Crypto) (own : OwnKeys) (f : Fresh) (signed_id_pk : Text)
    → Sound c own f
    → Registered c own f signed_id_pk
    → ((m : KeyMessage) → f.can_send m ≡ true)
    → Server.exchanges own true ≡ true
    → (client c own true f own.id signed_id_pk).key ≡ some f.key
unfolding client greeting sending
exchange-secures c own f signed_id_pk s r h e =
    let p =
      trusted c f own.id signed_id_pk
        (if Server.exchanges own true
          then Received.parsed (Server.hello c own)
          else Received.parsed KeyMessage.other)
        own.pk (Registered-key c own f signed_id_pk r) in
    ap (λ (o : Outcome). o.key)
      (p
        ∙ ap (on_received c f own.id own.pk) (if_true (Server.exchanges own true) _ _ e)
        ∙ hello_answered c own f s r.verifies
        ∙ if_true (f.can_send (key_message c f own.box_pk)) _ _ (h _))
