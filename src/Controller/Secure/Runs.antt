-- ===== src/Controller/Secure/Runs.antt =====
-- Examples for the key exchange. A signature is the message behind the first byte of the key, and a
-- sealed key is the key.
use kd_desk_tc.Prelude.{
  ℕ, zero, suc, ◌≡◌, inl, inr, refl, sym, ap, ◌∙◌, arith, Bool, true, false, Option, none, some,
  List, [], ◌∷◌, ◌++◌, ◌==◌, nat_eq, list_eq, if◌then◌else◌, if_true, if_false, Bool-cases, length,
}
use mathlib.Core.Option.{some-injective}
use kd_desk_tc.Strings.{bytes}
use kd_desk_tc.Proto.{Text}
use kd_desk_tc.Client.Keys.{KeyMessage, Crypto, get_pk}
use kd_desk_tc.Client.Server.Secure as Server
use kd_desk_tc.Client.Server.Secure.{OwnKeys}
use kd_desk_tc.Controller.Secure.{
  Fresh, get_rs_pk, decode_id_pk, id_and_pk, key_message, secure_connection,
}
use kd_desk_tc.Controller.Secure.Exchange.{Sound, client, server, greeting, exchange-agrees}
use kd_desk_tc.Controller.Secure.Trust.{Registered, secure_connection-trusts, exchange-secures}

sign : Text → Text → Text
sign x [] = 0 ∷ x
sign x (k ∷ sk) = k ∷ x

verify : Text → Text → Option Text
verify [] v = none
verify (k ∷ x) [] = none
verify (k ∷ x) (h ∷ v) = if k == h then some x else none

encode_id_pk : Text → Text → Text
encode_id_pk [] pk = 0 ∷ pk
encode_id_pk (b ∷ id) pk = 1 ∷ b ∷ encode_id_pk id pk

with_byte : ℕ → Option (Text × Text) → Option (Text × Text)
with_byte b none = none
with_byte b (some (id, pk)) = some (b ∷ id, pk)

parse_id_pk : Text → Option (Text × Text)
parse_id_pk [] = none
parse_id_pk (zero ∷ pk) = some ([], pk)
parse_id_pk (suc n ∷ []) = none
parse_id_pk (suc n ∷ b ∷ t) = with_byte b (parse_id_pk t)

parse_id_pk-encode_id_pk : (id pk : Text) → parse_id_pk (encode_id_pk id pk) ≡ some (id, pk)
unfolding parse_id_pk encode_id_pk with_byte
parse_id_pk-encode_id_pk [] pk = refl
parse_id_pk-encode_id_pk (b ∷ id) pk = ap (with_byte b) (parse_id_pk-encode_id_pk id pk)

abbrev crypto : Crypto
crypto = record {
  sign = sign;
  verify = verify;
  encode_id_pk = encode_id_pk;
  parse_id_pk = parse_id_pk;
  seal = λ k pk sk. k;
  open_box = λ k pk sk. some k;
  decode_base64 = λ t. some t;
}

abbrev key32 : Text
key32 = bytes "abcdefghijklmnopqrstuvwxyz012345"

abbrev rs_pk : Text
rs_pk = bytes "rbcdefghijklmnopqrstuvwxyz012345"

abbrev own : OwnKeys
own = record {
  id = bytes "42";
  sk = key32 ++ key32;
  pk = key32;
  box_pk = bytes "bbcdefghijklmnopqrstuvwxyz012345";
  box_sk = bytes "secret";
}

abbrev fresh : Fresh
fresh = record {
  box_pk = bytes "cbcdefghijklmnopqrstuvwxyz012345";
  box_sk = bytes "other";
  key = bytes "kbcdefghijklmnopqrstuvwxyz012345";
  can_send = λ m. true;
  public_key = rs_pk;
}

-- What the rendezvous server has signed of the controlled side.
abbrev registration : Text
registration = sign (encode_id_pk own.id own.pk) rs_pk

signed : (x k : Text) (h : ℕ) (v y : Text) → verify (h ∷ x) v ≡ some y → y ≡ x
unfolding verify
signed x k h [] y e = absurd (cc)
signed x k h (g ∷ v) y e = elim (Bool-cases (h == g)) [
  | inl s ↦ some-injective y x (sym e ∙ if_true (h == g) (some x) none s)
  | inr s ↦ absurd (let n : none ≡ some y = sym (if_false (h == g) (some x) none s) ∙ e in cc)
]

keys-Sound : Sound crypto own fresh
unfolding sign kd_desk_tc.Prelude.ℕ_discrete
keys-Sound = record {
  signed = λ x v y. signed x [] 97 v y;
  parses = parse_id_pk-encode_id_pk;
  opens = λ k. refl;
  own_length = refl;
  their_length = refl;
  key_length = refl;
}

exchange-agrees_example :
    ((client crypto own true fresh own.id registration).goes_on ≡ true)
    × ((server crypto own true fresh own.id registration).goes_on ≡ true)
    × ((client crypto own true fresh own.id registration).key
        ≡ (server crypto own true fresh own.id registration).key)
exchange-agrees_example =
    exchange-agrees crypto own true fresh own.id registration keys-Sound (λ m. refl)

keys-Registered : Registered crypto own fresh registration
unfolding sign verify encode_id_pk parse_id_pk with_byte get_rs_pk get_pk decode_id_pk id_and_pk
    kd_desk_tc.Prelude.list_discrete
keys-Registered = record {
  rs = rs_pk;
  knows = refl;
  names = refl;
  not_empty = refl;
  verifies = λ t. refl;
}

keyed :
    (secure_connection crypto fresh own.id registration (greeting crypto own true)).key
    ≡ some fresh.key
unfolding client Server.exchanges kd_desk_tc.Prelude.ℕ_discrete
keyed = exchange-secures crypto own fresh registration keys-Sound keys-Registered (λ m. refl) refl

secure_connection-trusts_example :
    (rs v s b : Text) × (get_rs_pk crypto fresh.public_key ≡ some rs)
    × (decode_id_pk crypto registration rs ≡ some (own.id, v))
    × (greeting crypto own true ≡ kd_desk_tc.Client.Keys.Received.parsed (KeyMessage.signed_id s))
    × (decode_id_pk crypto s v ≡ some (own.id, b))
    × ((secure_connection crypto fresh own.id registration (greeting crypto own true)).sent
        ≡ key_message crypto fresh b ∷ [])
    × (fresh.key ≡ fresh.key)
secure_connection-trusts_example =
    secure_connection-trusts crypto fresh own.id registration (greeting crypto own true) fresh.key
      keyed
