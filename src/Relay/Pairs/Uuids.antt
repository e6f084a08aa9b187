-- ===== src/Relay/Pairs/Uuids.antt =====
-- Who is paired with whom.
use kd_desk_tc.Prelude.{
  Option-cases, ◌≡◌, ◌≢◌, ap, ◌∙◌, arith, ◌⊎◌, inl, inr, none, some, [], list_eq, not, ◌&&◌, ◌||◌,
}
use kd_desk_tc.Net.{SocketAddr}
use kd_desk_tc.Proto.{Text, RequestRelay}
use kd_desk_tc.World.{World}
use kd_desk_tc.HashMap
use kd_desk_tc.Relay.State.{RelayServer, Stream, Std}
use kd_desk_tc.Relay.Pairs.{waits, relays, set_raw_pair, make_pair, usage_id}

-- A stream, switched to raw if both connections are plain TCP.
switched : Stream → Stream → Stream
switched x y = record x { raw = x.raw || (not x.is_ws && not y.is_ws) }

set_raw_pair-switched : (x y : Stream) → set_raw_pair x y ≡ (switched x y, switched y x)
unfolding set_raw_pair switched
set_raw_pair-switched x y = ground arith

module _ {F : Type 0} (std : Std F) (v w : World) (a b : Stream) (at_a at_b : SocketAddr)
    (key : Text) (ra rb : RequestRelay) (s : RelayServer F) where
  meets_set_raw_pair :
      ra.licence_key ≡ key
      → rb.licence_key ≡ key
      → ra.uuid ≡ rb.uuid
      → ra.uuid ≢ []
      → HashMap.get s.peers ra.uuid ≡ none
      → ((make_pair std v a at_a key (some ra) s).1 ≡ waits ra.uuid)
        × ((make_pair std w b at_b key (some rb) (make_pair std v a at_a key (some ra) s).0).1
            ≡ relays (set_raw_pair b a).0 (set_raw_pair b a).1 (usage_id std w at_b))
        × (HashMap.get
              (make_pair std w b at_b key
                (some rb)
                (make_pair std v a at_a key (some ra) s).0).0.peers
              ra.uuid
            ≡ none)
  unfolding make_pair
  meets_set_raw_pair h k e ne fresh = ground (
    arith,
    HashMap.get-insert_self (HashMap.remove s.peers ra.uuid) ra.uuid a,
    HashMap.get-remove_self (make_pair std v a at_a key (some ra) s).0.peers ra.uuid,
  )

  -- Two connections that ask, one after the other, with the key and under one uuid that is not
  -- empty and that nobody waits under: the first waits, the second is relayed with the first,
  -- each of them is raw if it was before or neither of them is a WebSocket and is otherwise as it
  -- was, and nobody waits under the uuid any more.
  pub make_pair-meets :
      ra.licence_key ≡ key
      → rb.licence_key ≡ key
      → ra.uuid ≡ rb.uuid
      → ra.uuid ≢ []
      → HashMap.get s.peers ra.uuid ≡ none
      → ((make_pair std v a at_a key (some ra) s).1 ≡ waits ra.uuid)
        × ((make_pair std w b at_b key (some rb) (make_pair std v a at_a key (some ra) s).0).1
            ≡ relays
                (record b { raw = b.raw || (not b.is_ws && not a.is_ws) })
                (record a { raw = a.raw || (not a.is_ws && not b.is_ws) })
                (usage_id std w at_b))
        × (HashMap.get
              (make_pair std w b at_b key
                (some rb)
                (make_pair std v a at_a key (some ra) s).0).0.peers
              ra.uuid
            ≡ none)
  unfolding switched
  make_pair-meets h k e ne fresh =
      let m = meets_set_raw_pair h k e ne fresh in
      (
        m.0,
        m.1
            ∙ ap (λ (p : Stream × Stream). relays p.0 p.1 (usage_id std w at_b))
                (set_raw_pair-switched b a),
        m.2,
      )

-- A connection is relayed only if the server has no key or the connection named it, and only with
-- the connection that waited under its uuid.
pub make_pair-relays :
    {F : Type 0} (std : Std F) (w : World) (stream x y : Stream) (addr : SocketAddr) (key id : Text)
    (rf : RequestRelay) (s : RelayServer F)
    → (make_pair std w stream addr key (some rf) s).1 ≡ relays x y id
    → ((key ≡ []) ⊎ (rf.licence_key ≡ key))
      × (peer : Stream) × (HashMap.get s.peers rf.uuid ≡ some peer)
      × ((x, y) ≡ set_raw_pair stream peer)
unfolding make_pair
make_pair-relays std w stream x y addr key id rf s h =
    elim (Option-cases (HashMap.get s.peers rf.uuid)) [
      | inl e ↦ absurd (ground arith)
      | inr (peer, e) ↦ (ground arith, peer, e, ground arith)
    ]
