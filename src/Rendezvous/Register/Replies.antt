-- ===== src/Rendezvous/Register/Replies.antt =====
-- How a registration of a key is answered.
use kd_desk_tc.Prelude.{
  ◌≡◌, ◌≢◌, ◌⊎◌, ap, ◌∙◌, refl, ne→==, le→ltb, ◌≤◌, length, arith, Bool, true, false, none, [], ◌∷◌,
  ◌++◌, list_eq,
}
use kd_desk_tc.Net.{SocketAddr}
use kd_desk_tc.Proto.{Text, RegisterPk, RegisterPkResult, register_pk_response}
use kd_desk_tc.World.{World}
use kd_desk_tc.HashMap
use kd_desk_tc.Database
use kd_desk_tc.Peer
use kd_desk_tc.Peer.{Peer, PeerMap}
use kd_desk_tc.Rendezvous.State.{RendezvousServer, final, send}
use kd_desk_tc.Blocker.{check_ip_blocker}
use kd_desk_tc.Rendezvous.Register.{register_known, register_pk, check_claim, matches}

-- A claim on an id that has a uuid is let through only if it names that uuid and either the key on
-- record or no other IP than the one on record.
check_claim_lem :
    (peer : Peer) (ip : Text) (rk : RegisterPk) (changed ip_changed : Bool)
    → peer.uuid ≢ []
    → check_claim peer ip rk ≡ matches changed ip_changed
    → (rk.uuid ≡ peer.uuid) × ((rk.pk ≡ peer.pk) ⊎ (ip ≡ peer.info.ip))
unfolding check_claim
check_claim_lem peer ip rk changed ip_changed h e = ground arith

-- Behind the checks on the request, an id that is not in memory gets OK from a database that is
-- down, if the answer can be sent, and the database is left as it was.
register_known-unstored :
    (w : World) (addr : SocketAddr) (rk : RegisterPk) (ip : Text) (s : RendezvousServer)
    → s.pm.db.up ≡ false
    → HashMap.get s.pm.map rk.id ≡ none
    → w.can_send (register_pk_response RegisterPkResult.ok) addr ≡ true
    → ((final (register_known w addr rk ip s)).udp
        ≡ s.udp ++ ((register_pk_response RegisterPkResult.ok, addr) ∷ []))
      × ((final (register_known w addr rk ip s)).pm.db ≡ s.pm.db)
unfolding register_known Peer.get_or Peer.update_pk Database.get_peer Database.insert_peer
    Database.update_pk send
register_known-unstored w addr rk ip s h e k = ground arith

-- A registration that passes the checks comes to `register_known`.
checked :
    (w : World) (addr : SocketAddr) (rk : RegisterPk) (s : RendezvousServer)
    → rk.uuid ≢ []
    → rk.pk ≢ []
    → 6 ≤ length rk.id
    → (check_ip_blocker w.now s.ip_blocker (w.ip_to_string addr.ip) rk.id).1 ≡ true
    → register_pk w addr rk s
      ≡ register_known w addr rk (w.ip_to_string addr.ip) (record s {
        ip_blocker = (check_ip_blocker w.now s.ip_blocker (w.ip_to_string addr.ip) rk.id).0;
      })
unfolding register_pk
checked w addr rk s hu hp hl hb =
    rw (register_pk, ne→== rk.uuid [] hu, ne→== rk.pk [] hp, le→ltb (length rk.id) 6 hl, hb) refl

-- A registration of a key for an id that is not in memory is answered with OK while the database is
-- down, and the database is left as it was. The uuid and the key are not empty, the id has at least
-- 6 bytes, the limit on the registrations of the address lets it through, and the answer can be
-- sent.
pub register_pk-unstored :
    (w : World) (addr : SocketAddr) (rk : RegisterPk) (s : RendezvousServer)
    → rk.uuid ≢ []
    → rk.pk ≢ []
    → 6 ≤ length rk.id
    → (check_ip_blocker w.now s.ip_blocker (w.ip_to_string addr.ip) rk.id).1 ≡ true
    → s.pm.db.up ≡ false
    → HashMap.get s.pm.map rk.id ≡ none
    → w.can_send (register_pk_response RegisterPkResult.ok) addr ≡ true
    → ((final (register_pk w addr rk s)).udp
        ≡ s.udp ++ ((register_pk_response RegisterPkResult.ok, addr) ∷ []))
      × ((final (register_pk w addr rk s)).pm.db ≡ s.pm.db)
register_pk-unstored w addr rk s hu hp hl hb h e k =
    let ip = w.ip_to_string addr.ip in
    let r =
      register_known-unstored w addr rk ip
        (record s { ip_blocker = (check_ip_blocker w.now s.ip_blocker ip rk.id).0 }) h e k in
    let p = checked w addr rk s hu hp hl hb in
    (ap (λ o. (final o).udp) p ∙ r.0, ap (λ o. (final o).pm.db) p ∙ r.1)
