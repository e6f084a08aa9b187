-- ===== src/Rendezvous/Udp/Identity.antt =====
-- Who can take over an id: nobody, once a uuid is registered for it.
use kd_desk_tc.Prelude.{◌≡◌, ◌≢◌, arith, some, [], list_eq}
use kd_desk_tc.Net.{SocketAddr}
use kd_desk_tc.Proto.{
  Text, RegisterPk, RegisterPeer, RendezvousMessage, register_peer, punch_hole_request,
  punch_hole_sent, local_addr, configure_update, register_pk, software_update,
}
use kd_desk_tc.World.{World}
use kd_desk_tc.HashMap
use kd_desk_tc.Blocker
use kd_desk_tc.Peer
use kd_desk_tc.Peer.{Peer, PeerMap}
use kd_desk_tc.Peer.Lookup.{
  uuid_at, get-uuid_at, get_or-uuid_at, get_or_found, update_pk-uuid_at, write-uuid_at,
}
use kd_desk_tc.Rendezvous.State.{
  RendezvousServer, Outcome, done, failed, panicked, bind, final, send, queue,
}
use kd_desk_tc.Rendezvous.Relays.{get_relay_server}
use kd_desk_tc.Rendezvous.Register
use kd_desk_tc.Rendezvous.Forward.{handle_hole_sent, handle_local_addr}
use kd_desk_tc.Rendezvous.Punch.{handle_udp_punch_hole_request, handle_punch_hole_request}
use kd_desk_tc.Rendezvous.Udp.{handle_udp, on_register_peer, send_config}

register_known-uuid_at :
    (w : World) (addr : SocketAddr) (rk : RegisterPk) (ip : Text) (s : RendezvousServer)
    (id u : Text)
    → uuid_at s.pm id ≡ some u
    → u ≢ []
    → uuid_at (final (Register.register_known w addr rk ip s)).pm id ≡ some u
unfolding Register.register_known send
register_known-uuid_at w addr rk ip s id u h k = grind (
  arith,
  get_or-uuid_at w s.pm rk.id id u h,
  get_or_found w s.pm rk.id,
  update_pk-uuid_at,
  write-uuid_at,
)

register_pk-uuid_at :
    (w : World) (addr : SocketAddr) (rk : RegisterPk) (s : RendezvousServer) (id u : Text)
    → uuid_at s.pm id ≡ some u
    → u ≢ []
    → uuid_at (final (Register.register_pk w addr rk s)).pm id ≡ some u
unfolding Register.register_pk send
register_pk-uuid_at w addr rk s id u h k = ground (
  arith,
  register_known-uuid_at w addr rk (w.ip_to_string addr.ip)
      (record s {
        ip_blocker = (Blocker.check_ip_blocker w.now s.ip_blocker (w.ip_to_string addr.ip) rk.id).0;
      })
      id u,
)

update_addr-uuid_at :
    (w : World) (j : Text) (addr : SocketAddr) (s : RendezvousServer) (id u : Text)
    → uuid_at s.pm id ≡ some u
    → uuid_at (final (Register.update_addr w j addr s)).pm id ≡ some u
unfolding Register.update_addr Peer.get_in_memory send
update_addr-uuid_at w j addr s id u h = grind (arith, HashMap.get-insert)

after_update :
    (w : World) (rp : RegisterPeer) (addr : SocketAddr) (s : RendezvousServer)
    (o : Outcome (Unit {0})) (id u : Text)
    → uuid_at (final o).pm id ≡ some u
    → uuid_at (final (bind o (λ _. send_config w rp.serial addr))).pm id ≡ some u
unfolding send_config send
after_update w rp addr s (done a t) id u h = ground arith
after_update w rp addr s (failed t) id u h = h
after_update w rp addr s (panicked t) id u h = h

on_register_peer-uuid_at :
    (w : World) (rp : RegisterPeer) (addr : SocketAddr) (s : RendezvousServer) (id u : Text)
    → uuid_at s.pm id ≡ some u
    → uuid_at (final (on_register_peer w rp addr s)).pm id ≡ some u
unfolding on_register_peer
on_register_peer-uuid_at w rp addr s id u h = ground (
  arith,
  after_update w rp addr s (Register.update_addr w rp.id addr s) id u
      (update_addr-uuid_at w rp.id addr s id u h),
)

-- No datagram, whoever sends it, changes the uuid that an id has in memory, once it has one that is
-- not empty.
pub handle_udp-uuid_at :
    (w : World) (key : Text) (m : RendezvousMessage) (addr : SocketAddr) (s : RendezvousServer)
    (id u : Text)
    → uuid_at s.pm id ≡ some u
    → u ≢ []
    → uuid_at (final (handle_udp w key m addr s)).pm id ≡ some u
unfolding handle_udp
handle_udp-uuid_at w key (register_pk rk) addr s id u h k = register_pk-uuid_at w addr rk s id u h k
handle_udp-uuid_at w key (register_peer rp) addr s id u h k =
    on_register_peer-uuid_at w rp addr s id u h
handle_udp-uuid_at w key (punch_hole_request ph) addr s id u h k =
    unfold handle_udp_punch_hole_request handle_punch_hole_request get_relay_server queue in
    ground (arith, get-uuid_at w s.pm ph.id id u h)
handle_udp-uuid_at w key (punch_hole_sent phs) addr s id u h k =
    unfold handle_hole_sent send in ground (arith, get-uuid_at w s.pm phs.id id u h)
handle_udp-uuid_at w key (local_addr la) addr s id u h k =
    unfold handle_local_addr send in ground (arith, get-uuid_at w s.pm la.id id u h)
handle_udp-uuid_at w key (configure_update cu) addr s id u h k = ground arith
handle_udp-uuid_at w key (software_update url) addr s id u h k = unfold send in ground arith
handle_udp-uuid_at w key m addr s id u h k = h
