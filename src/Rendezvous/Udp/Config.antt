-- ===== src/Rendezvous/Udp/Config.antt =====
-- Who can change the server's configuration.
use kd_desk_tc.Prelude.{◌≡◌, ◌≢◌, refl, ◌∙◌, arith, list_eq}
use kd_desk_tc.Net.{SocketAddr, addr_127, ip_eq}
use kd_desk_tc.Proto.{
  Text, RendezvousMessage, register_peer, register_peer_response, punch_hole_request, punch_hole,
  punch_hole_sent, punch_hole_response, fetch_local_addr, local_addr, configure_update, register_pk,
  register_pk_response, software_update, request_relay, relay_response, test_nat_request,
  test_nat_response, peer_discovery,
}
use kd_desk_tc.World.{World}
use kd_desk_tc.Rendezvous.State.{RendezvousServer, final, send, queue}
use kd_desk_tc.Rendezvous.Register
use kd_desk_tc.Rendezvous.Forward.{handle_hole_sent, handle_local_addr}
use kd_desk_tc.Rendezvous.Punch.{handle_udp_punch_hole_request, handle_punch_hole_request}
use kd_desk_tc.Rendezvous.Relays.{get_relay_server}
use kd_desk_tc.Rendezvous.Udp.{handle_udp}

abbrev pub SameConfig : RendezvousServer → RendezvousServer → Type 0
SameConfig s t = (t.inner ≡ s.inner) × (t.rendezvous_servers ≡ s.rendezvous_servers)

SameConfig-trans : (s t u : RendezvousServer) → SameConfig s t → SameConfig t u → SameConfig s u
SameConfig-trans s t u h k = (k.0 ∙ h.0, k.1 ∙ h.1)

register_pk-SameConfig :
    (w : World) (addr : SocketAddr) (rk : kd_desk_tc.Proto.RegisterPk) (s : RendezvousServer)
    → SameConfig s (final (Register.register_pk w addr rk s))
unfolding Register.register_pk send
register_pk-SameConfig w addr rk s = ground arith

-- A datagram from any other IP than 127.0.0.1 leaves the serial number, the other fixed settings
-- and the list of rendezvous servers as they are.
pub handle_udp-SameConfig :
    (w : World) (key : Text) (m : RendezvousMessage) (addr : SocketAddr) (s : RendezvousServer)
    → addr.ip ≢ addr_127
    → SameConfig s (final (handle_udp w key m addr s))
unfolding handle_udp
handle_udp-SameConfig w key (register_pk rk) addr s h = register_pk-SameConfig w addr rk s
handle_udp-SameConfig w key (register_peer rp) addr s h =
    unfold Register.update_addr send in ground arith
handle_udp-SameConfig w key (punch_hole_request ph) addr s h =
    unfold handle_udp_punch_hole_request handle_punch_hole_request get_relay_server queue in
    ground arith
handle_udp-SameConfig w key (punch_hole_sent phs) addr s h =
    unfold handle_hole_sent send in ground arith
handle_udp-SameConfig w key (local_addr la) addr s h = unfold handle_local_addr send in ground arith
handle_udp-SameConfig w key (configure_update cu) addr s h = ground arith
handle_udp-SameConfig w key (software_update url) addr s h = unfold send in ground arith
handle_udp-SameConfig w key m addr s h = (refl, refl)
