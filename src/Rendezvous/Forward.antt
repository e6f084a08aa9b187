-- ===== src/Rendezvous/Forward.antt =====
-- Answers on their way back: `send_to_tcp`, `send_to_sink`, `send_to_tcp_sync`, `get_pk`,
-- `handle_hole_sent` and `handle_local_addr`. A task that is spawned to write to a sink has done so
-- when the handler returns, and what a closed sink loses is not told apart.
pub mod Once
use kd_desk_tc.Prelude.{
  ℕ, Bool, true, false, Option, none, some, List, [], ◌∷◌, ◌++◌, ◌==◌, list_eq, if◌then◌else◌,
}
use kd_desk_tc.Net.{SocketAddr, addr_eq}
use kd_desk_tc.Proto.{
  Text, RendezvousMessage, PunchHoleSent, LocalAddr, PunchHoleResponse, punch_hole_response,
  PunchUnion, NatType, enum_value, Failure,
}
use kd_desk_tc.World.{World}
use kd_desk_tc.HashMap
use kd_desk_tc.Mangle
use kd_desk_tc.Peer
use kd_desk_tc.Peer.{Peer, PeerMap}
use kd_desk_tc.Rendezvous.State.{
  RendezvousServer, Sink, M, Outcome, done, bind, ◌>>=◌, ◌>>◌, read, or_panic, send,
}

abbrev pub send_to_sink : Option Sink → RendezvousMessage → M (Unit {0})
send_to_sink none m s = done tt s
send_to_sink (some sink) m s = done tt (record s { sunk = s.sunk ++ ((sink, m) ∷ []) })

-- `send_to_tcp` and `send_to_tcp_sync`: the sink that waits for the address is taken out.
unfoldable pub send_to_tcp : RendezvousMessage → SocketAddr → M (Unit {0})
send_to_tcp m addr s =
    send_to_sink (HashMap.get s.tcp_punch addr) m
      (record s { tcp_punch = HashMap.remove s.tcp_punch addr })

sign_peer : World → Text → Text → Option Peer → Text
sign_peer w sk id none = []
sign_peer w sk id (some peer) = w.sign_id_pk sk id peer.pk

sign_known : World → Text → Option Text → M Text
unfolding sign_peer
sign_known w id none s = done [] s
sign_known w id (some sk) s =
    let r = Peer.get w s.pm id in done (sign_peer w sk id r.1) (record s { pm = r.0 })

unfoldable pub get_pk : World → Text → Text → M Text
unfolding sign_known
get_pk w version id s = if version == [] then done [] s else sign_known w id s.inner.sk s

-- By UDP if the message came that way, and otherwise to the waiting connection.
unfoldable pub reply : World → Bool → RendezvousMessage → SocketAddr → M (Unit {0})
unfolding send_to_tcp
reply w true m addr = send w m addr
reply w false m addr = send_to_tcp m addr

nat_union : Option NatType → PunchUnion
nat_union none = PunchUnion.unset
nat_union (some t) = PunchUnion.nat_type t

unfoldable pub handle_hole_sent : World → PunchHoleSent → SocketAddr → Bool → M (Unit {0})
unfolding get_pk reply nat_union
handle_hole_sent w phs addr by_udp = do
  addr_a ← or_panic (Mangle.decode phs.socket_addr)
  socket_addr ← or_panic (Mangle.encode w.micros addr)
  pk ← get_pk w phs.version phs.id
  reply w by_udp
      (punch_hole_response (record {
        socket_addr = socket_addr;
        pk = pk;
        failure = Failure.id_not_exist;
        relay_server = phs.relay_server;
        union = nat_union (enum_value phs.nat_type);
        other_failure = [];
      }))
      addr_a

unfoldable pub handle_local_addr : World → LocalAddr → SocketAddr → Bool → M (Unit {0})
unfolding get_pk reply
handle_local_addr w la addr by_udp = do
  addr_a ← or_panic (Mangle.decode la.socket_addr)
  pk ← get_pk w la.version la.id
  reply w by_udp
      (punch_hole_response (record {
        socket_addr = la.local_addr;
        pk = pk;
        failure = Failure.id_not_exist;
        relay_server = la.relay_server;
        union = PunchUnion.is_local true;
        other_failure = [];
      }))
      addr_a
