-- ===== src/Rendezvous/Punch.antt =====
-- Requests for a connection: `handle_punch_hole_request`, and its callers for TCP and for UDP.
pub mod Answers
pub mod Online
mod Runs
use kd_desk_tc.Prelude.{
  ℕ, ◌+◌, ◌-◌, ◌*◌, ◌%◌, ◌^◌, Bool, true, false, not, ◌&&◌, ◌||◌, Option, none, some, List, [], ◌∷◌,
  ltb, leb, ◌==◌, list_eq, nat_eq, if◌then◌else◌,
}
use mathlib.Core.Bool.{xor}
use kd_desk_tc.Prelude.Int.{ℤ, pos, negsuc, ltb_ℤ}
use kd_desk_tc.Net.{Ipv4Addr, IpAddr, v4, v6, SocketAddr, ipv4_eq, ip_eq}
use kd_desk_tc.Proto.{
  Text, RendezvousMessage, PunchHoleRequest, PunchHole, FetchLocalAddr, punch_hole,
  fetch_local_addr, punch_hole_failure, relay_via, Failure,
}
use kd_desk_tc.World.{World}
use kd_desk_tc.Mangle
use kd_desk_tc.Peer
use kd_desk_tc.Peer.{Peer, PeerMap}
use kd_desk_tc.Rendezvous.State.{
  RendezvousServer, Data, M, Outcome, done, bind, ◌>>=◌, ◌>>◌, read, pure, or_panic, queue,
}
use kd_desk_tc.Rendezvous.Relays.{get_relay_server, is_lan}
use kd_desk_tc.Rendezvous.Forward.{send_to_tcp}

-- `x as i32` of a number that is not negative.
unfoldable pub as_i32 : ℕ → ℤ
as_i32 n = let w = n % 2 ^ 32 in if ltb w (2 ^ 31) then pos w else negsuc (2 ^ 32 - w - 1)

abbrev pub reg_timeout : ℤ
reg_timeout = pos 30000

-- `elapsed >= REG_TIMEOUT`
unfoldable pub is_offline : World → Peer → Bool
unfolding as_i32
is_offline w peer = not (ltb_ℤ (as_i32 (w.now - peer.last_reg_time)) reg_timeout)

abbrev pub Answer : Type 0
Answer = RendezvousMessage × Option SocketAddr

unfoldable pub wants_relay : RendezvousServer → SocketAddr → SocketAddr → Bool
wants_relay s addr peer_addr = s.always_use_relay || xor (is_lan s peer_addr) (is_lan s addr)

unfoldable choose_relay_for : RendezvousServer → SocketAddr → SocketAddr → M Text
choose_relay_for s addr peer_addr =
    if is_lan s peer_addr then pure s.inner.local_ip else get_relay_server addr.ip peer_addr.ip

-- Two addresses of one kind and equal.
abbrev same_ip : IpAddr → IpAddr → Bool
same_ip (v4 a) (v4 b) = a == b
same_ip (v6 a) (v6 b) = a == b
same_ip _ _ = false

-- The end of the function: the peer fetches its local address, or punches a hole.
unfoldable direct : World → PunchHoleRequest → SocketAddr → SocketAddr → Bool → M Answer
direct w ph addr peer_addr ws = do
  socket_addr ← or_panic (Mangle.encode w.micros addr)
  relay_server ← get_relay_server addr.ip peer_addr.ip
  pure (
    if (not ws && same_ip peer_addr.ip addr.ip)
        then fetch_local_addr (record { socket_addr = socket_addr; relay_server = relay_server })
        else punch_hole (record {
          socket_addr = socket_addr;
          relay_server = relay_server;
          nat_type = ph.nat_type;
        }),
    some peer_addr,
  )

unfoldable relay_or_direct :
    World → PunchHoleRequest → SocketAddr → SocketAddr → Bool → Text → M Answer
unfolding direct
relay_or_direct w ph addr peer_addr ws relay_server =
    if relay_server == []
    then direct w ph addr peer_addr ws
    else pure (relay_via relay_server, some peer_addr)

unfoldable answer_online : World → PunchHoleRequest → SocketAddr → SocketAddr → Bool → M Answer
unfolding relay_or_direct choose_relay_for wants_relay
answer_online w ph addr peer_addr ws s =
    if wants_relay s addr peer_addr
    then bind (choose_relay_for s addr peer_addr s) (relay_or_direct w ph addr peer_addr ws)
    else direct w ph addr peer_addr ws s

unfoldable pub answer_peer : World → PunchHoleRequest → SocketAddr → Bool → Option Peer → M Answer
unfolding answer_online is_offline
answer_peer w ph addr ws none = pure (punch_hole_failure Failure.id_not_exist, none)
answer_peer w ph addr ws (some peer) =
    if is_offline w peer
    then pure (punch_hole_failure Failure.offline, none)
    else answer_online w ph addr peer.socket_addr ws

-- The message, and whom it is for; none means the one who asked.
unfoldable pub handle_punch_hole_request :
    World → Text → PunchHoleRequest → SocketAddr → Bool → M Answer
unfolding answer_peer
handle_punch_hole_request w key ph addr ws s =
    if (not (key == []) && not (ph.licence_key == key))
    then done (punch_hole_failure Failure.license_mismatch, none) s
    else (let r = Peer.get w s.pm ph.id in answer_peer w ph addr ws r.1 (record s { pm = r.0 }))

deliver_tcp : SocketAddr → Answer → M (Unit {0})
unfolding send_to_tcp
deliver_tcp addr (m, some to) = queue (Data.msg m to)
deliver_tcp addr (m, none) = send_to_tcp m addr

unfoldable pub handle_tcp_punch_hole_request :
    World → Text → PunchHoleRequest → SocketAddr → Bool → M (Unit {0})
unfolding deliver_tcp
handle_tcp_punch_hole_request w key ph addr ws =
    handle_punch_hole_request w key ph addr ws >>= deliver_tcp addr

deliver_udp : SocketAddr → Answer → M (Unit {0})
deliver_udp addr (m, some to) = queue (Data.msg m to)
deliver_udp addr (m, none) = queue (Data.msg m addr)

unfoldable pub handle_udp_punch_hole_request :
    World → Text → PunchHoleRequest → SocketAddr → M (Unit {0})
unfolding deliver_udp
handle_udp_punch_hole_request w key ph addr =
    handle_punch_hole_request w key ph addr false >>= deliver_udp addr
