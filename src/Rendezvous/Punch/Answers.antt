-- ===== src/Rendezvous/Punch/Answers.antt =====
-- Who is told about a request for a connection, and what.
use kd_desk_tc.Prelude.{
  ℕ, ◌≡◌, ◌≢◌, ◌⊎◌, Option-cases, inl, inr, arith, Bool, true, false, some, List, [], list_eq,
  nat_eq,
}
use kd_desk_tc.Net.{Ipv4Addr, v4, SocketAddr, ip_eq, ipv4_eq, IsIpv4, IsPort}
use kd_desk_tc.Proto.{
  Text, RendezvousMessage, PunchHoleRequest, punch_hole, fetch_local_addr, request_relay,
}
use kd_desk_tc.World.{World}
use kd_desk_tc.Mangle
use kd_desk_tc.Mangle.RoundTrip.{decode-encode_addr}
use kd_desk_tc.Peer
use kd_desk_tc.Peer.{Peer}
use kd_desk_tc.Rendezvous.State.{RendezvousServer, Outcome, done}
use kd_desk_tc.Rendezvous.Relays.{get_relay_server, is_lan}
use kd_desk_tc.Rendezvous.Punch.{
  Answer, is_offline, wants_relay, choose_relay_for, direct, relay_or_direct, answer_online,
  answer_peer, handle_punch_hole_request,
}

-- What a message tells the peer at `to` about a requester at `addr`.
pub Names : Bool → SocketAddr → SocketAddr → RendezvousMessage → Type 0
Names relayed addr to (request_relay rr) = (relayed ≡ true) × (rr.relay_server ≢ [])
Names relayed addr to (punch_hole ph) = Mangle.decode ph.socket_addr ≡ some addr
Names relayed addr to (fetch_local_addr fa) =
    (Mangle.decode fa.socket_addr ≡ some addr) × (addr.ip ≡ to.ip)
Names relayed addr to m = ⊥

-- The handler returns, with a message for `to`.
pub Tells : Bool → SocketAddr → SocketAddr → Outcome Answer → Type 0
Tells relayed addr to (done (m, some a) t) = (a ≡ to) × Names relayed addr to m
Tells relayed addr to _ = ⊥

-- A request that is forwarded carries the server's key, where the server has one, and is sent to
-- the address of a peer that is known under the id and is not offline.
pub handle_punch_hole_request-forwards :
    (w : World) (key : Text) (ph : PunchHoleRequest) (addr : SocketAddr) (ws : Bool)
    (s t : RendezvousServer) (m : RendezvousMessage) (to : SocketAddr)
    → handle_punch_hole_request w key ph addr ws s ≡ done (m, some to) t
    → ((key ≡ []) ⊎ (ph.licence_key ≡ key))
      × (peer : Peer) × ((Peer.get w s.pm ph.id).1 ≡ some peer)
      × (is_offline w peer ≡ false)
      × (peer.socket_addr ≡ to)
unfolding handle_punch_hole_request get_relay_server
handle_punch_hole_request-forwards w key ph addr ws s t m to h =
    elim (Option-cases (Peer.get w s.pm ph.id).1) [
      | inl e ↦ absurd (ground arith)
      | inr (peer, e) ↦ (ground arith, peer, e, ground arith, ground arith)
    ]

module _ (w : World) (ph : PunchHoleRequest) (addr : SocketAddr) (ws : Bool) (to : SocketAddr)
    (bytes : List ℕ) (e : Mangle.encode w.micros addr ≡ some bytes)
    (d : Mangle.decode bytes ≡ some addr) where
  direct-Tells :
      (relayed : Bool) (s : RendezvousServer) → Tells relayed addr to (direct w ph addr to ws s)
  unfolding direct get_relay_server Tells Names
  direct-Tells relayed s = ground arith

  answer_online-Tells :
      (s : RendezvousServer)
      → Tells (wants_relay s addr to) addr to (answer_online w ph addr to ws s)
  unfolding answer_online relay_or_direct choose_relay_for get_relay_server Tells Names
  answer_online-Tells s = ground (arith, direct-Tells (wants_relay s addr to))

-- A peer that is known and online is told of every IPv4 requester who sends the server's key or
-- meets a server without one: the handler returns, its message is for the address of the peer, and
-- it names a relay server, if relaying is called for, or carries the address of the requester in
-- the mangled form, from which it decodes.
pub handle_punch_hole_request-reaches :
    (w : World) (key : Text) (ph : PunchHoleRequest) (x : Ipv4Addr) (port : ℕ) (ws : Bool)
    (s : RendezvousServer) (peer : Peer)
    → IsIpv4 x
    → IsPort port
    → (key ≡ []) ⊎ (ph.licence_key ≡ key)
    → (Peer.get w s.pm ph.id).1 ≡ some peer
    → is_offline w peer ≡ false
    → Tells
        (wants_relay s (record { ip = v4 x; port = port }) peer.socket_addr)
        (record { ip = v4 x; port = port })
        peer.socket_addr
        (handle_punch_hole_request w key ph (record { ip = v4 x; port = port }) ws s)
unfolding handle_punch_hole_request answer_peer wants_relay is_lan
handle_punch_hole_request-reaches w key ph x port ws s peer hx hp hk hg ho =
    let r = decode-encode_addr w.micros x port hx hp in
    ground (
      arith,
      answer_online-Tells w ph (record { ip = v4 x; port = port }) ws peer.socket_addr r.0 r.1 r.3
          (record s { pm = (Peer.get w s.pm ph.id).0 }),
    )
