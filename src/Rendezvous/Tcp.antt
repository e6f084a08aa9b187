-- ===== src/Rendezvous/Tcp.antt =====
-- `handle_tcp`, and `handle_listener_inner`, the life of one TCP or WebSocket connection.
pub mod Cleanup
mod Runs
use kd_desk_tc.Prelude.{
  ℕ, Bool, true, false, not, ◌&&◌, Option, none, some, List, [], ◌∷◌, ◌==◌, list_eq, if◌then◌else◌,
}
use kd_desk_tc.Prelude.Int.{ℤ, ltb_ℤ}
use kd_desk_tc.Net.{SocketAddr, addr_eq}
use kd_desk_tc.Proto.{
  Text, RendezvousMessage, punch_hole_request, request_relay, relay_response, punch_hole_sent,
  local_addr, test_nat_request, test_nat_response, register_pk, register_pk_response,
  PunchHoleRequest, RequestRelay, RelayResponse, RelayUnion, RegisterPkResult, ConfigUpdate,
}
use kd_desk_tc.World.{World}
use kd_desk_tc.HashMap
use kd_desk_tc.Mangle
use kd_desk_tc.Peer
use kd_desk_tc.Peer.{Peer}
use kd_desk_tc.Rendezvous.State.{
  RendezvousServer, Sink, Data, Outcome, M, done, failed, panicked, bind, ◌>>=◌, ◌>>◌, read, modify,
  pure, or_panic, queue, allow_err,
}
use kd_desk_tc.Rendezvous.Relays.{is_lan}
use kd_desk_tc.Rendezvous.Forward.{
  send_to_tcp, send_to_sink, get_pk, handle_hole_sent, handle_local_addr,
}
use kd_desk_tc.Rendezvous.Punch.{handle_tcp_punch_hole_request}

-- `if let Some(sink) = sink.take()`: the connection waits for an answer to its address.
unfoldable pub park : SocketAddr → Option Sink → M (Unit {0})
park addr none s = done tt s
park addr (some sink) s = done tt (record s { tcp_punch = HashMap.insert s.tcp_punch addr sink })

forward_relay : World → RequestRelay → SocketAddr → Option Peer → M (Unit {0})
forward_relay w rf addr none = pure tt
forward_relay w rf addr (some peer) = do
  socket_addr ← or_panic (Mangle.encode w.micros addr)
  queue (Data.msg (request_relay (record rf { socket_addr = socket_addr })) peer.socket_addr)

unfoldable pub on_request_relay : World → RequestRelay → SocketAddr → M (Unit {0})
unfolding forward_relay
on_request_relay w rf addr s = forward_relay w rf addr (Peer.get_in_memory s.pm rf.id) s

-- `rr.get_id()`
abbrev relay_id : RelayUnion → Text
relay_id RelayUnion.unset = []
relay_id (RelayUnion.id i) = i
relay_id (RelayUnion.pk k) = []

with_pk : World → RelayResponse → M RelayResponse
with_pk w rr = if relay_id rr.union == [] then pure rr else do
  pk ← get_pk w rr.version (relay_id rr.union)
  pure (record rr { union = RelayUnion.pk pk })

local_relay : RendezvousServer → SocketAddr → RelayResponse → RelayResponse
local_relay s addr_b rr =
    if is_lan s addr_b then record rr { relay_server = s.inner.local_ip } else rr

unfoldable pub on_relay_response : World → RelayResponse → M (Unit {0})
unfolding with_pk local_relay
on_relay_response w rr = do
  addr_b ← or_panic (Mangle.decode rr.socket_addr)
  signed ← with_pk w (record rr { socket_addr = [] })
  s ← read
  send_to_tcp (relay_response (local_relay s addr_b signed)) addr_b

newer_config : RendezvousServer → ℤ → Option ConfigUpdate
newer_config s serial =
    if ltb_ℤ serial s.inner.serial
    then some (record { serial = s.inner.serial; rendezvous_servers = s.rendezvous_servers })
    else none

unfoldable pub on_test_nat_request : ℤ → SocketAddr → Option Sink → M (Unit {0})
unfolding newer_config
on_test_nat_request serial addr sink s =
    send_to_sink sink (test_nat_response (record { port = addr.port; cu = newer_config s serial }))
      s

-- What the arm returns: whether the connection is kept open, and what is left of its sink.
abbrev pub Kept : Type 0
Kept = Bool × Option Sink

unfoldable pub handle_tcp :
    World → Text → RendezvousMessage → Option Sink → SocketAddr → Bool → M Kept
unfolding park on_request_relay on_relay_response on_test_nat_request
handle_tcp w key (punch_hole_request ph) sink addr ws = do
  park addr sink
  allow_err (handle_tcp_punch_hole_request w key ph addr ws)
  pure (true, none)
handle_tcp w key (request_relay rf) sink addr ws = do
  park addr sink
  on_request_relay w rf addr
  pure (true, none)
handle_tcp w key (relay_response rr) sink addr ws = do
  allow_err (on_relay_response w rr)
  pure (false, sink)
handle_tcp w key (punch_hole_sent phs) sink addr ws = do
  allow_err (handle_hole_sent w phs addr false)
  pure (false, sink)
handle_tcp w key (local_addr la) sink addr ws = do
  allow_err (handle_local_addr w la addr false)
  pure (false, sink)
handle_tcp w key (test_nat_request serial) sink addr ws = do
  on_test_nat_request serial addr sink
  pure (false, sink)
handle_tcp w key (register_pk rk) sink addr ws = do
  send_to_sink sink (register_pk_response RegisterPkResult.not_support)
  pure (false, sink)
handle_tcp w key m sink addr ws = pure (false, sink)

-- What comes in on a connection: bytes that parse as a message or do not, or, on a WebSocket,
-- something that is not binary, which is passed over.
pub data Frame : Type 0 where
  binary : Option RendezvousMessage → Frame
  other : Frame

-- One round of the loop.
unfoldable pub handle_frame : World → Text → Frame → Option Sink → SocketAddr → Bool → M Kept
unfolding handle_tcp
handle_frame w key (binary none) sink addr ws = pure (false, sink)
handle_frame w key (binary (some m)) sink addr ws = handle_tcp w key m sink addr ws
handle_frame w key other sink addr ws = pure (true, sink)

-- The loop goes on with what is left of the sink, or breaks.
abbrev go_on : (Option Sink → M (Option Sink)) → Outcome Kept → Outcome (Option Sink)
go_on more (done (true, sink) s) = more sink s
go_on more (done (false, sink) s) = done sink s
go_on more (failed s) = failed s
go_on more (panicked s) = panicked s

-- The frames until the stream ends, times out, or a frame closes it. The clocks move on between
-- frames, so each frame has its own world.
unfoldable serve : Text → List (World × Frame) → Option Sink → SocketAddr → Bool → M (Option Sink)
serve key [] sink addr ws s = done sink s
serve key ((w, frame) ∷ rest) sink addr ws s =
    go_on (λ kept. serve key rest kept addr ws) (handle_frame w key frame sink addr ws s)

unfoldable close : SocketAddr → Option Sink → M (Unit {0})
close addr none s = done tt (record s { tcp_punch = HashMap.remove s.tcp_punch addr })
close addr (some sink) s = done tt s

unfoldable pub handle_listener_inner :
    Text → List (World × Frame) → Sink → SocketAddr → Bool → M (Unit {0})
unfolding serve close
handle_listener_inner key frames sink addr ws = serve key frames (some sink) addr ws >>= close addr
