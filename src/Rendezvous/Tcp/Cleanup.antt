-- ===== src/Rendezvous/Tcp/Cleanup.antt =====
-- What a connection leaves behind in the table of waiting connections.
use kd_desk_tc.Prelude.{
  ◌≡◌, refl, arith, sym, subst, ◌⊎◌, inl, inr, Bool, true, false, Option, none, some, List, [], ◌∷◌,
}
use kd_desk_tc.Net.{SocketAddr, addr_eq}
use kd_desk_tc.Proto.{
  Text, punch_hole_request, request_relay, relay_response, punch_hole_sent, local_addr,
  test_nat_request, register_pk, PunchHoleRequest, RelayResponse, RequestRelay,
}
use kd_desk_tc.World.{World}
use kd_desk_tc.HashMap
use kd_desk_tc.Rendezvous.State.{
  RendezvousServer, Sink, Outcome, M, done, failed, panicked, final, queue,
}
use kd_desk_tc.Rendezvous.Relays.{get_relay_server}
use kd_desk_tc.Rendezvous.Forward.{send_to_tcp, get_pk}
use kd_desk_tc.Rendezvous.Forward.Once.{
  waiting, Fewer, Fewer-trans, handle_hole_sent-Fewer, handle_local_addr-Fewer,
}
use kd_desk_tc.Rendezvous.Punch.{handle_tcp_punch_hole_request, handle_punch_hole_request}
use kd_desk_tc.Rendezvous.Tcp.{
  Kept, Frame, binary, other, on_request_relay, on_relay_response, handle_frame, go_on, serve,
  handle_listener_inner,
}

punch-Fewer :
    (w : World) (key : Text) (ph : PunchHoleRequest) (addr : SocketAddr) (ws : Bool)
    (s : RendezvousServer) (b : SocketAddr)
    → Fewer (waiting s b) (waiting (final (handle_tcp_punch_hole_request w key ph addr ws s)) b)
unfolding handle_tcp_punch_hole_request handle_punch_hole_request get_relay_server queue
punch-Fewer w key ph addr ws s b = ground (arith, HashMap.get-remove s.tcp_punch addr b)

relay_response-Fewer :
    (w : World) (rr : RelayResponse) (s : RendezvousServer) (b : SocketAddr)
    → Fewer (waiting s b) (waiting (final (on_relay_response w rr s)) b)
unfolding on_relay_response get_pk send_to_tcp
relay_response-Fewer w rr s b = grind (arith, HashMap.get-remove)

request_relay-Fewer :
    (w : World) (rf : RequestRelay) (addr : SocketAddr) (s : RendezvousServer) (b : SocketAddr)
    → Fewer (waiting s b) (waiting (final (on_request_relay w rf addr s)) b)
unfolding on_request_relay queue
request_relay-Fewer w rf addr s b = ground arith

-- Of the entry of `b`, before and after a step that was given a sink and leaves `kept` of it: it is
-- as it was or gone, or it is the connection's own, whose sink has been given away.
abbrev Left : SocketAddr → SocketAddr → Option Sink → RendezvousServer → RendezvousServer → Type 0
Left addr b kept s t = Fewer (waiting s b) (waiting t b) ⊎ ((b ≡ addr) × (kept ≡ none))

abbrev LeftBy : SocketAddr → SocketAddr → RendezvousServer → Outcome Kept → Type 0
LeftBy addr b s (done kept t) = Left addr b kept.1 s t
LeftBy addr b s (failed t) = Unit {0}
LeftBy addr b s (panicked t) = Unit {0}

handle_frame-Left :
    (w : World) (key : Text) (frame : Frame) (sink : Option Sink) (addr : SocketAddr) (ws : Bool)
    (s : RendezvousServer) (b : SocketAddr)
    → LeftBy addr b s (handle_frame w key frame sink addr ws s)
unfolding handle_frame
handle_frame-Left w key (binary none) sink addr ws s b = inl (inl refl)
handle_frame-Left w key other sink addr ws s b = inl (inl refl)
handle_frame-Left w key (binary (some (punch_hole_request ph))) none addr ws s b =
    ground (arith, punch-Fewer w key ph addr ws s b)
handle_frame-Left w key (binary (some (punch_hole_request ph))) (some k) addr ws s b = ground (
  arith,
  HashMap.get-insert s.tcp_punch addr k b,
  punch-Fewer w key ph addr ws (record s { tcp_punch = HashMap.insert s.tcp_punch addr k }) b,
)
handle_frame-Left w key (binary (some (request_relay rf))) none addr ws s b =
    ground (arith, request_relay-Fewer w rf addr s b)
handle_frame-Left w key (binary (some (request_relay rf))) (some k) addr ws s b = ground (
  arith,
  HashMap.get-insert s.tcp_punch addr k b,
  request_relay-Fewer w rf addr (record s { tcp_punch = HashMap.insert s.tcp_punch addr k }) b,
)
handle_frame-Left w key (binary (some (relay_response rr))) sink addr ws s b =
    ground (arith, relay_response-Fewer w rr s b)
handle_frame-Left w key (binary (some (punch_hole_sent phs))) sink addr ws s b =
    ground (arith, handle_hole_sent-Fewer w phs addr false s b)
handle_frame-Left w key (binary (some (local_addr la))) sink addr ws s b =
    ground (arith, handle_local_addr-Fewer w la addr false s b)
handle_frame-Left w key (binary (some (test_nat_request n))) sink addr ws s b = ground arith
handle_frame-Left w key (binary (some (register_pk rk))) sink addr ws s b = ground arith
handle_frame-Left w key (binary (some m)) sink addr ws s b = inl (inl refl)

KeptBy : Outcome Kept → Type 0
KeptBy (done kept t) = kept.1 ≡ none
KeptBy (failed t) = Unit {0}
KeptBy (panicked t) = Unit {0}

-- A sink that has been given away does not come back.
handle_frame-none :
    (w : World) (key : Text) (frame : Frame) (addr : SocketAddr) (ws : Bool) (s : RendezvousServer)
    → KeptBy (handle_frame w key frame none addr ws s)
unfolding handle_frame KeptBy
handle_frame-none w key (binary none) addr ws s = refl
handle_frame-none w key other addr ws s = refl
handle_frame-none w key (binary (some (punch_hole_request ph))) addr ws s = ground arith
handle_frame-none w key (binary (some (request_relay rf))) addr ws s = ground arith
handle_frame-none w key (binary (some (relay_response rr))) addr ws s = ground arith
handle_frame-none w key (binary (some (punch_hole_sent phs))) addr ws s = ground arith
handle_frame-none w key (binary (some (local_addr la))) addr ws s = ground arith
handle_frame-none w key (binary (some m)) addr ws s = refl

abbrev KeptNone : Outcome (Option Sink) → Type 0
KeptNone (done k t) = k ≡ none
KeptNone (failed t) = Unit {0}
KeptNone (panicked t) = Unit {0}

serve-none :
    (key : Text) (frames : List (World × Frame)) (addr : SocketAddr) (ws : Bool)
    (s : RendezvousServer)
    → KeptNone (serve key frames none addr ws s)
unfolding serve KeptBy
serve-none key [] addr ws s = refl
serve-none key ((w, frame) ∷ rest) addr ws s =
    go_on-none (λ kept. serve key rest kept addr ws) (serve-none key rest addr ws)
      (handle_frame w key frame none addr ws s) (handle_frame-none w key frame addr ws s)
  where
    go_on-none :
        (more : Option Sink → M (Option Sink))
        → ((s : RendezvousServer) → KeptNone (more none s))
        → (o : Outcome Kept) → KeptBy o
        → KeptNone (go_on more o)
    go_on-none more ih (done (true, k) s) h = subst (λ k'. KeptNone (more k' s)) (sym h) (ih s)
    go_on-none more ih (done (false, k) s) h = h
    go_on-none more ih (failed s) h = tt
    go_on-none more ih (panicked s) h = tt

abbrev LeftAt : SocketAddr → SocketAddr → RendezvousServer → Outcome (Option Sink) → Type 0
LeftAt addr b s (done kept t) = Left addr b kept s t
LeftAt addr b s (failed t) = Unit {0}
LeftAt addr b s (panicked t) = Unit {0}

serve-Left :
    (key : Text) (frames : List (World × Frame)) (sink : Option Sink) (addr : SocketAddr)
    (ws : Bool) (s : RendezvousServer) (b : SocketAddr)
    → LeftAt addr b s (serve key frames sink addr ws s)
unfolding serve
serve-Left key [] sink addr ws s b = inl (inl refl)
serve-Left key ((w, frame) ∷ rest) sink addr ws s b =
    go_on-Left (λ kept t. serve-Left key rest kept addr ws t b)
      (handle_frame w key frame sink addr ws s) (handle_frame-Left w key frame sink addr ws s b)
  where
    further :
        (t : RendezvousServer) (kept : Option Sink) (o : Outcome (Option Sink))
        → Left addr b kept s t
        → (kept ≡ none → KeptNone o)
        → LeftAt addr b t o
        → LeftAt addr b s o
    further t kept (done k u) (inl f) n (inl g) =
        inl (Fewer-trans (waiting s b) (waiting t b) (waiting u b) f g)
    further t kept (done k u) (inl f) n (inr own) = inr own
    further t kept (done k u) (inr own) n l = inr (own.0, n own.1)
    further t kept (failed u) h n l = tt
    further t kept (panicked u) h n l = tt

    go_on-Left :
        ((kept : Option Sink) (t : RendezvousServer)
          → LeftAt addr b t (serve key rest kept addr ws t))
        → (o : Outcome Kept) → LeftBy addr b s o
        → LeftAt addr b s (go_on (λ kept. serve key rest kept addr ws) o)
    go_on-Left ih (done (true, k) t) h =
        further t k (serve key rest k addr ws t) h (λ e. rw e (serve-none key rest addr ws t))
          (ih k t)
    go_on-Left ih (done (false, k) t) h = h
    go_on-Left ih (failed t) h = tt
    go_on-Left ih (panicked t) h = tt

-- When a connection whose address had no entry in the table of waiting connections ends without a
-- panic, every entry of the table is as it was or gone, whatever the connection sent.
pub handle_listener_inner-Fewer :
    (key : Text) (frames : List (World × Frame)) (sink : Sink) (addr : SocketAddr) (ws : Bool)
    (s t : RendezvousServer) (b : SocketAddr)
    → waiting s addr ≡ none
    → handle_listener_inner key frames sink addr ws s ≡ done tt t
    → Fewer (waiting s b) (waiting t b)
unfolding handle_listener_inner
handle_listener_inner-Fewer key frames sink addr ws s t b fresh h = ground (
  arith,
  serve-Left key frames (some sink) addr ws s b,
  HashMap.get-remove (final (serve key frames (some sink) addr ws s)).tcp_punch addr b,
)
