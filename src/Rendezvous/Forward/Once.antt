-- ===== src/Rendezvous/Forward/Once.antt =====
-- The connections that wait for an answer: an answer takes one away, and none is ever added.
use kd_desk_tc.Prelude.{◌≡◌, arith, ◌⊎◌, inl, inr, Bool, Option, none, some, [], ◌∷◌, ◌++◌, ◌∙◌}
use kd_desk_tc.Net.{SocketAddr, addr_eq}
use kd_desk_tc.Proto.{Text, RendezvousMessage, PunchHoleSent, LocalAddr}
use kd_desk_tc.World.{World}
use kd_desk_tc.HashMap
use kd_desk_tc.Rendezvous.State.{RendezvousServer, Sink, final, ◌>>◌, send}
use kd_desk_tc.Rendezvous.Forward.{send_to_tcp, get_pk, handle_hole_sent, handle_local_addr}

-- The connection that waits for an answer to an address.
abbrev pub waiting : RendezvousServer → SocketAddr → Option Sink
waiting s b = HashMap.get s.tcp_punch b

abbrev pub Fewer : Option Sink → Option Sink → Type 0
Fewer o o' = (o' ≡ o) ⊎ (o' ≡ none)

pub Fewer-trans : (a b c : Option Sink) → Fewer a b → Fewer b c → Fewer a c
Fewer-trans a b c (inl h) (inl k) = inl (k ∙ h)
Fewer-trans a b c (inr h) (inl k) = inr (k ∙ h)
Fewer-trans a b c h (inr k) = inr k

-- An answer is written to the connection that waits for it and takes it out of the table, and a
-- second answer to the same address does nothing.
send_to_tcp_twice :
    (m n : RendezvousMessage) (addr : SocketAddr) (s : RendezvousServer) (sink : Sink)
    → waiting s addr ≡ some sink
    → ((final (send_to_tcp m addr s)).sunk ≡ s.sunk ++ ((sink, m) ∷ []))
      × (waiting (final (send_to_tcp m addr s)) addr ≡ none)
      × ((send_to_tcp m addr >> send_to_tcp n addr) s ≡ send_to_tcp m addr s)
unfolding send_to_tcp
send_to_tcp_twice m n addr s sink h =
    ground (arith, HashMap.get-remove_self s.tcp_punch addr, HashMap.remove-remove s.tcp_punch addr)

pub send_to_tcp-Fewer :
    (m : RendezvousMessage) (addr : SocketAddr) (s : RendezvousServer) (b : SocketAddr)
    → Fewer (waiting s b) (waiting (final (send_to_tcp m addr s)) b)
unfolding send_to_tcp
send_to_tcp-Fewer m addr s b = ground (arith, HashMap.get-remove s.tcp_punch addr b)

pub get_pk-same :
    (w : World) (version id : Text) (s : RendezvousServer)
    → (final (get_pk w version id s)).tcp_punch ≡ s.tcp_punch
unfolding get_pk
get_pk-same w version id s = ground arith

pub handle_hole_sent-Fewer :
    (w : World) (phs : PunchHoleSent) (addr : SocketAddr) (by_udp : Bool) (s : RendezvousServer)
    (b : SocketAddr)
    → Fewer (waiting s b) (waiting (final (handle_hole_sent w phs addr by_udp s)) b)
unfolding handle_hole_sent send
handle_hole_sent-Fewer w phs addr by_udp s b = grind (arith, HashMap.get-remove)

pub handle_local_addr-Fewer :
    (w : World) (la : LocalAddr) (addr : SocketAddr) (by_udp : Bool) (s : RendezvousServer)
    (b : SocketAddr)
    → Fewer (waiting s b) (waiting (final (handle_local_addr w la addr by_udp s)) b)
unfolding handle_local_addr send
handle_local_addr-Fewer w la addr by_udp s b = grind (arith, HashMap.get-remove)
