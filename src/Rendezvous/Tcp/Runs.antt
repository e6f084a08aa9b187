-- ===== src/Rendezvous/Tcp/Runs.antt =====
-- An example for the life of a connection.
use kd_desk_tc.Prelude.{◌≡◌, refl, Bool, true, false, Option, none, some, List, [], ◌∷◌}
use kd_desk_tc.HashMap
use kd_desk_tc.Proto.{punch_hole_request}
use kd_desk_tc.World.{World}
use kd_desk_tc.Rendezvous.State.{RendezvousServer, Outcome, done, final}
use kd_desk_tc.Rendezvous.Samples.{world_at, host, server, punch_home}
use kd_desk_tc.Rendezvous.Forward.Once.{waiting, Fewer}
use kd_desk_tc.Rendezvous.Tcp.{Frame, binary, other, handle_listener_inner}
use kd_desk_tc.Rendezvous.Tcp.Cleanup.{handle_listener_inner-Fewer}

-- The connection 8 of `host 3` asks for `home`, whose answer goes to the main loop, and ends.
abbrev frames : List (World × Frame)
frames = (world_at 86402000, binary (some (punch_hole_request punch_home))) ∷ []

abbrev ended : RendezvousServer
ended = final (handle_listener_inner [] frames 8 (host 3) false server)

ended_done : handle_listener_inner [] frames 8 (host 3) false server ≡ done tt ended
unfolding handle_listener_inner kd_desk_tc.Rendezvous.Tcp.handle_frame
    kd_desk_tc.Rendezvous.Punch.handle_tcp_punch_hole_request
    kd_desk_tc.Rendezvous.Punch.handle_punch_hole_request kd_desk_tc.Prelude.list_discrete
    kd_desk_tc.Peer.get HashMap.get mathlib.Core.Bool.xor kd_desk_tc.Rendezvous.Relays.is_lan
    kd_desk_tc.Mangle.encode kd_desk_tc.Rendezvous.Relays.get_relay_server
    kd_desk_tc.Rendezvous.State.queue
ended_done = refl

handle_listener_inner-Fewer_example : Fewer (waiting server (host 3)) (waiting ended (host 3))
unfolding kd_desk_tc.Net.SocketAddr-discrete
handle_listener_inner-Fewer_example =
    handle_listener_inner-Fewer [] frames 8 (host 3) false server ended (host 3)
      (unfold HashMap.get in refl) ended_done
