-- ===== src/Rendezvous/Punch/Runs.antt =====
-- Tests and examples for requests for a connection.
use kd_desk_tc.Prelude.{
  ℕ, ◌≡◌, ◌⊎◌, ◌≤◌, ◌<◌, ◌-◌, ◌^◌, ◌↔◌, inl, inr, refl, Bool, true, false, none, some, List, [],
  ◌∷◌, arith,
}
use kd_desk_tc.Proto.{Text, RendezvousMessage, punch_hole_failure, Failure}
use kd_desk_tc.HashMap
use kd_desk_tc.Peer
use kd_desk_tc.Peer.{Peer}
use kd_desk_tc.Rendezvous.State.{RendezvousServer, done}
use kd_desk_tc.Rendezvous.Samples.{world_at, host, home, home_peer, server, punch_home}
use kd_desk_tc.Rendezvous.Punch.{is_offline, wants_relay, handle_punch_hole_request}
use kd_desk_tc.Rendezvous.Punch.Answers.{
  Tells, handle_punch_hole_request-forwards, handle_punch_hole_request-reaches,
}

wrong_key :
    handle_punch_hole_request (world_at 86402000) (1 ∷ []) punch_home (host 2) false server
    ≡ done (punch_hole_failure Failure.license_mismatch, none) server
unfolding handle_punch_hole_request kd_desk_tc.Prelude.list_discrete
wrong_key = refl

abbrev no_key : Text
no_key = []

abbrev relaying : RendezvousServer
relaying = record server { always_use_relay = true }

relayed :
    handle_punch_hole_request (world_at 86402000) no_key punch_home (host 2) false relaying
    ≡ done
        (kd_desk_tc.Proto.relay_via (115 ∷ []), some (host 1))
        (record relaying { rotation_relay_server = 1 })
unfolding handle_punch_hole_request kd_desk_tc.Prelude.list_discrete Peer.get HashMap.get
    kd_desk_tc.Rendezvous.Relays.is_lan kd_desk_tc.Rendezvous.Relays.get_relay_server
relayed = refl

handle_punch_hole_request-forwards_example :
    ((no_key ≡ []) ⊎ (punch_home.licence_key ≡ no_key))
    × (peer : Peer) × ((Peer.get (world_at 86402000) relaying.pm home).1 ≡ some peer)
    × (is_offline (world_at 86402000) peer ≡ false)
    × (peer.socket_addr ≡ host 1)
handle_punch_hole_request-forwards_example =
    handle_punch_hole_request-forwards (world_at 86402000) no_key punch_home (host 2) false relaying
      (record relaying { rotation_relay_server = 1 }) (kd_desk_tc.Proto.relay_via (115 ∷ []))
      (host 1) relayed

handle_punch_hole_request-reaches_example :
    Tells
      (wants_relay server (host 2) (host 1))
      (host 2)
      (host 1)
      (handle_punch_hole_request (world_at 86402000) [] punch_home (host 2) false server)
unfolding kd_desk_tc.Prelude.list_discrete
handle_punch_hole_request-reaches_example =
    handle_punch_hole_request-reaches (world_at 86402000) [] punch_home
      (record { a = 10; b = 0; c = 0; d = 2 }) 5000 false server home_peer
      (omega arith, omega arith, omega arith, omega arith) (omega arith) (inl refl)
      (unfold Peer.get HashMap.get in refl) (unfold is_offline in refl)
