-- ===== src/Rendezvous/Udp/Runs.antt =====
-- Examples for datagrams.
use kd_desk_tc.Prelude.{◌≡◌, ◌≢◌, refl, Option, none, some, List, [], ◌∷◌}
use kd_desk_tc.Prelude.Int.{pos}
use kd_desk_tc.HashMap
use kd_desk_tc.Proto.{configure_update, register_pk}
use kd_desk_tc.Rendezvous.State.{final}
use kd_desk_tc.Rendezvous.Samples.{world_at, host, home, server, claim_home}
use kd_desk_tc.Rendezvous.Udp.{handle_udp}
use kd_desk_tc.Rendezvous.Udp.Config.{SameConfig, handle_udp-SameConfig}
use kd_desk_tc.Rendezvous.Udp.Identity.{handle_udp-uuid_at}
use kd_desk_tc.Peer.Lookup.{uuid_at}

-- A newer configuration from `host 4`.
handle_udp-SameConfig_example : SameConfig server (
    final (
      handle_udp
        (world_at 86402000)
        []
        (configure_update (record { serial = pos 9; rendezvous_servers = (1 ∷ []) ∷ [] }))
        (host 4)
        server))
handle_udp-SameConfig_example =
    handle_udp-SameConfig (world_at 86402000) []
      (configure_update (record { serial = pos 9; rendezvous_servers = (1 ∷ []) ∷ [] })) (host 4)
      server (λ e. ground kd_desk_tc.Prelude.arith)

-- A registration of `home` from `host 4`.
handle_udp-uuid_at_example :
    uuid_at
      (final (handle_udp (world_at 86402000) [] (register_pk claim_home) (host 4) server)).pm
      home
    ≡ some (1 ∷ 2 ∷ [])
unfolding kd_desk_tc.Prelude.list_discrete
handle_udp-uuid_at_example =
    handle_udp-uuid_at (world_at 86402000) [] (register_pk claim_home) (host 4) server home
      (1 ∷ 2 ∷ []) (unfold HashMap.get in refl) (λ e. cc)
