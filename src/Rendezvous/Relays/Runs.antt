-- ===== src/Rendezvous/Relays/Runs.antt =====
-- Tests and examples for the relay servers.
use kd_desk_tc.Prelude.{ℕ, ◌≡◌, ◌<◌, refl, List, [], ◌∷◌, length, arith}
use kd_desk_tc.Proto.{Text}
use kd_desk_tc.Rendezvous.Relays.{choose_relay}
use kd_desk_tc.Rendezvous.Relays.Rotation.{rotate, choose_relay_fair}

abbrev servers : List Text
servers = (1 ∷ []) ∷ (2 ∷ []) ∷ (3 ∷ []) ∷ []

choose_relay_fair_example :
    (k : ℕ) × (k < length servers) × ((choose_relay servers (rotate k servers 4)).0 ≡ 1 ∷ [])
choose_relay_fair_example =
    choose_relay_fair (1 ∷ []) (2 ∷ []) ((3 ∷ []) ∷ []) 4 0 (1 ∷ []) (omega arith) refl
      (omega arith)
