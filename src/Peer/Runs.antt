-- ===== src/Peer/Runs.antt =====
-- An example for `update_pk`.
use kd_desk_tc.Prelude.{◌≡◌, list_eq, ◌⊎◌, inl, inr, refl, Option, none, some, List, [], ◌∷◌}
use kd_desk_tc.HashMap
use kd_desk_tc.Proto.{Text}
use kd_desk_tc.Rendezvous.Samples.{world_at, host, home, home_peer, no_rows}
use kd_desk_tc.Peer.{Peer, PeerMap, get, update_pk}
use kd_desk_tc.Peer.Update.{HasKey, restarted, update_pk-restarted}

-- A peer whose key is stored for the first time.
abbrev fresh : Peer
fresh = record home_peer { guid = [] }

abbrev peers : PeerMap
peers = record { map = []; db = no_rows }

abbrev stored : PeerMap
stored = (update_pk (world_at 5) peers home fresh (host 1) (1 ∷ []) (7 ∷ []) (10 ∷ [])).0

update_pk-restarted_example :
    (guid : Text) × HasKey guid (7 ∷ []) (HashMap.get stored.map home)
    × HasKey guid (7 ∷ []) (get (world_at 6) (restarted stored.db) home).1
unfolding kd_desk_tc.Prelude.list_discrete kd_desk_tc.Database.insert_peer
update_pk-restarted_example =
    update_pk-restarted (world_at 5) (world_at 6) peers home fresh (host 1) (1 ∷ []) (7 ∷ [])
      (10 ∷ []) (inl refl) (unfold update_pk in refl)
