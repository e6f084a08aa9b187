-- ===== src/Peer/Lookup.antt =====
-- What a lookup of a peer changes, and what the next lookup finds.
use kd_desk_tc.Prelude.{◌≡◌, arith, Option, none, some, ◌==◌, list_eq, if◌then◌else◌}
use kd_desk_tc.Proto.{Text}
use kd_desk_tc.World.{World}
use kd_desk_tc.HashMap
use kd_desk_tc.Peer
use kd_desk_tc.Peer.{Peer, PeerMap, default, from_row, get, get_or, get_in_memory, update_pk}

-- The uuid under which an id is known in memory.
abbrev pub uuid_at : PeerMap → Text → Option Text
uuid_at pm id = elim (HashMap.get pm.map id) [ none ↦ none | some p ↦ some p.uuid ]

pub get-uuid_at :
    (w : World) (pm : PeerMap) (j id u : Text)
    → uuid_at pm id ≡ some u
    → uuid_at (get w pm j).0 id ≡ some u
unfolding get
get-uuid_at w pm j id u h = grind (arith, HashMap.get-insert)

pub get_or-uuid_at :
    (w : World) (pm : PeerMap) (j id u : Text)
    → uuid_at pm id ≡ some u
    → uuid_at (get_or w pm j).0 id ≡ some u
unfolding get_or
get_or-uuid_at w pm j id u h = grind (arith, HashMap.get-insert)

-- `get_or` hands out the peer that is in memory afterwards.
pub get_or_found :
    (w : World) (pm : PeerMap) (id : Text)
    → HashMap.get (get_or w pm id).0.map id ≡ some (get_or w pm id).1
unfolding get_or
get_or_found w pm id = grind (arith, HashMap.get-insert_self)

pub update_pk-uuid_at :
    (w : World) (pm : PeerMap) (id : Text) (peer : Peer) (addr : kd_desk_tc.Net.SocketAddr)
    (uuid pk ip j : Text)
    → uuid_at (update_pk w pm id peer addr uuid pk ip).0 j
      ≡ (if id == j then some uuid else uuid_at pm j)
unfolding update_pk
update_pk-uuid_at w pm id peer addr uuid pk ip j = grind (arith, HashMap.get-insert)

pub write-uuid_at :
    (pm : PeerMap) (id : Text) (peer : Peer) (j : Text)
    → uuid_at (Peer.write pm id peer) j ≡ (if id == j then some peer.uuid else uuid_at pm j)
write-uuid_at pm id peer j = grind (arith, HashMap.get-insert)
