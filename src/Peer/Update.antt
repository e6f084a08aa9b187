-- ===== src/Peer/Update.antt =====
-- `update_pk`: what is in memory and in the database afterwards.
use kd_desk_tc.Prelude.{
  ◌≡◌, arith, ◌⊎◌, true, Option, none, some, [], list_eq, list_discrete, nat_eq,
}
use kd_desk_tc.Net.{SocketAddr}
use kd_desk_tc.Proto.{Text, RegisterPkResult}
use kd_desk_tc.World.{World}
use kd_desk_tc.HashMap
use kd_desk_tc.Database
use kd_desk_tc.Database.{Database, Row}
use kd_desk_tc.Database.Laws.{Found, update_pk-Found, insert_peer_guid, insert_peer-Found}
use kd_desk_tc.Peer.{Peer, PeerMap, from_row, get, write, inserted, updated, update_pk}

-- A server that is started on a database knows no peer yet.
abbrev pub restarted : Database → PeerMap
restarted db = record { map = []; db = db }

-- A peer with this key, and the guid under which its row is stored.
pub HasKey : Text → Text → Option Peer → Type 0
HasKey guid pk none = ⊥
HasKey guid pk (some p) = (p.guid ≡ guid) × (p.pk ≡ pk)

Found-HasKey :
    (w : World) (db : Database) (id guid pk info : Text)
    → db.up ≡ true
    → Found guid pk info (Database.find_id db.rows id)
    → HasKey guid pk (get w (restarted db) id).1
unfolding get Found HasKey from_row Database.get_peer HashMap.get
Found-HasKey w db id guid pk info u f = ground arith

module _ (w v : World) (pm : PeerMap) (id : Text) (p : Peer) where
  -- What is in memory, and what a restarted server finds.
  Kept : Text → Text → PeerMap → Type 0
  Kept guid pk m =
      HasKey guid pk (HashMap.get m.map id) × HasKey guid pk (get v (restarted m.db) id).1

  inserted-Kept :
      (pk info g : Text) (uuid : Text)
      → (inserted (write pm id p) id p (Database.insert_peer g pm.db id uuid pk info)).1
        ≡ RegisterPkResult.ok
      → p.pk ≡ pk
      → Kept g pk (inserted (write pm id p) id p (Database.insert_peer g pm.db id uuid pk info)).0
  unfolding Kept HasKey inserted
  inserted-Kept pk info g uuid h k = ground (
    arith,
    insert_peer_guid g pm.db id uuid pk info,
    insert_peer-Found g pm.db id uuid pk info g,
    Found-HasKey v (Database.insert_peer g pm.db id uuid pk info).0 id g pk info,
    HashMap.get-insert_self (HashMap.insert pm.map id p) id (record p { guid = g }),
  )

  updated-Kept :
      (pk info : Text)
      → Database.has_guid pm.db.rows p.guid ≡ true
      → (updated (write pm id p) (Database.update_pk pm.db p.guid id pk info)).1
        ≡ RegisterPkResult.ok
      → p.pk ≡ pk
      → Kept p.guid pk (updated (write pm id p) (Database.update_pk pm.db p.guid id pk info)).0
  unfolding Kept HasKey updated
  updated-Kept pk info e h k = ground (
    arith,
    update_pk-Found pm.db p.guid id pk info,
    Found-HasKey v (Database.update_pk pm.db p.guid id pk info).0 id p.guid pk info,
    HashMap.get-insert_self pm.map id p,
  )

abbrev registered : World → Peer → SocketAddr → Text → Text → Text → Peer
registered w peer addr uuid pk ip = record peer {
  socket_addr = addr;
  uuid = uuid;
  pk = pk;
  last_reg_time = w.now;
  info = record { ip = ip };
}

-- If `update_pk` answers OK, for a peer without a guid or one whose row is still there, then the
-- peer in memory has the new key, and a server that is restarted on the database finds a peer with
-- that key and the same guid under the id.
pub update_pk-restarted :
    (w v : World) (pm : PeerMap) (id : Text) (peer : Peer) (addr : SocketAddr) (uuid pk ip : Text)
    → (peer.guid ≡ []) ⊎ (Database.has_guid pm.db.rows peer.guid ≡ true)
    → (update_pk w pm id peer addr uuid pk ip).1 ≡ RegisterPkResult.ok
    → (guid : Text) × HasKey guid pk (HashMap.get (update_pk w pm id peer addr uuid pk ip).0.map id)
      × HasKey guid pk (get v (restarted (update_pk w pm id peer addr uuid pk ip).0.db) id).1
unfolding update_pk Kept
update_pk-restarted w v pm id peer addr uuid pk ip g h =
    let p = registered w peer addr uuid pk ip in
    elim (list_discrete peer.guid []) [
      | yes e ↦ (
        w.new_guid,
        ground (arith, inserted-Kept w v pm id p pk (w.to_json p.info) w.new_guid uuid),
        ground (arith, inserted-Kept w v pm id p pk (w.to_json p.info) w.new_guid uuid),
      )
      | no ne ↦ (
        peer.guid,
        ground (arith, updated-Kept w v pm id p pk (w.to_json p.info)),
        ground (arith, updated-Kept w v pm id p pk (w.to_json p.info)),
      )
    ]
