-- ===== src/Database/Laws.antt =====
-- What a lookup finds after a statement that writes.
use kd_desk_tc.Prelude.{◌⊎◌, ◌≡◌, arith, true, false, Option, none, some, List, [], ◌∷◌, list_eq}
use kd_desk_tc.Proto.{Text}
use kd_desk_tc.Database.{
  Row, Database, find_id, has_guid, id_taken, insert_peer, set_row, update_pk,
}

-- The row found under `id` has this guid, key and info.
unfoldable pub Found : Text → Text → Text → Option Row → Type 0
Found guid pk info none = ⊥
Found guid pk info (some r) = (r.guid ≡ guid) × (r.pk ≡ pk) × (r.info ≡ info)

pub set_row-Found :
    (rs : List Row) (guid id pk info : Text)
    → has_guid rs guid ≡ true
    → id_taken rs guid id ≡ false
    → Found guid pk info (find_id (set_row rs guid id pk info) id)
unfolding set_row has_guid id_taken find_id Found
set_row-Found [] guid id pk info h k = ground arith
set_row-Found (r ∷ rs) guid id pk info h k = ground (arith, set_row-Found rs guid id pk info)

-- An update that succeeds is found again under the id, and one that fails changes nothing.
pub update_pk-Found :
    (db : Database) (guid id pk info : Text)
    → has_guid db.rows guid ≡ true
    → (update_pk db guid id pk info).1 ≡ true
    → ((update_pk db guid id pk info).0.up ≡ true)
      × Found guid pk info (find_id (update_pk db guid id pk info).0.rows id)
unfolding update_pk
update_pk-Found db guid id pk info h k = ground (arith, set_row-Found db.rows guid id pk info)

-- A new row has the key that was drawn for it.
pub insert_peer_guid :
    (guid : Text) (db : Database) (id uuid pk info : Text)
    → ((insert_peer guid db id uuid pk info).1 ≡ none)
      ⊎ ((insert_peer guid db id uuid pk info).1 ≡ some guid)
unfolding insert_peer
insert_peer_guid guid db id uuid pk info = ground arith

pub insert_peer-Found :
    (guid : Text) (db : Database) (id uuid pk info g : Text)
    → (insert_peer guid db id uuid pk info).1 ≡ some g
    → (g ≡ guid)
      × ((insert_peer guid db id uuid pk info).0.up ≡ true)
      × Found guid pk info (find_id (insert_peer guid db id uuid pk info).0.rows id)
unfolding insert_peer Found
insert_peer-Found guid db id uuid pk info g h = ground arith
