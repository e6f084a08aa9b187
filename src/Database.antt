-- ===== src/Database.antt =====
-- The table of registered peers: KdDeskTC_Server/src/database.rs, the statements that the server
-- runs. The pool of connections is a flag: a statement fails when no connection can be had. A
-- statement that would break a unique key fails and changes nothing, as SQLite documents.
pub mod Laws
use kd_desk_tc.Prelude.{
  ℕ, Bool, true, false, ◌&&◌, ◌||◌, not, Option, none, some, List, [], ◌∷◌, if◌then◌else◌, ◌==◌,
  list_eq,
}
use kd_desk_tc.Proto.{Text}

-- A row of the table `peer`, less its columns `created_at` and `note`, which no statement reads.
pub record Row : Type 0 where
  pub guid : Text
  pub id : Text
  pub uuid : Text
  pub pk : Text
  pub user : Option Text
  pub status : Option ℕ
  pub info : Text

pub record Database : Type 0 where
  pub rows : List Row
  pub up : Bool

unfoldable pub find_id : List Row → Text → Option Row
find_id [] id = none
find_id (r ∷ rs) id = if r.id == id then some r else find_id rs id

unfoldable pub has_guid : List Row → Text → Bool
has_guid [] g = false
has_guid (r ∷ rs) g = r.guid == g || has_guid rs g

-- `select … from peer where id = ?`; the outer `none` is an error.
unfoldable pub get_peer : Database → Text → Option (Option Row)
unfolding find_id
get_peer db id = if db.up then some (find_id db.rows id) else none

-- The unique index on `id`, seen from the row with a given key.
unfoldable pub id_taken : List Row → Text → Text → Bool
id_taken [] guid id = false
id_taken (r ∷ rs) guid id = (r.id == id && not (r.guid == guid)) || id_taken rs guid id

-- `insert into peer(guid, id, uuid, pk, info) values(…)`, with the new key.
unfoldable pub insert_peer : Text → Database → Text → Text → Text → Text → Database × Option Text
unfolding find_id has_guid
insert_peer guid db id uuid pk info =
    let row : Row = record {
      guid = guid;
      id = id;
      uuid = uuid;
      pk = pk;
      user = none;
      status = none;
      info = info;
    } in
    let clash : Bool = elim (find_id db.rows id) [ none ↦ has_guid db.rows guid | some r ↦ true ] in
    if (db.up && not clash) then (record db { rows = row ∷ db.rows }, some guid) else (db, none)

unfoldable pub set_row : List Row → Text → Text → Text → Text → List Row
set_row [] guid id pk info = []
set_row (r ∷ rs) guid id pk info =
    let rest = set_row rs guid id pk info in
    if r.guid == guid then record r { id = id; pk = pk; info = info } ∷ rest else r ∷ rest

-- `update peer set id=?, pk=?, info=? where guid=?`; false is an error.
unfoldable pub update_pk : Database → Text → Text → Text → Text → Database × Bool
unfolding set_row id_taken
update_pk db guid id pk info =
    if (db.up && not (has_guid db.rows guid && id_taken db.rows guid id))
    then (record db { rows = set_row db.rows guid id pk info }, true)
    else (db, false)
