-- ===== src/Peer.antt =====
-- The peers that the rendezvous server knows: `Peer` and `PeerMap` of KdDeskTC_Server/src/peer.rs.
-- A peer is shared behind a lock in the source (`LockPeer`), and the map holds the only lasting
-- reference; here a peer is a value, and writing through the lock is writing the map's entry.
pub mod Lookup
pub mod Update
mod Runs
use kd_desk_tc.Prelude.{
  ℕ, ◌-◌, ◌*◌, Bool, true, false, Option, none, some, List, [], ◌∷◌, leb, if◌then◌else◌, ◌==◌,
  list_eq, nat_eq,
}
use kd_desk_tc.Net.{IpAddr, v4, SocketAddr}
use kd_desk_tc.Proto.{Text, RegisterPkResult}
use kd_desk_tc.World.{World, PeerInfo}
use kd_desk_tc.HashMap
use kd_desk_tc.HashMap.{HashMap}
use kd_desk_tc.Database
use kd_desk_tc.Database.{Database, Row}

pub record Peer : Type 0 where
  pub socket_addr : SocketAddr
  pub last_reg_time : ℕ
  pub guid : Text
  pub uuid : Text
  pub pk : Text
  pub user : Option Text
  pub info : PeerInfo
  pub disabled : Bool
  -- `reg_pk: (u32, Instant)`
  pub reg_count : ℕ
  pub reg_at : ℕ

pub record PeerMap : Type 0 where
  pub map : HashMap Text Peer
  pub db : Database

-- An hour ago, or now where the clock cannot go back that far.
unfoldable pub get_expired_time : ℕ → ℕ
get_expired_time now = if leb (3600 * 1000) now then now - 3600 * 1000 else now

-- `"0.0.0.0:0".parse()`
abbrev pub addr_any : SocketAddr
addr_any = record { ip = v4 (record { a = 0; b = 0; c = 0; d = 0 }); port = 0 }

unfoldable pub default : World → Peer
unfolding get_expired_time
default w = record {
  socket_addr = addr_any;
  last_reg_time = get_expired_time w.now;
  guid = [];
  uuid = [];
  pk = [];
  user = none;
  info = record { ip = [] };
  disabled = false;
  reg_count = 0;
  reg_at = get_expired_time w.now;
}

abbrev pub or_default_info : Option PeerInfo → PeerInfo
or_default_info none = record { ip = [] }
or_default_info (some i) = i

abbrev status_is_zero : Option ℕ → Bool
status_is_zero none = false
status_is_zero (some s) = s == 0

unfoldable pub from_row : World → Row → Peer
unfolding default
from_row w v = record (default w) {
  guid = v.guid;
  uuid = v.uuid;
  pk = v.pk;
  user = v.user;
  info = or_default_info (w.from_json v.info);
  disabled = status_is_zero v.status;
}

-- An error of the database counts as no row.
load : World → PeerMap → Text → Option (Option Row) → PeerMap × Option Peer
unfolding from_row
load w pm id none = (pm, none)
load w pm id (some none) = (pm, none)
load w pm id (some (some v)) =
    let peer = from_row w v in (record pm { map = HashMap.insert pm.map id peer }, some peer)

get_step : World → PeerMap → Text → Option Peer → PeerMap × Option Peer
unfolding load
get_step w pm id (some p) = (pm, some p)
get_step w pm id none = load w pm id (Database.get_peer pm.db id)

unfoldable pub get : World → PeerMap → Text → PeerMap × Option Peer
unfolding get_step
get w pm id = get_step w pm id (HashMap.get pm.map id)

get_or_step : World → Text → PeerMap × Option Peer → PeerMap × Peer
unfolding default
get_or_step w id (pm, some p) = (pm, p)
get_or_step w id (pm, none) = (record pm { map = HashMap.insert pm.map id (default w) }, default w)

unfoldable pub get_or : World → PeerMap → Text → PeerMap × Peer
unfolding get_or_step get
get_or w pm id = get_or_step w id (get w pm id)

unfoldable pub get_in_memory : PeerMap → Text → Option Peer
get_in_memory pm id = HashMap.get pm.map id

unfoldable pub is_in_memory : PeerMap → Text → Bool
is_in_memory pm id = HashMap.contains_key pm.map id

unfoldable pub remove : PeerMap → Text → PeerMap
remove pm id = record pm { map = HashMap.remove pm.map id }

-- Writing through the lock of the peer `id`.
abbrev pub write : PeerMap → Text → Peer → PeerMap
write pm id p = record pm { map = HashMap.insert pm.map id p }

-- The answer of `insert_peer`: on success the new key is written to the peer.
inserted : PeerMap → Text → Peer → Database × Option Text → PeerMap × RegisterPkResult
inserted pm id p (db, none) = (record pm { db = db }, RegisterPkResult.server_error)
inserted pm id p (db, some g) =
    (write (record pm { db = db }) id (record p { guid = g }), RegisterPkResult.ok)

updated : PeerMap → Database × Bool → PeerMap × RegisterPkResult
updated pm (db, true) = (record pm { db = db }, RegisterPkResult.ok)
updated pm (db, false) = (record pm { db = db }, RegisterPkResult.server_error)

unfoldable pub update_pk :
    World → PeerMap → Text → Peer → SocketAddr → Text → Text → Text → PeerMap × RegisterPkResult
unfolding inserted updated
update_pk w pm id peer addr uuid pk ip =
    let p = record peer {
      socket_addr = addr;
      uuid = uuid;
      pk = pk;
      last_reg_time = w.now;
      info = record { ip = ip };
    } in
    let pm' = write pm id p in
    let info_str = w.to_json p.info in
    if p.guid == []
    then inserted pm' id p (Database.insert_peer w.new_guid pm'.db id uuid pk info_str)
    else updated pm' (Database.update_pk pm'.db p.guid id pk info_str)
