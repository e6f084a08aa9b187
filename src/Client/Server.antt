-- ===== src/Client/Server.antt =====
-- `Server` of KdDeskTC_Client/src/server.rs: the connections and the services that they subscribe to.
-- `HashMap` is keyed by an `i32`'s bits and by a service's name.
pub mod Subscriptions
pub mod Secure
use kd_desk_tc.Prelude.{
  ℕ, ◌+◌, ◌%◌, ◌^◌, Bool, true, false, not, Option, none, some, List, [], ◌∷◌, if◌then◌else◌, ◌==◌,
  list_eq, nat_eq, bool_eq,
}
use kd_desk_tc.Strings.{bytes}
use kd_desk_tc.Proto.{Text}
use kd_desk_tc.HashMap
use kd_desk_tc.HashMap.{HashMap}
use kd_desk_tc.Client.Service
use kd_desk_tc.Client.Service.{ConnInner, ServiceInner}

abbrev pub Services : Type 0
Services = HashMap Text ServiceInner

pub record Server : Type 0 where
  pub connections : HashMap ℕ ConnInner
  pub services : Services
  pub id_count : ℕ

unfoldable pub contains : List Text → Text → Bool
contains [] name = false
contains (n ∷ ns) name = let rest = contains ns name in if n == name then true else rest

-- The part of `create_tcp_connection` that numbers a connection; an `i32` wraps around.
unfoldable pub next_id : Server → Server × ℕ
next_id s = let id = (s.id_count + 1) % 2 ^ 32 in (record s { id_count = id }, id)

unfoldable pub subscribe_all : Services → ConnInner → List Text → Services
subscribe_all [] conn noperms = []
subscribe_all ((k, s) ∷ m) conn noperms =
    let rest = subscribe_all m conn noperms in
    if contains noperms s.name then (k, s) ∷ rest else (k, Service.on_subscribe s conn) ∷ rest

unfoldable pub add_connection : Server → ConnInner → List Text → Server
add_connection s conn noperms = record s {
  services = subscribe_all s.services conn noperms;
  connections = HashMap.insert s.connections conn.id conn;
}

unfoldable pub unsubscribe_all : Services → ℕ → Services
unsubscribe_all [] id = []
unsubscribe_all ((k, s) ∷ m) id = (k, Service.on_unsubscribe s id) ∷ unsubscribe_all m id

unfoldable pub remove_connection : Server → ConnInner → Server
remove_connection s conn = record s {
  services = unsubscribe_all s.services conn.id;
  connections = HashMap.remove s.connections conn.id;
}

unfoldable pub add_service : Server → ServiceInner → Server
add_service s service = record s { services = HashMap.insert s.services service.name service }

-- A service is shared, so the entry of the map changes in place.
unfoldable pub subscribe_service : Server → ServiceInner → Text → ConnInner → Bool → Server
subscribe_service s sp name conn sub =
    if Service.is_subed sp conn.id == sub
    then s
    else if sub
    then record s { services = HashMap.insert s.services name (Service.on_subscribe sp conn) }
    else record s { services = HashMap.insert s.services name (Service.on_unsubscribe sp conn.id) }

unfoldable pub subscribe : Server → Text → ConnInner → Bool → Server
subscribe s name conn sub = elim (HashMap.get s.services name) [
  | none ↦ s
  | some sp ↦ subscribe_service s sp name conn sub
]

abbrev pub name_audio : Text
name_audio = bytes "audio"

abbrev pub name_video : Text
name_video = bytes "video"

abbrev pub name_clipboard : Text
name_clipboard = bytes "clipboard"

abbrev pub name_cursor : Text
name_cursor = bytes "mouse_cursor"

abbrev pub name_pos : Text
name_pos = bytes "mouse_pos"

unfoldable pub new : Server
unfolding add_service
new =
    let s : Server = record { connections = []; services = []; id_count = 0 } in
    let s = add_service s (Service.new name_audio true) in
    let s = add_service s (Service.new name_video true) in
    let s = add_service s (Service.new name_clipboard true) in
    let s = add_service s (Service.new name_cursor true) in
    add_service s (Service.new name_pos false)

unfoldable pub join_all : Services → Services
join_all [] = []
join_all ((k, s) ∷ m) = (k, Service.join s) ∷ join_all m

-- `Drop for Server`
unfoldable pub drop : Server → Server
drop s = record s { services = join_all s.services }
