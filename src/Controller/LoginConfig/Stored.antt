-- ===== src/Controller/LoginConfig/Stored.antt =====
-- The handler of a session with one peer, and what it stores.
-- the messages that tell the peer of them. The files of all peers are part of the state.

use kd_desk_tc.Prelude.{ℕ, Bool, false, not, Option, none, some, [], ◌==◌, nat_eq, list_eq}
use kd_desk_tc.Proto.{Text}
use kd_desk_tc.HashMap
use kd_desk_tc.HashMap.{HashMap}
use kd_desk_tc.Client.Proto.{Hash}
use kd_desk_tc.Controller.PeerConfig
use kd_desk_tc.Controller.PeerConfig.{PeerConfig, Peers}

pub record LoginConfigHandler : Type 0 where
  pub id : Text
  pub is_file_transfer : Bool
  pub is_port_forward : Bool
  pub hash : Hash
  pub password : Text
  pub remember : Bool
  pub config : PeerConfig
  pub port_forward : Text × ℕ
  pub version : ℕ
  -- The files of all peers.
  pub peers : Peers

-- What the machine of the controlling side answers. A number is the bits of an `i64`; the map of
-- directories is read from and written to JSON, with what fails on default.
pub record Desk : Type 0 where
  pub sha256 : Text → Text
  pub config_id : Text
  pub config_uid : Text
  pub username : Text
  pub can_store : Bool
  pub parse_i64 : Text → Option ℕ
  pub from_json : Text → HashMap Text Text
  pub to_json : HashMap Text Text → Text

-- A handler as a window makes it.
unfoldable pub new : Peers → LoginConfigHandler
new peers = record {
  id = [];
  is_file_transfer = false;
  is_port_forward = false;
  hash = record { salt = []; challenge = [] };
  password = [];
  remember = false;
  config = PeerConfig.default;
  port_forward = ([], 0);
  version = 0;
  peers = peers;
}

unfoldable pub load_config : LoginConfigHandler → PeerConfig
load_config lc = PeerConfig.load lc.peers lc.id

unfoldable pub initialize : Text → Bool → Bool → LoginConfigHandler → LoginConfigHandler
initialize id file forward lc =
    let config = PeerConfig.load lc.peers id in
    record lc {
      id = id;
      is_file_transfer = file;
      is_port_forward = forward;
      remember = not (config.password == []);
      config = config;
    }

unfoldable pub store_config : Desk → PeerConfig → LoginConfigHandler → LoginConfigHandler
store_config d config lc = record lc { peers = PeerConfig.store lc.peers d.can_store config lc.id }

unfoldable pub save_config : Desk → PeerConfig → LoginConfigHandler → LoginConfigHandler
unfolding store_config
save_config d config lc = record (store_config d config lc) { config = config }

unfoldable pub set_option : Desk → Text → Text → LoginConfigHandler → LoginConfigHandler
set_option d k v lc =
    let config = load_config lc in
    save_config d (record config { options = HashMap.insert config.options k v }) lc

unfoldable pub save_view_style : Desk → Text → LoginConfigHandler → LoginConfigHandler
save_view_style d value lc = save_config d (record (load_config lc) { view_style = value }) lc

unfoldable pub get_option : LoginConfigHandler → Text → Text
get_option lc k = elim (HashMap.get lc.config.options k) [ none ↦ [] | some v ↦ v ]
