-- ===== src/Controller/PeerConfig.antt =====
-- `PeerConfig` of KdDeskTC_Client/libs/hbb_common/src/config.rs: what the controlling side stores of
-- each peer, in a file named for the peer's id. The files are a map by the stem of their names. TOML
-- gives back what it stored, and a map of options has no order.
pub mod Shared
use kd_desk_tc.Prelude.{
  ℕ, Bool, true, false, ◌&&◌, Option, none, some, List, [], ◌∷◌, ◌==◌, nat_eq, list_eq,
  if◌then◌else◌,
}
use kd_desk_tc.Proto.{Text}
use kd_desk_tc.HashMap
use kd_desk_tc.HashMap.{HashMap}

abbrev pub Size : Type 0
Size = ℕ × ℕ × ℕ × ℕ

pub record PeerInfoSerde : Type 0 where
  pub username : Text
  pub hostname : Text
  pub platform : Text
  pub uid : Text

pub record PeerConfig : Type 0 where
  pub password : Text
  pub size : Size
  pub size_ft : Size
  pub size_pf : Size
  pub view_style : Text
  pub image_quality : Text
  pub custom_image_quality : List ℕ
  pub show_remote_cursor : Bool
  pub lock_after_session_end : Bool
  pub privacy_mode : Bool
  pub port_forwards : List (ℕ × Text × ℕ)
  pub direct_failures : ℕ
  pub disable_audio : Bool
  pub disable_clipboard : Bool
  pub enable_file_transfer : Bool
  pub options : HashMap Text Text
  pub info : PeerInfoSerde

unfoldable pub default : PeerConfig
default = record {
  password = [];
  size = (0, 0, 0, 0);
  size_ft = (0, 0, 0, 0);
  size_pf = (0, 0, 0, 0);
  view_style = [];
  image_quality = [];
  custom_image_quality = [];
  show_remote_cursor = false;
  lock_after_session_end = false;
  privacy_mode = false;
  port_forwards = [];
  direct_failures = 0;
  disable_audio = false;
  disable_clipboard = false;
  enable_file_transfer = false;
  options = [];
  info = record { username = []; hostname = []; platform = []; uid = [] };
}

abbrev pub Peers : Type 0
Peers = HashMap Text PeerConfig

-- What stands before the last dot, if there is a dot.
unfoldable pub before_dot : Text → Option Text
before_dot [] = none
before_dot (c ∷ s) =
    let rest = before_dot s in
    elim rest [ some stem ↦ some (c ∷ stem) | none ↦ if c == b'.' then some [] else none ]

-- `with_extension("toml")` takes the extension of a name away before it puts its own; a dot at the
-- front starts no extension. An id has no separator of paths and is not `..`.
unfoldable pub path : Text → Text
path id = elim (before_dot id) [ none ↦ id | some stem ↦ if stem == [] then id else stem ]

unfoldable pub load : Peers → Text → PeerConfig
load peers id = elim (HashMap.get peers (path id)) [ none ↦ default | some config ↦ config ]

-- Whether the file can be written is the second argument.
unfoldable pub store : Peers → Bool → PeerConfig → Text → Peers
store peers true config id = HashMap.insert peers (path id) config
store peers false config id = peers

unfoldable pub remove : Peers → Text → Peers
remove peers id = HashMap.remove peers (path id)
