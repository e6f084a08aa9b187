-- ===== src/Controller/Runs.antt =====
-- Examples for the login of the controlling side, at a machine with a hash that adds a byte, and for
-- the jobs of a session.
use kd_desk_tc.Prelude.{
  ℕ, ◌+◌, ◌^◌, ◌≡◌, refl, arith, Bool, true, false, Option, none, some, List, [], ◌∷◌, ◌++◌, ◌==◌,
  nat_eq, list_eq,
}
use kd_desk_tc.Strings.{bytes}
use kd_desk_tc.Proto.{Text}
use kd_desk_tc.HashMap
use kd_desk_tc.Client.Proto.{Message, PeerInfo, FileEntry, FileResponse}
use kd_desk_tc.Client.Transfer.{new_write}
use kd_desk_tc.Client.Server as Server
use kd_desk_tc.Client.Connection.{Connection, Machine}
use kd_desk_tc.Client.Connection.Lifecycle as Lifecycle
use kd_desk_tc.Client.Connection.Options.Flags.{flags}
use kd_desk_tc.Client.Connection.Dispatch.{on_message}
use kd_desk_tc.Client.Runs.{machine}
use kd_desk_tc.Controller.PeerConfig
use kd_desk_tc.Controller.PeerConfig.Shared.{load-store}
use kd_desk_tc.Controller.LoginConfig
use kd_desk_tc.Controller.LoginConfig.{LoginConfigHandler, Desk}
use kd_desk_tc.Controller.Login.{handle_hash, handle_login_from_ui}
use kd_desk_tc.Controller.Login.Options.{Agree, switches}
use kd_desk_tc.Controller.Login.Right.{Waits, Visits}
use kd_desk_tc.Controller.Login.Granted.{typed, answered, typed_password-opens, session-Agree}
use kd_desk_tc.Controller.Login.Remembered.{second, remembered_password-opens}
use kd_desk_tc.Controller.Remote.{Remote, RemoveJob, Station, Data}
use kd_desk_tc.Controller.Remote.FromUi.{handle_msg_from_ui}
use kd_desk_tc.Controller.Remote.Cancel.{stripped, job_number, receive_all, cancel-stills}
use kd_desk_tc.Controller.Remote.Jobs.Removal.{plan}
use kd_desk_tc.Controller.Remote.Jobs.Walk.{removals, walk, walk-removes}

abbrev digest : Text → Text
digest t = 7 ∷ t

abbrev host : Machine
host = record machine { sha256 = digest }

abbrev desk : Desk
desk = record {
  sha256 = digest;
  config_id = bytes "7";
  config_uid = [];
  username = bytes "me";
  can_store = true;
  parse_i64 = λ t. some 1;
  from_json = λ t. [];
  to_json = λ m. [];
}

abbrev window : LoginConfigHandler
window = LoginConfig.initialize (bytes "42") false false (LoginConfig.new [])

abbrev waiting : Connection
waiting =
    Lifecycle.new host (record { id = 1; tx = some 10; tx_video = some 11 }) (some Server.new) [] []

waiting-Waits : Waits host waiting
unfolding Lifecycle.new kd_desk_tc.Client.Connection.Login.failures_of HashMap.get
    kd_desk_tc.Prelude.ℕ_discrete kd_desk_tc.Client.Connection.Login.this_minute
waiting-Waits = record { unauthorized = refl; no_tunnel = refl; few = refl; few_now = refl }

window-Visits : Visits desk host window waiting
unfolding kd_desk_tc.Prelude.list_discrete LoginConfig.initialize
    kd_desk_tc.Client.Connection.Login.get_peer_permission HashMap.get Lifecycle.new
window-Visits = record {
  same_hash = refl;
  digest = λ t. refl;
  addressed = refl;
  no_forward = refl;
  files_enabled = refl;
  files_permitted = refl;
}

typed_password-opens_example : (answered desk host true window waiting).authorized ≡ true
typed_password-opens_example =
    typed_password-opens desk host true window waiting waiting-Waits window-Visits

abbrev names : List Text
names = bytes "privacy-mode" ∷ bytes "disable-audio" ∷ bytes "privacy-mode" ∷ []

session-Agree_example :
    Agree
      (switches desk host names
        (typed desk host true window waiting)
        (answered desk host true window waiting)).0
      (switches desk host names
        (typed desk host true window waiting)
        (answered desk host true window waiting)).1
session-Agree_example =
    session-Agree desk host true names window waiting waiting-Waits window-Visits
      (unfold LoginConfig.initialize in refl)
      (unfold Lifecycle.new flags kd_desk_tc.Prelude.list_discrete in
        (refl, refl, refl, refl, refl, refl, refl))
      refl (unfold LoginConfig.initialize LoginConfig.load_config in refl)

abbrev info : PeerInfo
info = record {
  username = bytes "u";
  hostname = bytes "h";
  platform = bytes "Windows";
  version = bytes "1.1";
  uid = [];
  sas_enabled = false;
  displays = [];
  current_display = 0;
}

abbrev again : LoginConfigHandler
again = second desk host (bytes "u") info true window waiting

again-Visits : Visits desk host again waiting
unfolding kd_desk_tc.Prelude.list_discrete second kd_desk_tc.Controller.Login.Remembered.reopened
    LoginConfig.initialize typed handle_login_from_ui handle_hash
    kd_desk_tc.Controller.Login.known_password LoginConfig.new kd_desk_tc.Controller.PeerConfig.load
    HashMap.get kd_desk_tc.Controller.PeerConfig.default
    kd_desk_tc.Client.Connection.Login.get_peer_permission Lifecycle.new
again-Visits = record {
  same_hash = refl;
  digest = λ t. refl;
  addressed = refl;
  no_forward = refl;
  files_enabled = refl;
  files_permitted = refl;
}

remembered_password-opens_example :
    ((handle_hash desk waiting.hash again).2 ≡ none)
    × ((on_message host
          (Message.login_request (handle_hash desk waiting.hash again).1)
          waiting).0.authorized
        ≡ true)
remembered_password-opens_example =
    remembered_password-opens desk host host (bytes "u") info true window waiting waiting refl refl
      refl waiting-Waits again-Visits

abbrev entry : Text → FileEntry
entry name = record { entry_type = 4; name = name; is_hidden = false; size = 3; modified_time = 9 }

abbrev removing : RemoveJob
removing = record {
  files = entry (bytes "a") ∷ entry (bytes "b") ∷ [];
  path = bytes "d";
  sep = bytes "/";
  is_remote = true;
  no_confirm = true;
  last_update_job_status = 0;
}

abbrev session : Remote
session = record {
  lc = window;
  read_jobs = [];
  write_jobs = [];
  remove_jobs = (5, removing) ∷ [];
  fast_timer = false;
  last_update = 0;
  last_transferred = [];
  last_recv_time = 0;
  first_frame = false;
  board = record { old = []; text = none };
  clipboard_file_context = false;
  keyboard_enabled = true;
  clipboard_enabled = true;
  file_enabled = true;
  disk = record { names = []; contents = []; times = []; next = 0 };
  sent = [];
  queue = [];
  calls = [];
}

abbrev station : Station
station = record {
  desk = desk;
  now = 5000;
  platform = bytes "Linux";
  depth = 5;
  system = host.system;
  zstd = host.zstd;
  open_file = λ p. none;
  write_outcome = record { synced = true; created = true; written = none };
  remove_file = λ p. none;
  create_dir = λ p. none;
  can_create_context = true;
  utf8 = λ t. true;
  has_clipboard = true;
}

abbrev replies : List (Option Text)
replies = none ∷ some (bytes "denied") ∷ []

walk-removes_example :
    ((walk station 5 0 replies session).sent
      ≡ [] ++ removals 5 (plan removing) 1 (entry (bytes "b") ∷ []))
    × ((walk station 5 0 replies session).queue ≡ [])
    × (HashMap.get (walk station 5 0 replies session).remove_jobs 5 ≡ none)
unfolding kd_desk_tc.Prelude.ℕ_discrete
walk-removes_example =
    walk-removes station 5 removing (entry (bytes "a")) (entry (bytes "b") ∷ []) replies session
      (unfold HashMap.get in refl) refl refl refl (omega arith) refl refl

load-store_example :
    PeerConfig.load
      (PeerConfig.store [] true
        (record PeerConfig.default { password = bytes "pw" })
        (bytes "10.0.0" ++ b'.' ∷ bytes "1"))
      (bytes "10.0.0" ++ b'.' ∷ bytes "2")
    ≡ record PeerConfig.default { password = bytes "pw" }
unfolding kd_desk_tc.Prelude.list_discrete PeerConfig.before_dot
load-store_example =
    load-store [] (record PeerConfig.default { password = bytes "pw" }) (bytes "10.0.0") (bytes "1")
      (bytes "2") refl refl refl

-- A session that writes a file of the peer.
abbrev writing : Remote
writing = record session {
  write_jobs =
      record (new_write 5 (bytes "d") (entry (bytes "a") ∷ [])) { file_num = 0; file = some 1 }
      ∷ [];
}

abbrev late : List (Station × FileResponse)
late =
    (
      station,
      FileResponse.block (record { id = 5; file_num = 0; payload = 1 ∷ []; compressed = false }),
    )
    ∷ (station, FileResponse.done 5 1)
    ∷ []

cancel-stills_example :
    stripped (receive_all late (handle_msg_from_ui station (Data.cancel_job 5) writing).0)
    ≡ stripped (handle_msg_from_ui station (Data.cancel_job 5) writing).0
cancel-stills_example =
    cancel-stills station 5 late writing (unfold job_number in (refl, (refl, tt)))
