-- ===== src/Client/Runs.antt =====
-- Tests and examples for the controlled side. The hash function keeps its input as it is.
use kd_desk_tc.Prelude.{
  ℕ, ◌+◌, ◌*◌, ◌^◌, ◌<◌, ◌≡◌, ◌⊎◌, inl, inr, refl, arith, min, Bool, true, false, Option, none,
  some, List, [], ◌∷◌, ◌++◌, length, nat_eq, list_eq,
}
use kd_desk_tc.Strings.{bytes}
use kd_desk_tc.Proto.{Text}
use kd_desk_tc.HashMap
use kd_desk_tc.Client.Proto.{Message, LoginRequest, LoginUnion, OptionMessage}
use kd_desk_tc.Client.Service
use kd_desk_tc.Client.Service.{ConnInner, ServiceInner, Hold}
use kd_desk_tc.Client.Service.Backoff.{hibernate_timeout, after_errors, after_errors-doubles}
use kd_desk_tc.Client.Service.Queues.{arriving, conn}
use kd_desk_tc.Client.Service.Delivery
use kd_desk_tc.Client.Service.Delivery.{run, holds, swapped, snapshot-reaches}
use kd_desk_tc.Client.Service.Apart.{Absent}
use kd_desk_tc.Client.Server
use kd_desk_tc.Client.Server.{Server, name_audio}
use kd_desk_tc.Client.Server.Subscriptions.{Step, begins, then_step, remove_connection-Absent}
use kd_desk_tc.Client.Files.{System}
use kd_desk_tc.Client.Connection.{Connection, Machine, Data, Failures}
use kd_desk_tc.Client.Connection.Options.{update_option}
use kd_desk_tc.Client.Connection.Options.Flags.{flags, chosen_flags, update_option-flags}
use kd_desk_tc.Client.Connection.Login
use kd_desk_tc.Client.Connection.Dispatch.{on_message}
use kd_desk_tc.Client.Connection.Dispatch.Guard.{Granted}
use kd_desk_tc.Client.Connection.Dispatch.Guesses.{AllLimited, on_login_request-Limited}
use kd_desk_tc.Client.Connection.Dispatch.Unchecked.{on_message-listens}
use kd_desk_tc.Client.Connection.Lifecycle
use kd_desk_tc.Client.Connection.Lifecycle.{Event, turn}
use kd_desk_tc.Client.Connection.Lifecycle.Authorization.{turn-authorizes}

after_errors-doubles_example :
    after_errors hibernate_timeout (7 ∷ 2000 ∷ 10 ∷ 20 ∷ []) ≡ min 1000 (30 * 2 ^ 2)
after_errors-doubles_example =
    after_errors-doubles (7 ∷ []) 2000 (10 ∷ 20 ∷ []) (omega arith)
      ((omega arith, (omega arith, tt)))

abbrev audio : ServiceInner
audio = record {
  name = bytes "audio";
  subscribes = [];
  new_subscribes = [];
  active = true;
  need_snapshot = true;
}

abbrev format : Message
format = Message.audio_frame (1 ∷ [])

abbrev frame : Message
frame = Message.audio_frame (2 ∷ [])

-- Another subscriber comes while the callback of a snapshot is at work.
abbrev among : List Delivery.Event
among =
    Delivery.broadcast frame
    ∷ Delivery.hold (Hold.send_new format)
    ∷ Delivery.subscribe (conn 2 20 21)
    ∷ Delivery.hold Hold.swap
    ∷ Delivery.hold (Hold.send_new format)
    ∷ Delivery.broadcast frame
    ∷ Delivery.send_to frame 2
    ∷ []

abbrev late : List Delivery.Event
late = Delivery.broadcast frame ∷ Delivery.hold (Hold.send_new frame) ∷ []

snapshot-reaches_example :
    arriving 10 11
      (run (run audio (Delivery.subscribe (conn 1 10 11) ∷ late)).0 (
        holds (
          Service.snapshot
            (run audio (Delivery.subscribe (conn 1 10 11) ∷ late)).0
            (format ∷ frame ∷ [])))).1
    ≡ format ∷ frame ∷ []
snapshot-reaches_example =
    snapshot-reaches 1 10 11 audio late (format ∷ frame ∷ []) refl
      (unfold kd_desk_tc.Client.Service.Queues.Lacks in tt)
      (unfold kd_desk_tc.Client.Service.Queues.Lacks in tt) (tt, (tt, tt)) (unfold swapped in refl)

abbrev inner : ConnInner
inner = record { id = 1; tx = some 10; tx_video = some 11 }

abbrev busy : Server
busy = Server.add_connection (Server.next_id Server.new).0 inner (name_audio ∷ [])

remove_connection-Absent_example :
    HashMap.Values (Absent 1) (Server.remove_connection busy inner).services
    × (HashMap.get (Server.remove_connection busy inner).connections 1 ≡ none)
remove_connection-Absent_example = remove_connection-Absent busy inner (
    then_step (then_step begins (Step.numbers Server.new))
      (Step.adds (Server.next_id Server.new).0 inner (name_audio ∷ [])))

abbrev system : System
system = record {
  join = λ p n. p ++ b'/' ∷ n;
  is_dir = λ p. false;
  is_file = λ p. true;
  entries = λ p. none;
  metadata = λ p. some (4, 9);
  logical_drives = 4;
}

abbrev pub machine : Machine
machine = record {
  get_time = 600000;
  option = λ k. [];
  config_id = bytes "42";
  config_uid = [];
  config_password = bytes "pw";
  auto_password = bytes "c";
  salt = bytes "s";
  idle = [];
  flagex = bytes "1";
  pwdupd = [];
  sha256 = λ t. t;
  is_ip = λ t. false;
  ip_to_string = λ t. t;
  parse_ip = λ t. some t;
  show_int = λ n. n ∷ [];
  tcp_connect = λ t. true;
  active_username = [];
  hostname = [];
  platform = [];
  version = [];
  is_root = false;
  is_prelogin = false;
  cm_is_gone = false;
  displays = some ([], 0);
  depth = 5;
  system = system;
  zstd = record { compress = λ t n. some t; decompress = λ t n. some t };
  open_file = λ p. none;
}

abbrev few : HashMap.HashMap Text Failures
few = ([], record { minute = 10; in_minute = 2; total = 30 }) ∷ []

abbrev fresh : Connection
fresh = Lifecycle.new machine inner (some Server.new) few []

abbrev login : Text → LoginRequest
login password = record {
  username = bytes "42";
  password = password;
  my_id = bytes "7";
  my_name = [];
  option = none;
  union = LoginUnion.unset;
  video_ack_required = false;
  my_uid = [];
}

abbrev right_login : Event
right_login = Event.received (some (some (Message.login_request (login (bytes "pwsc")))))

right_login_authorizes : (turn machine right_login fresh).0.authorized ≡ true
unfolding turn Lifecycle.new Lifecycle.receive on_message Login.on_login_request
    Login.ask_and_log_in Login.prepare Login.apply_options Login.log_in Login.ask
    kd_desk_tc.Prelude.list_discrete Login.check_password Login.failures_of HashMap.get
    Login.this_minute Login.expected Login.right_password kd_desk_tc.Client.Connection.act
    Login.login_cm Login.try_start_cm Login.send_logon_response Login.logon_by Login.logon_screen
    Login.forget_failures kd_desk_tc.Client.Connection.send_to_cm
    kd_desk_tc.Client.Connection.send_login_error kd_desk_tc.Client.Connection.send
    kd_desk_tc.Client.Connection.is_some Login.add_connection kd_desk_tc.Client.Connection.touch
right_login_authorizes = refl

turn-authorizes_example :
    (right_login ≡ Event.manager Data.authorize)
    ⊎ ((lr : LoginRequest) × (right_login ≡ Event.received (some (some (Message.login_request lr))))
        × Granted machine lr fresh)
turn-authorizes_example =
    turn-authorizes machine right_login fresh (unfold Lifecycle.new in refl) right_login_authorizes

on_login_request-Limited_example :
    AllLimited (Login.on_login_request machine (login (bytes "x")) fresh).0.login_failures
on_login_request-Limited_example =
    on_login_request-Limited machine (login (bytes "x")) fresh
      (unfold Lifecycle.new in (((omega arith, omega arith)), tt))

-- The sound, and other options, without a password.
abbrev listen : OptionMessage
listen = record {
  image_quality = 3;
  lock_after_session_end = 2;
  show_remote_cursor = 2;
  privacy_mode = 0;
  block_input = 0;
  custom_image_quality = 0;
  disable_audio = 1;
  disable_clipboard = 1;
  enable_file_transfer = 0;
}

abbrev stranger : LoginRequest
stranger = record (login []) { option = some listen }

on_message-listens_example :
    ((on_message machine (Message.login_request stranger) fresh).0.authorized ≡ false)
    × ((t : Server) × (tp : ServiceInner) × ((on_message machine
            (Message.login_request stranger)
            fresh).0.server
          ≡ some t)
        × (HashMap.get t.services name_audio ≡ some tp)
        × (HashMap.get tp.new_subscribes 1 ≡ some inner))
unfolding kd_desk_tc.Prelude.list_discrete HashMap.insert Service.new Lifecycle.new
on_message-listens_example =
    on_message-listens machine stranger listen fresh Server.new audio refl refl
      (unfold kd_desk_tc.Client.Connection.Options.chosen kd_desk_tc.Client.Proto.bool_option in
        refl)
      (unfold Lifecycle.new in refl) (unfold Lifecycle.new in refl) (unfold Lifecycle.new in refl)
      (unfold Server.new HashMap.get in refl) refl (unfold HashMap.get in refl)

-- A message that chooses every option.
abbrev all_on : OptionMessage
all_on = record {
  image_quality = 2;
  lock_after_session_end = 2;
  show_remote_cursor = 2;
  privacy_mode = 2;
  block_input = 1;
  custom_image_quality = 0;
  disable_audio = 2;
  disable_clipboard = 1;
  enable_file_transfer = 2;
}

update_option-flags_example : flags (update_option all_on fresh) ≡ chosen_flags all_on (flags fresh)
update_option-flags_example = update_option-flags all_on fresh
