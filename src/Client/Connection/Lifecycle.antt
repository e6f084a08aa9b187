-- ===== src/Client/Connection/Lifecycle.antt =====
-- `start`, `on_close`, `close_message`, `check_client_idle_timeout` and the branches of the main
-- loop, which takes one event after the other.
pub mod Authorization
use kd_desk_tc.Prelude.{
  ℕ, zero, suc, ◌+◌, ◌-◌, ◌*◌, ◌/◌, ◌%◌, ◌^◌, Bool, true, false, not, ◌&&◌, ◌||◌, Option, none,
  some, List, [], ◌∷◌, ◌++◌, ◌==◌, nat_eq, list_eq, if◌then◌else◌, ltb,
}
use kd_desk_tc.Strings.{bytes}
use kd_desk_tc.Proto.{Text}
use kd_desk_tc.HashMap
use kd_desk_tc.Client.Proto.{Message, Misc, Permission, TestDelay}
use kd_desk_tc.Client.Service.{ConnInner}
use kd_desk_tc.Client.Server
use kd_desk_tc.Client.Server.{Server, name_audio, name_clipboard, name_cursor}
use kd_desk_tc.Client.Connection.{
  Connection, Machine, Effect, Data, Failures, positive, act, send, queue, send_to_cm,
  send_permission, subscribe, clipboard_enabled, audio_enabled, file_transfer_enabled, is_some,
}
use kd_desk_tc.Client.Connection.Login.{on_open, send_logon_response, is_empty}
use kd_desk_tc.Client.Connection.Files.{handle_read_jobs}
use kd_desk_tc.Client.Connection.Dispatch.{on_message}

-- `ImageQuality::Balanced`
abbrev pub balanced : ℕ
balanced = 3

-- A connection as `start` makes it.
unfoldable pub new :
    Machine
    → ConnInner
    → Option Server
    → HashMap.HashMap Text Failures
    → HashMap.HashMap Text Text
    → Connection
new m inner server failures permission = record {
  inner = inner;
  hash = record { salt = m.salt; challenge = m.auto_password };
  read_jobs = [];
  fast_timer = false;
  file_transfer = none;
  port_forward_socket = none;
  port_forward_address = [];
  authorized = false;
  latest_active_time = 0;
  keyboard = m.option (bytes "enable-keyboard") == [];
  clipboard = m.option (bytes "enable-clipboard") == [];
  audio = m.option (bytes "enable-audio") == [];
  file = m.option (bytes "enable-file-transfer") == [];
  last_test_delay = 0;
  image_quality = balanced;
  lock_after_session_end = false;
  show_remote_cursor = false;
  privacy_mode = false;
  ip = [];
  peer_id = [];
  peer_name = [];
  peer_uid = [];
  disable_clipboard = false;
  disable_audio = false;
  enable_file_transfer = false;
  video_ack_required = false;
  server = server;
  login_failures = failures;
  click_time = 0;
  mouse_move_time = 0;
  permission = permission;
  done = [];
}

unfoldable pub report : Permission → Bool → Connection → Connection
report p true c = c
report p false c = send_permission p false c

-- What `start` sends before its loop, if the connection may open.
unfoldable pub open_connection : Machine → Text → Connection → Connection × Bool
open_connection m ip c =
    let r = on_open m ip c in
    if not r.1
    then (r.0, false)
    else (let c = report Permission.keyboard r.0.keyboard r.0 in
        let c = report Permission.clipboard c.clipboard c in
        let c = report Permission.audio c.audio c in (report Permission.file c.file c, true))

unfoldable pub remove_connection : Connection → Connection
remove_connection c = elim c.server [
  | none ↦ c
  | some s ↦ record c { server = some (Server.remove_connection s c.inner) }
]

unfoldable pub lock_at_end : Bool → Connection → Connection
lock_at_end lock c =
    if lock && c.lock_after_session_end && c.keyboard then act Effect.lock_screen c else c

unfoldable pub take_socket : Connection → Connection
take_socket c = record c { port_forward_socket = none }

unfoldable pub change_password : Machine → Connection → Connection
change_password m c =
    if m.pwdupd == bytes "1" then act (Effect.set_password m.auto_password) c else c

unfoldable pub on_close : Machine → Bool → Connection → Connection
on_close m lock c =
    let c = remove_connection (act (Effect.oplog (bytes "disconnected") (bytes "1")) c) in
    change_password m (take_socket (send_to_cm Data.close (lock_at_end lock c)))

unfoldable pub close_message : Machine → Text → Connection → Connection
close_message m reason c = on_close m false (send (Message.misc (Misc.close_reason reason)) c)

unfoldable pub get_connect_idle_val : Machine → ℕ
get_connect_idle_val m =
    if m.idle == bytes "0"
    then 10
    else if m.idle == bytes "1"
    then 30
    else if m.idle == bytes "2"
    then 60
    else if m.idle == bytes "3"
    then 180
    else 30

-- The clock does not go back below the last activity.
unfoldable pub check_client_idle_timeout : Machine → Connection → Bool
check_client_idle_timeout m c =
    not (c.latest_active_time == 0)
    && ltb (get_connect_idle_val m * 60 * 1000) (m.get_time - c.latest_active_time)

-- `Config::set_peer_permission(id, "file", val)`
unfoldable pub set_peer_permission : Text → Bool → Connection → Connection
set_peer_permission id val c = record c {
  permission =
      HashMap.insert c.permission (id ++ bytes "->file") (if val then bytes "1" else bytes "0");
}

unfoldable pub switch_permission : Text → Bool → Connection → Connection
switch_permission name enabled c =
    if name == bytes "keyboard"
    then (let c = send_permission Permission.keyboard enabled (record c { keyboard = enabled }) in
        subscribe name_cursor (enabled || c.show_remote_cursor) c)
    else if name == bytes "clipboard"
    then (let c = send_permission Permission.clipboard enabled (record c { clipboard = enabled }) in
        subscribe name_clipboard (clipboard_enabled c && c.keyboard) c)
    else if name == bytes "audio"
    then (let c = send_permission Permission.audio enabled (record c { audio = enabled }) in
        subscribe name_audio (audio_enabled c) c)
    else if name == bytes "file"
    then (let c = set_peer_permission c.peer_id enabled (record c { file = enabled }) in
        let c = send_permission Permission.file enabled c in
        send_to_cm (Data.clipboard_file_enabled (file_transfer_enabled c)) c)
    else c

-- How the main loop goes on: with the next event, out of the loop, or out of `start`.
pub data Turn : Type 0 where
  goes_on leaves returns : Turn

unfoldable pub from_cm : Machine → Data → Connection → Connection × Turn
from_cm m Data.authorize c =
    let c = act (Effect.oplog (bytes "connected") (bytes "accepted")) (send_logon_response m c) in
    (c, if is_some c.port_forward_socket then Turn.leaves else Turn.goes_on)
from_cm m Data.close c =
    let reason = Misc.close_reason (bytes "Closed manually by the peer") in
    (on_close m false (send (Message.misc reason) c), Turn.leaves)
from_cm m (Data.chat_message text) c =
    (send (Message.misc (Misc.chat_message text)) c, Turn.goes_on)
from_cm m (Data.switch_permission name enabled) c = (switch_permission name enabled c, Turn.goes_on)
from_cm m (Data.raw_message b) c = (act (Effect.send_raw b) c, Turn.goes_on)
from_cm m (Data.clipboard_file clip) c =
    (if file_transfer_enabled c then send (Message.cliprdr (some clip)) c else c, Turn.goes_on)
from_cm m d c = (c, Turn.goes_on)

-- The events of the loop. What is received is nothing when the stream ended or failed, and a frame
-- that may not parse. A frame in a queue carries how many milliseconds it waited, and whether it could
-- be sent; a tick of the delay timer carries how long nothing has been received.
pub data Event : Type 0 where
  manager : Data → Event
  received : Option (Option Message) → Event
  idle_check : Event
  timer : Event
  video : Message → Bool → Event
  queued : ℕ → Message → Bool → Event
  delay_check : ℕ → Event

unfoldable pub receive : Machine → Option (Option Message) → Connection → Connection × Turn
receive m none c = (on_close m true c, Turn.leaves)
receive m (some none) c = (c, Turn.goes_on)
receive m (some (some msg)) c =
    let r = on_message m msg c in (r.0, if r.1 then Turn.goes_on else Turn.leaves)

unfoldable pub read_on : Machine → Connection → Connection
read_on m c = if is_empty c.read_jobs then record c { fast_timer = false } else handle_read_jobs m c

unfoldable pub is_audio_frame : Message → Bool
is_audio_frame (Message.audio_frame a) = true
is_audio_frame msg = false

unfoldable pub send_or_close : Machine → Message → Bool → Connection → Connection × Turn
send_or_close m msg true c = (send msg c, Turn.goes_on)
send_or_close m msg false c = (on_close m false c, Turn.leaves)

unfoldable pub send_video : Machine → Message → Bool → Connection → Connection × Turn
send_video m msg sent c =
    send_or_close m msg sent (if c.video_ack_required then c else act Effect.video_frame_fetched c)

unfoldable pub check_delay : Machine → ℕ → Connection → Connection × Turn
check_delay m silence c =
    if not (ltb silence 30000)
    then (on_close m true c, Turn.leaves)
    else if ltb 0 m.get_time && c.last_test_delay == 0
    then (let msg = Message.test_delay (record { time = m.get_time; from_client = false }) in
        (queue msg (record c { last_test_delay = m.get_time }), Turn.goes_on))
    else (c, Turn.goes_on)

unfoldable pub turn : Machine → Event → Connection → Connection × Turn
turn m (Event.manager d) c = from_cm m d c
turn m (Event.received r) c = receive m r c
turn m Event.idle_check c =
    if check_client_idle_timeout m c
    then (close_message m (bytes "Failed") c, Turn.returns)
    else (c, Turn.goes_on)
turn m Event.timer c = (read_on m c, Turn.goes_on)
turn m (Event.video msg sent) c = send_video m msg sent c
turn m (Event.queued waited msg sent) c =
    if ltb 1000 waited && is_audio_frame msg then (c, Turn.goes_on) else send_or_close m msg sent c
turn m (Event.delay_check silence) c = check_delay m silence c

-- The loop, on the events that come; what the machine answers may differ from one to the next.
unfoldable pub loop : List (Machine × Event) → Connection → Connection × Turn
loop [] c = (c, Turn.goes_on)
loop (e ∷ es) c =
    let r = turn e.0 e.1 c in
    let rest = loop es r.0 in elim r.1 [ Turn.goes_on ↦ rest | t ↦ (r.0, t) ]
