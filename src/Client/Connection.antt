-- ===== src/Client/Connection.antt =====
-- KdDeskTC_Client/src/server/connection.rs: the state of a connection of the controlled machine, and
-- what it does to the world. What the source sends, starts or writes to disk is recorded, in order,
-- in `done`; the tables that connections share are part of the state. Each handler is a function of
-- this state. The code for Windows is modelled.
pub mod Options
pub mod Login
pub mod Files
pub mod Dispatch
pub mod Lifecycle
use kd_desk_tc.Prelude.{
  ℕ, ◌+◌, ◌-◌, ◌/◌, ◌%◌, ◌^◌, Bool, true, false, not, ◌&&◌, ◌||◌, Option, none, some, List, [], ◌∷◌,
  ◌++◌, ◌==◌, nat_eq, list_eq, if◌then◌else◌, ltb,
}
use kd_desk_tc.Strings.{bytes}
use kd_desk_tc.Proto.{Text}
use kd_desk_tc.HashMap
use kd_desk_tc.HashMap.{HashMap}
use kd_desk_tc.Client.Proto.{
  Hash, Message, Misc, MouseEvent, KeyEvent, Clipboard, LoginResponse, PeerInfo, Permission,
  FileTransfer,
}
use kd_desk_tc.Client.Service
use kd_desk_tc.Client.Service.{ConnInner, Sent}
use kd_desk_tc.Client.Server.{Server}
use kd_desk_tc.Client.Server
use kd_desk_tc.Client.Files.{System}
use kd_desk_tc.Client.Transfer.{TransferJob, Reader, Opened}
use kd_desk_tc.Client.Compress.{Zstd}

pub data MessageInput : Type 0 where
  mouse : MouseEvent → ℕ → MessageInput
  key : KeyEvent → Bool → MessageInput
  block_on block_off privacy_on privacy_off : MessageInput

-- `ipc::FS`
pub data Fs : Type 0 where
  read_dir : Text → Bool → Fs
  remove_dir : Text → ℕ → Bool → Fs
  remove_file : Text → ℕ → ℕ → Fs
  create_dir : Text → ℕ → Fs
  new_write : Text → ℕ → List (Text × ℕ) → Fs
  cancel_write : ℕ → Fs
  write_block : ℕ → ℕ → Text → Bool → Fs
  write_done : ℕ → ℕ → Fs

-- `ipc::Data::Login`
pub record LoginData : Type 0 where
  pub id : ℕ
  pub is_file_transfer : Bool
  pub peer_id : Text
  pub name : Text
  pub authorized : Bool
  pub port_forward : Text
  pub keyboard : Bool
  pub clipboard : Bool
  pub audio : Bool
  pub file : Bool
  pub file_transfer_enabled : Bool

-- `ipc::Data`, the messages to and from the connection manager.
pub data Data : Type 0 where
  login : LoginData → Data
  chat_message : Text → Data
  switch_permission : Text → Bool → Data
  authorize : Data
  close : Data
  raw_message : Text → Data
  fs : Fs → Data
  test : Data
  clipboard_file : Text → Data
  clipboard_file_enabled : Bool → Data
  other : Data

-- What a handler does besides changing the state. A line of the operation log is its type, in
-- English here, and its remark.
pub data Effect : Type 0 where
  sends : Message → Effect
  send_raw : Text → Effect
  queues : Sent → Effect
  to_cm : Data → Effect
  input : MessageInput → Effect
  update_clipboard : Clipboard → Effect
  image_quality : ℕ → Effect
  test_latency : ℕ → Effect
  switch_display : ℕ → Effect
  refresh_video : Effect
  video_frame_fetched : Effect
  activate_screen : Effect
  lock_screen : Effect
  oplog : Text → Text → Effect
  sleep : Effect
  set_password : Text → Effect

-- `LOGIN_FAILURES`: the minute of the last failure, the failures in it, and all failures.
pub record Failures : Type 0 where
  pub minute : ℕ
  pub in_minute : ℕ
  pub total : ℕ

pub record Connection : Type 0 where
  pub inner : ConnInner
  pub hash : Hash
  pub read_jobs : List Reader
  pub fast_timer : Bool
  pub file_transfer : Option FileTransfer
  pub port_forward_socket : Option Text
  pub port_forward_address : Text
  pub authorized : Bool
  pub latest_active_time : ℕ
  pub keyboard : Bool
  pub clipboard : Bool
  pub audio : Bool
  pub file : Bool
  pub last_test_delay : ℕ
  pub image_quality : ℕ
  pub lock_after_session_end : Bool
  pub show_remote_cursor : Bool
  pub privacy_mode : Bool
  pub ip : Text
  pub peer_id : Text
  pub peer_name : Text
  pub peer_uid : Text
  pub disable_clipboard : Bool
  pub disable_audio : Bool
  pub enable_file_transfer : Bool
  pub video_ack_required : Bool
  -- What it shares with others: the server, if it still stands, the failures of all addresses, the
  -- times of clicks and moves, and the permissions of peers in the configuration.
  pub server : Option Server
  pub login_failures : HashMap Text Failures
  pub click_time : ℕ
  pub mouse_move_time : ℕ
  pub permission : HashMap Text Text
  pub done : List Effect

-- What the machine answers: its configuration, its clock in milliseconds, its hash function and what
-- it knows of itself. `tcp_connect` tells whether an address takes a connection within 3 seconds.
pub record Machine : Type 0 where
  pub get_time : ℕ
  pub option : Text → Text
  pub config_id : Text
  pub config_uid : Text
  pub config_password : Text
  pub auto_password : Text
  pub salt : Text
  pub idle : Text
  pub flagex : Text
  pub pwdupd : Text
  pub sha256 : Text → Text
  pub is_ip : Text → Bool
  pub ip_to_string : Text → Text
  pub parse_ip : Text → Option Text
  pub show_int : ℕ → Text
  pub tcp_connect : Text → Bool
  pub active_username : Text
  pub hostname : Text
  pub platform : Text
  pub version : Text
  pub is_root : Bool
  pub is_prelogin : Bool
  pub cm_is_gone : Bool
  pub displays : Option (List Text × ℕ)
  pub depth : ℕ
  pub system : System
  pub zstd : Zstd
  pub open_file : Opened

-- The bits of an `i32` or `i64` that is more than 0.
unfoldable pub positive : ℕ → ℕ → Bool
positive width x = ltb 0 x && ltb x (2 ^ (width - 1))

unfoldable pub act : Effect → Connection → Connection
act e c = record c { done = c.done ++ e ∷ [] }

unfoldable pub send : Message → Connection → Connection
unfolding act
send msg c = act (Effect.sends msg) c

unfoldable pub send_to_cm : Data → Connection → Connection
unfolding act
send_to_cm d c = act (Effect.to_cm d) c

unfoldable pub send_fs : Fs → Connection → Connection
unfolding send_to_cm
send_fs f c = send_to_cm (Data.fs f) c

unfoldable pub send_login_error : Text → Connection → Connection
unfolding send
send_login_error err c = send (Message.login_response (LoginResponse.error err)) c

unfoldable pub send_permission : Permission → Bool → Connection → Connection
unfolding send
send_permission p enabled c = send (Message.misc (Misc.permission_info p enabled)) c

unfoldable pub input_mouse : MouseEvent → ℕ → Connection → Connection
unfolding act
input_mouse msg conn_id c = act (Effect.input (MessageInput.mouse msg conn_id)) c

unfoldable pub input_key : KeyEvent → Bool → Connection → Connection
unfolding act
input_key msg press c = act (Effect.input (MessageInput.key msg press)) c

-- `self.inner.send(msg)`, which puts the message into the connection's own queue.
unfoldable pub queue : Message → Connection → Connection
unfolding act
queue msg c = act (Effect.queues (Service.send c.inner msg)) c

unfoldable pub clipboard_enabled : Connection → Bool
clipboard_enabled c = c.clipboard && not c.disable_clipboard

unfoldable pub audio_enabled : Connection → Bool
audio_enabled c = c.audio && not c.disable_audio

unfoldable pub file_transfer_enabled : Connection → Bool
file_transfer_enabled c = c.file && c.enable_file_transfer

unfoldable pub is_some {ℓ} : {A : Type ℓ} → Option A → Bool
is_some none = false
is_some (some a) = true

-- `self.server.upgrade()` and, if the server stands, a subscription to one of its services.
unfoldable pub subscribe : Text → Bool → Connection → Connection
subscribe name sub c = elim c.server [
  | none ↦ c
  | some s ↦ record c { server = some (Server.subscribe s name c.inner sub) }
]

unfoldable pub touch : Machine → Connection → Connection
touch m c = record c { latest_active_time = m.get_time }
