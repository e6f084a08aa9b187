-- ===== src/Client/Proto.antt =====
-- The messages between the two sides of a session, once parsed, of
-- KdDeskTC_Client/libs/hbb_common/protos/message.proto. An `int32` or `int64` is its bits, read as a
-- number, and an enum field is its number on the wire, which need not name a variant.
use kd_desk_tc.Prelude.{ℕ, zero, suc, Bool, Option, none, some, List}
use kd_desk_tc.Proto.{Text}

pub record Hash : Type 0 where
  pub salt : Text
  pub challenge : Text

pub record FileTransfer : Type 0 where
  pub dir : Text
  pub show_hidden : Bool

pub record PortForward : Type 0 where
  pub host : Text
  pub port : ℕ

pub record OptionMessage : Type 0 where
  pub image_quality : ℕ
  pub lock_after_session_end : ℕ
  pub show_remote_cursor : ℕ
  pub privacy_mode : ℕ
  pub block_input : ℕ
  pub custom_image_quality : ℕ
  pub disable_audio : ℕ
  pub disable_clipboard : ℕ
  pub enable_file_transfer : ℕ

pub data BoolOption : Type 0 where
  not_set no yes : BoolOption

-- `enum_value()` of a field of type `BoolOption`.
unfoldable pub bool_option : ℕ → Option BoolOption
bool_option zero = some BoolOption.not_set
bool_option (suc zero) = some BoolOption.no
bool_option (suc (suc zero)) = some BoolOption.yes
bool_option (suc (suc (suc n))) = none

-- `enum_value()` of a field of type `ImageQuality`, with the variant's number.
unfoldable pub image_quality_value : ℕ → Option ℕ
image_quality_value zero = some 0
image_quality_value (suc zero) = none
image_quality_value (suc (suc zero)) = some 2
image_quality_value (suc (suc (suc zero))) = some 3
image_quality_value (suc (suc (suc (suc zero)))) = some 4
image_quality_value (suc (suc (suc (suc (suc n))))) = none

pub data LoginUnion : Type 0 where
  unset : LoginUnion
  file_transfer : FileTransfer → LoginUnion
  port_forward : PortForward → LoginUnion

pub record LoginRequest : Type 0 where
  pub username : Text
  pub password : Text
  pub my_id : Text
  pub my_name : Text
  pub option : Option OptionMessage
  pub union : LoginUnion
  pub video_ack_required : Bool
  pub my_uid : Text

pub record PeerInfo : Type 0 where
  pub username : Text
  pub hostname : Text
  pub platform : Text
  pub version : Text
  pub uid : Text
  pub sas_enabled : Bool
  pub displays : List Text
  pub current_display : ℕ

pub data LoginResponse : Type 0 where
  error : Text → LoginResponse
  peer_info : PeerInfo → LoginResponse

pub record TestDelay : Type 0 where
  pub time : ℕ
  pub from_client : Bool

pub record MouseEvent : Type 0 where
  pub mask : ℕ
  pub x : ℕ
  pub y : ℕ
  pub modifiers : List ℕ

pub data KeyUnion : Type 0 where
  unset : KeyUnion
  control_key : ℕ → KeyUnion
  chr : ℕ → KeyUnion
  unicode : ℕ → KeyUnion
  seq : Text → KeyUnion

pub record KeyEvent : Type 0 where
  pub down : Bool
  pub press : Bool
  pub union : KeyUnion
  pub modifiers : List ℕ

pub record Clipboard : Type 0 where
  pub compress : Bool
  pub content : Text

pub record FileEntry : Type 0 where
  pub entry_type : ℕ
  pub name : Text
  pub is_hidden : Bool
  pub size : ℕ
  pub modified_time : ℕ

pub record FileTransferBlock : Type 0 where
  pub id : ℕ
  pub file_num : ℕ
  pub payload : Text
  pub compressed : Bool

-- `file_action::Union`, with the fields of its messages.
pub data FileAction : Type 0 where
  unset : FileAction
  read_dir : Text → Bool → FileAction
  send : ℕ → Text → Bool → FileAction
  receive : ℕ → Text → List FileEntry → FileAction
  create : ℕ → Text → FileAction
  remove_dir : ℕ → Text → Bool → FileAction
  remove_file : ℕ → Text → ℕ → FileAction
  all_files : ℕ → Text → Bool → FileAction
  cancel : ℕ → FileAction

-- `file_response::Union`; a directory is a job, a path and entries, and an error is a job, a text and
-- the number of a file.
pub data FileResponse : Type 0 where
  unset : FileResponse
  dir : ℕ → Text → List FileEntry → FileResponse
  block : FileTransferBlock → FileResponse
  error : ℕ → Text → ℕ → FileResponse
  done : ℕ → ℕ → FileResponse

pub data Permission : Type 0 where
  keyboard clipboard audio file : Permission

pub record SwitchDisplay : Type 0 where
  pub display : ℕ
  pub x : ℕ
  pub y : ℕ
  pub width : ℕ
  pub height : ℕ

-- `misc::Union`; an option response carries its error.
pub data Misc : Type 0 where
  unset : Misc
  chat_message : Text → Misc
  switch_display : SwitchDisplay → Misc
  permission_info : Permission → Bool → Misc
  option : OptionMessage → Misc
  audio_format : Text → Misc
  close_reason : Text → Misc
  refresh_video : Bool → Misc
  option_response : Text → Misc
  video_received : Bool → Misc

-- `message::Union`. The payload of the messages that only pass through is a list of bytes; a
-- `cliprdr` carries what `msg_2_clip` makes of it, if anything. The last stands for the messages that
-- no code here looks into.
pub data Message : Type 0 where
  login_request : LoginRequest → Message
  login_response : LoginResponse → Message
  hash : Hash → Message
  test_delay : TestDelay → Message
  mouse_event : MouseEvent → Message
  key_event : KeyEvent → Message
  clipboard : Clipboard → Message
  cliprdr : Option Text → Message
  file_action : FileAction → Message
  file_response : FileResponse → Message
  misc : Misc → Message
  video_frame : Text → Message
  audio_frame : Text → Message
  other : Text → Message
