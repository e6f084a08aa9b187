-- ===== src/Controller/Remote.antt =====
-- `Remote` of KdDeskTC_Client/src/ui/remote.rs: the window of a session on the controlling side, and
-- what it does. What the source sends to the peer, to its own queue and to the window is recorded, in
-- order, in lists; the disk and the settings are part of the state. The code for Windows is modelled.
-- Pictures and sounds, and the cursor of the peer, only pass through to the window.
pub mod Jobs
pub mod FromUi
pub mod FromPeer
pub mod Turn
pub mod Cancel
use kd_desk_tc.Prelude.{
  ℕ, ◌%◌, ◌^◌, Bool, true, false, not, ◌&&◌, Option, none, some, List, [], ◌∷◌, ◌++◌, ◌==◌, list_eq,
  nat_eq, bool_eq, if◌then◌else◌,
}
use kd_desk_tc.Strings.{bytes}
use kd_desk_tc.Proto.{Text}
use kd_desk_tc.HashMap.{HashMap}
use kd_desk_tc.Client.Proto.{Message, FileEntry, Permission, SwitchDisplay, LoginRequest}
use kd_desk_tc.Client.Files.{System}
use kd_desk_tc.Client.Clipboard.{Board}
use kd_desk_tc.Client.Compress.{Zstd}
use kd_desk_tc.Client.Transfer.{TransferJob, Reader, Opened}
use kd_desk_tc.Client.Transfer.Disk.{Disk}
use kd_desk_tc.Client.Transfer.Write as Writing
use kd_desk_tc.Client.Transfer.Write.{Writer}
use kd_desk_tc.Controller.LoginConfig.{LoginConfigHandler, Desk}
use kd_desk_tc.Controller.Login.{Msgbox}

-- `client::Data`, what the window asks of the session.
pub data Data : Type 0 where
  close : Data
  login : Text → Bool → Data
  message : Message → Data
  send_files : ℕ → Text → Text → Bool → Bool → Data
  remove_dir_all : ℕ → Text → Bool → Data
  confirm_delete_files : ℕ → ℕ → Data
  set_no_confirm : ℕ → Data
  remove_dir : ℕ → Text → Data
  remove_file : ℕ → Text → ℕ → Bool → Data
  create_dir : ℕ → Text → Bool → Data
  cancel_job : ℕ → Data
  toggle_clipboard_file : Data
  other : Data

-- What the session asks of the window. Entries are counted or listed; a progress is the bytes since
-- the last one and the milliseconds that they took, from which the source divides a speed.
pub data Call : Type 0 where
  msgbox : Msgbox → Call
  job_error : ℕ → Text → ℕ → Call
  job_done : ℕ → ℕ → Call
  job_progress : ℕ → ℕ → ℕ → ℕ → ℕ → Call
  update_folder_files : ℕ → Bool → List FileEntry → Option Text → Call
  confirm_delete_files : ℕ → ℕ → Text → Call
  set_permission : Permission → Bool → Call
  new_message : Text → Call
  switch_display : ℕ → Call
  start_streaming : SwitchDisplay → Call
  set_display : Text → Call
  update_pi : Text → Text → Text → Text → ℕ → Call
  close_success adapt_size : Call
  video_frame : Text → Call
  video_reset : Call
  audio_frame : Text → Call
  audio_format : Text → Call
  add_recent start_keyboard_hook : Call
  clip_file : Text → Call

pub record RemoveJob : Type 0 where
  pub files : List FileEntry
  pub path : Text
  pub sep : Text
  pub is_remote : Bool
  pub no_confirm : Bool
  pub last_update_job_status : ℕ

pub record Remote : Type 0 where
  pub lc : LoginConfigHandler
  pub read_jobs : List Reader
  pub write_jobs : List Writer
  pub remove_jobs : HashMap ℕ RemoveJob
  pub fast_timer : Bool
  pub last_update : ℕ
  pub last_transferred : HashMap ℕ ℕ
  pub last_recv_time : ℕ
  pub first_frame : Bool
  pub board : Board
  pub clipboard_file_context : Bool
  -- `SERVER_KEYBOARD_ENABLED`, `SERVER_CLIPBOARD_ENABLED` and `SERVER_FILE_TRANSFER_ENABLED`
  pub keyboard_enabled : Bool
  pub clipboard_enabled : Bool
  pub file_enabled : Bool
  pub disk : Disk
  -- What it has sent to the peer, to its own queue (`sender`) and to the window.
  pub sent : List Message
  pub queue : List Data
  pub calls : List Call

-- What the machine of the window answers. An error of the file system is its text.
pub record Station : Type 0 where
  pub desk : Desk
  pub now : ℕ
  pub platform : Text
  pub depth : ℕ
  pub system : System
  pub zstd : Zstd
  pub open_file : Opened
  pub write_outcome : Writing.Outcome
  pub remove_file : Text → Option Text
  pub create_dir : Text → Option Text
  pub can_create_context : Bool
  -- whether bytes are UTF-8, and whether there is a clipboard
  pub utf8 : Text → Bool
  pub has_clipboard : Bool

unfoldable pub send : Message → Remote → Remote
send msg r = record r { sent = r.sent ++ msg ∷ [] }

unfoldable pub call : Call → Remote → Remote
call c r = record r { calls = r.calls ++ c ∷ [] }

unfoldable pub enqueue : Data → Remote → Remote
enqueue d r = record r { queue = r.queue ++ d ∷ [] }

unfoldable pub show_msgbox : Text → Text → Text → Remote → Remote
unfolding call
show_msgbox msgtype title text r =
    call (Call.msgbox (record { msgtype = msgtype; title = title; text = text })) r

unfoldable pub get_platform : Station → Bool → Remote → Text
get_platform st is_remote r = if is_remote then r.lc.config.info.platform else st.platform

unfoldable pub get_path_sep : Station → Bool → Remote → Text
get_path_sep st is_remote r =
    if get_platform st is_remote r == bytes "Windows" then bytes "\\" else bytes "/"

-- The context for files on the clipboard exists exactly while both sides want it, if it can be made.
unfoldable pub check_clipboard_file_context : Station → Remote → Remote
check_clipboard_file_context st r =
    let enabled = r.file_enabled && r.lc.config.enable_file_transfer in
    if enabled == not r.clipboard_file_context
    then record r { clipboard_file_context = enabled && st.can_create_context }
    else r
