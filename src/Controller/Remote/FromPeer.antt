-- ===== src/Controller/Remote/FromPeer.antt =====
-- `handle_msg_from_peer`: what the peer sends, once parsed. Setting the stream of pictures up is one
-- call of the window.
use kd_desk_tc.Prelude.{
  ℕ, Bool, true, false, not, ◌&&◌, ◌||◌, Option, none, some, List, [], ◌∷◌, ◌==◌, nat_eq, list_eq,
  if◌then◌else◌, ltb, length, get_or,
}
use kd_desk_tc.Strings.{bytes}
use kd_desk_tc.Proto.{Text}
use kd_desk_tc.HashMap
use kd_desk_tc.Client.Proto.{
  Message, Misc, FileResponse, FileEntry, FileTransferBlock, LoginRequest, LoginResponse, PeerInfo,
  Permission, SwitchDisplay, Clipboard,
}
use kd_desk_tc.Client.Clipboard.{create_clipboard_msg, update_clipboard}
use kd_desk_tc.Client.Transfer.{TransferJob, get_job, remove_job}
use kd_desk_tc.Client.Transfer.Write as Writing
use kd_desk_tc.Client.Transfer.Write.{Writer}
use kd_desk_tc.Client.Connection.{positive}
use kd_desk_tc.Client.Connection.Login.{is_empty}
use kd_desk_tc.Controller.LoginConfig
use kd_desk_tc.Controller.LoginConfig.{LoginConfigHandler}
use kd_desk_tc.Controller.Login.{Msgbox, handle_hash, handle_login_error, handle_test_delay}
use kd_desk_tc.Controller.Remote.{
  Remote, Station, Data, Call, send, call, enqueue, show_msgbox, check_clipboard_file_context,
}
use kd_desk_tc.Controller.Remote.Jobs.{handle_job_status, update_jobs_status}

unfoldable pub send_some : Option Message → Remote → Remote
send_some none r = r
send_some (some msg) r = send msg r

unfoldable pub show_some : Option Msgbox → Remote → Remote
show_some none r = r
show_some (some b) r = call (Call.msgbox b) r

unfoldable pub on_video_frame : Text → Remote → Remote
on_video_frame vf r =
    let r =
      if not r.first_frame
      then call Call.adapt_size (call Call.close_success (record r { first_frame = true }))
      else r in
    call (Call.video_frame vf) r

unfoldable pub greet : LoginConfigHandler × LoginRequest × Option Msgbox → Remote → Remote
greet l r = show_some l.2 (send (Message.login_request l.1) (record r { lc = l.0 }))

unfoldable pub refuse : LoginConfigHandler × Msgbox × Bool → Remote → Remote × Bool
refuse l r = (call (Call.msgbox l.1) (record r { lc = l.0 }), l.2)

unfoldable pub keep_info : Station → Text → PeerInfo → Remote → Remote
keep_info st username pi r = record r { lc = LoginConfig.handle_peer_info st.desk username pi r.lc }

-- The display that is shown: the one that the peer names, or the first.
unfoldable pub shown_display : PeerInfo → ℕ
shown_display pi = if ltb pi.current_display (length pi.displays) then pi.current_display else 0

-- The end of `Handler::handle_peer_info`.
unfoldable pub show_info : Station → Text → PeerInfo → Remote → Remote
show_info st username pi r =
    let r =
      call (Call.update_pi username pi.hostname pi.platform pi.uid (shown_display pi))
        (keep_info st username pi r) in
    let r =
      if r.lc.is_file_transfer
      then call Call.close_success r
      else if not r.lc.is_port_forward
      then show_msgbox (bytes "success") (bytes "Successful")
          (bytes "Connected, waiting for image...") r
      else r in
    call Call.start_keyboard_hook (call Call.add_recent r)

-- A session for the screen, with a display at least.
unfoldable pub show_screen : Station → Text → PeerInfo → Remote → Remote
show_screen st username pi r =
    show_info st username pi (call (Call.set_display (get_or pi.displays (shown_display pi) [])) r)

unfoldable pub handle_peer_info : Station → PeerInfo → Remote → Remote
handle_peer_info st pi r =
    let username = LoginConfig.get_username r.lc pi in
    if r.lc.is_file_transfer
    then if pi.username == []
      then show_msgbox (bytes "error") (bytes "Error")
          (bytes "No active console user logged on, please connect and logon first.") r
      else show_info st username pi r
    else if r.lc.is_port_forward
    then show_info st username pi r
    else if is_empty pi.displays
    then show_msgbox (bytes "error") (bytes "Remote Error") (bytes "No Display")
        (keep_info st username pi r)
    else show_screen st username pi r

-- The own clipboard goes to the peer once it has answered, a moment later.
unfoldable pub share_clipboard : Station → Remote → Remote
share_clipboard st r =
    if r.lc.is_file_transfer
      || r.lc.is_port_forward
      || not r.clipboard_enabled
      || not r.keyboard_enabled
      || r.lc.config.disable_clipboard
    then r
    else if r.board.old == []
    then r
    else enqueue (Data.message (Message.clipboard (create_clipboard_msg st.zstd r.board.old))) r

unfoldable pub on_login_response : Station → LoginResponse → Remote → Remote × Bool
on_login_response st (LoginResponse.error err) r = refuse (handle_login_error err r.lc) r
on_login_response st (LoginResponse.peer_info pi) r =
    (share_clipboard st (check_clipboard_file_context st (handle_peer_info st pi r)), true)

-- The first job of the list that has this number is replaced.
unfoldable pub set_job :
    {F : Type 0} → ℕ → TransferJob F → List (TransferJob F) → List (TransferJob F)
set_job id new [] = []
set_job id new (job ∷ jobs) =
    let rest = set_job id new jobs in if job.id == id then new ∷ jobs else job ∷ rest

unfoldable pub set_remove_files : ℕ → List FileEntry → Remote → Remote
set_remove_files id entries r = elim (HashMap.get r.remove_jobs id) [
  | none ↦ r
  | some job ↦ record r {
    remove_jobs = HashMap.insert r.remove_jobs id (record job { files = entries });
  }
]

unfoldable pub on_dir : ℕ → Text → List FileEntry → Remote → Remote
on_dir id path entries r =
    let listed = positive 32 id in
    let r =
      call (Call.update_folder_files id listed entries (if listed then none else some path)) r in
    elim (get_job id r.write_jobs) [
      | none ↦ set_remove_files id entries r
      | some job ↦ record r {
        write_jobs = set_job id (record job { files = entries }) r.write_jobs;
      }
    ]

-- An error of `write` is dropped.
unfoldable pub write_block : Station → FileTransferBlock → Writer → Remote → Remote
write_block st b job r =
    let w = Writing.write st.system st.zstd st.write_outcome b none job r.disk in
    update_jobs_status st (record r { write_jobs = set_job b.id w.0 r.write_jobs; disk = w.1 })

unfoldable pub on_block : Station → FileTransferBlock → Remote → Remote
on_block st b r = elim (get_job b.id r.write_jobs) [ none ↦ r | some job ↦ write_block st b job r ]

unfoldable pub finish_write : Station → ℕ → Remote → Remote
finish_write st id r = elim (get_job id r.write_jobs) [
  | none ↦ r
  | some job ↦ record r {
    disk = Writing.modify_time st.system job r.disk;
    write_jobs = remove_job id r.write_jobs;
  }
]

unfoldable pub on_file_response : Station → FileResponse → Remote → Remote
on_file_response st FileResponse.unset r = r
on_file_response st (FileResponse.dir id path entries) r = on_dir id path entries r
on_file_response st (FileResponse.block b) r = on_block st b r
on_file_response st (FileResponse.done id file_num) r =
    handle_job_status st id file_num none (finish_write st id r)
on_file_response st (FileResponse.error id err file_num) r =
    handle_job_status st id file_num (some err) r

-- A file session keeps the context of the clipboard as it is when files are forbidden.
unfoldable pub on_file_permission : Station → Bool → Remote → Remote
on_file_permission st enabled r =
    let r = record r { file_enabled = enabled } in
    if not enabled && r.lc.is_file_transfer
    then r
    else call (Call.set_permission Permission.file enabled) (check_clipboard_file_context st r)

unfoldable pub on_permission : Station → Permission → Bool → Remote → Remote
on_permission st Permission.keyboard enabled r =
    call (Call.set_permission Permission.keyboard enabled) (record r { keyboard_enabled = enabled })
on_permission st Permission.clipboard enabled r =
    call (Call.set_permission Permission.clipboard enabled)
      (record r { clipboard_enabled = enabled })
on_permission st Permission.audio enabled r = call (Call.set_permission Permission.audio enabled) r
on_permission st Permission.file enabled r = on_file_permission st enabled r

unfoldable pub on_switch_display : SwitchDisplay → Remote → Remote
on_switch_display s r =
    let r = call Call.video_reset (call (Call.switch_display s.display) r) in
    if positive 32 s.width && positive 32 s.height then call (Call.start_streaming s) r else r

unfoldable pub on_misc : Station → Misc → Remote → Remote × Bool
on_misc st (Misc.audio_format f) r = (call (Call.audio_format f) r, true)
on_misc st (Misc.chat_message t) r = (call (Call.new_message t) r, true)
on_misc st (Misc.permission_info p enabled) r = (on_permission st p enabled r, true)
on_misc st (Misc.switch_display s) r = (on_switch_display s r, true)
on_misc st (Misc.close_reason c) r =
    (show_msgbox (bytes "error") (bytes "Connection Error") c r, false)
on_misc st (Misc.option_response err) r =
    (show_msgbox (bytes "custom-error") (bytes "Option Error") err r, true)
on_misc st misc r = (r, true)

unfoldable pub on_clipboard : Station → Clipboard → Remote → Remote
on_clipboard st cb r =
    if not r.lc.config.disable_clipboard
    then record r { board = update_clipboard st.zstd st.utf8 st.has_clipboard cb r.board }
    else r

-- Files on the clipboard are the context's.
unfoldable pub on_cliprdr : Option Text → Remote → Remote
on_cliprdr none r = r
on_cliprdr (some clip) r =
    if not r.lc.config.disable_clipboard && r.clipboard_file_context
    then call (Call.clip_file clip) r
    else r

-- False means that the session ends.
unfoldable pub handle_msg_from_peer : Station → Message → Remote → Remote × Bool
handle_msg_from_peer st (Message.video_frame vf) r = (on_video_frame vf r, true)
handle_msg_from_peer st (Message.hash hash) r = (greet (handle_hash st.desk hash r.lc) r, true)
handle_msg_from_peer st (Message.login_response lr) r = on_login_response st lr r
handle_msg_from_peer st (Message.file_response fr) r = (on_file_response st fr r, true)
handle_msg_from_peer st (Message.misc misc) r = on_misc st misc r
handle_msg_from_peer st (Message.clipboard cb) r = (on_clipboard st cb r, true)
handle_msg_from_peer st (Message.cliprdr clip) r = (on_cliprdr clip r, true)
handle_msg_from_peer st (Message.test_delay t) r = (send_some (handle_test_delay t) r, true)
handle_msg_from_peer st (Message.audio_frame a) r =
    (if not r.lc.config.disable_audio then call (Call.audio_frame a) r else r, true)
handle_msg_from_peer st msg r = (r, true)
