-- ===== src/Controller/Remote/FromUi.antt =====
-- `handle_msg_from_ui`: what the window asks of the session.
use kd_desk_tc.Prelude.{
  ℕ, Bool, true, false, Option, none, some, List, [], ◌∷◌, ◌++◌, nat_eq, if◌then◌else◌, get_elem?,
}
use kd_desk_tc.Proto.{Text}
use kd_desk_tc.HashMap
use kd_desk_tc.Client.Proto.{Message, FileAction, FileEntry, LoginRequest}
use kd_desk_tc.Client.Files.{get_recursive_files}
use kd_desk_tc.Client.Transfer.{Reader, new_read, new_write, get_job, remove_job, as_usize}
use kd_desk_tc.Client.Transfer.Write as Writing
use kd_desk_tc.Client.Connection.Files.{minus_one, io_error}
use kd_desk_tc.Controller.Login.{handle_login_from_ui}
use kd_desk_tc.Controller.LoginConfig.{LoginConfigHandler}
use kd_desk_tc.Controller.Remote.{
  Remote, RemoveJob, Station, Data, Call, send, call, get_path_sep, check_clipboard_file_context,
}
use kd_desk_tc.Controller.Remote.Jobs
use kd_desk_tc.Controller.Remote.Jobs.{handle_job_status}

unfoldable pub new_send : ℕ → Text → Bool → Message
new_send id path include_hidden = Message.file_action (FileAction.send id path include_hidden)

unfoldable pub new_receive : ℕ → Text → List FileEntry → Message
new_receive id path files = Message.file_action (FileAction.receive id path files)

unfoldable pub log_in : LoginConfigHandler × LoginRequest → Remote → Remote
log_in l r = send (Message.login_request l.1) (record r { lc = l.0 })

-- A new job that reads here and writes at the peer.
unfoldable pub send_local : Station → ℕ → Text → Option Reader → Remote → Remote
send_local st id to none r = handle_job_status st id minus_one (some io_error) r
send_local st id to (some job) r =
    let r = call (Call.update_folder_files job.id true job.files none) r in
    send (new_receive id to job.files)
      (record r { read_jobs = r.read_jobs ++ job ∷ []; fast_timer = true })

unfoldable pub send_files : Station → ℕ → Text → Text → Bool → Bool → Remote → Remote
send_files st id path to include_hidden is_remote r =
    if is_remote
    then send (new_send id path include_hidden)
        (record r { write_jobs = r.write_jobs ++ new_write id to [] ∷ [] })
    else send_local st id to (new_read st.depth st.system id path include_hidden) r

unfoldable pub confirm_delete : ℕ → ℕ → Remote → Remote
confirm_delete id file_num r = elim (HashMap.get r.remove_jobs id) [
  | none ↦ r
  | some job ↦ elim (get_elem? job.files (as_usize file_num)) [
    | none ↦ r
    | some f ↦ call (Call.confirm_delete_files id file_num f.name) r
  ]
]

unfoldable pub set_no_confirm : ℕ → Remote → Remote
set_no_confirm id r = elim (HashMap.get r.remove_jobs id) [
  | none ↦ r
  | some job ↦ record r {
    remove_jobs = HashMap.insert r.remove_jobs id (record job { no_confirm = true });
  }
]

unfoldable pub add_remove_job : ℕ → RemoveJob → Remote → Remote
add_remove_job id job r = record r { remove_jobs = HashMap.insert r.remove_jobs id job }

unfoldable pub remove_local_all :
    Station → ℕ → Text → Text → Option (List FileEntry) → Remote → Remote
remove_local_all st id path sep none r = handle_job_status st id minus_one (some io_error) r
remove_local_all st id path sep (some entries) r =
    add_remove_job id (Jobs.new st entries path sep false)
      (call (Call.update_folder_files id true entries none) r)

unfoldable pub remove_dir_all : Station → ℕ → Text → Bool → Remote → Remote
remove_dir_all st id path is_remote r =
    let sep = get_path_sep st is_remote r in
    if is_remote
    then add_remove_job id (Jobs.new st [] path sep true)
        (send (Message.file_action (FileAction.all_files id path true)) r)
    else remove_local_all st id path sep (get_recursive_files st.depth st.system path true) r

-- The file that a job was writing goes with it.
unfoldable pub drop_write_job : Station → ℕ → Remote → Remote
drop_write_job st id r = elim (get_job id r.write_jobs) [
  | none ↦ r
  | some job ↦ record r {
    disk = Writing.remove_download_file st.system job r.disk;
    write_jobs = remove_job id r.write_jobs;
  }
]

unfoldable pub cancel_job : Station → ℕ → Remote → Remote
cancel_job st id r =
    let r = drop_write_job st id (send (Message.file_action (FileAction.cancel id)) r) in
    record r {
      read_jobs = remove_job id r.read_jobs;
      remove_jobs = HashMap.remove r.remove_jobs id;
    }

unfoldable pub remove_file : Station → ℕ → Text → ℕ → Bool → Remote → Remote
remove_file st id path file_num is_remote r =
    if is_remote
    then send (Message.file_action (FileAction.remove_file id path file_num)) r
    else handle_job_status st id file_num (st.remove_file path) r

unfoldable pub create_dir : Station → ℕ → Text → Bool → Remote → Remote
create_dir st id path is_remote r =
    if is_remote
    then send (Message.file_action (FileAction.create id path)) r
    else handle_job_status st id minus_one (st.create_dir path) r

-- False means that the session ends.
unfoldable pub handle_msg_from_ui : Station → Data → Remote → Remote × Bool
handle_msg_from_ui st Data.close r = (r, false)
handle_msg_from_ui st (Data.login password remember) r =
    (log_in (handle_login_from_ui st.desk password remember r.lc) r, true)
handle_msg_from_ui st Data.toggle_clipboard_file r = (check_clipboard_file_context st r, true)
handle_msg_from_ui st (Data.message msg) r = (send msg r, true)
handle_msg_from_ui st (Data.send_files id path to include_hidden is_remote) r =
    (send_files st id path to include_hidden is_remote r, true)
handle_msg_from_ui st (Data.set_no_confirm id) r = (set_no_confirm id r, true)
handle_msg_from_ui st (Data.confirm_delete_files id file_num) r =
    (confirm_delete id file_num r, true)
handle_msg_from_ui st (Data.remove_dir_all id path is_remote) r =
    (remove_dir_all st id path is_remote r, true)
handle_msg_from_ui st (Data.cancel_job id) r = (cancel_job st id r, true)
handle_msg_from_ui st (Data.remove_dir id path) r =
    (send (Message.file_action (FileAction.remove_dir id path true)) r, true)
handle_msg_from_ui st (Data.remove_file id path file_num is_remote) r =
    (remove_file st id path file_num is_remote r, true)
handle_msg_from_ui st (Data.create_dir id path is_remote) r =
    (create_dir st id path is_remote r, true)
handle_msg_from_ui st Data.other r = (r, true)
