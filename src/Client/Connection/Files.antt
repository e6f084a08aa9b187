-- ===== src/Client/Connection/Files.antt =====
-- The file actions and file responses of `on_message`. The connection manager writes the files; the
-- connection itself reads the files that it sends.
use kd_desk_tc.Prelude.{
  ℕ, ◌-◌, ◌^◌, Bool, true, false, Option, none, some, List, [], ◌∷◌, ◌++◌, if◌then◌else◌,
}
use kd_desk_tc.Strings.{bytes}
use kd_desk_tc.Proto.{Text}
use kd_desk_tc.Client.Proto.{Message, FileEntry, FileAction, FileResponse, FileTransferBlock}
use kd_desk_tc.Client.Files.{get_recursive_files}
use kd_desk_tc.Client.Transfer
use kd_desk_tc.Client.Transfer.{
  Reader, ReadResult, new_read, new_read_total_size, new_read_is_too_large, remove_job, sum_sizes,
}
use kd_desk_tc.Client.Connection.{Connection, Machine, Effect, Fs, act, send, send_fs}

abbrev pub minus_one : ℕ
minus_one = 2 ^ 32 - 1

unfoldable pub new_error : ℕ → Text → ℕ → Message
new_error id err file_num = Message.file_response (FileResponse.error id err file_num)

unfoldable pub new_dir : ℕ → List FileEntry → Message
new_dir id files = Message.file_response (FileResponse.dir id [] files)

unfoldable pub new_block : FileTransferBlock → Message
new_block b = Message.file_response (FileResponse.block b)

unfoldable pub new_done : ℕ → ℕ → Message
new_done id file_num = Message.file_response (FileResponse.done id file_num)

unfoldable pub names_and_times : List FileEntry → List (Text × ℕ)
names_and_times [] = []
names_and_times (f ∷ fs) = (f.name, f.modified_time) ∷ names_and_times fs

-- The text of an error of the file system is left out.
unfoldable pub io_error : Text
io_error = []

unfoldable pub all_files : Machine → ℕ → Text → Bool → Connection → Connection
all_files m id path include_hidden c =
    elim (get_recursive_files m.depth m.system path include_hidden) [
      | none ↦ send (new_error id io_error minus_one) c
      | some files ↦ send (new_dir id files) c
    ]

unfoldable pub start_reading : ℕ → Option Reader → Connection → Connection
start_reading id none c = send (new_error id io_error 0) c
start_reading id (some job) c =
    let c = send (new_dir id job.files) c in
    record c { read_jobs = c.read_jobs ++ job ∷ []; fast_timer = true }

unfoldable pub send_files : Machine → ℕ → Text → Bool → Connection → Connection
send_files m id path include_hidden c =
    if new_read_is_too_large m.depth m.system path include_hidden
    then (let c = send_fs (Fs.cancel_write id) c in
        let c = record c { read_jobs = remove_job id c.read_jobs } in
        send (new_error id (bytes "The size of file is over 50M") minus_one) c)
    else (let size = new_read_total_size m.depth m.system path include_hidden in
        let c = act (Effect.oplog (bytes "sent") (m.show_int size ++ bytes "|" ++ path)) c in
        start_reading id (new_read m.depth m.system id path include_hidden) c)

unfoldable pub file_action : Machine → FileAction → Connection → Connection
file_action m FileAction.unset c = c
file_action m (FileAction.read_dir path include_hidden) c =
    send_fs (Fs.read_dir path include_hidden) c
file_action m (FileAction.all_files id path include_hidden) c = all_files m id path include_hidden c
file_action m (FileAction.send id path include_hidden) c = send_files m id path include_hidden c
file_action m (FileAction.receive id path files) c =
    let remark = m.show_int (sum_sizes files) ++ bytes "|" ++ path in
    send_fs (Fs.new_write path id (names_and_times files))
      (act (Effect.oplog (bytes "received") remark) c)
file_action m (FileAction.remove_dir id path recursive) c =
    send_fs (Fs.remove_dir path id recursive)
      (act (Effect.oplog (bytes "removed directory") path) c)
file_action m (FileAction.remove_file id path file_num) c =
    send_fs (Fs.remove_file path id file_num) (act (Effect.oplog (bytes "removed file") path) c)
file_action m (FileAction.create id path) c = send_fs (Fs.create_dir path id) c
file_action m (FileAction.cancel id) c =
    let c = send_fs (Fs.cancel_write id) c in record c { read_jobs = remove_job id c.read_jobs }

unfoldable pub file_response : FileResponse → Connection → Connection
file_response (FileResponse.block b) c =
    send_fs (Fs.write_block b.id b.file_num b.payload b.compressed) c
file_response (FileResponse.done id file_num) c = send_fs (Fs.write_done id file_num) c
file_response r c = c

-- `handle_read_jobs`, called when the timer ticks: each job reads once.
unfoldable pub answer : Reader → ReadResult → Message
answer job ReadResult.failed = new_error job.id io_error job.file_num
answer job (ReadResult.block b) = new_block b
answer job ReadResult.finished = new_done job.id job.file_num

unfoldable pub is_finished : ReadResult → Bool
is_finished ReadResult.finished = true
is_finished r = false

unfoldable pub read_jobs : Machine → List Reader → List Reader × List Message × List ℕ
read_jobs m [] = ([], [], [])
read_jobs m (job ∷ jobs) =
    let r = Transfer.read m.zstd m.system m.open_file job in
    let rest = read_jobs m jobs in
    (r.0 ∷ rest.0, answer r.0 r.1 ∷ rest.1, if is_finished r.1 then r.0.id ∷ rest.2 else rest.2)

unfoldable pub remove_jobs : List ℕ → List Reader → List Reader
remove_jobs [] jobs = jobs
remove_jobs (id ∷ ids) jobs = remove_jobs ids (remove_job id jobs)

unfoldable pub send_each : List Message → Connection → Connection
send_each [] c = c
send_each (msg ∷ msgs) c = send_each msgs (send msg c)

-- The sends succeed; the connection is closed when one fails.
unfoldable pub handle_read_jobs : Machine → Connection → Connection
handle_read_jobs m c =
    let r = read_jobs m c.read_jobs in record (send_each r.1 c) { read_jobs = remove_jobs r.2 r.0 }
