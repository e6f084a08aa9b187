-- ===== src/Controller/Remote/Jobs.antt =====
-- The jobs of a session: their states as the window shows them, and the files that are removed one
-- after the other.
pub mod Removal
pub mod Rounds
pub mod Walk
use kd_desk_tc.Prelude.{
  ℕ, ◌+◌, ◌-◌, ◌/◌, ◌%◌, ◌^◌, Bool, true, false, not, ◌&&◌, ◌||◌, Option, none, some, List, [], ◌∷◌,
  ◌++◌, ◌==◌, nat_eq, if◌then◌else◌, ltb, length, get_elem?,
}
use kd_desk_tc.Proto.{Text}
use kd_desk_tc.HashMap
use kd_desk_tc.HashMap.{HashMap}
use kd_desk_tc.Client.Proto.{FileEntry}
use kd_desk_tc.Client.Transfer.{TransferJob, as_usize, next_num}
use kd_desk_tc.Controller.Remote.{Remote, RemoveJob, Station, Data, Call, call, enqueue}

unfoldable pub new : Station → List FileEntry → Text → Text → Bool → RemoveJob
new st files path sep is_remote = record {
  files = files;
  path = path;
  sep = sep;
  is_remote = is_remote;
  no_confirm = false;
  last_update_job_status = st.now;
}

-- `job.last_update_job_status.elapsed().as_millis() as i32 >= 1000`
unfoldable pub second_past : ℕ → ℕ → Bool
second_past now before =
    let elapsed = (now - before) % 2 ^ 32 in ltb 999 elapsed && ltb elapsed (2 ^ 31)

unfoldable pub show_status : ℕ → ℕ → Option Text → Remote → Remote
show_status id file_num none r = call (Call.job_done id file_num) r
show_status id file_num (some err) r = call (Call.job_error id err file_num) r

-- The next file of a job that removes without asking.
unfoldable pub remove_next :
    Station → ℕ → ℕ → Option Text → RemoveJob → ℕ → FileEntry → Remote → Remote
remove_next st id file_num err job next f r =
    let r = enqueue (Data.remove_file id (job.path ++ job.sep ++ f.name) next job.is_remote) r in
    if second_past st.now job.last_update_job_status
    then show_status id file_num err (record r {
      remove_jobs =
          HashMap.insert r.remove_jobs id (record job { last_update_job_status = st.now });
    })
    else r

unfoldable pub job_status : Station → ℕ → ℕ → Option Text → RemoveJob → Remote → Remote
job_status st id file_num err job r =
    if job.no_confirm
    then elim (get_elem? job.files (as_usize (next_num file_num))) [
      | none ↦
          show_status id file_num err (record r { remove_jobs = HashMap.remove r.remove_jobs id })
      | some f ↦ remove_next st id file_num err job (next_num file_num) f r
    ]
    else show_status id file_num err r

unfoldable pub handle_job_status : Station → ℕ → ℕ → Option Text → Remote → Remote
handle_job_status st id file_num err r = elim (HashMap.get r.remove_jobs id) [
  | none ↦ show_status id file_num err r
  | some job ↦ job_status st id file_num err job r
]

-- The progress of a job: the bytes since the last time, in 64 bits, and the milliseconds, the bits of
-- an `i32`.
unfoldable pub update_job_status : {F : Type 0} → TransferJob F → ℕ → Remote → Remote
update_job_status job elapsed r =
    if not (ltb 0 elapsed && ltb elapsed (2 ^ 31))
    then r
    else (let last : ℕ = elim (HashMap.get r.last_transferred job.id) [ none ↦ 0 | some n ↦ n ] in
        call
          (Call.job_progress job.id ((job.file_num + 2 ^ 32 - 1) % 2 ^ 32)
            ((job.transferred + 2 ^ 64 - last) % 2 ^ 64) elapsed job.finished_size)
          (record r {
            last_transferred = HashMap.insert r.last_transferred job.id job.transferred;
          }))

unfoldable pub update_each : {F : Type 0} → List (TransferJob F) → ℕ → Remote → Remote
update_each [] elapsed r = r
update_each (job ∷ jobs) elapsed r = update_each jobs elapsed (update_job_status job elapsed r)

unfoldable pub update_jobs_status : Station → Remote → Remote
update_jobs_status st r =
    if second_past st.now r.last_update
    then (let elapsed = (st.now - r.last_update) % 2 ^ 32 in
        let r = update_each r.read_jobs elapsed r in
        let r = update_each r.write_jobs elapsed r in record r { last_update = st.now })
    else r
