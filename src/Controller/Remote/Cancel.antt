-- ===== src/Controller/Remote/Cancel.antt =====
-- What the peer still sends for a job that the window has cancelled.
use kd_desk_tc.Prelude.{
  ℕ, ◌≡◌, inl, inr, refl, sym, ap, subst, ◌∙◌, arith, Option, none, some, List, [], ◌∷◌, nat_eq,
  All, Option-cases,
}
use mathlib.Core.Option.{some-injective}
use kd_desk_tc.Proto.{Text}
use kd_desk_tc.HashMap
use kd_desk_tc.Client.Proto.{Message, FileResponse, FileTransferBlock}
use kd_desk_tc.Client.Transfer.{TransferJob, get_job, remove_job}
use kd_desk_tc.Controller.Remote.{Remote, Station, Data, call, send}
use kd_desk_tc.Controller.Remote.Jobs.{handle_job_status, show_status}
use kd_desk_tc.Controller.Remote.FromUi.{handle_msg_from_ui, cancel_job, drop_write_job}
use kd_desk_tc.Controller.Remote.FromPeer as FromPeer
use kd_desk_tc.Controller.Remote.FromPeer.{handle_msg_from_peer}

-- A session without what its window was told.
unfoldable pub stripped : Remote → Remote
stripped r = record r { calls = [] }

-- The job that a response is about.
unfoldable pub job_number : FileResponse → Option ℕ
job_number FileResponse.unset = none
job_number (FileResponse.dir id path entries) = some id
job_number (FileResponse.block b) = some b.id
job_number (FileResponse.done id file_num) = some id
job_number (FileResponse.error id err file_num) = some id

-- The responses that a session receives, one after the other.
unfoldable pub receive_all : List (Station × FileResponse) → Remote → Remote
receive_all [] r = r
receive_all ((st, fr) ∷ rest) r =
    receive_all rest (handle_msg_from_peer st (Message.file_response fr) r).0

get_job-remove_job :
    {F : Type 0} → (id : ℕ) (jobs : List (TransferJob F)) → get_job id (remove_job id jobs) ≡ none
unfolding get_job remove_job
get_job-remove_job id [] = refl
get_job-remove_job id (job ∷ jobs) = ground (arith, get_job-remove_job id jobs)

-- A session that neither writes nor removes for a job.
unfoldable pub Gone : ℕ → Remote → Type 0
Gone id r = (get_job id r.write_jobs ≡ none) × (HashMap.get r.remove_jobs id ≡ none)

Gone-stripped : (id : ℕ) (r s : Remote) → stripped s ≡ stripped r → Gone id r → Gone id s
unfolding Gone stripped
Gone-stripped id r s e g = (
  ap (λ (t : Remote). get_job id t.write_jobs) e ∙ g.0,
  ap (λ (t : Remote). HashMap.get t.remove_jobs id) e ∙ g.1,
)

stripped-show_status :
    (id n : ℕ) (err : Option _) (r : Remote) → stripped (show_status id n err r) ≡ stripped r
unfolding stripped show_status call
stripped-show_status id n none r = refl
stripped-show_status id n (some err) r = refl

stripped-status :
    (st : Station) (id n : ℕ) (err : Option _) (r : Remote)
    → HashMap.get r.remove_jobs id ≡ none
    → stripped (handle_job_status st id n err r) ≡ stripped r
unfolding handle_job_status
stripped-status st id n err r h = rw (handle_job_status, h) (stripped-show_status id n err r)

finished :
    (st : Station) (id : ℕ) (r : Remote)
    → get_job id r.write_jobs ≡ none
    → FromPeer.finish_write st id r ≡ r
unfolding FromPeer.finish_write
finished st id r h = rw (FromPeer.finish_write, h) refl

kept_files :
    (id : ℕ) (entries : List _) (r : Remote)
    → HashMap.get r.remove_jobs id ≡ none
    → FromPeer.set_remove_files id entries r ≡ r
unfolding FromPeer.set_remove_files
kept_files id entries r h = rw (FromPeer.set_remove_files, h) refl

listed :
    (id : ℕ) (path : Text) (entries : List _) (r : Remote)
    → Gone id r
    → stripped (FromPeer.on_dir id path entries r) ≡ stripped r
unfolding Gone FromPeer.on_dir call stripped
listed id path entries r g =
    rw (FromPeer.on_dir, g.0) (ap stripped (kept_files id entries (call _ r) g.1))

unwritten :
    (st : Station) (b : FileTransferBlock) (r : Remote)
    → get_job b.id r.write_jobs ≡ none
    → FromPeer.on_block st b r ≡ r
unfolding FromPeer.on_block
unwritten st b r h = rw (FromPeer.on_block, h) refl

-- A response for a job that is gone only changes what the window shows.
still :
    (st : Station) (id : ℕ) (fr : FileResponse) (r : Remote)
    → job_number fr ≡ some id
    → Gone id r
    → stripped (FromPeer.on_file_response st fr r) ≡ stripped r
unfolding FromPeer.on_file_response job_number Gone
still st id FileResponse.unset r e g = refl
still st id (FileResponse.dir k path entries) r e g =
    listed k path entries r (subst (λ (n : ℕ). Gone n r) (sym (some-injective k id e)) g)
still st id (FileResponse.block b) r e g =
    ap stripped
      (unwritten st b r (subst (λ (n : ℕ). Gone n r) (sym (some-injective b.id id e)) g).0)
still st id (FileResponse.done k n) r e g =
    let h = subst (λ (n : ℕ). Gone n r) (sym (some-injective k id e)) g in
    ap (λ (s : Remote). stripped (handle_job_status st k n none s)) (finished st k r h.0)
    ∙ stripped-status st k n none r h.1
still st id (FileResponse.error k err n) r e g =
    stripped-status st k n (some err) r
      (subst (λ (n : ℕ). Gone n r) (sym (some-injective k id e)) g).1

received :
    (st : Station) (fr : FileResponse) (r : Remote)
    → (handle_msg_from_peer st (Message.file_response fr) r).0 ≡ FromPeer.on_file_response st fr r
unfolding handle_msg_from_peer
received st fr r = refl

-- The responses are all about one job.
abbrev pub About : ℕ → List (Station × FileResponse) → Type 0
About id = All (λ (x : Station × FileResponse). job_number x.1 ≡ some id)

all_still :
    (id : ℕ) (frs : List (Station × FileResponse)) (r : Remote)
    → About id frs
    → Gone id r
    → stripped (receive_all frs r) ≡ stripped r
unfolding receive_all
all_still id [] r a g = refl
all_still id ((st, fr) ∷ rest) r (e, a) g =
    let s = ap stripped (received st fr r) ∙ still st id fr r e g in
    all_still id rest (handle_msg_from_peer st (Message.file_response fr) r).0 a
      (Gone-stripped id r (handle_msg_from_peer st (Message.file_response fr) r).0 s g)
    ∙ s

dropped :
    (st : Station) (id : ℕ) (r : Remote) → get_job id (drop_write_job st id r).write_jobs ≡ none
unfolding drop_write_job
dropped st id r = elim (Option-cases (get_job id r.write_jobs)) [
  | inl e ↦ rw (drop_write_job, e) e
  | inr (job, e) ↦ rw (drop_write_job, e) (get_job-remove_job id r.write_jobs)
]

cancel-Gone :
    (st : Station) (id : ℕ) (r : Remote) → Gone id (handle_msg_from_ui st (Data.cancel_job id) r).0
unfolding Gone handle_msg_from_ui cancel_job
cancel-Gone st id r = (
  dropped st id (send _ r),
  HashMap.get-remove_self (drop_write_job st id (send _ r)).remove_jobs id,
)

-- Once the window has cancelled a job, what the peer still sends for that job, listings, blocks,
-- the end or errors, in any number and at any time, changes nothing of the session, its files,
-- jobs, queue and messages included, but what the window is told to show.
pub cancel-stills :
    (st : Station) (id : ℕ) (frs : List (Station × FileResponse)) (r : Remote)
    → About id frs
    → stripped (receive_all frs (handle_msg_from_ui st (Data.cancel_job id) r).0)
      ≡ stripped (handle_msg_from_ui st (Data.cancel_job id) r).0
cancel-stills st id frs r a =
    all_still id frs (handle_msg_from_ui st (Data.cancel_job id) r).0 a (cancel-Gone st id r)
