-- ===== src/Controller/Remote/Jobs/Removal.antt =====
-- A job that removes files without asking: what a status does to it.
use kd_desk_tc.Prelude.{
  ℕ, suc, ◌+◌, ◌%◌, ◌^◌, ◌<◌, ◌≡◌, inl, inr, refl, sym, ap, ◌∙◌, arith, Bool, true, Option, none,
  some, List, [], ◌∷◌, ◌++◌, nat_eq, if_true, if_false, Bool-cases, get_elem?, ltb, lt→ltb,
}
use kd_desk_tc.Proto.{Text}
use kd_desk_tc.HashMap
use kd_desk_tc.Client.Proto.{Message, FileEntry}
use kd_desk_tc.Client.Transfer.{as_usize, next_num}
use kd_desk_tc.Controller.Remote.{Remote, RemoveJob, Station, Data, call, enqueue}
use kd_desk_tc.Controller.Remote.Jobs
use kd_desk_tc.Controller.Remote.Jobs.{handle_job_status, show_status, second_past}

-- What a job is about.
pub record Plan : Type 0 where
  pub files : List FileEntry
  pub path : Text
  pub sep : Text
  pub is_remote : Bool
  pub no_confirm : Bool

unfoldable pub plan : RemoveJob → Plan
plan j = record {
  files = j.files;
  path = j.path;
  sep = j.sep;
  is_remote = j.is_remote;
  no_confirm = j.no_confirm;
}

-- What the walk is about: what is sent and queued, and the job.
pub record View : Type 0 where
  pub sent : List Message
  pub queue : List Data
  pub removing : Option Plan

abbrev pub plan_of : Option RemoveJob → Option Plan
plan_of none = none
plan_of (some j) = some (plan j)

unfoldable pub view : ℕ → Remote → View
view id r = record {
  sent = r.sent;
  queue = r.queue;
  removing = plan_of (HashMap.get r.remove_jobs id);
}

status_view :
    (id n : ℕ) (err : Option Text) (r : Remote) → view id (show_status id n err r) ≡ view id r
unfolding view show_status call
status_view id n none r = refl
status_view id n (some e) r = refl

kept_job :
    (id : ℕ) (j k : RemoveJob) (r : Remote)
    → HashMap.get r.remove_jobs id ≡ some j
    → plan k ≡ plan j
    → view id (record r { remove_jobs = HashMap.insert r.remove_jobs id k }) ≡ view id r
unfolding view
kept_job id j k r h p =
    ap (λ (o : Option RemoveJob). record (view id r) { removing = plan_of o })
      (HashMap.get-insert_self r.remove_jobs id k)
    ∙ ap (λ (o : Plan). record (view id r) { removing = some o }) p
    ∙ sym (ap (λ (o : Option RemoveJob). record (view id r) { removing = plan_of o }) h)

-- The request that a job queues for a file.
unfoldable pub request : ℕ → Plan → ℕ → FileEntry → Data
request id p n f = Data.remove_file id (p.path ++ p.sep ++ f.name) n p.is_remote

remove_next-view :
    (st : Station) (id n next : ℕ) (err : Option Text) (j : RemoveJob) (f : FileEntry) (r : Remote)
    → HashMap.get r.remove_jobs id ≡ some j
    → view id (Jobs.remove_next st id n err j next f r)
      ≡ record (view id r) { queue = r.queue ++ request id (plan j) next f ∷ [] }
unfolding Jobs.remove_next request enqueue plan view
remove_next-view st id n next err j f r h =
    let d = Data.remove_file id (j.path ++ j.sep ++ f.name) next j.is_remote in
    let k : RemoveJob = record j { last_update_job_status = st.now } in
    elim (Bool-cases (second_past st.now j.last_update_job_status)) [
      | inl e ↦
          ap (view id) (if_true (second_past st.now j.last_update_job_status) _ (enqueue d r) e)
          ∙ status_view id n err _
          ∙ kept_job id j k (enqueue d r) h refl
      | inr e ↦
          ap (view id) (if_false (second_past st.now j.last_update_job_status) _ (enqueue d r) e)
    ]

status_of :
    (st : Station) (id n : ℕ) (err : Option Text) (j : RemoveJob) (r : Remote)
    → HashMap.get r.remove_jobs id ≡ some j
    → handle_job_status st id n err r ≡ Jobs.job_status st id n err j r
unfolding handle_job_status
status_of st id n err j r h = rw (handle_job_status, h) refl

next_index : (n : ℕ) → suc n < 2 ^ 31 → (next_num n ≡ suc n) × (as_usize (next_num n) ≡ suc n)
unfolding next_num as_usize
next_index n h =
    let e : (n + 1) % 2 ^ 32 ≡ suc n = omega arith in
    (e, rw (e) (if_true (ltb (suc n) (2 ^ 31)) _ _ (lt→ltb (suc n) (2 ^ 31) h)))

pub goes_on_view :
    (st : Station) (id n : ℕ) (err : Option Text) (j : RemoveJob) (f : FileEntry) (r : Remote)
    → suc n < 2 ^ 31
    → HashMap.get r.remove_jobs id ≡ some j
    → j.no_confirm ≡ true
    → get_elem? j.files (suc n) ≡ some f
    → view id (handle_job_status st id n err r)
      ≡ record (view id r) { queue = r.queue ++ request id (plan j) (suc n) f ∷ [] }
unfolding Jobs.job_status
goes_on_view st id n err j f r b h c e =
    let i = next_index n b in
    let found : get_elem? j.files (as_usize (next_num n)) ≡ some f =
      ap (get_elem? j.files) i.1 ∙ e in
    ap (view id) (
      status_of st id n err j r h
      ∙ if_true j.no_confirm _ _ c
      ∙ ap
          (λ (o : Option FileEntry). elim o [
            | none ↦
                show_status id n err (record r { remove_jobs = HashMap.remove r.remove_jobs id })
            | some g ↦ Jobs.remove_next st id n err j (next_num n) g r
          ])
          found)
    ∙ remove_next-view st id n (next_num n) err j f r h
    ∙ ap (λ (k : ℕ). record (view id r) { queue = r.queue ++ request id (plan j) k f ∷ [] }) i.0

removed_view :
    (id : ℕ) (r : Remote)
    → view id (record r { remove_jobs = HashMap.remove r.remove_jobs id })
      ≡ record (view id r) { removing = none }
unfolding view
removed_view id r =
    ap (λ (o : Option RemoveJob). record (view id r) { removing = plan_of o })
      (HashMap.get-remove_self r.remove_jobs id)

pub ends_view :
    (st : Station) (id n : ℕ) (err : Option Text) (j : RemoveJob) (r : Remote)
    → suc n < 2 ^ 31
    → HashMap.get r.remove_jobs id ≡ some j
    → j.no_confirm ≡ true
    → get_elem? j.files (suc n) ≡ none
    → view id (handle_job_status st id n err r) ≡ record (view id r) { removing = none }
unfolding Jobs.job_status
ends_view st id n err j r b h c e =
    let i = next_index n b in
    ap (view id) (
      status_of st id n err j r h
      ∙ if_true j.no_confirm _ _ c
      ∙ ap
          (λ (o : Option FileEntry). elim o [
            | none ↦
                show_status id n err (record r { remove_jobs = HashMap.remove r.remove_jobs id })
            | some g ↦ Jobs.remove_next st id n err j (next_num n) g r
          ])
          (ap (get_elem? j.files) i.1 ∙ e))
    ∙ status_view id n err _
    ∙ removed_view id r
