-- ===== src/Controller/Remote/Jobs/Rounds.antt =====
-- A job that removes files of the peer: one answer, and the next request.
use kd_desk_tc.Prelude.{
  ℕ, suc, ◌^◌, ◌<◌, ◌≡◌, refl, ap, ◌∙◌, arith, true, Option, none, some, List, [], ◌∷◌, ◌++◌,
  nat_eq, if_true, get_elem?,
}
use mathlib.Core.Option.{some-injective}
use kd_desk_tc.Proto.{Text}
use kd_desk_tc.HashMap
use kd_desk_tc.Client.Proto.{Message, FileAction, FileResponse, FileEntry}
use kd_desk_tc.Controller.Remote.{Remote, RemoveJob, Station, Data, send}
use kd_desk_tc.Controller.Remote.Jobs.{handle_job_status}
use kd_desk_tc.Controller.Remote.FromUi as FromUi
use kd_desk_tc.Controller.Remote.FromUi.{handle_msg_from_ui}
use kd_desk_tc.Controller.Remote.FromPeer as FromPeer
use kd_desk_tc.Controller.Remote.FromPeer.{handle_msg_from_peer}
use kd_desk_tc.Controller.Remote.Jobs.Removal.{
  plan, plan_of, view, request, goes_on_view, ends_view, Plan, View,
}

-- The peer answers a request, with an error or not.
unfoldable pub reply : ℕ → ℕ → Option Text → Message
reply id n none = Message.file_response (FileResponse.done id n)
reply id n (some err) = Message.file_response (FileResponse.error id err n)

-- The session without what it was writing under the number of the job.
finished : Station → ℕ → Option Text → Remote → Remote
finished st id none r = FromPeer.finish_write st id r
finished st id (some err) r = r

finished_same :
    (st : Station) (id : ℕ) (a : Option Text) (r : Remote)
    → (view id (finished st id a r) ≡ view id r)
      × ((finished st id a r).remove_jobs ≡ r.remove_jobs)
      × ((finished st id a r).queue ≡ r.queue)
unfolding finished FromPeer.finish_write view
finished_same st id (some err) r = (refl, refl, refl)
finished_same st id none r = ground arith

replied :
    (st : Station) (id n : ℕ) (a : Option Text) (r : Remote)
    → (handle_msg_from_peer st (reply id n a) r).0
      ≡ handle_job_status st id n a (finished st id a r)
unfolding handle_msg_from_peer FromPeer.on_file_response reply finished
replied st id n none r = refl
replied st id n (some err) r = refl

-- The session takes the front of its queue.
unfoldable pub deliver : Station → Remote → Remote
deliver st r = elim r.queue [
  | [] ↦ r
  | d ∷ q ↦ (handle_msg_from_ui st d (record r { queue = q })).0
]

-- An answer of the peer, and what it makes the session do.
unfoldable pub round : Station → ℕ → ℕ → Option Text → Remote → Remote
round st id n a r = deliver st (handle_msg_from_peer st (reply id n a) r).0

unfoldable pub removal : ℕ → Plan → ℕ → FileEntry → Message
removal id p n f = Message.file_action (FileAction.remove_file id (p.path ++ p.sep ++ f.name) n)

delivered_view :
    (st : Station) (id n : ℕ) (p : Plan) (f : FileEntry) (r : Remote)
    → p.is_remote ≡ true
    → r.queue ≡ request id p n f ∷ []
    → view id (deliver st r)
      ≡ record (view id r) { sent = r.sent ++ removal id p n f ∷ []; queue = [] }
unfolding deliver request removal handle_msg_from_ui FromUi.remove_file send view
delivered_view st id n p f r c e =
    ap
      (λ (q : List Data).
        view id
          (elim q [ [] ↦ r | d ∷ q' ↦ (handle_msg_from_ui st d (record r { queue = q' })).0 ]))
      e
    ∙ ap (view id) (if_true p.is_remote _ _ c)

idle_deliver : (st : Station) (r : Remote) → r.queue ≡ [] → deliver st r ≡ r
unfolding deliver
idle_deliver st r e =
    ap
      (λ (q : List Data). elim q [
        | [] ↦ r
        | d ∷ q' ↦ (handle_msg_from_ui st d (record r { queue = q' })).0
      ])
      e

job_of :
    (o : Option RemoveJob) (p : Plan)
    → plan_of o ≡ some p
    → (j : RemoveJob) × (o ≡ some j) × (plan j ≡ p)
job_of none p h = absurd (cc)
job_of (some j) p h = (j, refl, some-injective (plan j) p h)

-- The view of a session that walks through a job.
abbrev pub walking : List Message → Option Plan → View
walking s p = record { sent = s; queue = []; removing = p }

pub view_sent : (id : ℕ) (r : Remote) (v : View) → view id r ≡ v → r.sent ≡ v.sent
unfolding view
view_sent id r v e = ap (λ (w : View). w.sent) e

pub view_queue : (id : ℕ) (r : Remote) (v : View) → view id r ≡ v → r.queue ≡ v.queue
unfolding view
view_queue id r v e = ap (λ (w : View). w.queue) e

view_job :
    (id : ℕ) (r : Remote) (s : List Message) (p : Plan)
    → view id r ≡ walking s (some p)
    → (j : RemoveJob) × (HashMap.get r.remove_jobs id ≡ some j) × (plan j ≡ p)
unfolding view
view_job id r s p e = job_of (HashMap.get r.remove_jobs id) p (ap (λ (w : View). w.removing) e)

plan_fields :
    (j : RemoveJob) (p : Plan) → plan j ≡ p → (j.no_confirm ≡ p.no_confirm) × (j.files ≡ p.files)
unfolding plan
plan_fields j p e = (ap (λ (q : Plan). q.no_confirm) e, ap (λ (q : Plan). q.files) e)

module _ (st : Station) (id : ℕ) (p : Plan) (remote : p.is_remote ≡ true)
    (sure : p.no_confirm ≡ true) where
  -- The session once the answer has been taken.
  taken : ℕ → Option Text → Remote → Remote
  taken n a r = (handle_msg_from_peer st (reply id n a) r).0

  taken_next :
      (n : ℕ) (a : Option Text) (f : FileEntry) (s : List Message) (r : Remote)
      → suc n < 2 ^ 31
      → get_elem? p.files (suc n) ≡ some f
      → view id r ≡ walking s (some p)
      → view id (taken n a r) ≡ record (walking s (some p)) { queue = request id p (suc n) f ∷ [] }
  unfolding taken
  taken_next n a f s r b h e =
      let u = finished st id a r in
      let same = finished_same st id a r in
      let j = view_job id r s p e in
      let k = plan_fields j.0 p j.2 in
      ap (view id) (replied st id n a r)
      ∙ goes_on_view st id n a j.0 f u b
          (ap (λ (m : HashMap.HashMap ℕ RemoveJob). HashMap.get m id) same.1 ∙ j.1) (k.0 ∙ sure)
          (ap (λ (l : List FileEntry). get_elem? l (suc n)) k.1 ∙ h)
      ∙ ap (λ (q : Plan). record (view id u) { queue = u.queue ++ request id q (suc n) f ∷ [] }) j.2
      ∙ ap (λ (q : List Data). record (view id u) { queue = q ++ request id p (suc n) f ∷ [] })
          (same.2 ∙ view_queue id r (walking s (some p)) e)
      ∙ ap (λ (v : View). record v { queue = request id p (suc n) f ∷ [] }) (same.0 ∙ e)

  taken_last :
      (n : ℕ) (a : Option Text) (s : List Message) (r : Remote)
      → suc n < 2 ^ 31
      → get_elem? p.files (suc n) ≡ none
      → view id r ≡ walking s (some p)
      → view id (taken n a r) ≡ walking s none
  unfolding taken
  taken_last n a s r b h e =
      let u = finished st id a r in
      let same = finished_same st id a r in
      let j = view_job id r s p e in
      let k = plan_fields j.0 p j.2 in
      ap (view id) (replied st id n a r)
      ∙ ends_view st id n a j.0 u b
          (ap (λ (m : HashMap.HashMap ℕ RemoveJob). HashMap.get m id) same.1 ∙ j.1) (k.0 ∙ sure)
          (ap (λ (l : List FileEntry). get_elem? l (suc n)) k.1 ∙ h)
      ∙ ap (λ (v : View). record v { removing = none }) (same.0 ∙ e)

  pub round_next :
      (n : ℕ) (a : Option Text) (f : FileEntry) (s : List Message) (r : Remote)
      → suc n < 2 ^ 31
      → get_elem? p.files (suc n) ≡ some f
      → view id r ≡ walking s (some p)
      → view id (round st id n a r) ≡ walking (s ++ removal id p (suc n) f ∷ []) (some p)
  unfolding round taken view
  round_next n a f s r b h e =
      let t = taken_next n a f s r b h e in
      let v : View = record (walking s (some p)) { queue = request id p (suc n) f ∷ [] } in
      delivered_view st id (suc n) p f (taken n a r) remote (view_queue id (taken n a r) v t)
      ∙ ap (λ (w : View). record w { sent = w.sent ++ removal id p (suc n) f ∷ []; queue = [] }) t

  pub round_last :
      (n : ℕ) (a : Option Text) (s : List Message) (r : Remote)
      → suc n < 2 ^ 31
      → get_elem? p.files (suc n) ≡ none
      → view id r ≡ walking s (some p)
      → view id (round st id n a r) ≡ walking s none
  unfolding round taken
  round_last n a s r b h e =
      let t = taken_last n a s r b h e in
      ap (view id) (idle_deliver st (taken n a r) (view_queue id (taken n a r) (walking s none) t))
      ∙ t
