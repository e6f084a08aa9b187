-- ===== src/Controller/Remote/Jobs/Walk.antt =====
-- A job that removes the files of the peer without asking goes through all of them.
use kd_desk_tc.Prelude.{
  ℕ, suc, ◌^◌, ◌<◌, ◌≡◌, refl, sym, ap, ◌∙◌, arith, true, Option, none, some, List, [], ◌∷◌, ◌++◌,
  nat_eq, length, get_elem?, length-append,
}
use mathlib.Core.List.{append_assoc, append-nil}
use kd_desk_tc.Proto.{Text}
use kd_desk_tc.HashMap
use kd_desk_tc.Client.Proto.{Message, FileEntry}
use kd_desk_tc.Client.Transfer.Progress.{get_elem?-append, get_elem?-end, length_snoc}
use kd_desk_tc.Controller.Remote.{Remote, RemoveJob, Station, Data}
use kd_desk_tc.Controller.Remote.Jobs.Removal.{plan, plan_of, view, Plan, View}
use kd_desk_tc.Controller.Remote.Jobs.Rounds.{
  round, removal, walking, view_sent, view_queue, round_next, round_last,
}

last_index :
    (pre : List FileEntry) (f : FileEntry) (files : List FileEntry)
    → files ≡ pre ++ f ∷ []
    → get_elem? files (suc (length pre)) ≡ none
last_index pre f files e =
    ap (λ (l : List FileEntry). get_elem? l (suc (length pre)))
      (e ∙ sym (append-nil (pre ++ f ∷ [])))
    ∙ ap (get_elem? ((pre ++ f ∷ []) ++ [])) (sym (length_snoc pre f))
    ∙ get_elem?-end (pre ++ f ∷ [])

next_item :
    (pre : List FileEntry) (f g : FileEntry) (fs files : List FileEntry)
    → files ≡ pre ++ f ∷ g ∷ fs
    → get_elem? files (suc (length pre)) ≡ some g
next_item pre f g fs files e =
    ap (λ (l : List FileEntry). get_elem? l (suc (length pre)))
      (e ∙ sym (append_assoc pre (f ∷ []) (g ∷ fs)))
    ∙ ap (get_elem? ((pre ++ f ∷ []) ++ g ∷ fs)) (sym (length_snoc pre f))
    ∙ get_elem?-append (pre ++ f ∷ []) g fs

-- The removals of the files from a number on.
unfoldable pub removals : ℕ → Plan → ℕ → List FileEntry → List Message
removals id p n [] = []
removals id p n (f ∷ fs) = removal id p n f ∷ removals id p (suc n) fs

-- The peer answers for the files from a number on, and the session takes its own queue in between.
unfoldable pub walk : Station → ℕ → ℕ → List (Option Text) → Remote → Remote
walk st id n [] r = r
walk st id n (a ∷ rest) r = walk st id (suc n) rest (round st id n a r)

module _ (st : Station) (id : ℕ) (p : Plan) (remote : p.is_remote ≡ true)
    (sure : p.no_confirm ≡ true) (few : length p.files < 2 ^ 31) where
  view-walk :
      (fs pre : List FileEntry) (f : FileEntry) (a : Option Text) (rest : List (Option Text))
      (s : List Message) (r : Remote)
      → p.files ≡ pre ++ f ∷ fs
      → length rest ≡ length fs
      → view id r ≡ walking s (some p)
      → view id (walk st id (length pre) (a ∷ rest) r)
        ≡ walking (s ++ removals id p (suc (length pre)) fs) none
  unfolding walk removals
  view-walk [] pre f a [] s r e l h =
      round_last st id p remote sure (length pre) a s r
        (omega (arith, few, ap length e, length-append pre (f ∷ []))) (last_index pre f p.files e) h
      ∙ ap (λ (t : List Message). walking t none) (sym (append-nil s))
  view-walk [] pre f a (b ∷ rest) s r e l h = absurd (omega arith)
  view-walk (g ∷ fs) pre f a [] s r e l h = absurd (omega arith)
  view-walk (g ∷ fs) pre f a (b ∷ rest) s r e l h =
      let n = length_snoc pre f in
      let e' : p.files ≡ (pre ++ f ∷ []) ++ g ∷ fs = e ∙ sym (append_assoc pre (f ∷ []) (g ∷ fs)) in
      let t = s ++ removal id p (suc (length pre)) g ∷ [] in
      let r' = round st id (length pre) a r in
      let step =
        round_next st id p remote sure (length pre) a g s r
          (omega (arith, few, ap length e, length-append pre (f ∷ g ∷ fs)))
          (next_item pre f g fs p.files e) h in
      ap (λ (k : ℕ). view id (walk st id k (b ∷ rest) r')) (sym n)
      ∙ view-walk fs (pre ++ f ∷ []) g b rest t r' e' (omega arith) step
      ∙ ap (λ (k : ℕ). walking (t ++ removals id p (suc k) fs) none) n
      ∙ ap (λ (x : List Message). walking x none)
          (append_assoc s (removal id p (suc (length pre)) g ∷ [])
            (removals id p (suc (suc (length pre))) fs))

begins :
    (id : ℕ) (j : RemoveJob) (r : Remote)
    → HashMap.get r.remove_jobs id ≡ some j
    → r.queue ≡ []
    → view id r ≡ walking r.sent (some (plan j))
unfolding view
begins id j r h q =
    ap (λ (o : Option RemoveJob). record (view id r) { removing = plan_of o }) h
    ∙ ap (λ (l : List Data). record { sent = r.sent; queue = l; removing = some (plan j) }) q

no_job : (o : Option RemoveJob) → plan_of o ≡ none → o ≡ none
no_job none h = refl
no_job (some j) h = absurd (cc)

view_gone :
    (id : ℕ) (r : Remote) (s : List Message)
    → view id r ≡ walking s none
    → HashMap.get r.remove_jobs id ≡ none
unfolding view
view_gone id r s e = no_job _ (ap (λ (w : View). w.removing) e)

-- A job that removes files of the peer without asking, once its first file has been asked for and
-- the peer answers each request, with an error or not, asks for every other file exactly once and
-- in order, leaves nothing in the queue of the session, and after the last answer the job is gone.
-- The session takes its queue after each answer, the queue was empty, the job has at least one and
-- less than 2^31 files.
pub walk-removes :
    (st : Station) (id : ℕ) (j : RemoveJob) (f : FileEntry) (fs : List FileEntry)
    (answers : List (Option Text)) (r : Remote)
    → HashMap.get r.remove_jobs id ≡ some j
    → j.is_remote ≡ true
    → j.no_confirm ≡ true
    → j.files ≡ f ∷ fs
    → length j.files < 2 ^ 31
    → length answers ≡ length j.files
    → r.queue ≡ []
    → ((walk st id 0 answers r).sent ≡ r.sent ++ removals id (plan j) 1 fs)
      × ((walk st id 0 answers r).queue ≡ [])
      × (HashMap.get (walk st id 0 answers r).remove_jobs id ≡ none)
unfolding plan
walk-removes st id j f fs [] r h c s e few l q = absurd (omega (arith, l, ap length e))
walk-removes st id j f fs (a ∷ rest) r h c s e few l q =
    let end =
      view-walk st id (plan j) c s few fs [] f a rest r.sent r e (omega (arith, l, ap length e))
        (begins id j r h q) in
    (
      view_sent id _ (walking (r.sent ++ removals id (plan j) 1 fs) none) end,
      view_queue id _ (walking (r.sent ++ removals id (plan j) 1 fs) none) end,
      view_gone id _ (r.sent ++ removals id (plan j) 1 fs) end,
    )
