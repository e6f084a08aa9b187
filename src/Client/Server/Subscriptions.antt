-- ===== src/Client/Server/Subscriptions.antt =====
-- Which services a connection can still be reached by.
use kd_desk_tc.Prelude.{
  ℕ, inl, inr, ◌≡◌, Bool, true, false, none, some, List, [], ◌∷◌, ◌==◌, list_eq, nat_eq, bool_eq,
  Bool-cases, Option-cases,
}
use kd_desk_tc.Proto.{Text}
use kd_desk_tc.HashMap
use kd_desk_tc.HashMap.{HashMap}
use kd_desk_tc.Client.Service
use kd_desk_tc.Client.Service.{ConnInner, Subscribers, ServiceInner}
use kd_desk_tc.Client.Server
use kd_desk_tc.Client.Server.{Server, Services}
use kd_desk_tc.Client.Service.Apart.{
  Absent, Kept, on_subscribe-Kept, on_unsubscribe-Kept, on_unsubscribe-Absent, new-Kept, hold-Kept,
}

AllKept : Services → Type 0
AllKept m = HashMap.Values Kept m

subscribe_all-Kept :
    (m : Services) (c : ConnInner) (noperms : List Text)
    → AllKept m
    → AllKept (Server.subscribe_all m c noperms)
unfolding AllKept Server.subscribe_all
subscribe_all-Kept [] c noperms h = h
subscribe_all-Kept ((k, s) ∷ m) c noperms h = elim (Bool-cases (Server.contains noperms s.name)) [
  | inl e ↦ rw (e) (h.0, subscribe_all-Kept m c noperms h.1)
  | inr e ↦ rw (e) (on_subscribe-Kept s c h.0, subscribe_all-Kept m c noperms h.1)
]

unsubscribe_all-Kept : (m : Services) (j : ℕ) → AllKept m → AllKept (Server.unsubscribe_all m j)
unfolding AllKept Server.unsubscribe_all
unsubscribe_all-Kept [] j h = h
unsubscribe_all-Kept ((k, s) ∷ m) j h = (on_unsubscribe-Kept s j h.0, unsubscribe_all-Kept m j h.1)

unsubscribe_all-Absent :
    (m : Services) (j : ℕ) → AllKept m → HashMap.Values (Absent j) (Server.unsubscribe_all m j)
unfolding AllKept Server.unsubscribe_all
unsubscribe_all-Absent [] j h = h
unsubscribe_all-Absent ((k, s) ∷ m) j h =
    (on_unsubscribe-Absent s j h.0, unsubscribe_all-Absent m j h.1)

subscribe_service-Kept :
    (s : Server) (sp : ServiceInner) (name : Text) (c : ConnInner) (sub : Bool)
    → AllKept s.services
    → Kept sp
    → AllKept (Server.subscribe_service s sp name c sub).services
unfolding AllKept Server.subscribe_service
subscribe_service-Kept s sp name c sub h hk = elim (Bool-cases (Service.is_subed sp c.id == sub)) [
  | inl e ↦ rw (e) h
  | inr e ↦ elim (Bool-cases sub) [
    | inl b ↦
        rw (e, b)
          (HashMap.insert-Values Kept s.services name (Service.on_subscribe sp c)
            (on_subscribe-Kept sp c hk) h)
    | inr b ↦
        rw (e, b)
          (HashMap.insert-Values Kept s.services name (Service.on_unsubscribe sp c.id)
            (on_unsubscribe-Kept sp c.id hk) h)
  ]
]

subscribe-Kept :
    (s : Server) (name : Text) (c : ConnInner) (sub : Bool)
    → AllKept s.services
    → AllKept (Server.subscribe s name c sub).services
unfolding AllKept Server.subscribe
subscribe-Kept s name c sub h = elim (Option-cases (HashMap.get s.services name)) [
  | inl e ↦ rw (Server.subscribe, e) h
  | inr (sp, e) ↦
      rw (Server.subscribe, e)
        (subscribe_service-Kept s sp name c sub h (HashMap.get-Values Kept s.services name sp h e))
]

-- What the connections and the services' threads do to the server.
pub data Step : Server → Server → Type 0 where
  numbers : (s : Server) → Step s (Server.next_id s).0
  adds :
      (s : Server) (c : ConnInner) (noperms : List Text)
      → Step s (Server.add_connection s c noperms)
  removes : (s : Server) (c : ConnInner) → Step s (Server.remove_connection s c)
  subscribes :
      (s : Server) (name : Text) (c : ConnInner) (sub : Bool)
      → Step s (Server.subscribe s name c sub)
  serves :
      (s : Server) (name : Text) (sp : ServiceInner) (h : Service.Hold)
      → HashMap.get s.services name ≡ some sp
      → Step s (record s { services = HashMap.insert s.services name (Service.hold sp h).0 })

pub data Reachable : Server → Type 0 where
  begins : Reachable Server.new
  then_step : {s t : Server} → Reachable s → Step s t → Reachable t

Step-Kept : {s t : Server} → Step s t → AllKept s.services → AllKept t.services
unfolding AllKept Server.next_id Server.add_connection Server.remove_connection
Step-Kept (Step.numbers s) h = h
Step-Kept (Step.adds s c noperms) h = subscribe_all-Kept s.services c noperms h
Step-Kept (Step.removes s c) h = unsubscribe_all-Kept s.services c.id h
Step-Kept (Step.subscribes s name c sub) h = subscribe-Kept s name c sub h
Step-Kept (Step.serves s name sp x e) h =
    HashMap.insert-Values Kept s.services name (Service.hold sp x).0
      (hold-Kept sp x (HashMap.get-Values Kept s.services name sp h e)) h

insert-new-Kept :
    (m : Services) (name : Text) (need_snapshot : Bool)
    → AllKept m
    → AllKept (HashMap.insert m name (Service.new name need_snapshot))
unfolding AllKept
insert-new-Kept m name need_snapshot h =
    HashMap.insert-Values Kept m name (Service.new name need_snapshot) (new-Kept name need_snapshot)
      h

begin-Kept : AllKept Server.new.services
unfolding AllKept Server.new Server.add_service Service.new
begin-Kept = insert-new-Kept _ Server.name_pos false (
    insert-new-Kept _ Server.name_cursor true (
      insert-new-Kept _ Server.name_clipboard true
        (insert-new-Kept _ Server.name_video true (insert-new-Kept [] Server.name_audio true tt))))

Reachable-Kept : {s : Server} → Reachable s → AllKept s.services
Reachable-Kept begins = begin-Kept
Reachable-Kept (then_step r st) = Step-Kept st (Reachable-Kept r)

-- In every server that connections and services can reach from the start, the removal of a
-- connection leaves its id in no map of subscribers of any service and not among the connections.
pub remove_connection-Absent :
    (s : Server) (c : ConnInner)
    → Reachable s
    → HashMap.Values (Absent c.id) (Server.remove_connection s c).services
      × (HashMap.get (Server.remove_connection s c).connections c.id ≡ none)
unfolding Server.remove_connection
remove_connection-Absent s c r = (
  unsubscribe_all-Absent s.services c.id (Reachable-Kept r),
  HashMap.get-remove_self s.connections c.id,
)
