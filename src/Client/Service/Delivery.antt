-- ===== src/Client/Service/Delivery.antt =====
-- What a subscriber is sent, and when: while it waits, what the service sends to those that wait; from
-- the next swap on, what the service sends to all, to it, or to all but another.
use kd_desk_tc.Prelude.{
  ℕ, ◌≡◌, ◌≢◌, inl, inr, refl, sym, ap, subst, ◌∙◌, Bool, true, false, List, [], ◌∷◌, ◌++◌, All,
  nat_eq, ◌==◌, if◌then◌else◌, if_true, Bool-cases,
}
use kd_desk_tc.Client.Proto.{Message}
use kd_desk_tc.HashMap
use kd_desk_tc.Client.Service
use kd_desk_tc.Client.Service.{
  Sender, Sent, ConnInner, Subscribers, ServiceInner, Hold, send, send_all,
}
use kd_desk_tc.Client.Service.Queues.{
  arriving, Foreign, Lacks, Holds, conn, arriving-append, send_all-Lacks, send_all-Holds,
  remove-Lacks, remove-Holds, insert-Lacks, insert-Holds, insert-conn-Holds, drain_into-Holds,
  drain_into-kept, get-Lacks, Holds-length, send_to-Lacks, send_to-Holds, send_all_without-Lacks,
  send_all_without-Holds,
}

-- What happens to a service, one hold of its lock after the other. The holds of a snapshot may have
-- those of others between them.
pub data Event : Type 0 where
  subscribe : ConnInner → Event
  unsubscribe : ℕ → Event
  broadcast : Message → Event
  send_to : Message → ℕ → Event
  send_without : Message → ℕ → Event
  hold : Hold → Event

unfoldable pub step : ServiceInner → Event → ServiceInner × Sent
step sp (Event.subscribe c) = (Service.on_subscribe sp c, [])
step sp (Event.unsubscribe id) = (Service.on_unsubscribe sp id, [])
step sp (Event.broadcast m) = (sp, Service.send_shared sp m)
step sp (Event.send_to m id) = (sp, Service.send_to sp m id)
step sp (Event.send_without m id) = (sp, Service.send_without sp m id)
step sp (Event.hold h) = Service.hold sp h

unfoldable pub run : ServiceInner → List Event → ServiceInner × Sent
run sp [] = (sp, [])
run sp (e ∷ es) = let rest = run (step sp e).0 es in (rest.0, (step sp e).1 ++ rest.1)

unfoldable pub holds : List Hold → List Event
holds [] = []
holds (h ∷ hs) = Event.hold h ∷ holds hs

-- What a subscriber with this id is owed, and whether a swap has come: before the first one, what is
-- sent to those that wait, and afterwards, what is sent to all, to it or not without it.
unfoldable pub swapped : Bool → List Event → Bool
swapped b [] = b
swapped b (Event.hold Hold.swap ∷ es) = swapped true es
swapped b (e ∷ es) = swapped b es

unfoldable pub owed : ℕ → Bool → Event → List Message
owed id false (Event.hold (Hold.send_new m)) = m ∷ []
owed id true (Event.broadcast m) = m ∷ []
owed id true (Event.send_to m j) = if j == id then m ∷ [] else []
owed id true (Event.send_without m j) = if j == id then [] else m ∷ []
owed id b e = []

unfoldable pub due : ℕ → Bool → List Event → List Message
due id b [] = []
due id b (e ∷ es) = owed id b e ++ due id (swapped b (e ∷ [])) es

module _ (id : ℕ) (q v : Sender) where
  -- Where the connection is: it waits for a swap, or it is served. Others may be anywhere.
  Placed : Bool → ServiceInner → Type 0
  Placed false sp = Lacks id q v sp.subscribes × Holds id q v sp.new_subscribes
  Placed true sp = Holds id q v sp.subscribes × Lacks id q v sp.new_subscribes

  -- What others do.
  abbrev pub Quiet : Event → Type 0
  Quiet (Event.subscribe c) = Foreign id q v c
  Quiet (Event.unsubscribe j) = j ≢ id
  Quiet (Event.broadcast m) = Unit
  Quiet (Event.send_to m j) = Unit
  Quiet (Event.send_without m j) = Unit
  Quiet (Event.hold h) = Unit

  subscribed :
      (b : Bool) (sp : ServiceInner) (c : ConnInner)
      → Foreign id q v c
      → Placed b sp
      → Placed b (Service.on_subscribe sp c)
  unfolding Service.on_subscribe Placed
  subscribed false sp c h w = elim (Bool-cases (HashMap.contains_key sp.subscribes c.id)) [
    | inl e ↦ rw (e) w
    | inr e ↦ elim (Bool-cases sp.need_snapshot) [
      | inl n ↦ rw (e, n) (w.0, insert-Holds id q v sp.new_subscribes c h w.1)
      | inr n ↦ rw (e, n) (insert-Lacks id q v sp.subscribes c h w.0, w.1)
    ]
  ]
  subscribed true sp c h w = elim (Bool-cases (HashMap.contains_key sp.subscribes c.id)) [
    | inl e ↦ rw (e) w
    | inr e ↦ elim (Bool-cases sp.need_snapshot) [
      | inl n ↦ rw (e, n) (w.0, insert-Lacks id q v sp.new_subscribes c h w.1)
      | inr n ↦ rw (e, n) (insert-Holds id q v sp.subscribes c h w.0, w.1)
    ]
  ]

  unsubscribed :
      (b : Bool) (sp : ServiceInner) (j : ℕ)
      → j ≢ id
      → Placed b sp
      → Placed b (Service.on_unsubscribe sp j)
  unfolding Service.on_unsubscribe Placed
  unsubscribed false sp j h w = elim (Bool-cases (HashMap.contains_key sp.subscribes j)) [
    | inl e ↦ rw (e) (remove-Lacks id q v sp.subscribes j w.0, w.1)
    | inr e ↦ rw (e) (w.0, remove-Holds id q v sp.new_subscribes j h w.1)
  ]
  unsubscribed true sp j h w = elim (Bool-cases (HashMap.contains_key sp.subscribes j)) [
    | inl e ↦ rw (e) (remove-Holds id q v sp.subscribes j h w.0, w.1)
    | inr e ↦ rw (e) (w.0, remove-Lacks id q v sp.new_subscribes j w.1)
  ]

  step-Placed :
      (b : Bool) (sp : ServiceInner) (e : Event)
      → Quiet e
      → Placed b sp
      → Placed (swapped b (e ∷ [])) (step sp e).0
  unfolding step swapped Service.hold Service.swap_new_subscribes Placed Lacks
  step-Placed b sp (Event.subscribe c) h w = subscribed b sp c h w
  step-Placed b sp (Event.unsubscribe j) h w = unsubscribed b sp j h w
  step-Placed b sp (Event.broadcast m) h w = w
  step-Placed b sp (Event.send_to m j) h w = w
  step-Placed b sp (Event.send_without m j) h w = w
  step-Placed b sp (Event.hold (Hold.send_new m)) h w = w
  step-Placed false sp (Event.hold Hold.swap) h w =
      (drain_into-Holds id q v sp.new_subscribes sp.subscribes w.1 w.0, tt)
  step-Placed true sp (Event.hold Hold.swap) h w =
      (drain_into-kept id q v sp.new_subscribes sp.subscribes w.1 w.0, tt)

  step-arriving :
      (b : Bool) (sp : ServiceInner) (e : Event)
      → Placed b sp
      → arriving q v (step sp e).1 ≡ owed id b e
  unfolding step arriving owed Service.hold Service.send_shared Service.send_to Service.send_without
      Service.send_new_subscribes Placed
  step-arriving false sp (Event.subscribe c) w = refl
  step-arriving false sp (Event.unsubscribe j) w = refl
  step-arriving false sp (Event.hold Hold.swap) w = refl
  step-arriving true sp (Event.subscribe c) w = refl
  step-arriving true sp (Event.unsubscribe j) w = refl
  step-arriving true sp (Event.hold Hold.swap) w = refl
  step-arriving false sp (Event.broadcast m) w = send_all-Lacks id q v sp.subscribes m w.0
  step-arriving false sp (Event.send_to m j) w = send_to-Lacks id q v sp.subscribes m j w.0
  step-arriving false sp (Event.send_without m j) w =
      send_all_without-Lacks id q v sp.subscribes m j w.0
  step-arriving false sp (Event.hold (Hold.send_new m)) w =
      send_all-Holds id q v sp.new_subscribes m w.1
  step-arriving true sp (Event.broadcast m) w = send_all-Holds id q v sp.subscribes m w.0
  step-arriving true sp (Event.send_to m j) w = send_to-Holds id q v sp.subscribes m j w.0
  step-arriving true sp (Event.send_without m j) w =
      send_all_without-Holds id q v sp.subscribes m j w.0
  step-arriving true sp (Event.hold (Hold.send_new m)) w =
      send_all-Lacks id q v sp.new_subscribes m w.1

  swapped_on :
      (b : Bool) (e : Event) (es : List Event)
      → swapped (swapped b (e ∷ [])) es ≡ swapped b (e ∷ es)
  unfolding swapped
  swapped_on b (Event.subscribe c) es = refl
  swapped_on b (Event.unsubscribe j) es = refl
  swapped_on b (Event.broadcast m) es = refl
  swapped_on b (Event.send_to m j) es = refl
  swapped_on b (Event.send_without m j) es = refl
  swapped_on b (Event.hold (Hold.send_new m)) es = refl
  swapped_on b (Event.hold Hold.swap) es = refl

  run-Placed :
      (b : Bool) (sp : ServiceInner) (es : List Event)
      → All Quiet es
      → Placed b sp
      → Placed (swapped b es) (run sp es).0
  unfolding run swapped
  run-Placed b sp [] h w = w
  run-Placed b sp (e ∷ es) h w =
      subst (λ (c : Bool). Placed c (run (step sp e).0 es).0) (swapped_on b e es)
        (run-Placed (swapped b (e ∷ [])) (step sp e).0 es h.1 (step-Placed b sp e h.0 w))

  run-arriving :
      (b : Bool) (sp : ServiceInner) (es : List Event)
      → All Quiet es
      → Placed b sp
      → arriving q v (run sp es).1 ≡ due id b es
  unfolding run arriving due
  run-arriving b sp [] h w = refl
  run-arriving b sp (e ∷ es) h w =
      arriving-append id q v (step sp e).1 (run (step sp e).0 es).1
      ∙ ap (λ (l : List Message). l ++ arriving q v (run (step sp e).0 es).1)
          (step-arriving b sp e w)
      ∙ ap (λ (l : List Message). owed id b e ++ l)
          (run-arriving (swapped b (e ∷ [])) (step sp e).0 es h.1 (step-Placed b sp e h.0 w))

  subscribe_waits :
      (sp : ServiceInner)
      → sp.need_snapshot ≡ true
      → Lacks id q v sp.subscribes
      → Service.on_subscribe sp (conn id q v)
        ≡ record sp { new_subscribes = HashMap.insert sp.new_subscribes id (conn id q v) }
  unfolding Service.on_subscribe
  subscribe_waits sp hn hs =
      rw (HashMap.contains_key-none sp.subscribes id (get-Lacks id q v sp.subscribes hs), hn)

  subscribe-Placed :
      (sp : ServiceInner)
      → sp.need_snapshot ≡ true
      → Lacks id q v sp.subscribes
      → Lacks id q v sp.new_subscribes
      → Placed false (Service.on_subscribe sp (conn id q v))
  unfolding Placed
  subscribe-Placed sp hn hs hw =
      subst (Placed false) (sym (subscribe_waits sp hn hs))
        (hs, insert-conn-Holds id q v sp.new_subscribes hw)

  -- A snapshot that finds the connection waiting is run, and sends it all its messages.
  callback-Quiet : (ms : List Message) → All Quiet (holds (Service.callback ms))
  unfolding holds Service.callback
  callback-Quiet [] = (tt, tt)
  callback-Quiet (m ∷ ms) = (tt, callback-Quiet ms)

  due-callback : (ms : List Message) → due id false (holds (Service.callback ms)) ≡ ms
  unfolding due holds owed swapped Service.callback
  due-callback [] = refl
  due-callback (m ∷ ms) = ap (λ (l : List Message). m ∷ l) (due-callback ms)

  snapshot_runs :
      (sp : ServiceInner) (ms : List Message)
      → Placed false sp
      → Service.snapshot sp ms ≡ Service.callback ms
  unfolding Service.snapshot Placed
  snapshot_runs sp ms w = if_true _ _ _ (Holds-length id q v sp.new_subscribes w.1)

-- A connection that has subscribed to a service that keeps new subscribers apart, and that no swap
-- has moved yet, is waited for by the next snapshot: it runs, and if no hold of others comes
-- between its own the connection is sent all its messages, once each and in order. The connection
-- was in none of the two maps, it neither leaves nor subscribes again, and other subscribers have
-- other ids and other queues.
pub snapshot-reaches :
    (id : ℕ) (q v : Sender) (sp : ServiceInner) (es : List Event) (ms : List Message)
    → sp.need_snapshot ≡ true
    → Lacks id q v sp.subscribes
    → Lacks id q v sp.new_subscribes
    → All (Quiet id q v) es
    → swapped false es ≡ false
    → arriving q v
        (run
          (run sp (Event.subscribe (conn id q v) ∷ es)).0
          (holds (Service.snapshot (run sp (Event.subscribe (conn id q v) ∷ es)).0 ms))).1
      ≡ ms
unfolding run step
snapshot-reaches id q v sp es ms hn hs hw h n =
    let u = (run (Service.on_subscribe sp (conn id q v)) es).0 in
    let w =
      subst (λ (b : Bool). Placed id q v b u) n
        (run-Placed id q v false (Service.on_subscribe sp (conn id q v)) es h
          (subscribe-Placed id q v sp hn hs hw)) in
    ap (λ (l : List Hold). arriving q v (run u (holds l)).1) (snapshot_runs id q v u ms w)
    ∙ run-arriving id q v false u (holds (Service.callback ms)) (callback-Quiet id q v ms) w
    ∙ due-callback id q v ms
