-- ===== src/Client/Service/Queues.antt =====
-- The maps of subscribers seen from one connection, which has two queues of its own: maps that do not
-- hold it, maps that hold it once, and what arrives in its queues when a service sends.
use kd_desk_tc.Prelude.{
  ℕ, ap, ◌≡◌, ◌≢◌, ◌⊎◌, inl, inr, refl, sym, subst, ◌∙◌, arith, true, false, ◌||◌, Option, none,
  some, List, [], ◌∷◌, ◌++◌, All, length, ltb, if◌then◌else◌, ◌==◌, nat_eq, ne→==, Bool-cases,
  lt→ltb, ==→eq, if_true, if_false,
}
use kd_desk_tc.Client.Proto.{Message}
use kd_desk_tc.HashMap
use kd_desk_tc.Client.Service
use kd_desk_tc.Client.Service.{Sender, Sent, ConnInner, Subscribers, ServiceInner, send, send_all}

-- What arrives in two queues, in order.
unfoldable pub arriving : Sender → Sender → Sent → List Message
arriving q v [] = []
arriving q v ((i, m) ∷ xs) =
    let rest = arriving q v xs in if i == q || i == v then m ∷ rest else rest

-- A subscriber that is another connection, under its own id.
abbrev pub Foreign : ℕ → Sender → Sender → ConnInner → Type 0
Foreign id q v s =
    (s.id ≢ id) × (s.tx ≢ some q) × (s.tx ≢ some v) × (s.tx_video ≢ some q) × (s.tx_video ≢ some v)

unfoldable pub Lacks : ℕ → Sender → Sender → Subscribers → Type 0
Lacks id q v m = All (λ e. (e.0 ≡ e.1.id) × Foreign id q v e.1) m

same_id : (i j id : ℕ) → (i == j) ≡ true → i ≡ id → (j == id) ≡ true
same_id i j id e h = ground arith

other_id : (i j id : ℕ) → (i == j) ≡ false → i ≡ id → (j == id) ≡ false
other_id i j id e h = ground arith

module _ (id : ℕ) (q v : Sender) where
  -- The connection whose queues these are.
  abbrev pub conn : ConnInner
  conn = record { id = id; tx = some q; tx_video = some v }

  -- The map holds the connection once, and otherwise others.
  unfoldable pub Holds : Subscribers → Type 0
  unfolding Lacks
  Holds [] = ⊥
  Holds ((i, s) ∷ m) =
      ((i ≡ id) × (s ≡ conn) × Lacks id q v m) ⊎ (((i ≡ s.id) × Foreign id q v s) × Holds m)

  pub arriving-append :
      (xs ys : Sent) → arriving q v (xs ++ ys) ≡ arriving q v xs ++ arriving q v ys
  unfolding arriving
  arriving-append [] ys = refl
  arriving-append ((i, m) ∷ xs) ys = ground (arith, arriving-append xs ys)

  pub to_queue-other :
      (tx : Option Sender) (m : Message)
      → tx ≢ some q
      → tx ≢ some v
      → arriving q v (Service.to_queue tx m) ≡ []
  unfolding arriving Service.to_queue
  to_queue-other none m hq hv = refl
  to_queue-other (some t) m hq hv =
      rw (ne→== t q (λ e. hq (ap some e)), ne→== t v (λ e. hv (ap some e)))

  pub send-Foreign : (s : ConnInner) (m : Message) → Foreign id q v s → arriving q v (send s m) ≡ []
  unfolding send
  send-Foreign s m h =
      ground (arith, to_queue-other s.tx m h.1 h.2, to_queue-other s.tx_video m h.3 h.4)

  pub send-conn : (m : Message) → arriving q v (send conn m) ≡ m ∷ []
  unfolding arriving send Service.to_queue
  send-conn m = ground arith

  pub send_all-Lacks :
      (m : Subscribers) (msg : Message) → Lacks id q v m → arriving q v (send_all m msg) ≡ []
  unfolding arriving Lacks send_all
  send_all-Lacks [] msg h = refl
  send_all-Lacks ((i, s) ∷ m) msg h = rw (
    arriving-append (send s msg) (send_all m msg),
    send-Foreign s msg h.0.1,
    send_all-Lacks m msg h.1,
  )

  pub send_all-Holds :
      (m : Subscribers) (msg : Message) → Holds m → arriving q v (send_all m msg) ≡ msg ∷ []
  unfolding arriving Holds send_all
  send_all-Holds [] msg h = absurd h
  send_all-Holds ((i, s) ∷ m) msg (inl (hi, hs, h)) =
      rw (arriving-append (send s msg) (send_all m msg), hs, send-conn msg, send_all-Lacks m msg h)
  send_all-Holds ((i, s) ∷ m) msg (inr (h, hm)) = rw (
    arriving-append (send s msg) (send_all m msg),
    send-Foreign s msg h.1,
    send_all-Holds m msg hm,
  )

  pub remove-Lacks : (m : Subscribers) (j : ℕ) → Lacks id q v m → Lacks id q v (HashMap.remove m j)
  unfolding Lacks HashMap.remove
  remove-Lacks [] j h = h
  remove-Lacks ((i, s) ∷ m) j h = elim (Bool-cases (i == j)) [
    | inl e ↦ rw (e) (remove-Lacks m j h.1)
    | inr e ↦ rw (e) ((h.0, remove-Lacks m j h.1))
  ]

  pub remove-Holds : (m : Subscribers) (j : ℕ) → j ≢ id → Holds m → Holds (HashMap.remove m j)
  unfolding Lacks Holds HashMap.remove
  remove-Holds [] j hj h = h
  remove-Holds ((i, s) ∷ m) j hj (inl (hi, hs, h)) =
      rw (ne→== i j (λ e. hj (sym e ∙ hi))) (inl (hi, hs, remove-Lacks m j h))
  remove-Holds ((i, s) ∷ m) j hj (inr (h, hm)) = elim (Bool-cases (i == j)) [
    | inl e ↦ rw (e) (remove-Holds m j hj hm)
    | inr e ↦ rw (e) (inr (h, remove-Holds m j hj hm))
  ]

  pub insert-Lacks :
      (m : Subscribers) (s : ConnInner)
      → Foreign id q v s
      → Lacks id q v m
      → Lacks id q v (HashMap.insert m s.id s)
  unfolding Lacks HashMap.insert
  insert-Lacks m s hs h = ((refl, hs), remove-Lacks m s.id h)

  pub insert-Holds :
      (m : Subscribers) (s : ConnInner)
      → Foreign id q v s
      → Holds m
      → Holds (HashMap.insert m s.id s)
  unfolding Holds HashMap.insert
  insert-Holds m s hs h = inr ((refl, hs), remove-Holds m s.id hs.0 h)

  pub insert-conn-Holds : (m : Subscribers) → Lacks id q v m → Holds (HashMap.insert m id conn)
  unfolding Holds HashMap.insert
  insert-conn-Holds m h = inl (refl, refl, remove-Lacks m id h)

  pub drain_into-kept :
      (new m : Subscribers) → Lacks id q v new → Holds m → Holds (Service.drain_into new m)
  unfolding Lacks Service.drain_into
  drain_into-kept [] m hn h = h
  drain_into-kept ((i, s) ∷ new) m hn h =
      drain_into-kept new (HashMap.insert m s.id s) hn.1 (insert-Holds m s hn.0.1 h)

  -- The connection moves with the others that wait.
  pub drain_into-Holds :
      (new m : Subscribers) → Holds new → Lacks id q v m → Holds (Service.drain_into new m)
  unfolding Holds Service.drain_into
  drain_into-Holds [] m hn h = absurd hn
  drain_into-Holds ((i, s) ∷ new) m (inl (hi, hs, hn)) h =
      drain_into-kept new (HashMap.insert m s.id s) hn
        (subst (λ c. Holds (HashMap.insert m c.id c)) (sym hs) (insert-conn-Holds m h))
  drain_into-Holds ((i, s) ∷ new) m (inr (hf, hn)) h =
      drain_into-Holds new (HashMap.insert m s.id s) hn (insert-Lacks m s hf.1 h)

  pub get-Lacks : (m : Subscribers) → Lacks id q v m → HashMap.get m id ≡ none
  unfolding Lacks HashMap.get
  get-Lacks [] h = refl
  get-Lacks ((i, s) ∷ m) h = rw (ne→== i id (λ e. h.0.1.0 (sym h.0.0 ∙ e))) (get-Lacks m h.1)

  pub Holds-length : (m : Subscribers) → Holds m → ltb 0 (length m) ≡ true
  unfolding Holds
  Holds-length [] h = absurd h
  Holds-length (x ∷ m) h = lt→ltb 0 (length (x ∷ m)) (omega arith)

  pub send_to-Lacks :
      (m : Subscribers) (msg : Message) (j : ℕ)
      → Lacks id q v m
      → arriving q v (elim (HashMap.get m j) [ none ↦ [] | some s ↦ send s msg ]) ≡ []
  unfolding Lacks arriving HashMap.get
  send_to-Lacks [] msg j h = refl
  send_to-Lacks ((i, s) ∷ m) msg j h = elim (Bool-cases (i == j)) [
    | inl e ↦ rw (e) (send-Foreign s msg h.0.1)
    | inr e ↦ rw (e) (send_to-Lacks m msg j h.1)
  ]

  pub send_all_without-Lacks :
      (m : Subscribers) (msg : Message) (j : ℕ)
      → Lacks id q v m
      → arriving q v (Service.send_all_without m msg j) ≡ []
  unfolding Lacks arriving Service.send_all_without
  send_all_without-Lacks [] msg j h = refl
  send_all_without-Lacks ((i, s) ∷ m) msg j h = elim (Bool-cases (j == s.id)) [
    | inl e ↦ rw (e) (send_all_without-Lacks m msg j h.1)
    | inr e ↦ rw (
      e,
      arriving-append (send s msg) (Service.send_all_without m msg j),
      send-Foreign s msg h.0.1,
      send_all_without-Lacks m msg j h.1,
    )
  ]

  pub send_to-Holds :
      (m : Subscribers) (msg : Message) (j : ℕ)
      → Holds m
      → arriving q v (elim (HashMap.get m j) [ none ↦ [] | some s ↦ send s msg ])
        ≡ (if j == id then msg ∷ [] else [])
  unfolding Holds HashMap.get
  send_to-Holds [] msg j h = absurd h
  send_to-Holds ((i, s) ∷ m) msg j (inl (hi, hs, h)) = elim (Bool-cases (i == j)) [
    | inl e ↦ rw (e, hs, send-conn msg) (sym (if_true (j == id) _ _ (same_id i j id e hi)))
    | inr e ↦ rw (e, send_to-Lacks m msg j h) (sym (if_false (j == id) _ _ (other_id i j id e hi)))
  ]
  send_to-Holds ((i, s) ∷ m) msg j (inr (h, hm)) = elim (Bool-cases (i == j)) [
    | inl e ↦
        rw (e, send-Foreign s msg h.1)
          (sym (if_false (j == id) _ _ (ne→== j id (λ k. h.1.0 (sym h.0 ∙ ==→eq i j e ∙ k)))))
    | inr e ↦ rw (e) (send_to-Holds m msg j hm)
  ]

  pub send_all_without-Holds :
      (m : Subscribers) (msg : Message) (j : ℕ)
      → Holds m
      → arriving q v (Service.send_all_without m msg j) ≡ (if j == id then [] else msg ∷ [])
  unfolding Holds arriving Service.send_all_without
  send_all_without-Holds [] msg j h = absurd h
  send_all_without-Holds ((i, s) ∷ m) msg j (inl (hi, hs, h)) = elim (Bool-cases (j == id)) [
    | inl e ↦ rw (hs, e) (send_all_without-Lacks m msg j h)
    | inr e ↦
        rw
          (
            hs,
            e,
            arriving-append (send conn msg) (Service.send_all_without m msg j),
            send-conn msg,
            send_all_without-Lacks m msg j h,
          )
          refl
  ]
  send_all_without-Holds ((i, s) ∷ m) msg j (inr (h, hm)) = elim (Bool-cases (j == s.id)) [
    | inl e ↦ rw (e) (send_all_without-Holds m msg j hm)
    | inr e ↦
        rw
          (
            e,
            arriving-append (send s msg) (Service.send_all_without m msg j),
            send-Foreign s msg h.1,
          )
          (send_all_without-Holds m msg j hm)
  ]
