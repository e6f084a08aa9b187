-- ===== src/Client/Service/Apart.antt =====
-- The two maps of a service hold different ids.
use kd_desk_tc.Prelude.{
  true≢false, ℕ, ap, ◌⊎◌, inl, inr, ◌≡◌, refl, sym, subst, ◌∙◌, arith, Bool, false, none, [], ◌==◌,
  list_eq, nat_eq, bool_eq, ==→eq, Bool-cases,
}
use kd_desk_tc.Proto.{Text}
use kd_desk_tc.HashMap
use kd_desk_tc.HashMap.{HashMap}
use kd_desk_tc.Client.Service
use kd_desk_tc.Client.Service.{ConnInner, Subscribers, ServiceInner}

-- Nobody waits for a snapshot who is served already.
unfoldable pub Apart : ServiceInner → Type 0
Apart sp =
    (id : ℕ) → (HashMap.get sp.subscribes id ≡ none) ⊎ (HashMap.get sp.new_subscribes id ≡ none)

-- Nobody is under this id in any of the two maps.
abbrev pub Absent : ℕ → ServiceInner → Type 0
Absent id sp = (HashMap.get sp.subscribes id ≡ none) × (HashMap.get sp.new_subscribes id ≡ none)

-- A service that keeps no new subscribers serves all that subscribe.
unfoldable pub Kept : ServiceInner → Type 0
Kept sp = Apart sp × (sp.need_snapshot ≡ false → sp.new_subscribes ≡ [])

remove-none :
    (m : Subscribers) (j id : ℕ)
    → HashMap.get m id ≡ none
    → HashMap.get (HashMap.remove m j) id ≡ none
remove-none m j id h = ground (arith, HashMap.get-remove m j id)

insert-none :
    (m n : Subscribers) (c : ConnInner) (id : ℕ)
    → HashMap.get m c.id ≡ none
    → (HashMap.get m id ≡ none) ⊎ (HashMap.get n id ≡ none)
    → (HashMap.get m id ≡ none) ⊎ (HashMap.get (HashMap.insert n c.id c) id ≡ none)
insert-none m n c id hc h = elim (Bool-cases (c.id == id)) [
  | inl e ↦ inl (subst (λ j. HashMap.get m j ≡ none) (==→eq c.id id e) hc)
  | inr e ↦ rw (HashMap.get-insert n c.id c id, e) h
]

none-get : (m : Subscribers) (id : ℕ) → m ≡ [] → HashMap.get m id ≡ none
unfolding HashMap.get
none-get m id h = rw (h) refl

pub on_subscribe-Kept :
    (sp : ServiceInner) (c : ConnInner) → Kept sp → Kept (Service.on_subscribe sp c)
unfolding Kept Apart Service.on_subscribe
on_subscribe-Kept sp c (h, n) = elim (Bool-cases (HashMap.contains_key sp.subscribes c.id)) [
  | inl e ↦ rw (e) (h, n)
  | inr e ↦ elim (Bool-cases sp.need_snapshot) [
    | inl s ↦
        rw (e, s)
          (
            λ id.
                insert-none sp.subscribes sp.new_subscribes c id
                  (HashMap.contains_key-get sp.subscribes c.id e) (h id),
            λ t. absurd (cc),
          )
    | inr s ↦ rw (e, s) (λ id. inr (none-get sp.new_subscribes id (n s)), λ t. n s)
  ]
]

pub on_unsubscribe-Kept : (sp : ServiceInner) (j : ℕ) → Kept sp → Kept (Service.on_unsubscribe sp j)
unfolding Kept Apart Service.on_unsubscribe HashMap.remove
on_unsubscribe-Kept sp j (h, n) = elim (Bool-cases (HashMap.contains_key sp.subscribes j)) [
  | inl e ↦
      rw (e)
        (λ id. elim (h id) [ inl t ↦ inl (remove-none sp.subscribes j id t) | inr t ↦ inr t ], n)
  | inr e ↦ rw (e) (
    λ id. elim (h id) [ inl t ↦ inl t | inr t ↦ inr (remove-none sp.new_subscribes j id t) ],
    λ t. ap (λ m. HashMap.remove m j) (n t),
  )
]

pub on_unsubscribe-Absent :
    (sp : ServiceInner) (j : ℕ) → Kept sp → Absent j (Service.on_unsubscribe sp j)
unfolding Kept Apart Service.on_unsubscribe
on_unsubscribe-Absent sp j (h, n) = elim (Bool-cases (HashMap.contains_key sp.subscribes j)) [
  | inl e ↦ elim (h j) [
    | inl t ↦ absurd (true≢false (sym e ∙ HashMap.contains_key-none sp.subscribes j t))
    | inr t ↦ rw (e) (HashMap.get-remove_self sp.subscribes j, t)
  ]
  | inr e ↦
      rw (e)
        (HashMap.contains_key-get sp.subscribes j e, HashMap.get-remove_self sp.new_subscribes j)
]

pub new-Kept : (name : Text) (need_snapshot : Bool) → Kept (Service.new name need_snapshot)
unfolding Kept Apart Service.new HashMap.get
new-Kept name need_snapshot = (λ id. inl refl, λ e. refl)

pub hold-Kept : (sp : ServiceInner) (h : Service.Hold) → Kept sp → Kept (Service.hold sp h).0
unfolding Kept Apart Service.hold Service.swap_new_subscribes HashMap.get
hold-Kept sp (Service.Hold.send_new msg) k = k
hold-Kept sp Service.Hold.swap k = (λ id. inr refl, λ t. refl)
