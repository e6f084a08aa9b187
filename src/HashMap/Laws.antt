-- ===== src/HashMap/Laws.antt =====
-- What a lookup finds after each operation.
use kd_desk_tc.Prelude.{
  ◌≤◌, ◌≡◌, ◌≢◌, refl, arith, false, none, some, [], ◌∷◌, if◌then◌else◌, Eq, ◌==◌, ==_refl, ne→==,
  length, All, Bool-cases, inl, inr, subst,
}
use mathlib.Core.Option.{some-injective}
use kd_desk_tc.HashMap.Defs.{HashMap, get, remove, insert, contains_key}

module _ {ℓ κ} {K : Type ℓ} {V : Type κ} ⦃e : Eq K⦄ where
  pub get-remove :
      (m : HashMap K V) (k j : K) → get (remove m k) j ≡ (if k == j then none else get m j)
  unfolding get remove
  get-remove [] k j = ground arith
  get-remove ((i, v) ∷ m) k j = ground (arith, get-remove m k j)

  pub get-insert :
      (m : HashMap K V) (k : K) (v : V) (j : K)
      → get (insert m k v) j ≡ (if k == j then some v else get m j)
  unfolding get insert
  get-insert m k v j = ground (arith, get-remove m k j)

  pub get-insert_self : (m : HashMap K V) (k : K) (v : V) → get (insert m k v) k ≡ some v
  get-insert_self m k v = rw (get-insert m k v k, ==_refl k)

  pub get-insert_ne :
      (m : HashMap K V) (k : K) (v : V) (j : K) → k ≢ j → get (insert m k v) j ≡ get m j
  get-insert_ne m k v j h = rw (get-insert m k v j, ne→== k j h)

  pub get-remove_self : (m : HashMap K V) (k : K) → get (remove m k) k ≡ none
  get-remove_self m k = rw (get-remove m k k, ==_refl k)

  pub get-remove_ne : (m : HashMap K V) (k j : K) → k ≢ j → get (remove m k) j ≡ get m j
  get-remove_ne m k j h = rw (get-remove m k j, ne→== k j h)

  pub remove-remove : (m : HashMap K V) (k : K) → remove (remove m k) k ≡ remove m k
  unfolding remove
  remove-remove [] k = refl
  remove-remove ((i, v) ∷ m) k = ground (arith, remove-remove m k)

  pub length-remove : (m : HashMap K V) (k : K) → length (remove m k) ≤ length m
  unfolding remove
  length-remove [] k = omega arith
  length-remove ((i, v) ∷ m) k = ground (arith, length-remove m k)

  pub contains_key-get : (m : HashMap K V) (k : K) → contains_key m k ≡ false → get m k ≡ none
  unfolding contains_key
  contains_key-get m k h = ground arith

  pub contains_key-none : (m : HashMap K V) (k : K) → get m k ≡ none → contains_key m k ≡ false
  unfolding contains_key
  contains_key-none m k h = rw (contains_key, h)

  -- What holds of every value of a map.
  abbrev pub Values {μ} : (V → Type μ) → HashMap K V → Type μ
  Values P m = All (λ x. P x.1) m

  pub remove-Values {μ} :
      (P : V → Type μ) (m : HashMap K V) (k : K) → Values P m → Values P (remove m k)
  unfolding remove
  remove-Values P [] k h = h
  remove-Values P ((i, v) ∷ m) k h = elim (Bool-cases (i == k)) [
    | inl e ↦ rw (e) (remove-Values P m k h.1)
    | inr e ↦ rw (e) (h.0, remove-Values P m k h.1)
  ]

  pub insert-Values {μ} :
      (P : V → Type μ) (m : HashMap K V) (k : K) (v : V)
      → P v
      → Values P m
      → Values P (insert m k v)
  unfolding insert
  insert-Values P m k v hv h = (hv, remove-Values P m k h)

  pub get-Values {μ} :
      (P : V → Type μ) (m : HashMap K V) (k : K) (v : V) → Values P m → get m k ≡ some v → P v
  unfolding get
  get-Values P [] k v h e = absurd (cc)
  get-Values P ((i, w) ∷ m) k v h e = elim (Bool-cases (i == k)) [
    | inl t ↦ subst P (some-injective w v (ground arith)) h.0
    | inr t ↦ get-Values P m k v h.1 (ground arith)
  ]
