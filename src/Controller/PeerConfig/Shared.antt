-- ===== src/Controller/PeerConfig/Shared.antt =====
-- The files of peers whose ids differ only behind their last dot.
use kd_desk_tc.Prelude.{
  ℕ, ◌≡◌, sym, ap, ◌∙◌, true, false, Option, none, some, [], ◌∷◌, ◌++◌, ◌==◌, ==_refl, nat_eq,
  list_eq, if◌then◌else◌, if_true, if_false,
}
use kd_desk_tc.Proto.{Text}
use kd_desk_tc.HashMap
use kd_desk_tc.Controller.PeerConfig.{PeerConfig, Peers, before_dot, path, load, store, default}

before_dot-append : (s a : Text) → before_dot a ≡ none → before_dot (s ++ b'.' ∷ a) ≡ some s
unfolding before_dot
before_dot-append [] a h =
    ap
      (λ (o : Option Text). elim o [
        | some stem ↦ some (b'.' ∷ stem)
        | none ↦ if ◌==◌ {A = ℕ} b'.' b'.' then some [] else none
      ])
      h
    ∙ if_true (◌==◌ {A = ℕ} b'.' b'.') _ _ (==_refl {A = ℕ} b'.')
before_dot-append (c ∷ s) a h =
    ap
      (λ (o : Option Text). elim o [
        | some stem ↦ some (c ∷ stem)
        | none ↦ if c == b'.' then some [] else none
      ])
      (before_dot-append s a h)

path-append : (s a : Text) → (s == []) ≡ false → before_dot a ≡ none → path (s ++ b'.' ∷ a) ≡ s
unfolding path
path-append s a n h =
    ap
      (λ (o : Option Text). elim o [
        | none ↦ s ++ b'.' ∷ a
        | some stem ↦ if stem == [] then s ++ b'.' ∷ a else stem
      ])
      (before_dot-append s a h)
    ∙ if_false (s == []) (s ++ b'.' ∷ a) s n

-- A file that is written is read again.
load_stored :
    (peers : Peers) (config : PeerConfig) (id other : Text)
    → path id ≡ path other
    → load (store peers true config id) other ≡ config
unfolding load store
load_stored peers config id other e =
    ap (λ (o : Option PeerConfig). elim o [ none ↦ default | some c ↦ c ])
      (ap (HashMap.get (HashMap.insert peers (path id) config)) (sym e)
        ∙ HashMap.get-insert_self peers (path id) config)

-- What is stored for one peer is loaded for every other peer whose id differs only behind the last
-- dot, such as another address of the same network; something stands before that dot, and the file
-- can be written.
pub load-store :
    (peers : Peers) (config : PeerConfig) (s a b : Text)
    → (s == []) ≡ false
    → before_dot a ≡ none
    → before_dot b ≡ none
    → load (store peers true config (s ++ b'.' ∷ a)) (s ++ b'.' ∷ b) ≡ config
load-store peers config s a b n h k =
    load_stored peers config (s ++ b'.' ∷ a) (s ++ b'.' ∷ b)
      (path-append s a n h ∙ sym (path-append s b n k))
