-- ===== src/Relay/Commands/Lists.antt =====
-- What the commands do to the black list and to the block list.
use kd_desk_tc.Prelude.{
  list_discrete, ◌≡◌, ◌≢◌, refl, arith, Bool, false, not, ◌&&◌, ◌||◌, List, [], ◌∷◌, ◌==◌, list_eq,
}
use kd_desk_tc.Strings.{split, bytes}
use kd_desk_tc.Proto.{Text}
use kd_desk_tc.HashMap
use kd_desk_tc.Relay.State.{RelayServer, HashSet, Std}
use kd_desk_tc.Relay.Commands.{add_all, remove_all, add_words, remove_words, check_cmd}

-- Whether an address is one of the list.
pub named : Text → List Text → Bool
named ip [] = false
named ip (x ∷ xs) = (x == ip) || named ip xs

add_all-contains_key :
    (ips : List Text) (set : HashSet) (ip : Text)
    → HashMap.contains_key (add_all ips set) ip ≡ (named ip ips || HashMap.contains_key set ip)
unfolding add_all named HashMap.contains_key
add_all-contains_key [] set ip = refl
add_all-contains_key (x ∷ xs) set ip =
    ground
      (arith, add_all-contains_key xs (HashMap.insert set x tt) ip, HashMap.get-insert set x tt ip)

remove_all-contains_key :
    (ips : List Text) (set : HashSet) (ip : Text)
    → HashMap.contains_key (remove_all ips set) ip
      ≡ (not (named ip ips) && HashMap.contains_key set ip)
unfolding remove_all named HashMap.contains_key
remove_all-contains_key [] set ip = refl
remove_all-contains_key (x ∷ xs) set ip =
    ground
      (arith, remove_all-contains_key xs (HashMap.remove set x) ip, HashMap.get-remove set x ip)

remove_words-contains_key :
    (arg : Text) (rest : List Text) (set : HashSet) (ip : Text)
    → arg ≢ bytes "all"
    → HashMap.contains_key (remove_words (arg ∷ rest) set) ip
      ≡ (not (named ip (split b'|' arg)) && HashMap.contains_key set ip)
unfolding remove_words
remove_words-contains_key arg rest set ip h =
    ground (arith, remove_all-contains_key (split b'|' arg) set ip)

module _ {F : Type 0} (std : Std F) (cmd arg : Text) (rest : List Text) (s : RelayServer F)
    (ip : Text) where
  -- After `ba` with a list of addresses, the black list holds these and the ones that it held
  -- before, and no others, and the block list is as it was.
  check_cmd-adds :
      split b' ' (std.trim cmd) ≡ bytes "ba" ∷ arg ∷ rest
      → (HashMap.contains_key (check_cmd std cmd s).0.blacklist ip
          ≡ (named ip (split b'|' arg) || HashMap.contains_key s.blacklist ip))
        × ((check_cmd std cmd s).0.blocklist ≡ s.blocklist)
  unfolding check_cmd add_words list_discrete
  check_cmd-adds h = rw h (add_all-contains_key (split b'|' arg) s.blacklist ip, refl)

  -- After `Br` with a list of addresses other than the word `all`, the block list holds the ones
  -- that it held before, less these, and the black list is as it was.
  check_cmd-removes :
      split b' ' (std.trim cmd) ≡ bytes "Br" ∷ arg ∷ rest
      → arg ≢ bytes "all"
      → (HashMap.contains_key (check_cmd std cmd s).0.blocklist ip
          ≡ (not (named ip (split b'|' arg)) && HashMap.contains_key s.blocklist ip))
        × ((check_cmd std cmd s).0.blacklist ≡ s.blacklist)
  unfolding check_cmd list_discrete
  check_cmd-removes h k = rw h (remove_words-contains_key arg rest s.blocklist ip k, refl)
