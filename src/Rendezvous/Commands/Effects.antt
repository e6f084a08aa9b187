-- ===== src/Rendezvous/Commands/Effects.antt =====
-- What a command leaves behind.
use kd_desk_tc.Prelude.{◌≡◌, refl, arith, none, List, [], ◌∷◌, ◌==◌, list_eq, list_discrete}
use kd_desk_tc.Strings.{split, bytes}
use kd_desk_tc.Proto.{Text}
use kd_desk_tc.World.{World}
use kd_desk_tc.HashMap
use kd_desk_tc.Rendezvous.State.{RendezvousServer}
use kd_desk_tc.Rendezvous.Relays.{get_servers, parse_relay_servers}
use kd_desk_tc.Rendezvous.Commands.{
  Shell, check_cmd, ip_blocker_cmd, always_use_relay_cmd, on_data, drain_queue,
}

ip_blocker_cmd-removes :
    (sh : Shell) (w : World) (arg : Text) (s : RendezvousServer)
    → sh.parse_i32 arg ≡ none
    → HashMap.get (ip_blocker_cmd sh w (arg ∷ bytes "-" ∷ []) s).0.ip_blocker arg ≡ none
unfolding ip_blocker_cmd list_discrete
ip_blocker_cmd-removes sh w arg s e = grind (arith, HashMap.get-remove_self)

module _ (sh : Shell) (w : World) (cmd arg : Text) (s : RendezvousServer) where
  -- The command `aur` with a word sets the flag to whether the word in capitals is Y, and once
  -- the main loop has emptied the queue, the relay servers are what the word itself lists,
  -- whatever they were before; the queue was empty before.
  check_cmd-forgets :
      (rest : List Text)
      → split b' ' (sh.trim cmd) ≡ bytes "aur" ∷ arg ∷ rest
      → s.tx ≡ []
      → ((drain_queue w (check_cmd sh w cmd s).0).always_use_relay
          ≡ (sh.to_uppercase arg == bytes "Y"))
        × ((drain_queue w (check_cmd sh w cmd s).0).relay_servers ≡ get_servers w arg)
  unfolding check_cmd always_use_relay_cmd drain_queue on_data parse_relay_servers list_discrete
  check_cmd-forgets rest h e = rw (h, e) (refl, refl)

  -- The command `ib` with an address that is no number and a dash leaves no entry for the address
  -- in the table of registrations.
  check_cmd-unblocks :
      split b' ' (sh.trim cmd) ≡ bytes "ib" ∷ arg ∷ bytes "-" ∷ []
      → sh.parse_i32 arg ≡ none
      → HashMap.get (check_cmd sh w cmd s).0.ip_blocker arg ≡ none
  unfolding check_cmd list_discrete
  check_cmd-unblocks h e = rw h (ip_blocker_cmd-removes sh w arg s e)
