-- ===== src/Rendezvous/Register/Runs.antt =====
-- Tests and examples for registrations.
use kd_desk_tc.Prelude.{
  ℕ, ◌≡◌, ◌≢◌, ◌⊎◌, refl, Bool, true, false, some, none, List, [], ◌∷◌, ◌++◌, arith,
}
use kd_desk_tc.Net.{v4, SocketAddr, addr_127}
use kd_desk_tc.Proto.{RegisterPkResult, register_pk_response}
use kd_desk_tc.HashMap
use kd_desk_tc.Peer.{Peer}
use kd_desk_tc.Rendezvous.State.{final, send}
use kd_desk_tc.Rendezvous.Samples.{world_at, host, home, home_peer, server, unplugged, claim_home}
use kd_desk_tc.Rendezvous.Register.{update_addr, check_claim, mismatch, matches, register_pk}
use kd_desk_tc.Rendezvous.Register.Address.{update_addr-keeps_ip}
use kd_desk_tc.Rendezvous.Register.Replies.{register_pk-unstored}

-- Another key is accepted from the address on record, and refused from another one.
check_claim_home : check_claim home_peer (10 ∷ 0 ∷ 0 ∷ 1 ∷ []) claim_home ≡ matches true false
unfolding check_claim kd_desk_tc.Prelude.list_discrete
check_claim_home = refl

check_claim_away : check_claim home_peer (10 ∷ 0 ∷ 0 ∷ 2 ∷ []) claim_home ≡ mismatch
unfolding check_claim kd_desk_tc.Prelude.list_discrete
check_claim_away = refl

abbrev moved : Peer
moved = record home_peer {
  socket_addr = record { ip = (host 1).ip; port = 6000 };
  last_reg_time = 86402000;
}

update_addr-keeps_ip_example : moved.socket_addr.ip ≡ home_peer.socket_addr.ip
unfolding kd_desk_tc.Prelude.list_discrete kd_desk_tc.Peer.get_in_memory HashMap.insert
    kd_desk_tc.Net.IpAddr-discrete
update_addr-keeps_ip_example =
    update_addr-keeps_ip (world_at 86402000) home moved.socket_addr server home home_peer moved
      (λ e. cc) (unfold HashMap.get in refl) (λ e. ground arith)
      (unfold update_addr send HashMap.get in refl)

register_pk-unstored_example :
    ((final (register_pk (world_at 86402000) (host 3) claim_home unplugged)).udp
      ≡ unplugged.udp ++ ((register_pk_response RegisterPkResult.ok, host 3) ∷ []))
    × ((final (register_pk (world_at 86402000) (host 3) claim_home unplugged)).pm.db
        ≡ unplugged.pm.db)
unfolding kd_desk_tc.Blocker.check_ip_blocker HashMap.get
register_pk-unstored_example =
    register_pk-unstored (world_at 86402000) (host 3) claim_home unplugged (λ e. cc) (λ e. cc)
      (omega arith) refl refl (unfold HashMap.get in refl) refl
