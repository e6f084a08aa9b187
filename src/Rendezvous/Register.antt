-- ===== src/Rendezvous/Register.antt =====
-- Registration: `update_addr`, the arm `register_pk` of `handle_udp`, and `send_rk_res`.
pub mod Address
pub mod Replies
mod Runs
use kd_desk_tc.Prelude.{
  ℕ, zero, suc, ◌+◌, ◌-◌, ◌%◌, ◌^◌, Bool, true, false, not, ◌&&◌, ◌||◌, Option, none, some, List,
  [], ◌∷◌, length, ltb, ◌==◌, nat_eq, list_eq, if◌then◌else◌,
}
use kd_desk_tc.Net.{SocketAddr, ip_eq, addr_127}
use kd_desk_tc.Proto.{
  Text, RegisterPk, RegisterPkResult, register_peer_response, register_pk_response,
}
use kd_desk_tc.World.{World, PeerInfo}
use kd_desk_tc.HashMap
use kd_desk_tc.HashMap.{HashMap}
use kd_desk_tc.Blocker.{check_ip_blocker, elapsed_secs}
use kd_desk_tc.Peer
use kd_desk_tc.Peer.{Peer, PeerMap}
use kd_desk_tc.Rendezvous.State.{
  RendezvousServer, IpChange, M, Outcome, done, bind, ◌>>=◌, ◌>>◌, read, modify, pure, send,
}

-- Whether the peer's address is another one than before; loopback does not count.
unfoldable pub addr_changed : World → Peer → SocketAddr → Bool
addr_changed w old addr =
    let moved =
      if old.socket_addr.port == 0
      then not (w.ip_to_string addr.ip == old.info.ip)
      else not (addr.ip == old.socket_addr.ip) in
    moved && not (addr.ip == addr_127)

-- What a registration does to the peer, and whether its key is asked for.
unfoldable pub refresh : World → Peer → SocketAddr → Peer × Bool
unfolding addr_changed
refresh w old addr =
    let request_pk = old.pk == [] || addr_changed w old addr in
    if request_pk
    then (old, true)
    else (record old { socket_addr = addr; last_reg_time = w.now }, false)

refresh_known : World → Text → SocketAddr → Option Peer → M Bool
unfolding refresh
refresh_known w id addr none s = done true s
refresh_known w id addr (some old) s =
    let r = refresh w old addr in done r.1 (record s { pm = Peer.write s.pm id r.0 })

unfoldable pub update_addr : World → Text → SocketAddr → M (Unit {0})
unfolding refresh_known
update_addr w id addr = do
  s ← read
  request_pk ← refresh_known w id addr (Peer.get_in_memory s.pm id)
  send w (register_peer_response request_pk) addr

unfoldable pub send_rk_res : World → SocketAddr → RegisterPkResult → M (Unit {0})
send_rk_res w addr res = send w (register_pk_response res) addr

-- `(changed, ip_changed)`, or a mismatch of the peer's uuid, or of its address and its key.
pub data Claim : Type 0 where
  mismatch : Claim
  matches : Bool → Bool → Claim

unfoldable pub check_claim : Peer → Text → RegisterPk → Claim
check_claim peer ip rk =
    if peer.uuid == []
    then matches true false
    else if peer.uuid == rk.uuid
    then (if (not (peer.info.ip == ip) && not (peer.pk == rk.pk))
        then mismatch
        else (let ip_changed = not (peer.info.ip == ip) in
            matches (not (peer.uuid == rk.uuid) || (not (peer.pk == rk.pk) || ip_changed))
              ip_changed))
    else mismatch

-- How often the peer registers its key: the new count and time, or none if it is too often.
unfoldable pub count_request : World → Peer → Option Peer
count_request w peer =
    let over = ltb 6 (elapsed_secs w.now peer.reg_at) in
    let count = if over then 0 else peer.reg_count in
    if (not over && ltb 2 peer.reg_count)
    then none
    else some (record peer { reg_count = count + 1; reg_at = w.now })

abbrev bump : Option ℕ → ℕ
bump none = 1
bump (some v) = (v + 1) % 2 ^ 32

ip_change_dur : ℕ
ip_change_dur = 180

unfoldable pub change_entry : World → Text → Option IpChange → IpChange
unfolding ip_change_dur
change_entry w ip none = record { tm = w.now; ips = (ip, 1) ∷ [] }
change_entry w ip (some c) =
    if ltb ip_change_dur (elapsed_secs w.now c.tm)
    then record { tm = w.now; ips = HashMap.insert [] ip 1 }
    else record c { ips = HashMap.insert c.ips ip (bump (HashMap.get c.ips ip)) }

unfoldable pub note_ip_change : World → Text → Text → Bool → RendezvousServer → RendezvousServer
unfolding change_entry
note_ip_change w id ip ip_changed s =
    if ip_changed
    then record s {
      ip_changes = HashMap.insert s.ip_changes id (change_entry w ip (HashMap.get s.ip_changes id));
    }
    else s

-- `update_pk`, whose answer the caller drops.
store_pk : World → Text → Peer → SocketAddr → RegisterPk → Text → Bool → M (Unit {0})
store_pk w id peer addr rk ip changed s =
    if changed
    then done tt (record s { pm = (Peer.update_pk w s.pm id peer addr rk.uuid rk.pk ip).0 })
    else done tt s

accept_counted :
    World → Text → SocketAddr → RegisterPk → Text → Bool → Bool → Option Peer → M (Unit {0})
unfolding note_ip_change store_pk send_rk_res
accept_counted w id addr rk ip changed ip_changed none =
    send_rk_res w addr RegisterPkResult.too_frequent
accept_counted w id addr rk ip changed ip_changed (some peer) = do
  modify (λ s. record s { pm = Peer.write s.pm id peer })
  modify (note_ip_change w id ip ip_changed)
  store_pk w id peer addr rk ip changed
  send_rk_res w addr RegisterPkResult.ok

accept_claim : World → Text → Peer → SocketAddr → RegisterPk → Text → Claim → M (Unit {0})
unfolding accept_counted count_request send_rk_res
accept_claim w id peer addr rk ip mismatch = send_rk_res w addr RegisterPkResult.uuid_mismatch
accept_claim w id peer addr rk ip (matches changed ip_changed) =
    accept_counted w id addr rk ip changed ip_changed (count_request w peer)

-- After the limit on the address has let the request through.
unfoldable pub register_known : World → SocketAddr → RegisterPk → Text → M (Unit {0})
unfolding accept_claim check_claim
register_known w addr rk ip s =
    let r = Peer.get_or w s.pm rk.id in
    accept_claim w rk.id r.1 addr rk ip (check_claim r.1 ip rk) (record s { pm = r.0 })

register_allowed : World → SocketAddr → RegisterPk → Text → Bool → M (Unit {0})
unfolding register_known send_rk_res
register_allowed w addr rk ip true = register_known w addr rk ip
register_allowed w addr rk ip false = send_rk_res w addr RegisterPkResult.too_frequent

check_blocker : World → Text → Text → M Bool
check_blocker w ip id s =
    let r = check_ip_blocker w.now s.ip_blocker ip id in done r.1 (record s { ip_blocker = r.0 })

unfoldable pub register_pk : World → SocketAddr → RegisterPk → M (Unit {0})
unfolding register_allowed check_blocker send_rk_res
register_pk w addr rk =
    let ip = w.ip_to_string addr.ip in
    if (rk.uuid == [] || rk.pk == [])
    then pure tt
    else if ltb (length rk.id) 6
    then send_rk_res w addr RegisterPkResult.uuid_mismatch
    else (check_blocker w ip rk.id >>= register_allowed w addr rk ip)
