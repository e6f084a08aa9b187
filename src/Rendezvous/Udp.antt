-- ===== src/Rendezvous/Udp.antt =====
-- `handle_udp`: a datagram that parses as a message. One that does not is dropped.
pub mod Config
pub mod Identity
mod Runs
use kd_desk_tc.Prelude.{
  ℕ, Bool, true, false, not, ◌&&◌, Option, none, some, List, [], ◌∷◌, ◌==◌, list_eq, if◌then◌else◌,
}
use kd_desk_tc.Prelude.Int.{ℤ, ltb_ℤ}
use kd_desk_tc.Net.{SocketAddr, ip_eq, addr_127}
use kd_desk_tc.Proto.{
  Text, RendezvousMessage, register_peer, register_pk, punch_hole_request, punch_hole_sent,
  local_addr, configure_update, software_update, RegisterPeer, ConfigUpdate, PunchHoleRequest,
}
use kd_desk_tc.World.{World}
use kd_desk_tc.Peer
use kd_desk_tc.Rendezvous.State.{
  RendezvousServer, Inner, M, Outcome, done, bind, ◌>>=◌, ◌>>◌, read, modify, pure, send, allow_err,
}
use kd_desk_tc.Rendezvous.Relays.{valid_servers}
use kd_desk_tc.Rendezvous.Register
use kd_desk_tc.Rendezvous.Register.{update_addr}
use kd_desk_tc.Rendezvous.Forward.{handle_hole_sent, handle_local_addr}
use kd_desk_tc.Rendezvous.Punch.{handle_udp_punch_hole_request}

-- A peer with an older configuration is sent the server's.
send_config : World → ℤ → SocketAddr → M (Unit {0})
send_config w serial addr s =
    if ltb_ℤ serial s.inner.serial
    then send w
        (configure_update
          (record { serial = s.inner.serial; rendezvous_servers = s.rendezvous_servers }))
        addr s
    else done tt s

unfoldable pub on_register_peer : World → RegisterPeer → SocketAddr → M (Unit {0})
unfolding send_config
on_register_peer w rp addr =
    if rp.id == [] then pure tt else do update_addr w rp.id addr; send_config w rp.serial addr

-- A peer that is not in memory is looked up by a spawned task, whose error is only logged.
unfoldable pub on_punch_hole_request : World → Text → PunchHoleRequest → SocketAddr → M (Unit {0})
on_punch_hole_request w key ph addr s =
    if Peer.is_in_memory s.pm ph.id
    then handle_udp_punch_hole_request w key ph addr s
    else allow_err (handle_udp_punch_hole_request w key ph addr) s

unfoldable pub on_configure_update : World → ConfigUpdate → SocketAddr → M (Unit {0})
on_configure_update w cu addr = modify λ s.
    if (addr.ip == addr_127 && ltb_ℤ s.inner.serial cu.serial)
    then record s {
      inner = record (s.inner) { serial = cu.serial };
      rendezvous_servers = valid_servers w cu.rendezvous_servers;
    }
    else s

unfoldable pub on_software_update : World → Text → SocketAddr → M (Unit {0})
on_software_update w url addr s =
    if (not (s.inner.version == []) && not (url == s.inner.version))
    then send w (software_update s.inner.software_url) addr s
    else done tt s

unfoldable pub handle_udp : World → Text → RendezvousMessage → SocketAddr → M (Unit {0})
unfolding on_register_peer on_punch_hole_request on_configure_update on_software_update
handle_udp w key (register_peer rp) addr = on_register_peer w rp addr
handle_udp w key (register_pk rk) addr = Register.register_pk w addr rk
handle_udp w key (punch_hole_request ph) addr = on_punch_hole_request w key ph addr
handle_udp w key (punch_hole_sent phs) addr = handle_hole_sent w phs addr true
handle_udp w key (local_addr la) addr = handle_local_addr w la addr true
handle_udp w key (configure_update cu) addr = on_configure_update w cu addr
handle_udp w key (software_update url) addr = on_software_update w url addr
handle_udp w key m addr = pure tt
