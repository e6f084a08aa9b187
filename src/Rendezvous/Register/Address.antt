-- ===== src/Rendezvous/Register/Address.antt =====
-- The address under which a peer is reached: `register_peer` refreshes it, and cannot move it.
use kd_desk_tc.Prelude.{◌≡◌, ◌≢◌, arith, some, list_eq, nat_eq}
use kd_desk_tc.Net.{SocketAddr, addr_127, ip_eq}
use kd_desk_tc.Proto.{Text}
use kd_desk_tc.World.{World}
use kd_desk_tc.HashMap
use kd_desk_tc.Peer
use kd_desk_tc.Peer.{Peer, PeerMap}
use kd_desk_tc.Rendezvous.State.{RendezvousServer, final, send}
use kd_desk_tc.Rendezvous.Register.{update_addr}

-- A message of `register_peer` from any other IP than 127.0.0.1, whatever id it names, leaves the
-- IP of every peer that has a port.
pub update_addr-keeps_ip :
    (w : World) (id : Text) (addr : SocketAddr) (s : RendezvousServer) (j : Text) (p q : Peer)
    → addr.ip ≢ addr_127
    → HashMap.get s.pm.map j ≡ some p
    → p.socket_addr.port ≢ 0
    → HashMap.get (final (update_addr w id addr s)).pm.map j ≡ some q
    → q.socket_addr.ip ≡ p.socket_addr.ip
unfolding update_addr send Peer.get_in_memory
update_addr-keeps_ip w id addr s j p q h e k f = grind (arith, HashMap.get-insert)
