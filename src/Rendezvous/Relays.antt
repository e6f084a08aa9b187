-- ===== src/Rendezvous/Relays.antt =====
-- The relay servers and the local network: `parse_relay_servers`, `get_relay_server`, `is_lan`, and
-- `get_servers` of KdDeskTC_Server/src/common.rs.
pub mod Rotation
mod Runs
use kd_desk_tc.Prelude.{
  ℕ, zero, suc, ◌+◌, ◌%◌, ◌^◌, Bool, true, false, not, ◌&&◌, Option, none, some, List, [], ◌∷◌,
  length, get_or, ◌==◌, nat_eq, list_eq, if◌then◌else◌,
}
use kd_desk_tc.Strings.{split}
use kd_desk_tc.Net.{Ipv4Addr, IpAddr, v4, v6, SocketAddr}
use kd_desk_tc.Proto.{Text}
use kd_desk_tc.World.{World}
use kd_desk_tc.Rendezvous.State.{RendezvousServer, Inner, M, Outcome, done}

unfoldable pub valid_servers : World → List Text → List Text
valid_servers w [] = []
valid_servers w (x ∷ xs) =
    let rest = valid_servers w xs in if not (x == []) && w.resolves x then x ∷ rest else rest

unfoldable pub get_servers : World → Text → List Text
unfolding valid_servers
get_servers w s = valid_servers w (split b',' s)

unfoldable pub parse_relay_servers : World → Text → RendezvousServer → RendezvousServer
unfolding get_servers
parse_relay_servers w s rs =
    let servers = get_servers w s in record rs { relay_servers0 = servers; relay_servers = servers }

-- The choice among the servers, and the new value of the `usize` that rotates.
unfoldable pub choose_relay : List Text → ℕ → Text × ℕ
choose_relay [] i = ([], i)
choose_relay (x ∷ []) i = (x, i)
choose_relay (x ∷ y ∷ xs) i =
    let j = (i + 1) % 2 ^ 64 in (get_or (x ∷ y ∷ xs) (j % length (x ∷ y ∷ xs)) [], j)

unfoldable pub get_relay_server : IpAddr → IpAddr → M Text
unfolding choose_relay
get_relay_server pa pb s =
    let r = choose_relay s.relay_servers s.rotation_relay_server in
    done r.0 (record s { rotation_relay_server = r.1 })

lan_contains : Option (Ipv4Addr → Bool) → IpAddr → Bool
lan_contains none ip = false
lan_contains (some network) (v4 x) = network x
lan_contains (some network) (v6 x) = false

unfoldable pub is_lan : RendezvousServer → SocketAddr → Bool
unfolding lan_contains
is_lan s addr = lan_contains s.inner.mask addr.ip
