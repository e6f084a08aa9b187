-- ===== src/World.antt =====
-- What the server asks of the machine and of the libraries that it is built on. One value of `World`
-- stands for one call of a handler: the clocks are read once, and the new row key is drawn once.
use kd_desk_tc.Prelude.{ℕ, Bool, Option}
use kd_desk_tc.Net.{IpAddr, SocketAddr}
use kd_desk_tc.Proto.{Text, RendezvousMessage}

pub record PeerInfo : Type 0 where
  pub ip : Text

pub record World : Type 0 where
  -- `Instant::now()` in milliseconds, and the system clock in microseconds.
  pub now : ℕ
  pub micros : ℕ
  -- `uuid::Uuid::new_v4()`
  pub new_guid : Text
  -- `IpAddr::to_string`
  pub ip_to_string : IpAddr → Text
  -- `SocketAddr::to_string`
  pub addr_to_string : SocketAddr → Text
  -- `serde_json::to_string` and `serde_json::from_str` on a `PeerInfo`
  pub to_json : PeerInfo → Text
  pub from_json : Text → Option PeerInfo
  -- whether a datagram can be handed to the UDP socket
  pub can_send : RendezvousMessage → SocketAddr → Bool
  -- `test_if_valid_server(host, …).is_ok()`, a name lookup
  pub resolves : Text → Bool
  -- `sign::sign` with a secret key of the `IdPk` message of an id and a public key
  pub sign_id_pk : Text → Text → Text → Text
