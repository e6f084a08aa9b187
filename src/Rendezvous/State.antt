-- ===== src/Rendezvous/State.antt =====
-- The state of `RendezvousServer`, with the tables that its methods share, and the monad of its
-- handlers. What the server sends is recorded in the state, oldest first.
use kd_desk_tc.Prelude.{ℕ, Bool, Option, none, some, List, [], ◌∷◌, ◌++◌, if◌then◌else◌}
use kd_desk_tc.Prelude.Int.{ℤ}
use kd_desk_tc.Net.{Ipv4Addr, SocketAddr}
use kd_desk_tc.Proto.{Text, RendezvousMessage}
use kd_desk_tc.World.{World}
use kd_desk_tc.HashMap.{HashMap}
use kd_desk_tc.Blocker.{Blocked}
use kd_desk_tc.Peer.{PeerMap}

-- A TCP or WebSocket connection that an answer can be written to.
abbrev pub Sink : Type 0
Sink = ℕ

-- `enum Data`, what the methods put on the queue of the main loop.
pub data Data : Type 0 where
  msg : RendezvousMessage → SocketAddr → Data
  relay_servers0 : Text → Data
  relay_servers : List Text → Data

-- `Ipv4Network::contains` of the configured network stands for the network.
pub record Inner : Type 0 where
  pub serial : ℤ
  pub version : Text
  pub software_url : Text
  pub mask : Option (Ipv4Addr → Bool)
  pub local_ip : Text
  pub sk : Option Text

pub record IpChange : Type 0 where
  pub tm : ℕ
  -- a counter is the bit pattern of an `i32`
  pub ips : HashMap Text ℕ

pub record RendezvousServer : Type 0 where
  pub tcp_punch : HashMap SocketAddr Sink
  pub pm : PeerMap
  pub relay_servers : List Text
  pub relay_servers0 : List Text
  pub rendezvous_servers : List Text
  pub inner : Inner
  -- the statics `IP_BLOCKER`, `IP_CHANGES`, `ROTATION_RELAY_SERVER` and `ALWAYS_USE_RELAY`
  pub ip_blocker : HashMap Text Blocked
  pub ip_changes : HashMap Text IpChange
  pub rotation_relay_server : ℕ
  pub always_use_relay : Bool
  -- the queue `tx`, the datagrams handed to the UDP socket, and what was written to sinks
  pub tx : List Data
  pub udp : List (RendezvousMessage × SocketAddr)
  pub sunk : List (Sink × RendezvousMessage)

-- A handler returns, returns an error, or panics; the state is what it has done so far.
pub data Outcome {ℓ} (A : Type ℓ) : Type ℓ where
  done : A → RendezvousServer → Outcome A
  failed : RendezvousServer → Outcome A
  panicked : RendezvousServer → Outcome A

abbrev pub M {ℓ} : Type ℓ → Type ℓ
M A = RendezvousServer → Outcome A

abbrev pub bind {ℓ κ} : {A : Type ℓ} {B : Type κ} → Outcome A → (A → M B) → Outcome B
bind (done a s) f = f a s
bind (failed s) f = failed s
bind (panicked s) f = panicked s

infixl 5 ◌>>=◌ ◌>>◌
abbrev pub ◌>>=◌ {ℓ κ} : {A : Type ℓ} {B : Type κ} → M A → (A → M B) → M B
◌>>=◌ m f s = bind (m s) f

abbrev pub ◌>>◌ {ℓ} : {B : Type ℓ} → M (Unit {0}) → M B → M B
◌>>◌ m k s = bind (m s) (λ _. k)

abbrev pub pure {ℓ} : {A : Type ℓ} → A → M A
pure a s = done a s

abbrev pub read : M RendezvousServer
read s = done s s

abbrev pub modify : (RendezvousServer → RendezvousServer) → M (Unit {0})
modify f s = done tt (f s)

-- A panic of `Option::unwrap` or of a slice.
abbrev pub or_panic {ℓ} : {A : Type ℓ} → Option A → M A
or_panic none s = panicked s
or_panic (some a) s = done a s

abbrev pub allowed : Outcome (Unit {0}) → Outcome (Unit {0})
allowed (done a s) = done a s
allowed (failed s) = done tt s
allowed (panicked s) = panicked s

-- `allow_err!`, and the body of a spawned task whose error is logged.
abbrev pub allow_err : M (Unit {0}) → M (Unit {0})
allow_err m s = allowed (m s)

-- `socket.send(&msg, addr).await?`
unfoldable pub send : World → RendezvousMessage → SocketAddr → M (Unit {0})
send w m addr s =
    if w.can_send m addr then done tt (record s { udp = s.udp ++ ((m, addr) ∷ []) }) else failed s

-- `self.tx.send(data)`, which succeeds as long as the main loop holds the receiver.
unfoldable pub queue : Data → M (Unit {0})
queue d s = done tt (record s { tx = s.tx ++ (d ∷ []) })

-- The state that an outcome leaves.
abbrev pub final {ℓ} : {A : Type ℓ} → Outcome A → RendezvousServer
final (done a s) = s
final (failed s) = s
final (panicked s) = s
