-- ===== src/Net.antt =====
-- The addresses of `std::net`: an IPv4 address is its four octets, an IPv6 address its 128 bits.
-- The flow information and the scope of an IPv6 socket address, which no code here reads, are left
-- out.
use kd_desk_tc.Prelude.{ℕ, ◌<◌, ◌^◌, Eq, ℕ_discrete}

pub record Ipv4Addr : Type 0 where
  pub a : ℕ
  pub b : ℕ
  pub c : ℕ
  pub d : ℕ

pub data IpAddr : Type 0 where
  v4 : Ipv4Addr → IpAddr
  v6 : ℕ → IpAddr

pub record SocketAddr : Type 0 where
  pub ip : IpAddr
  pub port : ℕ

unfoldable pub Ipv4Addr-discrete : Discrete Ipv4Addr
unfolding ℕ_discrete
Ipv4Addr-discrete = hlevel ℕ_discrete

unfoldable pub IpAddr-discrete : Discrete IpAddr
unfolding ℕ_discrete
IpAddr-discrete = hlevel ℕ_discrete

unfoldable pub SocketAddr-discrete : Discrete SocketAddr
unfolding ℕ_discrete
SocketAddr-discrete = hlevel ℕ_discrete

instance abbrev pub ipv4_eq : Eq Ipv4Addr
ipv4_eq = record { dec = Ipv4Addr-discrete }

instance abbrev pub ip_eq : Eq IpAddr
ip_eq = record { dec = IpAddr-discrete }

instance abbrev pub addr_eq : Eq SocketAddr
addr_eq = record { dec = SocketAddr-discrete }

-- `Ipv4Addr::new(127, 0, 0, 1)`
abbrev pub addr_127 : IpAddr
addr_127 = v4 (record { a = 127; b = 0; c = 0; d = 1 })

-- The values that fit their machine types.
abbrev pub IsIpv4 : Ipv4Addr → Type 0
IsIpv4 x = (x.a < 256) × (x.b < 256) × (x.c < 256) × (x.d < 256)

abbrev pub IsPort : ℕ → Type 0
IsPort p = p < 2 ^ 16
