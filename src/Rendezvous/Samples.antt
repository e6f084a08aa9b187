-- ===== src/Rendezvous/Samples.antt =====
-- A server and its surroundings for the tests of the modules beside this one.
use kd_desk_tc.Prelude.{ℕ, true, false, none, some, [], ◌∷◌}
use kd_desk_tc.Prelude.Int.{pos}
use kd_desk_tc.Net.{IpAddr, v4, v6, SocketAddr}
use kd_desk_tc.Proto.{Text, RegisterPk, PunchHoleRequest}
use kd_desk_tc.World.{World}
use kd_desk_tc.Database.{Database}
use kd_desk_tc.Peer.{Peer}
use kd_desk_tc.Rendezvous.State.{RendezvousServer}

-- An address printed as its octets, or as a 6.
abbrev pub show_ip : IpAddr → Text
show_ip (v4 x) = x.a ∷ x.b ∷ x.c ∷ x.d ∷ []
show_ip (v6 x) = 6 ∷ []

-- The machine at a time in milliseconds. Everything can be sent, and every server resolves.
abbrev pub world_at : ℕ → World
world_at now = record {
  now = now;
  micros = now;
  new_guid = 9 ∷ [];
  ip_to_string = show_ip;
  addr_to_string = λ a. show_ip a.ip;
  to_json = λ i. i.ip;
  from_json = λ t. some (record { ip = t });
  can_send = λ m a. true;
  resolves = λ t. true;
  sign_id_pk = λ sk id pk. pk;
}

abbrev pub host : ℕ → SocketAddr
host n = record { ip = v4 (record { a = 10; b = 0; c = 0; d = n }); port = 5000 }

abbrev pub home : Text
home = 97 ∷ 98 ∷ 99 ∷ 100 ∷ 101 ∷ 102 ∷ []

-- The peer `home`, registered from `host 1` at one second past a day.
abbrev pub home_peer : Peer
home_peer = record {
  socket_addr = host 1;
  last_reg_time = 86401000;
  guid = 8 ∷ [];
  uuid = 1 ∷ 2 ∷ [];
  pk = 3 ∷ 4 ∷ [];
  user = none;
  info = record { ip = 10 ∷ 0 ∷ 0 ∷ 1 ∷ [] };
  disabled = false;
  reg_count = 0;
  reg_at = 0;
}

abbrev pub no_rows : Database
no_rows = record { rows = []; up = true }

-- `home` is registered, and a requester at `host 2` waits on the connection 7.
abbrev pub server : RendezvousServer
server = record {
  tcp_punch = (host 2, 7) ∷ [];
  pm = record { map = (home, home_peer) ∷ []; db = no_rows };
  relay_servers = (114 ∷ []) ∷ (115 ∷ []) ∷ [];
  relay_servers0 = (114 ∷ []) ∷ (115 ∷ []) ∷ [];
  rendezvous_servers = [];
  inner = record {
    serial = pos 3;
    version = [];
    software_url = [];
    mask = none;
    local_ip = [];
    sk = none;
  };
  ip_blocker = [];
  ip_changes = [];
  rotation_relay_server = 0;
  always_use_relay = false;
  tx = [];
  udp = [];
  sunk = [];
}

-- The same server, which cannot reach its database and knows no peer.
abbrev pub unplugged : RendezvousServer
unplugged = record server { pm = record { map = []; db = record { rows = []; up = false } } }

abbrev pub punch_home : PunchHoleRequest
punch_home = record {
  id = home;
  nat_type = 1;
  licence_key = [];
  conn_type = 0;
  token = [];
  from_id = [];
  from_uuid = [];
}

abbrev pub claim_home : RegisterPk
claim_home = record { id = home; uuid = 1 ∷ 2 ∷ []; pk = 5 ∷ 6 ∷ []; old_id = [] }
