-- ===== src/Relay/Pairs.antt =====
-- How two connections that ask for the relay under one uuid find each other: `handle_connection` and
-- `make_pair_`. A connection that has been accepted comes with its first frame, if one arrives in
-- time and parses as a request for the relay.
pub mod Uuids
use kd_desk_tc.Prelude.{
  ℕ, Bool, true, false, not, ◌&&◌, Option, none, some, List, [], ◌∷◌, ◌++◌, ◌==◌, list_eq,
  if◌then◌else◌,
}
use kd_desk_tc.Strings.{bytes}
use kd_desk_tc.Net.{SocketAddr}
use kd_desk_tc.Proto.{Text, RequestRelay}
use kd_desk_tc.World.{World}
use kd_desk_tc.HashMap
use kd_desk_tc.HashMap.{HashMap}
use kd_desk_tc.Relay.State.{RelayServer, Stream, Usage, Std}

-- What becomes of a new connection: it gives commands, it is dropped, or it goes on to `make_pair`.
pub data Admission : Type 0 where
  commands blocked pairing : Admission

unfoldable pub handle_connection :
    {F : Type 0} → World → RelayServer F → SocketAddr → Bool → Admission
handle_connection w s addr ws =
    let ip = w.ip_to_string addr.ip in
    if (not ws && ip == bytes "127.0.0.1")
    then commands
    else if HashMap.contains_key s.blocklist ip
    then blocked
    else pairing

-- What `make_pair_` does next: it returns, it waits and removes its entry after 30 seconds, or it
-- relays between its own connection and the one that waited, under a name in `USAGE`.
pub data Meeting : Type 0 where
  dropped : Meeting
  waits : Text → Meeting
  relays : Stream → Stream → Text → Meeting

unfoldable pub set_raw_pair : Stream → Stream → Stream × Stream
set_raw_pair stream peer =
    if (not stream.is_ws && not peer.is_ws)
    then (record stream { raw = true }, record peer { raw = true })
    else (stream, peer)

no_usage : Usage
no_usage = record { elapsed = 0; total = 0; highest = 0; speed = 0 }

module _ {F : Type 0} (std : Std F) (w : World) where
  -- `format!("{}:{}", addr.ip(), addr.port())`
  pub usage_id : SocketAddr → Text
  usage_id addr = w.ip_to_string addr.ip ++ bytes ":" ++ std.show_usize addr.port

  meet : Stream → SocketAddr → Text → Option Stream → RelayServer F → RelayServer F × Meeting
  unfolding usage_id set_raw_pair no_usage
  meet stream addr uuid (some peer) s =
      let r = set_raw_pair stream peer in
      (
        record s {
          peers = HashMap.remove s.peers uuid;
          usage = HashMap.insert s.usage (usage_id addr) no_usage;
        },
        relays r.0 r.1 (usage_id addr),
      )
  meet stream addr uuid none s =
      (record s { peers = HashMap.insert (HashMap.remove s.peers uuid) uuid stream }, waits uuid)

  unfoldable pub make_pair :
      Stream → SocketAddr → Text → Option RequestRelay → RelayServer F → RelayServer F × Meeting
  unfolding meet
  make_pair stream addr key none s = (s, dropped)
  make_pair stream addr key (some rf) s =
      if (not (key == []) && not (rf.licence_key == key))
      then (s, dropped)
      else if rf.uuid == []
      then (s, dropped)
      else meet stream addr rf.uuid (HashMap.get s.peers rf.uuid) s

-- 30 seconds after a connection began to wait, and at the end of a relay.
unfoldable pub give_up : {F : Type 0} → Text → RelayServer F → RelayServer F
give_up uuid s = record s { peers = HashMap.remove s.peers uuid }

unfoldable pub close_relay : {F : Type 0} → Text → RelayServer F → RelayServer F
close_relay id s = record s { usage = HashMap.remove s.usage id }
