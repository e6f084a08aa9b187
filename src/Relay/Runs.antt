-- ===== src/Relay/Runs.antt =====
-- Tests and examples for the relay server. A float is a number here, and texts are trimmed already.
use kd_desk_tc.Prelude.{
  ℕ, ◌+◌, ◌<◌, ◌≡◌, ◌⊎◌, refl, arith, Bool, true, false, none, some, List, [], ◌∷◌, ◌++◌, All,
  list_eq,
}
use kd_desk_tc.Strings.{bytes}
use kd_desk_tc.Proto.{Text, RequestRelay}
use kd_desk_tc.HashMap
use kd_desk_tc.Rendezvous.Samples.{world_at, host}
use kd_desk_tc.Relay.State.{RelayServer, Stream, Std}
use kd_desk_tc.Relay.Session.{
  Params, Session, Seen, Event, from_peer, from_stream, tick, running, ended, bailed, start, relay,
  Round,
}
use kd_desk_tc.Relay.Session.Traffic.{
  packets_of_peer, packets_of_stream, fast_bits, relay-sends, relay_slow, relay_blocked,
}
use kd_desk_tc.Relay.Pairs.{waits, relays, set_raw_pair, make_pair, usage_id}
use kd_desk_tc.Relay.Pairs.Uuids.{make_pair-meets, make_pair-relays}

abbrev std : Std ℕ
std = record {
  trim = λ t. t;
  parse_f64 = λ t. none;
  parse_usize = λ t. none;
  is_positive = λ x. true;
  from_mega = λ x. x;
  per_ms = λ b x. b;
  show_f64 = λ x. [];
  show_usize = λ x. x ∷ [];
  show_mega = λ x. [];
  show_mega_bytes = λ x. [];
}

abbrev server : RelayServer ℕ
server = record {
  peers = [];
  usage = [];
  blacklist = [];
  blocklist = (bytes "1.2.3.4", tt) ∷ [];
  downgrade_threshold = 1;
  downgrade_start_check = 1800000;
  limit_speed = 4;
  total_bandwidth = 1024;
  single_bandwidth = 16;
  limiter_speed = 1024;
}

abbrev params : Params
params = record { downgrade_start_check = 500; downgrade_threshold = 0 }

abbrev seen : ℕ → Bool → Seen
seen now blocked = record {
  now = now;
  in_blocklist = blocked;
  in_blacklist = false;
  can_send = true;
}

-- A packet each way, and a quiet second.
abbrev events : List (Seen × Event)
events =
    (seen 100 false, from_peer (some (1 ∷ 2 ∷ [])))
    ∷ (seen 200 false, from_stream (some (3 ∷ [])))
    ∷ (seen 1300 false, tick)
    ∷ []

abbrev after : Round → Session
after (running c) = c
after (ended c) = c
after (bailed c) = c

abbrev last : Session
last = after (relay params events (start 0))

relay-events : relay params events (start 0) ≡ running last
unfolding relay start kd_desk_tc.Relay.Session.round
relay-events = refl

-- The session that carried 24 bits in the first second is over its threshold of 0.
last_downgraded : last.downgrade ≡ true
unfolding relay start kd_desk_tc.Relay.Session.round
last_downgraded = refl

relay-sends_example :
    (last.to_stream ≡ (start 0).to_stream ++ packets_of_peer events)
    × (last.to_peer ≡ (start 0).to_peer ++ packets_of_stream events)
relay-sends_example = relay-sends params events (start 0) last relay-events

abbrev more : List (Seen × Event)
more = (seen 1400 false, from_peer (some (9 ∷ []))) ∷ []

abbrev later : Session
later = after (relay params more last)

relay_slow_example : (later.downgrade ≡ true) × (fast_bits later.consumed ≡ fast_bits last.consumed)
unfolding kd_desk_tc.Relay.Session.round
relay_slow_example = relay_slow params more last later last_downgraded (unfold relay start in refl)

abbrev blocked_events : List (Seen × Event)
blocked_events = (seen 100 true, from_peer (some (1 ∷ []))) ∷ (seen 900 true, tick) ∷ []

relay_blocked_example : All (λ x. x.0.now < (start 0).tm + 1000) blocked_events
unfolding kd_desk_tc.Relay.Session.round
relay_blocked_example =
    relay_blocked params blocked_events (start 0) (after (relay params blocked_events (start 0)))
      ((refl, omega arith), ((refl, omega arith), tt)) (unfold relay start in refl)

abbrev the_key : Text
the_key = 7 ∷ []

abbrev ask : RequestRelay
ask = record {
  id = [];
  uuid = 5 ∷ [];
  socket_addr = [];
  relay_server = [];
  secure = true;
  licence_key = 7 ∷ [];
  conn_type = 0;
  token = [];
}

abbrev first : Stream
first = record { id = 1; is_ws = false; raw = false }

abbrev second : Stream
second = record { id = 2; is_ws = false; raw = false }

abbrev waiting : RelayServer ℕ
waiting = (make_pair std (world_at 1) first (host 1) (7 ∷ []) (some ask) server).0

-- Of two plain connections, both are switched.
make_pair-meets_example :
    ((make_pair std (world_at 1) first (host 1) (7 ∷ []) (some ask) server).1 ≡ waits (5 ∷ []))
    × ((make_pair std (world_at 2) second (host 2) (7 ∷ []) (some ask) waiting).1
        ≡ relays
            (record second { raw = true })
            (record first { raw = true })
            (usage_id std (world_at 2) (host 2)))
    × (HashMap.get
          (make_pair std (world_at 2) second (host 2) (7 ∷ []) (some ask) waiting).0.peers
          (5 ∷ [])
        ≡ none)
make_pair-meets_example =
    make_pair-meets std (world_at 1) (world_at 2) first second (host 1) (host 2) (7 ∷ []) ask ask
      server refl refl refl (λ e. cc) (unfold HashMap.get in refl)

second_relayed :
    (make_pair std (world_at 2) second (host 2) (7 ∷ []) (some ask) waiting).1
    ≡ relays
        (record second { raw = true })
        (record first { raw = true })
        (usage_id std (world_at 2) (host 2))
second_relayed =
    (make_pair-meets std (world_at 1) (world_at 2) first second (host 1) (host 2) (7 ∷ []) ask ask
      server refl refl refl (λ e. cc) (unfold HashMap.get in refl)).1

make_pair-relays_example :
    ((the_key ≡ []) ⊎ (ask.licence_key ≡ the_key))
    × (peer : Stream) × (HashMap.get waiting.peers ask.uuid ≡ some peer)
    × ((record second { raw = true }, record first { raw = true }) ≡ set_raw_pair second peer)
make_pair-relays_example =
    make_pair-relays std (world_at 2) second (record second { raw = true })
      (record first { raw = true }) (host 2) the_key (usage_id std (world_at 2) (host 2)) ask
      waiting second_relayed
