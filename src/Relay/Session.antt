-- ===== src/Relay/Session.antt =====
-- `relay`, the loop between two paired connections. Packets are lists of bytes, counts of bits are
-- `usize`s of 64 bits, and times are milliseconds.
pub mod Traffic
use kd_desk_tc.Prelude.{
  ℕ, ◌+◌, ◌-◌, ◌*◌, ◌/◌, ◌%◌, ◌^◌, Bool, true, false, not, ◌&&◌, ◌||◌, Option, none, some, List, [],
  ◌∷◌, ◌++◌, length, ltb, leb, if◌then◌else◌,
}
use kd_desk_tc.Relay.State.{RelayServer, Std, Usage}

-- `DOWNGRADE_START_CHECK`, which no command changes while the session runs, and
-- `downgrade_threshold`, in bits per millisecond.
pub record Params : Type 0 where
  pub downgrade_start_check : ℕ
  pub downgrade_threshold : ℕ

unfoldable pub session_params : {F : Type 0} → Std F → RelayServer F → Params
session_params std s = record {
  downgrade_start_check = s.downgrade_start_check;
  downgrade_threshold = std.per_ms s.single_bandwidth s.downgrade_threshold;
}

-- Which limiter is asked besides the one of the whole server.
pub data Limited : Type 0 where
  limiter blacklist_limiter : Limited

-- The local variables of the loop, what it has sent each way, the bits that it has asked each of
-- its two limiters for, and its entry in `USAGE`.
pub record Session : Type 0 where
  pub tm : ℕ
  pub last_recv_time : ℕ
  pub elapsed : ℕ
  pub total : ℕ
  pub total_s : ℕ
  pub highest_s : ℕ
  pub downgrade : Bool
  pub blacked : Bool
  pub to_stream : List (List ℕ)
  pub to_peer : List (List ℕ)
  pub consumed : List (Limited × ℕ)
  pub usage : Option Usage

-- What a round sees: the clock, whether the IP is on the lists, and whether a write succeeds.
pub record Seen : Type 0 where
  pub now : ℕ
  pub in_blocklist : Bool
  pub in_blacklist : Bool
  pub can_send : Bool

-- The branch that `select!` takes: a packet, or the end or an error of a connection as none, or
-- the timer.
pub data Event : Type 0 where
  from_peer : Option (List ℕ) → Event
  from_stream : Option (List ℕ) → Event
  tick : Event

pub data Round : Type 0 where
  running : Session → Round
  -- `break`, and an error
  ended : Session → Round
  bailed : Session → Round

-- `tm` and `last_recv_time` are the present.
unfoldable pub start : ℕ → Session
start now = record {
  tm = now;
  last_recv_time = now;
  elapsed = 0;
  total = 0;
  total_s = 0;
  highest_s = 0;
  downgrade = false;
  blacked = false;
  to_stream = [];
  to_peer = [];
  consumed = [];
  usage = none;
}

unfoldable pub which_limiter : Session → Limited
which_limiter c = if (c.blacked || c.downgrade) then blacklist_limiter else limiter

-- A packet is counted before it is sent on.
unfoldable pub receive : ℕ → List ℕ → Session → Session
unfolding which_limiter
receive now bytes c =
    let nb = length bytes * 8 % 2 ^ 64 in
    record c {
      last_recv_time = now;
      total = (c.total + nb) % 2 ^ 64;
      total_s = (c.total_s + nb) % 2 ^ 64;
      consumed = c.consumed ++ ((which_limiter c, nb) ∷ []);
    }

-- An empty packet is not sent on.
unfoldable pub pass_on : List ℕ → List (List ℕ) → List (List ℕ)
pass_on [] sent = sent
pass_on (b ∷ bs) sent = sent ++ ((b ∷ bs) ∷ [])

sent_or_bail : Seen → List ℕ → Session → Session → Round
sent_or_bail seen [] unsent sent = running sent
sent_or_bail seen (b ∷ bs) unsent sent = if seen.can_send then running sent else bailed unsent

unfoldable pub select : Seen → Event → Session → Round
unfolding receive pass_on sent_or_bail
select seen (from_peer none) c = ended c
select seen (from_peer (some bytes)) c =
    let r = receive seen.now bytes c in
    sent_or_bail seen bytes r (record r { to_stream = pass_on bytes r.to_stream })
select seen (from_stream none) c = ended c
select seen (from_stream (some bytes)) c =
    let r = receive seen.now bytes c in
    sent_or_bail seen bytes r (record r { to_peer = pass_on bytes r.to_peer })
select seen tick c = if ltb 30 ((seen.now - c.last_recv_time) / 1000) then bailed c else running c

-- The speed of the last second or more, the entry in `USAGE`, and the downgrade.
unfoldable pub measure : Params → Seen → ℕ → Session → Session
measure p seen n c =
    let speed = c.total_s / n in
    let highest_s = if ltb c.highest_s speed then speed else c.highest_s in
    let elapsed = (c.elapsed + n) % 2 ^ 64 in
    let over = ltb (elapsed * p.downgrade_threshold % 2 ^ 64) c.total in
    record c {
      blacked = seen.in_blacklist;
      tm = seen.now;
      elapsed = elapsed;
      highest_s = highest_s;
      usage =
          some (record { elapsed = elapsed; total = c.total; highest = highest_s; speed = speed });
      total_s = 0;
      downgrade = c.downgrade || (ltb p.downgrade_start_check elapsed && over);
    }

unfoldable pub check_second : Params → Seen → Session → Round
unfolding measure
check_second p seen c =
    let n = (seen.now - c.tm) % 2 ^ 64 in
    if leb 1000 n
    then (if seen.in_blocklist then ended c else running (measure p seen n c))
    else running c

unfoldable pub after_select : Params → Seen → Round → Round
unfolding check_second
after_select p seen (running c) = check_second p seen c
after_select p seen (ended c) = ended c
after_select p seen (bailed c) = bailed c

unfoldable pub round : Params → Seen → Event → Session → Round
unfolding select after_select
round p seen event c = after_select p seen (select seen event c)

abbrev relay_on : (Session → Round) → Round → Round
relay_on more (running c) = more c
relay_on more (ended c) = ended c
relay_on more (bailed c) = bailed c

-- The loop on the events that come in.
unfoldable pub relay : Params → List (Seen × Event) → Session → Round
relay p [] c = running c
relay p ((seen, event) ∷ rest) c = relay_on (relay p rest) (round p seen event c)
