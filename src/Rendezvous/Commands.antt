-- ===== src/Rendezvous/Commands.antt =====
-- The commands of the administrator, `check_cmd`, and what the main loop does with what the methods
-- put on its queue.
pub mod Effects
use Prim.Native.String.{String}
use kd_desk_tc.Prelude.{
  ℕ, ◌+◌, ◌-◌, ◌*◌, ◌^◌, Bool, true, false, ◌&&◌, ◌||◌, Option, none, some, List, [], ◌∷◌, ◌++◌,
  length, take, drop, ltb, leb, ◌==◌, list_eq, if◌then◌else◌,
}
use kd_desk_tc.Prelude.Int.{ℤ, pos, negsuc}
use kd_desk_tc.Strings.{split, bytes}
use kd_desk_tc.Net.{IpAddr}
use kd_desk_tc.Proto.{Text}
use kd_desk_tc.World.{World}
use kd_desk_tc.HashMap
use kd_desk_tc.HashMap.{HashMap}
use kd_desk_tc.Blocker.{Blocked, ip_block_dur, day_seconds, elapsed_secs}
use kd_desk_tc.Rendezvous.State.{
  RendezvousServer, IpChange, Data, Outcome, M, done, send, allow_err, final,
}
use kd_desk_tc.Rendezvous.Relays.{parse_relay_servers, get_relay_server, choose_relay}

-- What the commands use of the standard library: trimming, parsing and printing.
pub record Shell : Type 0 where
  pub trim : Text → Text
  pub to_uppercase : Text → Text
  pub parse_i32 : Text → Option ℤ
  pub parse_ip : Text → Option IpAddr
  pub show : ℕ → Text
  -- `{:?}` of a text, and of a table of counters
  pub debug : Text → Text
  pub debug_counts : HashMap Text ℕ → Text

abbrev is_word : Text → String → String → Bool
is_word name long short = (name == bytes long) || (name == bytes short)

abbrev help : Text
help =
    bytes "relay-servers(rs) <separated by ,>\n"
    ++ bytes "reload-geo(rg)\n"
    ++ bytes "ip-blocker(ib) [<ip>|<number>] [-]\n"
    ++ bytes "ip-changes(ic) [<id>|<number>] [-]\n"
    ++ bytes "always-use-relay(aur)\n"
    ++ bytes "test-geo(tg) <ip1> <ip2>\n"

lines_of : List Text → Text
lines_of [] = []
lines_of (x ∷ xs) = (x ++ bytes "\n") ++ lines_of xs

-- `ip.map(|x| x.parse::<i32>().unwrap_or(-1)).unwrap_or(-1)`
start_of : Shell → List Text → ℤ
start_of sh [] = negsuc 0
start_of sh (x ∷ xs) = elim (sh.parse_i32 x) [ none ↦ negsuc 0 | some n ↦ n ]

-- The entries number `start` up to `start + 9`, where the sum is an `i32`; past its range it is
-- negative, and the loop has no rounds.
page {ℓ} : {A : Type ℓ} → ℕ → List A → List A
page start xs = if ltb (start + 10) (2 ^ 31) then take 10 (drop start xs) else []

is_dash : List Text → Bool
is_dash (ip ∷ dash ∷ rest) = dash == bytes "-"
is_dash _ = false

module _ (sh : Shell) (w : World) where
  blocked_text : Blocked → Text
  blocked_text b =
      sh.show b.count
      ++ bytes "/"
      ++ sh.show (elapsed_secs w.now b.count_at)
      ++ bytes "s "
      ++ sh.show (length b.ids)
      ++ bytes "/"
      ++ sh.show (elapsed_secs w.now b.ids_at)
      ++ bytes "s\n"

  blocked_page : HashMap Text Blocked → Text
  blocked_page [] = []
  blocked_page ((ip, b) ∷ rest) = (ip ++ bytes ": " ++ blocked_text b) ++ blocked_page rest

  recent_block : Blocked → Bool
  recent_block b =
      leb (elapsed_secs w.now b.count_at) ip_block_dur
      || leb (elapsed_secs w.now b.ids_at) day_seconds

  found_block : Option Blocked → Text
  found_block none = []
  found_block (some b) = blocked_text b

  ip_blocker_from : List Text → ℤ → HashMap Text Blocked → HashMap Text Blocked × Text
  unfolding blocked_page found_block is_dash page
  ip_blocker_from args (pos n) lock = (lock, blocked_page (page n lock))
  ip_blocker_from [] (negsuc n) lock = (lock, blocked_page (page 0 lock))
  ip_blocker_from (ip ∷ rest) (negsuc n) lock = (
    if is_dash (ip ∷ rest) then HashMap.remove lock ip else lock,
    found_block (HashMap.get lock ip),
  )

  unfoldable pub ip_blocker_cmd : List Text → RendezvousServer → RendezvousServer × Text
  unfolding ip_blocker_from recent_block start_of blocked_text
  ip_blocker_cmd args s =
      let lock = HashMap.retain recent_block s.ip_blocker in
      let r = ip_blocker_from args (start_of sh args) lock in
      (record s { ip_blocker = r.0 }, sh.show (length lock) ++ bytes "\n" ++ r.1)

  change_text : IpChange → Text
  change_text c =
      sh.show (elapsed_secs w.now c.tm) ++ bytes "s " ++ sh.debug_counts c.ips ++ bytes "\n"

  changes_page : HashMap Text IpChange → Text
  changes_page [] = []
  changes_page ((id, c) ∷ rest) = (id ++ bytes ": " ++ change_text c) ++ changes_page rest

  recent_change : IpChange → Bool
  recent_change c = ltb (elapsed_secs w.now c.tm) (180 * 2) && ltb 1 (length c.ips)

  found_change : Option IpChange → Text
  found_change none = []
  found_change (some c) = change_text c

  dropped : List Text → HashMap Text IpChange → HashMap Text IpChange
  dropped [] lock = lock
  dropped (id ∷ rest) lock = if is_dash (id ∷ rest) then HashMap.remove lock id else lock

  named_change : List Text → HashMap Text IpChange → Text
  named_change [] lock = []
  named_change (id ∷ rest) lock = found_change (HashMap.get lock id)

  -- A number above ten million is also taken for an id, and printed from as well.
  ip_changes_from : List Text → ℤ → HashMap Text IpChange → HashMap Text IpChange × Text
  unfolding changes_page dropped named_change page
  ip_changes_from args (pos n) lock =
      if ltb 10000000 n
      then (dropped args lock, named_change args lock ++ changes_page (page n (dropped args lock)))
      else (lock, changes_page (page n lock))
  ip_changes_from [] (negsuc n) lock = (lock, changes_page (page 0 lock))
  ip_changes_from (id ∷ rest) (negsuc n) lock =
      (dropped (id ∷ rest) lock, named_change (id ∷ rest) lock)

  unfoldable pub ip_changes_cmd : List Text → RendezvousServer → RendezvousServer × Text
  unfolding ip_changes_from recent_change start_of is_dash found_change change_text
  ip_changes_cmd args s =
      let lock = HashMap.retain recent_change s.ip_changes in
      let r = ip_changes_from args (start_of sh args) lock in
      (record s { ip_changes = r.0 }, sh.show (length lock) ++ bytes "\n" ++ r.1)

  relay_servers_cmd : List Text → RendezvousServer → RendezvousServer × Text
  unfolding lines_of
  relay_servers_cmd [] s = (s, lines_of s.relay_servers)
  relay_servers_cmd (rs ∷ rest) s = (record s { tx = s.tx ++ (Data.relay_servers0 rs ∷ []) }, [])

  debug_bool : Bool → Text
  debug_bool true = bytes "true"
  debug_bool false = bytes "false"

  unfoldable pub always_use_relay_cmd : List Text → RendezvousServer → RendezvousServer × Text
  unfolding debug_bool
  always_use_relay_cmd [] s =
      (s, bytes "ALWAYS_USE_RELAY: " ++ debug_bool s.always_use_relay ++ bytes "\n")
  always_use_relay_cmd (rs ∷ rest) s = (
    record s {
      always_use_relay = sh.to_uppercase rs == bytes "Y";
      tx = s.tx ++ (Data.relay_servers0 rs ∷ []);
    },
    [],
  )

  test_relay : RendezvousServer → RendezvousServer × Text
  test_relay s =
      let r = choose_relay s.relay_servers s.rotation_relay_server in
      (record s { rotation_relay_server = r.1 }, sh.debug r.0)

  -- The choice does not depend on the addresses, which only have to parse.
  test_geo_cmd : List Text → RendezvousServer → RendezvousServer × Text
  unfolding test_relay
  test_geo_cmd [] s = (s, [])
  test_geo_cmd (a ∷ []) s = elim (sh.parse_ip a) [ none ↦ (s, []) | some x ↦ test_relay s ]
  test_geo_cmd (a ∷ b ∷ rest) s = elim (sh.parse_ip a) [
    | none ↦ (s, [])
    | some x ↦ elim (sh.parse_ip b) [ none ↦ (s, []) | some y ↦ test_relay s ]
  ]

  run_command : List Text → RendezvousServer → RendezvousServer × Text
  unfolding relay_servers_cmd test_geo_cmd
  run_command [] s = (s, [])
  run_command (name ∷ args) s =
      if name == bytes "h"
      then (s, help)
      else if is_word name "relay-servers" "rs"
      then relay_servers_cmd args s
      else if is_word name "ip-blocker" "ib"
      then ip_blocker_cmd args s
      else if is_word name "ip-changes" "ic"
      then ip_changes_cmd args s
      else if is_word name "always-use-relay" "aur"
      then always_use_relay_cmd args s
      else if is_word name "test-geo" "tg"
      then test_geo_cmd args s
      else (s, [])

  unfoldable pub check_cmd : Text → RendezvousServer → RendezvousServer × Text
  unfolding run_command
  check_cmd cmd s = run_command (split b' ' (sh.trim cmd)) s

-- The arm of `io_loop` for the queue, and the queue in order, up to a panic, which there is none of.
unfoldable pub on_data : World → Data → M (Unit {0})
on_data w (Data.msg m addr) = allow_err (send w m addr)
on_data w (Data.relay_servers0 rs) = λ s. done tt (parse_relay_servers w rs s)
on_data w (Data.relay_servers rs) = λ s. done tt (record s { relay_servers = rs })

on_all : World → List Data → RendezvousServer → RendezvousServer
on_all w [] s = s
on_all w (d ∷ ds) s = on_all w ds (final (on_data w d s))

-- The main loop empties the queue.
unfoldable pub drain_queue : World → RendezvousServer → RendezvousServer
unfolding on_all
drain_queue w s = on_all w s.tx (record s { tx = [] })
