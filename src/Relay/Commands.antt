-- ===== src/Relay/Commands.antt =====
-- The commands of the administrator, `check_cmd`; and the two other sources of the settings, the
-- environment (`check_params`) and the files of addresses that `start` reads.
pub mod Lists
use Prim.Native.String.{String}
use kd_desk_tc.Prelude.{
  ℕ, ◌+◌, ◌*◌, ◌/◌, ◌%◌, ◌^◌, Bool, true, false, ◌||◌, Option, none, some, List, [], ◌∷◌, ◌++◌, ltb,
  leb, ◌==◌, list_eq, nat_eq, if◌then◌else◌,
}
use kd_desk_tc.Strings.{split, bytes}
use kd_desk_tc.Proto.{Text}
use kd_desk_tc.HashMap
use kd_desk_tc.HashMap.{HashMap}
use kd_desk_tc.Relay.State.{RelayServer, Usage, HashSet, Std}

unfoldable pub add_all : List Text → HashSet → HashSet
add_all [] set = set
add_all (ip ∷ ips) set = add_all ips (HashMap.insert set ip tt)

unfoldable pub remove_all : List Text → HashSet → HashSet
remove_all [] set = set
remove_all (ip ∷ ips) set = remove_all ips (HashMap.remove set ip)

-- What the words behind the command do to the set; only the first counts.
unfoldable pub add_words : List Text → HashSet → HashSet
add_words [] set = set
add_words (ip ∷ rest) set = add_all (split b'|' ip) set

unfoldable pub remove_words : List Text → HashSet → HashSet
remove_words [] set = set
remove_words (ip ∷ rest) set = if ip == bytes "all" then [] else remove_all (split b'|' ip) set

show_bool : Bool → Text
show_bool true = bytes "true"
show_bool false = bytes "false"

lines_of : HashSet → Text
lines_of [] = []
lines_of ((ip, u) ∷ set) = (ip ++ bytes "\n") ++ lines_of set

unfoldable pub list_words : List Text → HashSet → Text
unfolding show_bool lines_of
list_words [] set = lines_of set
list_words (ip ∷ rest) set = show_bool (HashMap.contains_key set ip) ++ bytes "\n"

abbrev is_word : Text → String → String → Bool
is_word name long short = (name == bytes long) || (name == bytes short)

-- `sort_by` on the totals, the largest first; equal ones keep their order.
unfoldable pub insert_usage : Text × Usage → List (Text × Usage) → List (Text × Usage)
insert_usage x [] = x ∷ []
insert_usage x (y ∷ ys) =
    let rest = insert_usage x ys in if leb (y.1).total (x.1).total then x ∷ y ∷ ys else y ∷ rest

unfoldable pub sort_usage : List (Text × Usage) → List (Text × Usage)
sort_usage [] = []
sort_usage (x ∷ xs) = insert_usage x (sort_usage xs)

abbrev help : Text
help =
    bytes "blacklist-add(ba) <ip>\n"
    ++ bytes "blacklist-remove(br) <ip>\n"
    ++ bytes "blacklist(b) <ip>\n"
    ++ bytes "blocklist-add(Ba) <ip>\n"
    ++ bytes "blocklist-remove(Br) <ip>\n"
    ++ bytes "blocklist(B) <ip>\n"
    ++ bytes "downgrade-threshold(dt) [value]\n"
    ++ bytes "downgrade-start-check(t) [value(second)]\n"
    ++ bytes "limit-speed(ls) [value(Mb/s)]\n"
    ++ bytes "total-bandwidth(tb) [value(Mb/s)]\n"
    ++ bytes "single-bandwidth(sb) [value(Mb/s)]\n"
    ++ bytes "usage(u)\n"

module _ {F : Type 0} (std : Std F) where
  -- A number that parses and is positive, in `f64` and in `usize`.
  positive_f64 : Text → Option F
  positive_f64 v = elim (std.parse_f64 v) [
    | none ↦ none
    | some x ↦ if std.is_positive x then some x else none
  ]

  positive_usize : Text → Option ℕ
  positive_usize v = elim (std.parse_usize v) [
    | none ↦ none
    | some x ↦ if ltb 0 x then some x else none
  ]

  unfoldable pub set_threshold : Text → RelayServer F → RelayServer F
  unfolding positive_f64
  set_threshold v s = elim (positive_f64 v) [
    | none ↦ s
    | some x ↦ record s { downgrade_threshold = x }
  ]

  unfoldable pub set_start_check : Text → RelayServer F → RelayServer F
  unfolding positive_usize
  set_start_check v s = elim (positive_usize v) [
    | none ↦ s
    | some x ↦ record s { downgrade_start_check = x * 1000 % 2 ^ 64 }
  ]

  unfoldable pub set_limit_speed : Text → RelayServer F → RelayServer F
  unfolding positive_f64
  set_limit_speed v s = elim (positive_f64 v) [
    | none ↦ s
    | some x ↦ record s { limit_speed = std.from_mega x }
  ]

  unfoldable pub set_single_bandwidth : Text → RelayServer F → RelayServer F
  unfolding positive_f64
  set_single_bandwidth v s = elim (positive_f64 v) [
    | none ↦ s
    | some x ↦ record s { single_bandwidth = std.from_mega x }
  ]

  unfoldable pub set_total_bandwidth : Text → RelayServer F → RelayServer F
  unfolding positive_f64
  set_total_bandwidth v s = elim (positive_f64 v) [
    | none ↦ s
    | some x ↦ record s { total_bandwidth = std.from_mega x }
  ]

  -- The command also tells the limiter that is in use.
  unfoldable pub limit_total : Text → RelayServer F → RelayServer F
  unfolding positive_f64
  limit_total v s = elim (positive_f64 v) [
    | none ↦ s
    | some x ↦ record s { total_bandwidth = std.from_mega x; limiter_speed = std.from_mega x }
  ]

  -- With a word the command sets, and without one it answers.
  set_or_show :
      (Text → RelayServer F → RelayServer F)
      → Text
      → List Text
      → RelayServer F
      → RelayServer F × Text
  set_or_show set shown [] s = (s, shown)
  set_or_show set shown (v ∷ rest) s = (set v s, [])

  usage_line : Text × Usage → Text
  usage_line (ip, u) =
      if u.elapsed == 0
      then []
      else ip
        ++ bytes ": "
        ++ std.show_usize (u.elapsed / 1000)
        ++ bytes "s "
        ++ std.show_mega_bytes u.total
        ++ bytes "MB "
        ++ std.show_usize u.highest
        ++ bytes "kb/s "
        ++ std.show_usize (u.total / u.elapsed)
        ++ bytes "kb/s "
        ++ std.show_usize u.speed
        ++ bytes "kb/s\n"

  usage_lines : List (Text × Usage) → Text
  unfolding usage_line
  usage_lines [] = []
  usage_lines (x ∷ xs) = usage_line x ++ usage_lines xs

  run_settings : Text → List Text → RelayServer F → RelayServer F × Text
  unfolding set_or_show usage_lines
  run_settings name args s =
      if is_word name "downgrade-threshold" "dt"
      then set_or_show set_threshold (std.show_f64 s.downgrade_threshold ++ bytes "\n") args s
      else if is_word name "downgrade-start-check" "t"
      then set_or_show set_start_check
          (std.show_usize (s.downgrade_start_check / 1000) ++ bytes "s\n") args s
      else if is_word name "limit-speed" "ls"
      then set_or_show set_limit_speed (std.show_mega s.limit_speed ++ bytes "Mb/s\n") args s
      else if is_word name "total-bandwidth" "tb"
      then set_or_show limit_total (std.show_mega s.total_bandwidth ++ bytes "Mb/s\n") args s
      else if is_word name "single-bandwidth" "sb"
      then set_or_show set_single_bandwidth (std.show_mega s.single_bandwidth ++ bytes "Mb/s\n")
          args s
      else if is_word name "usage" "u"
      then (s, usage_lines (sort_usage s.usage))
      else (s, [])

  run_command : List Text → RelayServer F → RelayServer F × Text
  unfolding run_settings
  run_command [] s = (s, [])
  run_command (name ∷ args) s =
      if name == bytes "h"
      then (s, help)
      else if is_word name "blacklist-add" "ba"
      then (record s { blacklist = add_words args s.blacklist }, [])
      else if is_word name "blacklist-remove" "br"
      then (record s { blacklist = remove_words args s.blacklist }, [])
      else if is_word name "blacklist" "b"
      then (s, list_words args s.blacklist)
      else if is_word name "blocklist-add" "Ba"
      then (record s { blocklist = add_words args s.blocklist }, [])
      else if is_word name "blocklist-remove" "Br"
      then (record s { blocklist = remove_words args s.blocklist }, [])
      else if is_word name "blocklist" "B"
      then (s, list_words args s.blocklist)
      else run_settings name args s

  -- The words are what stands between single blanks.
  unfoldable pub check_cmd : Text → RelayServer F → RelayServer F × Text
  unfolding run_command
  check_cmd cmd s = run_command (split b' ' (std.trim cmd)) s

  from_env : (Text → RelayServer F → RelayServer F) → Option Text → RelayServer F → RelayServer F
  from_env set none s = s
  from_env set (some v) s = set v s

  -- The environment at the start of each `io_loop`.
  unfoldable pub check_params : (Text → Option Text) → RelayServer F → RelayServer F
  unfolding from_env
  check_params env s0 =
      let s1 = from_env set_threshold (env (bytes "DOWNGRADE_THRESHOLD")) s0 in
      let s2 = from_env set_start_check (env (bytes "DOWNGRADE_START_CHECK")) s1 in
      let s3 = from_env set_limit_speed (env (bytes "LIMIT_SPEED")) s2 in
      let s4 = from_env set_total_bandwidth (env (bytes "TOTAL_BANDWIDTH")) s3 in
      from_env set_single_bandwidth (env (bytes "SINGLE_BANDWIDTH")) s4

  first_word : List Text → Text
  first_word [] = []
  first_word (x ∷ xs) = x

  add_lines : List Text → HashSet → HashSet
  unfolding first_word
  add_lines [] set = set
  add_lines (x ∷ xs) set =
      add_lines xs (HashMap.insert set (first_word (split b' ' (std.trim x))) tt)

  -- The files of addresses, where they can be opened and read.
  load_list : Option Text → HashSet → HashSet
  unfolding add_lines
  load_list none set = set
  load_list (some contents) set = add_lines (split b'\n' contents) set

  unfoldable pub load_lists : Option Text → Option Text → RelayServer F → RelayServer F
  unfolding load_list
  load_lists black block s = record s {
    blacklist = load_list black s.blacklist;
    blocklist = load_list block s.blocklist;
  }
