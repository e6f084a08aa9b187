-- ===== src/Relay/State.antt =====
-- The statics of KdDeskTC_Server/src/relay_server.rs. A set of texts is a map to the unit type.
use kd_desk_tc.Prelude.{ℕ, Bool, Option}
use kd_desk_tc.Proto.{Text}
use kd_desk_tc.HashMap.{HashMap}

-- `(usize, usize, usize, usize)`
pub record Usage : Type 0 where
  pub elapsed : ℕ
  pub total : ℕ
  pub highest : ℕ
  pub speed : ℕ

-- A connection, a WebSocket or a framed TCP stream, which can be switched to raw.
pub record Stream : Type 0 where
  pub id : ℕ
  pub is_ws : Bool
  pub raw : Bool

abbrev pub HashSet : Type 0
HashSet = HashMap Text (Unit {0})

-- `F` is the type `f64`.
pub record RelayServer (F : Type 0) : Type 0 where
  pub peers : HashMap Text Stream
  pub usage : HashMap Text Usage
  pub blacklist : HashSet
  pub blocklist : HashSet
  pub downgrade_threshold : F
  pub downgrade_start_check : ℕ
  pub limit_speed : ℕ
  pub total_bandwidth : ℕ
  pub single_bandwidth : ℕ
  -- the speed limit of the limiter of the whole server
  pub limiter_speed : ℕ

-- What the commands use of the standard library: `str::trim`, parsing and printing of numbers, and
-- the operations on `f64`.
pub record Std (F : Type 0) : Type 0 where
  pub trim : Text → Text
  pub parse_f64 : Text → Option F
  pub parse_usize : Text → Option ℕ
  -- `v > 0.`
  pub is_positive : F → Bool
  -- `(v * 1024. * 1024.) as usize`
  pub from_mega : F → ℕ
  -- `(bandwidth as f64 * threshold / 1000.) as usize`
  pub per_ms : ℕ → F → ℕ
  pub show_f64 : F → Text
  pub show_usize : ℕ → Text
  -- `n as f64 / 1024. / 1024.`, and the same divided by 8 with two decimals
  pub show_mega : ℕ → Text
  pub show_mega_bytes : ℕ → Text
