-- ===== src/Client/Compress.antt =====
-- KdDeskTC_Client/libs/hbb_common/src/compress.rs, with zstd as a parameter.
use kd_desk_tc.Prelude.{ℕ, ◌*◌, Option, none, some, [], length, ltb, if◌then◌else◌}
use kd_desk_tc.Proto.{Text}

-- The block functions of zstd, which may fail; the second takes the size of its output buffer.
pub record Zstd : Type 0 where
  pub compress : Text → ℕ → Option Text
  pub decompress : Text → ℕ → Option Text

abbrev pub compress_level : ℕ
compress_level = 3

abbrev pub or_empty : Option Text → Text
or_empty none = []
or_empty (some t) = t

unfoldable pub compress : Zstd → Text → ℕ → Text
compress z payload level = or_empty (z.compress payload level)

unfoldable pub buffer_size : ℕ → ℕ
buffer_size len =
    let n = 30 * len in
    let n = if ltb (1024 * 1024 * 64) n then 1024 * 1024 * 64 else n in
    if ltb n (1024 * 1024) then 1024 * 1024 else n

unfoldable pub decompress : Zstd → Text → Text
unfolding buffer_size
decompress z payload = or_empty (z.decompress payload (buffer_size (length payload)))
