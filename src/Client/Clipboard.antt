-- ===== src/Client/Clipboard.antt =====
-- The text of the clipboard, on both sides of a session: KdDeskTC_Client/src/common.rs, and what the
-- service of KdDeskTC_Client/src/server/clipboard_service.rs does in a round.
pub mod Sharing
pub mod Runs
use kd_desk_tc.Prelude.{
  ℕ, Bool, true, false, not, ◌&&◌, Option, none, some, List, [], ◌∷◌, ◌==◌, nat_eq, list_eq,
  if◌then◌else◌, ltb, length,
}
use kd_desk_tc.Proto.{Text}
use kd_desk_tc.Client.Proto.{Clipboard}
use kd_desk_tc.Client.Compress.{Zstd, compress, decompress, compress_level}

-- The text that was last seen or set, and the text of the system's clipboard, which may hold none.
pub record Board : Type 0 where
  pub old : Text
  pub text : Option Text

unfoldable pub create_clipboard_msg : Zstd → Text → Clipboard
create_clipboard_msg z bytes =
    let compressed = compress z bytes compress_level in
    let smaller = ltb (length compressed) (length bytes) in
    record { compress = smaller; content = if smaller then compressed else bytes }

unfoldable pub content_of : Zstd → Clipboard → Text
content_of z c = if c.compress then decompress z c.content else c.content

-- An empty text is remembered and not set.
unfoldable pub set_content : Text → Board → Board
set_content content b =
    if content == []
    then record b { old = content }
    else record b { old = content; text = some content }

-- The tests are whether bytes are UTF-8, and whether there is a clipboard.
unfoldable pub update_clipboard : Zstd → (Text → Bool) → Bool → Clipboard → Board → Board
update_clipboard z utf8 available c b =
    if utf8 (content_of z c) && available then set_content (content_of z c) b else b

-- The most bytes of a text that is sent, and one.
abbrev pub too_long : ℕ
too_long = 2000000

unfoldable pub check_content : Zstd → Text → Board → Board × Option Clipboard
check_content z content b =
    if ltb (length content) too_long && not (content == [])
    then if not (content == b.old)
      then (record b { old = content }, some (create_clipboard_msg z content))
      else (b, none)
    else (b, none)

unfoldable pub check_clipboard : Zstd → Board → Board × Option Clipboard
check_clipboard z b = elim b.text [ none ↦ (b, none) | some content ↦ check_content z content b ]

-- What the snapshot of the service sends to new subscribers.
unfoldable pub snapshot : Zstd → Option Clipboard → Board → Option Clipboard
snapshot z none b = if b.old == [] then none else some (create_clipboard_msg z b.old)
snapshot z (some update) b = none

-- The snapshot of a round, where there are new subscribers: the board, what goes to all subscribers
-- and what goes to new ones only. The argument is whether there are old ones.
unfoldable pub snapshot_round : Zstd → Bool → Board → Board × Option Clipboard × Option Clipboard
snapshot_round z has_subscribes b =
    let checked = if has_subscribes then check_clipboard z b else (b, none) in
    (checked.0, checked.1, snapshot z checked.1 checked.0)
