-- ===== src/Client/Connection/Options.antt =====
-- `update_option`, in the order of its parts.
pub mod Flags
use kd_desk_tc.Prelude.{ℕ, Bool, true, false, ◌&&◌, ◌||◌, Option, none, some, if◌then◌else◌}
use kd_desk_tc.Client.Proto.{OptionMessage, BoolOption, bool_option, image_quality_value}
use kd_desk_tc.Client.Server.{name_audio, name_clipboard, name_cursor, name_pos}
use kd_desk_tc.Client.Connection.{
  Connection, Effect, MessageInput, Data, positive, act, subscribe, send_to_cm, clipboard_enabled,
  audio_enabled, file_transfer_enabled,
}

unfoldable pub set_quality : ℕ → Connection → Connection
set_quality q c = act (Effect.image_quality q) (record c { image_quality = q })

unfoldable pub update_quality : Option ℕ → Connection → Connection
update_quality none c = c
update_quality (some q) c = set_quality q c

unfoldable pub update_custom : ℕ → Connection → Connection
update_custom q c = if positive 32 q then set_quality q c else c

-- An option that is set: whether it is `Yes`. A number that names no variant sets nothing.
unfoldable pub chosen : ℕ → Option Bool
chosen n = elim (bool_option n) [
  | none ↦ none
  | some BoolOption.not_set ↦ none
  | some BoolOption.no ↦ some false
  | some BoolOption.yes ↦ some true
]

unfoldable pub update_lock : Option Bool → Connection → Connection
update_lock none c = c
update_lock (some b) c = record c { lock_after_session_end = b }

unfoldable pub update_cursor : Option Bool → Connection → Connection
update_cursor none c = c
update_cursor (some b) c =
    let c = record c { show_remote_cursor = b } in
    subscribe name_pos b (subscribe name_cursor (c.keyboard || b) c)

unfoldable pub update_audio : Option Bool → Connection → Connection
update_audio none c = c
update_audio (some b) c =
    let c = record c { disable_audio = b } in subscribe name_audio (audio_enabled c) c

unfoldable pub update_files : Option Bool → Connection → Connection
update_files none c = c
update_files (some b) c =
    let c = record c { enable_file_transfer = b } in
    send_to_cm (Data.clipboard_file_enabled (file_transfer_enabled c)) c

unfoldable pub update_clipboard : Option Bool → Connection → Connection
update_clipboard none c = c
update_clipboard (some b) c =
    let c = record c { disable_clipboard = b } in
    subscribe name_clipboard (clipboard_enabled c && c.keyboard) c

unfoldable pub set_privacy : Bool → Connection → Connection
set_privacy b c =
    act (Effect.input (if b then MessageInput.privacy_on else MessageInput.privacy_off))
      (record c { privacy_mode = b })

unfoldable pub update_privacy : Option Bool → Connection → Connection
update_privacy none c = c
update_privacy (some b) c = if c.keyboard then set_privacy b c else c

unfoldable pub update_block : Option Bool → Connection → Connection
update_block none c = c
update_block (some b) c =
    if c.keyboard
    then act (Effect.input (if b then MessageInput.block_on else MessageInput.block_off)) c
    else c

unfoldable pub update_option : OptionMessage → Connection → Connection
update_option o c =
    let c = update_quality (image_quality_value o.image_quality) c in
    let c = update_custom o.custom_image_quality c in
    let c = update_lock (chosen o.lock_after_session_end) c in
    let c = update_cursor (chosen o.show_remote_cursor) c in
    let c = update_audio (chosen o.disable_audio) c in
    let c = update_files (chosen o.enable_file_transfer) c in
    let c = update_clipboard (chosen o.disable_clipboard) c in
    let c = update_privacy (chosen o.privacy_mode) c in update_block (chosen o.block_input) c
