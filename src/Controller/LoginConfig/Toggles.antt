-- ===== src/Controller/LoginConfig/Toggles.antt =====
-- The options of a session that its window switches.
-- the messages that tell the peer of them. The files of all peers are part of the state.

use kd_desk_tc.Prelude.{
  ℕ, Bool, true, false, not, Option, none, some, [], ◌==◌, nat_eq, list_eq, if◌then◌else◌,
}
use kd_desk_tc.Strings.{bytes}
use kd_desk_tc.Proto.{Text}
use kd_desk_tc.HashMap
use kd_desk_tc.HashMap.{HashMap}
use kd_desk_tc.Client.Proto.{Message, Misc, OptionMessage}
use kd_desk_tc.Controller.PeerConfig.{PeerConfig}
use kd_desk_tc.Controller.LoginConfig.Stored.{
  load_config, store_config, save_config, get_option, LoginConfigHandler, Desk,
}

-- The options that a window can switch, by name.
abbrev pub name_cursor : Text
name_cursor = bytes "show-remote-cursor"

abbrev pub name_audio : Text
name_audio = bytes "disable-audio"

abbrev pub name_clipboard : Text
name_clipboard = bytes "disable-clipboard"

abbrev pub name_lock : Text
name_lock = bytes "lock-after-session-end"

abbrev pub name_privacy : Text
name_privacy = bytes "privacy-mode"

abbrev pub name_files : Text
name_files = bytes "enable-file-transfer"

abbrev pub name_block : Text
name_block = bytes "block-input"

abbrev pub name_unblock : Text
name_unblock = bytes "unblock-input"

-- `OptionMessage::default()`
unfoldable pub no_option : OptionMessage
no_option = record {
  image_quality = 0;
  lock_after_session_end = 0;
  show_remote_cursor = 0;
  privacy_mode = 0;
  block_input = 0;
  custom_image_quality = 0;
  disable_audio = 0;
  disable_clipboard = 0;
  enable_file_transfer = 0;
}

-- The number of `Yes` or `No`.
unfoldable pub yes_or_no : Bool → ℕ
yes_or_no true = 2
yes_or_no false = 1

unfoldable pub option_message : OptionMessage → Message
option_message o = Message.misc (Misc.option o)

-- One branch for each option of the configuration: the new configuration and the message.
abbrev pub Toggled : Type 0
Toggled = PeerConfig × OptionMessage

unfoldable pub toggle_cursor : PeerConfig → Toggled
toggle_cursor c =
    let b = not c.show_remote_cursor in
    (record c { show_remote_cursor = b }, record no_option { show_remote_cursor = yes_or_no b })

unfoldable pub toggle_audio : PeerConfig → Toggled
toggle_audio c =
    let b = not c.disable_audio in
    (record c { disable_audio = b }, record no_option { disable_audio = yes_or_no b })

unfoldable pub toggle_clipboard : PeerConfig → Toggled
toggle_clipboard c =
    let b = not c.disable_clipboard in
    (record c { disable_clipboard = b }, record no_option { disable_clipboard = yes_or_no b })

unfoldable pub toggle_lock : PeerConfig → Toggled
toggle_lock c =
    let b = not c.lock_after_session_end in
    (
      record c { lock_after_session_end = b },
      record no_option { lock_after_session_end = yes_or_no b },
    )

unfoldable pub toggle_privacy : PeerConfig → Toggled
toggle_privacy c =
    let b = not c.privacy_mode in
    (record c { privacy_mode = b }, record no_option { privacy_mode = yes_or_no b })

unfoldable pub toggle_files : PeerConfig → Toggled
toggle_files c =
    let b = not c.enable_file_transfer in
    (record c { enable_file_transfer = b }, record no_option { enable_file_transfer = yes_or_no b })

unfoldable pub save_toggled :
    Desk → Toggled → LoginConfigHandler → LoginConfigHandler × Option Message
save_toggled d t lc = (save_config d t.0 lc, some (option_message t.1))

-- Any other name is an option that is set to Y or taken away. It is the configuration in memory that
-- changes and is stored.
unfoldable pub toggle_other : Desk → Text → LoginConfigHandler → LoginConfigHandler
toggle_other d name lc =
    let options =
      if HashMap.contains_key lc.config.options name
      then HashMap.remove lc.config.options name
      else HashMap.insert lc.config.options name (bytes "Y") in
    let config : PeerConfig = record lc.config { options = options } in
    store_config d config (record lc { config = config })

unfoldable pub toggle_option :
    Desk → Text → LoginConfigHandler → LoginConfigHandler × Option Message
toggle_option d name lc =
    let config = load_config lc in
    if name == name_cursor
    then save_toggled d (toggle_cursor config) lc
    else if name == name_audio
    then save_toggled d (toggle_audio config) lc
    else if name == name_clipboard
    then save_toggled d (toggle_clipboard config) lc
    else if name == name_lock
    then save_toggled d (toggle_lock config) lc
    else if name == name_privacy
    then save_toggled d (toggle_privacy config) lc
    else if name == name_files
    then save_toggled d (toggle_files config) lc
    else if name == name_block
    then (lc, some (option_message (record no_option { block_input = yes_or_no true })))
    else if name == name_unblock
    then (lc, some (option_message (record no_option { block_input = yes_or_no false })))
    else (toggle_other d name lc, none)

unfoldable pub get_toggle_option : LoginConfigHandler → Text → Bool
get_toggle_option lc name =
    if name == name_cursor
    then lc.config.show_remote_cursor
    else if name == name_lock
    then lc.config.lock_after_session_end
    else if name == name_privacy
    then lc.config.privacy_mode
    else if name == name_files
    then lc.config.enable_file_transfer
    else if name == name_audio
    then lc.config.disable_audio
    else if name == name_clipboard
    then lc.config.disable_clipboard
    else not (get_option lc name == [])
