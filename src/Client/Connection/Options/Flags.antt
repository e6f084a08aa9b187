-- ===== src/Client/Connection/Options/Flags.antt =====
-- What the options of a message do to the settings of a connection.
use kd_desk_tc.Prelude.{ℕ, ◌≡◌, refl, ap, ◌∙◌, arith, Bool, ◌||◌, Option, none, some, if◌then◌else◌}
use kd_desk_tc.Proto.{Text}
use kd_desk_tc.HashMap.{HashMap}
use kd_desk_tc.Client.Proto.{OptionMessage}
use kd_desk_tc.Client.Server.{name_cursor, name_pos}
use kd_desk_tc.Client.Connection.{Connection, act, subscribe, send_to_cm}
use kd_desk_tc.Client.Connection.Options

-- The settings that a peer chooses, with what they hang on and what they leave alone.
pub record Flags : Type 0 where
  pub lock : Bool
  pub cursor : Bool
  pub privacy : Bool
  pub no_clipboard : Bool
  pub no_audio : Bool
  pub files : Bool
  pub keyboard : Bool
  pub tunnel : Option Text
  pub permission : HashMap Text Text

unfoldable pub flags : Connection → Flags
flags c = record {
  lock = c.lock_after_session_end;
  cursor = c.show_remote_cursor;
  privacy = c.privacy_mode;
  no_clipboard = c.disable_clipboard;
  no_audio = c.disable_audio;
  files = c.enable_file_transfer;
  keyboard = c.keyboard;
  tunnel = c.port_forward_socket;
  permission = c.permission;
}

unfoldable pub or_else : Option Bool → Bool → Bool
or_else none b = b
or_else (some a) b = a

-- The settings after a message: what it chooses, and what it does not mention as before. The privacy
-- mode is for peers with a keyboard.
unfoldable pub chosen_flags : OptionMessage → Flags → Flags
chosen_flags o f = record {
  lock = or_else (Options.chosen o.lock_after_session_end) f.lock;
  cursor = or_else (Options.chosen o.show_remote_cursor) f.cursor;
  privacy = if f.keyboard then or_else (Options.chosen o.privacy_mode) f.privacy else f.privacy;
  no_clipboard = or_else (Options.chosen o.disable_clipboard) f.no_clipboard;
  no_audio = or_else (Options.chosen o.disable_audio) f.no_audio;
  files = or_else (Options.chosen o.enable_file_transfer) f.files;
  keyboard = f.keyboard;
  tunnel = f.tunnel;
  permission = f.permission;
}

with_lock : Option Bool → Flags → Flags
with_lock b f = record f { lock = or_else b f.lock }

with_cursor : Option Bool → Flags → Flags
with_cursor b f = record f { cursor = or_else b f.cursor }

with_audio : Option Bool → Flags → Flags
with_audio b f = record f { no_audio = or_else b f.no_audio }

with_files : Option Bool → Flags → Flags
with_files b f = record f { files = or_else b f.files }

with_clipboard : Option Bool → Flags → Flags
with_clipboard b f = record f { no_clipboard = or_else b f.no_clipboard }

with_privacy : Option Bool → Flags → Flags
with_privacy b f = record f { privacy = if f.keyboard then or_else b f.privacy else f.privacy }

flags-subscribe : (name : Text) (b : Bool) (c : Connection) → flags (subscribe name b c) ≡ flags c
unfolding flags subscribe
flags-subscribe name b c = ground arith

quality_flags : (q : Option ℕ) (c : Connection) → flags (Options.update_quality q c) ≡ flags c
unfolding flags Options.update_quality Options.set_quality act
quality_flags none c = refl
quality_flags (some q) c = refl

custom_flags : (q : ℕ) (c : Connection) → flags (Options.update_custom q c) ≡ flags c
unfolding flags Options.update_custom Options.set_quality act
custom_flags q c = ground arith

lock_flags :
    (b : Option Bool) (c : Connection) → flags (Options.update_lock b c) ≡ with_lock b (flags c)
unfolding flags Options.update_lock with_lock or_else
lock_flags none c = refl
lock_flags (some b) c = refl

cursor_flags :
    (b : Option Bool) (c : Connection) → flags (Options.update_cursor b c) ≡ with_cursor b (flags c)
unfolding flags Options.update_cursor with_cursor or_else
cursor_flags none c = refl
cursor_flags (some b) c =
    let c1 : Connection = record c { show_remote_cursor = b } in
    flags-subscribe name_pos b (subscribe name_cursor (c.keyboard || b) c1)
    ∙ flags-subscribe name_cursor (c.keyboard || b) c1

audio_flags :
    (b : Option Bool) (c : Connection) → flags (Options.update_audio b c) ≡ with_audio b (flags c)
unfolding flags Options.update_audio with_audio or_else
audio_flags none c = refl
audio_flags (some b) c = flags-subscribe _ _ _

files_flags :
    (b : Option Bool) (c : Connection) → flags (Options.update_files b c) ≡ with_files b (flags c)
unfolding flags Options.update_files with_files or_else send_to_cm act
files_flags none c = refl
files_flags (some b) c = refl

clipboard_flags :
    (b : Option Bool) (c : Connection)
    → flags (Options.update_clipboard b c) ≡ with_clipboard b (flags c)
unfolding flags Options.update_clipboard with_clipboard or_else
clipboard_flags none c = refl
clipboard_flags (some b) c = flags-subscribe _ _ _

privacy_flags :
    (b : Option Bool) (c : Connection)
    → flags (Options.update_privacy b c) ≡ with_privacy b (flags c)
unfolding flags Options.update_privacy Options.set_privacy with_privacy or_else act
privacy_flags none c = ground arith
privacy_flags (some b) c = ground arith

block_flags : (b : Option Bool) (c : Connection) → flags (Options.update_block b c) ≡ flags c
unfolding flags Options.update_block act
block_flags none c = refl
block_flags (some b) c = ground arith

pub update_option-flags :
    (o : OptionMessage) (c : Connection)
    → flags (Options.update_option o c) ≡ chosen_flags o (flags c)
unfolding Options.update_option chosen_flags with_lock with_cursor with_audio with_files
    with_clipboard with_privacy
update_option-flags o c =
    block_flags _ _
    ∙ privacy_flags _ _
    ∙ ap (with_privacy _) (
        clipboard_flags _ _
        ∙ ap (with_clipboard _) (
            files_flags _ _
            ∙ ap (with_files _) (
                audio_flags _ _
                ∙ ap (with_audio _) (
                    cursor_flags _ _
                    ∙ ap (with_cursor _) (
                        lock_flags _ _
                        ∙ ap (with_lock _) (custom_flags _ _ ∙ quality_flags _ _))))))
