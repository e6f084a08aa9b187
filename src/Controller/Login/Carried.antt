-- ===== src/Controller/Login/Carried.antt =====
-- What a switch of the window tells turns settings that agree into settings that agree.
-- each switch in the window changes both.
use kd_desk_tc.Prelude.{ℕ, ◌≡◌, refl, Bool, true, false, not, none, some, list_eq}
use kd_desk_tc.Client.Proto.{bool_option}
use kd_desk_tc.Client.Connection.Options.{chosen}
use kd_desk_tc.Client.Connection.Options.Flags.{Flags, or_else, chosen_flags}
use kd_desk_tc.Controller.PeerConfig.{PeerConfig}
use kd_desk_tc.Controller.LoginConfig
use kd_desk_tc.Controller.LoginConfig.{LoginConfigHandler, Desk, Toggled}

-- The peer's settings are those of the configuration.
abbrev pub Synced : PeerConfig → Flags → Type 0
Synced config f =
    (f.lock ≡ config.lock_after_session_end)
    × (f.cursor ≡ config.show_remote_cursor)
    × (f.privacy ≡ config.privacy_mode)
    × (f.no_clipboard ≡ config.disable_clipboard)
    × (f.no_audio ≡ config.disable_audio)
    × (f.files ≡ config.enable_file_transfer)

-- What a message chooses turns settings that agree with one configuration into settings that agree
-- with another.
unfoldable pub Carries : PeerConfig → Toggled → Type 0
Carries config t =
    (f : Flags) → f.keyboard ≡ true → Synced config f → Synced t.0 (chosen_flags t.1 f)

chosen-yes_or_no : (b : Bool) → chosen (LoginConfig.yes_or_no b) ≡ some b
unfolding chosen LoginConfig.yes_or_no bool_option
chosen-yes_or_no true = refl
chosen-yes_or_no false = refl

chosen_unset : chosen 0 ≡ none
unfolding chosen bool_option
chosen_unset = refl

pub cursor-Carries : (config : PeerConfig) → Carries config (LoginConfig.toggle_cursor config)
unfolding Carries LoginConfig.toggle_cursor LoginConfig.no_option chosen_flags or_else
cursor-Carries config f k s =
    rw (chosen-yes_or_no (not config.show_remote_cursor), chosen_unset, k)
      (s.0, refl, s.2, s.3, s.4, s.5)

pub audio-Carries : (config : PeerConfig) → Carries config (LoginConfig.toggle_audio config)
unfolding Carries LoginConfig.toggle_audio LoginConfig.no_option chosen_flags or_else
audio-Carries config f k s =
    rw (chosen-yes_or_no (not config.disable_audio), chosen_unset, k)
      (s.0, s.1, s.2, s.3, refl, s.5)

pub clipboard-Carries : (config : PeerConfig) → Carries config (LoginConfig.toggle_clipboard config)
unfolding Carries LoginConfig.toggle_clipboard LoginConfig.no_option chosen_flags or_else
clipboard-Carries config f k s =
    rw (chosen-yes_or_no (not config.disable_clipboard), chosen_unset, k)
      (s.0, s.1, s.2, refl, s.4, s.5)

pub lock-Carries : (config : PeerConfig) → Carries config (LoginConfig.toggle_lock config)
unfolding Carries LoginConfig.toggle_lock LoginConfig.no_option chosen_flags or_else
lock-Carries config f k s =
    rw (chosen-yes_or_no (not config.lock_after_session_end), chosen_unset, k)
      (refl, s.1, s.2, s.3, s.4, s.5)

pub privacy-Carries : (config : PeerConfig) → Carries config (LoginConfig.toggle_privacy config)
unfolding Carries LoginConfig.toggle_privacy LoginConfig.no_option chosen_flags or_else
privacy-Carries config f k s =
    rw (chosen-yes_or_no (not config.privacy_mode), chosen_unset, k) (s.0, s.1, refl, s.3, s.4, s.5)

pub files-Carries : (config : PeerConfig) → Carries config (LoginConfig.toggle_files config)
unfolding Carries LoginConfig.toggle_files LoginConfig.no_option chosen_flags or_else
files-Carries config f k s =
    rw (chosen-yes_or_no (not config.enable_file_transfer), chosen_unset, k)
      (s.0, s.1, s.2, s.3, s.4, refl)

pub block-Carries :
    (config : PeerConfig) (n : ℕ)
    → Carries config (config, record LoginConfig.no_option { block_input = n })
unfolding Carries LoginConfig.no_option chosen_flags or_else
block-Carries config n f k s = rw (chosen_unset, k) s
