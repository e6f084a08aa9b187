-- ===== src/Controller/Login/Told.antt =====
-- What a login request tells the peer of the options.
use kd_desk_tc.Prelude.{
  ℕ, ◌≡◌, refl, sym, ap, subst, ◌∙◌, arith, Bool, true, false, not, ◌&&◌, ◌||◌, Option, none, some,
  List, [], ◌∷◌, ◌==◌, list_eq, if◌then◌else◌, if_both, if_false, if_true, Bool-cases, inl, inr,
}
use kd_desk_tc.Proto.{Text}
use kd_desk_tc.Client.Proto.{OptionMessage, LoginRequest, bool_option}
use kd_desk_tc.Client.Connection.{Connection}
use kd_desk_tc.Client.Connection.Options.{chosen}
use kd_desk_tc.Client.Connection.Options.Flags.{
  Flags, flags, or_else, chosen_flags, update_option-flags,
}
use kd_desk_tc.Client.Connection.Login
use kd_desk_tc.Controller.LoginConfig
use kd_desk_tc.Controller.LoginConfig.{LoginConfigHandler, Desk}
use kd_desk_tc.Controller.Login.Carried.{Synced}

toggle_values :
    (lc : LoginConfigHandler)
    → (LoginConfig.get_toggle_option lc LoginConfig.name_lock ≡ lc.config.lock_after_session_end)
      × (LoginConfig.get_toggle_option lc LoginConfig.name_cursor ≡ lc.config.show_remote_cursor)
      × (LoginConfig.get_toggle_option lc LoginConfig.name_privacy ≡ lc.config.privacy_mode)
      × (LoginConfig.get_toggle_option lc LoginConfig.name_clipboard ≡ lc.config.disable_clipboard)
      × (LoginConfig.get_toggle_option lc LoginConfig.name_audio ≡ lc.config.disable_audio)
      × (LoginConfig.get_toggle_option lc LoginConfig.name_files ≡ lc.config.enable_file_transfer)
unfolding LoginConfig.get_toggle_option kd_desk_tc.Prelude.list_discrete
toggle_values lc = (refl, refl, refl, refl, refl, refl)

-- Settings that are all off, of a peer with a keyboard.
abbrev pub AllOff : Flags → Type 0
AllOff f =
    (f.lock ≡ false)
    × (f.cursor ≡ false)
    × (f.privacy ≡ false)
    × (f.no_clipboard ≡ false)
    × (f.no_audio ≡ false)
    × (f.files ≡ false)
    × (f.keyboard ≡ true)

chosen-only_yes : (b f : Bool) → f ≡ false → or_else (chosen (LoginConfig.only_yes b)) f ≡ b
unfolding or_else chosen LoginConfig.only_yes bool_option
chosen-only_yes true f h = refl
chosen-only_yes false f h = h

filled_tell :
    (q : Option (ℕ × ℕ)) (lc : LoginConfigHandler) (f : Flags)
    → AllOff f
    → Synced lc.config (chosen_flags (LoginConfig.filled_options q lc) f)
unfolding LoginConfig.filled_options chosen_flags
filled_tell q lc f h =
    let v = toggle_values lc in
    rw (h.6) (
      chosen-only_yes _ f.lock h.0 ∙ v.0,
      chosen-only_yes _ f.cursor h.1 ∙ v.1,
      chosen-only_yes _ f.privacy h.2 ∙ v.2,
      chosen-only_yes _ f.no_clipboard h.3 ∙ v.3,
      chosen-only_yes _ f.no_audio h.4 ∙ v.4,
      chosen-only_yes _ f.files h.5 ∙ v.5,
    )

none_of :
    (a b c d e f g : Bool)
    → (a || b || c || d || e || f || g) ≡ false
    → (b ≡ false) × (c ≡ false) × (d ≡ false) × (e ≡ false) × (f ≡ false) × (g ≡ false)
none_of false false false false false false g h = (refl, refl, refl, refl, refl, h)
none_of true b c d e f g h = cc
none_of false true c d e f g h = cc
none_of false false true d e f g h = cc
none_of false false false true e f g h = cc
none_of false false false false true f g h = cc
none_of false false false false false true g h = cc

-- Where no option is counted, none is set.
nothing_set :
    (q : Option (ℕ × ℕ)) (lc : LoginConfigHandler) (f : Flags)
    → AllOff f
    → LoginConfig.any_option q lc ≡ false
    → Synced lc.config f
unfolding LoginConfig.any_option
nothing_set q lc f h n =
    let v = toggle_values lc in
    let toggle : Text → Bool = LoginConfig.get_toggle_option lc in
    let off =
      none_of (elim q [ none ↦ false | some p ↦ true ]) (toggle LoginConfig.name_cursor)
        (toggle LoginConfig.name_lock) (toggle LoginConfig.name_privacy)
        (toggle LoginConfig.name_audio) (toggle LoginConfig.name_files)
        (toggle LoginConfig.name_clipboard) n in
    (
      h.0 ∙ sym off.1 ∙ v.0,
      h.1 ∙ sym off.0 ∙ v.1,
      h.2 ∙ sym off.2 ∙ v.2,
      h.3 ∙ sym off.5 ∙ v.3,
      h.4 ∙ sym off.3 ∙ v.4,
      h.5 ∙ sym off.4 ∙ v.5,
    )

apply_flags : (o : Option OptionMessage) (c : Connection) → Flags
apply_flags none c = flags c
apply_flags (some o) c = chosen_flags o (flags c)

applied_flags :
    (o : Option OptionMessage) (c : Connection) → flags (Login.apply_options o c) ≡ apply_flags o c
unfolding Login.apply_options apply_flags
applied_flags none c = refl
applied_flags (some o) c = update_option-flags o c

prepared_flags :
    (lr : LoginRequest) (c : Connection) → flags (Login.prepare lr c) ≡ apply_flags lr.option c
unfolding Login.prepare flags
prepared_flags lr c = applied_flags lr.option c

message_tells :
    (q : Option (ℕ × ℕ)) (lc : LoginConfigHandler) (c : Connection)
    → AllOff (flags c)
    → Synced lc.config (
        apply_flags
          (if LoginConfig.any_option q lc then some (LoginConfig.filled_options q lc) else none)
          c)
unfolding apply_flags
message_tells q lc c h = elim (Bool-cases (LoginConfig.any_option q lc)) [
  | inl e ↦ rw (e) (filled_tell q lc (flags c) h)
  | inr e ↦ rw (e) (nothing_set q lc (flags c) h e)
]

screen_options :
    (lc : LoginConfigHandler)
    → lc.is_port_forward ≡ false
    → lc.is_file_transfer ≡ false
    → LoginConfig.get_option_message true lc ≡ (
        if LoginConfig.any_option (LoginConfig.quality_option true lc) lc
        then some (LoginConfig.filled_options (LoginConfig.quality_option true lc) lc)
        else none)
unfolding LoginConfig.get_option_message
screen_options lc p t = if_false (lc.is_port_forward || lc.is_file_transfer) none _ (ground arith)

-- After the options of its login request, a new connection has the settings that are stored.
pub login_tells :
    (d : Desk) (password : Text) (lc : LoginConfigHandler) (c : Connection)
    → lc.is_port_forward ≡ false
    → lc.is_file_transfer ≡ false
    → AllOff (flags c)
    → Synced lc.config (flags (Login.prepare (LoginConfig.create_login_msg d password lc) c))
unfolding LoginConfig.create_login_msg
login_tells d password lc c p t h =
    let lr = LoginConfig.create_login_msg d password lc in
    subst (Synced lc.config)
      (sym (
        prepared_flags lr c
        ∙ ap (λ (o : Option OptionMessage). apply_flags o c) (screen_options lc p t)))
      (message_tells (LoginConfig.quality_option true lc) lc c h)

applied_keyboard :
    (o : Option OptionMessage) (c : Connection) → (apply_flags o c).keyboard ≡ (flags c).keyboard
unfolding apply_flags chosen_flags
applied_keyboard none c = refl
applied_keyboard (some o) c = refl

pub prepared_keyboard :
    (lr : LoginRequest) (c : Connection)
    → (flags (Login.prepare lr c)).keyboard ≡ (flags c).keyboard
prepared_keyboard lr c =
    ap (λ (f : Flags). f.keyboard) (prepared_flags lr c) ∙ applied_keyboard lr.option c
