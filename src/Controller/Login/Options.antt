-- ===== src/Controller/Login/Options.antt =====
-- The two sides of a session agree on its options: the login tells the peer what is stored, and
-- each switch in the window changes both.
-- each switch in the window changes both.
use kd_desk_tc.Prelude.{
  ℕ, ◌≡◌, refl, sym, ap, subst, ◌∙◌, true, Option, none, some, List, [], ◌∷◌, ◌==◌, list_eq,
  if_both, if_true,
}
use kd_desk_tc.Proto.{Text}
use kd_desk_tc.HashMap
use kd_desk_tc.Client.Proto.{Message, Misc, OptionMessage}
use kd_desk_tc.Client.Connection.{Connection, Machine, touch}
use kd_desk_tc.Client.Connection.Options.{update_option}
use kd_desk_tc.Client.Connection.Options.Flags.{Flags, flags, chosen_flags, update_option-flags}
use kd_desk_tc.Client.Connection.Dispatch.{on_message, on_authorized, on_misc}
use kd_desk_tc.Client.Connection.Dispatch.Guard.{kept_authorized, options_keep}
use kd_desk_tc.Controller.PeerConfig
use kd_desk_tc.Controller.PeerConfig.{PeerConfig}
use kd_desk_tc.Controller.LoginConfig
use kd_desk_tc.Controller.LoginConfig.{LoginConfigHandler, Desk, Toggled}
use kd_desk_tc.Controller.Login.Carried.{
  Synced, Carries, cursor-Carries, audio-Carries, clipboard-Carries, lock-Carries, privacy-Carries,
  files-Carries, block-Carries,
}

-- A message of the window, as the peer takes it.
unfoldable pub tell : Machine → Option Message → Connection → Connection
tell m none c = c
tell m (some msg) c = (on_message m msg c).0

-- A handler and the peer's connection, with what they agree on.
pub record Agree (lc : LoginConfigHandler) (c : Connection) : Type 0 where
  pub stored : LoginConfig.load_config lc ≡ lc.config
  pub keyboard : c.keyboard ≡ true
  pub authorized : c.authorized ≡ true
  pub synced : Synced lc.config (flags c)

tell_option :
    (m : Machine) (o : OptionMessage) (c : Connection)
    → c.authorized ≡ true
    → tell m (some (LoginConfig.option_message o)) c ≡ update_option o (touch m c)
unfolding tell LoginConfig.option_message on_message on_authorized on_misc
tell_option m o c a = if_true c.authorized (on_authorized m (Message.misc (Misc.option o)) c) c a

flags-touch : (m : Machine) (c : Connection) → flags (touch m c) ≡ flags c
unfolding touch flags
flags-touch m c = refl

touch_authorized : (m : Machine) (c : Connection) → (touch m c).authorized ≡ c.authorized
unfolding touch
touch_authorized m c = refl

chosen_keyboard : (o : OptionMessage) (f : Flags) → (chosen_flags o f).keyboard ≡ f.keyboard
unfolding chosen_flags
chosen_keyboard o f = refl

pub flags_keyboard : (c : Connection) → (flags c).keyboard ≡ c.keyboard
unfolding flags
flags_keyboard c = refl

told_flags :
    (m : Machine) (o : OptionMessage) (c : Connection)
    → c.authorized ≡ true
    → flags (tell m (some (LoginConfig.option_message o)) c) ≡ chosen_flags o (flags c)
told_flags m o c a =
    ap flags (tell_option m o c a)
    ∙ update_option-flags o (touch m c)
    ∙ ap (chosen_flags o) (flags-touch m c)

told_authorized :
    (m : Machine) (o : OptionMessage) (c : Connection)
    → c.authorized ≡ true
    → (tell m (some (LoginConfig.option_message o)) c).authorized ≡ true
told_authorized m o c a =
    ap (λ (d : Connection). d.authorized) (tell_option m o c a)
    ∙ kept_authorized (update_option o (touch m c)) (touch m c) (options_keep o (touch m c))
    ∙ touch_authorized m c
    ∙ a

told_keyboard :
    (m : Machine) (o : OptionMessage) (c : Connection)
    → c.authorized ≡ true
    → (tell m (some (LoginConfig.option_message o)) c).keyboard ≡ c.keyboard
told_keyboard m o c a =
    sym (flags_keyboard _)
    ∙ ap (λ (f : Flags). f.keyboard) (told_flags m o c a)
    ∙ chosen_keyboard o (flags c)
    ∙ flags_keyboard c

-- What is stored is loaded again.
load-store :
    (peers : PeerConfig.Peers) (config : PeerConfig) (id : Text)
    → PeerConfig.load (PeerConfig.store peers true config id) id ≡ config
unfolding PeerConfig.load PeerConfig.store
load-store peers config id =
    rw (PeerConfig.load, HashMap.get-insert_self peers (PeerConfig.path id) config) refl

pub saved_config :
    (d : Desk) (config : PeerConfig) (lc : LoginConfigHandler)
    → d.can_store ≡ true
    → LoginConfig.load_config (LoginConfig.save_config d config lc) ≡ config
unfolding LoginConfig.load_config LoginConfig.save_config
saved_config d config lc w = rw (w) (load-store lc.peers config lc.id)

save_Agree :
    (d : Desk) (m : Machine) (t : Toggled) (lc : LoginConfigHandler) (c : Connection)
    → d.can_store ≡ true
    → Carries (LoginConfig.load_config lc) t
    → Agree lc c
    → Agree (LoginConfig.save_toggled d t lc).0 (tell m (LoginConfig.save_toggled d t lc).1 c)
unfolding LoginConfig.save_toggled Carries LoginConfig.save_config
save_Agree d m t lc c w carries a = record {
  stored = saved_config d t.0 lc w;
  keyboard = told_keyboard m t.1 c a.authorized ∙ a.keyboard;
  authorized = told_authorized m t.1 c a.authorized;
  synced = subst (Synced t.0) (sym (told_flags m t.1 c a.authorized)) (
      carries (flags c) (flags_keyboard c ∙ a.keyboard)
        (subst (λ (config : PeerConfig). Synced config (flags c)) (sym a.stored) a.synced));
}

block_Agree :
    (m : Machine) (n : ℕ) (lc : LoginConfigHandler) (c : Connection)
    → Agree lc c
    → Agree lc (
        tell m
          (some (LoginConfig.option_message (record LoginConfig.no_option { block_input = n })))
          c)
unfolding Carries
block_Agree m n lc c a =
    let o : OptionMessage = record LoginConfig.no_option { block_input = n } in
    record {
      stored = a.stored;
      keyboard = told_keyboard m o c a.authorized ∙ a.keyboard;
      authorized = told_authorized m o c a.authorized;
      synced =
          subst (Synced lc.config) (sym (told_flags m o c a.authorized))
            (block-Carries lc.config n (flags c) (flags_keyboard c ∙ a.keyboard) a.synced);
    }

other_Agree :
    (d : Desk) (name : Text) (lc : LoginConfigHandler) (c : Connection)
    → d.can_store ≡ true
    → Agree lc c
    → Agree (LoginConfig.toggle_other d name lc) c
unfolding LoginConfig.toggle_other LoginConfig.store_config LoginConfig.load_config
other_Agree d name lc c w a = record {
  stored = rw (w) (load-store lc.peers _ lc.id);
  keyboard = a.keyboard;
  authorized = a.authorized;
  synced = a.synced;
}

-- Each switch in the window leaves both sides agreed.
toggle-Agree :
    (d : Desk) (m : Machine) (name : Text) (lc : LoginConfigHandler) (c : Connection)
    → d.can_store ≡ true
    → Agree lc c
    → Agree
        (LoginConfig.toggle_option d name lc).0
        (tell m (LoginConfig.toggle_option d name lc).1 c)
unfolding LoginConfig.toggle_option tell
toggle-Agree d m name lc c w a =
    let config = LoginConfig.load_config lc in
    let Good : LoginConfigHandler × Option Message → Type 0 = λ r. Agree r.0 (tell m r.1 c) in
    let saved : (t : Toggled) → Carries config t → Good (LoginConfig.save_toggled d t lc) =
      λ t k. save_Agree d m t lc c w k a in
    if_both Good (name == LoginConfig.name_cursor) _ _ (saved _ (cursor-Carries config)) (
      if_both Good (name == LoginConfig.name_audio) _ _ (saved _ (audio-Carries config)) (
        if_both Good (name == LoginConfig.name_clipboard) _ _ (saved _ (clipboard-Carries config)) (
          if_both Good (name == LoginConfig.name_lock) _ _ (saved _ (lock-Carries config)) (
            if_both Good (name == LoginConfig.name_privacy) _ _ (saved _ (privacy-Carries config)) (
              if_both Good (name == LoginConfig.name_files) _ _ (saved _ (files-Carries config)) (
                if_both Good (name == LoginConfig.name_block) _ _ (block_Agree m _ lc c a) (
                  if_both Good (name == LoginConfig.name_unblock) _ _ (block_Agree m _ lc c a)
                    (other_Agree d name lc c w a))))))))

-- The switches that a user makes, one after the other.
unfoldable pub switches :
    Desk → Machine → List Text → LoginConfigHandler → Connection → LoginConfigHandler × Connection
switches d m [] lc c = (lc, c)
switches d m (name ∷ names) lc c =
    let r = LoginConfig.toggle_option d name lc in switches d m names r.0 (tell m r.1 c)

pub switches-Agree :
    (d : Desk) (m : Machine) (names : List Text) (lc : LoginConfigHandler) (c : Connection)
    → d.can_store ≡ true
    → Agree lc c
    → Agree (switches d m names lc c).0 (switches d m names lc c).1
unfolding switches
switches-Agree d m [] lc c w a = a
switches-Agree d m (name ∷ names) lc c w a =
    let r = LoginConfig.toggle_option d name lc in
    switches-Agree d m names r.0 (tell m r.1 c) w (toggle-Agree d m name lc c w a)
