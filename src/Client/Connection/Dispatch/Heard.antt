-- ===== src/Client/Connection/Dispatch/Heard.antt =====
-- The audio service of a connection's server, and what the options other than the sound leave of it.
use kd_desk_tc.Prelude.{
  ℕ, ◌≡◌, inl, inr, refl, sym, ap, ◌∙◌, arith, Bool, true, false, ◌&&◌, ◌||◌, Option, none, some,
  [], ◌==◌, list_eq, if◌then◌else◌, Option-cases,
}
use kd_desk_tc.Proto.{Text}
use kd_desk_tc.HashMap
use kd_desk_tc.Client.Proto.{OptionMessage, LoginRequest, LoginUnion}
use kd_desk_tc.Client.Service
use kd_desk_tc.Client.Service.{ConnInner, ServiceInner}
use kd_desk_tc.Client.Server
use kd_desk_tc.Client.Server.{Server, name_audio, name_clipboard, name_cursor, name_pos}
use kd_desk_tc.Client.Connection.{
  Connection, Machine, act, send, send_to_cm, send_login_error, subscribe,
}
use kd_desk_tc.Client.Connection.Options
use kd_desk_tc.Client.Connection.Login

unfoldable pub sound : Option Server → Option ServiceInner
sound none = none
sound (some s) = HashMap.get s.services name_audio

-- What the subscription to the sound depends on.
pub record Ears : Type 0 where
  pub inner : ConnInner
  pub audio : Bool
  pub authorized : Bool
  pub service : Option ServiceInner

unfoldable pub ears : Connection → Ears
ears c = record {
  inner = c.inner;
  audio = c.audio;
  authorized = c.authorized;
  service = sound c.server;
}

subscribed_other :
    (s : Server) (name : Text) (conn : ConnInner) (b : Bool)
    → (name == name_audio) ≡ false
    → HashMap.get (Server.subscribe s name conn b).services name_audio
      ≡ HashMap.get s.services name_audio
unfolding Server.subscribe Server.subscribe_service
subscribed_other s name conn b n = elim (Option-cases (HashMap.get s.services name)) [
  | inl e ↦ rw (Server.subscribe, e) refl
  | inr (sp, e) ↦
      rw (Server.subscribe, e)
        (ground (
          arith,
          HashMap.get-insert s.services name (Service.on_subscribe sp conn) name_audio,
          HashMap.get-insert s.services name (Service.on_unsubscribe sp conn.id) name_audio,
        ))
]

subscribe-ears :
    (name : Text) (b : Bool) (c : Connection)
    → (name == name_audio) ≡ false
    → ears (subscribe name b c) ≡ ears c
unfolding ears sound subscribe
subscribe-ears name b c n = elim (Option-cases c.server) [
  | inl e ↦
      rw (subscribe, e)
        (ap (λ (x : Option ServiceInner). record (ears c) { service = x }) (ap sound e))
  | inr (s, e) ↦
      rw (subscribe, e)
        (ap (λ (x : Option ServiceInner). record (ears c) { service = x })
          (subscribed_other s name c.inner b n))
]

ears-quality : (q : Option ℕ) (c : Connection) → ears (Options.update_quality q c) ≡ ears c
unfolding ears Options.update_quality Options.set_quality act
ears-quality none c = refl
ears-quality (some q) c = refl

ears-custom : (q : ℕ) (c : Connection) → ears (Options.update_custom q c) ≡ ears c
unfolding ears Options.update_custom Options.set_quality act
ears-custom q c = ground arith

ears-lock : (b : Option Bool) (c : Connection) → ears (Options.update_lock b c) ≡ ears c
unfolding ears Options.update_lock
ears-lock none c = refl
ears-lock (some b) c = refl

ears-show : (b : Bool) (c : Connection) → ears (record c { show_remote_cursor = b }) ≡ ears c
unfolding ears
ears-show b c = refl

ears-cursor : (b : Option Bool) (c : Connection) → ears (Options.update_cursor b c) ≡ ears c
unfolding Options.update_cursor kd_desk_tc.Prelude.list_discrete
ears-cursor none c = refl
ears-cursor (some b) c =
    let c1 : Connection = record c { show_remote_cursor = b } in
    subscribe-ears name_pos b (subscribe name_cursor (c.keyboard || b) c1) refl
    ∙ subscribe-ears name_cursor (c.keyboard || b) c1 refl
    ∙ ears-show b c

ears-files : (b : Option Bool) (c : Connection) → ears (Options.update_files b c) ≡ ears c
unfolding ears Options.update_files send_to_cm act
ears-files none c = refl
ears-files (some b) c = refl

ears-clipboard : (b : Option Bool) (c : Connection) → ears (Options.update_clipboard b c) ≡ ears c
unfolding ears Options.update_clipboard kd_desk_tc.Prelude.list_discrete
ears-clipboard none c = refl
ears-clipboard (some b) c = subscribe-ears name_clipboard _ _ refl

ears-privacy : (b : Option Bool) (c : Connection) → ears (Options.update_privacy b c) ≡ ears c
unfolding ears Options.update_privacy Options.set_privacy act
ears-privacy none c = refl
ears-privacy (some b) c = ground arith

ears-block : (b : Option Bool) (c : Connection) → ears (Options.update_block b c) ≡ ears c
unfolding ears Options.update_block act
ears-block none c = refl
ears-block (some b) c = ground arith

-- All options but the sound, before it and behind it.
unfoldable pub before_audio : OptionMessage → Connection → Connection
before_audio o c = Options.update_cursor (Options.chosen o.show_remote_cursor) (
    Options.update_lock (Options.chosen o.lock_after_session_end) (
      Options.update_custom o.custom_image_quality
        (Options.update_quality (kd_desk_tc.Client.Proto.image_quality_value o.image_quality) c)))

pub ears-before_audio : (o : OptionMessage) (c : Connection) → ears (before_audio o c) ≡ ears c
unfolding before_audio
ears-before_audio o c = ears-cursor _ _ ∙ ears-lock _ _ ∙ ears-custom _ _ ∙ ears-quality _ _

pub ears-update_option :
    (o : OptionMessage) (c : Connection)
    → ears (Options.update_option o c)
      ≡ ears (Options.update_audio (Options.chosen o.disable_audio) (before_audio o c))
unfolding Options.update_option before_audio
ears-update_option o c = ears-block _ _ ∙ ears-privacy _ _ ∙ ears-clipboard _ _ ∙ ears-files _ _

-- What a request asks for, and an answer that needs no password.
pub ears-ask :
    (m : Machine) (lr : LoginRequest) (u : LoginUnion) (c : Connection)
    → ears (Login.ask m lr u c).0 ≡ ears c
unfolding ears Login.ask Login.ask_files Login.ask_tunnel send_login_error send act
ears-ask m lr LoginUnion.unset c = refl
ears-ask m lr (LoginUnion.file_transfer ft) c = ground arith
ears-ask m lr (LoginUnion.port_forward pf) c = ground arith

pub ears-log_in :
    (m : Machine) (lr : LoginRequest) (r : Connection × Bool)
    → (lr.password == []) ≡ true
    → ears (Login.log_in m lr r).0 ≡ ears r.0
unfolding ears Login.log_in Login.login_cm Login.try_start_cm send_to_cm send_login_error send act
ears-log_in m lr (c, false) h = refl
ears-log_in m lr (c, true) h = ground arith
