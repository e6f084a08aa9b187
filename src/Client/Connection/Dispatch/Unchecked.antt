-- ===== src/Client/Connection/Dispatch/Unchecked.antt =====
-- The options of a login request take effect before the login is checked.
use kd_desk_tc.Prelude.{
  ◌≡◌, inl, inr, refl, sym, ap, subst, ◌∙◌, Bool, true, false, Option, none, some, [], ◌==◌, nat_eq,
  bool_eq, list_eq, Option-cases, Bool-cases, ==_refl, if_false, if_true,
}
use kd_desk_tc.Proto.{Text}
use kd_desk_tc.HashMap
use kd_desk_tc.Client.Proto.{Message, LoginRequest, OptionMessage}
use kd_desk_tc.Client.Service
use kd_desk_tc.Client.Service.{ConnInner, ServiceInner}
use kd_desk_tc.Client.Server
use kd_desk_tc.Client.Server.{Server, name_audio}
use kd_desk_tc.Client.Connection.{Connection, Machine, subscribe, audio_enabled}
use kd_desk_tc.Client.Connection.Options
use kd_desk_tc.Client.Connection.Options.{update_option}
use kd_desk_tc.Client.Connection.Login
use kd_desk_tc.Client.Connection.Dispatch.{on_message}
use kd_desk_tc.Client.Connection.Dispatch.Heard.{
  Ears, ears, sound, before_audio, ears-before_audio, ears-update_option, ears-ask, ears-log_in,
}
use kd_desk_tc.Client.Connection.Dispatch.Guard.{kept_authorized, prepare_keeps}

subscribe_found :
    (s : Server) (name : Text) (sp : ServiceInner) (conn : ConnInner)
    → HashMap.get s.services name ≡ some sp
    → Server.subscribe s name conn true ≡ Server.subscribe_service s sp name conn true
unfolding Server.subscribe
subscribe_found s name sp conn h = rw (Server.subscribe, h) refl

subscribe_new :
    (s : Server) (name : Text) (sp : ServiceInner) (conn : ConnInner)
    → HashMap.get sp.subscribes conn.id ≡ none
    → Server.subscribe_service s sp name conn true
      ≡ record s { services = HashMap.insert s.services name (Service.on_subscribe sp conn) }
unfolding Service.is_subed Server.subscribe_service
subscribe_new s name sp conn k = rw (HashMap.contains_key-none sp.subscribes conn.id k) refl

subscribed_service :
    (s : Server) (name : Text) (sp : ServiceInner) (conn : ConnInner)
    → HashMap.get s.services name ≡ some sp
    → HashMap.get sp.subscribes conn.id ≡ none
    → HashMap.get (Server.subscribe s name conn true).services name
      ≡ some (Service.on_subscribe sp conn)
subscribed_service s name sp conn h k =
    ap (λ (t : Server). HashMap.get t.services name)
      (subscribe_found s name sp conn h ∙ subscribe_new s name sp conn k)
    ∙ HashMap.get-insert_self s.services name (Service.on_subscribe sp conn)

on_subscribe_waits :
    (sp : ServiceInner) (conn : ConnInner)
    → sp.need_snapshot ≡ true
    → HashMap.get sp.subscribes conn.id ≡ none
    → Service.on_subscribe sp conn
      ≡ record sp { new_subscribes = HashMap.insert sp.new_subscribes conn.id conn }
unfolding Service.on_subscribe
on_subscribe_waits sp conn n k = rw (HashMap.contains_key-none sp.subscribes conn.id k, n) refl

waiting_subscriber :
    (sp : ServiceInner) (conn : ConnInner)
    → sp.need_snapshot ≡ true
    → HashMap.get sp.subscribes conn.id ≡ none
    → HashMap.get (Service.on_subscribe sp conn).new_subscribes conn.id ≡ some conn
waiting_subscriber sp conn n k =
    ap (λ (t : ServiceInner). HashMap.get t.new_subscribes conn.id) (on_subscribe_waits sp conn n k)
    ∙ HashMap.get-insert_self sp.new_subscribes conn.id conn

-- An option that turns the sound on.
sound_on : Connection → Connection
sound_on c = Options.update_audio (some false) c

sound_on_service :
    (c : Connection) (sp : ServiceInner)
    → c.audio ≡ true
    → sound c.server ≡ some sp
    → HashMap.get sp.subscribes c.inner.id ≡ none
    → sound (sound_on c).server ≡ some (Service.on_subscribe sp c.inner)
unfolding sound_on Options.update_audio audio_enabled subscribe sound
sound_on_service c sp ha hs hk = elim (Option-cases c.server) [
  | inl e ↦ absurd (let n : none ≡ some sp = sym (ap sound e) ∙ hs in cc)
  | inr (s, e) ↦ rw (e, ha) (subscribed_service s name_audio sp c.inner (sym (ap sound e) ∙ hs) hk)
]

heard :
    (c : Connection) (o : OptionMessage) (sp : ServiceInner)
    → Options.chosen o.disable_audio ≡ some false
    → c.audio ≡ true
    → sound c.server ≡ some sp
    → HashMap.get sp.subscribes c.inner.id ≡ none
    → sound (update_option o c).server ≡ some (Service.on_subscribe sp c.inner)
unfolding ears sound_on
heard c o sp ho ha hs hk =
    let d = before_audio o c in
    let same = ears-before_audio o c in
    let inner = ap (λ (x : Ears). x.inner) same in
    ap (λ (x : Ears). x.service) (ears-update_option o c)
    ∙ ap (λ (b : Option Bool). sound (Options.update_audio b d).server) ho
    ∙ sound_on_service d sp (ap (λ (x : Ears). x.audio) same ∙ ha)
        (ap (λ (x : Ears). x.service) same ∙ hs)
        (ap (λ (i : ConnInner). HashMap.get sp.subscribes i.id) inner ∙ hk)
    ∙ ap (λ (i : ConnInner). some (Service.on_subscribe sp i)) inner

login-ears :
    (m : Machine) (lr : LoginRequest) (c : Connection)
    → (lr.password == []) ≡ true
    → ears (Login.ask_and_log_in m lr c).0 ≡ ears c
unfolding Login.ask_and_log_in
login-ears m lr c h = elim (Bool-cases c.authorized) [
  | inl e ↦ ap (λ (r : Connection × Bool). ears r.0) (if_true c.authorized _ _ e)
  | inr e ↦
      ap (λ (r : Connection × Bool). ears r.0) (if_false c.authorized _ _ e)
      ∙ ears-log_in m lr (Login.ask m lr lr.union c) h
      ∙ ears-ask m lr lr.union c
]

prepared :
    (lr : LoginRequest) (o : OptionMessage) (c : Connection)
    → lr.option ≡ some o
    → ears (Login.prepare lr c) ≡ ears (update_option o c)
unfolding Login.prepare Login.apply_options ears
prepared lr o c h = ap (λ (x : Option OptionMessage). ears (Login.apply_options x c)) h

sound_of :
    (server : Option Server) (sp : ServiceInner)
    → sound server ≡ some sp
    → (t : Server) × (server ≡ some t) × (HashMap.get t.services name_audio ≡ some sp)
unfolding sound
sound_of none sp h = absurd (cc)
sound_of (some t) sp h = (t, refl, h)

-- A login request with an empty password whose options turn the sound on, whatever else it asks
-- for, leaves the connection unauthorized and yet makes it a subscriber of the audio service, which
-- waits for the next snapshot. The connection was not authorized, the sound is permitted, the
-- server has the audio service, which keeps new subscribers apart, and the connection was not
-- subscribed to it before.
pub on_message-listens :
    (m : Machine) (lr : LoginRequest) (o : OptionMessage) (c : Connection) (s : Server)
    (sp : ServiceInner)
    → lr.password ≡ []
    → lr.option ≡ some o
    → Options.chosen o.disable_audio ≡ some false
    → c.authorized ≡ false
    → c.audio ≡ true
    → c.server ≡ some s
    → HashMap.get s.services name_audio ≡ some sp
    → sp.need_snapshot ≡ true
    → HashMap.get sp.subscribes c.inner.id ≡ none
    → ((on_message m (Message.login_request lr) c).0.authorized ≡ false)
      × ((t : Server) × (tp : ServiceInner) × ((on_message m (Message.login_request lr) c).0.server
            ≡ some t)
          × (HashMap.get t.services name_audio ≡ some tp)
          × (HashMap.get tp.new_subscribes c.inner.id ≡ some c.inner))
unfolding on_message Login.on_login_request ears sound
on_message-listens m lr o c s sp hp ho hq ha hau hs hg hn hk =
    let same =
      login-ears m lr (Login.prepare lr c)
        (subst (λ (t : Text). (t == []) ≡ true) (sym hp) (==_refl {A = Text} [])) in
    let found =
      sound_of (on_message m (Message.login_request lr) c).0.server
        (Service.on_subscribe sp c.inner)
        (ap (λ (x : Ears). x.service) (same ∙ prepared lr o c ho)
          ∙ heard c o sp hq hau (ap sound hs ∙ hg) hk) in
    (
      ap (λ (x : Ears). x.authorized) same
          ∙ kept_authorized (Login.prepare lr c) c (prepare_keeps lr c)
          ∙ ha,
      (
        found.0,
        Service.on_subscribe sp c.inner,
        found.1,
        found.2,
        waiting_subscriber sp c.inner hn hk,
      ),
    )
