-- ===== src/Client/Connection/Lifecycle/Authorization.antt =====
-- The only ways in which the main loop authorizes a connection.
use kd_desk_tc.Prelude.{
  ℕ, ◌≡◌, ◌⊎◌, inl, inr, refl, sym, ap, ◌∙◌, arith, Bool, true, false, true≢false, ◌&&◌, none, some,
  List, [], ◌∷◌, ◌==◌, nat_eq, list_eq, if◌then◌else◌, ltb, Bool-cases, if_false, if_both,
}
use kd_desk_tc.Strings.{bytes}
use kd_desk_tc.Proto.{Text}
use kd_desk_tc.Client.Proto.{Message, LoginRequest, TestDelay}
use kd_desk_tc.Client.Connection.{
  Connection, Machine, Effect, Data, act, send, queue, send_to_cm, send_permission, subscribe,
}
use kd_desk_tc.Client.Connection.Files
use kd_desk_tc.Client.Connection.Dispatch
use kd_desk_tc.Client.Connection.Dispatch.Guard.{Granted, on_login_request_cases}
use kd_desk_tc.Client.Connection.Lifecycle
use kd_desk_tc.Client.Connection.Lifecycle.{Event, turn}

-- A function that leaves the authorization alone.
Neutral : (Connection → Connection) → Type 0
Neutral f = (c : Connection) → (f c).authorized ≡ c.authorized

subscribe_neutral :
    (name : Text) (b : Bool) (c : Connection) → (subscribe name b c).authorized ≡ c.authorized
unfolding subscribe
subscribe_neutral name b c = ground arith

switch_neutral :
    (name : Text) (b : Bool) (c : Connection)
    → (Lifecycle.switch_permission name b c).authorized ≡ c.authorized
unfolding Lifecycle.switch_permission Lifecycle.set_peer_permission send_permission send send_to_cm
    act
switch_neutral name b c = elim (Bool-cases (name == bytes "keyboard")) [
  | inl e ↦ rw (e) (subscribe_neutral _ _ _)
  | inr e ↦ elim (Bool-cases (name == bytes "clipboard")) [
    | inl f ↦ rw (e, f) (subscribe_neutral _ _ _)
    | inr f ↦ elim (Bool-cases (name == bytes "audio")) [
      | inl g ↦ rw (e, f, g) (subscribe_neutral _ _ _)
      | inr g ↦ elim (Bool-cases (name == bytes "file")) [
        | inl h ↦ rw (e, f, g, h) refl
        | inr h ↦ rw (e, f, g, h) refl
      ]
    ]
  ]
]

remove_neutral : (c : Connection) → (Lifecycle.remove_connection c).authorized ≡ c.authorized
unfolding Lifecycle.remove_connection
remove_neutral c = ground arith

lock_neutral : (b : Bool) (c : Connection) → (Lifecycle.lock_at_end b c).authorized ≡ c.authorized
unfolding Lifecycle.lock_at_end act
lock_neutral b c = ground arith

password_neutral :
    (m : Machine) (c : Connection) → (Lifecycle.change_password m c).authorized ≡ c.authorized
unfolding Lifecycle.change_password act
password_neutral m c = ground arith

closing_neutral :
    (c : Connection) → (Lifecycle.take_socket (send_to_cm Data.close c)).authorized ≡ c.authorized
unfolding Lifecycle.take_socket send_to_cm act
closing_neutral c = refl

logged_neutral : (e : Effect) (c : Connection) → (act e c).authorized ≡ c.authorized
unfolding act
logged_neutral e c = refl

sent_neutral : (msg : Message) (c : Connection) → (send msg c).authorized ≡ c.authorized
unfolding send act
sent_neutral msg c = refl

on_close_neutral :
    (m : Machine) (b : Bool) (c : Connection) → (Lifecycle.on_close m b c).authorized ≡ c.authorized
unfolding Lifecycle.on_close
on_close_neutral m b c =
    password_neutral m _
    ∙ closing_neutral _
    ∙ lock_neutral b _
    ∙ remove_neutral _
    ∙ logged_neutral _ c

send_each_neutral :
    (msgs : List Message) (c : Connection) → (Files.send_each msgs c).authorized ≡ c.authorized
unfolding Files.send_each send act
send_each_neutral [] c = refl
send_each_neutral (x ∷ xs) c = send_each_neutral xs (send x c)

read_on_neutral : (m : Machine) (c : Connection) → (Lifecycle.read_on m c).authorized ≡ c.authorized
unfolding Lifecycle.read_on Files.handle_read_jobs
read_on_neutral m c = ground (arith, send_each_neutral (Files.read_jobs m c.read_jobs).1 c)

send_or_close_neutral :
    (m : Machine) (msg : Message) (b : Bool) (c : Connection)
    → (Lifecycle.send_or_close m msg b c).0.authorized ≡ c.authorized
unfolding Lifecycle.send_or_close
send_or_close_neutral m msg true c = sent_neutral msg c
send_or_close_neutral m msg false c = on_close_neutral m false c

delay_neutral :
    (m : Machine) (t : TestDelay) (c : Connection)
    → (Dispatch.on_test_delay m t c).authorized ≡ c.authorized
unfolding Dispatch.on_test_delay queue act
delay_neutral m t c = ground arith

check_delay_neutral :
    (m : Machine) (n : ℕ) (c : Connection)
    → (Lifecycle.check_delay m n c).0.authorized ≡ c.authorized
unfolding Lifecycle.check_delay queue act
check_delay_neutral m n c = ground (arith, on_close_neutral m true c)

-- The outcomes of one event for a connection that is not authorized.
Outcome : Machine → Event → Connection → Connection → Type 0
Outcome m e c d =
    (e ≡ Event.manager Data.authorize)
    ⊎ ((lr : LoginRequest) × (e ≡ Event.received (some (some (Message.login_request lr))))
        × Granted m lr c)
    ⊎ (d.authorized ≡ c.authorized)

manager_outcome :
    (m : Machine) (d : Data) (c : Connection)
    → Outcome m (Event.manager d) c (Lifecycle.from_cm m d c).0
unfolding Outcome Lifecycle.from_cm send act
manager_outcome m Data.authorize c = inl refl
manager_outcome m Data.close c = inr (inr (on_close_neutral m false _))
manager_outcome m (Data.switch_permission name b) c = inr (inr (switch_neutral name b c))
manager_outcome m (Data.chat_message t) c = inr (inr refl)
manager_outcome m (Data.raw_message t) c = inr (inr refl)
manager_outcome m (Data.clipboard_file t) c = inr (inr (ground (arith)))
manager_outcome m (Data.login d) c = inr (inr refl)
manager_outcome m (Data.fs d) c = inr (inr refl)
manager_outcome m Data.test c = inr (inr refl)
manager_outcome m (Data.clipboard_file_enabled b) c = inr (inr refl)
manager_outcome m Data.other c = inr (inr refl)

-- Other messages reach nothing in a connection that is not authorized.
if_authorized :
    (m : Machine) (msg : Message) (c : Connection)
    → c.authorized ≡ false
    → (if c.authorized then Dispatch.on_authorized m msg c else c) ≡ c
if_authorized m msg c h = if_false c.authorized (Dispatch.on_authorized m msg c) c h

other :
    (m : Machine) (msg : Message) (c : Connection)
    → c.authorized ≡ false
    → Outcome m
        (Event.received (some (some msg)))
        c
        (if c.authorized then Dispatch.on_authorized m msg c else c)
unfolding Outcome
other m msg c h = inr (inr (ap (λ (d : Connection). d.authorized) (if_authorized m msg c h)))

message_outcome :
    (m : Machine) (msg : Message) (c : Connection)
    → c.authorized ≡ false
    → Outcome m (Event.received (some (some msg))) c (Dispatch.on_message m msg c).0
unfolding Outcome Dispatch.on_message
message_outcome m (Message.login_request lr) c h = elim (on_login_request_cases m lr c) [
  | inl g ↦ inr (inl (lr, refl, g))
  | inr f ↦ inr (inr f)
]
message_outcome m (Message.test_delay t) c h = inr (inr (delay_neutral m t c))
message_outcome m (Message.login_response r) c h = other m _ c h
message_outcome m (Message.hash x) c h = other m _ c h
message_outcome m (Message.mouse_event x) c h = other m _ c h
message_outcome m (Message.key_event x) c h = other m _ c h
message_outcome m (Message.clipboard x) c h = other m _ c h
message_outcome m (Message.cliprdr x) c h = other m _ c h
message_outcome m (Message.file_action x) c h = other m _ c h
message_outcome m (Message.file_response x) c h = other m _ c h
message_outcome m (Message.misc x) c h = other m _ c h
message_outcome m (Message.video_frame x) c h = other m _ c h
message_outcome m (Message.audio_frame x) c h = other m _ c h
message_outcome m (Message.other x) c h = other m _ c h

turn_outcome :
    (m : Machine) (e : Event) (c : Connection) → c.authorized ≡ false → Outcome m e c (turn m e c).0
unfolding Outcome turn Lifecycle.receive Lifecycle.close_message Lifecycle.send_video
turn_outcome m (Event.manager d) c h = manager_outcome m d c
turn_outcome m (Event.received none) c h = inr (inr (on_close_neutral m true c))
turn_outcome m (Event.received (some none)) c h = inr (inr refl)
turn_outcome m (Event.received (some (some msg))) c h = message_outcome m msg c h
turn_outcome m Event.idle_check c h = inr (
    inr (
      if_both (λ (r : Connection × Lifecycle.Turn). r.0.authorized ≡ c.authorized)
        (Lifecycle.check_client_idle_timeout m c) _ _
        (on_close_neutral m false _ ∙ sent_neutral _ c) refl))
turn_outcome m Event.timer c h = inr (inr (read_on_neutral m c))
turn_outcome m (Event.video msg b) c h = inr (
    inr (
      send_or_close_neutral m msg b _
      ∙ if_both (λ (d : Connection). d.authorized ≡ c.authorized) c.video_ack_required c _ refl
          (logged_neutral _ c)))
turn_outcome m (Event.queued n msg b) c h = inr (
    inr (
      if_both (λ (r : Connection × Lifecycle.Turn). r.0.authorized ≡ c.authorized)
        (ltb 1000 n && Lifecycle.is_audio_frame msg) _ _ refl (send_or_close_neutral m msg b c)))
turn_outcome m (Event.delay_check n) c h = inr (inr (check_delay_neutral m n c))

-- If an event of the main loop authorizes a connection that was not authorized, then the event is
-- the acceptance by the connection manager, or it is a login request whose password is the hash
-- that this connection expects, from an address with at most 30 failures in all and at most 6 in
-- the current minute.
pub turn-authorizes :
    (m : Machine) (e : Event) (c : Connection)
    → c.authorized ≡ false
    → (turn m e c).0.authorized ≡ true
    → (e ≡ Event.manager Data.authorize)
      ⊎ ((lr : LoginRequest) × (e ≡ Event.received (some (some (Message.login_request lr))))
          × Granted m lr c)
unfolding Outcome
turn-authorizes m e c h t = elim (turn_outcome m e c h) [
  | inl x ↦ inl x
  | inr (inl x) ↦ inr x
  | inr (inr x) ↦ absurd (true≢false (sym t ∙ x ∙ h))
]
