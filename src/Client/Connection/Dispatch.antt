-- ===== src/Client/Connection/Dispatch.antt =====
-- `on_message`: a login request and a test of the delay are answered at all times, anything else only
-- once the connection is authorized.
pub mod Guard
pub mod Guesses
pub mod Admits
pub mod Heard
pub mod Unchecked
use kd_desk_tc.Prelude.{
  ℕ, zero, suc, ◌+◌, ◌-◌, ◌/◌, ◌%◌, ◌^◌, Bool, true, false, not, ◌&&◌, ◌||◌, Option, none, some,
  List, [], ◌∷◌, ◌==◌, nat_eq, if◌then◌else◌,
}
use kd_desk_tc.Proto.{Text}
use kd_desk_tc.Client.Proto.{
  Message, TestDelay, MouseEvent, KeyEvent, KeyUnion, Clipboard, FileAction, FileResponse, Misc,
  OptionMessage,
}
use kd_desk_tc.Client.Connection.{
  Connection, Machine, Effect, Data, positive, act, queue, send_to_cm, input_mouse, input_key,
  file_transfer_enabled, is_some, touch,
}
use kd_desk_tc.Client.Connection.Options.{update_option}
use kd_desk_tc.Client.Connection.Login.{on_login_request}
use kd_desk_tc.Client.Connection.Files.{file_action, file_response}

-- `get_time() - t.time`, as an `i64`.
unfoldable pub latency : Machine → TestDelay → ℕ
latency m t = (m.get_time + 2 ^ 64 - t.time % 2 ^ 64) % 2 ^ 64

unfoldable pub on_test_delay : Machine → TestDelay → Connection → Connection
on_test_delay m t c =
    if t.from_client
    then queue (Message.test_delay t) c
    else (let c = record c { last_test_delay = 0 } in
        if positive 64 (latency m t) then act (Effect.test_latency (latency m t)) c else c)

-- `is_left_up`: the mask is an `i32`, shifted with its sign.
unfoldable pub is_left_up : MouseEvent → Bool
is_left_up evt = evt.mask / 8 == 1 && evt.mask % 8 == 2

unfoldable pub on_mouse_event : Machine → MouseEvent → Connection → Connection
on_mouse_event m me c =
    let c = touch m c in
    if not c.keyboard
    then c
    else if is_left_up me
    then input_mouse me c.inner.id (record c { click_time = m.get_time })
    else input_mouse me c.inner.id (record c { mouse_move_time = m.get_time })

-- The numbers of `Return` and `NumpadEnter` in `ControlKey`.
unfoldable pub is_enter : KeyEvent → Bool
is_enter evt = elim evt.union [ KeyUnion.control_key k ↦ k == 27 || k == 72 | _ ↦ false ]

unfoldable pub is_text : KeyUnion → Bool
is_text (KeyUnion.unicode n) = true
is_text (KeyUnion.seq s) = true
is_text u = false

unfoldable pub on_key_event : Machine → KeyEvent → Connection → Connection
on_key_event m ke c =
    let c = touch m c in
    if not c.keyboard
    then c
    else (let c = if is_enter ke then record c { click_time = m.get_time } else c in
        input_key ke (ke.press && not (is_text ke.union)) c)

unfoldable pub on_clipboard : Machine → Clipboard → Connection → Connection
on_clipboard m cb c =
    let c = touch m c in if c.clipboard then act (Effect.update_clipboard cb) c else c

unfoldable pub on_clip : Option Text → Connection → Connection
on_clip none c = c
on_clip (some clip) c = send_to_cm (Data.clipboard_file clip) c

unfoldable pub on_misc : Misc → Connection → Connection
on_misc (Misc.switch_display d) c = act (Effect.switch_display d.display) c
on_misc (Misc.chat_message t) c = send_to_cm (Data.chat_message t) c
on_misc (Misc.option o) c = update_option o c
on_misc (Misc.refresh_video r) c = if r then act Effect.refresh_video c else c
on_misc (Misc.video_received b) c = act Effect.video_frame_fetched c
on_misc other c = c

unfoldable pub on_authorized : Machine → Message → Connection → Connection
on_authorized m (Message.mouse_event me) c = on_mouse_event m me c
on_authorized m (Message.key_event ke) c = on_key_event m ke c
on_authorized m (Message.clipboard cb) c = on_clipboard m cb c
on_authorized m (Message.cliprdr clip) c =
    let c = touch m c in if file_transfer_enabled c then on_clip clip c else c
on_authorized m (Message.file_action fa) c =
    let c = touch m c in if is_some c.file_transfer then file_action m fa c else c
on_authorized m (Message.file_response fr) c = file_response fr (touch m c)
on_authorized m (Message.misc misc) c = on_misc misc (touch m c)
on_authorized m msg c = c

-- True means that the connection goes on.
unfoldable pub on_message : Machine → Message → Connection → Connection × Bool
on_message m (Message.login_request lr) c = on_login_request m lr c
on_message m (Message.test_delay t) c = (on_test_delay m t c, true)
on_message m msg c = (if c.authorized then on_authorized m msg c else c, true)
