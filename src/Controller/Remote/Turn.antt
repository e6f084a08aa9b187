-- ===== src/Controller/Remote/Turn.antt =====
-- The main loop of a session in its window, one event after the other, and what comes before it and
-- behind it. How the stream is opened is left out.
use kd_desk_tc.Prelude.{
  ℕ, ◌-◌, ◌*◌, Bool, true, false, not, ◌||◌, Option, none, some, List, [], ◌∷◌, ◌++◌, if◌then◌else◌,
  leb,
}
use kd_desk_tc.Strings.{bytes}
use kd_desk_tc.Proto.{Text}
use kd_desk_tc.Client.Proto.{Message}
use kd_desk_tc.Client.Clipboard.{check_clipboard}
use kd_desk_tc.Client.Transfer as Transfer
use kd_desk_tc.Client.Transfer.{Reader, ReadResult}
use kd_desk_tc.Client.Connection.Login.{is_empty}
use kd_desk_tc.Client.Connection.Files.{answer, is_finished, remove_jobs}
use kd_desk_tc.Controller.Remote.{Remote, Station, Data, send, enqueue, show_msgbox}
use kd_desk_tc.Controller.Remote.Jobs.{update_jobs_status}
use kd_desk_tc.Controller.Remote.FromUi.{handle_msg_from_ui}
use kd_desk_tc.Controller.Remote.FromPeer.{handle_msg_from_peer}

-- A text that is on the clipboard before the session starts is noted and not sent.
unfoldable pub first_check : Station → Remote → Remote
first_check st r =
    if r.lc.is_file_transfer || r.lc.is_port_forward || not st.has_clipboard
    then r
    else record r { board = (check_clipboard st.zstd r.board).0 }

-- Once the stream is open, until the peer says otherwise.
unfoldable pub enable_all : Remote → Remote
enable_all r = record r { keyboard_enabled = true; clipboard_enabled = true; file_enabled = true }

unfoldable pub disable_all : Remote → Remote
disable_all r = record r {
  keyboard_enabled = false;
  clipboard_enabled = false;
  file_enabled = false;
}

-- What wakes the loop: bytes of the peer, parsed if they parse, the end or an error of the stream, a
-- request of the window, a message about files on the clipboard, and the timer. The thread that
-- watches the clipboard wakes on its own.
pub data Event : Type 0 where
  received : Option Message → Event
  closed : Event
  broken : Text → Event
  from_ui : Data → Event
  clip : Message → Event
  tick : Event
  clipboard_tick : Event

abbrev pub sec30 : ℕ
sec30 = 30 * 1000

unfoldable pub on_received : Station → Option Message → Remote → Remote × Bool
on_received st none r = (record r { last_recv_time = st.now }, true)
on_received st (some msg) r = handle_msg_from_peer st msg (record r { last_recv_time = st.now })

-- `fs::handle_read_jobs`: each job reads once. The sends succeed; the session ends when one fails.
unfoldable pub read_jobs : Station → List Reader → List Reader × List Message × List ℕ
read_jobs st [] = ([], [], [])
read_jobs st (job ∷ jobs) =
    let r = Transfer.read st.zstd st.system st.open_file job in
    let rest = read_jobs st jobs in
    (r.0 ∷ rest.0, answer r.0 r.1 ∷ rest.1, if is_finished r.1 then r.0.id ∷ rest.2 else rest.2)

unfoldable pub handle_read_jobs : Station → Remote → Remote
handle_read_jobs st r =
    let l = read_jobs st r.read_jobs in
    record r { sent = r.sent ++ l.1; read_jobs = remove_jobs l.2 l.0 }

unfoldable pub on_tick : Station → Remote → Remote × Bool
on_tick st r =
    if leb sec30 (st.now - r.last_recv_time)
    then (show_msgbox (bytes "error") (bytes "Connection Error") (bytes "Timeout") r, false)
    else if not (is_empty r.read_jobs)
    then (update_jobs_status st (handle_read_jobs st r), true)
    else (record r { fast_timer = false }, true)

-- The clipboard is watched while both sides allow it, in sessions for the screen.
unfoldable pub on_clipboard_tick : Station → Remote → Remote
on_clipboard_tick st r =
    if r.lc.is_file_transfer
      || r.lc.is_port_forward
      || not r.clipboard_enabled
      || not r.keyboard_enabled
      || r.lc.config.disable_clipboard
    then r
    else (let c = check_clipboard st.zstd r.board in
        let r = record r { board = c.0 } in
        elim c.1 [ none ↦ r | some msg ↦ enqueue (Data.message (Message.clipboard msg)) r ])

-- False means that the loop ends.
unfoldable pub turn : Station → Event → Remote → Remote × Bool
turn st (Event.received msg) r = on_received st msg r
turn st Event.closed r =
    (show_msgbox (bytes "error") (bytes "Connection Error") (bytes "Reset by the peer") r, false)
turn st (Event.broken err) r = (show_msgbox (bytes "error") (bytes "Connection Error") err r, false)
turn st (Event.from_ui d) r = handle_msg_from_ui st d r
turn st (Event.clip msg) r = (send msg r, true)
turn st Event.tick r = on_tick st r
turn st Event.clipboard_tick r = (on_clipboard_tick st r, true)

-- The loop, with what the machine answers at each event.
unfoldable pub io_loop : List (Station × Event) → Remote → Remote × Bool
io_loop [] r = (r, true)
io_loop ((st, e) ∷ es) r =
    let t = turn st e r in let rest = io_loop es t.0 in if t.1 then rest else t
