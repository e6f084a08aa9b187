-- ===== src/Client/Connection/Login.antt =====
-- `on_open`, `send_logon_response` and the part of `on_message` that answers a login request.
use kd_desk_tc.Prelude.{
  ℕ, ◌+◌, ◌/◌, ◌%◌, ◌^◌, Bool, true, false, not, ◌&&◌, ◌||◌, Option, none, some, List, [], ◌∷◌,
  ◌++◌, ◌==◌, nat_eq, list_eq, if◌then◌else◌, ltb,
}
use kd_desk_tc.Strings.{bytes, split}
use kd_desk_tc.Proto.{Text}
use kd_desk_tc.HashMap
use kd_desk_tc.Client.Proto.{
  Message, LoginRequest, LoginUnion, LoginResponse, PeerInfo, FileTransfer, PortForward,
  OptionMessage,
}
use kd_desk_tc.Client.Server
use kd_desk_tc.Client.Server.{name_audio, name_clipboard, name_cursor, name_pos}
use kd_desk_tc.Client.Connection.{
  Connection, Machine, Effect, Data, Fs, Failures, act, send, send_to_cm, send_fs, send_login_error,
  clipboard_enabled, audio_enabled, file_transfer_enabled, is_some, touch,
}
use kd_desk_tc.Client.Connection.Options.{update_option}

-- The whitelist, with the empty fields left out.
unfoldable pub nonempty : List Text → List Text
nonempty [] = []
nonempty (f ∷ fs) = let rest = nonempty fs in if f == [] then rest else f ∷ rest

unfoldable pub names_any : List Text → Bool
names_any [] = false
names_any (f ∷ fs) = (f == bytes "0.0.0.0") || names_any fs

unfoldable pub names_ip : Machine → Text → List Text → Bool
names_ip m ip [] = false
names_ip m ip (f ∷ fs) = elim (m.parse_ip f) [ none ↦ false | some i ↦ i == ip ] || names_ip m ip fs

unfoldable pub is_empty {ℓ} : {A : Type ℓ} → List A → Bool
is_empty [] = true
is_empty (x ∷ xs) = false

unfoldable pub blocked : Machine → Text → List Text → Bool
blocked m ip whitelist =
    not (is_empty whitelist) && not (names_any whitelist) && not (names_ip m ip whitelist)

-- `on_open`, for the IP address in its binary form. False means that the connection ends.
unfoldable pub on_open : Machine → Text → Connection → Connection × Bool
on_open m ip c =
    if not (m.flagex == bytes "1")
    then (c, false)
    else if blocked m ip (nonempty (split b',' (m.option (bytes "whitelist"))))
    then (act Effect.sleep (send_login_error (bytes "Your ip is blocked by the peer") c), false)
    else (send (Message.hash c.hash) (record c { ip = m.ip_to_string ip }), true)

unfoldable pub read_dir : Text → Bool → Connection → Connection
read_dir dir include_hidden c = send_fs (Fs.read_dir dir include_hidden) c

unfoldable pub add_if : Bool → Text → List Text → List Text
add_if true name names = name ∷ names
add_if false name names = names

-- The services that a new connection may not subscribe to; their order does not matter.
unfoldable pub noperms : Connection → List Text
noperms c = add_if (not c.keyboard && not c.show_remote_cursor) name_cursor (
    add_if (not c.show_remote_cursor) name_pos (
      add_if (not (clipboard_enabled c) || not c.keyboard) name_clipboard
        (add_if (not (audio_enabled c)) name_audio [])))

unfoldable pub add_connection : Connection → Connection
add_connection c = elim c.server [
  | none ↦ c
  | some s ↦ record c { server = some (Server.add_connection s c.inner (noperms c)) }
]

unfoldable pub peer_info : Machine → Text → List Text → ℕ → PeerInfo
peer_info m username displays current = record {
  username = username;
  hostname = m.hostname;
  platform = m.platform;
  version = m.version;
  uid = m.config_uid;
  sas_enabled = m.is_root;
  displays = displays;
  current_display = current;
}

-- The answer to a port forwarding.
unfoldable pub tunnel_info : Machine → PeerInfo
tunnel_info m = record {
  username = m.active_username;
  hostname = m.hostname;
  platform = m.platform;
  version = m.version;
  uid = [];
  sas_enabled = false;
  displays = [];
  current_display = 0;
}

-- A session for files: the test of whether the connection manager is there is a message to it.
unfoldable pub logon_files : Machine → FileTransfer → Connection → Connection
logon_files m ft c =
    let tested = if m.is_prelogin then c else send_to_cm Data.test c in
    let username = if m.is_prelogin || m.cm_is_gone then [] else m.active_username in
    let c = record (touch m tested) { authorized = true } in
    let c = send (Message.login_response (LoginResponse.peer_info (peer_info m username [] 0))) c in
    read_dir (if not (ft.dir == []) && m.system.is_dir ft.dir then ft.dir else []) ft.show_hidden c

unfoldable pub logon_screen : Machine → Connection → Connection
logon_screen m c =
    let c = act Effect.activate_screen (record (touch m c) { authorized = true }) in
    elim m.displays [
      | none ↦ send_login_error (bytes "X11 error") c
      | some d ↦ add_connection (
          send
            (Message.login_response
              (LoginResponse.peer_info (peer_info m m.active_username d.0 d.1)))
            c)
    ]

-- By what the session is for.
unfoldable pub logon_by : Machine → Option FileTransfer → Connection → Connection
logon_by m none c = logon_screen m c
logon_by m (some ft) c = logon_files m ft c

unfoldable pub send_logon_response : Machine → Connection → Connection
send_logon_response m c =
    if c.authorized
    then c
    else if is_some c.port_forward_socket
    then send (Message.login_response (LoginResponse.peer_info (tunnel_info m))) c
    else logon_by m c.file_transfer c

unfoldable pub try_start_cm : Text → Text → Text → Bool → Connection → Connection
try_start_cm peer_id name peer_uid authorized c =
    let c = record c { peer_id = peer_id; peer_name = name; peer_uid = peer_uid } in
    send_to_cm
      (Data.login (record {
        id = c.inner.id;
        is_file_transfer = is_some c.file_transfer;
        peer_id = peer_id;
        name = name;
        authorized = authorized;
        port_forward = c.port_forward_address;
        keyboard = c.keyboard;
        clipboard = c.clipboard;
        audio = c.audio;
        file = c.file;
        file_transfer_enabled = file_transfer_enabled c;
      }))
      c

unfoldable pub login_cm : LoginRequest → Bool → Connection → Connection
login_cm lr authorized c = try_start_cm lr.my_id lr.my_name lr.my_uid authorized c

-- `Config::get_peer_permission(id, "file")`
unfoldable pub get_peer_permission : Text → Connection → Text
get_peer_permission id c = elim (HashMap.get c.permission (id ++ bytes "->file")) [
  | none ↦ []
  | some v ↦ v
]

-- The first part of a login: what the session is for. False means that the connection ends.
unfoldable pub ask_files : Machine → LoginRequest → FileTransfer → Connection → Connection × Bool
ask_files m lr ft c =
    if not (m.option (bytes "enable-file-transfer") == [])
      || get_peer_permission lr.my_id c == bytes "0"
    then (act Effect.sleep (send_login_error (bytes "No permission of file transfer") c), false)
    else (record c { file_transfer = some ft }, true)

unfoldable pub is_rdp : PortForward → Bool
is_rdp pf = pf.host == bytes "RDP" && pf.port == 0

unfoldable pub forward_address : Machine → PortForward → Text
forward_address m pf =
    if is_rdp pf
    then bytes "localhost" ++ bytes ":" ++ m.show_int 3389
    else if pf.host == []
    then bytes "localhost" ++ bytes ":" ++ m.show_int pf.port
    else pf.host ++ bytes ":" ++ m.show_int pf.port

unfoldable pub failed_access : Machine → PortForward → Text
failed_access m pf =
    bytes "Failed to access remote "
    ++ (if is_rdp pf then bytes "RDP" else forward_address m pf)
    ++ bytes ", please make sure if it is open"

unfoldable pub ask_tunnel : Machine → PortForward → Connection → Connection × Bool
ask_tunnel m pf c =
    if not (m.option (bytes "enable-tunnel") == [])
    then (act Effect.sleep (send_login_error (bytes "No permission of IP tunneling") c), false)
    else let addr = forward_address m pf in
      let c = record c { port_forward_address = addr } in
      if m.tcp_connect addr
      then (record c { port_forward_socket = some addr }, true)
      else (send_login_error (failed_access m pf) c, true)

unfoldable pub ask : Machine → LoginRequest → LoginUnion → Connection → Connection × Bool
ask m lr LoginUnion.unset c = (c, true)
ask m lr (LoginUnion.file_transfer ft) c = ask_files m lr ft c
ask m lr (LoginUnion.port_forward pf) c = ask_tunnel m pf c

-- What the right password hashes to, for the salt and the challenge of this connection.
unfoldable pub expected : Machine → Connection → Text
expected m c = m.sha256 (m.sha256 (m.config_password ++ c.hash.salt) ++ c.hash.challenge)

unfoldable pub failures_of : Connection → Failures
failures_of c = elim (HashMap.get c.login_failures c.ip) [
  | none ↦ record { minute = 0; in_minute = 0; total = 0 }
  | some f ↦ f
]

-- The minute, which the source keeps in 32 bits.
unfoldable pub this_minute : Machine → ℕ
this_minute m = m.get_time / 60000 % 2 ^ 32

unfoldable pub count_failure : ℕ → Failures → Failures
count_failure time f =
    if f.minute == time
    then record f { in_minute = f.in_minute + 1; total = f.total + 1 }
    else record { minute = time; in_minute = 1; total = f.total + 1 }

unfoldable pub wrong_password : Machine → LoginRequest → Connection → Connection
wrong_password m lr c =
    let f = count_failure (this_minute m) (failures_of c) in
    let c = record c { login_failures = HashMap.insert c.login_failures c.ip f } in
    login_cm lr false (send_login_error (bytes "Wrong Password") c)

unfoldable pub forget_failures : Connection → Connection
forget_failures c =
    if (failures_of c).minute == 0
    then c
    else record c { login_failures = HashMap.remove c.login_failures c.ip }

unfoldable pub right_password : Machine → LoginRequest → Connection → Connection × Bool
right_password m lr c =
    let c = login_cm lr true (send_logon_response m (forget_failures c)) in
    (
      act (Effect.oplog (bytes "connected") (bytes "password")) c,
      not (is_some c.port_forward_socket),
    )

unfoldable pub check_password : Machine → LoginRequest → Connection → Connection × Bool
check_password m lr c =
    let f = failures_of c in
    if ltb 30 f.total
    then (send_login_error (bytes "Too many wrong password attempts") c, true)
    else if this_minute m == f.minute && ltb 6 f.in_minute
    then (send_login_error (bytes "Please try 1 minute later") c, true)
    else if expected m c == lr.password
    then right_password m lr c
    else (wrong_password m lr c, true)

unfoldable pub log_in : Machine → LoginRequest → Connection × Bool → Connection × Bool
log_in m lr (c, false) = (c, false)
log_in m lr (c, true) =
    if not (m.is_ip lr.username) && not (lr.username == m.config_id)
    then (send_login_error (bytes "Offline") c, true)
    else if lr.password == []
    then (login_cm lr false c, true)
    else check_password m lr c

unfoldable pub apply_options : Option OptionMessage → Connection → Connection
apply_options none c = c
apply_options (some o) c = update_option o c

-- What a login request changes before anything is checked.
unfoldable pub prepare : LoginRequest → Connection → Connection
prepare lr c = record (apply_options lr.option c) { video_ack_required = lr.video_ack_required }

unfoldable pub ask_and_log_in : Machine → LoginRequest → Connection → Connection × Bool
ask_and_log_in m lr c = if c.authorized then (c, true) else log_in m lr (ask m lr lr.union c)

unfoldable pub on_login_request : Machine → LoginRequest → Connection → Connection × Bool
on_login_request m lr c = ask_and_log_in m lr (prepare lr c)
