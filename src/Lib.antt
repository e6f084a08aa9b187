-- ===== src/Lib.antt =====
-- Verification of KdDeskTC, a remote assistance system: the rendezvous server, the relay server,
-- and what they share with the client.
--
-- A controlled machine registers its id, its address and its public key with the rendezvous server
-- by UDP, and repeats this to stay online. A machine that wants to connect asks the server for an
-- id, by UDP or on a TCP or WebSocket connection. The server tells the registered machine, which
-- punches a hole or fetches its local address and answers; the answer goes back by the connection
-- that waits for it, or both sides meet on a relay server. TCP streams are cut into frames by a
-- codec, and addresses in messages are mangled.
--
-- Bits, Prelude, Strings and HashMap are the shared ground: bitwise operations on numbers, tests,
-- lists, splitting of texts, and `std::collections::HashMap` as a list of pairs in no particular
-- order. The other files model code below KdDeskTC_Server:
--
--   Codec        libs/hbb_common/src/bytes_codec.rs: `BytesCodec`, whose state is a record. A buffer
--                is a list of bytes, and each function returns the buffer that it leaves.
--   Mangle       libs/hbb_common/src/lib.rs: `AddrMangle`.
--   Net          the addresses of the standard library.
--   Proto        libs/hbb_common/protos/rendezvous.proto: the messages, once parsed. A message that
--                does not parse is dropped by every handler.
--   World        the clocks, random keys, printing, JSON, signing and sockets that a handler uses,
--                as parameters.
--   Database     src/database.rs: the statements, on a list of rows.
--   Peer         src/peer.rs: `PeerMap`.
--   Blocker      src/rendezvous_server.rs: `check_ip_blocker`.
--   Rendezvous   src/rendezvous_server.rs: the state of `RendezvousServer` (State) and its handlers,
--                in a monad that passes the state on and returns, fails or panics. Relays:
--                `get_servers` of src/common.rs, `parse_relay_servers`, `get_relay_server`, `is_lan`;
--                Register: `update_addr` and the registration of keys; Forward: `send_to_tcp`,
--                `send_to_sink`, `get_pk`, `handle_hole_sent`, `handle_local_addr`; Punch:
--                `handle_punch_hole_request` and its callers; Udp: `handle_udp`; Tcp: `handle_tcp`
--                and `handle_listener_inner`; Commands: `check_cmd` and the queue of `io_loop`.
--   Relay        src/relay_server.rs: Commands has `check_cmd`, `check_params` and the files that
--                `start` reads; Pairs `handle_connection` and `make_pair_`, split where it waits;
--                Session the loop `relay` on a list of events, with its local variables as a
--                record. `f64` and its operations are parameters (Relay/State).
--
-- Client is the controlled side of a session, below KdDeskTC_Client. A connection logs in with a
-- password, is subscribed to the services of the server (sound, screen, clipboard, cursor), and from
-- then on sends input and moves files; the connection manager, another process, asks its user and
-- writes files. The code for Windows is modelled, which is what the client builds for:
--
--   Proto        libs/hbb_common/protos/message.proto: the messages of a session, once parsed.
--   Service      src/server/service.rs: the maps of subscribers (Service), the pauses of `run`
--                (Backoff).
--   Server       src/server.rs: `Server` and its tables; Secure has the key exchange with which
--                `create_tcp_connection` begins.
--   Keys         the messages of the key exchange, what one side of it comes to, and libsodium as a
--                parameter, for both sides.
--   Clipboard    src/common.rs and src/server/clipboard_service.rs: the texts of the clipboard, for
--                both sides.
--   Files        libs/hbb_common/src/fs.rs: `read_dir` and `get_recursive_files`.
--   Compress     libs/hbb_common/src/compress.rs, with zstd as a parameter.
--   Transfer     libs/hbb_common/src/fs.rs: `TransferJob`, which reads in Transfer and writes in Write,
--                on the files of Disk.
--   Connection   src/server/connection.rs: the state of a connection and the effects of its handlers;
--                Options has `update_option`, Login `on_open` and what answers a login request, Files
--                the file actions and `handle_read_jobs`, Dispatch `on_message`, Lifecycle `start`, the
--                branches of its loop and `on_close`.
--
-- Controller is the side that controls, below KdDeskTC_Client too. A window opens a stream to a machine,
-- exchanges a key with it, answers its greeting with a password, and then passes on what its user
-- does and shows what the machine sends. The statements about both sides put the functions of Client
-- and Controller together:
--
--   PeerConfig   libs/hbb_common/src/config.rs: `PeerConfig`, with the files of all peers as a map.
--   LoginConfig  src/client.rs: `LoginConfigHandler`. Stored is the handler and what it stores, Toggles
--                the options that the window switches, Messages what is told to the peer and what its
--                answer leaves.
--   Login        src/client.rs: `handle_hash`, `handle_login_from_ui` and what else answers the peer in
--                a login.
--   Secure       src/client.rs: `secure_connection`, with the keys of an exchange as a parameter.
--   Remote       src/ui/remote.rs: `Remote`, with what it sends, queues and shows in lists. Jobs has the
--                states of jobs, FromUi `handle_msg_from_ui`, FromPeer `handle_msg_from_peer`, Turn the
--                branches of `io_loop` and the thread of the clipboard.
--
-- Strings are lists of bytes, times are milliseconds of one clock, and an `Instant` before the start
-- of the clock does not exist. A handler runs as one step: the locks of the source are held for
-- single operations, and the interleavings of spawned tasks are not modelled. What is sent is
-- recorded in the state. Loops are recursions on their input. `drain`, which calls `decode` until
-- more bytes are wanted, has fuel: a frame that starts takes a byte of the buffer at least, and one
-- frame may have been started before, so the length of the buffer and two are enough, which
-- Codec/Stream/Drain shows.
--
-- `read_dir_recursive` has fuel for how deep directories are nested. Reading a job to its end takes one
-- read for each byte, one for each file and one more at most, which Client/Transfer/Progress shows.
--
-- Not modelled: the rest of the main loop and the start of the servers, the wire format of protobuf,
-- the cipher of an encrypted stream, how the client registers and opens its streams (the mediator,
-- `Client::connect` and relaying), and its threads, sockets, capture, decoding, input, drawing and
-- platform code.
pub mod Prelude
pub mod Bits
pub mod Strings
pub mod Codec
pub mod HashMap
pub mod Net
pub mod Mangle
pub mod Blocker
pub mod Proto
pub mod World
pub mod Database
pub mod Peer
pub mod Rendezvous
pub mod Relay
pub mod Client
pub mod Controller
