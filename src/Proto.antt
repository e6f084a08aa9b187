-- ===== src/Proto.antt =====
-- The messages of KdDeskTC_Server/libs/hbb_common/protos/rendezvous.proto, as the server sees them
-- once parsed. Strings and byte fields are lists of bytes, an `int32` is an integer, and an enum
-- field is its number on the wire, which need not name a variant.
use kd_desk_tc.Prelude.{ℕ, Bool, false, List, [], Option, none, some, nat_eq, zero, suc}
use kd_desk_tc.Prelude.Int.{ℤ}

abbrev pub Text : Type 0
Text = List ℕ

pub record RegisterPeer : Type 0 where
  pub id : Text
  pub serial : ℤ

pub record RegisterPk : Type 0 where
  pub id : Text
  pub uuid : Text
  pub pk : Text
  pub old_id : Text

pub data RegisterPkResult : Type 0 where
  ok uuid_mismatch id_exists too_frequent invalid_id_format not_support server_error :
      RegisterPkResult

pub data NatType : Type 0 where
  unknown_nat asymmetric symmetric : NatType

-- `nat_type.enum_value()`
unfoldable pub enum_value : ℕ → Option NatType
enum_value zero = some unknown_nat
enum_value (suc zero) = some asymmetric
enum_value (suc (suc zero)) = some symmetric
enum_value (suc (suc (suc n))) = none

pub record PunchHoleRequest : Type 0 where
  pub id : Text
  pub nat_type : ℕ
  pub licence_key : Text
  pub conn_type : ℕ
  pub token : Text
  pub from_id : Text
  pub from_uuid : Text

pub record PunchHole : Type 0 where
  pub socket_addr : Text
  pub relay_server : Text
  pub nat_type : ℕ

pub record PunchHoleSent : Type 0 where
  pub socket_addr : Text
  pub id : Text
  pub relay_server : Text
  pub nat_type : ℕ
  pub version : Text

pub data Failure : Type 0 where
  id_not_exist offline license_mismatch license_overuse : Failure

pub data PunchUnion : Type 0 where
  unset : PunchUnion
  nat_type : NatType → PunchUnion
  is_local : Bool → PunchUnion

pub record PunchHoleResponse : Type 0 where
  pub socket_addr : Text
  pub pk : Text
  pub failure : Failure
  pub relay_server : Text
  pub union : PunchUnion
  pub other_failure : Text

pub record ConfigUpdate : Type 0 where
  pub serial : ℤ
  pub rendezvous_servers : List Text

pub record TestNatResponse : Type 0 where
  pub port : ℕ
  pub cu : Option ConfigUpdate

pub record RequestRelay : Type 0 where
  pub id : Text
  pub uuid : Text
  pub socket_addr : Text
  pub relay_server : Text
  pub secure : Bool
  pub licence_key : Text
  pub conn_type : ℕ
  pub token : Text

pub data RelayUnion : Type 0 where
  unset : RelayUnion
  id : Text → RelayUnion
  pk : Text → RelayUnion

pub record RelayResponse : Type 0 where
  pub socket_addr : Text
  pub uuid : Text
  pub relay_server : Text
  pub union : RelayUnion
  pub refuse_reason : Text
  pub version : Text

pub record FetchLocalAddr : Type 0 where
  pub socket_addr : Text
  pub relay_server : Text

pub record LocalAddr : Type 0 where
  pub socket_addr : Text
  pub local_addr : Text
  pub relay_server : Text
  pub id : Text
  pub version : Text

-- `rendezvous_message::Union`; the last stands for the messages that no handler looks into.
pub data RendezvousMessage : Type 0 where
  register_peer : RegisterPeer → RendezvousMessage
  register_peer_response : Bool → RendezvousMessage
  punch_hole_request : PunchHoleRequest → RendezvousMessage
  punch_hole : PunchHole → RendezvousMessage
  punch_hole_sent : PunchHoleSent → RendezvousMessage
  punch_hole_response : PunchHoleResponse → RendezvousMessage
  fetch_local_addr : FetchLocalAddr → RendezvousMessage
  local_addr : LocalAddr → RendezvousMessage
  configure_update : ConfigUpdate → RendezvousMessage
  register_pk : RegisterPk → RendezvousMessage
  register_pk_response : RegisterPkResult → RendezvousMessage
  software_update : Text → RendezvousMessage
  request_relay : RequestRelay → RendezvousMessage
  relay_response : RelayResponse → RendezvousMessage
  test_nat_request : ℤ → RendezvousMessage
  test_nat_response : TestNatResponse → RendezvousMessage
  peer_discovery : RendezvousMessage

-- Messages with the fields that `..Default::default()` leaves empty.
abbrev pub punch_hole_failure : Failure → RendezvousMessage
punch_hole_failure f = punch_hole_response (record {
  socket_addr = [];
  pk = [];
  failure = f;
  relay_server = [];
  union = PunchUnion.unset;
  other_failure = [];
})

abbrev pub relay_via : Text → RendezvousMessage
relay_via server = request_relay (record {
  id = [];
  uuid = [];
  socket_addr = [];
  relay_server = server;
  secure = false;
  licence_key = [];
  conn_type = 0;
  token = [];
})
