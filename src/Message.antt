-- ===== src/Message.antt =====
-- nid.h: the header of a packet and the control message. `type` is an `enum`, kept as its number,
-- since the values of `rvs_msg_type` and `nid_ctrl_type` meet in one field.
use node_identity_architetur.Base.{ℕ, List}
use node_identity_architetur.Nid.{Nid, Nid32}

pub record NidHeader : Type 0 where
  pub type : ℕ
  pub src_nid : Nid
  pub dest_nid : Nid
  pub src_nid_gw : Nid
  pub dest_nid_gw : Nid

-- `NID_msg`; `RVS_msg` has the same fields.
pub record NidMsg : Type 0 where
  pub type : ℕ
  pub src_nid : Nid
  pub dest_nid : Nid
  pub src_nid_gw : Nid
  pub dest_nid_gw : Nid
  pub nid : Nid
  pub ip : Nid32

-- A captured IP packet: the two fields of `struct iphdr` that the code reads, and all its bytes.
pub record IpPacket : Type 0 where
  pub protocol : ℕ
  pub daddr : Nid32
  pub bytes : List ℕ

-- What stands in a buffer behind the header: it was written as an IP packet or as a message.
pub data Payload : Type 0 where
  datagram : IpPacket → Payload
  message : NidMsg → Payload

-- A buffer.
pub record Packet : Type 0 where
  pub header : NidHeader
  pub payload : Payload

-- `enum nid_ctrl_type`
abbrev pub data_type : ℕ
data_type = 0

abbrev pub redirect : ℕ
redirect = 1

abbrev pub relocate : ℕ
relocate = 2

abbrev pub registry : ℕ
registry = 3

abbrev pub redirect_core : ℕ
redirect_core = 4

-- `enum rvs_msg_type`
abbrev pub rvs_update : ℕ
rvs_update = 5

abbrev pub rvs_ack : ℕ
rvs_ack = 6

abbrev pub rvs_get : ℕ
rvs_get = 7

abbrev pub rvs_response : ℕ
rvs_response = 8
