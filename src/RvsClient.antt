-- ===== src/RvsClient.antt =====
-- rvsc.c: the messages to and from the rendezvous server. One round of each thread takes the
-- message that it reads, and gives what it writes. The address of the host, which `get_locator`
-- asks the kernel for, is an argument.
pub mod RoundTrip
use node_identity_architetur.Base.{
  ℕ, Bool, true, false, List, [], ◌∷◌, ◌==◌, if◌then◌else◌, replicate,
}
use node_identity_architetur.Config.{Config}
use node_identity_architetur.Message.{NidMsg, rvs_update, rvs_ack, rvs_get, registry}
use node_identity_architetur.Nid.{Nid, Nid32}

-- The bytes of a message that `bzero` has cleared.
abbrev pub zero_nid : Nid
zero_nid = record { u6_addr8 = replicate 16 0 }

abbrev pub zero_msg : NidMsg
zero_msg = record {
  type = 0;
  src_nid = zero_nid;
  dest_nid = zero_nid;
  src_nid_gw = zero_nid;
  dest_nid_gw = zero_nid;
  nid = zero_nid;
  ip = 0;
}

-- `thread_rvs_proxy_send`: the message, field by field, goes to the server.
unfoldable pub rvs_proxy_send : NidMsg → NidMsg
rvs_proxy_send nmsg = record {
  type = nmsg.type;
  src_nid = nmsg.src_nid;
  dest_nid = nmsg.dest_nid;
  src_nid_gw = nmsg.src_nid_gw;
  dest_nid_gw = nmsg.dest_nid_gw;
  nid = nmsg.nid;
  ip = nmsg.ip;
}

-- What `thread_rvs_proxy_recv` writes to `sp_rvs2ph` and to `sp_rvs2gwt`.
pub record ProxyOut : Type 0 where
  pub sp_rvs2ph : List NidMsg
  pub sp_rvs2gwt : List NidMsg

-- The reply, turned round.
unfoldable pub turn_round : NidMsg → NidMsg
turn_round m = record {
  type = m.type;
  src_nid = m.dest_nid;
  dest_nid = m.src_nid;
  src_nid_gw = m.src_nid_gw;
  dest_nid_gw = m.dest_nid_gw;
  nid = m.nid;
  ip = m.ip;
}

unfoldable pub rvs_proxy_recv : NidMsg → ProxyOut
rvs_proxy_recv rvs_msg =
    let nmsg = turn_round rvs_msg in
    record { sp_rvs2ph = nmsg ∷ []; sp_rvs2gwt = if nmsg.type == rvs_ack then nmsg ∷ [] else [] }

-- The message that `thread_rvs_update` sends every RVS_UPDATE_TIMEOUT seconds.
unfoldable pub rvs_update_msg : Config → Nid32 → NidMsg
rvs_update_msg conf locator = record zero_msg {
  type = rvs_update;
  src_nid = conf.nid;
  nid = conf.nid;
  src_nid_gw = conf.nidcorehome;
  dest_nid = conf.nidrvs;
  ip = locator;
}

-- The message that `thread_rvs_get` sends for an identifier read from `sp_cm2rvs`.
unfoldable pub rvs_get_msg : Config → Nid → NidMsg
rvs_get_msg conf nid = record zero_msg {
  type = rvs_get;
  src_nid = conf.nid;
  dest_nid = conf.nidrvs;
  nid = nid;
}

-- `thread_rvs2gw`: an acknowledgement becomes a registration at the gateway.
unfoldable pub rvs2gw : Config → NidMsg → NidMsg
rvs2gw conf nmsg = record nmsg { type = registry; dest_nid = conf.nidgw }
