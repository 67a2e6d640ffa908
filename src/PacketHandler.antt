-- ===== src/PacketHandler.antt =====
-- packetHandler.c: the two threads between the applications, the modules that make control
-- messages, and the routing. One round of each loop; the sockets are lists.
pub mod Rounds
use node_identity_architetur.Base.{
  ℕ, Bool, Option, none, some, List, [], ◌∷◌, ◌++◌, ◌==◌, ◌||◌, if◌then◌else◌, get_or,
}
use node_identity_architetur.Config.{Config}
use node_identity_architetur.Message.{
  NidHeader, NidMsg, IpPacket, Payload, datagram, message, Packet, data_type, redirect, registry,
  redirect_core, rvs_update, rvs_ack, rvs_get, rvs_response,
}
use node_identity_architetur.Names.{NidMapper, NmEntry32, new_nm_entry, get_nm_entry32}
use node_identity_architetur.Nid.{Nid}
use node_identity_architetur.Run.{Run, ok, exited, ◌>>=◌}

-- The output thread: the header at the start of its static buffer, which one round leaves to the
-- next, the global `nidcore`, and the sockets.
pub record PhState : Type 0 where
  pub header : NidHeader
  pub nidcore : Nid
  pub names : NidMapper
  pub sp_nf2ph : List IpPacket
  pub sp_rvs2ph : List NidMsg
  pub sp_mo2ph : List NidMsg
  pub sp_gwt2ph : List NidMsg
  pub sp_ph2nr : List Packet

unfoldable pub write_ph2nr : NidHeader → Payload → PhState → PhState
write_ph2nr h p s = record s {
  header = h;
  sp_ph2nr = s.sp_ph2nr ++ record { header = h; payload = p } ∷ [];
}

-- A captured IP packet.
unfoldable pub output_data : IpPacket → PhState → Run PhState
output_data ip s = do
  found ← get_nm_entry32 ip.daddr s.names
  elim found [
    | some nm ↦ ok (
        write_ph2nr
          (record s.header {
            type = data_type;
            src_nid_gw = s.nidcore;
            dest_nid = nm.nid;
            dest_nid_gw = nm.nidgw;
          })
          (datagram ip) s)
    | none ↦ ok s
  ]

-- A message of the rendezvous modules or of the mobility thread.
unfoldable pub output_msg : NidMsg → PhState → PhState
output_msg m s =
    write_ph2nr (record s.header { type = m.type; src_nid = m.src_nid; dest_nid = m.dest_nid })
      (message m) s

-- A message of the gateway's talker.
unfoldable pub output_gwt : NidMsg → PhState → PhState
output_gwt m s =
    write_ph2nr
      (record {
        type = m.type;
        src_nid = m.src_nid;
        dest_nid = m.dest_nid;
        src_nid_gw = m.src_nid_gw;
        dest_nid_gw = m.dest_nid_gw;
      })
      (message m) s

-- `thread_ph_output`: the first socket that has something, in this order.
unfoldable pub ph_output : PhState → Run PhState
ph_output s = elim s.sp_nf2ph [
  | ip ∷ ips ↦ output_data ip (record s { sp_nf2ph = ips })
  | [] ↦ elim s.sp_rvs2ph [
    | m ∷ ms ↦ ok (output_msg m (record s { sp_rvs2ph = ms }))
    | [] ↦ elim s.sp_mo2ph [
      | m ∷ ms ↦ ok (output_msg m (record s { sp_mo2ph = ms }))
      | [] ↦ elim s.sp_gwt2ph [
        | m ∷ ms ↦ ok (output_gwt m (record s { sp_gwt2ph = ms }))
        | [] ↦ ok s
      ]
    ]
  ]
]

-- `updatePH`
unfoldable pub update_ph : Config → PhState → PhState
update_ph conf s = record s { nidcore = conf.nidcore }

-- The input thread: what it gives to the three raw sockets and to the control thread.
pub record PhInput : Type 0 where
  pub names : NidMapper
  pub raw_tcp : List Payload
  pub raw_udp : List Payload
  pub raw_icmp : List Payload
  pub sp_ph2co : List Payload

-- `ip->protocol`, the byte at offset 9; in a message that is byte 5 of `srcNID`.
unfoldable pub protocol : Payload → ℕ
protocol (datagram ip) = ip.protocol
protocol (message m) = get_or m.src_nid.u6_addr8 5 0

-- `sendto` on a raw socket: if it fails the process ends.
unfoldable pub raw_sendto : (sends : Bool) → Payload → List Payload → Run (List Payload)
raw_sendto sends p raw = if sends then ok (raw ++ p ∷ []) else exited

unfoldable pub input_data : (sends : Bool) → Payload → PhInput → Run PhInput
input_data sends p s =
    if protocol p == 6
    then (do raw ← raw_sendto sends p s.raw_tcp; ok (record s { raw_tcp = raw }))
    else if protocol p == 17
    then (do raw ← raw_sendto sends p s.raw_udp; ok (record s { raw_udp = raw }))
    else if protocol p == 1
    then (do raw ← raw_sendto sends p s.raw_icmp; ok (record s { raw_icmp = raw }))
    else ok s

-- The cases of the `switch` that write to the control thread.
unfoldable pub is_control : ℕ → Bool
is_control type =
    (type == redirect)
    || ((type == registry)
        || ((type == redirect_core)
            || ((type == rvs_update)
                || ((type == rvs_ack) || ((type == rvs_get) || (type == rvs_response))))))

-- The `switch` of the input thread.
unfoldable pub dispatch : (sends : Bool) → Packet → PhInput → Run PhInput
dispatch sends p s =
    if p.header.type == data_type
    then input_data sends p.payload s
    else if is_control p.header.type
    then ok (record s { sp_ph2co = s.sp_ph2co ++ p.payload ∷ [] })
    else ok s

-- `thread_ph_input`; `sends` says whether `sendto` succeeds.
unfoldable pub ph_input : (sends : Bool) → Packet → PhInput → Run PhInput
ph_input sends p s = do
  names ← new_nm_entry p.header.src_nid p.header.src_nid_gw s.names
  dispatch sends p (record s { names = names })
