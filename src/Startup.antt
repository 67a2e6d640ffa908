-- ===== src/Startup.antt =====
-- nidd.c: the daemon of a node, from `main` on. Its threads take rounds in any order over the
-- tables that they share; an event says which thread takes the next round, and what it is given.
pub mod Exchange
pub mod Safe
pub mod Send
use node_identity_architetur.Base.{ℕ, ◌≡◌, Bool, true, false, Option, List, [], ◌∷◌, ◌++◌}
use node_identity_architetur.Config.{Config}
use node_identity_architetur.Control.{control}
use node_identity_architetur.Dht.{init_dhtable}
use node_identity_architetur.DhtQueue.{init_dht_queue_table}
use node_identity_architetur.Forward.{NrState, nr_output, nr_input}
use node_identity_architetur.Mapper.{Mapper, init_conn_mapper, static_cm_entry}
use node_identity_architetur.Message.{
  NidMsg, IpPacket, Payload, datagram, message, Packet, data_type,
}
use node_identity_architetur.Mobility.{read_event, mobility}
use node_identity_architetur.Names.{NidMapper, init_nid_mapper, new_nm_entry}
use node_identity_architetur.Nid.{Nid32}
use node_identity_architetur.PacketHandler.{PhState, ph_output, ph_input}
use node_identity_architetur.Queue.{Clock, init_rvs_queue_table}
use node_identity_architetur.Registry.{init_registry_table}
use node_identity_architetur.Routing.{Routing, init_rtable}
use node_identity_architetur.Run.{Run, ok, ◌>>=◌}
use node_identity_architetur.RvsClient.{zero_nid, rvs_update_msg, rvs_get_msg}
use node_identity_architetur.Table.{construct_hash_table}

-- The tables, the sockets, and the variables that the threads keep.
pub record Node : Type 0 where
  pub nr : NrState
  pub ph : PhState
  pub raw_tcp : List Payload
  pub raw_udp : List Payload
  pub raw_icmp : List Payload
  pub sp_nr2ph : List Packet
  pub sp_ph2co : List Payload
  pub sp_co2rvs : List NidMsg
  pub sp_co2gwl : List NidMsg
  pub count : ℕ

-- The threads' state when they start: sockets and variables are as `socketpair` and the threads'
-- own first lines leave them. `peer` is what the routing thread's `peer` holds before it is written;
-- a global table is empty, and of size 0, before it is constructed.
unfoldable pub idle_node : Config → NidMapper → Mapper → Routing → (peer : Nid32) → Node
idle_node conf names cm rt peer = record {
  nr = record {
    cm = cm;
    rt = rt;
    registry = init_registry_table;
    dht = init_dhtable (record {
      dhtable = construct_hash_table false 0;
      dht_queue_table = init_dht_queue_table true;
      sp_dht = [];
    });
    peer = peer;
    sent = [];
  };
  ph = record {
    header = record {
      type = data_type;
      src_nid = conf.nid;
      dest_nid = zero_nid;
      src_nid_gw = zero_nid;
      dest_nid_gw = zero_nid;
    };
    nidcore = conf.nidcore;
    names = names;
    sp_nf2ph = [];
    sp_rvs2ph = [];
    sp_mo2ph = [];
    sp_gwt2ph = [];
    sp_ph2nr = [];
  };
  raw_tcp = [];
  raw_udp = [];
  raw_icmp = [];
  sp_nr2ph = [];
  sp_ph2co = [];
  sp_co2rvs = [];
  sp_co2gwl = [];
  count = 0;
}

-- `main` of a node, up to the start of the threads.
unfoldable pub start_node : (dns : Bool) → Config → (peer : Nid32) → Run Node
unfolding idle_node
start_node dns conf peer = do
  names ← init_nid_mapper dns
  let cm : Mapper = init_conn_mapper conf (init_rvs_queue_table true)
  names' ← new_nm_entry conf.nidrvs conf.nidcore names
  t ← static_cm_entry conf.nidrvs conf.rvs_ip cm.connmap
  t' ← static_cm_entry conf.nidgw conf.gateway_ip t
  ok (idle_node conf names' (record cm { connmap = t' }) (init_rtable conf) peer)

-- The rounds of the threads. `controlled` holds the message that the control thread sees where the
-- bytes that reach it were written as an IP packet, `handled_in` whether `sendto` on a raw socket
-- succeeds, and `addressed` the type of the message that `recvmsg` reads, if it succeeds.
pub data Event : Type 0 where
  captured : IpPacket → Event
  handled_out : Event
  routed_out : Clock → Event
  arrived : ℕ → Nid32 → Packet → Event
  handled_in : (sends : Bool) → Event
  controlled : ℕ → NidMsg → Event
  announced : Nid32 → Event
  resolved : Event
  addressed : ℕ → Nid32 → Option ℕ → Event

unfoldable pub heard_as : Payload → NidMsg → NidMsg
heard_as (message m) bytes = m
heard_as (datagram ip) bytes = bytes

unfoldable pub write_rvs2ph : NidMsg → Node → Node
write_rvs2ph m s = record s { ph = record s.ph { sp_rvs2ph = s.ph.sp_rvs2ph ++ m ∷ [] } }

-- A thread whose socket is empty waits.
unfoldable pub round : Config → Event → Node → Run Node
round conf (captured ip) s =
    ok (record s { ph = record s.ph { sp_nf2ph = s.ph.sp_nf2ph ++ ip ∷ [] } })
round conf handled_out s = do ph ← ph_output s.ph; ok (record s { ph = ph })
round conf (routed_out now) s = elim s.ph.sp_ph2nr [
  | [] ↦ ok s
  | p ∷ ps ↦ do
    nr ← nr_output now p s.nr
    ok (record s { nr = nr; ph = record s.ph { sp_ph2nr = ps } })
]
round conf (arrived now from p) s = do
  r ←
      nr_input now conf.nid from p
        (record { connmap = s.nr.cm.connmap; sp_nr2ph = s.sp_nr2ph; sp_nr = [] })
  ok (record s {
    nr = record s.nr { cm = record s.nr.cm { connmap = r.connmap } };
    sp_nr2ph = r.sp_nr2ph;
  })
round conf (handled_in sends) s = elim s.sp_nr2ph [
  | [] ↦ ok s
  | p ∷ ps ↦ do
    r ← ph_input sends p (record {
      names = s.ph.names;
      raw_tcp = s.raw_tcp;
      raw_udp = s.raw_udp;
      raw_icmp = s.raw_icmp;
      sp_ph2co = s.sp_ph2co;
    })
    ok (record s {
      ph = record s.ph { names = r.names };
      raw_tcp = r.raw_tcp;
      raw_udp = r.raw_udp;
      raw_icmp = r.raw_icmp;
      sp_ph2co = r.sp_ph2co;
      sp_nr2ph = ps;
    })
]
round conf (controlled now bytes) s = elim s.sp_ph2co [
  | [] ↦ ok s
  | p ∷ ps ↦ do
    r ← control now (heard_as p bytes) (record {
      connmap = s.nr.cm.connmap;
      queue_table = s.nr.cm.queue_table;
      registry_table = s.nr.registry;
      sp_co2rvs = s.sp_co2rvs;
      sp_co2gwl = s.sp_co2gwl;
    })
    ok (record s {
      nr = record s.nr {
        cm = record s.nr.cm { connmap = r.connmap; queue_table = r.queue_table };
        registry = r.registry_table;
      };
      sp_co2rvs = r.sp_co2rvs;
      sp_co2gwl = r.sp_co2gwl;
      sp_ph2co = ps;
    })
]
round conf (announced locator) s = ok (write_rvs2ph (rvs_update_msg conf locator) s)
round conf resolved s = elim s.nr.cm.sp_cm2rvs [
  | [] ↦ ok s
  | nid ∷ nids ↦ ok (
      write_rvs2ph (rvs_get_msg conf nid)
        (record s { nr = record s.nr { cm = record s.nr.cm { sp_cm2rvs = nids } } }))
]
round conf (addressed now locator nlmsg_type) s = do
  newaddr ← read_event nlmsg_type
  r ← mobility now conf locator newaddr (record {
    count = s.count;
    cm = s.nr.cm;
    sp_mo2ph = s.ph.sp_mo2ph;
    sp_rvs2ph = s.ph.sp_rvs2ph;
  })
  ok (record s {
    nr = record s.nr { cm = r.cm };
    ph = record s.ph { sp_mo2ph = r.sp_mo2ph; sp_rvs2ph = r.sp_rvs2ph };
    count = r.count;
  })

-- The states that a node comes to. The configuration may be another in each round.
pub data Reachable : Node → Type 0 where
  started :
      (dns : Bool) (conf : Config) (peer : Nid32) (s : Node)
      → start_node dns conf peer ≡ ok s
      → Reachable s
  stepped :
      (conf : Config) (e : Event) (s s' : Node)
      → Reachable s
      → round conf e s ≡ ok s'
      → Reachable s'
