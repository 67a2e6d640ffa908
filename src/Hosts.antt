-- ===== src/Hosts.antt =====
-- nidd.c: the daemon of a host in any of the four roles, from `main` on. The threads that the role
-- starts take rounds in any order over the tables and sockets that they share; an event says which
-- thread takes the next round, and what it is given.
pub mod Arrival
pub mod Begun
pub mod Climbing
pub mod Closing
pub mod Path
pub mod Routed
pub mod Rounds
pub mod Safe
use mathlib.Core.List.{Mem}
use node_identity_architetur.Base.{if◌then◌else◌, ℕ, ◌≡◌, Bool, true, List, [], ◌∷◌, ◌++◌, Option}
use node_identity_architetur.Config.{Config}
use node_identity_architetur.Control.{ControlState, control_rvs, control_gw, control_gw_core}
use node_identity_architetur.Daemon.{
  Daemon, NodeType, Switches, Thread, start_role, nidfilter_thr, ph_output_thr, ph_input_thr,
  nr_output_thr, nr_input_thr, nr_output_gw_thr, nr_input_gw_thr, nr_output_core_thr,
  rvs_update_thr, rvs_get_thr, rvs_proxy_recv_thr, rvs_proxy_send_thr, rvs2gw_thr, mobility_thr,
  control_thr, control_rvs_thr, control_gw_thr, control_gw_core_thr, gw_talker_thr, gw_listener_thr,
  gw_core_listener_thr, dht_update_thr, dht_get_thr, dhcp_thr, dnshandler_thr,
}
use node_identity_architetur.Dhcp.{thread_dhcp}
use node_identity_architetur.Dht.Fetch.{Server, Put, Fetch, thread_dht_update, thread_dht_get}
use node_identity_architetur.Dns.Proxy.{NidsPointer, Kernel, thread_dnshandler}
use node_identity_architetur.Forward.{
  NrState, NrInput, nr_output_gw_own, nr_output_gw_route, nr_output_core_own, nr_output_core_route,
  nr_input_gw,
}
use node_identity_architetur.FqdnTable.{init_fqdn_table}
use node_identity_architetur.Gateway.{GwState, gw_listener, gw_core_listener, gw_talker}
use node_identity_architetur.Mapper.{Mapper, init_conn_mapper}
use node_identity_architetur.Memory.{Buffer}
use node_identity_architetur.Message.{NidMsg, Packet}
use node_identity_architetur.Names.{init_nid_mapper}
use node_identity_architetur.Nid.{Nid, Nid32, CString}
use node_identity_architetur.Queue.{Clock, init_rvs_queue_table}
use node_identity_architetur.Routing.{init_rtable}
use node_identity_architetur.Run.{Run, ok, exited, ◌>>=◌}
use node_identity_architetur.RvsClient.{rvs_proxy_send, rvs_proxy_recv, rvs2gw}
use node_identity_architetur.Startup.{
  Node, Event, captured, handled_out, routed_out, arrived, handled_in, controlled, announced,
  resolved, addressed, heard_as, idle_node, round,
}
use node_identity_architetur.Table.{HashTable}

-- What the threads of all roles share: what a node has, the threads that run, the other sockets,
-- what has been sent to the rendezvous server and to the distributed table, the variables of the
-- thread that asks the latter, the configuration, and what the name server proxy keeps.
pub record Host : Type 0 where
  pub node : Node
  pub running : List Thread
  pub sp_nr : List Packet
  pub sp_rvs2gwt : List NidMsg
  pub sp_gwl2gwt : List NidMsg
  pub to_server : List NidMsg
  pub puts : List Put
  pub nid32 : Nid32
  pub aux : Buffer
  pub conf : Config
  pub server_address : Nid32
  pub fqdn_table : HashTable CString NidsPointer
  pub ans_ans : Buffer
  pub buffer : Buffer

-- What variables of the threads, and the address of the name server, hold before they are written.
pub record Unwritten : Type 0 where
  pub peer : Nid32
  pub nid32 : Nid32
  pub aux : Buffer
  pub server_address : Nid32
  pub ans_ans : Buffer
  pub buffer : Buffer

-- `main`, once it has read the configuration.
unfoldable pub start_host :
    (found : Thread → Bool) → Switches → Config → NodeType → Unwritten → Run Host
start_host found sw conf role old = do
  names ← init_nid_mapper sw.dns
  let cm : Mapper = init_conn_mapper conf (init_rvs_queue_table true)
  d ←
      start_role found sw conf role
        (record { names = names; connmap = cm.connmap; rt = init_rtable conf; lib_db = [] })
  ok (record {
    node = idle_node conf d.names (record cm { connmap = d.connmap }) d.rt old.peer;
    running = d.lib_db;
    sp_nr = [];
    sp_rvs2gwt = [];
    sp_gwl2gwt = [];
    to_server = [];
    puts = [];
    nid32 = old.nid32;
    aux = old.aux;
    conf = conf;
    server_address = old.server_address;
    fqdn_table = init_fqdn_table true;
    ans_ans = old.ans_ans;
    buffer = old.buffer;
  })

-- The rounds of the threads. The threads that a node has are in `Startup`; `controlled`, and the
-- events named after it, hold the message that a control thread sees where the bytes that reach it
-- were written as an IP packet.
pub data HostEvent : Type 0 where
  of_node : Event → HostEvent
  gw_routed_out : Clock → HostEvent
  gw_arrived : ℕ → Nid32 → Packet → HostEvent
  core_routed_out : Clock → HostEvent
  rvs_controlled : ℕ → NidMsg → HostEvent
  gw_controlled : ℕ → NidMsg → HostEvent
  core_controlled : ℕ → NidMsg → HostEvent
  gw_listened : ℕ → HostEvent
  core_listened : ℕ → Nid32 → HostEvent
  gw_talked : Nid32 → HostEvent
  proxy_sent : (sends : Bool) → HostEvent
  proxy_received : NidMsg → HostEvent
  passed_on : HostEvent
  dht_updated : CString → Server → HostEvent
  dht_asked : ℕ → Server → Option (List (List ℕ)) → HostEvent
  leased : List ℕ → HostEvent
  proxied : (alloc : Bool) → Kernel → HostEvent

unfoldable pub node_thread : Event → Thread
node_thread (captured ip) = nidfilter_thr
node_thread handled_out = ph_output_thr
node_thread (routed_out now) = nr_output_thr
node_thread (arrived now from p) = nr_input_thr
node_thread (handled_in sends) = ph_input_thr
node_thread (controlled now bytes) = control_thr
node_thread (announced locator) = rvs_update_thr
node_thread resolved = rvs_get_thr
node_thread (addressed now locator nlmsg_type) = mobility_thr

-- The thread whose round it is.
unfoldable pub thread_of : HostEvent → Thread
unfolding node_thread
thread_of (of_node e) = node_thread e
thread_of (gw_routed_out now) = nr_output_gw_thr
thread_of (gw_arrived now from p) = nr_input_gw_thr
thread_of (core_routed_out now) = nr_output_core_thr
thread_of (rvs_controlled now bytes) = control_rvs_thr
thread_of (gw_controlled now bytes) = control_gw_thr
thread_of (core_controlled now bytes) = control_gw_core_thr
thread_of (gw_listened now) = gw_listener_thr
thread_of (core_listened now locator) = gw_core_listener_thr
thread_of (gw_talked locator) = gw_talker_thr
thread_of (proxy_sent sends) = rvs_proxy_send_thr
thread_of (proxy_received m) = rvs_proxy_recv_thr
thread_of passed_on = rvs2gw_thr
thread_of (dht_updated core_ip server) = dht_update_thr
thread_of (dht_asked now server result) = dht_get_thr
thread_of (leased received) = dhcp_thr
thread_of (proxied alloc k) = dnshandler_thr

-- What the packet handler's socket holds comes first, then what is to be routed.
unfoldable pub output_round : (own route : Packet → NrState → Run NrState) → Host → Run Host
output_round own route h = elim h.node.ph.sp_ph2nr [
  | p ∷ ps ↦ do
    nr ← own p h.node.nr
    ok (record h { node = record h.node { nr = nr; ph = record h.node.ph { sp_ph2nr = ps } } })
  | [] ↦ elim h.sp_nr [
    | p ∷ ps ↦ do
      nr ← route p h.node.nr
      ok (record h { node = record h.node { nr = nr }; sp_nr = ps })
    | [] ↦ ok h
  ]
]

unfoldable pub input_round : ℕ → Nid → Nid32 → Packet → Host → Run Host
input_round now nid from p h = do
  r ←
      nr_input_gw now nid from p
        (record { connmap = h.node.nr.cm.connmap; sp_nr2ph = h.node.sp_nr2ph; sp_nr = h.sp_nr })
  ok (record h {
    node = record h.node {
      nr = record h.node.nr { cm = record h.node.nr.cm { connmap = r.connmap } };
      sp_nr2ph = r.sp_nr2ph;
    };
    sp_nr = r.sp_nr;
  })

-- A round of a control thread, which acts on a message as given.
unfoldable pub control_round : (NidMsg → ControlState → Run ControlState) → NidMsg → Host → Run Host
control_round act bytes h = elim h.node.sp_ph2co [
  | [] ↦ ok h
  | p ∷ ps ↦ do
    r ← act (heard_as p bytes) (record {
      connmap = h.node.nr.cm.connmap;
      queue_table = h.node.nr.cm.queue_table;
      registry_table = h.node.nr.registry;
      sp_co2rvs = h.node.sp_co2rvs;
      sp_co2gwl = h.node.sp_co2gwl;
    })
    ok (record h {
      node = record h.node {
        nr = record h.node.nr {
          cm = record h.node.nr.cm { connmap = r.connmap; queue_table = r.queue_table };
          registry = r.registry_table;
        };
        sp_co2rvs = r.sp_co2rvs;
        sp_co2gwl = r.sp_co2gwl;
        sp_ph2co = ps;
      };
    })
]

-- The part of the state that the threads of gwc.c use, and its return.
unfoldable pub gw_state : Host → GwState
gw_state h = record {
  rt = h.node.nr.rt;
  registry_table = h.node.nr.registry;
  sp_rvs2gwt = h.sp_rvs2gwt;
  sp_gwl2gwt = h.sp_gwl2gwt;
  sp_gwt2ph = h.node.ph.sp_gwt2ph;
}

unfoldable pub put_gw : GwState → Host → Host
put_gw g h = record h {
  node = record h.node {
    nr = record h.node.nr { rt = g.rt; registry = g.registry_table };
    ph = record h.node.ph { sp_gwt2ph = g.sp_gwt2ph };
  };
  sp_rvs2gwt = g.sp_rvs2gwt;
  sp_gwl2gwt = g.sp_gwl2gwt;
}

-- A round of a listener, which takes the message that a control thread has passed on.
unfoldable pub listen_round : (NidMsg → GwState → Run GwState) → Host → Run Host
unfolding gw_state put_gw
listen_round act h = elim h.node.sp_co2gwl [
  | [] ↦ ok h
  | m ∷ ms ↦ do
    g ← act m (gw_state h)
    ok (put_gw g (record h { node = record h.node { sp_co2gwl = ms } }))
]

unfoldable pub write_gwt2ph : NidMsg → Host → Host
write_gwt2ph m h = record h {
  node = record h.node { ph = record h.node.ph { sp_gwt2ph = h.node.ph.sp_gwt2ph ++ m ∷ [] } };
}

-- The threads of rvsc.c on the host of a rendezvous server. If `sendto` fails the process ends.
unfoldable pub send_round : (sends : Bool) → Host → Run Host
send_round sends h = elim h.node.sp_co2rvs [
  | [] ↦ ok h
  | m ∷ ms ↦
      if sends
      then ok (record h {
        node = record h.node { sp_co2rvs = ms };
        to_server = h.to_server ++ rvs_proxy_send m ∷ [];
      })
      else exited
]

unfoldable pub receive_round : NidMsg → Host → Host
receive_round m h =
    let out = rvs_proxy_recv m in
    record h {
      node = record h.node {
        ph = record h.node.ph { sp_rvs2ph = h.node.ph.sp_rvs2ph ++ out.sp_rvs2ph };
      };
      sp_rvs2gwt = h.sp_rvs2gwt ++ out.sp_rvs2gwt;
    }

unfoldable pub pass_round : Config → Host → Host
unfolding write_gwt2ph
pass_round conf h = elim h.sp_rvs2gwt [
  | [] ↦ h
  | m ∷ ms ↦ write_gwt2ph (rvs2gw conf m) (record h { sp_rvs2gwt = ms })
]

module _ (inet_ntop6 : Nid → CString) (inet_pton6 : CString → Option Nid)
    (inet_pton4 : CString → Option Nid32) where
  -- That a thread which does not go on is given no more rounds is left to the events.
  unfoldable pub dht_round : ℕ → Server → Option (List (List ℕ)) → Host → Run Host
  dht_round now server result h = do
    (s, goes_on) ←
        thread_dht_get inet_ntop6 inet_pton4 now server result
          (record { dht = h.node.nr.dht; nid32 = h.nid32; aux = h.aux })
    ok (record h {
      node = record h.node { nr = record h.node.nr { dht = s.dht } };
      nid32 = s.nid32;
      aux = s.aux;
    })

  -- `thread_dhcp` changes the configuration and what depends on it.
  unfoldable pub lease_round : List ℕ → Host → Run Host
  lease_round received h = do
    s ←
        thread_dhcp inet_ntop6 inet_pton6 inet_pton4 received
          (record { conf = h.conf; ph = h.node.ph; server_address = h.server_address })
    ok (record h {
      node = record h.node { ph = s.ph };
      conf = s.conf;
      server_address = s.server_address;
    })

  -- The name server proxy shares the name mapper.
  unfoldable pub proxy_round : (alloc : Bool) → Kernel → Host → Run Host
  proxy_round alloc k h = do
    r ← thread_dnshandler inet_pton6 alloc k (record {
      fqdn_table = h.fqdn_table;
      ans_ans = h.ans_ans;
      buffer = h.buffer;
      names = h.node.ph.names;
    })
    ok (record h {
      node = record h.node { ph = record h.node.ph { names = r.proxy.names } };
      fqdn_table = r.proxy.fqdn_table;
      ans_ans = r.proxy.ans_ans;
      buffer = r.proxy.buffer;
    })

  unfoldable pub host_round : HostEvent → Host → Run Host
  unfolding output_round input_round control_round gw_state put_gw listen_round send_round
      receive_round pass_round dht_round lease_round proxy_round
  host_round (of_node e) h = do node ← round h.conf e h.node; ok (record h { node = node })
  host_round (gw_routed_out now) h = output_round (nr_output_gw_own now) (nr_output_gw_route now) h
  host_round (gw_arrived now from p) h = input_round now h.conf.nid from p h
  host_round (core_routed_out now) h =
      output_round (nr_output_core_own now) (nr_output_core_route now) h
  host_round (rvs_controlled now bytes) h = control_round (control_rvs now) bytes h
  host_round (gw_controlled now bytes) h = control_round (control_gw now) bytes h
  host_round (core_controlled now bytes) h = control_round (control_gw_core now) bytes h
  host_round (gw_listened now) h = listen_round (gw_listener now) h
  host_round (core_listened now locator) h =
      listen_round (gw_core_listener now h.conf.nid locator) h
  host_round (gw_talked locator) h = ok (put_gw (gw_talker h.conf locator (gw_state h)) h)
  host_round (proxy_sent sends) h = send_round sends h
  host_round (proxy_received m) h = ok (receive_round m h)
  host_round passed_on h = ok (pass_round h.conf h)
  host_round (dht_updated core_ip server) h = do
    (puts, goes_on) ← thread_dht_update inet_ntop6 core_ip h.conf.nid server h.puts
    ok (record h { puts = puts })
  host_round (dht_asked now server result) h = dht_round now server result h
  host_round (leased received) h = lease_round received h
  host_round (proxied alloc k) h = proxy_round alloc k h

  -- The states that a host of the role comes to. A thread takes rounds once `main` has started it.
  pub data Comes (found : Thread → Bool) (sw : Switches) (role : NodeType) : Host → Type 0 where
    begun :
        (conf : Config) (old : Unwritten) (h : Host)
        → start_host found sw conf role old ≡ ok h
        → Comes found sw role h
    went :
        (e : HostEvent) (h h' : Host)
        → Comes found sw role h
        → Mem (thread_of e) h.running
        → host_round e h ≡ ok h'
        → Comes found sw role h'
