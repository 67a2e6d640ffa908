-- ===== src/Tests/Hosts.antt =====
-- A gateway from its start, a packet that passes through one, and its end.
use mathlib.Core.List.{Mem, mem-cons_self, mem-cons_of_mem}
use node_identity_architetur.Base.{◌≡◌, refl, Bool, Option, true, false, none, List, [], ◌∷◌, ◌++◌}
use node_identity_architetur.Daemon.{
  Switches, Thread, gateway_role, nidfilter_thr, dhcp_thr, later_threads, gateway_threads,
}
use node_identity_architetur.Daemon.Libs.{threads_of}
use node_identity_architetur.Forward.Core.{core_hop, sent_to}
use node_identity_architetur.Forward.Output.{routed}
use node_identity_architetur.Hosts.Begun.{IsHost, start_host_lem}
use node_identity_architetur.Hosts.Closing.{Emptied, catch_int, Comes-catch_int}
use node_identity_architetur.Hosts.Routed.{arrived-forwarded, arrived-core_forwarded}
use node_identity_architetur.Hosts.Safe.{Comes-host_round}
use node_identity_architetur.Hosts.{
  Host, of_node, gw_routed_out, gw_arrived, core_routed_out, Unwritten, thread_of, host_round,
  Comes, begun, went,
}
use node_identity_architetur.Message.{Payload}
use node_identity_architetur.Nid.{Nid, CString, nid_key, bytes_eq}
use node_identity_architetur.Run.{Returns, Ends-Returns, ◌>>=◌}
use node_identity_architetur.Startup.Safe.{IsNode}
use node_identity_architetur.Startup.{captured}
use node_identity_architetur.Tests.Data.{
  conf, packet, ping, bob, noon, nr, ph, conns-IsValid, mapper, mapper-IsMapper, dht-IsDht,
  names-IsNidMapper,
}

abbrev found : Thread → Bool
found thread = true

abbrev switches : Switches
switches = record {
  debug_print_rt = false;
  dhcp = false;
  dht = false;
  dns = true;
  primary_iface = [];
}

abbrev old : Unwritten
old = record { peer = 0; nid32 = 0; aux = []; server_address = 0; ans_ans = []; buffer = [] }

abbrev pub no_text : Nid → CString
no_text nid = []

abbrev pub unread : {A : Type 0} → CString → Option A
unread text = none

abbrev first : Host
first = (start_host_lem found switches conf gateway_role old (λ t. refl) refl refl).0

first-IsHost : IsHost switches gateway_role first
first-IsHost = (start_host_lem found switches conf gateway_role old (λ t. refl) refl refl).2

first-Comes : Comes no_text unread unread found switches gateway_role first
first-Comes =
    begun conf old first
      (start_host_lem found switches conf gateway_role old (λ t. refl) refl refl).1

nidfilter-runs : Mem nidfilter_thr first.running
unfolding later_threads gateway_threads
nidfilter-runs = rw first-IsHost.running (mem-cons_of_mem dhcp_thr mem-cons_self)

-- An application sends a packet.
captures :
    Returns
      (host_round no_text unread unread (of_node (captured ping)) first)
      (IsHost switches gateway_role)
captures =
    Ends-Returns
      ((Comes-host_round no_text unread unread found switches gateway_role first first-Comes).1
        (of_node (captured ping)) λ never. never)
      λ never. never

abbrev second : Host
second = captures.0

second-Comes : Comes no_text unread unread found switches gateway_role second
unfolding thread_of
second-Comes = went (of_node (captured ping)) first second first-Comes nidfilter-runs captures.1

-- A gateway whose own gateway is Bob, at 7.
abbrev pub gateway : (co : List Payload) → Host
gateway co = record {
  node = record {
    nr = record nr { cm = mapper };
    ph = record ph { sp_rvs2ph = [] };
    raw_tcp = [];
    raw_udp = [];
    raw_icmp = [];
    sp_nr2ph = [];
    sp_ph2co = co;
    sp_co2rvs = [];
    sp_co2gwl = [];
    count = 0;
  };
  running = [];
  sp_nr = [];
  sp_rvs2gwt = [];
  sp_gwl2gwt = [];
  to_server = [];
  puts = [];
  nid32 = 0;
  aux = [];
  conf = record conf { nidgw = bob };
  server_address = 0;
  fqdn_table = record { size = 1; table = λ i. [] };
  ans_ans = [];
  buffer = [];
}

gateway-IsNode : (co : List Payload) → IsNode (gateway co).node
gateway-IsNode co = record {
  nr = record {
    cm = mapper-IsMapper;
    rt = conns-IsValid;
    registry = conns-IsValid;
    dht = dht-IsDht;
  };
  names = names-IsNidMapper;
}

arrived-forwarded_example :
    Returns
      (host_round no_text unread unread (gw_arrived 20 7 packet) (gateway [])
        >>= host_round no_text unread unread (gw_routed_out noon))
      λ h'.
        (h'.node.nr.sent ≡ [] ++ ((routed noon bob (gateway []).node.nr).1, packet) ∷ [])
        × (h'.node.sp_nr2ph ≡ [])
        × (h'.sp_nr ≡ [])
unfolding bytes_eq
arrived-forwarded_example =
    arrived-forwarded no_text unread unread (gateway []) (gateway-IsNode []) 20 noon 7 packet refl
      refl refl

arrived-core_forwarded_example :
    Returns
      (host_round no_text unread unread (gw_arrived 20 7 packet) (gateway [])
        >>= host_round no_text unread unread (core_routed_out noon))
      λ h'.
        (h'.node.nr.sent ≡ [] ++ sent_to (core_hop noon packet (gateway []).node.nr) packet)
        × (h'.node.sp_nr2ph ≡ [])
        × (h'.sp_nr ≡ [])
unfolding bytes_eq
arrived-core_forwarded_example =
    arrived-core_forwarded no_text unread unread (gateway []) (gateway-IsNode []) 20 noon 7 packet
      refl refl refl

Comes-catch_int_example :
    ((catch_int false second).closed ≡ threads_of switches gateway_role)
    × ((catch_int false second).tap_open ≡ false)
    × ((catch_int false second).pkilled ≡ false)
    × Emptied (catch_int false second).host
Comes-catch_int_example =
    Comes-catch_int no_text unread unread found switches gateway_role second second-Comes
