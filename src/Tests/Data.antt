-- ===== src/Tests/Data.antt =====
-- Small states: three nodes, and tables that hold a few of them.
use node_identity_architetur.Base.{
  ℕ, true, [], ◌∷◌, ◌≡◌, replicate, ◌++◌, none, some, arith, ◌==◌, false, ◌∙◌,
}
use node_identity_architetur.Config.{Config, intradomain}
use node_identity_architetur.Conn.{ConnEntry}
use node_identity_architetur.Control.Heard.{IsControl}
use node_identity_architetur.Control.{ControlState}
use node_identity_architetur.Dht.Entries.{IsDht}
use node_identity_architetur.Dht.{Dht}
use node_identity_architetur.Forward.Output.{IsNr}
use node_identity_architetur.Forward.{NrState, NrInput}
use node_identity_architetur.Gateway.Climb.{IsGw}
use node_identity_architetur.Gateway.{GwState}
use node_identity_architetur.Key.{same_refl}
use node_identity_architetur.Mapper.Entries.{new_cm_entry-Writes}
use node_identity_architetur.Mapper.Lookup.{IsMapper}
use node_identity_architetur.Mapper.{Mapper, ConnTable}
use node_identity_architetur.Message.{
  NidHeader, NidMsg, IpPacket, datagram, Packet, data_type, redirect,
}
use node_identity_architetur.Mobility.{MoState}
use node_identity_architetur.Names.Entries.{IsNidMapper, new_nm_entry32_lem}
use node_identity_architetur.Names.{NidMapper, NmEntry, NmEntry32}
use node_identity_architetur.Nid.{Nid, nid_key, nid32_key}
use node_identity_architetur.PacketHandler.{PhState, PhInput}
use node_identity_architetur.Queue.Lock.{IsQueue, queue_lem}
use node_identity_architetur.Queue.{Clock, QueueTable, RvsqEntry}
use node_identity_architetur.Routing.{Routing}
use node_identity_architetur.RvsClient.{zero_msg}
use node_identity_architetur.Table.View.{IsValid, view, construct_hash_table_lem}
use node_identity_architetur.Table.{construct_hash_table}

abbrev pub node_nid : ℕ → Nid
node_nid n = record { u6_addr8 = 63 ∷ 254 ∷ (replicate 13 0 ++ n ∷ []) }

abbrev pub alice : Nid
alice = node_nid 1

abbrev pub bob : Nid
bob = node_nid 2

abbrev pub carol : Nid
carol = node_nid 3

abbrev pub noon : Clock
noon = record { sec = 100; usec = 900000 }

abbrev pub after_noon : Clock
after_noon = record { sec = 102; usec = 10 }

abbrev pub no_conns : ConnTable
no_conns = construct_hash_table true 30

pub no_conns-IsValid : IsValid no_conns
no_conns-IsValid = (construct_hash_table_lem {V = ConnEntry} 30 (omega arith)).0

pub no_conns-view : (q : Nid) → view no_conns q ≡ none
no_conns-view = (construct_hash_table_lem {V = ConnEntry} 30 (omega arith)).1

-- Bob was heard of at 98 seconds, at the address 7.
abbrev pub conns : ConnTable
conns = (new_cm_entry-Writes 98 bob 7 no_conns no_conns-IsValid).0

pub conns-IsValid : IsValid conns
conns-IsValid = (new_cm_entry-Writes 98 bob 7 no_conns no_conns-IsValid).2.0

pub conns-bob : view conns bob ≡ some (record { ip = 7; tstamp = 98 })
conns-bob =
    (new_cm_entry-Writes 98 bob 7 no_conns no_conns-IsValid).2.1 bob
    ∙ rw (same_refl bob, no_conns-view bob)

-- No entry of Bob is static.
pub conns-dynamic : (ce : ConnEntry) → view conns bob ≡ some ce → (ce.tstamp == 0) ≡ false
conns-dynamic ce held = ground (arith, conns-bob)

pub no_conns-dynamic :
    (q : Nid) (ce : ConnEntry) → view no_conns q ≡ some ce → (ce.tstamp == 0) ≡ false
no_conns-dynamic q ce held = ground (arith, no_conns-view q)

abbrev pub no_requests : QueueTable
no_requests = construct_hash_table true 30

pub no_requests-IsValid : IsValid no_requests
no_requests-IsValid = (construct_hash_table_lem {V = RvsqEntry} 30 (omega arith)).0

no_requests-keyed : (q : Nid) (re : RvsqEntry) → view no_requests q ≡ some re → re.nid ≡ q
no_requests-keyed q re held =
    let empty : view no_requests q ≡ none =
      (construct_hash_table_lem {V = RvsqEntry} 30 (omega arith)).1 q in
    ground arith

pub no_requests-IsQueue : IsQueue no_requests
no_requests-IsQueue = record { valid = no_requests-IsValid; keyed = no_requests-keyed }

-- A request for Bob is pending.
abbrev pub requests : QueueTable
requests = (queue_lem noon bob no_requests no_requests-IsQueue).0

pub requests-IsQueue : IsQueue requests
requests-IsQueue = (queue_lem noon bob no_requests no_requests-IsQueue).2.0

abbrev pub mapper : Mapper
mapper = record {
  connmap = conns;
  cm_nidgw = carol;
  cm_nidrvs = carol;
  cm_gateway_ip = 9;
  cm_rvs_ip = 9;
  queue_table = requests;
  sp_cm2rvs = [];
}

pub mapper-IsMapper : IsMapper mapper
mapper-IsMapper = record { conns = conns-IsValid; requests = requests-IsQueue }

abbrev pub empty_mapper : Mapper
empty_mapper = record mapper { connmap = no_conns }

pub empty_mapper-IsMapper : IsMapper empty_mapper
empty_mapper-IsMapper = record { conns = no_conns-IsValid; requests = requests-IsQueue }

abbrev pub conf : Config
conf = record {
  nid = alice;
  nidgw = carol;
  nidrvs = carol;
  nidcore = carol;
  nidcorehome = carol;
  niddns = carol;
  gateway_ip = 9;
  rvs_ip = 10;
  ip = 5;
  mobility = intradomain;
}

abbrev pub bob_conf : Config
bob_conf = record conf { nid = bob; ip = 7 }

abbrev pub dht : Dht
dht = record { dhtable = conns; dht_queue_table = requests; sp_dht = [] }

pub dht-IsDht : IsDht dht
dht-IsDht = record { known = conns-IsValid; requests = requests-IsQueue }

abbrev pub routing : Routing
routing = record { rtable = conns; nidgw = carol; gateway_ip = 9 }

-- The connection map knows nobody, and the routing table knows Bob.
abbrev pub nr : NrState
nr = record { cm = empty_mapper; rt = routing; registry = conns; dht = dht; peer = 0; sent = [] }

pub nr-IsNr : IsNr nr
nr-IsNr = record {
  cm = empty_mapper-IsMapper;
  rt = conns-IsValid;
  registry = conns-IsValid;
  dht = dht-IsDht;
}

abbrev pub to_bob : NidHeader
to_bob = record {
  type = data_type;
  src_nid = alice;
  dest_nid = bob;
  src_nid_gw = carol;
  dest_nid_gw = carol;
}

abbrev pub ping : IpPacket
ping = record { protocol = 1; daddr = 16777218; bytes = [] }

abbrev pub packet : Packet
packet = record { header = to_bob; payload = datagram ping }

abbrev pub nr_in : NrInput
nr_in = record { connmap = conns; sp_nr2ph = []; sp_nr = [] }

abbrev pub heard : ControlState
heard = record {
  connmap = conns;
  queue_table = requests;
  registry_table = conns;
  sp_co2rvs = [];
  sp_co2gwl = [];
}

pub heard-IsControl : IsControl heard
heard-IsControl = record {
  conns = conns-IsValid;
  requests = requests-IsQueue;
  registered = conns-IsValid;
}

-- Bob says that he is at 8.
abbrev pub moved : NidMsg
moved = record zero_msg { type = redirect; src_nid = bob; dest_nid = alice; nid = bob; ip = 8 }

abbrev pub gw : GwState
gw = record {
  rt = record { rtable = no_conns; nidgw = carol; gateway_ip = 9 };
  registry_table = conns;
  sp_rvs2gwt = [];
  sp_gwl2gwt = [];
  sp_gwt2ph = [];
}

pub gw-IsGw : IsGw gw
gw-IsGw = record { routes = no_conns-IsValid; registrations = conns-IsValid }

abbrev pub no_names : NidMapper
no_names = record {
  nid_table = construct_hash_table true 10;
  nid32_table = construct_hash_table true 10;
}

pub no_names-IsNidMapper : IsNidMapper no_names
no_names-IsNidMapper = record {
  names = (construct_hash_table_lem {V = NmEntry} 10 (omega arith)).0;
  names32 = (construct_hash_table_lem {V = NmEntry32} 10 (omega arith)).0;
}

-- The address 16777218 stands for Bob.
abbrev pub names : NidMapper
names = (new_nm_entry32_lem 16777218 bob carol no_names no_names-IsNidMapper).0

pub names-IsNidMapper : IsNidMapper names
names-IsNidMapper = (new_nm_entry32_lem 16777218 bob carol no_names no_names-IsNidMapper).2.well

pub names-bob : view names.nid32_table 16777218 ≡ some (record { nid = bob; nidgw = carol })
names-bob = (new_nm_entry32_lem 16777218 bob carol no_names no_names-IsNidMapper).2.reads32 16777218

abbrev pub ph : PhState
ph = record {
  header = to_bob;
  nidcore = carol;
  names = names;
  sp_nf2ph = [];
  sp_rvs2ph = moved ∷ [];
  sp_mo2ph = [];
  sp_gwt2ph = [];
  sp_ph2nr = [];
}

abbrev pub ph_in : PhInput
ph_in = record { names = names; raw_tcp = []; raw_udp = []; raw_icmp = []; sp_ph2co = [] }

abbrev pub mobile : MoState
mobile = record { count = 1; cm = mapper; sp_mo2ph = []; sp_rvs2ph = [] }
