-- ===== src/Startup/Safe.antt =====
-- No interleaving of the rounds of a node's threads breaks a table.
use node_identity_architetur.Base.{
  ℕ, suc, ◌<◌, ◌≡◌, refl, Bool, true, false, none, some, ◌==◌, List, [], arith, leb, Bool-cases,
  Option-cases, List-cases, inl, inr,
}
use node_identity_architetur.Config.{Config}
use node_identity_architetur.Conn.{ConnEntry}
use node_identity_architetur.Control.Roles.{control-Heard}
use node_identity_architetur.Dht.{init_dhtable}
use node_identity_architetur.DhtQueue.{init_dht_queue_table}
use node_identity_architetur.Forward.Input.{nr_input_lem}
use node_identity_architetur.Forward.Output.{IsNr, nr_output_lem}
use node_identity_architetur.Forward.{NrState, NrInput, nr_input}
use node_identity_architetur.Hash32.{hash_lookup32}
use node_identity_architetur.Key.{same}
use node_identity_architetur.Mapper.Entries.{static_cm_entry-Writes}
use node_identity_architetur.Mapper.Lookup.{IsMapper}
use node_identity_architetur.Mapper.{Mapper, init_conn_mapper}
use node_identity_architetur.Message.{Packet}
use node_identity_architetur.Mobility.Handover.{mobility-HandedOver}
use node_identity_architetur.Mobility.{MoState, read_event, mobility, rtm_newaddr}
use node_identity_architetur.Names.Entries.{IsNidMapper, new_nm_entry-Named}
use node_identity_architetur.Names.Fixed.{init_nid_mapper_lem}
use node_identity_architetur.Names.{NidMapper, get_nm_entry32}
use node_identity_architetur.Nid.{Nid, Nid32, nid_key, nid32_key}
use node_identity_architetur.PacketHandler.Rounds.{is_raw, ph_input_lem}
use node_identity_architetur.PacketHandler.{
  PhState, PhInput, ph_input, ph_output, output_data, output_msg, output_gwt, write_ph2nr,
}
use node_identity_architetur.Queue.Lock.{IsQueue}
use node_identity_architetur.Queue.{RvsqEntry, init_rvs_queue_table}
use node_identity_architetur.Registry.{init_registry_table}
use node_identity_architetur.Routing.{Routing, init_rtable}
use node_identity_architetur.Run.{◌>>=◌, ok, exited, Returns, returned, Ends, Ends-WhenOk}
use node_identity_architetur.Startup.{
  Node, idle_node, start_node, Event, captured, handled_out, routed_out, arrived, handled_in,
  controlled, announced, resolved, addressed, heard_as, write_rvs2ph, round, Reachable, started,
  stepped,
}
use node_identity_architetur.Table.View.{IsValid, view, construct_hash_table_lem, hash_lookup-view}
use node_identity_architetur.Table.{construct_hash_table}

-- Every table of the node is well formed.
pub record IsNode (s : Node) : Type 0 where
  pub nr : IsNr s.nr
  pub names : IsNidMapper s.ph.names

empty_queue : (n : ℕ) → 0 < n → IsQueue (construct_hash_table true n)
empty_queue n sized =
    let (valid, empty) = construct_hash_table_lem {K = Nid} {V = RvsqEntry} n sized in
    record { valid = valid; keyed = λ q re held. ground (arith, empty q) }

empty_conns : (n : ℕ) → 0 < n → IsValid {K = Nid} {V = ConnEntry} (construct_hash_table true n)
empty_conns n sized = (construct_hash_table_lem n sized).0

-- Threads start on well-formed tables if the name mapper, the connection map and the routes are.
pub idle_node-IsNode :
    (conf : Config) (names : NidMapper) (cm : Mapper) (rt : Routing) (peer : Nid32)
    → IsNidMapper names
    → IsMapper cm
    → IsValid rt.rtable
    → IsNode (idle_node conf names cm rt peer)
unfolding idle_node init_registry_table init_dhtable init_dht_queue_table init_rvs_queue_table
idle_node-IsNode conf names cm rt peer named mapped routes = record {
  nr = record {
    cm = mapped;
    rt = routes;
    registry = empty_conns 30 (omega arith);
    dht = record { known = empty_conns 30 (omega arith); requests = empty_queue 10 (omega arith) };
  };
  names = named;
}

-- The connection map and the routes are well formed when `main` has made them.
pub init_conn_mapper-IsMapper :
    (conf : Config) → IsMapper (init_conn_mapper conf (init_rvs_queue_table true))
unfolding init_conn_mapper init_rvs_queue_table
init_conn_mapper-IsMapper conf = record {
  conns = empty_conns 20 (omega arith);
  requests = empty_queue 10 (omega arith);
}

pub init_rtable-IsValid : (conf : Config) → IsValid (init_rtable conf).rtable
unfolding init_rtable
init_rtable-IsValid conf = empty_conns 30 (omega arith)

pub start_node-IsNode :
    (dns : Bool) (conf : Config) (peer : Nid32) → Returns (start_node dns conf peer) IsNode
unfolding start_node
start_node-IsNode dns conf peer =
    let (names, run, (is, empty, listed)) = init_nid_mapper_lem dns in
    let (names', run', named) = new_nm_entry-Named conf.nidrvs conf.nidcore names is in
    let cm : Mapper = init_conn_mapper conf (init_rvs_queue_table true) in
    let made : IsMapper cm = init_conn_mapper-IsMapper conf in
    let (t, run₁, (valid, reads)) =
      static_cm_entry-Writes conf.nidrvs conf.rvs_ip cm.connmap made.conns in
    let (t', run₂, (valid', reads')) = static_cm_entry-Writes conf.nidgw conf.gateway_ip t valid in
    rw (run, ◌>>=◌, run', run₁, run₂)
      (
        _,
        refl,
        idle_node-IsNode conf names' (record cm { connmap = t' }) (init_rtable conf) peer named.well
            (record { conns = valid'; requests = made.requests }) (init_rtable-IsValid conf),
      )

pub output_keeps :
    (s : PhState) → IsNidMapper s.names → Returns (ph_output s) λ s'. s'.names ≡ s.names
unfolding ph_output output_data output_msg output_gwt write_ph2nr get_nm_entry32 hash_lookup32
output_keeps s is = elim (List-cases s.sp_nf2ph) [
  | inr (ip, ips, captured_ip) ↦
      rw (captured_ip, hash_lookup-view s.names.nid32_table ip.daddr is.names32.sized)
        (elim (Option-cases (view s.names.nid32_table ip.daddr)) [
          | inl unknown ↦ rw (unknown, ◌>>=◌) (_, refl, refl)
          | inr (nm, known) ↦ rw (known, ◌>>=◌) (_, refl, refl)
        ])
  | inl quiet ↦ elim (List-cases s.sp_rvs2ph) [
    | inr (m, ms, waiting) ↦ rw (quiet, waiting) (_, refl, refl)
    | inl quiet₁ ↦ elim (List-cases s.sp_mo2ph) [
      | inr (m, ms, waiting) ↦ rw (quiet, quiet₁, waiting) (_, refl, refl)
      | inl quiet₂ ↦ elim (List-cases s.sp_gwt2ph) [
        | inr (m, ms, waiting) ↦ rw (quiet, quiet₁, quiet₂, waiting) (_, refl, refl)
        | inl quiet₃ ↦ rw (quiet, quiet₁, quiet₂, quiet₃) (_, refl, refl)
      ]
    ]
  ]
]

input_IsValid :
    (now : ℕ) (nid : Nid) (from : Nid32) (p : Packet) (s : NrInput)
    → IsValid s.connmap
    → Returns (nr_input now nid from p s) λ s'. IsValid s'.connmap
input_IsValid now nid from p s valid =
    let (here, elsewhere) = nr_input_lem now from p s valid nid in
    elim (Bool-cases (same p.header.dest_nid nid)) [
      | inl mine ↦ let (s', run, done) = (here mine).0 in (s', run, done.learned.0)
      | inr other ↦ (s, (elsewhere other).0, valid)
    ]

mobility_IsMapper :
    (now : ℕ) (conf : Config) (locator : Nid32) (newaddr : Bool) (s : MoState)
    → IsMapper s.cm
    → Returns (mobility now conf locator newaddr s) λ s'. IsMapper s'.cm
mobility_IsMapper now conf locator false s is = (s, unfold mobility in refl, is)
mobility_IsMapper now conf locator true s is = elim (Bool-cases (leb 2 (suc s.count))) [
  | inl acts ↦
      let (s', run, done) = mobility-HandedOver now conf locator s is (ground arith) in
      (s', run, done.cm.well)
  | inr waits ↦ (record s { count = suc s.count }, unfold mobility in rw waits, is)
]

pub cm_IsNr : (s : NrState) (m : Mapper) → IsNr s → IsMapper m → IsNr (record s { cm = m })
cm_IsNr s m is well = record { cm = well; rt = is.rt; registry = is.registry; dht = is.dht }

-- The call fails after which the round ends the process.
abbrev pub CallFails : Event → Type 0
CallFails (handled_in false) = Unit
CallFails (addressed now locator none) = Unit
CallFails e = ⊥

-- The other rounds, and these if no call fails.
round-kept :
    (conf : Config) (e : Event) (s : Node)
    → IsNode s
    → ¬ (CallFails e)
    → Returns (round conf e s) IsNode
unfolding round write_rvs2ph read_event
round-kept conf (captured ip) s is calm = (_, refl, record { nr = is.nr; names = is.names })
round-kept conf handled_out s is calm =
    let (ph, run, kept) = output_keeps s.ph is.names in
    (record s { ph = ph }, rw run, record { nr = is.nr; names = rw kept is.names })
round-kept conf (routed_out now) s is calm = elim (List-cases s.ph.sp_ph2nr) [
  | inl quiet ↦ rw quiet (_, refl, record { nr = is.nr; names = is.names })
  | inr (p, ps, waiting) ↦
      let (nr, run, (well, sent)) = nr_output_lem now p s.nr is.nr in
      rw (waiting, run, ◌>>=◌) (_, refl, record { nr = well; names = is.names })
]
round-kept conf (arrived now from p) s is calm =
    let (r, run, valid) =
      input_IsValid now conf.nid from p
        (record { connmap = s.nr.cm.connmap; sp_nr2ph = s.sp_nr2ph; sp_nr = [] }) is.nr.cm.conns in
    rw (run, ◌>>=◌)
      (
        _,
        refl,
        record {
          nr = cm_IsNr s.nr _ is.nr (record { conns = valid; requests = is.nr.cm.requests });
          names = is.names;
        },
      )
round-kept conf (handled_in false) s is calm = absurd (calm tt)
round-kept conf (handled_in true) s is calm = elim (List-cases s.sp_nr2ph) [
  | inl quiet ↦ rw quiet (_, refl, record { nr = is.nr; names = is.names })
  | inr (p, ps, waiting) ↦
      let (r, run, (named, co, tcp, udp, icmp)) =
        (ph_input_lem p
          (record {
            names = s.ph.names;
            raw_tcp = s.raw_tcp;
            raw_udp = s.raw_udp;
            raw_icmp = s.raw_icmp;
            sp_ph2co = s.sp_ph2co;
          })
          is.names).0 in
      rw (waiting, run, ◌>>=◌) (_, refl, record { nr = is.nr; names = named.well })
]
round-kept conf (controlled now bytes) s is calm = elim (List-cases s.sp_ph2co) [
  | inl quiet ↦ rw quiet (_, refl, record { nr = is.nr; names = is.names })
  | inr (p, ps, waiting) ↦
      let (r, run, heard) =
        control-Heard now (heard_as p bytes)
          (record {
            connmap = s.nr.cm.connmap;
            queue_table = s.nr.cm.queue_table;
            registry_table = s.nr.registry;
            sp_co2rvs = s.sp_co2rvs;
            sp_co2gwl = s.sp_co2gwl;
          })
          (record {
            conns = is.nr.cm.conns;
            requests = is.nr.cm.requests;
            registered = is.nr.registry;
          }) in
      rw (waiting, run, ◌>>=◌)
        (
          _,
          refl,
          record {
            nr = record {
              cm = record { conns = heard.well.conns; requests = heard.well.requests };
              rt = is.nr.rt;
              registry = heard.well.registered;
              dht = is.nr.dht;
            };
            names = is.names;
          },
        )
]
round-kept conf (announced locator) s is calm = (_, refl, record { nr = is.nr; names = is.names })
round-kept conf resolved s is calm =
    let asked : (nids : List Nid)
        → IsNr (record s.nr { cm = record s.nr.cm { sp_cm2rvs = nids } }) =
      λ nids.
        cm_IsNr s.nr _ is.nr (record { conns = is.nr.cm.conns; requests = is.nr.cm.requests }) in
    elim (List-cases s.nr.cm.sp_cm2rvs) [
      | inl quiet ↦ rw quiet (_, refl, record { nr = asked []; names = is.names })
      | inr (nid, nids, waiting) ↦
          rw waiting (_, refl, record { nr = asked nids; names = is.names })
    ]
round-kept conf (addressed now locator none) s is calm = absurd (calm tt)
round-kept conf (addressed now locator (some type)) s is calm =
    let (r, run, well) =
      mobility_IsMapper now conf locator (type == rtm_newaddr)
        (record {
          count = s.count;
          cm = s.nr.cm;
          sp_mo2ph = s.ph.sp_mo2ph;
          sp_rvs2ph = s.ph.sp_rvs2ph;
        })
        is.nr.cm in
    rw (run, ◌>>=◌) (_, refl, record { nr = cm_IsNr s.nr r.cm is.nr well; names = is.names })

pub round-IsNode :
    (conf : Config) (e : Event) (s : Node) → IsNode s → Ends (round conf e s) IsNode (CallFails e)
unfolding round read_event
round-IsNode conf (handled_in false) s is = elim (List-cases s.sp_nr2ph) [
  | inl quiet ↦ rw quiet (inl (_, refl, record { nr = is.nr; names = is.names }))
  | inr (p, ps, waiting) ↦
      let before : PhInput = record {
        names = s.ph.names;
        raw_tcp = s.raw_tcp;
        raw_udp = s.raw_udp;
        raw_icmp = s.raw_icmp;
        sp_ph2co = s.sp_ph2co;
      } in
      let ((r, run, (named, co, tcp, udp, icmp)), fails) = ph_input_lem p before is.names in
      elim (Bool-cases (is_raw p)) [
        | inl raw ↦
            let exits : ph_input false p before ≡ exited = rw fails (rw raw refl) in
            rw (waiting, exits, ◌>>=◌) (inr (refl, tt))
        | inr other ↦
            let goes_on : ph_input false p before ≡ ok r = rw fails (rw other run) in
            rw (waiting, goes_on, ◌>>=◌) (inl (_, refl, record { nr = is.nr; names = named.well }))
      ]
]
round-IsNode conf (addressed now locator none) s is = inr (refl, tt)
round-IsNode conf e s is = inl (round-kept conf e s is λ never. never)

reachable_lem : (s : Node) → Reachable s → IsNode s
reachable_lem s (started dns conf peer _ run) = returned s (start_node-IsNode dns conf peer) run
reachable_lem s (stepped conf e s₀ _ before run) =
    Ends-WhenOk (round-IsNode conf e s₀ (reachable_lem s₀ before)) s run

-- In every state that a node comes to, from its start, by rounds of its threads in any order, on any
-- input and under any configurations, the tables are well formed, and the next round of any thread
-- ends normally, in a state whose tables are well formed, or it ends the process after a call that
-- fails.
pub Reachable-round :
    (s : Node)
    → Reachable s
    → IsNode s × ((conf : Config) (e : Event) → Ends (round conf e s) IsNode (CallFails e))
Reachable-round s reached =
    let is = reachable_lem s reached in (is, λ conf e. round-IsNode conf e s is)
