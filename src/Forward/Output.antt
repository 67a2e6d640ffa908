-- ===== src/Forward/Output.antt =====
-- Where the output threads send a packet.
use node_identity_architetur.Base.{
  ◌+◌, ◌<◌, ◌≡◌, refl, ◌∙◌, ap, Bool, true, some, [], ◌∷◌, ◌++◌, arith, if◌then◌else◌, Bool-cases,
  inl, inr,
}
use node_identity_architetur.Conn.{rvs_proactive}
use node_identity_architetur.Dht.Entries.{IsDht}
use node_identity_architetur.Forward.{NrState, sendto, ask_cm, ask_rt, nr_output, nr_output_gw_own}
use node_identity_architetur.Key.{same_refl}
use node_identity_architetur.Mapper.Lookup.{
  IsMapper, Answers, age, Age, gone, is_hit, answer_ip, get_cm_entry-Answers,
}
use node_identity_architetur.Message.{Packet}
use node_identity_architetur.Nid.{Nid, Nid32, nid_key}
use node_identity_architetur.Queue.{Clock}
use node_identity_architetur.Routing.{Routing}
use node_identity_architetur.Routing.Table.{route, get_rt_entry_lem}
use node_identity_architetur.Run.{◌>>=◌, Returns}
use node_identity_architetur.Table.View.{IsValid, view}

pub record IsNr (s : NrState) : Type 0 where
  pub cm : IsMapper s.cm
  pub rt : IsValid s.rt.rtable
  pub registry : IsValid s.registry
  pub dht : IsDht s.dht

-- The age of what the connection map knows of an identifier.
abbrev pub known_age : Clock → Nid → NrState → Age
known_age now nid s = age now.sec (view s.cm.connmap nid)

-- The connection map's answer.
abbrev pub mapped : Clock → Nid → NrState → Nid32
mapped now nid s = answer_ip s.cm.cm_gateway_ip (known_age now nid s) (view s.cm.connmap nid)

-- The routing table's answer.
abbrev pub routed : Clock → Nid → NrState → Bool × Nid32
routed now nid s = route now.sec s.rt.gateway_ip (view s.rt.rtable nid)

pub routed_same :
    (now : Clock) (nid : Nid) (s t : NrState) → s.rt ≡ t.rt → routed now nid s ≡ routed now nid t
routed_same now nid s t e = ap (λ (r : Routing). route now.sec r.gateway_ip (view r.rtable nid)) e

-- After `getCMEntry`.
pub record AfterCm (now : Clock) (nid : Nid) (s : NrState) (r : Bool × NrState) : Type 0 where
  pub hits : r.0 ≡ is_hit (known_age now nid s)
  pub peer : r.1.peer ≡ mapped now nid s
  pub well : IsNr r.1
  pub sent : r.1.sent ≡ s.sent
  pub rt : r.1.rt ≡ s.rt
  pub registry : r.1.registry ≡ s.registry
  pub dht : r.1.dht ≡ s.dht
  pub cm :
      Answers now nid s.cm
        (view s.cm.connmap nid)
        (known_age now nid s)
        ((is_hit (known_age now nid s), mapped now nid s), r.1.cm)

-- After `getRTEntry`.
pub record AfterRt (now : Clock) (nid : Nid) (s : NrState) (r : Bool × NrState) : Type 0 where
  pub answers : (r.0, r.1.peer) ≡ routed now nid s
  pub well : IsNr r.1
  pub sent : r.1.sent ≡ s.sent
  pub cm : r.1.cm ≡ s.cm
  pub registry : r.1.registry ≡ s.registry
  pub dht : r.1.dht ≡ s.dht

module _ (now : Clock) (nid : Nid) (s : NrState) (is : IsNr s) where
  pub ask_cm_lem : Returns (ask_cm now nid s) (AfterCm now nid s)
  unfolding ask_cm
  ask_cm_lem =
      let ((r, m), run, answers) = get_cm_entry-Answers now nid s.cm is.cm in
      (
        (r.0, record s { cm = m; peer = r.1 }),
        rw run,
        record {
          hits = answers.hit;
          peer = answers.ip;
          well = record { cm = answers.well; rt = is.rt; registry = is.registry; dht = is.dht };
          sent = refl;
          rt = refl;
          registry = refl;
          dht = refl;
          cm = record {
            hit = refl;
            ip = refl;
            well = answers.well;
            reads = answers.reads;
            sends = answers.sends;
            gateway = answers.gateway;
          };
        },
      )

  pub ask_rt_lem : Returns (ask_rt now nid s) (AfterRt now nid s)
  unfolding ask_rt
  ask_rt_lem =
      let ((r, t), run, (answers, (valid, reads), same_gw)) =
        get_rt_entry_lem now.sec nid s.rt is.rt in
      (
        (r.0, record s { rt = t; peer = r.1 }),
        rw run,
        record {
          answers = answers;
          well = record { cm = is.cm; rt = valid; registry = is.registry; dht = is.dht };
          sent = refl;
          cm = refl;
          registry = refl;
          dht = refl;
        },
      )

pub sendto-IsNr : (p : Packet) (s : NrState) → IsNr s → IsNr (sendto p s)
unfolding sendto
sendto-IsNr p s is = record { cm = is.cm; rt = is.rt; registry = is.registry; dht = is.dht }

-- On a well-formed state `thread_nr_output` sends every packet once, to the address that the
-- connection map answers with, and keeps the state well formed.
pub nr_output_lem :
    (now : Clock) (p : Packet) (s : NrState)
    → IsNr s
    → Returns
        (nr_output now p s)
        λ s'. IsNr s' × (s'.sent ≡ s.sent ++ (mapped now p.header.dest_nid s, p) ∷ [])
unfolding nr_output
nr_output_lem now p s is =
    let ((hit, s'), run, after) = ask_cm_lem now p.header.dest_nid s is in
    (
      sendto p s',
      rw run,
      (sendto-IsNr p s' after.well, unfold sendto in rw (after.sent, after.peer)),
    )

-- The address a gateway sends a packet of its own to: the connection map's if that knows the
-- identifier, else the routing table's.
abbrev pub gateway_hop : Clock → Nid → NrState → Nid32
gateway_hop now nid s =
    if is_hit (known_age now nid s) then mapped now nid s else (routed now nid s).1

-- After a round for a packet of the gateway's own.
pub record GatewaySent (now : Clock) (p : Packet) (s s' : NrState) : Type 0 where
  pub well : IsNr s'
  pub sent : s'.sent ≡ s.sent ++ (gateway_hop now p.header.dest_nid s, p) ∷ []
  pub cm :
      Answers now p.header.dest_nid s.cm
        (view s.cm.connmap p.header.dest_nid)
        (known_age now p.header.dest_nid s)
        ((is_hit (known_age now p.header.dest_nid s), mapped now p.header.dest_nid s), s'.cm)

-- On a well-formed state `thread_nr_output_gw` sends every packet of the gateway's own once: to the
-- connection map's address if that has a usable entry for the destination, and else to the routing
-- table's. The state stays well formed, and the connection map is as `getCMEntry` leaves it.
pub nr_output_gw_own_lem :
    (now : Clock) (p : Packet) (s : NrState)
    → IsNr s
    → Returns (nr_output_gw_own now p s) (GatewaySent now p s)
unfolding nr_output_gw_own
nr_output_gw_own_lem now p s is =
    let ((hit, s₁), run, after) = ask_cm_lem now p.header.dest_nid s is in
    elim (Bool-cases (is_hit (known_age now p.header.dest_nid s))) [
      | inl known ↦
          rw (run, ◌>>=◌, after.hits, known)
            (
              sendto p s₁,
              refl,
              record {
                well = sendto-IsNr p s₁ after.well;
                sent = unfold sendto in rw (known, after.sent, after.peer);
                cm = unfold sendto in after.cm;
              },
            )
      | inr unknown ↦
          let ((found, s₂), run₂, after₂) = ask_rt_lem now p.header.dest_nid s₁ after.well in
          rw (run, ◌>>=◌, after.hits, unknown, run₂)
            (
              sendto p s₂,
              refl,
              record {
                well = sendto-IsNr p s₂ after₂.well;
                sent =
                    unfold sendto in
                    rw (
                      unknown,
                      after₂.sent,
                      after.sent,
                      ap (λ (a : Bool × Nid32). a.1)
                          (after₂.answers ∙ routed_same now p.header.dest_nid s₁ s after.rt),
                    );
                cm = unfold sendto in rw after₂.cm after.cm;
              },
            )
    ]

-- On a well-formed state, of two packets of the gateway's own for an identifier that the connection
-- map has no usable entry for, while the routing table has a route: the first goes along the route,
-- and the second, if it comes less than RVS_PROACTIVE seconds later, goes to the gateway's own
-- gateway instead.
pub nr_output_gw_own_twice :
    (now later : Clock) (p q : Packet) (s : NrState) (ip : Nid32)
    → IsNr s
    → known_age now p.header.dest_nid s ≡ gone
    → routed now p.header.dest_nid s ≡ (true, ip)
    → q.header.dest_nid ≡ p.header.dest_nid
    → later.sec < now.sec + rvs_proactive
    → Returns
        (nr_output_gw_own now p s >>= nr_output_gw_own later q)
        (λ s'. s'.sent ≡ (s.sent ++ (ip, p) ∷ []) ++ (s.cm.cm_gateway_ip, q) ∷ [])
nr_output_gw_own_twice now later p q s ip is unknown route_to same_dest soon =
    let (s₁, run₁, first) = nr_output_gw_own_lem now p s is in
    let (s₂, run₂, second) = nr_output_gw_own_lem later q s₁ first.well in
    let entry : view s₁.cm.connmap p.header.dest_nid
        ≡ some (record { ip = s.cm.cm_gateway_ip; tstamp = now.sec }) =
      first.cm.reads p.header.dest_nid ∙ rw (same_refl p.header.dest_nid, unknown) in
    let hop₁ : gateway_hop now p.header.dest_nid s ≡ ip = rw (unknown, route_to) in
    let hop₂ : gateway_hop later q.header.dest_nid s₁ ≡ s.cm.cm_gateway_ip =
      rw (same_dest, entry) (ground arith) in
    (s₂, rw run₁ run₂, second.sent ∙ rw (hop₂, first.sent, hop₁))
