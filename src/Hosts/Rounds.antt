-- ===== src/Hosts/Rounds.antt =====
-- One round of any thread leaves the tables of a host well formed.
use node_identity_architetur.Base.{ℕ, ◌≡◌, refl, inl, inr, Bool-cases, List-cases}
use node_identity_architetur.Config.{Config}
use node_identity_architetur.Control.Heard.{IsControl}
use node_identity_architetur.Control.{ControlState}
use node_identity_architetur.Forward.Input.{nr_input_lem}
use node_identity_architetur.Forward.Output.{IsNr, ask_rt_lem, sendto-IsNr}
use node_identity_architetur.Forward.{NrState, NrInput, nr_output_gw_route, sendto}
use node_identity_architetur.Gateway.Climb.{IsGw, new_rt_entry-Writes}
use node_identity_architetur.Gateway.{GwState, gw_listener, gw_talker}
use node_identity_architetur.Hosts.{
  Host, output_round, input_round, control_round, gw_state, put_gw, listen_round,
}
use node_identity_architetur.Key.{same}
use node_identity_architetur.Message.{NidMsg, Packet}
use node_identity_architetur.Nid.{Nid, Nid32, nid_key}
use node_identity_architetur.Queue.{Clock}
use node_identity_architetur.Run.{Run, ◌>>=◌, Returns}
use node_identity_architetur.Startup.Safe.{IsNode, cm_IsNr}
use node_identity_architetur.Startup.{heard_as}

-- The tables are well formed, and the threads are those that ran before.
abbrev pub Kept : Host → Host → Type 0
Kept h h' = IsNode h'.node × (h'.running ≡ h.running)

pub put_gw-Kept : (g : GwState) (h : Host) → IsNode h.node → IsGw g → Kept h (put_gw g h)
unfolding put_gw
put_gw-Kept g h is well = (
  record {
    nr = record { cm = is.nr.cm; rt = well.routes; registry = well.registrations; dht = is.nr.dht };
    names = is.names;
  },
  refl,
)

module _ (h : Host) (is : IsNode h.node) where
  pub output_round-Kept :
      (own route : Packet → NrState → Run NrState)
      → ((p : Packet) (s : NrState) → IsNr s → Returns (own p s) IsNr)
      → ((p : Packet) (s : NrState) → IsNr s → Returns (route p s) IsNr)
      → Returns (output_round own route h) (Kept h)
  unfolding output_round
  output_round-Kept own route owns routes = elim (List-cases h.node.ph.sp_ph2nr) [
    | inr (p, ps, waiting) ↦
        let (nr, run, well) = owns p h.node.nr is.nr in
        rw (waiting, run, ◌>>=◌) (_, refl, (record { nr = well; names = is.names }, refl))
    | inl quiet ↦ elim (List-cases h.sp_nr) [
      | inr (p, ps, waiting) ↦
          let (nr, run, well) = routes p h.node.nr is.nr in
          rw (quiet, waiting, run, ◌>>=◌) (_, refl, (record { nr = well; names = is.names }, refl))
      | inl quiet₁ ↦ rw (quiet, quiet₁) (_, refl, (record { nr = is.nr; names = is.names }, refl))
    ]
  ]

  pub input_round-Kept :
      (now : ℕ) (nid : Nid) (from : Nid32) (p : Packet)
      → Returns (input_round now nid from p h) (Kept h)
  unfolding input_round
  input_round-Kept now nid from p =
      let s : NrInput = record {
        connmap = h.node.nr.cm.connmap;
        sp_nr2ph = h.node.sp_nr2ph;
        sp_nr = h.sp_nr;
      } in
      let (here, elsewhere) = nr_input_lem now from p s is.nr.cm.conns nid in
      elim (Bool-cases (same p.header.dest_nid nid)) [
        | inl mine ↦
            let (s', run, done) = (here mine).1 in
            rw (run, ◌>>=◌)
              (
                _,
                refl,
                (
                  record {
                    nr =
                        cm_IsNr h.node.nr _ is.nr
                          (record { conns = done.learned.0; requests = is.nr.cm.requests });
                    names = is.names;
                  },
                  refl,
                ),
              )
        | inr other ↦
            rw ((elsewhere other).1, ◌>>=◌)
              (
                _,
                refl,
                (
                  record {
                    nr =
                        cm_IsNr h.node.nr _ is.nr
                          (record { conns = is.nr.cm.conns; requests = is.nr.cm.requests });
                    names = is.names;
                  },
                  refl,
                ),
              )
      ]

  pub control_round-Kept :
      (act : NidMsg → ControlState → Run ControlState) (bytes : NidMsg)
      → ((m : NidMsg) (s : ControlState) → IsControl s → Returns (act m s) IsControl)
      → Returns (control_round act bytes h) (Kept h)
  unfolding control_round
  control_round-Kept act bytes acts = elim (List-cases h.node.sp_ph2co) [
    | inl quiet ↦ rw quiet (_, refl, (record { nr = is.nr; names = is.names }, refl))
    | inr (p, ps, waiting) ↦
        let (r, run, well) =
          acts (heard_as p bytes)
            (record {
              connmap = h.node.nr.cm.connmap;
              queue_table = h.node.nr.cm.queue_table;
              registry_table = h.node.nr.registry;
              sp_co2rvs = h.node.sp_co2rvs;
              sp_co2gwl = h.node.sp_co2gwl;
            })
            (record {
              conns = is.nr.cm.conns;
              requests = is.nr.cm.requests;
              registered = is.nr.registry;
            }) in
        rw (waiting, run, ◌>>=◌)
          (
            _,
            refl,
            (
              record {
                nr = record {
                  cm = record { conns = well.conns; requests = well.requests };
                  rt = is.nr.rt;
                  registry = well.registered;
                  dht = is.nr.dht;
                };
                names = is.names;
              },
              refl,
            ),
          )
  ]

  pub listen_round-Kept :
      (act : NidMsg → GwState → Run GwState)
      → ((m : NidMsg) (s : GwState) → IsGw s → Returns (act m s) IsGw)
      → Returns (listen_round act h) (Kept h)
  unfolding listen_round gw_state put_gw
  listen_round-Kept act acts = elim (List-cases h.node.sp_co2gwl) [
    | inl quiet ↦ rw quiet (_, refl, (record { nr = is.nr; names = is.names }, refl))
    | inr (m, ms, waiting) ↦
        let (g, run, well) =
          acts m (gw_state h) (record { routes = is.nr.rt; registrations = is.nr.registry }) in
        rw (waiting, run, ◌>>=◌)
          (
            _,
            refl,
            put_gw-Kept g (record h { node = record h.node { sp_co2gwl = ms } })
                (record { nr = is.nr; names = is.names }) well,
          )
  ]

-- The rounds of gwc.c's threads keep the routes and the registry well formed.
pub gw_listener-IsGw :
    (now : ℕ) (m : NidMsg) (s : GwState) → IsGw s → Returns (gw_listener now m s) IsGw
unfolding gw_listener
gw_listener-IsGw now m s is =
    let (rt, run, (writes, same)) = new_rt_entry-Writes now m.nid m.ip s.rt is.routes in
    rw (run, ◌>>=◌) (_, refl, record { routes = writes.0; registrations = is.registrations })

pub gw_talker-IsGw :
    (conf : Config) (locator : Nid32) (s : GwState) → IsGw s → IsGw (gw_talker conf locator s)
unfolding gw_talker
gw_talker-IsGw conf locator s is = elim (List-cases s.sp_rvs2gwt) [
  | inr (m, ms, waiting) ↦
      rw waiting (record { routes = is.routes; registrations = is.registrations })
  | inl quiet ↦ elim (List-cases s.sp_gwl2gwt) [
    | inr (m, ms, waiting) ↦
        rw (quiet, waiting) (record { routes = is.routes; registrations = is.registrations })
    | inl quiet₁ ↦
        rw (quiet, quiet₁) (record { routes = is.routes; registrations = is.registrations })
  ]
]

pub nr_output_gw_route-IsNr :
    (now : Clock) (p : Packet) (s : NrState) → IsNr s → Returns (nr_output_gw_route now p s) IsNr
unfolding nr_output_gw_route
nr_output_gw_route-IsNr now p s is =
    let (r, run, after) = ask_rt_lem now p.header.dest_nid s is in
    rw (run, ◌>>=◌) (sendto p r.1, refl, sendto-IsNr p r.1 after.well)
