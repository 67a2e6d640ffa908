-- ===== src/Hosts/Arrival.antt =====
-- A registration that arrives at a gateway.
use node_identity_architetur.Base.{
  ℕ, ◌≡◌, refl, ◌∙◌, Bool, true, false, if◌then◌else◌, Option, some, [], ◌∷◌, ◌==◌, Bool-cases, inl,
  inr,
}
use node_identity_architetur.Conn.{ConnEntry}
use node_identity_architetur.Forward.Input.{nr_input_lem}
use node_identity_architetur.Forward.{NrInput}
use node_identity_architetur.Hosts.Climbing.{passed_up, OnlyTalks, Awaits}
use node_identity_architetur.Hosts.{Host, HostEvent, of_node, gw_arrived, input_round, host_round}
use node_identity_architetur.Key.{same}
use node_identity_architetur.Mapper.Entries.{Writes, renewed}
use node_identity_architetur.Mapper.{ConnTable}
use node_identity_architetur.Message.{NidMsg, registry, Packet}
use node_identity_architetur.Nid.{Nid, Nid32, CString, nid_key, nid_eq_iff}
use node_identity_architetur.PacketHandler.Rounds.{is_raw, ph_input_lem}
use node_identity_architetur.PacketHandler.{PhInput, is_control, ph_input}
use node_identity_architetur.Run.{Run, ok, exited, ◌>>=◌, Returns}
use node_identity_architetur.Startup.Safe.{IsNode, cm_IsNr}
use node_identity_architetur.Startup.{handled_in, round}
use node_identity_architetur.Table.View.{view}

-- A gateway with nothing under way.
pub record Resting (h : Host) : Type 0 where
  pub node : IsNode h.node
  pub talks : OnlyTalks [] h
  pub nr2ph : h.node.sp_nr2ph ≡ []
  pub ph2co : h.node.sp_ph2co ≡ []
  pub co2gwl : h.node.sp_co2gwl ≡ []
  pub rvs2gwt : h.sp_rvs2gwt ≡ []
  pub gwl2gwt : h.sp_gwl2gwt ≡ []
  pub nr_socket : h.sp_nr ≡ []

-- The gateway after its packet handler has handed on a registration.
pub record Taken (now : ℕ) (m : NidMsg) (h h' : Host) : Type 0 where
  pub node : IsNode h'.node
  pub talks : OnlyTalks [] h'
  pub waits : Awaits m h'
  pub nr_socket : h'.sp_nr ≡ []
  pub conf : h'.conf ≡ h.conf
  pub rt : h'.node.nr.rt ≡ h.node.nr.rt
  pub sent : h'.node.nr.sent ≡ h.node.nr.sent
  pub static :
      (ce : ConnEntry)
      → (ce.tstamp == 0) ≡ true
      → (q : Nid) → view h.node.nr.cm.connmap q ≡ some ce
      → view h'.node.nr.cm.connmap q ≡ some ce

-- Renewing an entry keeps those that are static.
renewed_keeps :
    (now : ℕ) (ip : Nid32) (nid : Nid) (t t' : ConnTable) (ce : ConnEntry) (q : Nid)
    → Writes t nid (some (renewed now ip (view t nid))) t'
    → (ce.tstamp == 0) ≡ true
    → view t q ≡ some ce
    → view t' q ≡ some ce
renewed_keeps now ip nid t t' ce q (valid, reads) stays held =
    reads q ∙ elim (Bool-cases (same q nid)) [
      | inl itself ↦
          let e : q ≡ nid = (nid_eq_iff q nid).0 itself in
          let entry : view t nid ≡ some ce = rw (← e) held in rw (itself, entry, stays) refl
      | inr other ↦ rw other held
    ]

-- A registration is not for the raw sockets, so that the result of `sendto` is without effect.
ph_input-ok :
    (p : Packet) (s s' : PhInput) (sends : Bool)
    → p.header.type ≡ registry
    → ph_input true p s ≡ ok s'
    → ph_input false p s ≡ (if is_raw p then exited else ph_input true p s)
    → ph_input sends p s ≡ ok s'
ph_input-ok p s s' true registers run fails = run
ph_input-ok p s s' false registers run fails =
    let other : is_raw p ≡ false = rw registers refl in fails ∙ rw other run

module _ (inet_ntop6 : Nid → CString) (inet_pton6 : CString → Option Nid)
    (inet_pton4 : CString → Option Nid32) where
  abbrev act : HostEvent → Host → Run Host
  act = host_round inet_ntop6 inet_pton6 inet_pton4

  pub take_rounds-Taken :
      (now : ℕ) (sends : Bool) (m : NidMsg) (h : Host)
      → Resting h
      → m.type ≡ registry
      → same m.dest_nid h.conf.nid ≡ true
      → Returns
          (act (gw_arrived now m.ip (passed_up m)) h >>= act (of_node (handled_in sends)))
          (Taken now m h)
  unfolding host_round input_round round is_control
  take_rounds-Taken now sends m h rests registers mine =
      let p = passed_up m in
      let given : NrInput = record {
        connmap = h.node.nr.cm.connmap;
        sp_nr2ph = h.node.sp_nr2ph;
        sp_nr = h.sp_nr;
      } in
      let (r, run, taken) =
        ((nr_input_lem now m.ip p given rests.node.nr.cm.conns h.conf.nid).0 mine).1 in
      let only : r.sp_nr2ph ≡ p ∷ [] = rw (taken.handed, rests.nr2ph) in
      let before : PhInput = record {
        names = h.node.ph.names;
        raw_tcp = h.node.raw_tcp;
        raw_udp = h.node.raw_udp;
        raw_icmp = h.node.raw_icmp;
        sp_ph2co = h.node.sp_ph2co;
      } in
      let ((r', run₁, (named, co, tcp, udp, icmp)), fails) =
        ph_input_lem p before rests.node.names in
      let run' : ph_input sends p before ≡ ok r' =
        ph_input-ok p before r' sends registers run₁ fails in
      rw (run, ◌>>=◌, round, only, run')
        (
          _,
          refl,
          record {
            node = record {
              nr =
                  cm_IsNr h.node.nr _ rests.node.nr
                    (record { conns = taken.learned.0; requests = rests.node.nr.cm.requests });
              names = named.well;
            };
            talks = record {
              nf2ph = rests.talks.nf2ph;
              rvs2ph = rests.talks.rvs2ph;
              mo2ph = rests.talks.mo2ph;
              gwt2ph = rests.talks.gwt2ph;
              ph2nr = rests.talks.ph2nr;
            };
            waits = record {
              type = registers;
              co = co ∙ rw (rests.ph2co, registers) refl;
              co2gwl = rests.co2gwl;
              rvs2gwt = rests.rvs2gwt;
              gwl2gwt = rests.gwl2gwt;
            };
            nr_socket = taken.routed ∙ rests.nr_socket;
            conf = refl;
            rt = refl;
            sent = refl;
            static = λ ce stays q held.
                renewed_keeps now m.ip m.src_nid _ r.connmap ce q taken.learned stays held;
          },
        )
