-- ===== src/Hosts/Routed.antt =====
-- Packets on their way through a gateway.
use node_identity_architetur.Base.{ℕ, ◌≡◌, ap, refl, Bool, false, Option, [], ◌∷◌, ◌++◌}
use node_identity_architetur.Forward.Core.{core_hop, sent_to, nr_output_core_route-Sent}
use node_identity_architetur.Forward.Input.{nr_input_lem}
use node_identity_architetur.Forward.Output.{routed, ask_rt_lem}
use node_identity_architetur.Forward.{NrInput, nr_output_gw_route, sendto}
use node_identity_architetur.Hosts.{
  Host, gw_routed_out, gw_arrived, core_routed_out, output_round, input_round, host_round,
}
use node_identity_architetur.Key.{same}
use node_identity_architetur.Message.{Packet}
use node_identity_architetur.Nid.{Nid, Nid32, CString, nid_key}
use node_identity_architetur.Queue.{Clock}
use node_identity_architetur.Run.{◌>>=◌, Returns}
use node_identity_architetur.Startup.Safe.{IsNode}

module _ (inet_ntop6 : Nid → CString) (inet_pton6 : CString → Option Nid)
    (inet_pton4 : CString → Option Nid32) (h : Host) (is : IsNode h.node) where
  -- A packet for another identifier that arrives at a gateway with no packet under way is sent by
  -- the next round of the gateway's output thread: once, unchanged, and to the address that the
  -- routing table answers with for its destination. The packet handler is given nothing.
  pub arrived-forwarded :
      (now : ℕ) (later : Clock) (from : Nid32) (p : Packet)
      → same p.header.dest_nid h.conf.nid ≡ false
      → h.node.ph.sp_ph2nr ≡ []
      → h.sp_nr ≡ []
      → Returns
          (host_round inet_ntop6 inet_pton6 inet_pton4 (gw_arrived now from p) h
            >>= host_round inet_ntop6 inet_pton6 inet_pton4 (gw_routed_out later))
          λ h'.
            (h'.node.nr.sent
              ≡ h.node.nr.sent ++ ((routed later p.header.dest_nid h.node.nr).1, p) ∷ [])
            × (h'.node.sp_nr2ph ≡ h.node.sp_nr2ph)
            × (h'.sp_nr ≡ [])
  unfolding host_round input_round output_round nr_output_gw_route
  arrived-forwarded now later from p other quiet quiet₁ =
      let s : NrInput = record {
        connmap = h.node.nr.cm.connmap;
        sp_nr2ph = h.node.sp_nr2ph;
        sp_nr = h.sp_nr;
      } in
      let passed = ((nr_input_lem now from p s is.nr.cm.conns h.conf.nid).1 other).1 in
      let ((found, nr), run, after) = ask_rt_lem later p.header.dest_nid h.node.nr is.nr in
      let peer : nr.peer ≡ (routed later p.header.dest_nid h.node.nr).1 =
        ap (λ (a : Bool × Nid32). a.1) after.answers in
      rw (passed, ◌>>=◌, quiet, quiet₁, run)
        (_, refl, (unfold sendto in rw (after.sent, peer), refl, refl))

  -- A packet for another identifier that arrives at a core gateway with no packet under way is sent
  -- by the next round of its output thread, unchanged, to the address of the first of three answers
  -- that has one: the routing table's and the registry's for its destination, and the distributed
  -- table's for its destination's gateway. If none has an address it is dropped. The packet handler
  -- is given nothing.
  pub arrived-core_forwarded :
      (now : ℕ) (later : Clock) (from : Nid32) (p : Packet)
      → same p.header.dest_nid h.conf.nid ≡ false
      → h.node.ph.sp_ph2nr ≡ []
      → h.sp_nr ≡ []
      → Returns
          (host_round inet_ntop6 inet_pton6 inet_pton4 (gw_arrived now from p) h
            >>= host_round inet_ntop6 inet_pton6 inet_pton4 (core_routed_out later))
          λ h'.
            (h'.node.nr.sent ≡ h.node.nr.sent ++ sent_to (core_hop later p h.node.nr) p)
            × (h'.node.sp_nr2ph ≡ h.node.sp_nr2ph)
            × (h'.sp_nr ≡ [])
  unfolding host_round input_round output_round
  arrived-core_forwarded now later from p other quiet quiet₁ =
      let s : NrInput = record {
        connmap = h.node.nr.cm.connmap;
        sp_nr2ph = h.node.sp_nr2ph;
        sp_nr = h.sp_nr;
      } in
      let passed = ((nr_input_lem now from p s is.nr.cm.conns h.conf.nid).1 other).1 in
      let (nr, run, done) = nr_output_core_route-Sent later p h.node.nr is.nr in
      rw (passed, ◌>>=◌, quiet, quiet₁, run) (_, refl, (done.sent, refl, refl))
