-- ===== src/Mobility/Handover.antt =====
-- A handover: what the peers and the server are told, and what a peer makes of it.
use mathlib.Core.List.{map, append_assoc, append-nil}
use node_identity_architetur.Base.{
  ℕ, suc, ◌+◌, ◌<◌, ◌≡◌, refl, ◌∙◌, true, false, Option, none, some, List, [], ◌∷◌, ◌++◌, ◌==◌,
  if◌then◌else◌, arith, leb, Bool-cases, inl, inr,
}
use node_identity_architetur.Config.{Config, intradomain}
use node_identity_architetur.Conn.{ConnEntry, LlNode, init_ll, hash_enumerate, rvs_proactive}
use node_identity_architetur.Control.Heard.{IsControl}
use node_identity_architetur.Control.Roles.{control-Heard}
use node_identity_architetur.Control.{ControlState, control}
use node_identity_architetur.Key.{same_refl}
use node_identity_architetur.Mapper.Clean.{Reconfigured, update_cm_conf-Reconfigured}
use node_identity_architetur.Mapper.Lookup.{IsMapper, good, age, get_cm_entry-Answers}
use node_identity_architetur.Mapper.{Mapper, get_all_connections, get_cm_entry}
use node_identity_architetur.Mapper.Entries.{renewed}
use node_identity_architetur.Queue.{Clock}
use node_identity_architetur.Table.View.{view}
use node_identity_architetur.Message.{NidMsg, redirect, rvs_update}
use node_identity_architetur.Mobility.{MoState, announce, redirect_all, hand_over, mobility}
use node_identity_architetur.Nid.{Nid32, nid_key}
use node_identity_architetur.Run.{ok, ◌>>=◌, Returns}
use node_identity_architetur.RvsClient.{zero_msg}

-- The message that tells the peer `n` where the host is now.
abbrev pub redirection : Config → Nid32 → LlNode → NidMsg
redirection conf locator n = record zero_msg {
  type = redirect;
  src_nid = conf.nid;
  dest_nid = n.0;
  nid = conf.nid;
  ip = locator;
}

redirect_all_lem :
    (conf : Config) (m : NidMsg) (locator : Nid32) (ns : List LlNode) (s : MoState)
    → ((n : LlNode) → record m { dest_nid = n.0; ip = locator } ≡ redirection conf locator n)
    → redirect_all m locator ns s
      ≡ record s { sp_mo2ph = s.sp_mo2ph ++ map (redirection conf locator) ns }
unfolding redirect_all
redirect_all_lem conf m locator [] s fills = rw append-nil
redirect_all_lem conf m locator (n ∷ ns) s fills =
    redirect_all_lem conf (record m { dest_nid = n.0; ip = locator }) locator ns _ fills
    ∙ rw (fills n, append_assoc)

-- The state after a handover.
pub record HandedOver (now : ℕ) (conf : Config) (locator : Nid32) (s s' : MoState) : Type 0 where
  pub count : s'.count ≡ 0
  pub cm : Reconfigured now conf s.cm s'.cm
  pub told : s'.sp_mo2ph ≡ (
      if conf.mobility == intradomain
      then s.sp_mo2ph
        ++ map (redirection conf locator) (hash_enumerate now s.cm.connmap init_ll).next
      else s.sp_mo2ph)
  pub announced :
      s'.sp_rvs2ph
      ≡ s.sp_rvs2ph
        ++ record zero_msg {
          type = rvs_update;
          src_nid = conf.nid;
          dest_nid = conf.nidrvs;
          nid = conf.nid;
          ip = locator;
        }
          ∷ []

-- The second new address since the last handover makes the mobility thread, on a well-formed
-- connection map, hand over: within a domain one REDIRECT with the host's identifier and new
-- address goes to each node of the list of live connections, and none otherwise; in either case the
-- connection map takes over the configuration as `updateCMconf` does, and an RVS_UPDATE goes to the
-- rendezvous server.
pub mobility-HandedOver :
    (now : ℕ) (conf : Config) (locator : Nid32) (s : MoState)
    → IsMapper s.cm
    → 1 < suc s.count
    → Returns (mobility now conf locator true s) (HandedOver now conf locator s)
unfolding mobility hand_over announce get_all_connections
mobility-HandedOver now conf locator s is second =
    let (cm, run, done) = update_cm_conf-Reconfigured now conf s.cm is in
    let nmsg : NidMsg = record zero_msg { type = redirect; src_nid = conf.nid; nid = conf.nid } in
    let acts : leb 2 (suc s.count) ≡ true = ground arith in
    elim (Bool-cases (conf.mobility == intradomain)) [
      | inl intra ↦
          rw
            (
              acts,
              intra,
              redirect_all_lem conf nmsg locator (hash_enumerate now s.cm.connmap init_ll).next _
                  (λ n. refl),
              run,
              ◌>>=◌,
            )
            (_, refl, record { count = refl; cm = done; told = rw intra; announced = refl })
      | inr inter ↦
          rw (acts, inter, run, ◌>>=◌)
            (_, refl, record { count = refl; cm = done; told = rw inter; announced = refl })
    ]

-- The first new address since a handover is only counted, and any other event changes nothing.
pub mobility_waits :
    (now : ℕ) (conf : Config) (locator : Nid32) (s : MoState)
    → (mobility now conf locator false s ≡ ok s)
      × (s.count ≡ 0 → mobility now conf locator true s ≡ ok (record s { count = 1 }))
unfolding mobility
mobility_waits now conf locator s = (refl, λ first. rw first)

-- An entry that was just renewed and is not static is good for RVS_PROACTIVE seconds.
renewed-good :
    (now later : ℕ) (ip : Nid32) (e : Option ConnEntry)
    → ((ce : ConnEntry) → e ≡ some ce → (ce.tstamp == 0) ≡ false)
    → later < now + rvs_proactive
    → age later (some (renewed now ip e)) ≡ good
renewed-good now later ip none dynamic soon = ground arith
renewed-good now later ip (some ce) dynamic soon = rw (dynamic ce refl) (ground arith)

renewed-ip :
    (now : ℕ) (ip : Nid32) (e : Option ConnEntry)
    → ((ce : ConnEntry) → e ≡ some ce → (ce.tstamp == 0) ≡ false)
    → (renewed now ip e).ip ≡ ip
renewed-ip now ip none dynamic = refl
renewed-ip now ip (some ce) dynamic = rw (dynamic ce refl)

-- A peer on a well-formed state whose control thread reads the REDIRECT of a host, for which it has
-- no static entry, sends its packets for the host to the new address for RVS_PROACTIVE seconds: a
-- lookup in the connection table that the control thread leaves is a hit with that address.
pub peer_follows :
    (now : ℕ) (later : Clock) (conf : Config) (locator : Nid32) (n : LlNode) (peer : ControlState)
    → IsControl peer
    → ((ce : ConnEntry) → view peer.connmap conf.nid ≡ some ce → (ce.tstamp == 0) ≡ false)
    → later.sec < now + rvs_proactive
    → Returns (control now (redirection conf locator n) peer) λ peer'.
      (m : Mapper)
      → IsMapper m
      → m.connmap ≡ peer'.connmap
      → Returns (get_cm_entry later conf.nid m) (λ (r, m'). r ≡ (true, locator))
peer_follows now later conf locator n peer is dynamic soon =
    let (peer', run, heard) = control-Heard now (redirection conf locator n) peer is in
    let entry : view peer'.connmap conf.nid
        ≡ some (renewed now locator (view peer.connmap conf.nid)) =
      heard.conns conf.nid ∙ rw (same_refl conf.nid) in
    (
      peer',
      run,
      λ m is_m shared.
          let ((r, m'), run', answers) = get_cm_entry-Answers later conf.nid m is_m in
          let entry' : view m.connmap conf.nid
              ≡ some (renewed now locator (view peer.connmap conf.nid)) =
            rw (shared, entry) in
          let young : age later.sec (view m.connmap conf.nid) ≡ good =
            rw entry' (renewed-good now later.sec locator _ dynamic soon) in
          (
            (r, m'),
            run',
            ground (
              arith,
              answers.hit,
              answers.ip,
              renewed-ip now locator (view peer.connmap conf.nid) dynamic,
            ),
          ),
    )
