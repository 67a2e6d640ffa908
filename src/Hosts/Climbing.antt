-- ===== src/Hosts/Climbing.antt =====
-- Registrations on their way up through a gateway.
use node_identity_architetur.Base.{
  ℕ, ◌≡◌, ◌∙◌, refl, true, false, Option, some, ◌==◌, List, [], ◌∷◌, ◌++◌,
}
use node_identity_architetur.Control.{control_gw}
use node_identity_architetur.Forward.Output.{known_age, mapped, ask_cm_lem}
use node_identity_architetur.Forward.{nr_output_gw_own, sendto}
use node_identity_architetur.Gateway.Climb.{new_rt_entry-Writes}
use node_identity_architetur.Gateway.{gw_listener, gw_talker, registration}
use node_identity_architetur.Hosts.{
  Host, HostEvent, of_node, gw_routed_out, gw_controlled, gw_listened, gw_talked, gw_state, put_gw,
  output_round, control_round, listen_round, host_round,
}
use node_identity_architetur.Mapper.Entries.{Writes, renewed}
use node_identity_architetur.Mapper.Lookup.{is_hit}
use node_identity_architetur.Message.{NidMsg, message, Packet, redirect, relocate, registry}
use node_identity_architetur.Nid.{Nid, Nid32, CString, nid_key}
use node_identity_architetur.PacketHandler.{ph_output, output_gwt, write_ph2nr}
use node_identity_architetur.Queue.{Clock}
use node_identity_architetur.Routing.{Routing, new_rt_entry}
use node_identity_architetur.Run.{Run, ok, ◌>>=◌, Returns}
use node_identity_architetur.Startup.Safe.{IsNode}
use node_identity_architetur.Startup.{handled_out, heard_as, round}
use node_identity_architetur.Table.View.{view}

-- What a gateway sends on.
abbrev pub passed_up : NidMsg → Packet
passed_up up = record {
  header = record {
    type = up.type;
    src_nid = up.src_nid;
    dest_nid = up.dest_nid;
    src_nid_gw = up.src_nid_gw;
    dest_nid_gw = up.dest_nid_gw;
  };
  payload = message up;
}

-- A gateway with nothing to send but messages of its talker.
pub record OnlyTalks (messages : List NidMsg) (h : Host) : Type 0 where
  pub nf2ph : h.node.ph.sp_nf2ph ≡ []
  pub rvs2ph : h.node.ph.sp_rvs2ph ≡ []
  pub mo2ph : h.node.ph.sp_mo2ph ≡ []
  pub gwt2ph : h.node.ph.sp_gwt2ph ≡ messages
  pub ph2nr : h.node.ph.sp_ph2nr ≡ []

-- A gateway whose packet handler has handed on a registration.
pub record Awaits (m : NidMsg) (h : Host) : Type 0 where
  pub type : m.type ≡ registry
  pub co : h.node.sp_ph2co ≡ message m ∷ []
  pub co2gwl : h.node.sp_co2gwl ≡ []
  pub rvs2gwt : h.sp_rvs2gwt ≡ []
  pub gwl2gwt : h.sp_gwl2gwt ≡ []

-- The gateway after it has sent a message of its talker.
pub record SentUp (later : Clock) (up : NidMsg) (h h' : Host) : Type 0 where
  pub node : IsNode h'.node
  pub sent :
      h'.node.nr.sent ≡ h.node.nr.sent ++ (mapped later up.dest_nid h.node.nr, passed_up up) ∷ []
  pub rt : h'.node.nr.rt ≡ h.node.nr.rt
  pub ph2nr : h'.node.ph.sp_ph2nr ≡ []
  pub nr_socket : h'.sp_nr ≡ h.sp_nr
  pub conf : h'.conf ≡ h.conf

-- The gateway after it has passed a registration up.
pub record Climbed (now : ℕ) (later : Clock) (locator : Nid32) (m : NidMsg) (h h' : Host)
    : Type 0 where
  pub node : IsNode h'.node
  pub sent :
      h'.node.nr.sent
      ≡ h.node.nr.sent
        ++ (mapped later h.conf.nidgw h.node.nr, passed_up (registration h.conf locator m)) ∷ []
  pub routes :
      Writes h.node.nr.rt.rtable m.nid
        (some (renewed now m.ip (view h.node.nr.rt.rtable m.nid)))
        h'.node.nr.rt.rtable
  pub ph2nr : h'.node.ph.sp_ph2nr ≡ []
  pub nr_socket : h'.sp_nr ≡ h.sp_nr
  pub conf : h'.conf ≡ h.conf

module _ (inet_ntop6 : Nid → CString) (inet_pton6 : CString → Option Nid)
    (inet_pton4 : CString → Option Nid32) where
  abbrev act : HostEvent → Host → Run Host
  act = host_round inet_ntop6 inet_pton6 inet_pton4

  -- The second half of the way through a gateway.
  talked-sent :
      (later : Clock) (up : NidMsg) (h : Host)
      → IsNode h.node
      → OnlyTalks (up ∷ []) h
      → is_hit (known_age later up.dest_nid h.node.nr) ≡ true
      → Returns (act (of_node handled_out) h >>= act (gw_routed_out later)) (SentUp later up h)
  unfolding host_round output_round round ph_output output_gwt write_ph2nr nr_output_gw_own sendto
  talked-sent later up h is waits hit =
      let ((asked, nr), run, after) = ask_cm_lem later up.dest_nid h.node.nr is.nr in
      let hits : asked ≡ true = after.hits ∙ hit in
      rw (waits.nf2ph, waits.rvs2ph, waits.mo2ph, waits.gwt2ph, ◌>>=◌, waits.ph2nr, run, hits)
        (
          _,
          refl,
          record {
            node = record {
              nr = record {
                cm = after.well.cm;
                rt = after.well.rt;
                registry = after.well.registry;
                dht = after.well.dht;
              };
              names = is.names;
            };
            sent = rw (after.sent, after.peer);
            rt = after.rt;
            ph2nr = refl;
            nr_socket = refl;
            conf = refl;
          },
        )

  -- The gateway after the first half.
  abbrev registered_at : Routing → NidMsg → Host → Host
  registered_at rt up h = record h {
    node = record h.node {
      nr = record h.node.nr { rt = rt };
      ph = record h.node.ph { sp_gwt2ph = up ∷ [] };
      sp_ph2co = [];
      sp_co2gwl = [];
    };
    sp_rvs2gwt = [];
    sp_gwl2gwt = [];
  }

  controlled-talked :
      (now : ℕ) (locator : Nid32) (m bytes : NidMsg) (rt : Routing) (h : Host)
      → Awaits m h
      → h.node.ph.sp_gwt2ph ≡ []
      → new_rt_entry now m.nid m.ip h.node.nr.rt ≡ ok rt
      → (act (gw_controlled now bytes) h >>= act (gw_listened now) >>= act (gw_talked locator))
        ≡ ok (registered_at rt (registration h.conf locator m) h)
  unfolding host_round control_round control_gw heard_as listen_round gw_listener gw_state put_gw
      gw_talker registration
  controlled-talked now locator m bytes rt h waits quiet run =
      let redirects : (m.type == redirect) ≡ false = rw waits.type in
      let relocates : (m.type == relocate) ≡ false = rw waits.type in
      let registers : (m.type == registry) ≡ true = rw waits.type in
      rw
        (
          waits.co, redirects, relocates, registers, waits.co2gwl, ◌>>=◌, run, waits.rvs2gwt,
          waits.gwl2gwt, quiet,
        )
        refl

  -- The five rounds.
  abbrev pub climb_rounds : ℕ → Clock → Nid32 → NidMsg → Host → Run Host
  climb_rounds now later locator bytes h =
      act (gw_controlled now bytes) h
      >>= act (gw_listened now)
      >>= act (gw_talked locator)
      >>= act (of_node handled_out)
      >>= act (gw_routed_out later)

  -- The routing table then leads the registered identifier to the address that the message named,
  -- unless it has a static entry, which is kept.
  pub climb_rounds-Climbed :
      (now : ℕ) (later : Clock) (locator : Nid32) (m bytes : NidMsg) (h : Host)
      → IsNode h.node
      → Awaits m h
      → OnlyTalks [] h
      → is_hit (known_age later h.conf.nidgw h.node.nr) ≡ true
      → Returns (climb_rounds now later locator bytes h) (Climbed now later locator m h)
  unfolding registration
  climb_rounds-Climbed now later locator m bytes h is waits quiet hit =
      let (rt, run, (writes, same_gw)) = new_rt_entry-Writes now m.nid m.ip h.node.nr.rt is.nr.rt in
      let up : NidMsg = registration h.conf locator m in
      let h₁ : Host = registered_at rt up h in
      let (h', run', done) =
        talked-sent later up h₁
          (record {
            nr = record {
              cm = is.nr.cm;
              rt = writes.0;
              registry = is.nr.registry;
              dht = is.nr.dht;
            };
            names = is.names;
          })
          (record {
            nf2ph = quiet.nf2ph;
            rvs2ph = quiet.rvs2ph;
            mo2ph = quiet.mo2ph;
            gwt2ph = refl;
            ph2nr = quiet.ph2nr;
          })
          hit in
      rw (controlled-talked now locator m bytes rt h waits quiet.gwt2ph run, ◌>>=◌)
        (
          h',
          run',
          record {
            node = done.node;
            sent = done.sent;
            routes = rw done.rt writes;
            ph2nr = done.ph2nr;
            nr_socket = done.nr_socket;
            conf = done.conf;
          },
        )
