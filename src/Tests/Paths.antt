-- ===== src/Tests/Paths.antt =====
-- A registration and a packet on a path of two gateways.
use node_identity_architetur.Base.{◌≡◌, ◌∙◌, true, false, refl, [], ◌∷◌, ◌==◌, arith}
use node_identity_architetur.Hosts.Path.{Station, Ready, raised, AllPass, IsPath-AllPass}
use node_identity_architetur.Hosts.Arrival.{Resting}
use node_identity_architetur.Hosts.{Host}
use node_identity_architetur.Key.{same, same_refl}
use node_identity_architetur.Mapper.Entries.{static_cm_entry-Writes}
use node_identity_architetur.Mapper.{ConnTable}
use node_identity_architetur.Message.{NidMsg, Packet, registry}
use node_identity_architetur.Nid.{Nid, Nid32, nid_key, bytes_eq}
use node_identity_architetur.Tests.Data.{
  conf, nr, routing, mapper, mapper-IsMapper, dht-IsDht, conns-IsValid, names-IsNidMapper, no_conns,
  no_conns-IsValid, no_conns-view, moved, packet, noon, alice, bob, carol, node_nid,
}
use node_identity_architetur.Tests.Hosts.{gateway, no_text, unread}

abbrev dave : Nid
dave = node_nid 4

-- Alice's gateway is Bob, at 7, and Bob's is Carol, at 7 too.
abbrev towards : Nid → ConnTable
towards nid = (static_cm_entry-Writes nid 7 no_conns no_conns-IsValid).0

abbrev resting : Nid → Nid → Host
resting own up = record (gateway []) {
  conf = record conf { nid = own; nidgw = up };
  node = record (gateway []).node {
    nr = record nr {
      cm = record mapper { connmap = towards up };
      rt = record routing { rtable = no_conns };
    };
  };
}

abbrev station : Nid → Nid → Nid32 → Station
station own up locator = record {
  host = resting own up;
  now = 98;
  later = noon;
  locator = locator;
  bytes = moved;
  above = 7;
  sends = false;
  back = 99;
  back_out = noon;
}

abbrev registering : NidMsg
registering = record moved { type = registry; nid = dave; dest_nid = alice; ip = 4 }

abbrev to_dave : Packet
to_dave = record packet { header = record packet.header { dest_nid = dave } }

resting-Resting : (own up : Nid) → Resting (resting own up)
resting-Resting own up = record {
  node = record {
    nr = record {
      cm = record {
        conns = (static_cm_entry-Writes up 7 no_conns no_conns-IsValid).2.0;
        requests = mapper-IsMapper.requests;
      };
      rt = no_conns-IsValid;
      registry = conns-IsValid;
      dht = dht-IsDht;
    };
    names = names-IsNidMapper;
  };
  talks = record { nf2ph = refl; rvs2ph = refl; mo2ph = refl; gwt2ph = refl; ph2nr = refl };
  nr2ph = refl;
  ph2co = refl;
  co2gwl = refl;
  rvs2gwt = refl;
  gwl2gwt = refl;
  nr_socket = refl;
}

ready :
    (own up : Nid) (locator : Nid32) (m : NidMsg)
    → same m.dest_nid own ≡ true
    → same dave own ≡ false
    → m.nid ≡ dave
    → (m.ip == 0) ≡ false
    → Ready to_dave m (station own up locator)
ready own up locator m mine other registers addressed = record {
  rests = resting-Resting own up;
  mine = mine;
  pinned =
      (static_cm_entry-Writes up 7 no_conns no_conns-IsValid).2.1 up
      ∙ rw (same_refl up, no_conns-view up) refl;
  dynamic = λ ce held. let absent = no_conns-view m.nid in cc;
  addressed = addressed;
  other = other;
  soon = omega arith;
}

IsPath-AllPass_example :
    AllPass no_text unread unread to_dave registering
      (station alice bob 5 ∷ station bob carol 7 ∷ [])
unfolding bytes_eq
IsPath-AllPass_example =
    IsPath-AllPass no_text unread unread to_dave registering
      (station alice bob 5 ∷ station bob carol 7 ∷ []) refl refl
      (
        ready alice bob 5 registering refl refl refl refl,
        (ready bob carol 7 (raised (station alice bob 5) registering) refl refl refl refl, tt),
      )
