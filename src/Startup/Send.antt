-- ===== src/Startup/Send.antt =====
-- A packet of an application on its way out of a node.
use node_identity_architetur.Base.{◌≡◌, refl, some, [], ◌∷◌, ◌++◌}
use node_identity_architetur.Config.{Config}
use node_identity_architetur.Forward.Output.{mapped, nr_output_lem}
use node_identity_architetur.Message.{IpPacket, datagram, Packet}
use node_identity_architetur.Names.{NmEntry32}
use node_identity_architetur.Nid.{Nid32, nid_key, nid32_key}
use node_identity_architetur.PacketHandler.Rounds.{data_header, ph_output_datagram}
use node_identity_architetur.PacketHandler.{PhState}
use node_identity_architetur.Queue.{Clock}
use node_identity_architetur.Run.{Run, ◌>>=◌, Returns, returned}
use node_identity_architetur.Startup.Safe.{IsNode, output_keeps}
use node_identity_architetur.Startup.{Node, captured, handled_out, routed_out, round}
use node_identity_architetur.Table.View.{view}

-- The packet that a captured packet becomes.
abbrev pub wrapped : PhState → NmEntry32 → IpPacket → Packet
wrapped ph nm ip = record { header = data_header ph nm; payload = datagram ip }

-- A node after it has sent a packet: it is idle again, and has taken in nothing.
pub record Sent (to : Nid32) (p : Packet) (s s' : Node) : Type 0 where
  pub well : IsNode s'
  pub nf2ph : s'.ph.sp_nf2ph ≡ []
  pub ph2nr : s'.ph.sp_ph2nr ≡ []
  pub sent : s'.nr.sent ≡ s.nr.sent ++ (to, p) ∷ []
  pub waiting : s'.sp_nr2ph ≡ s.sp_nr2ph
  pub tcp : s'.raw_tcp ≡ s.raw_tcp
  pub udp : s'.raw_udp ≡ s.raw_udp
  pub icmp : s'.raw_icmp ≡ s.raw_icmp

-- The three rounds.
abbrev pub send_rounds : Config → Clock → IpPacket → Node → Run Node
send_rounds conf now ip s =
    round conf (captured ip) s >>= round conf handled_out >>= round conf (routed_out now)

-- On well-formed tables, with no packet under way, a captured packet for an address that the name
-- mapper knows is sent by one round of the packet handler and one of the routing thread, to the
-- address that the connection map answers with.
pub send_rounds-Sent :
    (conf : Config) (now : Clock) (ip : IpPacket) (nm : NmEntry32) (s : Node)
    → IsNode s
    → s.ph.sp_nf2ph ≡ []
    → s.ph.sp_ph2nr ≡ []
    → view s.ph.names.nid32_table ip.daddr ≡ some nm
    → Returns (send_rounds conf now ip s) (Sent (mapped now nm.nid s.nr) (wrapped s.ph nm ip) s)
unfolding round
send_rounds-Sent conf now ip nm s is quiet quiet' known =
    let given : PhState = record s.ph { sp_nf2ph = s.ph.sp_nf2ph ++ ip ∷ [] } in
    let (ph, run, (rest, out)) = ph_output_datagram ip [] given is.names (rw quiet) in
    let kept : ph.names ≡ s.ph.names = returned ph (output_keeps given is.names) run in
    let p = wrapped s.ph nm ip in
    let (nr, run', (well, sent)) = nr_output_lem now p s.nr is.nr in
    let only : ph.sp_ph2nr ≡ p ∷ [] = rw (out, known, quiet') in
    rw (run, ◌>>=◌, round, only, run')
      (
        _,
        refl,
        record {
          well = record { nr = well; names = rw kept is.names };
          nf2ph = rest;
          ph2nr = refl;
          sent = sent;
          waiting = refl;
          tcp = refl;
          udp = refl;
          icmp = refl;
        },
      )
