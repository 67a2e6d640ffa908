-- ===== src/Tests/Starts.antt =====
-- A request of one node, and another's answer.
use node_identity_architetur.Base.{◌≡◌, refl, [], ◌∷◌, ◌++◌, arith}
use node_identity_architetur.Forward.Output.{mapped}
use node_identity_architetur.Key.{same_refl}
use node_identity_architetur.Message.{IpPacket, Packet}
use node_identity_architetur.Nid.{nid_key, nid32_key, nid2nid32}
use node_identity_architetur.Run.{Returns}
use node_identity_architetur.Startup.Exchange.{
  Idle, Received, answered_to, sender, take_rounds, request-answered,
}
use node_identity_architetur.Startup.Safe.{IsNode}
use node_identity_architetur.Startup.Send.{wrapped, send_rounds}
use node_identity_architetur.Startup.{Node}
use node_identity_architetur.Tests.Data.{
  conf, bob_conf, ping, nr, nr-IsNr, ph, names-IsNidMapper, names-bob, alice, bob, carol, noon,
  after_noon,
}

abbrev node : Node
node = record {
  nr = nr;
  ph = ph;
  raw_tcp = [];
  raw_udp = [];
  raw_icmp = [];
  sp_nr2ph = [];
  sp_ph2co = [];
  sp_co2rvs = [];
  sp_co2gwl = [];
  count = 0;
}

node-IsNode : IsNode node
node-IsNode = record { nr = nr-IsNr; names = names-IsNidMapper }

-- Bob's node, and the packet that Alice's sends him.
abbrev asked : Packet
asked = wrapped ph (record { nid = bob; nidgw = carol }) ping

abbrev pong : IpPacket
pong = record { protocol = 1; daddr = nid2nid32 alice; bytes = [] }

node-Idle : Idle node
node-Idle = record { well = node-IsNode; nf2ph = refl; ph2nr = refl; nr2ph = refl }

request-answered_example : Returns (send_rounds conf noon ping node) λ a₁.
    (a₁.nr.sent ≡ [] ++ (mapped noon bob nr, asked) ∷ [])
    × Returns (take_rounds bob_conf 101 5 asked node) λ b₁.
      Received asked node b₁
      × Returns (send_rounds bob_conf after_noon pong b₁) λ b₂.
        (b₂.nr.sent ≡ [] ++ (answered_to 101 5 asked node, wrapped ph (sender asked) pong) ∷ [])
        × Returns
            (take_rounds conf 102 7 (wrapped ph (sender asked) pong) a₁)
            (Received (wrapped ph (sender asked) pong) node)
request-answered_example =
    request-answered conf bob_conf noon after_noon 101 102 5 7 ping pong
      (record { nid = bob; nidgw = carol }) node node node-Idle node-Idle names-bob (same_refl bob)
      refl refl (omega arith)
