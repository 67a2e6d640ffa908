-- ===== src/Startup/Exchange.antt =====
-- A request and its answer between two nodes.
use node_identity_architetur.Base.{
  ℕ, ◌+◌, ◌<◌, ◌≡◌, refl, ◌∙◌, ap, Option, none, some, true, [], ◌∷◌, ◌++◌, arith, ◌==◌,
}
use node_identity_architetur.Config.{Config}
use node_identity_architetur.Conn.{ConnEntry, rvs_update_timeout}
use node_identity_architetur.Forward.Input.{nr_input_lem}
use node_identity_architetur.Forward.Output.{mapped}
use node_identity_architetur.Forward.{NrInput}
use node_identity_architetur.Hash32.{hash_lookup32}
use node_identity_architetur.Key.{same, same_refl}
use node_identity_architetur.Mapper.Entries.{Writes, renewed}
use node_identity_architetur.Mapper.Lookup.{age, answer_ip}
use node_identity_architetur.Message.{IpPacket, Packet}
use node_identity_architetur.Names.Entries.{Named}
use node_identity_architetur.Names.{NidMapper, NmEntry32, get_nm_entry32}
use node_identity_architetur.Nid.{Nid, Nid32, nid_key, nid32_key, nid2nid32}
use node_identity_architetur.PacketHandler.Rounds.{for_socket, ph_input_lem}
use node_identity_architetur.PacketHandler.{PhInput, PhState}
use node_identity_architetur.Queue.{Clock}
use node_identity_architetur.Run.{Run, ok, ◌>>=◌, Returns, returned}
use node_identity_architetur.Startup.Safe.{IsNode, cm_IsNr}
use node_identity_architetur.Startup.Send.{wrapped, Sent, send_rounds, send_rounds-Sent}
use node_identity_architetur.Startup.{Node, arrived, handled_in, round}
use node_identity_architetur.Table.View.{view, hash_lookup-view}

-- Whatever the entry of an identifier was, while it is younger than RVS_UPDATE_TIMEOUT the renewed
-- one answers with its own address.
renewed_answers :
    (now t : ℕ) (from gw : Nid32) (e : Option ConnEntry)
    → t < now + rvs_update_timeout
    → answer_ip gw (age t (some (renewed now from e))) (some (renewed now from e))
      ≡ (renewed now from e).ip
renewed_answers now t from gw none soon = ground (arith, soon)
renewed_answers now t from gw (some ce) soon = ground (arith, soon)

Named-knows :
    (nid nidgw : Nid) (s s' : NidMapper)
    → Named nid nidgw s s'
    → view s'.nid32_table (nid2nid32 nid) ≡ some (record { nid = nid; nidgw = nidgw })
unfolding get_nm_entry32 hash_lookup32
Named-knows nid nidgw s s' named =
    let q = nid2nid32 nid in
    let itself : (q == q) ≡ true = same_refl {K = Nid32} q in
    let seen : hash_lookup32 q s'.nid32_table ≡ ok (some (record { nid = nid; nidgw = nidgw })) =
      named.reads32 q ∙ rw itself in
    returned {Good = λ e. view s'.nid32_table q ≡ e} (some (record { nid = nid; nidgw = nidgw }))
      (view s'.nid32_table q, hash_lookup-view s'.nid32_table q named.well.names32.sized, refl) seen

-- A node after it has taken in a packet.
pub record Taken (now : ℕ) (from : Nid32) (p : Packet) (s s' : Node) : Type 0 where
  pub well : IsNode s'
  pub knows :
      view s'.ph.names.nid32_table (nid2nid32 p.header.src_nid)
      ≡ some (record { nid = p.header.src_nid; nidgw = p.header.src_nid_gw })
  pub learned :
      Writes s.nr.cm.connmap p.header.src_nid
        (some (renewed now from (view s.nr.cm.connmap p.header.src_nid)))
        s'.nr.cm.connmap
  pub handler : s'.ph ≡ record s.ph { names = s'.ph.names }
  pub sent : s'.nr.sent ≡ s.nr.sent
  pub waiting : s'.sp_nr2ph ≡ []
  pub tcp : s'.raw_tcp ≡ s.raw_tcp ++ for_socket 6 p
  pub udp : s'.raw_udp ≡ s.raw_udp ++ for_socket 17 p
  pub icmp : s'.raw_icmp ≡ s.raw_icmp ++ for_socket 1 p

abbrev pub take_rounds : Config → ℕ → Nid32 → Packet → Node → Run Node
take_rounds conf now from p s = round conf (arrived now from p) s >>= round conf (handled_in true)

pub take_rounds-Taken :
    (conf : Config) (now : ℕ) (from : Nid32) (p : Packet) (s : Node)
    → IsNode s
    → s.sp_nr2ph ≡ []
    → same p.header.dest_nid conf.nid ≡ true
    → Returns (take_rounds conf now from p s) (Taken now from p s)
unfolding round
take_rounds-Taken conf now from p s is quiet mine =
    let given : NrInput = record { connmap = s.nr.cm.connmap; sp_nr2ph = s.sp_nr2ph; sp_nr = [] } in
    let (r, run, taken) = ((nr_input_lem now from p given is.nr.cm.conns conf.nid).0 mine).0 in
    let only : r.sp_nr2ph ≡ p ∷ [] = rw (taken.handed, quiet) in
    let before : PhInput = record {
      names = s.ph.names;
      raw_tcp = s.raw_tcp;
      raw_udp = s.raw_udp;
      raw_icmp = s.raw_icmp;
      sp_ph2co = s.sp_ph2co;
    } in
    let (r', run', (named, co, tcp, udp, icmp)) = (ph_input_lem p before is.names).0 in
    rw (run, ◌>>=◌, round, only, run')
      (
        _,
        refl,
        record {
          well = record {
            nr =
                cm_IsNr s.nr _ is.nr
                  (record { conns = taken.learned.0; requests = is.nr.cm.requests });
            names = named.well;
          };
          knows = Named-knows p.header.src_nid p.header.src_nid_gw s.ph.names r'.names named;
          learned = taken.learned;
          handler = refl;
          sent = refl;
          waiting = refl;
          tcp = tcp;
          udp = udp;
          icmp = icmp;
        },
      )

-- A node with no packet under way.
pub record Idle (s : Node) : Type 0 where
  pub well : IsNode s
  pub nf2ph : s.ph.sp_nf2ph ≡ []
  pub ph2nr : s.ph.sp_ph2nr ≡ []
  pub nr2ph : s.sp_nr2ph ≡ []

-- The address a node answers a packet to.
abbrev pub answered_to : ℕ → Nid32 → Packet → Node → Nid32
answered_to now from p s = (renewed now from (view s.nr.cm.connmap p.header.src_nid)).ip

-- The sender of a packet, as the name mapper keeps it.
abbrev pub sender : Packet → NmEntry32
sender p = record { nid = p.header.src_nid; nidgw = p.header.src_nid_gw }

Sent-same :
    {to to' : Nid32} {p p' : Packet} {s s' : Node}
    → to ≡ to'
    → p ≡ p'
    → Sent to p s s'
    → Sent to' p' s s'
Sent-same e f done = rw (← e, ← f) done

take_rounds-answer :
    (conf : Config) (now : ℕ) (later : Clock) (from : Nid32) (p : Packet) (answer : IpPacket)
    (s s' : Node)
    → Idle s
    → Taken now from p s s'
    → answer.daddr ≡ nid2nid32 p.header.src_nid
    → later.sec < now + rvs_update_timeout
    → Returns
        (send_rounds conf later answer s')
        (Sent (answered_to now from p s) (wrapped s.ph (sender p) answer) s')
take_rounds-answer conf now later from p answer s s' idle taken back soon =
    let nf2ph : s'.ph.sp_nf2ph ≡ [] = rw taken.handler idle.nf2ph in
    let ph2nr : s'.ph.sp_ph2nr ≡ [] = rw taken.handler idle.ph2nr in
    let (s'', run, done) =
      send_rounds-Sent conf later answer (sender p) s' taken.well nf2ph ph2nr
        (rw back taken.knows) in
    let to : mapped later p.header.src_nid s'.nr ≡ answered_to now from p s =
      let entry : view s'.nr.cm.connmap p.header.src_nid
          ≡ some (renewed now from (view s.nr.cm.connmap p.header.src_nid)) =
        taken.learned.1 p.header.src_nid ∙ rw (same_refl p.header.src_nid) in
      rw entry (
        renewed_answers now later.sec from s'.nr.cm.cm_gateway_ip
          (view s.nr.cm.connmap p.header.src_nid) soon) in
    let made : wrapped s'.ph (sender p) answer ≡ wrapped s.ph (sender p) answer =
      ap (λ (ph : PhState). wrapped ph (sender p) answer) taken.handler in
    (s'', run, Sent-same to made done)

-- The raw sockets after a packet.
pub record Received (p : Packet) (s s' : Node) : Type 0 where
  pub tcp : s'.raw_tcp ≡ s.raw_tcp ++ for_socket 6 p
  pub udp : s'.raw_udp ≡ s.raw_udp ++ for_socket 17 p
  pub icmp : s'.raw_icmp ≡ s.raw_icmp ++ for_socket 1 p

-- Two nodes on well-formed tables, with no packet under way. A request, captured on the first for
-- an address that its name mapper knows as the second's identifier, is sent, after three rounds, to
-- the address that the connection map answers with. If it arrives at the second from any address
-- `from`, two rounds give it to the raw socket of its protocol. An answer, captured there for the
-- 32-bit identifier that `nid2nid32` makes of the first's, and routed less than RVS_UPDATE_TIMEOUT
-- seconds after the request arrived, is sent to `from`, or to the address of the static entry for
-- the first if the second's connection map has one. If it arrives at the first, two rounds give it
-- to the raw socket of its protocol. The header that the first's packet handler left must name the
-- first as its source. The raw sockets must take what they are given.
pub request-answered :
    (conf₁ conf₂ : Config) (sent_at later : Clock) (now now' : ℕ) (from from' : Nid32)
    (request answer : IpPacket) (nm : NmEntry32) (a b : Node)
    → Idle a
    → Idle b
    → view a.ph.names.nid32_table request.daddr ≡ some nm
    → same nm.nid conf₂.nid ≡ true
    → a.ph.header.src_nid ≡ conf₁.nid
    → answer.daddr ≡ nid2nid32 conf₁.nid
    → later.sec < now + rvs_update_timeout
    → Returns (send_rounds conf₁ sent_at request a) λ a₁.
      (a₁.nr.sent ≡ a.nr.sent ++ (mapped sent_at nm.nid a.nr, wrapped a.ph nm request) ∷ [])
      × Returns (take_rounds conf₂ now from (wrapped a.ph nm request) b) λ b₁.
        Received (wrapped a.ph nm request) b b₁
        × Returns (send_rounds conf₂ later answer b₁) λ b₂.
          (b₂.nr.sent
            ≡ b.nr.sent
              ++ (
                answered_to now from (wrapped a.ph nm request) b,
                wrapped b.ph (sender (wrapped a.ph nm request)) answer,
              )
                ∷ [])
          × Returns
              (take_rounds conf₁ now' from'
                (wrapped b.ph (sender (wrapped a.ph nm request)) answer)
                a₁)
              (Received (wrapped b.ph (sender (wrapped a.ph nm request)) answer) a)
request-answered conf₁ conf₂ sent_at later now now' from from' request answer nm a b idle₁ idle₂
      known here own back soon =
    let p : Packet = wrapped a.ph nm request in
    let q : Packet = wrapped b.ph (sender p) answer in
    let (a₁, run₁, out) =
      send_rounds-Sent conf₁ sent_at request nm a idle₁.well idle₁.nf2ph idle₁.ph2nr known in
    let (b₁, run₂, taken) = take_rounds-Taken conf₂ now from p b idle₂.well idle₂.nr2ph here in
    let (b₂, run₃, out') =
      take_rounds-answer conf₂ now later from p answer b b₁ idle₂ taken (rw own back) soon in
    let mine : same q.header.dest_nid conf₁.nid ≡ true = rw own (same_refl conf₁.nid) in
    let (a₂, run₄, taken') =
      take_rounds-Taken conf₁ now' from' q a₁ out.well (out.waiting ∙ idle₁.nr2ph) mine in
    (
      a₁,
      run₁,
      (
        out.sent,
        (
          b₁,
          run₂,
          (
            record { tcp = taken.tcp; udp = taken.udp; icmp = taken.icmp },
            (
              b₂,
              run₃,
              (
                out'.sent ∙ rw taken.sent,
                (
                  a₂,
                  run₄,
                  record {
                    tcp = taken'.tcp ∙ rw out.tcp;
                    udp = taken'.udp ∙ rw out.udp;
                    icmp = taken'.icmp ∙ rw out.icmp;
                  },
                ),
              ),
            ),
          ),
        ),
      ),
    )
