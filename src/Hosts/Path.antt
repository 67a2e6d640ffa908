-- ===== src/Hosts/Path.antt =====
-- A path of gateways: a registration climbs it, and packets for the registered node come down it.
use node_identity_architetur.Base.{
  ℕ, ◌+◌, ◌<◌, ◌≡◌, refl, ◌∙◌, ap, Bool, true, false, Option, some, List, [], ◌∷◌, ◌++◌, ◌==◌,
}
use node_identity_architetur.Conn.{ConnEntry, gateway_timeout}
use node_identity_architetur.Forward.Output.{known_age, mapped, routed}
use node_identity_architetur.Gateway.Climb.{route-renewed}
use node_identity_architetur.Gateway.{registration}
use node_identity_architetur.Hosts.Climbing.{passed_up, climb_rounds, climb_rounds-Climbed}
use node_identity_architetur.Hosts.Routed.{arrived-forwarded}
use node_identity_architetur.Hosts.{Host, HostEvent, of_node, gw_routed_out, gw_arrived, host_round}
use node_identity_architetur.Key.{same, same_refl}
use node_identity_architetur.Mapper.Entries.{renewed}
use node_identity_architetur.Mapper.Lookup.{is_hit}
use node_identity_architetur.Message.{NidMsg, Packet, registry}
use node_identity_architetur.Nid.{Nid, Nid32, CString, nid_key}
use node_identity_architetur.Queue.{Clock}
use node_identity_architetur.Run.{Run, ◌>>=◌, Returns}
use node_identity_architetur.Startup.{handled_in}
use node_identity_architetur.Table.View.{view}
use node_identity_architetur.Hosts.Arrival.{Resting, take_rounds-Taken}

-- A gateway on the path: when a registration arrives and is sent on, what its own address is, what
-- the control thread's buffer holds, the address of its own gateway, whether `sendto` succeeds on its
-- raw sockets, and when a packet comes back and is sent on.
pub record Station : Type 0 where
  pub host : Host
  pub now : ℕ
  pub later : Clock
  pub locator : Nid32
  pub bytes : NidMsg
  pub above : Nid32
  pub sends : Bool
  pub back : ℕ
  pub back_out : Clock

-- What the gateway makes of a registration.
abbrev pub raised : Station → NidMsg → NidMsg
raised s m = record m { type = registry; dest_nid = s.host.conf.nidgw; ip = s.locator }

-- What is asked of the gateway: it rests, the registration `m` is for it, its own gateway's entry is
-- static, as `main` makes it, and the registered node's route is not; the packet `p` is for another,
-- and is sent on less than GATEWAY_TIMEOUT seconds after the registration was heard.
pub record Ready (p : Packet) (m : NidMsg) (s : Station) : Type 0 where
  pub rests : Resting s.host
  pub mine : same m.dest_nid s.host.conf.nid ≡ true
  pub pinned :
      view s.host.node.nr.cm.connmap s.host.conf.nidgw ≡ some (record { ip = s.above; tstamp = 0 })
  pub dynamic :
      (ce : ConnEntry) → view s.host.node.nr.rt.rtable m.nid ≡ some ce → (ce.tstamp == 0) ≡ false
  pub addressed : (m.ip == 0) ≡ false
  pub other : same p.header.dest_nid s.host.conf.nid ≡ false
  pub soon : s.back_out.sec < s.now + gateway_timeout

-- The gateways of a path are ready, each for the registration that the one below passes up.
abbrev pub IsPath : Packet → NidMsg → List Station → Type 0
IsPath p m [] = Unit
IsPath p m (s ∷ ss) = Ready p m s × IsPath p (raised s m) ss

module _ (inet_ntop6 : Nid → CString) (inet_pton6 : CString → Option Nid)
    (inet_pton4 : CString → Option Nid32) where
  abbrev act : HostEvent → Host → Run Host
  act = host_round inet_ntop6 inet_pton6 inet_pton4

  -- A registration that arrives at the gateway goes through seven rounds.
  abbrev pub pass_up : NidMsg → Station → Run Host
  pass_up m s =
      act (gw_arrived s.now m.ip (passed_up m)) s.host
      >>= act (of_node (handled_in s.sends))
      >>= climb_rounds inet_ntop6 inet_pton6 inet_pton4 s.now s.later s.locator s.bytes

  -- A packet that comes back goes through two.
  abbrev pub pass_down : Packet → Station → Host → Run Host
  pass_down p s h = act (gw_arrived s.back s.above p) h >>= act (gw_routed_out s.back_out)

  -- What the gateway does: one packet goes up, and then the packet `p` down.
  abbrev pub Passes : Packet → NidMsg → Station → Type 0
  Passes p m s = Returns (pass_up m s) λ h.
      (h.node.nr.sent ≡ s.host.node.nr.sent ++ (s.above, passed_up (raised s m)) ∷ [])
      × Returns (pass_down p s h) λ h'. h'.node.nr.sent ≡ h.node.nr.sent ++ (m.ip, p) ∷ []

  Ready-Passes :
      (p : Packet) (m : NidMsg) (s : Station)
      → m.type ≡ registry
      → p.header.dest_nid ≡ m.nid
      → Ready p m s
      → Passes p m s
  unfolding registration
  Ready-Passes p m s registers for_it ready =
      let (h₁, run₁, taken) =
        take_rounds-Taken inet_ntop6 inet_pton6 inet_pton4 s.now s.sends m s.host ready.rests
          registers ready.mine in
      let known : view h₁.node.nr.cm.connmap s.host.conf.nidgw
          ≡ some (record { ip = s.above; tstamp = 0 }) =
        taken.static (record { ip = s.above; tstamp = 0 }) refl s.host.conf.nidgw ready.pinned in
      let hit : is_hit (known_age s.later h₁.conf.nidgw h₁.node.nr) ≡ true =
        rw (taken.conf, known) refl in
      let (h₂, run₂, done) =
        climb_rounds-Climbed inet_ntop6 inet_pton6 inet_pton4 s.now s.later s.locator m s.bytes h₁
          taken.node taken.waits taken.talks hit in
      let elsewhere : same p.header.dest_nid h₂.conf.nid ≡ false =
        rw (done.conf, taken.conf) ready.other in
      let (h₃, run₃, (down, same₁, same₂)) =
        arrived-forwarded inet_ntop6 inet_pton6 inet_pton4 h₂ done.node s.back s.back_out s.above p
          elsewhere done.ph2nr (done.nr_socket ∙ taken.nr_socket) in
      let up : (mapped s.later h₁.conf.nidgw h₁.node.nr ≡ s.above) = rw (taken.conf, known) refl in
      let entry : view h₂.node.nr.rt.rtable p.header.dest_nid
          ≡ some (renewed s.now m.ip (view s.host.node.nr.rt.rtable m.nid)) =
        rw for_it (done.routes.1 m.nid ∙ rw (same_refl m.nid, taken.rt) refl) in
      let answers : routed s.back_out p.header.dest_nid h₂.node.nr ≡ (true, m.ip) = rw entry (
        route-renewed s.now s.back_out.sec h₂.node.nr.rt.gateway_ip m.ip
          (view s.host.node.nr.rt.rtable m.nid) ready.dynamic ready.addressed ready.soon) in
      let back : (routed s.back_out p.header.dest_nid h₂.node.nr).1 ≡ m.ip =
        ap (λ (a : Bool × Nid32). a.1) answers in
      (
        h₂,
        rw run₁ run₂,
        (done.sent ∙ rw (up, taken.conf, taken.sent) refl, (h₃, run₃, down ∙ rw back refl)),
      )

  -- Each passes the registration up, and the packet down.
  abbrev pub AllPass : Packet → NidMsg → List Station → Type 0
  AllPass p m [] = Unit
  AllPass p m (s ∷ ss) = Passes p m s × AllPass p (raised s m) ss

  -- A REGISTRY message climbs a path of gateways of any length that are at rest, each of which
  -- knows its own gateway by a static entry and has no static route for the registered identifier,
  -- and no registration holds the address 0: each gateway that is given the registration, from the
  -- address that the registration holds, sends one packet in seven rounds of its threads, to the
  -- address of its own gateway, with the registration under that gateway's identifier and its own
  -- address. A packet for the registered identifier that then arrives at the gateway from above
  -- less than GATEWAY_TIMEOUT seconds later, and is for none of the gateways, is sent in two
  -- rounds, once and unchanged, to the address that the registration held there, which is that of
  -- the gateway below.
  pub IsPath-AllPass :
      (p : Packet) (m : NidMsg) (ss : List Station)
      → m.type ≡ registry
      → p.header.dest_nid ≡ m.nid
      → IsPath p m ss
      → AllPass p m ss
  IsPath-AllPass p m [] registers for_it path = tt
  IsPath-AllPass p m (s ∷ ss) registers for_it (ready, path) =
      (Ready-Passes p m s registers for_it ready, IsPath-AllPass p (raised s m) ss refl for_it path)
