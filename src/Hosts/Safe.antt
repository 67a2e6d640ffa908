-- ===== src/Hosts/Safe.antt =====
-- No interleaving of the rounds of a host's threads breaks a table, whatever its role.
use node_identity_architetur.Base.{◌∙◌, true, false, refl, Bool, Option, inl, inr, List-cases}
use node_identity_architetur.Config.{Config}
use node_identity_architetur.Control.Roles.{
  control_rvs-Heard, control_gw-Heard, control_gw_core-Heard,
}
use node_identity_architetur.Control.{control_rvs, control_gw, control_gw_core}
use node_identity_architetur.Daemon.{NodeType, Switches, Thread}
use node_identity_architetur.Dhcp.Kept.{thread_dhcp-IsNidMapper}
use node_identity_architetur.Dhcp.{thread_dhcp}
use node_identity_architetur.Dht.Entries.{IsDht}
use node_identity_architetur.Dht.Fetch.{Fetch, thread_dht_update, thread_dht_get}
use node_identity_architetur.Dht.Kept.{thread_dht_get-IsDht}
use node_identity_architetur.Dns.Kept.{thread_dnshandler-IsNidMapper}
use node_identity_architetur.Dns.Proxy.{Proxy, thread_dnshandler}
use node_identity_architetur.Forward.Core.{nr_output_core_own-Sent, nr_output_core_route-Sent}
use node_identity_architetur.Forward.Output.{nr_output_gw_own_lem}
use node_identity_architetur.Forward.{
  nr_output_gw_own, nr_output_gw_route, nr_output_core_own, nr_output_core_route,
}
use node_identity_architetur.Gateway.Climb.{gw_core_listener_lem}
use node_identity_architetur.Gateway.{gw_listener, gw_core_listener, gw_talker}
use node_identity_architetur.Hosts.Begun.{IsHost, start_host-IsHost}
use node_identity_architetur.Hosts.Rounds.{
  Kept, put_gw-Kept, output_round-Kept, input_round-Kept, control_round-Kept, listen_round-Kept,
  gw_listener-IsGw, gw_talker-IsGw, nr_output_gw_route-IsNr,
}
use node_identity_architetur.Hosts.{
  Host, HostEvent, of_node, gw_routed_out, gw_arrived, core_routed_out, rvs_controlled,
  gw_controlled, core_controlled, gw_listened, core_listened, gw_talked, proxy_sent, proxy_received,
  passed_on, dht_updated, dht_asked, leased, proxied, gw_state, send_round, receive_round,
  pass_round, write_gwt2ph, dht_round, lease_round, proxy_round, host_round, Comes, begun, went,
}
use node_identity_architetur.Names.Entries.{IsNidMapper}
use node_identity_architetur.Nid.{Nid, Nid32, CString}
use node_identity_architetur.Reconfigure.{Configured}
use node_identity_architetur.Run.{
  Run, ◌>>=◌, WhenOk, WhenOk-bind, ok-WhenOk, Ends, Ends-WhenOk, Ends-map,
}
use node_identity_architetur.Startup.Safe.{IsNode, CallFails, round-IsNode}

-- The events whose rounds may not end normally: those of dhtc.c's, dhcp.c's and dnshandler.c's
-- threads, which depend on what they are sent from outside.
abbrev pub ReadsOutside : HostEvent → Type 0
ReadsOutside (dht_updated core_ip server) = Unit
ReadsOutside (dht_asked now server result) = Unit
ReadsOutside (leased received) = Unit
ReadsOutside (proxied alloc k) = Unit
ReadsOutside e = ⊥

-- The call fails after which the round ends the process.
abbrev pub HostCallFails : HostEvent → Type 0
HostCallFails (of_node e) = CallFails e
HostCallFails (proxy_sent false) = Unit
HostCallFails e = ⊥

send_round-Ends :
    (sends : Bool) (h : Host)
    → IsNode h.node
    → Ends (send_round sends h) (Kept h) (HostCallFails (proxy_sent sends))
unfolding send_round
send_round-Ends true h is = elim (List-cases h.node.sp_co2rvs) [
  | inl quiet ↦ rw quiet (inl (_, refl, (record { nr = is.nr; names = is.names }, refl)))
  | inr (m, ms, waiting) ↦
      rw waiting (inl (_, refl, (record { nr = is.nr; names = is.names }, refl)))
]
send_round-Ends false h is = elim (List-cases h.node.sp_co2rvs) [
  | inl quiet ↦ rw quiet (inl (_, refl, (record { nr = is.nr; names = is.names }, refl)))
  | inr (m, ms, waiting) ↦ rw waiting (inr (refl, tt))
]

pass_round-Kept : (conf : Config) (h : Host) → IsNode h.node → Kept h (pass_round conf h)
unfolding pass_round write_gwt2ph
pass_round-Kept conf h is = elim (List-cases h.sp_rvs2gwt) [
  | inl quiet ↦ rw quiet (record { nr = is.nr; names = is.names }, refl)
  | inr (m, ms, waiting) ↦ rw waiting (record { nr = is.nr; names = is.names }, refl)
]

module _ (inet_ntop6 : Nid → CString) (inet_pton6 : CString → Option Nid)
    (inet_pton4 : CString → Option Nid32) (h : Host) (is : IsNode h.node) where
  abbrev go : HostEvent → Run Host
  go e = host_round inet_ntop6 inet_pton6 inet_pton4 e h

  host_round-Ends : (e : HostEvent) → ¬ (ReadsOutside e) → Ends (go e) (Kept h) (HostCallFails e)
  unfolding host_round receive_round
  host_round-Ends (of_node e) calm = elim (round-IsNode h.conf e h.node is) [
    | inl (s, run, well) ↦ rw (run, ◌>>=◌) (inl (_, refl, (well, refl)))
    | inr (left, why) ↦ rw (left, ◌>>=◌) (inr (refl, why))
  ]
  host_round-Ends (gw_routed_out now) calm = inl (
      output_round-Kept h is (nr_output_gw_own now) (nr_output_gw_route now)
        (λ p s nr. let (s', run, sent) = nr_output_gw_own_lem now p s nr in (s', run, sent.well))
        (nr_output_gw_route-IsNr now))
  host_round-Ends (gw_arrived now from p) calm = inl (input_round-Kept h is now h.conf.nid from p)
  host_round-Ends (core_routed_out now) calm = inl (
      output_round-Kept h is (nr_output_core_own now) (nr_output_core_route now)
        (λ p s nr. let (s', run, sent) = nr_output_core_own-Sent now p s nr in (s', run, sent.well))
        λ p s nr.
          let (s', run, sent) = nr_output_core_route-Sent now p s nr in (s', run, sent.well))
  host_round-Ends (rvs_controlled now bytes) calm = inl (
      control_round-Kept h is (control_rvs now) bytes
        λ m s well. let (s', run, heard) = control_rvs-Heard now m s well in (s', run, heard.well))
  host_round-Ends (gw_controlled now bytes) calm = inl (
      control_round-Kept h is (control_gw now) bytes
        λ m s well. let (s', run, heard) = control_gw-Heard now m s well in (s', run, heard.well))
  host_round-Ends (core_controlled now bytes) calm = inl (
      control_round-Kept h is (control_gw_core now) bytes λ m s well.
        let (s', run, heard) = control_gw_core-Heard now m s well in (s', run, heard.well))
  host_round-Ends (gw_listened now) calm =
      inl (listen_round-Kept h is (gw_listener now) (gw_listener-IsGw now))
  host_round-Ends (core_listened now locator) calm = inl (
      listen_round-Kept h is (gw_core_listener now h.conf.nid locator) λ m s well.
        let (s', run, after) = gw_core_listener_lem now h.conf.nid locator m s well in
        (s', run, after.0))
  host_round-Ends (gw_talked locator) calm = inl (
      (
        _,
        refl,
        put_gw-Kept (gw_talker h.conf locator (gw_state h)) h is (
            gw_talker-IsGw h.conf locator (gw_state h)
              (unfold gw_state in record { routes = is.nr.rt; registrations = is.nr.registry })),
      ))
  host_round-Ends (proxy_sent sends) calm = send_round-Ends sends h is
  host_round-Ends (proxy_received m) calm =
      inl ((_, refl, (record { nr = is.nr; names = is.names }, refl)))
  host_round-Ends passed_on calm = inl ((_, refl, pass_round-Kept h.conf h is))
  host_round-Ends (dht_updated core_ip server) calm = absurd (calm tt)
  host_round-Ends (dht_asked now server result) calm = absurd (calm tt)
  host_round-Ends (leased received) calm = absurd (calm tt)
  host_round-Ends (proxied alloc k) calm = absurd (calm tt)

  -- The other threads too, where their rounds end normally.
  host_round-when_ok : (e : HostEvent) → WhenOk (go e) (Kept h)
  unfolding host_round dht_round lease_round proxy_round
  host_round-when_ok (dht_updated core_ip server) =
      WhenOk-bind (thread_dht_update inet_ntop6 core_ip h.conf.nid server h.puts) _ (λ r. Unit {0})
        (Kept h) (λ r e. tt)
        λ r u. ok-WhenOk (Kept h) _ (record { nr = is.nr; names = is.names }, refl)
  host_round-when_ok (dht_asked now server result) =
      let s : Fetch = record { dht = h.node.nr.dht; nid32 = h.nid32; aux = h.aux } in
      WhenOk-bind (thread_dht_get inet_ntop6 inet_pton4 now server result s) _ (λ r. IsDht r.0.dht)
        (Kept h) (thread_dht_get-IsDht inet_ntop6 inet_pton4 now server result s is.nr.dht)
        λ r known. ok-WhenOk (Kept h) _ (
          record {
            nr = record { cm = is.nr.cm; rt = is.nr.rt; registry = is.nr.registry; dht = known };
            names = is.names;
          },
          refl,
        )
  host_round-when_ok (leased received) =
      let s : Configured = record {
        conf = h.conf;
        ph = h.node.ph;
        server_address = h.server_address;
      } in
      WhenOk-bind (thread_dhcp inet_ntop6 inet_pton6 inet_pton4 received s) _
        (λ s'. IsNidMapper s'.ph.names) (Kept h)
        (thread_dhcp-IsNidMapper inet_ntop6 inet_pton6 inet_pton4 received s is.names)
        λ s' named. ok-WhenOk (Kept h) _ (record { nr = is.nr; names = named }, refl)
  host_round-when_ok (proxied alloc k) =
      let s : Proxy = record {
        fqdn_table = h.fqdn_table;
        ans_ans = h.ans_ans;
        buffer = h.buffer;
        names = h.node.ph.names;
      } in
      WhenOk-bind (thread_dnshandler inet_pton6 alloc k s) _ (λ r. IsNidMapper r.proxy.names)
        (Kept h) (thread_dnshandler-IsNidMapper inet_pton6 alloc k s is.names)
        λ r named. ok-WhenOk (Kept h) _ (record { nr = is.nr; names = named }, refl)
  host_round-when_ok e = Ends-WhenOk (host_round-Ends e λ never. never)

module _ (inet_ntop6 : Nid → CString) (inet_pton6 : CString → Option Nid)
    (inet_pton4 : CString → Option Nid32) (found : Thread → Bool) (sw : Switches)
    (role : NodeType) where
  pub Comes-IsHost :
      (h : Host) → Comes inet_ntop6 inet_pton6 inet_pton4 found sw role h → IsHost sw role h
  Comes-IsHost h (begun conf old _ run) = start_host-IsHost found sw conf role old h run
  Comes-IsHost h (went e h₀ _ before runs run) =
      let is = Comes-IsHost h₀ before in
      let (well, same) = host_round-when_ok inet_ntop6 inet_pton6 inet_pton4 h₀ is.node e h run in
      record { node = well; running = same ∙ is.running; fits = rw same is.fits }

  pub Comes-host_round :
      (h : Host)
      → Comes inet_ntop6 inet_pton6 inet_pton4 found sw role h
      → IsHost sw role h
        × ((e : HostEvent)
            → ¬ (ReadsOutside e)
            → Ends
                (host_round inet_ntop6 inet_pton6 inet_pton4 e h)
                (IsHost sw role)
                (HostCallFails e))
  Comes-host_round h comes =
      let is = Comes-IsHost h comes in
      (
        is,
        λ e calm.
            Ends-map
              (λ h' kept. record {
                node = kept.0;
                running = kept.1 ∙ is.running;
                fits = rw kept.1 is.fits;
              })
              (host_round-Ends inet_ntop6 inet_pton6 inet_pton4 h is.node e calm),
      )
