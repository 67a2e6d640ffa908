-- ===== src/Hosts/Begun.antt =====
-- What `main` leaves for the threads of any role, where it starts them.
use node_identity_architetur.Base.{
  ◌<◌, ◌≤◌, ◌≡◌, ◌∙◌, ap, refl, Bool, true, false, List, [], ◌∷◌, ◌++◌, arith, ltb, length,
  length-append, Bool-cases, inl, inr,
}
use mathlib.Core.List.{append-nil, append_assoc}
use node_identity_architetur.Config.{Config}
use node_identity_architetur.Daemon.Libs.{
  IsDaemon, SetUp, threads_of, static_entries_lem, static_routes_lem,
}
use node_identity_architetur.Daemon.Starts.{start_role-Started}
use node_identity_architetur.Daemon.{
  NodeType, node_role, rvs_role, gateway_role, core_role, Thread, dhcp_thr, Daemon, Switches,
  open_lib, start_threads, dhcp_command, run_dhcpcd, later_threads, static_entries, static_routes,
  start_role,
}
use node_identity_architetur.Hosts.{Host, Unwritten, start_host}
use node_identity_architetur.Mapper.Lookup.{IsMapper}
use node_identity_architetur.Mapper.{Mapper, init_conn_mapper}
use node_identity_architetur.Memory.{fill}
use node_identity_architetur.Names.Entries.{new_nm_entry-Named}
use node_identity_architetur.Names.Fixed.{init_nid_mapper_lem}
use node_identity_architetur.Names.{new_nm_entry}
use node_identity_architetur.Nid.{nid_key}
use node_identity_architetur.Queue.{init_rvs_queue_table}
use node_identity_architetur.Routing.{init_rtable}
use node_identity_architetur.Run.{
  Run, ok, exited, ◌>>=◌, Returns, WhenOk, WhenOk-bind, Returns-WhenOk, ok-WhenOk, if-WhenOk,
}
use node_identity_architetur.Startup.Safe.{
  IsNode, idle_node-IsNode, init_conn_mapper-IsMapper, init_rtable-IsValid,
}

-- The daemon is as before, but for the threads that run now.
abbrev Ran : List Thread → Daemon → Type 0
Ran threads d = IsDaemon d × (d.lib_db ≡ threads) × (length d.lib_db ≤ 12)

-- Every table of the host is well formed, and the role's threads run; they fit `lib_db`.
pub record IsHost (sw : Switches) (role : NodeType) (h : Host) : Type 0 where
  pub node : IsNode h.node
  pub running : h.running ≡ threads_of sw role
  pub fits : length h.running ≤ 12

module _ (found : Thread → Bool) where
  open_lib-Ran :
      (t : Thread) (ts : List Thread) (d : Daemon)
      → Ran ts d
      → WhenOk (open_lib found t d) (Ran (ts ++ t ∷ []))
  unfolding open_lib
  open_lib-Ran t ts d (is, e, fits) =
      let Good = Ran (ts ++ t ∷ []) in
      let d' : Daemon = record d { lib_db = d.lib_db ++ t ∷ [] } in
      let well : IsDaemon d' = record { names = is.names; conns = is.conns; routes = is.routes } in
      if-WhenOk Good (found t) _ exited
        (elim (Bool-cases (ltb (length d.lib_db) 12)) [
          | inl room ↦
              let short : length d.lib_db < 12 = ground (arith, room) in
              rw room (
                ok-WhenOk Good d' (
                  well,
                  ap (λ l. l ++ t ∷ []) e,
                  omega (arith, short, length-append d.lib_db (t ∷ [])),
                ))
          | inr full ↦ rw full λ y lost. cc
        ])
        λ y lost. cc

  start_threads-Ran :
      (more ts : List Thread) (d : Daemon)
      → Ran ts d
      → WhenOk (start_threads found more d) (Ran (ts ++ more))
  unfolding start_threads
  start_threads-Ran [] ts d ran = rw append-nil (ok-WhenOk (Ran ts) d ran)
  start_threads-Ran (t ∷ more) ts d ran =
      let joined : (ts ++ t ∷ []) ++ more ≡ ts ++ t ∷ more = append_assoc ts (t ∷ []) more in
      WhenOk-bind (open_lib found t d) (start_threads found more) (Ran (ts ++ t ∷ []))
        (Ran (ts ++ t ∷ more)) (open_lib-Ran t ts d ran)
        λ d' ran'. rw (← joined) (start_threads-Ran more (ts ++ t ∷ []) d' ran')

  run_dhcpcd-Ran :
      (sw : Switches) (ts : List Thread) (d : Daemon) → Ran ts d → WhenOk (run_dhcpcd sw d) (Ran ts)
  unfolding run_dhcpcd
  run_dhcpcd-Ran sw ts d ran =
      let done = ok-WhenOk (Ran ts) d ran in
      let command = dhcp_command ++ (sw.primary_iface ++ 0 ∷ []) in
      if-WhenOk (Ran ts) sw.dhcp _ (ok d)
        (WhenOk-bind (fill 32 command) (λ aux. ok d) (λ aux. Unit {0}) (Ran ts) (λ aux e. tt)
          λ aux u. done)
        done

  module _ (sw : Switches) (conf : Config) where
    SetUp-Ran :
        (act : Daemon → Run Daemon)
        → ((d : Daemon) → IsDaemon d → Returns (act d) (SetUp d))
        → (ts : List Thread) (d : Daemon) → Ran ts d
        → WhenOk (act d) (Ran ts)
    SetUp-Ran act keeps ts d (is, e, fits) d' run =
        let (well, same) = Returns-WhenOk (keeps d is) d' run in (well, same ∙ e, rw same fits)

    -- The part of a case of the switch that two roles share.
    with_dhcp-Ran :
        (role : NodeType) (d : Daemon)
        → Ran [] d
        → WhenOk
            (do
              d₁ ← open_lib found dhcp_thr d
              d₂ ← run_dhcpcd sw d₁
              start_threads found (later_threads sw role) d₂)
            (Ran (dhcp_thr ∷ later_threads sw role))
    with_dhcp-Ran role d ran =
        WhenOk-bind (open_lib found dhcp_thr d) _ (Ran (dhcp_thr ∷ [])) _
          (open_lib-Ran dhcp_thr [] d ran)
          λ d₁ ran₁.
            WhenOk-bind (run_dhcpcd sw d₁) _ (Ran (dhcp_thr ∷ [])) _
              (run_dhcpcd-Ran sw (dhcp_thr ∷ []) d₁ ran₁)
              (start_threads-Ran (later_threads sw role) (dhcp_thr ∷ []))

    start_role-Ran :
        (role : NodeType) (d : Daemon)
        → Ran [] d
        → WhenOk (start_role found sw conf role d) (Ran (threads_of sw role))
    unfolding start_role
    start_role-Ran node_role d ran =
        WhenOk-bind (static_entries conf d) _ (Ran []) _
          (SetUp-Ran (static_entries conf) (static_entries_lem conf) [] d ran)
          (with_dhcp-Ran node_role)
    start_role-Ran rvs_role d ran =
        WhenOk-bind (static_entries conf d) _ (Ran []) _
          (SetUp-Ran (static_entries conf) (static_entries_lem conf) [] d ran)
          (start_threads-Ran (later_threads sw rvs_role) [])
    start_role-Ran gateway_role d ran =
        WhenOk-bind (static_entries conf d) _ (Ran []) _
          (SetUp-Ran (static_entries conf) (static_entries_lem conf) [] d ran)
          λ d₁ ran₁.
            WhenOk-bind (static_routes conf d₁) _ (Ran []) _
              (SetUp-Ran (static_routes conf) (static_routes_lem conf) [] d₁ ran₁)
              (with_dhcp-Ran gateway_role)
    start_role-Ran core_role d (is, e, fits) =
        WhenOk-bind (new_nm_entry conf.nidrvs conf.nidcore d.names) _
          (λ names. Ran [] (record d { names = names })) _
          (λ names run.
            let named =
              Returns-WhenOk (new_nm_entry-Named conf.nidrvs conf.nidcore d.names is.names) names
                run in
            (record { names = named.well; conns = is.conns; routes = is.routes }, e, fits))
          λ names. start_threads-Ran (later_threads sw core_role) [] (record d { names = names })

    pub start_host-IsHost :
        (role : NodeType) (old : Unwritten)
        → WhenOk (start_host found sw conf role old) (IsHost sw role)
    unfolding start_host
    start_host-IsHost role old =
        let (names, run, (is, empty, listed)) = init_nid_mapper_lem sw.dns in
        let cm : Mapper = init_conn_mapper conf (init_rvs_queue_table true) in
        let made : IsMapper cm = init_conn_mapper-IsMapper conf in
        let d : Daemon = record {
          names = names;
          connmap = cm.connmap;
          rt = init_rtable conf;
          lib_db = [];
        } in
        let ran : Ran [] d = (
          record { names = is; conns = made.conns; routes = init_rtable-IsValid conf },
          refl,
          omega arith,
        ) in
        rw (run, ◌>>=◌)
          (WhenOk-bind (start_role found sw conf role d) _ (Ran (threads_of sw role)) _
            (start_role-Ran role d ran)
            λ d' (well, threads, fits). ok-WhenOk (IsHost sw role) _ (record {
              node =
                  idle_node-IsNode conf d'.names (record cm { connmap = d'.connmap }) d'.rt old.peer
                    well.names (record { conns = well.conns; requests = made.requests })
                    well.routes;
              running = threads;
              fits = fits;
            }))

    -- A role whose libraries are found starts, unless it runs the DHCP client or is compiled with
    -- DEBUG_PRINT_RT.
    pub start_host_lem :
        (role : NodeType) (old : Unwritten)
        → ((t : Thread) → found t ≡ true)
        → sw.dhcp ≡ false
        → sw.debug_print_rt ≡ false
        → Returns (start_host found sw conf role old) (IsHost sw role)
    start_host_lem role old all client_off quiet =
        let (names, run, (is, empty, listed)) = init_nid_mapper_lem sw.dns in
        let cm : Mapper = init_conn_mapper conf (init_rvs_queue_table true) in
        let made : IsMapper cm = init_conn_mapper-IsMapper conf in
        let d : Daemon = record {
          names = names;
          connmap = cm.connmap;
          rt = init_rtable conf;
          lib_db = [];
        } in
        let well : IsDaemon d = record {
          names = is;
          conns = made.conns;
          routes = init_rtable-IsValid conf;
        } in
        let (d', run', started) =
          start_role-Started found all sw conf role d well refl client_off quiet in
        let starts : (h : Host) × (start_host found sw conf role old ≡ ok h) =
          unfold start_host in rw (run, ◌>>=◌, run') (_, refl) in
        (starts.0, starts.1, start_host-IsHost role old starts.0 starts.1)
