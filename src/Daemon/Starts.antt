-- ===== src/Daemon/Starts.antt =====
-- The start of the four roles.
use node_identity_architetur.Base.{
  ◌+◌, ◌<◌, ◌≤◌, ◌≡◌, ◌∙◌, ap, Bool, true, false, List, [], ◌∷◌, ◌++◌, arith, leb, length, inl, inr,
  Bool-cases,
}
use node_identity_architetur.Config.{Config}
use node_identity_architetur.Daemon.Libs.{
  IsDaemon, threads_of, open_lib_lem, start_threads_lem, static_entries_lem, static_routes_lem,
}
use node_identity_architetur.Daemon.{
  node_threads, rvs_threads, gateway_threads, core_threads, NodeType, node_role, rvs_role,
  gateway_role, core_role, Thread, dhcp_thr, Daemon, Switches, open_lib, start_threads,
  dhcp_command, run_dhcpcd, when_set, later_threads, start_role,
}
use node_identity_architetur.Memory.{fill}
use node_identity_architetur.Names.Entries.{new_nm_entry-Named}
use node_identity_architetur.Nid.{nid_key}
use node_identity_architetur.Run.{out_of_bounds, ◌>>=◌, Returns}

-- The number of the threads without the one for debugging.
threads_of-le :
    (sw : Switches) (role : NodeType) → sw.debug_print_rt ≡ false → length (threads_of sw role) ≤ 12
unfolding later_threads node_threads rvs_threads gateway_threads core_threads when_set
threads_of-le sw node_role quiet = elim (Bool-cases sw.dns) [
  | inl on ↦ rw on (omega arith)
  | inr off ↦ rw off (omega arith)
]
threads_of-le sw rvs_role quiet = elim (Bool-cases sw.dns) [
  | inl on ↦ rw on (omega arith)
  | inr off ↦ rw off (omega arith)
]
threads_of-le sw gateway_role quiet = elim (Bool-cases sw.dns) [
  | inl on ↦ rw (quiet, on) (omega arith)
  | inr off ↦ rw (quiet, off) (omega arith)
]
threads_of-le sw core_role quiet = elim (Bool-cases sw.dns) [
  | inl on ↦ elim (Bool-cases sw.dht) [
    | inl both ↦ rw (quiet, on, both) (omega arith)
    | inr alone ↦ rw (quiet, on, alone) (omega arith)
  ]
  | inr off ↦ elim (Bool-cases sw.dht) [
    | inl alone ↦ rw (quiet, off, alone) (omega arith)
    | inr none_on ↦ rw (quiet, off, none_on) (omega arith)
  ]
]

-- The command alone is longer than the array.
run_dhcpcd_overflow :
    (sw : Switches) (d : Daemon) → sw.dhcp ≡ true → run_dhcpcd sw d ≡ out_of_bounds
unfolding run_dhcpcd fill
run_dhcpcd_overflow sw d on =
    let long : leb (length (dhcp_command ++ (sw.primary_iface ++ 0 ∷ []))) 32 ≡ false =
      ground arith in
    rw (on, long)

-- The roles that run the DHCP client
pub data RunsDhcp : NodeType → Type 0 where
  node_runs : RunsDhcp node_role
  gateway_runs : RunsDhcp gateway_role

-- What a role's start leaves: well-formed tables, and the threads in the order of the code.
pub record Started (sw : Switches) (role : NodeType) (d : Daemon) : Type 0 where
  pub well : IsDaemon d
  pub running : d.lib_db ≡ threads_of sw role

module _ (found : Thread → Bool) (all : (t : Thread) → found t ≡ true) (sw : Switches)
    (conf : Config) where
  start_rest :
      (ts before : List Thread) (d : Daemon)
      → IsDaemon d
      → d.lib_db ≡ before
      → length before + length ts ≤ 12
      → Returns (start_threads found ts d) λ d'. IsDaemon d' × (d'.lib_db ≡ before ++ ts)
  start_rest ts before d is e room =
      let (d', run, (db, names, conns, routes)) = start_threads_lem found all ts d (rw e room) in
      (
        d',
        run,
        (
          record {
            names = rw names is.names;
            conns = rw conns is.conns;
            routes = rw routes is.routes;
          },
          db ∙ ap (◌++ ts) e,
        ),
      )

  with_dhcp :
      (ts : List Thread) (d : Daemon)
      → IsDaemon d
      → d.lib_db ≡ []
      → sw.dhcp ≡ false
      → length (dhcp_thr ∷ ts) ≤ 12
      → Returns
          (do d₁ ← open_lib found dhcp_thr d; d₂ ← run_dhcpcd sw d₁; start_threads found ts d₂)
          λ d'. IsDaemon d' × (d'.lib_db ≡ dhcp_thr ∷ ts)
  unfolding run_dhcpcd
  with_dhcp ts d is e off room =
      let d₁ : Daemon = record d { lib_db = d.lib_db ++ dhcp_thr ∷ [] } in
      let fits : length d.lib_db < 12 = rw e (omega (arith, room)) in
      let db : d₁.lib_db ≡ dhcp_thr ∷ [] = ap (◌++ dhcp_thr ∷ []) e in
      let same : IsDaemon d₁ = record { names = is.names; conns = is.conns; routes = is.routes } in
      rw (open_lib_lem found all dhcp_thr d fits, ◌>>=◌, off)
        (start_rest ts (dhcp_thr ∷ []) d₁ same db (omega (arith, room)))

  -- If every library is found, each role on well-formed tables that neither runs the DHCP client
  -- nor is compiled with DEBUG_PRINT_RT starts the threads listed for it, which are at most 12 and
  -- so fit `lib_db`, in the order of that list, and leaves the tables well formed.
  pub start_role-Started :
      (role : NodeType) (d : Daemon)
      → IsDaemon d
      → d.lib_db ≡ []
      → sw.dhcp ≡ false
      → sw.debug_print_rt ≡ false
      → Returns (start_role found sw conf role d) (Started sw role)
  unfolding start_role
  start_role-Started node_role d is e off quiet =
      let (d₁, run₁, (is₁, same)) = static_entries_lem conf d is in
      let (d', run, (well, running)) =
        with_dhcp (later_threads sw node_role) d₁ is₁ (same ∙ e) off
          (threads_of-le sw node_role quiet) in
      rw (run₁, ◌>>=◌) (d', run, record { well = well; running = running })
  start_role-Started rvs_role d is e off quiet =
      let (d₁, run₁, (is₁, same)) = static_entries_lem conf d is in
      let (d', run, (well, running)) =
        start_rest (later_threads sw rvs_role) [] d₁ is₁ (same ∙ e)
          (omega (arith, threads_of-le sw rvs_role quiet)) in
      rw (run₁, ◌>>=◌) (d', run, record { well = well; running = running })
  start_role-Started gateway_role d is e off quiet =
      let (d₁, run₁, (is₁, same₁)) = static_entries_lem conf d is in
      let (d₂, run₂, (is₂, same₂)) = static_routes_lem conf d₁ is₁ in
      let (d', run, (well, running)) =
        with_dhcp (later_threads sw gateway_role) d₂ is₂ (same₂ ∙ same₁ ∙ e) off
          (threads_of-le sw gateway_role quiet) in
      rw (run₁, ◌>>=◌, run₂) (d', run, record { well = well; running = running })
  start_role-Started core_role d is e off quiet =
      let (names, run₁, named) = new_nm_entry-Named conf.nidrvs conf.nidcore d.names is.names in
      let (d', run, (well, running)) =
        start_rest (later_threads sw core_role) [] (record d { names = names })
          (record { names = named.well; conns = is.conns; routes = is.routes }) e
          (omega (arith, threads_of-le sw core_role quiet)) in
      rw (run₁, ◌>>=◌) (d', run, record { well = well; running = running })

  dhcp_out :
      (ts : List Thread) (d : Daemon)
      → d.lib_db ≡ []
      → sw.dhcp ≡ true
      → (do d₁ ← open_lib found dhcp_thr d; d₂ ← run_dhcpcd sw d₁; start_threads found ts d₂)
        ≡ out_of_bounds
  dhcp_out ts d e on =
      let fits : length d.lib_db < 12 = rw e (omega arith) in
      rw (
        open_lib_lem found all dhcp_thr d fits,
        ◌>>=◌,
        run_dhcpcd_overflow sw (record d { lib_db = d.lib_db ++ dhcp_thr ∷ [] }) on,
      )

  -- A node or a gateway that is configured to run the DHCP client writes outside the array of 32
  -- bytes that the command is printed into, whatever the name of the interface, if every library is
  -- found and the tables are well formed.
  pub start_role_overflow :
      (role : NodeType) (d : Daemon)
      → RunsDhcp role
      → IsDaemon d
      → d.lib_db ≡ []
      → sw.dhcp ≡ true
      → start_role found sw conf role d ≡ out_of_bounds
  unfolding start_role
  start_role_overflow role d node_runs is e on =
      let (d₁, run₁, (is₁, same)) = static_entries_lem conf d is in
      rw (run₁, ◌>>=◌) (dhcp_out (later_threads sw node_role) d₁ (same ∙ e) on)
  start_role_overflow role d gateway_runs is e on =
      let (d₁, run₁, (is₁, same₁)) = static_entries_lem conf d is in
      let (d₂, run₂, (is₂, same₂)) = static_routes_lem conf d₁ is₁ in
      rw (run₁, ◌>>=◌, run₂) (dhcp_out (later_threads sw gateway_role) d₂ (same₂ ∙ same₁ ∙ e) on)
