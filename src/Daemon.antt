-- ===== src/Daemon.antt =====
-- nidd.c: what `main` sets up for each of the four roles, once the tables are initialised: the
-- entries of the tables, and the threads, whose libraries are kept in the array `lib_db`.
pub mod Libs
pub mod Starts
use node_identity_architetur.Base.{
  ℕ, suc, ◌+◌, Bool, true, false, List, [], ◌∷◌, ◌++◌, ltb, length, if◌then◌else◌,
}
use node_identity_architetur.Config.{Config}
use node_identity_architetur.Mapper.{ConnTable, static_cm_entry}
use node_identity_architetur.Memory.{Buffer, fill}
use node_identity_architetur.Names.{NidMapper, new_nm_entry}
use node_identity_architetur.Nid.{CString}
use node_identity_architetur.Routing.{Routing, static_rt_entry}
use node_identity_architetur.Run.{Run, ok, exited, out_of_bounds, ◌>>=◌}

-- `enum node_types`
pub data NodeType : Type 0 where
  node_role : NodeType
  rvs_role : NodeType
  gateway_role : NodeType
  core_role : NodeType

-- The functions that `open_lib` looks up.
pub data Thread : Type 0 where
  dhcp_thr : Thread
  nidfilter_thr : Thread
  ph_output_thr : Thread
  ph_input_thr : Thread
  nr_output_thr : Thread
  nr_input_thr : Thread
  nr_output_gw_thr : Thread
  nr_input_gw_thr : Thread
  nr_output_core_thr : Thread
  debug_rt_thr : Thread
  rvs_update_thr : Thread
  rvs_get_thr : Thread
  rvs_proxy_recv_thr : Thread
  rvs_proxy_send_thr : Thread
  rvs2gw_thr : Thread
  mobility_thr : Thread
  control_thr : Thread
  control_rvs_thr : Thread
  control_gw_thr : Thread
  control_gw_core_thr : Thread
  gw_talker_thr : Thread
  gw_listener_thr : Thread
  gw_core_listener_thr : Thread
  dht_update_thr : Thread
  dht_get_thr : Thread
  dnshandler_thr : Thread

-- The tables that `main` writes to, and the threads that run, in the order of `lib_db`;
-- `lib_counter` is their number.
pub record Daemon : Type 0 where
  pub names : NidMapper
  pub connmap : ConnTable
  pub rt : Routing
  pub lib_db : List Thread

-- What `main` asks of the configuration, and the macro DEBUG_PRINT_RT.
pub record Switches : Type 0 where
  pub debug_print_rt : Bool
  pub dhcp : Bool
  pub dht : Bool
  pub dns : Bool
  pub primary_iface : CString

-- `sizeof lib_db`
abbrev pub lib_db_size : ℕ
lib_db_size = 12

-- `dlopen` and `dlsym` find the thread's function, or the process ends.
unfoldable pub open_lib : (found : Thread → Bool) → Thread → Daemon → Run Daemon
open_lib found thread d =
    if found thread
    then (if ltb (length d.lib_db) lib_db_size
        then ok (record d { lib_db = d.lib_db ++ thread ∷ [] })
        else out_of_bounds)
    else exited

unfoldable pub start_threads : (found : Thread → Bool) → List Thread → Daemon → Run Daemon
start_threads found [] d = ok d
start_threads found (thread ∷ threads) d = do
  d' ← open_lib found thread d
  start_threads found threads d'

-- "rm -fr /etc/dhcpc/* && ./dhcpcd -YR "
abbrev pub dhcp_command : CString
dhcp_command =
    114 ∷ 109 ∷ 32 ∷ 45 ∷ 102 ∷ 114 ∷ 32 ∷ 47 ∷ 101 ∷ 116 ∷ 99 ∷ 47 ∷ 100 ∷ 104 ∷ 99 ∷ 112 ∷ 99 ∷ 47
    ∷ 42 ∷ 32 ∷ 38 ∷ 38 ∷ 32 ∷ 46 ∷ 47 ∷ 100 ∷ 104 ∷ 99 ∷ 112 ∷ 99 ∷ 100 ∷ 32 ∷ 45 ∷ 89 ∷ 82 ∷ 32
    ∷ []

-- The command is printed into an array of 32 bytes, and run.
unfoldable pub run_dhcpcd : Switches → Daemon → Run Daemon
run_dhcpcd sw d =
    if sw.dhcp
    then fill 32 (dhcp_command ++ (sw.primary_iface ++ 0 ∷ [])) >>= (λ aux. ok d)
    else ok d

-- The thread if the switch is on.
unfoldable pub when_set : Bool → List Thread → List Thread
when_set switch threads = if switch then threads else []

unfoldable pub static_entries : Config → Daemon → Run Daemon
static_entries conf d = do
  names ← new_nm_entry conf.nidrvs conf.nidcore d.names
  t ← static_cm_entry conf.nidrvs conf.rvs_ip d.connmap
  t' ← static_cm_entry conf.nidgw conf.gateway_ip t
  ok (record d { names = names; connmap = t' })

unfoldable pub static_routes : Config → Daemon → Run Daemon
static_routes conf d = do
  r ← static_rt_entry conf.nidrvs conf.rvs_ip d.rt
  r' ← static_rt_entry conf.nidgw conf.gateway_ip r
  ok (record d { rt = r' })

-- The threads of a role after the one for DHCP, in the order of the code.
unfoldable pub node_threads : Switches → List Thread
node_threads sw =
    nidfilter_thr
    ∷ ph_output_thr
    ∷ ph_input_thr
    ∷ nr_output_thr
    ∷ nr_input_thr
    ∷ rvs_update_thr
    ∷ rvs_get_thr
    ∷ mobility_thr
    ∷ control_thr
    ∷ when_set sw.dns (dnshandler_thr ∷ [])

unfoldable pub rvs_threads : Switches → List Thread
rvs_threads sw =
    nidfilter_thr
    ∷ ph_output_thr
    ∷ ph_input_thr
    ∷ nr_output_thr
    ∷ nr_input_thr
    ∷ rvs_proxy_recv_thr
    ∷ rvs_proxy_send_thr
    ∷ control_rvs_thr
    ∷ rvs_update_thr
    ∷ rvs2gw_thr
    ∷ when_set sw.dns (dnshandler_thr ∷ [])

unfoldable pub gateway_threads : Switches → List Thread
gateway_threads sw =
    nidfilter_thr
    ∷ ph_output_thr
    ∷ ph_input_thr
    ∷ nr_output_gw_thr
    ∷ nr_input_gw_thr
    ∷ (when_set sw.debug_print_rt (debug_rt_thr ∷ [])
        ++ mobility_thr
          ∷ rvs_update_thr
          ∷ control_gw_thr
          ∷ gw_talker_thr
          ∷ gw_listener_thr
          ∷ when_set sw.dns (dnshandler_thr ∷ []))

unfoldable pub core_threads : Switches → List Thread
core_threads sw =
    nidfilter_thr
    ∷ ph_output_thr
    ∷ ph_input_thr
    ∷ nr_output_core_thr
    ∷ nr_input_gw_thr
    ∷ (when_set sw.debug_print_rt (debug_rt_thr ∷ [])
        ++ control_gw_core_thr
          ∷ gw_core_listener_thr
          ∷ (when_set sw.dht (dht_update_thr ∷ dht_get_thr ∷ [])
              ++ when_set sw.dns (dnshandler_thr ∷ [])))

unfoldable pub later_threads : Switches → NodeType → List Thread
later_threads sw node_role = node_threads sw
later_threads sw rvs_role = rvs_threads sw
later_threads sw gateway_role = gateway_threads sw
later_threads sw core_role = core_threads sw

-- One case of the switch.
unfoldable pub start_role :
    (found : Thread → Bool) → Switches → Config → NodeType → Daemon → Run Daemon
start_role found sw conf node_role d = do
  d₁ ← static_entries conf d
  d₂ ← open_lib found dhcp_thr d₁
  d₃ ← run_dhcpcd sw d₂
  start_threads found (later_threads sw node_role) d₃
start_role found sw conf rvs_role d = do
  d₁ ← static_entries conf d
  start_threads found (later_threads sw rvs_role) d₁
start_role found sw conf gateway_role d = do
  d₁ ← static_entries conf d
  d₂ ← static_routes conf d₁
  d₃ ← open_lib found dhcp_thr d₂
  d₄ ← run_dhcpcd sw d₃
  start_threads found (later_threads sw gateway_role) d₄
start_role found sw conf core_role d = do
  names ← new_nm_entry conf.nidrvs conf.nidcore d.names
  start_threads found (later_threads sw core_role) (record d { names = names })
