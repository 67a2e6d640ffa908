-- ===== src/Tests/Daemons.antt =====
-- The start of a gateway with a proxy, and of a node that runs the DHCP client.
use node_identity_architetur.Base.{◌≡◌, refl, true, false, Bool, []}
use node_identity_architetur.Daemon.Libs.{IsDaemon}
use node_identity_architetur.Daemon.Starts.{
  Started, node_runs, start_role-Started, start_role_overflow,
}
use node_identity_architetur.Daemon.{Daemon, Thread, Switches, node_role, gateway_role, start_role}
use node_identity_architetur.Run.{Returns, out_of_bounds}
use node_identity_architetur.Tests.Data.{
  alice, conf, ph, names-IsNidMapper, no_conns, no_conns-IsValid,
}

abbrev daemon : Daemon
daemon = record {
  names = ph.names;
  connmap = no_conns;
  rt = record { rtable = no_conns; nidgw = alice; gateway_ip = 3 };
  lib_db = [];
}

daemon-IsDaemon : IsDaemon daemon
daemon-IsDaemon = record {
  names = names-IsNidMapper;
  conns = no_conns-IsValid;
  routes = no_conns-IsValid;
}

abbrev switches : (dhcp : Bool) → Switches
switches dhcp = record {
  debug_print_rt = false;
  dhcp = dhcp;
  dht = false;
  dns = true;
  primary_iface = [];
}

abbrev found : Thread → Bool
found thread = true

start_role-Started_example :
    Returns
      (start_role found (switches false) conf gateway_role daemon)
      (Started (switches false) gateway_role)
start_role-Started_example =
    start_role-Started found (λ t. refl) (switches false) conf gateway_role daemon daemon-IsDaemon
      refl refl refl

start_role_overflow_example : start_role found (switches true) conf node_role daemon ≡ out_of_bounds
start_role_overflow_example =
    start_role_overflow found (λ t. refl) (switches true) conf node_role daemon node_runs
      daemon-IsDaemon refl refl
