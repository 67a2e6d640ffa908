-- ===== src/Tests/Roles.antt =====
-- The control threads, the mobility thread, and the threads of a gateway.
use node_identity_architetur.Base.{◌≡◌, true, arith}
use node_identity_architetur.Control.Heard.{Heard}
use node_identity_architetur.Control.Roles.{core_effect, control_gw_core-Heard}
use node_identity_architetur.Control.{control, control_gw_core}
use node_identity_architetur.Gateway.Climb.{home_learns_redirect}
use node_identity_architetur.Gateway.{redirect_to_home}
use node_identity_architetur.Mapper.Lookup.{IsMapper}
use node_identity_architetur.Mapper.{Mapper, get_cm_entry}
use node_identity_architetur.Mobility.Handover.{
  redirection, HandedOver, mobility-HandedOver, peer_follows,
}
use node_identity_architetur.Mobility.{mobility}
use node_identity_architetur.Nid.{nid_key}
use node_identity_architetur.Registry.{get_registry}
use node_identity_architetur.Run.{ok, Returns}
use node_identity_architetur.Tests.Data.{
  alice, bob, carol, after_noon, conns-dynamic, mapper-IsMapper, conf, bob_conf, heard,
  heard-IsControl, moved, mobile,
}

control_gw_core-Heard_example :
    Returns (control_gw_core 100 moved heard) (Heard bob (core_effect 100 moved heard) heard)
control_gw_core-Heard_example = control_gw_core-Heard 100 moved heard heard-IsControl

mobility-HandedOver_example :
    Returns (mobility 100 conf 6 true mobile) (HandedOver 100 conf 6 mobile)
mobility-HandedOver_example = mobility-HandedOver 100 conf 6 mobile mapper-IsMapper (omega arith)

peer_follows_example : Returns (control 100 (redirection bob_conf 8 (alice, 5)) heard) λ peer'.
    (m : Mapper)
    → IsMapper m
    → m.connmap ≡ peer'.connmap
    → Returns (get_cm_entry after_noon bob m) (λ (r, m'). r ≡ (true, 8))
peer_follows_example =
    peer_follows 100 after_noon bob_conf 8 (alice, 5) heard heard-IsControl conns-dynamic
      (omega arith)

home_learns_redirect_example :
    Returns
      (control_gw_core 100 (redirect_to_home carol 5 moved) heard)
      λ home'. get_registry bob home'.registry_table ≡ ok (true, 5)
home_learns_redirect_example =
    home_learns_redirect 100 carol 5 moved heard heard-IsControl (ground arith)
