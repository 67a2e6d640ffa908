-- ===== src/Control.antt =====
-- control.c: what each kind of node does with a control message. One round of the loop takes the
-- message; `printf` is left out.
pub mod Heard
pub mod Roles
use node_identity_architetur.Base.{
  ℕ, Bool, true, false, List, [], ◌∷◌, ◌++◌, ◌==◌, ◌||◌, if◌then◌else◌,
}
use node_identity_architetur.Mapper.{ConnTable, new_cm_entry, del_cm_entry}
use node_identity_architetur.Message.{
  NidMsg, redirect, relocate, registry, redirect_core, rvs_update, rvs_ack, rvs_get, rvs_response,
}
use node_identity_architetur.Nid.{Nid, Nid32}
use node_identity_architetur.Queue.{QueueTable, unqueue}
use node_identity_architetur.Registry.{add_registry}
use node_identity_architetur.Run.{Run, ok, ◌>>=◌}

-- What the control threads read and write: the connection map, the queue of pending resolutions,
-- the registry of a core gateway, and the sockets to the server proxy and the gateway listener.
pub record ControlState : Type 0 where
  pub connmap : ConnTable
  pub queue_table : QueueTable
  pub registry_table : ConnTable
  pub sp_co2rvs : List NidMsg
  pub sp_co2gwl : List NidMsg

unfoldable pub on_redirect : ℕ → NidMsg → ControlState → Run ControlState
on_redirect now m s = do t ← new_cm_entry now m.nid m.ip s.connmap; ok (record s { connmap = t })

unfoldable pub on_relocate : NidMsg → ControlState → Run ControlState
on_relocate m s = do t ← del_cm_entry m.nid s.connmap; ok (record s { connmap = t })

unfoldable pub on_response : ℕ → NidMsg → ControlState → Run ControlState
on_response now m s = if m.ip == 0 then ok s else (do
  q ← unqueue m.nid s.queue_table
  t ← new_cm_entry now m.nid m.ip s.connmap
  ok (record s { queue_table = q; connmap = t }))

-- `thread_control`, of a node.
unfoldable pub control : ℕ → NidMsg → ControlState → Run ControlState
control now m s =
    if m.type == redirect
    then on_redirect now m s
    else if m.type == relocate
    then on_relocate m s
    else if m.type == rvs_response
    then on_response now m s
    else ok s

-- `thread_control_rvs`, of the host of a rendezvous server.
unfoldable pub control_rvs : ℕ → NidMsg → ControlState → Run ControlState
control_rvs now m s =
    if m.type == redirect
    then on_redirect now m s
    else if m.type == relocate
    then on_relocate m s
    else if (m.type == rvs_update) || (m.type == rvs_get)
    then ok (record s { sp_co2rvs = s.sp_co2rvs ++ m ∷ [] })
    else ok s

-- `thread_control_gw`, of a gateway.
unfoldable pub control_gw : ℕ → NidMsg → ControlState → Run ControlState
control_gw now m s =
    if m.type == redirect
    then on_redirect now m s
    else if m.type == relocate
    then on_relocate m s
    else if m.type == registry
    then ok (record s { sp_co2gwl = s.sp_co2gwl ++ m ∷ [] })
    else ok s

-- `thread_control_gw_core`, of a core gateway.
unfoldable pub control_gw_core : ℕ → NidMsg → ControlState → Run ControlState
control_gw_core now m s =
    if m.type == redirect
    then on_redirect now m s
    else if m.type == relocate
    then on_relocate m s
    else if m.type == registry
    then ok (record s { sp_co2gwl = s.sp_co2gwl ++ m ∷ [] })
    else if m.type == redirect_core
    then (do t ← add_registry m.nid m.ip s.registry_table; ok (record s { registry_table = t }))
    else ok s
