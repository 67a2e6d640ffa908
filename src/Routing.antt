-- ===== src/Routing.antt =====
-- nid_routing.c: the routing table of the gateways, at its end. The threads are in `Forward`.
pub mod Table
use node_identity_architetur.Base.{
  ℕ, ◌+◌, Bool, true, false, ◌||◌, Option, none, some, List, [], ◌∷◌, ◌++◌, ◌==◌, ltb,
  if◌then◌else◌,
}
use node_identity_architetur.Config.{Config}
use node_identity_architetur.Conn.{ConnEntry, LlHead, gateway_timeout, init_ll, hash_enumerate}
use node_identity_architetur.Mapper.{ConnTable, store, new_cm_entry, static_cm_entry}
use node_identity_architetur.Nid.{Nid, Nid32, nid_key}
use node_identity_architetur.Run.{Run, ok, ◌>>=◌}
use node_identity_architetur.Table.{construct_hash_table, free_hash_table, hash_lookup, hash_del}

pub record Routing : Type 0 where
  pub rtable : ConnTable
  pub nidgw : Nid
  pub gateway_ip : Nid32

unfoldable pub init_rtable : Config → Routing
init_rtable conf = record {
  rtable = construct_hash_table true 30;
  nidgw = conf.nidgw;
  gateway_ip = conf.gateway_ip;
}

unfoldable pub destroy_rtable : Routing → Routing
destroy_rtable r = record r { rtable = (free_hash_table r.rtable).1 }

-- The texts of `newRTEntry` and `staticRTEntry` are those of `newCMEntry` and `staticCMEntry`.
unfoldable pub new_rt_entry : ℕ → Nid → Nid32 → Routing → Run Routing
new_rt_entry now nid ip r = do t ← new_cm_entry now nid ip r.rtable; ok (record r { rtable = t })

unfoldable pub static_rt_entry : Nid → Nid32 → Routing → Run Routing
static_rt_entry nid ip r = do t ← static_cm_entry nid ip r.rtable; ok (record r { rtable = t })

-- The result, and the address written to `*dst`.
unfoldable pub get_rt_entry : ℕ → Nid → Routing → Run ((Bool × Nid32) × Routing)
get_rt_entry now nid r = do
  found ← hash_lookup nid r.rtable
  elim found [
    | none ↦ ok ((false, r.gateway_ip), r)
    | some ce ↦
        if ltb now (ce.tstamp + gateway_timeout) || (ce.tstamp == 0)
        then (if ce.ip == 0 then ok ((false, r.gateway_ip), r) else ok ((true, ce.ip), r))
        else (do d ← hash_del nid r.rtable; ok ((false, r.gateway_ip), record r { rtable = d.1 }))
  ]

unfoldable pub get_all_rt_entries : ℕ → Routing → LlHead
get_all_rt_entries now r = hash_enumerate now r.rtable init_ll

unfoldable pub update_rt : Config → Routing → Run Routing
update_rt conf r = do
  d ← hash_del r.nidgw r.rtable
  ok (record { rtable = d.1; nidgw = conf.nidgw; gateway_ip = conf.gateway_ip })
