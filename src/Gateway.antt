-- ===== src/Gateway.antt =====
-- gwc.c: the threads by which registrations climb from gateway to gateway up to the core. One round
-- of each loop takes the message that it reads. The host's address is an argument.
pub mod Climb
use node_identity_architetur.Base.{ℕ, Bool, List, [], ◌∷◌, ◌++◌, if◌then◌else◌}
use node_identity_architetur.Config.{Config}
use node_identity_architetur.Key.{same}
use node_identity_architetur.Mapper.{ConnTable}
use node_identity_architetur.Message.{NidMsg, registry, redirect_core}
use node_identity_architetur.Nid.{Nid, Nid32, nid_key}
use node_identity_architetur.Registry.{add_registry}
use node_identity_architetur.Routing.{Routing, new_rt_entry}
use node_identity_architetur.Run.{Run, ok, ◌>>=◌}

-- The tables, the sockets that the talker reads, and the one that the packet handler reads.
pub record GwState : Type 0 where
  pub rt : Routing
  pub registry_table : ConnTable
  pub sp_rvs2gwt : List NidMsg
  pub sp_gwl2gwt : List NidMsg
  pub sp_gwt2ph : List NidMsg

-- `thread_gw_listener`
unfoldable pub gw_listener : ℕ → NidMsg → GwState → Run GwState
gw_listener now m s = do
  rt ← new_rt_entry now m.nid m.ip s.rt
  ok (record s { rt = rt; sp_gwl2gwt = s.sp_gwl2gwt ++ m ∷ [] })

-- The message from a core gateway to the core gateway of the node's home.
unfoldable pub redirect_to_home : Nid → Nid32 → NidMsg → NidMsg
redirect_to_home nid locator m = record m {
  type = redirect_core;
  src_nid = nid;
  dest_nid = m.src_nid_gw;
  dest_nid_gw = m.src_nid_gw;
  src_nid_gw = nid;
  ip = locator;
}

-- `thread_gw_core_listener`
unfoldable pub gw_core_listener : ℕ → Nid → Nid32 → NidMsg → GwState → Run GwState
gw_core_listener now nid locator m s = do
  rt ← new_rt_entry now m.nid m.ip s.rt
  if same m.src_nid_gw nid
      then (do
        t ← add_registry m.nid 0 s.registry_table
        ok (record s { rt = rt; registry_table = t }))
      else ok (record s { rt = rt; sp_gwt2ph = s.sp_gwt2ph ++ redirect_to_home nid locator m ∷ [] })

-- What the talker makes of a message.
unfoldable pub registration : Config → Nid32 → NidMsg → NidMsg
registration conf locator m = record m { type = registry; dest_nid = conf.nidgw; ip = locator }

-- `thread_gw_talker`: one message, from the server's proxy if there is one, else from the listener.
unfoldable pub gw_talker : Config → Nid32 → GwState → GwState
gw_talker conf locator s = elim s.sp_rvs2gwt [
  | m ∷ ms ↦ record s {
    sp_rvs2gwt = ms;
    sp_gwt2ph = s.sp_gwt2ph ++ registration conf locator m ∷ [];
  }
  | [] ↦ elim s.sp_gwl2gwt [
    | m ∷ ms ↦ record s {
      sp_gwl2gwt = ms;
      sp_gwt2ph = s.sp_gwt2ph ++ registration conf locator m ∷ [];
    }
    | [] ↦ s
  ]
]
