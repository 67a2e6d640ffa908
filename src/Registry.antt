-- ===== src/Registry.antt =====
-- gwc.c: the registry of the core gateway, at its end. The threads are in `Gateway`.
pub mod Entries
use node_identity_architetur.Base.{ℕ, Bool, true, false, Option, none, some, ◌==◌, if◌then◌else◌}
use node_identity_architetur.Conn.{ConnEntry}
use node_identity_architetur.Mapper.{ConnTable, store}
use node_identity_architetur.Nid.{Nid, Nid32, nid_key}
use node_identity_architetur.Run.{Run, ok, ◌>>=◌}
use node_identity_architetur.Table.{construct_hash_table, free_hash_table, hash_lookup}

unfoldable pub init_registry_table : ConnTable
init_registry_table = construct_hash_table true 30

unfoldable pub destroy_registry_table : ConnTable → ConnTable
destroy_registry_table t = (free_hash_table t).1

-- A new entry comes from `calloc`, so its time stamp is 0.
unfoldable pub add_registry : Nid → Nid32 → ConnTable → Run ConnTable
add_registry nid ip t = do
  found ← hash_lookup nid t
  elim found [
    | some ce ↦ store nid (record ce { ip = ip }) t
    | none ↦ store nid (record { ip = ip; tstamp = 0 }) t
  ]

-- The result, and the address written to `*dst`.
unfoldable pub get_registry : Nid → ConnTable → Run (Bool × Nid32)
get_registry nid t = do
  found ← hash_lookup nid t
  elim found [
    | some ce ↦ if ce.ip == 0 then ok (false, 0) else ok (true, ce.ip)
    | none ↦ ok (false, 0)
  ]
