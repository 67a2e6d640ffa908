-- ===== src/Rvs.antt =====
-- rvs.c, the rendezvous server: it keeps the last address that each node announced, and answers
-- requests for it. One round of the loop takes a message and gives the reply.
pub mod Serve
use node_identity_architetur.Base.{
  ℕ, ◌+◌, Bool, true, false, Option, none, some, ◌==◌, ltb, if◌then◌else◌,
}
use node_identity_architetur.Conn.{ConnEntry, rvs_timeout}
use node_identity_architetur.Mapper.{ConnTable, del_cm_entry}
use node_identity_architetur.Message.{NidMsg, rvs_update, rvs_ack, rvs_get, rvs_response}
use node_identity_architetur.Nid.{Nid, Nid32, nid_key}
use node_identity_architetur.Run.{Run, ok, ◌>>=◌}
use node_identity_architetur.Table.{
  construct_hash_table, free_hash_table, hash_insert, hash_lookup, hash_del,
}

unfoldable pub init_rvs_table : ConnTable
init_rvs_table = construct_hash_table true 100

unfoldable pub destroy_rvs_table : ConnTable → ConnTable
destroy_rvs_table t = (free_hash_table t).1

-- `(hash_insert(nid, ce, &rvs_table) ? 1 : 0)`, and the table.
unfoldable pub add_entry : ℕ → Nid → Nid32 → ConnTable → Run (Bool × ConnTable)
add_entry now nid ip t = do
  r ← hash_insert true nid (record { ip = ip; tstamp = now }) t
  ok ((elim r.0 [ none ↦ false | some old ↦ true ]), r.1)

-- An entry that has expired is deleted, and the answer is the address 0.
unfoldable pub get_entry : ℕ → Nid → ConnTable → Run (Nid32 × ConnTable)
get_entry now nid t = do
  found ← hash_lookup nid t
  elim found [
    | none ↦ ok (0, t)
    | some ce ↦
        if ltb now (ce.tstamp + rvs_timeout)
        then ok (ce.ip, t)
        else (do r ← hash_del nid t; ok (0, r.1))
  ]

unfoldable pub serve : ℕ → NidMsg → ConnTable → Run (NidMsg × ConnTable)
serve now m t =
    if m.type == rvs_update
    then (do r ← add_entry now m.nid m.ip t; ok (record m { type = rvs_ack }, r.1))
    else if m.type == rvs_get
    then (do r ← get_entry now m.nid t; ok (record m { type = rvs_response; ip = r.0 }, r.1))
    else ok (m, t)
