-- ===== src/FqdnTable.antt =====
-- fqdn_table.c: the names that the proxy has resolved. The table holds pointers to the answers' text.
use node_identity_architetur.Base.{Bool, true, false, Option, none, some}
use node_identity_architetur.FqdnHash.{
  construct_fqdn_hash_table, fqdn_hash_insert, fqdn_hash_lookup, free_fqdn_hash_table,
}
use node_identity_architetur.Nid.{CString, fqdn_key}
use node_identity_architetur.Run.{Run, ok, ◌>>=◌}
use node_identity_architetur.Table.{HashTable}

module _ {P : Type 0} where
  -- `&& 1` of a pointer
  unfoldable pub is_pointer : Option P → Bool
  is_pointer none = false
  is_pointer (some p) = true

  unfoldable pub new_fqdnt_entry :
      (alloc : Bool) → CString → P → HashTable CString P → Run (Bool × HashTable CString P)
  unfolding is_pointer
  new_fqdnt_entry alloc fqdn nids fqdn_table = do
    r ← fqdn_hash_insert alloc fqdn nids fqdn_table
    ok (is_pointer r.0, r.1)

  unfoldable pub get_nids_by_name : CString → HashTable CString P → Run (Option P)
  get_nids_by_name fqdn fqdn_table = fqdn_hash_lookup fqdn fqdn_table

  unfoldable pub init_fqdn_table : (alloc : Bool) → HashTable CString P
  init_fqdn_table alloc = construct_fqdn_hash_table alloc 100

  unfoldable pub destroy_fqdn_table : HashTable CString P → HashTable CString P
  destroy_fqdn_table fqdn_table = (free_fqdn_hash_table fqdn_table).1
