-- ===== src/Hash32.antt =====
-- hash32.c: the chained table with 32-bit identifiers for keys. Its functions repeat hash.c's.
use node_identity_architetur.Base.{ℕ, Bool, Option, List}
use node_identity_architetur.Nid.{Nid32, nid32_key}
use node_identity_architetur.Run.{Run}
use node_identity_architetur.Table.{
  HashTable, construct_hash_table, free_hash_table, hash_insert, hash_lookup, hash_del,
}

module _ {V : Type 0} where
  unfoldable pub construct_hash_table32 : (alloc : Bool) → ℕ → HashTable Nid32 V
  construct_hash_table32 = construct_hash_table

  unfoldable pub hash_insert32 :
      (alloc : Bool) → Nid32 → V → HashTable Nid32 V → Run (Option V × HashTable Nid32 V)
  hash_insert32 = hash_insert

  unfoldable pub hash_lookup32 : Nid32 → HashTable Nid32 V → Run (Option V)
  hash_lookup32 = hash_lookup

  unfoldable pub hash_del32 : Nid32 → HashTable Nid32 V → Run (Option V × HashTable Nid32 V)
  hash_del32 = hash_del

  unfoldable pub free_hash_table32 : HashTable Nid32 V → List V × HashTable Nid32 V
  free_hash_table32 = free_hash_table
