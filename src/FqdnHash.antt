-- ===== src/FqdnHash.antt =====
-- fqdn_hash.c: the chained table with domain names for keys (a copy of the name is kept, so a key is
-- the name's text). Its functions repeat hash.c's; the enumeration calls a function on each entry.
use node_identity_architetur.Base.{ℕ, Bool, Option, List, [], ◌∷◌, ◌++◌, ◌≡◌, ◌∙◌}
use mathlib.Core.List.{append_assoc, append-nil}
use node_identity_architetur.Chain.{Chain, find, Unique}
use node_identity_architetur.Nid.{CString, fqdn_key}
use node_identity_architetur.Run.{Run}
use node_identity_architetur.Table.{
  HashTable, construct_hash_table, free_hash_table, hash_insert, hash_lookup, hash_del, entries,
}
use node_identity_architetur.Table.View.{view, IsValid}
use node_identity_architetur.Table.Entries.{entries_lem}

module _ {V : Type 0} where
  unfoldable pub construct_fqdn_hash_table : (alloc : Bool) → ℕ → HashTable CString V
  construct_fqdn_hash_table = construct_hash_table

  unfoldable pub fqdn_hash_insert :
      (alloc : Bool) → CString → V → HashTable CString V → Run (Option V × HashTable CString V)
  fqdn_hash_insert = hash_insert

  unfoldable pub fqdn_hash_lookup : CString → HashTable CString V → Run (Option V)
  fqdn_hash_lookup = hash_lookup

  unfoldable pub fqdn_hash_del :
      CString → HashTable CString V → Run (Option V × HashTable CString V)
  fqdn_hash_del = hash_del

  unfoldable pub free_fqdn_hash_table : HashTable CString V → List V × HashTable CString V
  free_fqdn_hash_table = free_hash_table

  -- The calls of `func` on the nodes of one list, each on the state that the one before leaves.
  unfoldable call_each : {S : Type 0} → (CString → V → S → S) → Chain CString V → S → S
  call_each func [] s = s
  call_each func (e ∷ c) s = call_each func c (func e.0 e.1 s)

  unfoldable fqdn_hash_enumerate :
      {S : Type 0} → (func : CString → V → S → S) → HashTable CString V → S → S
  unfolding call_each
  fqdn_hash_enumerate func t s = call_each func (entries t) s

  -- A `func` that writes down what it is called on.
  unfoldable record_call : CString → V → Chain CString V → Chain CString V
  record_call k v seen = seen ++ (k, v) ∷ []

  call_each-records : (c seen : Chain CString V) → call_each record_call c seen ≡ seen ++ c
  unfolding call_each record_call
  call_each-records [] seen = rw append-nil
  call_each-records (e ∷ c) seen = call_each-records c (seen ++ e ∷ []) ∙ rw append_assoc

  -- On a well-formed table `func` is called on every key that is stored, once, with its data.
  fqdn_hash_enumerate_lem :
      (t : HashTable CString V)
      → IsValid t
      → Unique (fqdn_hash_enumerate record_call t [])
        × ((q : CString) → find q (fqdn_hash_enumerate record_call t []) ≡ view t q)
  unfolding fqdn_hash_enumerate
  fqdn_hash_enumerate_lem t valid = rw (call_each-records (entries t) []) (entries_lem t valid)
