-- ===== src/Table.antt =====
-- The chained hash table of hash.c. hash32.c and fqdn_hash.c repeat its text for other keys, so it
-- is written once, for a key with an equality test and a hash.
pub mod View
pub mod Entries
use node_identity_architetur.Base.{
  ℕ, zero, suc, ◌+◌, ◌%◌, Bool, true, false, Option, none, some, List, [], ◌∷◌, ◌++◌, map, ◌==◌,
  if◌then◌else◌,
}
use node_identity_architetur.Chain.{Chain, find, assign, unlink}
use node_identity_architetur.Key.{Key}
use node_identity_architetur.Run.{Run, ok, division_by_zero, ◌>>=◌}

-- `table` is the array of chain heads; only the places below `size` are read or written.
pub record HashTable (K V : Type 0) : Type 0 where
  pub size : ℕ
  pub table : ℕ → Chain K V

module _ {K V : Type 0} where
  -- `alloc` says whether `calloc` finds memory.
  unfoldable pub construct_hash_table : (alloc : Bool) → ℕ → HashTable K V
  construct_hash_table alloc size =
      if alloc
      then record { size = size; table = λ _. [] }
      else record { size = 0; table = λ _. [] }

  unfoldable pub set_bucket : ℕ → Chain K V → HashTable K V → HashTable K V
  set_bucket i c t = record t { table = λ j. if j == i then c else t.table j }

  -- The chains from place `i` on, for `n` places, in the order of the loops over `i` and `next`.
  unfoldable pub chains_from : (n i : ℕ) → HashTable K V → Chain K V
  chains_from zero i t = []
  chains_from (suc n) i t = t.table i ++ chains_from n (suc i) t

  -- What the double loop over the table visits.
  unfoldable pub entries : HashTable K V → Chain K V
  unfolding chains_from
  entries t = chains_from t.size 0 t

  -- The data handed to `func`, and the table afterwards.
  unfoldable pub free_hash_table : HashTable K V → List V × HashTable K V
  unfolding entries
  free_hash_table t = (map (λ e. e.1) (entries t), record { size = 0; table = λ _. [] })

module _ {K V : Type 0} ⦃key : Key K⦄ where
  -- `hash(nid) % table->size`
  unfoldable pub slot : K → HashTable K V → Run ℕ
  slot k t = if t.size == 0 then division_by_zero else ok (key.hash k % t.size)

  -- The work on one chain; `alloc` says whether `malloc` finds memory for a new bucket.
  unfoldable pub insert_chain : (alloc : Bool) → K → V → Chain K V → Option V × Chain K V
  insert_chain alloc k v [] = if alloc then (some v, (k, v) ∷ []) else (none, [])
  insert_chain alloc k v (e ∷ c) = elim (find k (e ∷ c)) [
    | some old ↦ (some old, assign k v (e ∷ c))
    | none ↦ if alloc then (some v, (k, v) ∷ e ∷ c) else (none, e ∷ c)
  ]

  unfoldable pub delete_chain : K → Chain K V → Option V × Chain K V
  delete_chain k c = elim (find k c) [
    | some data_found ↦ (some data_found, unlink k c)
    | none ↦ (none, c)
  ]

  unfoldable pub hash_insert :
      (alloc : Bool) → K → V → HashTable K V → Run (Option V × HashTable K V)
  unfolding slot insert_chain set_bucket
  hash_insert alloc k v t = do
    i ← slot k t
    let r = insert_chain alloc k v (t.table i)
    ok (r.0, set_bucket i r.1 t)

  unfoldable pub hash_lookup : K → HashTable K V → Run (Option V)
  unfolding slot
  hash_lookup k t = do i ← slot k t; ok (find k (t.table i))

  unfoldable pub hash_del : K → HashTable K V → Run (Option V × HashTable K V)
  unfolding slot delete_chain set_bucket
  hash_del k t = do i ← slot k t; let r = delete_chain k (t.table i); ok (r.0, set_bucket i r.1 t)
