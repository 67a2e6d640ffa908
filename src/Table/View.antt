-- ===== src/Table/View.antt =====
-- What a table means: a function from keys to data. Under `IsValid` no operation faults, and each
-- one acts on that function as its comment in hash.h says.
use node_identity_architetur.Base.{
  ℕ, ◌%◌, ◌<◌, ◌≡◌, refl, Bool, true, false, Option, none, some, [], ◌∷◌, arith, ◌==◌,
  if◌then◌else◌, Option-cases, Bool-cases, inl, inr,
}
use node_identity_architetur.Chain.{
  Chain, find, Unique, find-assign, find-unlink, assign-Unique, unlink-Unique,
}
use node_identity_architetur.Key.{Key, same}
use node_identity_architetur.Run.{ok, division_by_zero, Returns}
use node_identity_architetur.Table.{
  HashTable, construct_hash_table, set_bucket, slot, insert_chain, delete_chain, hash_insert,
  hash_lookup, hash_del,
}

module _ {ℓ} {V : Type ℓ} where
  -- What `hash_insert` returns: the old data, or else the new data.
  abbrev pub replaced : V → Option V → Option V
  replaced v none = some v
  replaced v (some old) = some old

  -- What a key reads after an insertion that finds no memory.
  abbrev pub overwritten : V → Option V → Option V
  overwritten v none = none
  overwritten v (some old) = some v

module _ {K V : Type 0} ⦃key : Key K⦄ where
  abbrev pub home : K → HashTable K V → ℕ
  home k t = key.hash k % t.size

  unfoldable pub view : HashTable K V → K → Option V
  view t q = find q (t.table (home q t))

  pub record IsValid (t : HashTable K V) : Type 0 where
    pub sized : 0 < t.size
    pub unique : (i : ℕ) → Unique (t.table i)
    pub placed : (i : ℕ) (q : K) → (i == home q t) ≡ false → find q (t.table i) ≡ none

  pub slot-home : (k : K) (t : HashTable K V) → 0 < t.size → slot k t ≡ ok (home k t)
  unfolding slot
  slot-home k t h = ground arith

  -- A lookup in a sized table ends normally.
  pub hash_lookup-view : (t : HashTable K V) (k : K) → 0 < t.size → hash_lookup k t ≡ ok (view t k)
  unfolding hash_lookup view
  hash_lookup-view t k h = rw (slot-home k t h)

  abbrev pub update : (K → Option V) → K → Option V → K → Option V
  update f k v q = if same q k then v else f q

  -- Writing one chain, whose lookups differ from the old chain's at `k` alone.
  pub set_bucket-view :
      (t : HashTable K V) (k : K) (v : Option V) (c : Chain K V)
      → IsValid t
      → Unique c
      → ((q : K) → find q c ≡ update (λ p. find p (t.table (home k t))) k v q)
      → IsValid (set_bucket (home k t) c t)
        × ((q : K) → view (set_bucket (home k t) c t) q ≡ update (view t) k v q)
  unfolding set_bucket view
  set_bucket-view t k v c valid u reads = (
    record {
      sized = valid.sized;
      unique = λ i. elim (Bool-cases (i == home k t)) [
        | inl hit ↦ rw hit u
        | inr miss ↦ rw miss (valid.unique i)
      ];
      placed = λ i q h. ground (arith, reads q, valid.placed i q, key.equal_iff q k);
    },
    λ q. ground (arith, reads q, valid.placed (home q t) q, key.equal_iff q k),
  )

  find_absent :
      (k : K) (c : Chain K V)
      → find k c ≡ none
      → (q : K) → find q c ≡ update (λ p. find p c) k none q
  find_absent k c absent q = ground (arith, key.equal_iff q k)

  pub insert_chain_lem :
      (k : K) (v : V) (c : Chain K V)
      → Unique c
      → ((insert_chain true k v c).0 ≡ replaced v (find k c))
        × Unique (insert_chain true k v c).1
        × ((q : K) → find q (insert_chain true k v c).1 ≡ update (λ p. find p c) k (some v) q)
  unfolding insert_chain find
  insert_chain_lem k v [] u = (refl, (refl, tt), λ q. refl)
  insert_chain_lem k v (e ∷ c) u = elim (Option-cases (find k (e ∷ c))) [
    | inl new ↦ rw (new, insert_chain) (refl, (new, u), λ q. refl)
    | inr (old, e') ↦
        rw (e', insert_chain)
          (refl, assign-Unique k v old (e ∷ c) e' u, λ q. find-assign k q v old (e ∷ c) e')
  ]

  pub delete_chain_lem :
      (k : K) (c : Chain K V)
      → Unique c
      → ((delete_chain k c).0 ≡ find k c)
        × Unique (delete_chain k c).1
        × ((q : K) → find q (delete_chain k c).1 ≡ update (λ p. find p c) k none q)
  unfolding delete_chain
  delete_chain_lem k c u = elim (Option-cases (find k c)) [
    | inl absent ↦ rw (absent, delete_chain) (refl, u, find_absent k c absent)
    | inr (old, e) ↦ rw (e, delete_chain) (refl, unlink-Unique k c u, λ q. find-unlink k q c u)
  ]

  -- On a well-formed table with memory at hand, `hash_insert` ends normally, stores the data under
  -- the key and changes no other key; it returns the data that the key had, or else the new data.
  pub hash_insert_lem :
      (t : HashTable K V) (k : K) (v : V)
      → IsValid t
      → Returns (hash_insert true k v t) λ (r, t').
        (r ≡ replaced v (view t k))
        × IsValid t'
        × ((q : K) → view t' q ≡ update (view t) k (some v) q)
  unfolding hash_insert view
  hash_insert_lem t k v valid =
      let (returned, u, reads) =
        insert_chain_lem k v (t.table (home k t)) (valid.unique (home k t)) in
      let (valid', reads') =
        set_bucket-view t k (some v) (insert_chain true k v (t.table (home k t))).1 valid u reads in
      (_, rw (slot-home k t valid.sized), (returned, valid', reads'))

  -- On a well-formed table `hash_del` ends normally, returns the data of the key if it has any,
  -- forgets the key and changes no other key.
  pub hash_del_lem :
      (t : HashTable K V) (k : K)
      → IsValid t
      → Returns
          (hash_del k t)
          λ (r, t'). (r ≡ view t k) × IsValid t' × ((q : K) → view t' q ≡ update (view t) k none q)
  unfolding hash_del view
  hash_del_lem t k valid =
      let (returned, u, reads) =
        delete_chain_lem k (t.table (home k t)) (valid.unique (home k t)) in
      let (valid', reads') =
        set_bucket-view t k none (delete_chain k (t.table (home k t))).1 valid u reads in
      (_, rw (slot-home k t valid.sized), (returned, valid', reads'))

  -- A fresh table of positive size is well formed and empty.
  pub construct_hash_table_lem :
      (n : ℕ)
      → 0 < n
      → IsValid (construct_hash_table {K = K} {V = V} true n)
        × ((q : K) → view (construct_hash_table true n) q ≡ none)
  unfolding construct_hash_table view find
  construct_hash_table_lem n h =
      (record { sized = h; unique = λ i. tt; placed = λ i q e. refl }, λ q. refl)

  insert_chain_no_memory :
      (k : K) (v : V) (c : Chain K V)
      → Unique c
      → ((insert_chain false k v c).0 ≡ find k c)
        × Unique (insert_chain false k v c).1
        × ((q : K)
            → find q (insert_chain false k v c).1
              ≡ update (λ p. find p c) k (overwritten v (find k c)) q)
  unfolding insert_chain find
  insert_chain_no_memory k v [] u = (refl, tt, λ q. ground arith)
  insert_chain_no_memory k v (e ∷ c) u = elim (Option-cases (find k (e ∷ c))) [
    | inl new ↦ rw (new, insert_chain) (refl, u, find_absent k (e ∷ c) new)
    | inr (old, e') ↦
        rw (e', insert_chain)
          (refl, assign-Unique k v old (e ∷ c) e' u, λ q. find-assign k q v old (e ∷ c) e')
  ]

  -- With no memory for a bucket, `hash_insert` on a well-formed table replaces the data of a key
  -- that is there, or else returns NULL and keeps every lookup as it was.
  pub hash_insert_no_memory :
      (t : HashTable K V) (k : K) (v : V)
      → IsValid t
      → Returns (hash_insert false k v t) λ (r, t').
        (r ≡ view t k)
        × IsValid t'
        × ((q : K) → view t' q ≡ update (view t) k (overwritten v (view t k)) q)
  unfolding hash_insert view
  hash_insert_no_memory t k v valid =
      let c = t.table (home k t) in
      let (returned, u, reads) = insert_chain_no_memory k v c (valid.unique (home k t)) in
      let (valid', reads') = set_bucket-view t k _ (insert_chain false k v c).1 valid u reads in
      (_, rw (slot-home k t valid.sized), (returned, valid', reads'))

  -- On a table of size 0 `hash_lookup`, `hash_insert` and `hash_del` divide by zero.
  pub hash_fault :
      (t : HashTable K V) (k : K) (v : V) (alloc : Bool)
      → t.size ≡ 0
      → (hash_lookup k t ≡ division_by_zero)
        × (hash_insert alloc k v t ≡ division_by_zero)
        × (hash_del k t ≡ division_by_zero)
  unfolding hash_lookup hash_insert hash_del
  hash_fault t k v alloc h =
      let e : slot k t ≡ division_by_zero = unfold slot in ground arith in (rw e, rw e, rw e)
