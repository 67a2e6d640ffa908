-- ===== src/Chain.antt =====
-- One chain of buckets, `bucket` of hash.h: the keys and data in the order of the `next` links.
-- Each node belongs to one chain of one table, so a chain is the list of its nodes.
use node_identity_architetur.Base.{
  ◌≡◌, Option, Bool-cases, inl, inr, none, some, List, [], ◌∷◌, arith, if◌then◌else◌,
}
use node_identity_architetur.Key.{Key, same}

abbrev pub Chain {ℓ} : Type ℓ → Type ℓ → Type ℓ
Chain K V = List (K × V)

module _ {ℓ} {K V : Type ℓ} ⦃key : Key K⦄ where
  -- The walk that stops at the first bucket with the key.
  unfoldable pub find : K → Chain K V → Option V
  find k [] = none
  find k (e ∷ c) = if same k e.0 then some e.1 else find k c

  -- `ptr->data = data` at that bucket.
  unfoldable pub assign : K → V → Chain K V → Chain K V
  assign k v [] = []
  assign k v (e ∷ c) = if same k e.0 then (e.0, v) ∷ c else e ∷ assign k v c

  -- That bucket is unlinked: `last->next = ptr->next`, or the head of the chain moves on.
  unfoldable pub unlink : K → Chain K V → Chain K V
  unlink k [] = []
  unlink k (e ∷ c) = if same k e.0 then c else e ∷ unlink k c

  -- No key occurs twice.
  abbrev pub Unique : Chain K V → Type ℓ
  Unique [] = Unit
  Unique (e ∷ c) = (find e.0 c ≡ none) × Unique c

  pub find-assign :
      (k q : K) (v old : V) (c : Chain K V)
      → find k c ≡ some old
      → find q (assign k v c) ≡ (if same q k then some v else find q c)
  unfolding find assign
  find-assign k q v old [] h = ground arith
  find-assign k q v old (e ∷ c) h =
      ground (
        arith,
        find-assign k q v old c,
        key.equal_iff k e.0,
        key.equal_iff q e.0,
        key.equal_iff q k,
      )

  pub find-unlink :
      (k q : K) (c : Chain K V)
      → Unique c
      → find q (unlink k c) ≡ (if same q k then none else find q c)
  unfolding find unlink
  find-unlink k q [] u = ground arith
  find-unlink k q (e ∷ c) u = ground (
    arith,
    find-unlink k q c u.1,
    u.0,
    key.equal_iff k e.0,
    key.equal_iff q e.0,
    key.equal_iff q k,
  )

  pub assign-Unique :
      (k : K) (v old : V) (c : Chain K V) → find k c ≡ some old → Unique c → Unique (assign k v c)
  unfolding find assign
  assign-Unique k v old [] h u = tt
  assign-Unique k v old (e ∷ c) h u = elim (Bool-cases (same k e.0)) [
    | inl hit ↦ rw hit u
    | inr miss ↦
        let h' : find k c ≡ some old = rw miss at h in
        rw miss (
          ground (arith, find-assign k e.0 v old c h', key.equal_iff k e.0, key.equal_iff e.0 k),
          assign-Unique k v old c h' u.1,
        )
  ]

  pub unlink-Unique : (k : K) (c : Chain K V) → Unique c → Unique (unlink k c)
  unfolding find unlink
  unlink-Unique k [] u = tt
  unlink-Unique k (e ∷ c) u = elim (Bool-cases (same k e.0)) [
    | inl hit ↦ rw hit u.1
    | inr miss ↦ rw miss (ground (arith, find-unlink k e.0 c u.1), unlink-Unique k c u.1)
  ]
