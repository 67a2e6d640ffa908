-- ===== src/Table/Entries.antt =====
-- The loops over a whole table: every key that is stored is visited once, with its data.
use node_identity_architetur.Base.{
  ℕ, zero, suc, ◌+◌, ◌<◌, ◌≤◌, ◌≡◌, ◌⊎◌, ◌∙◌, refl, none, some, [], ◌∷◌, ◌++◌, arith, ◌==◌,
  Bool-cases, inl, inr,
}
use node_identity_architetur.Chain.{Chain, find, Unique}
use node_identity_architetur.Key.{Key}
use node_identity_architetur.Table.{HashTable, chains_from, entries}
use node_identity_architetur.Table.View.{home, view, IsValid}

module _ {K V : Type 0} ⦃key : Key K⦄ where
  pub find-append :
      (q : K) (a b : Chain K V)
      → find q (a ++ b) ≡ (elim (find q a) [ none ↦ find q b | some v ↦ some v ])
  unfolding find
  find-append q [] b = refl
  find-append q (e ∷ a) b = ground (arith, find-append q a b)

  Unique-append :
      (a b : Chain K V)
      → Unique a
      → Unique b
      → ((q : K) → (find q a ≡ none) ⊎ (find q b ≡ none))
      → Unique (a ++ b)
  unfolding find
  Unique-append [] b ua ub apart = ub
  Unique-append (e ∷ a) b ua ub apart = (
    ground (arith, find-append e.0 a b, ua.0, apart e.0, key.equal_iff e.0 e.0),
    Unique-append a b ua.1 ub λ q. ground (arith, apart q),
  )

  module _ (t : HashTable K V) (valid : IsValid t) where
    find-chains_after : (n i : ℕ) (q : K) → home q t < i → find q (chains_from n i t) ≡ none
    unfolding chains_from find
    find-chains_after zero i q h = refl
    find-chains_after (suc n) i q h = ground (
      arith,
      find-append q (t.table i) (chains_from n (suc i) t),
      valid.placed i q,
      find-chains_after n (suc i) q,
    )

    find-chains_from :
        (n i : ℕ) (q : K) → i ≤ home q t → home q t < i + n → find q (chains_from n i t) ≡ view t q
    unfolding chains_from find view
    find-chains_from zero i q h k = absurd (omega arith)
    find-chains_from (suc n) i q h k = elim (Bool-cases (i == home q t)) [
      | inl hit ↦
          let after = find-chains_after n (suc i) q (ground arith) in
          let e : i ≡ home q t = ground arith in
          rw (← e) (find-append q (t.table i) (chains_from n (suc i) t) ∙ ground arith)
      | inr miss ↦
          find-append q (t.table i) (chains_from n (suc i) t)
          ∙ rw (valid.placed i q miss) (find-chains_from n (suc i) q (ground arith) (ground arith))
    ]

    chains_from-Unique : (n i : ℕ) → Unique (chains_from n i t)
    unfolding chains_from
    chains_from-Unique zero i = tt
    chains_from-Unique (suc n) i =
        Unique-append (t.table i) (chains_from n (suc i) t) (valid.unique i)
          (chains_from-Unique n (suc i))
          λ q. elim (Bool-cases (i == home q t)) [
            | inl hit ↦ inr (find-chains_after n (suc i) q (ground arith))
            | inr miss ↦ inl (valid.placed i q miss)
          ]

    -- The double loop over a well-formed table visits every key once, and finds with each key the
    -- data that a lookup of the key returns.
    pub entries_lem : Unique (entries t) × ((q : K) → find q (entries t) ≡ view t q)
    unfolding entries
    entries_lem = (
      chains_from-Unique t.size 0,
      λ q. find-chains_from t.size 0 q (omega arith) (omega (arith, valid.sized)),
    )
