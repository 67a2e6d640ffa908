-- ===== src/Key.antt =====
-- What the chained tables ask of a key: an equality test (`memcmp`, `strcmp`) and a hash.
use node_identity_architetur.Base.{ℕ, ◌≡◌, ◌≢◌, ◌↔◌, Bool, true, false, refl, arith}

pub record Key {ℓ} (K : Type ℓ) : Type ℓ where
  pub equal : K → K → Bool
  pub hash : K → ℕ
  pub equal_iff : (a b : K) → (equal a b ≡ true) ↔ (a ≡ b)

module _ {ℓ} {K : Type ℓ} ⦃key : Key K⦄ where
  abbrev pub same : K → K → Bool
  same a b = key.equal a b

  pub same_refl : (a : K) → same a a ≡ true
  same_refl a = (key.equal_iff a a).1 refl

  pub same_ne : (a b : K) → same a b ≡ false → a ≢ b
  same_ne a b h e = ground (arith, key.equal_iff a b)
