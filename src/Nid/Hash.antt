-- ===== src/Nid/Hash.antt =====
-- How large and how even the hash values are.
use native.Mathlib.Nat.{div-add-mod, pow-suc, add-zero}
use node_identity_architetur.Base.{
  ℕ, suc, ◌+◌, ◌*◌, ◌%◌, ◌^◌, ◌<◌, ◌≤◌, ◌≡◌, refl, List, [], ◌∷◌, arith, length, All, bit_xor-lt,
}
use node_identity_architetur.Nid.{
  Nid, Nid32, IsByte, IsNid, hash_byte, hash_loop, hash, hash32, bytes32,
}

hash_byte-lt : (k r i : ℕ) → r < 2 ^ k → i < 2 ^ k → hash_byte r i < 2 ^ suc k
unfolding hash_byte
hash_byte-lt k r i p q = omega (arith, bit_xor-lt k r i p q, pow-suc 2 k)

hash_loop-lt :
    (pt : List ℕ) (k r : ℕ)
    → 256 ≤ 2 ^ k
    → r < 2 ^ k
    → All IsByte pt
    → hash_loop r pt < 2 ^ (k + length pt)
unfolding hash_loop
hash_loop-lt [] k r h p bytes = rw add-zero p
hash_loop-lt (i ∷ pt) k r h p bytes =
    let e : k + suc (length pt) ≡ suc k + length pt = omega arith in
    rw e (
      hash_loop-lt pt (suc k) (hash_byte r i) (omega (arith, pow-suc 2 k))
        (hash_byte-lt k r i p (omega (arith, bytes.0))) bytes.1)

-- `hash` of a node identifier of 16 bytes is below 2 ^ 24.
pub hash-lt : (nid : Nid) → IsNid nid → hash nid < 2 ^ 24
unfolding hash
hash-lt nid h =
    let bound = hash_loop-lt nid.u6_addr8 8 0 (omega arith) (omega arith) h.bytes in
    rw h.sixteen at bound

pub hash32-lt : (nid32 : Nid32) → hash32 nid32 < 2 ^ 12
unfolding hash32 bytes32
hash32-lt nid32 =
    hash_loop-lt (bytes32 nid32) 8 0 (omega arith) (omega arith)
      (omega arith, (omega arith, (omega arith, (omega arith, tt))))

hash_byte_even : (r i : ℕ) → hash_byte r i % 2 ≡ 0
unfolding hash_byte
hash_byte_even r i = omega arith

hash_loop_even : (r : ℕ) (pt : List ℕ) → r % 2 ≡ 0 → hash_loop r pt % 2 ≡ 0
unfolding hash_loop
hash_loop_even r [] h = h
hash_loop_even r (i ∷ pt) h = hash_loop_even (hash_byte r i) pt (hash_byte_even r i)

mod_even : (n m : ℕ) → n % 2 ≡ 0 → (n % (2 * m)) % 2 ≡ 0
mod_even n m h = omega (arith, div-add-mod n (2 * m))

-- In a table of even size every identifier has an even place.
pub hash_place_even : (nid : Nid) (m : ℕ) → (hash nid % (2 * m)) % 2 ≡ 0
unfolding hash
hash_place_even nid m = mod_even (hash nid) m (hash_loop_even 0 nid.u6_addr8 refl)
