-- ===== src/Base/Bits.antt =====
-- How large an exclusive or can be.
use Prim.Native.Nat.{ℕ, zero, suc, ◌/◌, ◌%◌, ◌^◌, ◌<◌, bit_xor, digits, differ, bit_xor-bitwise}
use native.Mathlib.Nat.{pow-suc}
use native.Mathlib.Omega.{arith}

differ-lt : (x y : ℕ) → x < 2 → y < 2 → differ x y < 2
differ-lt zero y p q = q
differ-lt (suc x) zero p q = p
differ-lt (suc x) (suc y) p q = differ-lt x y (omega arith) (omega arith)

digits-lt : (n k a b : ℕ) → a < 2 ^ k → b < 2 ^ k → digits (λ y. y) differ n a b < 2 ^ k
digits-lt zero k a b p q = q
digits-lt (suc n) k zero b p q = q
digits-lt (suc n) zero (suc a) b p q = absurd (omega arith)
digits-lt (suc n) (suc k) (suc a) b p q = omega (
  arith,
  pow-suc 2 k,
  digits-lt n k (suc a / 2) (b / 2) (omega (arith, pow-suc 2 k)) (omega (arith, pow-suc 2 k)),
  differ-lt (suc a % 2) (b % 2) (omega arith) (omega arith),
)

-- Two numbers of `k` bits give a number of `k` bits.
pub bit_xor-lt : (k a b : ℕ) → a < 2 ^ k → b < 2 ^ k → bit_xor a b < 2 ^ k
bit_xor-lt k a b p q = rw bit_xor-bitwise (digits-lt a k a b p q)
