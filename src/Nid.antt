-- ===== src/Nid.antt =====
-- Node identifiers (nid.h), and the hash functions of hash.c, hash32.c and fqdn_hash.c.
pub mod Hash
use node_identity_architetur.Base.{
  ℕ, zero, suc, ◌+◌, ◌-◌, ◌*◌, ◌/◌, ◌%◌, ◌^◌, ◌<◌, ◌≡◌, ◌≢◌, ◌↔◌, refl, Bool, true, false, ◌&&◌,
  List, [], ◌∷◌, arith, ◌==◌, ==_iff, ltb, if◌then◌else◌, length, All, bit_xor, get_or,
}
use node_identity_architetur.Key.{Key}

-- `NID`, a `struct in6_addr`: its bytes in the order of memory.
pub record Nid : Type 0 where
  pub u6_addr8 : List ℕ

-- `NID32`, an `in_addr_t`: an unsigned number of 32 bits, as the host reads it.
abbrev pub Nid32 : Type 0
Nid32 = ℕ

-- A `char *`: the bytes before the terminating NUL.
abbrev pub CString : Type 0
CString = List ℕ

abbrev pub IsByte : ℕ → Type 0
IsByte b = b < 256

pub record IsNid (nid : Nid) : Type 0 where
  pub sixteen : length nid.u6_addr8 ≡ 16
  pub bytes : All IsByte nid.u6_addr8

-- `memcmp` over the bytes of two keys, and `strcmp` of two strings, as a test for equality.
unfoldable pub bytes_eq : List ℕ → List ℕ → Bool
bytes_eq [] [] = true
bytes_eq [] (b ∷ bs) = false
bytes_eq (a ∷ as') [] = false
bytes_eq (a ∷ as') (b ∷ bs) = (a == b) && bytes_eq as' bs

pub bytes_eq_iff : (a b : List ℕ) → (bytes_eq a b ≡ true) ↔ (a ≡ b)
unfolding bytes_eq
bytes_eq_iff [] [] = ground arith
bytes_eq_iff [] (b ∷ bs) = ground arith
bytes_eq_iff (a ∷ as') [] = ground arith
bytes_eq_iff (a ∷ as') (b ∷ bs) = ground (arith, bytes_eq_iff as' bs)

-- The bytes of a 32-bit number in memory; the host (`-march=pentium4`) is little-endian.
unfoldable pub bytes32 : Nid32 → List ℕ
bytes32 v = v % 256 ∷ v / 256 % 256 ∷ v / 65536 % 256 ∷ v / 16777216 % 256 ∷ []

-- `ret_val ^= i; ret_val <<= 1;` on an `unsigned` of 32 bits.
unfoldable pub hash_byte : ℕ → ℕ → ℕ
hash_byte ret_val i = (bit_xor ret_val i * 2) % 2 ^ 32

unfoldable pub hash_loop : ℕ → List ℕ → ℕ
unfolding hash_byte
hash_loop ret_val [] = ret_val
hash_loop ret_val (i ∷ pt) = hash_loop (hash_byte ret_val i) pt

unfoldable pub hash : Nid → ℕ
unfolding hash_loop
hash nid = hash_loop 0 nid.u6_addr8

unfoldable pub hash32 : Nid32 → ℕ
unfolding hash_loop bytes32
hash32 nid32 = hash_loop 0 (bytes32 nid32)

-- `(int) *string`, where `char` is signed, as the operand of an `unsigned` exclusive or.
unfoldable pub signed_char : ℕ → ℕ
signed_char c = if ltb c 128 then c else c + 2 ^ 32 - 256

unfoldable pub fqdn_hash_loop : ℕ → CString → ℕ
unfolding hash_byte signed_char
fqdn_hash_loop ret_val [] = ret_val
fqdn_hash_loop ret_val (c ∷ string) = fqdn_hash_loop (hash_byte ret_val (signed_char c)) string

unfoldable pub fqdn_hash : CString → ℕ
unfolding fqdn_hash_loop
fqdn_hash string = fqdn_hash_loop 0 string

pub nid_eq_iff : (a b : Nid) → (bytes_eq a.u6_addr8 b.u6_addr8 ≡ true) ↔ (a ≡ b)
nid_eq_iff a b = ground (arith, bytes_eq_iff a.u6_addr8 b.u6_addr8)

instance abbrev pub nid_key : Key Nid
nid_key = record {
  equal = λ a b. bytes_eq a.u6_addr8 b.u6_addr8;
  hash = hash;
  equal_iff = nid_eq_iff;
}

instance abbrev pub nid32_key : Key ℕ
nid32_key = record { equal = ◌==◌; hash = hash32; equal_iff = ==_iff }

instance abbrev pub fqdn_key : Key (List ℕ)
fqdn_key = record { equal = bytes_eq; hash = fqdn_hash; equal_iff = bytes_eq_iff }

-- `nid2nid32`: the last four bytes of the identifier, the first of them set to 1.
unfoldable pub nid2nid32 : Nid → Nid32
nid2nid32 nid =
    1
    + 256 * get_or nid.u6_addr8 13 0
    + 65536 * get_or nid.u6_addr8 14 0
    + 16777216 * get_or nid.u6_addr8 15 0
