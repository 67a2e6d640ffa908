-- ===== src/Memory/Splice.antt =====
-- Copies at a place that is given as the length of what stands before it.
pub use mathlib.Core.List.{append-nil, append_assoc}
use node_identity_architetur.Base.{
  ℕ, zero, suc, ◌+◌, ◌-◌, ◌<◌, ◌≤◌, ◌≡◌, refl, sym, ◌∙◌, ap, List, [], ◌∷◌, ◌++◌, ◌==◌, true, false,
  arith, leb, length, length-append, take, drop, All, replicate,
}
use node_identity_architetur.Memory.{
  Buffer, copy_from, splice, copy_to, fill, until_nul, terminated, strcpy, htons, htonl, load16,
  load32,
}
use node_identity_architetur.Nid.{CString}
use node_identity_architetur.Run.{ok}

take-append : (p tail : Buffer) (k : ℕ) → take (length p + k) (p ++ tail) ≡ p ++ take k tail
take-append [] tail k = let none_before : 0 + k ≡ k = omega arith in rw none_before
take-append (c ∷ p) tail k =
    let next : suc (length p) + k ≡ suc (length p + k) = omega arith in
    rw next (ap (c ∷◌) (take-append p tail k))

drop-append : (p tail : Buffer) (k : ℕ) → drop (length p + k) (p ++ tail) ≡ drop k tail
drop-append [] tail k = let none_before : 0 + k ≡ k = omega arith in rw none_before
drop-append (c ∷ p) tail k =
    let next : suc (length p) + k ≡ suc (length p + k) = omega arith in
    rw next (drop-append p tail k)

-- Joined lists, parted from the left.
pub ruleset joins = (append_assoc, append-nil)

module _ (p tail : Buffer) (at k : ℕ) (place : at ≡ length p + k) where
  pub copy_to-append :
      (bs : List ℕ)
      → k + length bs ≤ length tail
      → copy_to at bs (p ++ tail) ≡ ok (p ++ splice k bs tail)
  unfolding copy_to splice
  copy_to-append bs fits =
      let inside : leb (at + length bs) (length (p ++ tail)) ≡ true =
        ground (arith, length-append p tail) in
      let behind : at + length bs ≡ length p + (k + length bs) = omega arith in
      rw (inside, behind, place, take-append p tail k, drop-append p tail (k + length bs))
        (ap ok (append_assoc p (take k tail) (bs ++ drop (k + length bs) tail)))

  pub copy_from-append :
      (count : ℕ)
      → k + count ≤ length tail
      → copy_from at count (p ++ tail) ≡ ok (take count (drop k tail))
  unfolding copy_from
  copy_from-append count fits =
      let inside : leb (at + count) (length (p ++ tail)) ≡ true =
        ground (arith, length-append p tail) in
      rw (inside, place, drop-append p tail k)

abbrev pub IsText : CString → Type 0
IsText = All λ c. (c == 0) ≡ false

pub until_nul-append : (s : CString) (tail : Buffer) → IsText s → until_nul (s ++ 0 ∷ tail) ≡ s
unfolding until_nul
until_nul-append [] tail is = refl
until_nul-append (c ∷ s) tail (here, there) = rw (here, until_nul-append s tail there)

terminated-append : (s : CString) (tail : Buffer) → terminated (s ++ 0 ∷ tail) ≡ true
unfolding terminated
terminated-append [] tail = refl
terminated-append (c ∷ s) tail = ground (arith, terminated-append s tail)

pub strcpy-append :
    (p : Buffer) (s : CString) (tail : Buffer) (size at : ℕ)
    → IsText s
    → length s < size
    → at ≡ length p
    → strcpy size at (p ++ (s ++ 0 ∷ tail)) ≡ ok s
unfolding strcpy
strcpy-append p s tail size at is short place =
    let begins : at ≡ length p + 0 = omega arith in
    rw
      (
        strcpy,
        begins,
        drop-append p (s ++ 0 ∷ tail) 0,
        terminated-append s tail,
        until_nul-append s tail is,
      )
      (ground (arith, short))

-- So many zeros
abbrev pub zeros : ℕ → Buffer
zeros n = replicate n 0

pub zeros-append : (k n : ℕ) → k ≤ n → zeros n ≡ zeros k ++ zeros (n - k)
zeros-append zero n h = let all : n - 0 ≡ n = omega arith in rw all
zeros-append (suc k) zero h = absurd (omega arith)
zeros-append (suc k) (suc n) h =
    let rest : suc n - suc k ≡ n - k = omega arith in
    rw rest (ap (0 ∷◌) (zeros-append k n (omega arith)))

pub drop-zeros : (k n : ℕ) → drop k (zeros n) ≡ zeros (n - k)
drop-zeros zero n = let all : n - 0 ≡ n = omega arith in rw all
drop-zeros (suc k) zero = let none_left : 0 - suc k ≡ 0 = omega arith in rw none_left
drop-zeros (suc k) (suc n) =
    let rest : suc n - suc k ≡ n - k = omega arith in rw rest (drop-zeros k n)

pub length-zeros : (n : ℕ) → length (zeros n) ≡ n
length-zeros zero = refl
length-zeros (suc n) = ap suc (length-zeros n)

-- A copy to the first of the zeros that end an array.
pub copy_to-zeros :
    (at m r : ℕ) (p bs : List ℕ)
    → length p ≡ at
    → length bs + r ≡ m
    → copy_to at bs (p ++ zeros m) ≡ ok ((p ++ bs) ++ zeros r)
unfolding splice
copy_to-zeros at m r p bs place fits =
    let shape : at ≡ length p + 0 = omega (arith, place) in
    let room : 0 + length bs ≤ length (zeros m) = omega (arith, fits, length-zeros m) in
    let behind : drop (0 + length bs) (zeros m) ≡ zeros r =
      drop-zeros (0 + length bs) m ∙ ap zeros (omega (arith, fits)) in
    rw (copy_to-append p (zeros m) at 0 shape bs room, behind)
      (ap ok (sym (append_assoc p bs (zeros r))))

-- A zero that is left where it is.
pub skip-zeros : (p : List ℕ) (m : ℕ) → 0 < m → p ++ zeros m ≡ (p ++ 0 ∷ []) ++ zeros (m - 1)
skip-zeros p zero h = absurd (omega arith)
skip-zeros p (suc m) h =
    let rest : suc m - 1 ≡ m = omega arith in rw rest (sym (append_assoc p (0 ∷ []) (zeros m)))

pub length_next : (k : ℕ) (p bs : List ℕ) → length p ≡ k → length (p ++ bs) ≡ k + length bs
length_next k p bs e = omega (arith, e, length-append p bs)

pub drop_all : (n : ℕ) (buf : Buffer) → length buf ≡ n → drop n buf ≡ []
drop_all zero [] e = refl
drop_all zero (c ∷ buf) e = absurd (omega (arith, e))
drop_all (suc n) [] e = refl
drop_all (suc n) (c ∷ buf) e = drop_all n buf (omega (arith, e))

-- A copy over a whole array.
pub store_all :
    (bs buf : Buffer) (n : ℕ) → length bs ≡ n → length buf ≡ n → copy_to 0 bs buf ≡ ok bs
unfolding copy_to splice
store_all bs buf n e e' =
    let room : leb (0 + length bs) (length buf) ≡ true = ground (arith, e, e') in
    let behind : drop (0 + length bs) buf ≡ [] =
      drop_all (0 + length bs) buf (omega (arith, e, e')) in
    rw (room, behind, append-nil bs)

pub take_exact : (old tail : Buffer) → take (length old) (old ++ tail) ≡ old
take_exact [] tail = refl
take_exact (c ∷ old) tail = ap (c ∷◌) (take_exact old tail)

drop_exact : (old tail : Buffer) → drop (0 + length old) (old ++ tail) ≡ tail
drop_exact old tail =
    let here : 0 + length old ≡ length old + 0 = omega arith in rw here (drop-append old tail 0)

module _ (p old tail buf : Buffer) (at : ℕ) (shape : buf ≡ p ++ (old ++ tail))
    (place : length p ≡ at) where
  pub load_within : (count : ℕ) → length old ≡ count → copy_from at count buf ≡ ok old
  load_within count e =
      let here : at ≡ length p + 0 = omega (arith, place) in
      let room : 0 + count ≤ length (old ++ tail) = omega (arith, e, length-append old tail) in
      let piece : take count (old ++ tail) ≡ old = rw (← e) (take_exact old tail) in
      rw shape (copy_from-append p (old ++ tail) at 0 here count room ∙ ap ok piece)

  pub store_within :
      (bs : List ℕ) → length old ≡ length bs → copy_to at bs buf ≡ ok (p ++ (bs ++ tail))
  unfolding splice
  store_within bs e =
      let here : at ≡ length p + 0 = omega (arith, place) in
      let room : 0 + length bs ≤ length (old ++ tail) = omega (arith, e, length-append old tail) in
      let piece : drop (0 + length bs) (old ++ tail) ≡ tail = rw (← e) (drop_exact old tail) in
      rw shape
        (copy_to-append p (old ++ tail) at 0 here bs room ∙ ap (λ t. ok (p ++ (bs ++ t))) piece)

module _ (p tail buf : Buffer) (at : ℕ) (place : length p ≡ at) where
  pub load16_within : (v : ℕ) → v < 65536 → buf ≡ p ++ (htons v ++ tail) → load16 at buf ≡ ok v
  unfolding load16 htons
  load16_within v word shape =
      rw (load_within p (htons v) tail buf at shape place 2 refl) (ap ok (omega arith))

  pub load32_within : (v : ℕ) → v < 4294967296 → buf ≡ p ++ (htonl v ++ tail) → load32 at buf ≡ ok v
  unfolding load32 htonl
  load32_within v word shape =
      rw (load_within p (htonl v) tail buf at shape place 4 refl) (ap ok (omega arith))

pub fill_lem :
    (size : ℕ) (bs : List ℕ) → length bs ≤ size → fill size bs ≡ ok (bs ++ zeros (size - length bs))
unfolding fill
fill_lem size bs h = let room : leb (length bs) size ≡ true = ground arith in rw room

drop_nil : (k : ℕ) → drop {A = ℕ} k [] ≡ []
drop_nil zero = refl
drop_nil (suc k) = refl

drop_more : (j k : ℕ) (R : Buffer) → drop k (drop j R) ≡ drop (j + k) R
drop_more zero k R = let all : 0 + k ≡ k = omega arith in rw all
drop_more (suc j) k [] = let next : suc j + k ≡ suc (j + k) = omega arith in rw next (drop_nil k)
drop_more (suc j) k (c ∷ R) =
    let next : suc j + k ≡ suc (j + k) = omega arith in rw next (drop_more j k R)

pub length-drop : (j : ℕ) (R : Buffer) → length (drop j R) ≡ length R - j
length-drop zero R = omega arith
length-drop (suc j) [] = omega arith
length-drop (suc j) (c ∷ R) = omega (arith, length-drop j R)

-- A copy over the next bytes of what an array ends in.
pub copy_to-drop :
    (at j : ℕ) (p bs R : List ℕ)
    → length p ≡ at
    → j + length bs ≤ length R
    → copy_to at bs (p ++ drop j R) ≡ ok ((p ++ bs) ++ drop (j + length bs) R)
unfolding splice
copy_to-drop at j p bs R place fits =
    let here : at ≡ length p + 0 = omega (arith, place) in
    let room : 0 + length bs ≤ length (drop j R) = omega (arith, length-drop j R) in
    let behind : drop (0 + length bs) (drop j R) ≡ drop (j + length bs) R =
      let all : 0 + length bs ≡ length bs = omega arith in rw all (drop_more j (length bs) R) in
    rw (copy_to-append p (drop j R) at 0 here bs room, behind)
      (ap ok (sym (append_assoc p bs (drop (j + length bs) R))))

-- A copy over the first of zeros in the middle of an array.
pub copy_to-over_zeros :
    (at n : ℕ) (p bs D : List ℕ)
    → length p ≡ at
    → length bs ≤ n
    → copy_to at bs ((p ++ zeros n) ++ D) ≡ ok (((p ++ bs) ++ zeros (n - length bs)) ++ D)
copy_to-over_zeros at n p bs D place fits =
    let k = length bs in
    let shape : (p ++ zeros n) ++ D ≡ p ++ (zeros k ++ (zeros (n - k) ++ D)) =
      rw (zeros-append k n fits) (simp joins) in
    store_within p (zeros k) (zeros (n - k) ++ D) ((p ++ zeros n) ++ D) at shape place bs
      (length-zeros k)
    ∙ ap ok (sym (simp joins))
