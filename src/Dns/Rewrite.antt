-- ===== src/Dns/Rewrite.antt =====
-- The records of a response, written over others.
use node_identity_architetur.Base.{
  ℕ, ◌+◌, ◌-◌, ◌≤◌, ◌≡◌, ◌∙◌, sym, ap, refl, true, List, [], ◌++◌, ◌==◌, ==_iff, arith, length,
  drop, inl, inr, Bool-cases,
}
use node_identity_architetur.Dns.Fields.{address}
use node_identity_architetur.Dns.Question.{IsAddress}
use node_identity_architetur.Dns.Response.{Authority, write_authority, write_answer, write_address}
use node_identity_architetur.Memory.Splice.{
  joins, zeros, length_next, length-zeros, load_within, store_within, copy_to-drop,
  copy_to-over_zeros,
}
use node_identity_architetur.Memory.{Buffer, copy_to, htons, htonl}
use node_identity_architetur.Nid.{Nid, Nid32, bytes32}
use node_identity_architetur.Run.{ok, ◌>>=◌}

pub write_address_lem :
    (at : ℕ) (nid32addr : Nid32) (nidaddr : Nid) (q_type : ℕ) (buf : Buffer)
    → length nidaddr.u6_addr8 ≡ 16
    → IsAddress q_type
    → let data' = address nid32addr nidaddr q_type in
      write_address at nid32addr nidaddr q_type buf
      ≡ write_answer at q_type data' (length data') buf
unfolding write_address bytes32
write_address_lem at nid32addr nidaddr q_type buf sixteen is = elim (Bool-cases (q_type == 1)) [
  | inl four ↦ let e : q_type ≡ 1 = (==_iff q_type 1).0 four in rw e
  | inr other ↦
      let six : (q_type == 28) ≡ true = ground arith in
      let e : q_type ≡ 28 = (==_iff q_type 28).0 six in rw (other, six, sixteen, e)
]

-- The answer's type, data and length are written over an array that is parted where they stand.
pub write_answer_lem :
    (p₀ class_ttl R data' : List ℕ) (old_type old_length at q_type : ℕ)
    → length p₀ ≡ at + 6
    → length class_ttl ≡ 6
    → length data' ≤ length R
    → write_answer at q_type data'
        (length data')
        (p₀ ++ (htons old_type ++ (class_ttl ++ (htons old_length ++ R))))
      ≡ ok (
          (p₀ ++ htons q_type ++ class_ttl ++ htons (length data') ++ data')
          ++ drop (length data') R)
unfolding write_answer htons
write_answer_lem p₀ class_ttl R data' old_type old_length at q_type place six room =
    let p₁ = p₀ ++ htons q_type in
    let l₁ = length_next (at + 6) p₀ (htons q_type) place in
    let p₂ = p₁ ++ class_ttl in
    let l₂ : length p₂ ≡ at + 14 = omega (arith, length_next (at + 6 + 2) p₁ class_ttl l₁, six) in
    let p₃ = p₂ ++ htons old_length in
    let l₃ = length_next (at + 14) p₂ (htons old_length) l₂ in
    let written : copy_to (at + 12 + 4) data'
          (p₀ ++ (htons q_type ++ (class_ttl ++ (htons old_length ++ R))))
        ≡ ok ((p₃ ++ data') ++ drop (length data') R) =
      let shape : p₀ ++ (htons q_type ++ (class_ttl ++ (htons old_length ++ R))) ≡ p₃ ++ drop 0 R =
        sym (simp joins) in
      let all : 0 + length data' ≡ length data' = omega arith in
      rw shape (
        copy_to-drop (at + 12 + 4) 0 p₃ data' R (omega (arith, l₃)) (omega (arith, room))
        ∙ rw all) in
    rw
      (
        store_within p₀ (htons old_type) (class_ttl ++ (htons old_length ++ R)) _ (at + 6) refl
            place (htons q_type) refl,
        ◌>>=◌,
        written,
      )
      (store_within p₂ (htons old_length) (data' ++ drop (length data') R) _ (at + 10 + 4)
          (simp joins) (omega (arith, l₂)) (htons (length data')) refl
        ∙ ap ok (sym (simp joins)))

-- The authority's record, and zeros behind it, are written over what the array ends in.
pub write_authority_lem :
    (at j : ℕ) (p R : List ℕ) (a : Authority) (data' more : List ℕ)
    → length p ≡ at
    → j + 268 ≤ length R
    → a.ns ≡ data' ++ more
    → length data' ≡ a.data_length
    → length data' ≤ 256
    → write_authority at a (p ++ drop j R)
      ≡ ok (
          (p
            ++ htons a.name
            ++ htons a.type'
            ++ htons a.class
            ++ htonl a.ttl
            ++ htons a.data_length
            ++ data'
            ++ zeros (256 - length data'))
          ++ drop (j + 268) R)
unfolding write_authority htons htonl
write_authority_lem at j p R a data' more place room ns sized short =
    let p₁ = p ++ htons a.name in
    let l₁ = length_next at p (htons a.name) place in
    let p₂ = p₁ ++ htons a.type' in
    let l₂ = length_next (at + 2) p₁ (htons a.type') l₁ in
    let p₃ = p₂ ++ htons a.class in
    let l₃ = length_next (at + 2 + 2) p₂ (htons a.class) l₂ in
    let p₄ = p₃ ++ htonl a.ttl in
    let l₄ = length_next (at + 2 + 2 + 2) p₃ (htonl a.ttl) l₃ in
    let p₅ = p₄ ++ htons a.data_length in
    let l₅ = length_next (at + 2 + 2 + 2 + 4) p₄ (htons a.data_length) l₄ in
    let z = length-zeros 256 in
    let all : j + 2 + 2 + 2 + 4 + 2 + length (zeros 256) ≡ j + 268 = omega (arith, z) in
    rw
      (
        copy_to-drop at j p (htons a.name) R place (omega arith),
        ◌>>=◌,
        copy_to-drop (at + 2) (j + 2) p₁ (htons a.type') R l₁ (omega arith),
        copy_to-drop (at + 4) (j + 2 + 2) p₂ (htons a.class) R (omega (arith, l₂)) (omega arith),
        copy_to-drop (at + 6) (j + 2 + 2 + 2) p₃ (htonl a.ttl) R (omega (arith, l₃)) (omega arith),
        copy_to-drop (at + 6 + 4) (j + 2 + 2 + 2 + 4) p₄ (htons a.data_length) R (omega (arith, l₄))
            (omega arith),
        copy_to-drop (at + 6 + 4 + 2) (j + 2 + 2 + 2 + 4 + 2) p₅ (zeros 256) R (omega (arith, l₅))
            (omega (arith, z)),
        all,
        load_within [] data' more a.ns 0 ns refl a.data_length sized,
      )
      (copy_to-over_zeros (at + 6 + 4 + 2) 256 p₅ data' (drop (j + 268) R) (omega (arith, l₅))
        short)
