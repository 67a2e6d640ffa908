-- ===== src/Dns/Fields.antt =====
-- The fields of the response that the proxy makes, written over zeros, as RFC 1035 lays a message
-- out.
use node_identity_architetur.Base.{
  ℕ, ◌+◌, ◌-◌, ◌≤◌, ◌≡◌, ◌∙◌, ap, sym, refl, true, ◌||◌, List, [], ◌∷◌, ◌++◌, ◌==◌, arith, length,
  if◌then◌else◌, inl, inr, Bool-cases,
}
use node_identity_architetur.Dns.Response.{
  write_header, write_type, write_records, write_data, write_made_authority, write_rest,
}
use node_identity_architetur.Dns.Question.{IsAddress}
use node_identity_architetur.Memory.Splice.{
  zeros, zeros-append, append_assoc, copy_to-zeros, skip-zeros, length_next,
}
use node_identity_architetur.Memory.{copy_to, htons, htonl}
use node_identity_architetur.Nid.{CString, Nid, Nid32, bytes32}
use node_identity_architetur.Run.{ok, ◌>>=◌}

-- Identifier, flags, and one question, one answer, one authority.
abbrev pub header : List ℕ → List ℕ
header id = id ++ htons 34176 ++ htons 1 ++ htons 1 ++ htons 1 ++ htons 0

-- A question of class 1, and the answer's record up to its length: 49164 points to the name in the
-- question.
abbrev pub question : List ℕ → CString → ℕ → List ℕ
question id name type' = header id ++ name ++ 0 ∷ [] ++ htons type' ++ htons 1

abbrev pub answer : List ℕ → CString → ℕ → List ℕ → List ℕ
answer id name type' data' =
    question id name type'
    ++ htons 49164
    ++ htons type'
    ++ htons 1
    ++ htonl 60
    ++ htons (length data')
    ++ data'

-- The authority for the root, with no name server: type 2, class 1, a minute to live.
abbrev pub message : List ℕ → CString → ℕ → List ℕ → List ℕ
message id name type' data' = answer id name type' data' ++ 0 ∷ [] ++ htons 2 ++ htons 1 ++ htonl 60

pub write_header_lem :
    (a b : ℕ) → write_header (a ∷ b ∷ []) (zeros 512) ≡ ok (header (a ∷ b ∷ []) ++ zeros 500)
unfolding write_header htons copy_to
write_header_lem a b = refl

-- The type that is written: none, which leaves 0, if the query is not for an address.
abbrev pub shown : ℕ → ℕ
shown q_type = if (q_type == 1) || (q_type == 28) then q_type else 0

pub write_type-zeros :
    (q_type at m r : ℕ) (p : List ℕ)
    → length p ≡ at
    → 2 + r ≡ m
    → write_type at q_type (p ++ zeros m) ≡ ok ((p ++ htons (shown q_type)) ++ zeros r)
unfolding write_type htons
write_type-zeros q_type at m r p place fits = elim (Bool-cases ((q_type == 1) || (q_type == 28))) [
  | inl is ↦ rw (is, copy_to-zeros at m r p (htons q_type) place fits)
  | inr other ↦
      let split : zeros m ≡ 0 ∷ 0 ∷ zeros r =
        ap zeros (sym fits)
        ∙ zeros-append 2 (2 + r) (omega arith)
        ∙ ap (λ k. 0 ∷ 0 ∷ zeros k) (omega arith) in
      rw (other, split) (ap ok (sym (append_assoc p (0 ∷ 0 ∷ []) (zeros r))))
]

pub length_records :
    (p : List ℕ) (type' : ℕ)
    → length (p ++ htons type' ++ htons 1 ++ htons 49164 ++ htons type' ++ htons 1 ++ htonl 60)
      ≡ length p + 14
unfolding htons htonl
length_records p type' =
    let l₁ = length_next (length p) p (htons type') refl in
    let p₁ = p ++ htons type' in
    let l₂ = length_next (length p + 2) p₁ (htons 1) l₁ in
    let p₂ = p₁ ++ htons 1 in
    let l₃ = length_next (length p + 2 + 2) p₂ (htons 49164) l₂ in
    let p₃ = p₂ ++ htons 49164 in
    let l₄ = length_next (length p + 2 + 2 + 2) p₃ (htons type') l₃ in
    let p₄ = p₃ ++ htons type' in
    let l₅ = length_next (length p + 2 + 2 + 2 + 2) p₄ (htons 1) l₄ in
    let p₅ = p₄ ++ htons 1 in
    omega (arith, length_next (length p + 2 + 2 + 2 + 2 + 2) p₅ (htonl 60) l₅)

-- The question, and the answer's record without its data.
pub write_records_lem :
    (p : List ℕ) (at m q_type : ℕ)
    → length p ≡ at
    → 14 ≤ m
    → write_records at q_type (p ++ zeros m)
      ≡ ok (
          (p
            ++ htons (shown q_type)
            ++ htons 1
            ++ htons 49164
            ++ htons (shown q_type)
            ++ htons 1
            ++ htonl 60)
          ++ zeros (m - 14))
unfolding write_records htons htonl
write_records_lem p at m q_type place room =
    let p₁ = p ++ htons (shown q_type) in
    let l₁ = length_next at p (htons (shown q_type)) place in
    let p₂ = p₁ ++ htons 1 in
    let l₂ = length_next (at + 2) p₁ (htons 1) l₁ in
    let p₃ = p₂ ++ htons 49164 in
    let l₃ = length_next (at + 2 + 2) p₂ (htons 49164) l₂ in
    let p₄ = p₃ ++ htons (shown q_type) in
    let l₄ = length_next (at + 2 + 2 + 2) p₃ (htons (shown q_type)) l₃ in
    let p₅ = p₄ ++ htons 1 in
    let l₅ = length_next (at + 2 + 2 + 2 + 2) p₄ (htons 1) l₄ in
    rw (
      write_type-zeros q_type at m (m - 2) p place (omega arith),
      ◌>>=◌,
      copy_to-zeros (at + 2) (m - 2) (m - 4) p₁ (htons 1) (omega (arith, l₁)) (omega arith),
      copy_to-zeros (at + 4) (m - 4) (m - 6) p₂ (htons 49164) (omega (arith, l₂)) (omega arith),
      write_type-zeros q_type (at + 6) (m - 6) (m - 8) p₃ (omega (arith, l₃)) (omega arith),
      copy_to-zeros (at + 8) (m - 8) (m - 10) p₄ (htons 1) (omega (arith, l₄)) (omega arith),
      copy_to-zeros (at + 10) (m - 10) (m - 14) p₅ (htonl 60) (omega (arith, l₅)) (omega arith),
    )

-- The data and the authority.
pub write_answer_data :
    (p data' : List ℕ) (at m k : ℕ)
    → length data' ≡ k
    → length p ≡ at + 14
    → k + 11 ≤ m
    → (write_data at data' k (p ++ zeros m) >>= write_made_authority (at + 12 + 4 + k))
      ≡ ok (
        true,
        (p ++ htons k ++ data' ++ 0 ∷ [] ++ htons 2 ++ htons 1 ++ htonl 60) ++ zeros (m - (k + 11)),
      )
unfolding write_data write_made_authority htons htonl
write_answer_data p data' at m k sized place room =
    let p₁ = p ++ htons k in
    let l₁ = length_next (at + 14) p (htons k) place in
    let p₂ = p₁ ++ data' in
    let l₂ = length_next (at + 14 + 2) p₁ data' l₁ in
    let p₃ = p₂ ++ 0 ∷ [] in
    let l₃ = length_next (at + 16 + k) p₂ (0 ∷ []) (omega (arith, l₂, sized)) in
    let p₄ = p₃ ++ htons 2 in
    let l₄ = length_next (at + 16 + k + 1) p₃ (htons 2) l₃ in
    let p₅ = p₄ ++ htons 1 in
    let l₅ = length_next (at + 16 + k + 1 + 2) p₄ (htons 1) l₄ in
    rw (
      copy_to-zeros (at + 10 + 4) m (m - 2) p (htons k) (omega (arith, place)) (omega arith),
      ◌>>=◌,
      copy_to-zeros (at + 12 + 4) (m - 2) (m - 2 - k) p₁ data' (omega (arith, l₁))
          (omega (arith, sized)),
      skip-zeros p₂ (m - 2 - k) (omega arith),
      copy_to-zeros (at + 12 + 4 + k + 1) (m - 2 - k - 1) (m - 5 - k) p₃ (htons 2)
          (omega (arith, l₃)) (omega arith),
      copy_to-zeros (at + 12 + 4 + k + 1 + 2) (m - 5 - k) (m - 7 - k) p₄ (htons 1)
          (omega (arith, l₄)) (omega arith),
      copy_to-zeros (at + 12 + 4 + k + 1 + 4) (m - 7 - k) (m - (k + 11)) p₅ (htonl 60)
          (omega (arith, l₅)) (omega arith),
    )

-- The data that a query for an address is answered with.
abbrev pub address : Nid32 → Nid → ℕ → List ℕ
address nid32addr nidaddr q_type = if q_type == 1 then bytes32 nid32addr else nidaddr.u6_addr8

pub write_rest_lem :
    (p : List ℕ) (at m : ℕ) (nid32addr : Nid32) (nidaddr : Nid) (q_type : ℕ)
    → length nidaddr.u6_addr8 ≡ 16
    → IsAddress q_type
    → length p ≡ at + 14
    → 27 ≤ m
    → let data' = address nid32addr nidaddr q_type in
      write_rest at nid32addr nidaddr q_type (p ++ zeros m)
      ≡ ok (
        true,
        (p ++ htons (length data') ++ data' ++ 0 ∷ [] ++ htons 2 ++ htons 1 ++ htonl 60)
            ++ zeros (m - (length data' + 11)),
      )
unfolding write_rest bytes32
write_rest_lem p at m nid32addr nidaddr q_type sixteen is place room =
    elim (Bool-cases (q_type == 1)) [
      | inl four ↦ rw four (write_answer_data p (bytes32 nid32addr) at m 4 refl place (omega arith))
      | inr other ↦
          let six : (q_type == 28) ≡ true = ground arith in
          rw (other, six, sixteen)
            (write_answer_data p nidaddr.u6_addr8 at m 16 sixteen place (omega arith))
    ]
