-- ===== src/Dns/Made.antt =====
-- The response that the proxy makes from its cache, as RFC 1035 lays a message out.
use node_identity_architetur.Base.{
  ℕ, ◌+◌, ◌-◌, ◌≡◌, ◌∙◌, ap, refl, true, false, ◌||◌, List, [], ◌∷◌, ◌++◌, ◌==◌, arith, length,
}
use node_identity_architetur.Dns.Response.{write_rest, build_dns_response_with_fqdn_table}
use node_identity_architetur.Dns.Question.{IsAddress, Holds, read_name}
use node_identity_architetur.Memory.Splice.{
  zeros, copy_to-zeros, store_all, length-zeros, copy_from-append, skip-zeros, length_next,
}
use node_identity_architetur.Memory.{Buffer, copy_from, copy_to, htons, htonl}
use node_identity_architetur.Nid.{CString, Nid, Nid32}
use node_identity_architetur.Run.{ok, ◌>>=◌}
use node_identity_architetur.Dns.Fields.{
  address, header, length_records, message, question, shown, write_header_lem, write_records_lem,
  write_rest_lem,
}

-- The buffer up to the time to live of the answer.
abbrev pub records : List ℕ → CString → ℕ → List ℕ
records id name type' = question id name type' ++ htons 49164 ++ htons type' ++ htons 1 ++ htonl 60

length-records :
    (a b : ℕ) (name : CString) (type' : ℕ)
    → length (records (a ∷ b ∷ []) name type') ≡ 1 + 12 + length name + 14
unfolding htons htonl
length-records a b name type' =
    let p₀ = header (a ∷ b ∷ []) ++ name in
    let l₀ : length p₀ ≡ 12 + length name = length_next 12 (header (a ∷ b ∷ [])) name refl in
    omega
      (arith, length_next (12 + length name) p₀ (0 ∷ []) l₀, length_records (p₀ ++ 0 ∷ []) type')

module _ (a b : ℕ) (counts : List ℕ) (name : CString) (type' : ℕ) (rest : List ℕ) (buf : Buffer)
    (holds : Holds a b counts name type' rest buf) (nid32addr : Nid32) (nidaddr : Nid)
    (q_type : ℕ) where
  build_made :
      build_dns_response_with_fqdn_table buf nid32addr nidaddr q_type
      ≡ write_rest
          (1 + 12 + length name)
          nid32addr
          nidaddr
          q_type
          (records (a ∷ b ∷ []) name (shown q_type) ++ zeros (500 - length name - 1 - 14))
  unfolding build_dns_response_with_fqdn_table htons htonl
  build_made =
      let id = a ∷ b ∷ [] in
      let n = length name in
      let tail = name ++ 0 ∷ (htons type' ++ rest) in
      let named : copy_from 0 2 buf ≡ ok id =
        rw holds.shape (copy_from-append [] (a ∷ b ∷ (counts ++ tail)) 0 0 refl 2 (omega arith)) in
      let cleared : copy_to 0 (zeros 512) buf ≡ ok (zeros 512) =
        store_all (zeros 512) buf 512 (length-zeros 512) holds.sized in
      let p₀ = header id ++ name in
      let l₀ : length p₀ ≡ 12 + n = length_next 12 (header id) name refl in
      let p₁ = p₀ ++ 0 ∷ [] in
      let l₁ : length p₁ ≡ 13 + n = omega (arith, length_next (12 + n) p₀ (0 ∷ []) l₀) in
      rw (
        named,
        ◌>>=◌,
        read_name a b counts name type' rest buf holds,
        cleared,
        write_header_lem a b,
        copy_to-zeros 12 500 (500 - n) (header id) name refl (omega (arith, holds.short)),
        skip-zeros p₀ (500 - n) (omega (arith, holds.short)),
        write_records_lem p₁ (1 + 12 + n) (500 - n - 1) q_type (omega (arith, l₁))
            (omega (arith, holds.short)),
      )

  -- For a query of at most 255 characters in the buffer, whatever follows its type, and either kind
  -- of address, `build_dns_response_with_fqdn_table` returns 0 and leaves in the buffer the message
  -- of RFC 1035 with the query's identifier and name, one answer with the address, and one
  -- authority of no name, with zeros up to the buffer's 512 bytes.
  pub build_made_lem :
      length nidaddr.u6_addr8 ≡ 16
      → IsAddress q_type
      → let data' = address nid32addr nidaddr q_type in
        build_dns_response_with_fqdn_table buf nid32addr nidaddr q_type
        ≡ ok (
          true,
          message (a ∷ b ∷ []) name q_type data' ++ zeros (474 - length name - length data'),
        )
  build_made_lem sixteen is =
      let id = a ∷ b ∷ [] in
      let n = length name in
      let data' = address nid32addr nidaddr q_type in
      let same : shown q_type ≡ q_type = rw is in
      rw (build_made, same)
        (write_rest_lem (records id name q_type) (1 + 12 + n) (500 - n - 1 - 14) nid32addr nidaddr
            q_type sixteen is (length-records a b name q_type) (omega (arith, holds.short))
          ∙ ap (λ r. ok (true, message id name q_type data' ++ zeros r)) (omega arith))

  -- A query of another kind for a name that is known
  pub build_made_other :
      ((q_type == 1) || (q_type == 28)) ≡ false
      → build_dns_response_with_fqdn_table buf nid32addr nidaddr q_type
        ≡ ok (false, records (a ∷ b ∷ []) name 0 ++ zeros (485 - length name))
  unfolding write_rest
  build_made_other other =
      let n = length name in
      let none_shown : shown q_type ≡ 0 = rw other in
      let not_four : (q_type == 1) ≡ false = ground (arith, other) in
      let not_six : (q_type == 28) ≡ false = ground (arith, other) in
      rw (build_made, none_shown, not_four, not_six)
        (ap (λ r. ok (false, records (a ∷ b ∷ []) name 0 ++ zeros r)) (omega arith))
