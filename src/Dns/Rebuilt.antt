-- ===== src/Dns/Rebuilt.antt =====
-- The name server's response, rewritten for the application.
use node_identity_architetur.Base.{
  ℕ, suc, ◌+◌, ◌-◌, ◌*◌, ◌<◌, ◌≤◌, ◌≡◌, sym, ap, refl, true, List, [], ◌∷◌, ◌++◌, ◌==◌, arith,
  length, length-append, drop, bit_and,
}
use node_identity_architetur.Dns.Authority.{authority, read_authority_lem}
use node_identity_architetur.Dns.Fields.{address}
use node_identity_architetur.Dns.Question.{
  IsAddress, Holds, layout, read_name, read_type, write_type, retyped,
}
use node_identity_architetur.Dns.Refused.{read-flags}
use node_identity_architetur.Dns.Record.{
  Reply, IsReply, reply_rest, ns_rest, head, shape-text, length-text, read-length,
}
use node_identity_architetur.Dns.Response.{write_question, replace_answer, build_dns_response}
use node_identity_architetur.Dns.Rewrite.{write_address_lem, write_answer_lem, write_authority_lem}
use node_identity_architetur.Memory.Splice.{joins, zeros, length_next, load16_within}
use node_identity_architetur.Memory.{Buffer, htons, htonl}
use node_identity_architetur.Nid.{CString, Nid, Nid32}
use node_identity_architetur.Run.{ok, ◌>>=◌}

-- The answer's data and all that follows it.
abbrev pub data_of : Reply → List ℕ
data_of r = r.count ∷ (r.text ++ ns_rest r)

-- The response for the application: the type that it asked for in question and answer, the address
-- in place of the text, the authority behind it, zeros over the rest of the 256 bytes that the name
-- server's name may take, and what was behind those.
abbrev pub rebuilt : ℕ → ℕ → List ℕ → CString → Reply → ℕ → List ℕ → Buffer
rebuilt a b counts name r q_type data' =
    (a ∷ b ∷ counts)
    ++ name
    ++ 0 ∷ []
    ++ htons q_type
    ++ r.class_name
    ++ htons q_type
    ++ r.class_ttl
    ++ htons (length data')
    ++ data'
    ++ htons r.ns_name
    ++ htons r.ns_type
    ++ htons r.ns_class
    ++ htonl r.ns_ttl
    ++ htons (suc (length r.ns_text))
    ++ r.ns_count ∷ r.ns_text
    ++ zeros (256 - suc (length r.ns_text))
    ++ drop (length data' + 268) (data_of r)

module _ (a b f₁ f₂ : ℕ) (more : List ℕ) (name : CString) (r : Reply) (buf : Buffer)
    (holds : Holds a b (f₁ ∷ f₂ ∷ more) name 16 (reply_rest r) buf) (is : IsReply r)
    (nid32addr : Nid32) (nidaddr : Nid) (sixteen : length nidaddr.u6_addr8 ≡ 16) (q_type : ℕ)
    (asks : IsAddress q_type) (short : suc (length r.ns_text) ≤ 256)
    (room : length name + length (address nid32addr nidaddr q_type) ≤ 215) where
  abbrev counts : List ℕ
  counts = f₁ ∷ f₂ ∷ more

  abbrev at : ℕ
  at = 1 + 12 + length name

  abbrev data' : List ℕ
  data' = address nid32addr nidaddr q_type

  abbrev pub before_type : List ℕ
  before_type = (a ∷ b ∷ counts) ++ name ++ 0 ∷ [] ++ htons q_type ++ r.class_name

  pub length-before_type : length before_type ≡ at + 6
  unfolding htons
  length-before_type =
      let p₀ = a ∷ b ∷ counts in
      let l₀ : length p₀ ≡ 12 = omega (arith, holds.ten) in
      let p₁ = p₀ ++ name in
      let l₁ = length_next 12 p₀ name l₀ in
      let p₂ = p₁ ++ 0 ∷ [] in
      let l₂ = length_next (12 + length name) p₁ (0 ∷ []) l₁ in
      let p₃ = p₂ ++ htons q_type in
      let l₃ = length_next (12 + length name + 1) p₂ (htons q_type) l₂ in
      omega (arith, length_next (12 + length name + 1 + 2) p₃ r.class_name l₃, is.four)

  pub length-data_of : length (data_of r) ≡ 512 - (at + 16)
  length-data_of = omega (
    arith,
    holds.sized,
    ap length (shape-text a b counts name 16 r buf holds is),
    length-append
        (head a b counts name 16 r buf holds is ++ htons (suc (length r.text)) ++ r.count ∷ [])
        (r.text ++ ns_rest r),
    length-text a b counts name 16 r buf holds is,
  )

  replace_answer_lem :
      replace_answer at nid32addr nidaddr q_type
        (authority r)
        (layout a b counts name q_type (reply_rest r))
      ≡ ok (true, rebuilt a b counts name r q_type data')
  unfolding replace_answer htons
  replace_answer_lem =
      let k = length data' in
      let R = data_of r in
      let shape : layout a b counts name q_type (reply_rest r)
          ≡ before_type
            ++ (htons r.answer_type ++ (r.class_ttl ++ (htons (suc (length r.text)) ++ R))) =
        sym (simp joins) in
      let fits : k ≤ length R = omega (arith, length-data_of, room) in
      let p₁ = before_type ++ htons q_type in
      let l₁ = length_next (at + 6) before_type (htons q_type) length-before_type in
      let p₂ = p₁ ++ r.class_ttl in
      let l₂ : length p₂ ≡ at + 10 + 4 =
        omega (arith, length_next (at + 6 + 2) p₁ r.class_ttl l₁, is.six) in
      let p₃ = p₂ ++ htons k in
      let l₃ = length_next (at + 10 + 4) p₂ (htons k) l₂ in
      let l₄ : length (p₃ ++ data') ≡ at + 12 + 4 + k =
        omega (arith, length_next (at + 10 + 4 + 2) p₃ data' l₃) in
      rw (
        write_address_lem at nid32addr nidaddr q_type (layout a b counts name q_type (reply_rest r))
            sixteen asks,
        shape,
        write_answer_lem before_type r.class_ttl R data' r.answer_type (suc (length r.text)) at
            q_type length-before_type is.six fits,
        ◌>>=◌,
        load16_within p₂ (data' ++ drop k R) ((p₃ ++ data') ++ drop k R) (at + 10 + 4) l₂ k
            (omega (arith, room)) (simp joins),
        write_authority_lem (at + 12 + 4 + k) k (p₃ ++ data') R (authority r)
            (r.ns_count ∷ r.ns_text) (zeros (256 - suc (length r.ns_text))) l₄
            (omega (arith, length-data_of, room)) refl refl short,
      )

  -- For a response without an error to a query for text, whose name is at most 211 characters long
  -- (199 for an IPv6 address) and whose authority's data at most 256 bytes, `build_dns_response`
  -- returns 0 and leaves in the buffer the response with the type that was asked for, the address
  -- in place of the text, the authority's record moved behind it and otherwise unchanged, and zeros
  -- over the rest of 256 bytes. No byte outside the buffer is written.
  pub build_dns_response_lem :
      (bit_and (f₁ * 256 + f₂) 15 == 0) ≡ true
      → build_dns_response buf nid32addr nidaddr q_type
        ≡ ok (true, rebuilt a b counts name r q_type data')
  unfolding build_dns_response write_question
  build_dns_response_lem ok_flags =
      let word : q_type < 65536 = ground (arith, asks) in
      let again = retyped a b counts name 16 q_type (reply_rest r) buf holds word in
      let at_length : 1 + 12 + length name + 10 + 4 ≡ at + 14 = omega arith in
      let at_ns : 1 + 12 + length name + 12 + 4 + suc (length r.text)
          ≡ at + 16 + suc (length r.text) =
        omega arith in
      rw (
        read_name a b counts name 16 (reply_rest r) buf holds,
        ◌>>=◌,
        read_type a b counts name 16 (reply_rest r) buf holds,
        at_length,
        read-length a b counts name 16 r buf holds is,
        at_ns,
        read_authority_lem a b counts name 16 r buf holds is short,
        asks,
        write_type a b counts name 16 (reply_rest r) buf holds q_type,
        read-flags a b f₁ f₂ more name q_type (reply_rest r)
            (layout a b counts name q_type (reply_rest r)) again,
        ok_flags,
        replace_answer_lem,
      )
