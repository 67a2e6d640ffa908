-- ===== src/Dns/Sized.antt =====
-- The buffer keeps its 512 bytes.
use node_identity_architetur.Base.{
  ℕ, suc, ◌+◌, ◌-◌, ◌≤◌, ◌≡◌, ◌∙◌, sym, ap, List, [], ◌∷◌, ◌++◌, arith, length, drop, take,
}
use node_identity_architetur.Dns.Proxy.{receive}
use node_identity_architetur.Dns.Fields.{address}
use node_identity_architetur.Dns.Question.{Holds, IsAddress}
use node_identity_architetur.Dns.Rebuilt.{
  rebuilt, data_of, before_type, length-before_type, length-data_of,
}
use node_identity_architetur.Dns.Record.{Reply, IsReply, reply_rest}
use node_identity_architetur.Memory.Splice.{
  zeros, length_next, length-zeros, length-drop, drop_all, append-nil, take_exact,
}
use node_identity_architetur.Memory.{Buffer, htons, htonl, splice}
use node_identity_architetur.Nid.{CString, Nid, Nid32}

-- A datagram of 512 bytes replaces what the buffer held.
pub receive_full :
    (datagram buf : Buffer)
    → length datagram ≡ 512
    → length buf ≡ 512
    → receive datagram buf ≡ datagram
unfolding receive splice
receive_full datagram buf e e' =
    let whole : take 512 datagram ≡ datagram =
      ap (λ n. take n datagram) (sym e)
      ∙ ap (take (length datagram)) (sym (append-nil datagram))
      ∙ take_exact datagram [] in
    let behind : drop (0 + length datagram) buf ≡ [] =
      drop_all (0 + length datagram) buf (omega (arith, e, e')) in
    rw (whole, behind) (append-nil datagram)

module _ (a b f₁ f₂ : ℕ) (more : List ℕ) (name : CString) (r : Reply) (buf : Buffer)
    (holds : Holds a b (f₁ ∷ f₂ ∷ more) name 16 (reply_rest r) buf) (is : IsReply r)
    (nid32addr : Nid32) (nidaddr : Nid) (sixteen : length nidaddr.u6_addr8 ≡ 16) (q_type : ℕ)
    (asks : IsAddress q_type) (short : suc (length r.ns_text) ≤ 256)
    (room : length name + length (address nid32addr nidaddr q_type) ≤ 215) where
  pub length-rebuilt :
      length (rebuilt a b (f₁ ∷ f₂ ∷ more) name r q_type (address nid32addr nidaddr q_type)) ≡ 512
  unfolding htons htonl
  length-rebuilt =
      let data' = address nid32addr nidaddr q_type in
      let at = 13 + length name in
      let p₀ =
        before_type a b f₁ f₂ more name r buf holds is nid32addr nidaddr sixteen q_type asks short
          room in
      let l₀ : length p₀ ≡ at + 6 =
        length-before_type a b f₁ f₂ more name r buf holds is nid32addr nidaddr sixteen q_type asks
          short room in
      let p₁ = p₀ ++ htons q_type in
      let l₁ = length_next (at + 6) p₀ (htons q_type) l₀ in
      let p₂ = p₁ ++ r.class_ttl in
      let l₂ = length_next (at + 6 + 2) p₁ r.class_ttl l₁ in
      let p₃ = p₂ ++ htons (length data') in
      let l₃ : length p₃ ≡ at + 16 = omega (
        arith,
        is.six,
        length_next (at + 8 + length r.class_ttl) p₂ (htons (length data')) (omega (arith, l₂)),
      ) in
      let p₄ = p₃ ++ data' in
      let l₄ = length_next (at + 16) p₃ data' l₃ in
      let k = at + 16 + length data' in
      let p₅ = p₄ ++ htons r.ns_name in
      let l₅ = length_next k p₄ (htons r.ns_name) l₄ in
      let p₆ = p₅ ++ htons r.ns_type in
      let l₆ = length_next (k + 2) p₅ (htons r.ns_type) l₅ in
      let p₇ = p₆ ++ htons r.ns_class in
      let l₇ = length_next (k + 2 + 2) p₆ (htons r.ns_class) l₆ in
      let p₈ = p₇ ++ htonl r.ns_ttl in
      let l₈ = length_next (k + 2 + 2 + 2) p₇ (htonl r.ns_ttl) l₇ in
      let p₉ = p₈ ++ htons (suc (length r.ns_text)) in
      let l₉ = length_next (k + 2 + 2 + 2 + 4) p₈ (htons (suc (length r.ns_text))) l₈ in
      let q = p₉ ++ r.ns_count ∷ r.ns_text in
      let m = length_next (k + 2 + 2 + 2 + 4 + 2) p₉ (r.ns_count ∷ r.ns_text) l₉ in
      let q' = q ++ zeros (256 - suc (length r.ns_text)) in
      let m' : length q' ≡ k + 268 = omega (
        arith,
        short,
        length_next (k + 12 + suc (length r.ns_text)) q (zeros (256 - suc (length r.ns_text)))
            (omega (arith, m)),
        length-zeros (256 - suc (length r.ns_text)),
      ) in
      omega (
        arith,
        room,
        length_next (k + 268) q' (drop (length data' + 268) (data_of r)) m',
        length-drop (length data' + 268) (data_of r),
        length-data_of a b f₁ f₂ more name r buf holds is nid32addr nidaddr sixteen q_type asks
            short room,
      )
