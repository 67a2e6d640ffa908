-- ===== src/Dns/Learn.antt =====
-- The identifiers that a text of the name server names, and what the name mapper learns of them.
use node_identity_architetur.Base.{
  ℕ, zero, suc, get_or, ◌-◌, ◌<◌, ◌≡◌, ◌∙◌, sym, ap, refl, Option, some, List, [], ◌∷◌, ◌++◌, arith,
  ◌==◌, length, All, inl, inr, Bool-cases,
}
use node_identity_architetur.Dns.Proxy.{learn_nids}
use node_identity_architetur.Dns.{get_nids}
use node_identity_architetur.Hash32.{hash_lookup32}
use node_identity_architetur.Memory.Splice.{
  IsText, joins, zeros, load_within, fill_lem, length_next, until_nul-append,
}
use node_identity_architetur.Names.Entries.{
  IsNidMapper, Named, Names32, new_nm_entry-Named, new_nm_entry32_lem,
}
use node_identity_architetur.Names.{NidMapper, get_nm_entry, get_nm_entry32}
use node_identity_architetur.Nid.{Nid, CString, IsByte, IsNid, nid2nid32, nid_key, nid32_key}
use node_identity_architetur.Reconfigure.Lease.{dns_address-nid2nid32}
use node_identity_architetur.Reconfigure.{update_dns_server_address}
use node_identity_architetur.Run.{ok, ◌>>=◌}
use node_identity_architetur.Table.View.{hash_lookup-view}

get_or-IsByte : (bs : List ℕ) (i : ℕ) → All IsByte bs → get_or bs i 0 < 256
get_or-IsByte [] i h = omega arith
get_or-IsByte (b ∷ bs) zero h = h.0
get_or-IsByte (b ∷ bs) (suc i) h = get_or-IsByte bs i h.1

pub same_nid32 : (nid : Nid) → IsNid nid → update_dns_server_address nid ≡ nid2nid32 nid
same_nid32 nid is =
    dns_address-nid2nid32 nid (get_or-IsByte nid.u6_addr8 13 is.bytes)
      (get_or-IsByte nid.u6_addr8 14 is.bytes) (get_or-IsByte nid.u6_addr8 15 is.bytes)

-- Two texts with one character between them, in an array.
abbrev pub nids_text : CString → CString → CString
nids_text nid nidr = nid ++ 44 ∷ nidr

module _ (nid nidr : CString) (z : ℕ) (sized : length nid ≡ 39) (sized' : length nidr ≡ 39) where
  get_nids_lem : get_nids (nids_text nid nidr ++ zeros z) ≡ ok (nid ++ 0 ∷ [], nidr ++ 0 ∷ [])
  unfolding get_nids
  get_nids_lem =
      let buf = nids_text nid nidr ++ zeros z in
      let one : 40 - length nid ≡ 1 = omega (arith, sized) in
      let one' : 40 - length nidr ≡ 1 = omega (arith, sized') in
      rw (
        load_within [] nid (44 ∷ nidr ++ zeros z) buf 0 (simp joins) refl 39 sized,
        ◌>>=◌,
        fill_lem 40 nid (omega (arith, sized)),
        one,
        load_within (nid ++ 44 ∷ []) nidr (zeros z) buf 40 (simp joins)
            (omega (arith, length_next 39 nid (44 ∷ []) sized)) 39 sized',
        fill_lem 40 nidr (omega (arith, sized')),
        one',
      )

-- Naming the identifier's 32-bit identifier once more changes nothing.
Named-again :
    (nid nidgw : Nid) (s s₁ s₂ : NidMapper)
    → Named nid nidgw s s₁
    → Names32 (nid2nid32 nid) nid nidgw s₁ s₂
    → Named nid nidgw s s₂
unfolding get_nm_entry get_nm_entry32 hash_lookup32
Named-again nid nidgw s s₁ s₂ named again = record {
  well = again.well;
  reads = λ q. rw again.kept (named.reads q);
  reads32 = λ q.
      hash_lookup-view s₂.nid32_table q again.well.names32.sized
      ∙ ap ok (again.reads32 q)
      ∙ (elim (Bool-cases (q == nid2nid32 nid)) [
        | inl hit ↦ rw hit
        | inr miss ↦ rw miss (
            sym (hash_lookup-view s₁.nid32_table q named.well.names32.sized)
            ∙ named.reads32 q
            ∙ rw miss)
      ]);
}

module _ (inet_pton6 : CString → Option Nid) (text6 : Nid → CString)
    (sized : (a : Nid) → IsNid a → length (text6 a) ≡ 39)
    (text : (a : Nid) → IsNid a → IsText (text6 a))
    (reads : (a : Nid) → IsNid a → inet_pton6 (text6 a) ≡ some a) where
  -- The identifiers are recorded as `newNMEntry` records them.
  pub learn_nids_lem :
      (nid nidr : Nid) (z : ℕ) (names : NidMapper)
      → IsNid nid
      → IsNid nidr
      → IsNidMapper names
      → (names' : NidMapper) × (learn_nids inet_pton6
            (nids_text (text6 nid) (text6 nidr) ++ zeros z)
            names
          ≡ ok (some (nid, names')))
        × Named nid nidr names names'
  unfolding learn_nids
  learn_nids_lem nid nidr z names is is' well =
      let (names₁, run₁, named) = new_nm_entry-Named nid nidr names well in
      let (names₂, run₂, again) = new_nm_entry32_lem (nid2nid32 nid) nid nidr names₁ named.well in
      (
        names₂,
        rw (
          get_nids_lem (text6 nid) (text6 nidr) z (sized nid is) (sized nidr is'),
          ◌>>=◌,
          until_nul-append (text6 nid) [] (text nid is),
          reads nid is,
          until_nul-append (text6 nidr) [] (text nidr is'),
          reads nidr is',
          run₁,
          same_nid32 nid is,
          run₂,
        ),
        Named-again nid nidr names names₁ names₂ named again,
      )
