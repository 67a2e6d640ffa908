-- ===== src/Names/Fixed.antt =====
-- The names that the mapper starts with.
use node_identity_architetur.Base.{
  ◌≡◌, refl, ◌∙◌, Bool, true, Option, none, some, List, [], ◌∷◌, arith, if◌then◌else◌, ◌==◌, ==_iff,
  Bool-cases, inl, inr,
}
use node_identity_architetur.Chain.{find, Unique}
use node_identity_architetur.Hash32.{construct_hash_table32}
use node_identity_architetur.Names.Entries.{IsNidMapper, new_nm_entry32_lem}
use node_identity_architetur.Names.{
  NmEntry, NmEntry32, NidMapper, FixedName, ipv4, fixed_names, add_names, init_nid_mapper,
}
use node_identity_architetur.Nid.{Nid, Nid32, nid_key, nid32_key}
use node_identity_architetur.Run.{◌>>=◌, Returns}
use node_identity_architetur.Table.View.{view, construct_hash_table_lem}
use node_identity_architetur.Table.{construct_hash_table}

-- A name of the list, or else what was known.
abbrev or_known : Option NmEntry32 → Option NmEntry32 → Option NmEntry32
or_known none e = e
or_known (some entry) e = some entry

add_names_lem :
    (es : List FixedName) (s : NidMapper)
    → IsNidMapper s
    → Unique es
    → Returns (add_names es s) λ s'.
      IsNidMapper s'
      × (s'.nid_table ≡ s.nid_table)
      × ((q : Nid32) → view s'.nid32_table q ≡ or_known (find q es) (view s.nid32_table q))
unfolding add_names find
add_names_lem [] s is unique = (s, refl, (is, refl, λ q. refl))
add_names_lem (e ∷ es) s is (new, unique) =
    let (s₁, run₁, after) = new_nm_entry32_lem e.0 e.1.nid e.1.nidgw s is in
    let (s₂, run₂, (is₂, kept, reads)) = add_names_lem es s₁ after.well unique in
    rw (run₁, ◌>>=◌, run₂)
      (
        s₂,
        refl,
        (
          is₂,
          kept ∙ after.kept,
          λ q. elim (Bool-cases (q == e.0)) [
            | inl hit ↦
                let other : find q es ≡ none = rw ((==_iff q e.0).0 hit) new in
                reads q ∙ rw (after.reads32 q, hit, other)
            | inr miss ↦ reads q ∙ rw (after.reads32 q, miss)
          ],
        ),
      )

or_known-none : (e : Option NmEntry32) → or_known e none ≡ e
or_known-none none = refl
or_known-none (some entry) = refl

fixed_names-Unique : Unique fixed_names
unfolding fixed_names ipv4 find
fixed_names-Unique = (
  refl,
  (
    refl,
    (
      refl,
      (refl, (refl, (refl, (refl, (refl, (refl, (refl, (refl, (refl, (refl, (refl, tt))))))))))),
    ),
  ),
)

-- `init_nid_mapper` gives a well-formed state. Without a name server an address has an entry exactly
-- if it is one of the fixed names, and then that name's; with one, no address has an entry.
pub init_nid_mapper_lem :
    (dns : Bool)
    → Returns (init_nid_mapper dns) λ s.
      IsNidMapper s
      × ((q : Nid) → view s.nid_table q ≡ none)
      × ((q : Nid32) → view s.nid32_table q ≡ (if dns then none else find q fixed_names))
unfolding init_nid_mapper construct_hash_table32
init_nid_mapper_lem dns =
    let (valid, empty) = construct_hash_table_lem {K = Nid} {V = NmEntry} 10 (omega arith) in
    let (valid32, empty32) =
      construct_hash_table_lem {K = Nid32} {V = NmEntry32} 10 (omega arith) in
    let s : NidMapper = record {
      nid_table = construct_hash_table true 10;
      nid32_table = construct_hash_table true 10;
    } in
    let is : IsNidMapper s = record { names = valid; names32 = valid32 } in
    let (s', run, (is', kept, reads)) = add_names_lem fixed_names s is fixed_names-Unique in
    elim (Bool-cases dns) [
      | inl served ↦ rw served (s, refl, (is, empty, empty32))
      | inr alone ↦
          rw (alone, run)
            (
              s',
              refl,
              (
                is',
                λ q. rw (kept, empty q),
                λ q. reads q ∙ rw (empty32 q) (or_known-none (find q fixed_names)),
              ),
            )
    ]
