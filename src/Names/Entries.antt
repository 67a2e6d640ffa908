-- ===== src/Names/Entries.antt =====
-- What the name mapper answers after an entry.
use node_identity_architetur.Base.{
  ◌≡◌, refl, ◌∙◌, some, if◌then◌else◌, ◌==◌, Option-cases, inl, inr,
}
use node_identity_architetur.Hash32.{hash_insert32, hash_lookup32}
use node_identity_architetur.Key.{same}
use node_identity_architetur.Names.{
  NidMapper, new_nm_entry, new_nm_entry32, get_nm_entry, get_nm_entry32,
}
use node_identity_architetur.Nid.{Nid, Nid32, nid_key, nid32_key, nid2nid32}
use node_identity_architetur.Run.{ok, ◌>>=◌, Returns}
use node_identity_architetur.Table.View.{IsValid, view, update, hash_lookup-view, hash_insert_lem}

pub record IsNidMapper (s : NidMapper) : Type 0 where
  pub names : IsValid s.nid_table
  pub names32 : IsValid s.nid32_table

-- The 32-bit table reads as before but at one identifier.
pub record Names32 (nid32 : Nid32) (nid nidgw : Nid) (s s' : NidMapper) : Type 0 where
  pub well : IsNidMapper s'
  pub kept : s'.nid_table ≡ s.nid_table
  pub reads32 :
      (q : Nid32)
      → view s'.nid32_table q
        ≡ update (view s.nid32_table) nid32 (some (record { nid = nid; nidgw = nidgw })) q

pub new_nm_entry32_lem :
    (nid32 : Nid32) (nid nidgw : Nid) (s : NidMapper)
    → IsNidMapper s
    → Returns (new_nm_entry32 nid32 nid nidgw s) (Names32 nid32 nid nidgw s)
unfolding new_nm_entry32 hash_lookup32 hash_insert32
new_nm_entry32_lem nid32 nid nidgw s is =
    let ((old, t), run, (returned, valid, reads)) =
      hash_insert_lem s.nid32_table nid32 (record { nid = nid; nidgw = nidgw }) is.names32 in
    let done : Names32 nid32 nid nidgw s (record s { nid32_table = t }) = record {
      well = record { names = is.names; names32 = valid };
      kept = refl;
      reads32 = reads;
    } in
    rw (hash_lookup-view s.nid32_table nid32 is.names32.sized)
      (elim (Option-cases (view s.nid32_table nid32)) [
        | inl absent ↦ rw (absent, ◌>>=◌, run) (_, refl, done)
        | inr (nme, e) ↦ rw (e, ◌>>=◌, run) (_, refl, done)
      ])

-- Both tables after an entry.
pub record Named (nid nidgw : Nid) (s s' : NidMapper) : Type 0 where
  pub well : IsNidMapper s'
  pub reads :
      (q : Nid)
      → get_nm_entry q s'
        ≡ ok (if same q nid then some (record { nidgw = nidgw }) else view s.nid_table q)
  pub reads32 :
      (q : Nid32)
      → get_nm_entry32 q s'
        ≡ ok (
            if q == nid2nid32 nid
            then some (record { nid = nid; nidgw = nidgw })
            else view s.nid32_table q)

-- On a well-formed state `newNMEntry` records the gateway for the identifier in the first table,
-- and the identifier with its gateway for the 32-bit identifier that `nid2nid32` makes of it in the
-- second. Lookups of all other identifiers answer as before; an identifier that shares the 32-bit
-- one is displaced.
pub new_nm_entry-Named :
    (nid nidgw : Nid) (s : NidMapper)
    → IsNidMapper s
    → Returns (new_nm_entry nid nidgw s) (Named nid nidgw s)
unfolding new_nm_entry get_nm_entry get_nm_entry32 hash_lookup32
new_nm_entry-Named nid nidgw s is =
    let ((old, t), run, (returned, valid, reads)) =
      hash_insert_lem s.nid_table nid (record { nidgw = nidgw }) is.names in
    let (s', run', after) =
      new_nm_entry32_lem (nid2nid32 nid) nid nidgw (record s { nid_table = t })
        (record { names = valid; names32 = is.names32 }) in
    let done : Named nid nidgw s s' = record {
      well = after.well;
      reads =
          λ q. hash_lookup-view s'.nid_table q after.well.names.sized ∙ rw (after.kept, reads q);
      reads32 =
          λ q. hash_lookup-view s'.nid32_table q after.well.names32.sized ∙ rw (after.reads32 q);
    } in
    rw (hash_lookup-view s.nid_table nid is.names.sized)
      (elim (Option-cases (view s.nid_table nid)) [
        | inl absent ↦ rw (absent, ◌>>=◌, run) (s', run', done)
        | inr (nme, e) ↦ rw (e, ◌>>=◌, run) (s', run', done)
      ])
