-- ===== src/Names/Update.antt =====
-- The change of the name server's entry.
use node_identity_architetur.Base.{
  ◌≡◌, refl, sym, ◌∙◌, none, some, if◌then◌else◌, ◌==◌, Bool-cases, inl, inr,
}
use node_identity_architetur.Config.{Config}
use node_identity_architetur.Hash32.{hash_lookup32, hash_del32}
use node_identity_architetur.Key.{same}
use node_identity_architetur.Names.Entries.{IsNidMapper, new_nm_entry32_lem, new_nm_entry-Named}
use node_identity_architetur.Names.{NidMapper, get_nm_entry, get_nm_entry32, update_nm}
use node_identity_architetur.Nid.{Nid, Nid32, nid_key, nid32_key, nid2nid32}
use node_identity_architetur.Run.{ok, ◌>>=◌, Returns}
use node_identity_architetur.Table.View.{view, update, hash_lookup-view, hash_del_lem}

-- The entry of the name server is written under both of its identifiers, and the entries of the two
-- identifiers that the file keeps for the former name server are gone.
pub record Updated (old : Nid) (old32 : Nid32) (conf : Config) (s s' : NidMapper) : Type 0 where
  pub well : IsNidMapper s'
  pub reads :
      (q : Nid)
      → get_nm_entry q s'
        ≡ ok (
            if same q conf.niddns
            then some (record { nidgw = conf.nidcore })
            else update (view s.nid_table) old none q)
  pub reads32 :
      (q : Nid32)
      → get_nm_entry32 q s'
        ≡ ok (
            if q == nid2nid32 conf.niddns
            then some (record { nid = conf.niddns; nidgw = conf.nidcore })
            else update (view s.nid32_table) old32 none q)

pub update_nm-Updated :
    (old : Nid) (old32 : Nid32) (conf : Config) (s : NidMapper)
    → IsNidMapper s
    → Returns (update_nm old old32 conf s) (Updated old old32 conf s)
unfolding update_nm hash_del32 get_nm_entry get_nm_entry32 hash_lookup32
update_nm-Updated old old32 conf s is =
    let ((d, t), run, (returns, valid, reads)) = hash_del_lem s.nid_table old is.names in
    let ((d32, t32), run32, (returns32, valid32, reads32)) =
      hash_del_lem s.nid32_table old32 is.names32 in
    let (s₁, run₁, named) =
      new_nm_entry-Named conf.niddns conf.nidcore (record { nid_table = t; nid32_table = t32 })
        (record { names = valid; names32 = valid32 }) in
    let (s₂, run₂, after) =
      new_nm_entry32_lem (nid2nid32 conf.niddns) conf.niddns conf.nidcore s₁ named.well in
    rw (run, ◌>>=◌, run32, run₁, run₂)
      (
        s₂,
        refl,
        record {
          well = after.well;
          reads = λ q.
              rw (hash_lookup-view s₂.nid_table q after.well.names.sized, after.kept)
                (sym (hash_lookup-view s₁.nid_table q named.well.names.sized)
                  ∙ named.reads q
                  ∙ rw (reads q));
          reads32 = λ q.
              hash_lookup-view s₂.nid32_table q after.well.names32.sized
              ∙ rw (after.reads32 q) (elim (Bool-cases (q == nid2nid32 conf.niddns)) [
                | inl hit ↦ rw hit
                | inr miss ↦ rw miss (
                    sym (hash_lookup-view s₁.nid32_table q named.well.names32.sized)
                    ∙ named.reads32 q
                    ∙ rw (miss, reads32 q))
              ]);
        },
      )
