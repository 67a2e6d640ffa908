-- ===== src/Tests/Tables.antt =====
-- The hash table and the functions behind it.
use node_identity_architetur.Base.{◌≡◌, true, none, some}
use node_identity_architetur.Conn.{ConnEntry}
use node_identity_architetur.Nid.{Nid, nid_key}
use node_identity_architetur.Run.{Returns}
use node_identity_architetur.Table.View.{
  IsValid, view, update, replaced, hash_insert_lem, hash_del_lem,
}
use node_identity_architetur.Table.{hash_insert, hash_del}
use node_identity_architetur.Tests.Data.{bob, conns, conns-IsValid}

abbrev eight : ConnEntry
eight = record { ip = 8; tstamp = 100 }

hash_insert_lem_example : Returns (hash_insert true bob eight conns) λ (r, t').
    (r ≡ replaced eight (view conns bob))
    × IsValid t'
    × ((q : Nid) → view t' q ≡ update (view conns) bob (some eight) q)
hash_insert_lem_example = hash_insert_lem conns bob eight conns-IsValid

hash_del_lem_example : Returns (hash_del bob conns) λ (r, t').
    (r ≡ view conns bob) × IsValid t' × ((q : Nid) → view t' q ≡ update (view conns) bob none q)
hash_del_lem_example = hash_del_lem conns bob conns-IsValid
