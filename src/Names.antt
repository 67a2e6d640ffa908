-- ===== src/Names.antt =====
-- nid_mapper.c: from a node identifier, and from the 32-bit identifier that applications see, to the
-- gateway of the node's domain. The `fqdn` fields of the entries are never written, and are left
-- out. Memory for an entry is taken to be available.
pub mod Entries
pub mod Fixed
pub mod Update
use node_identity_architetur.Base.{
  ℕ, ◌+◌, ◌*◌, ◌/◌, ◌%◌, Bool, true, Option, none, some, List, [], ◌∷◌, ◌++◌, replicate,
  if◌then◌else◌,
}
use node_identity_architetur.Config.{Config}
use node_identity_architetur.Hash32.{
  construct_hash_table32, hash_insert32, hash_lookup32, hash_del32, free_hash_table32,
}
use node_identity_architetur.Nid.{Nid, Nid32, nid_key, nid32_key, nid2nid32}
use node_identity_architetur.Run.{Run, ok, ◌>>=◌}
use node_identity_architetur.Table.{
  HashTable, construct_hash_table, free_hash_table, hash_insert, hash_lookup, hash_del,
}

pub record NmEntry : Type 0 where
  pub nidgw : Nid

pub record NmEntry32 : Type 0 where
  pub nid : Nid
  pub nidgw : Nid

-- The globals of the file; `niddns` and `nid32dns` are never written, so they are all zeros.
pub record NidMapper : Type 0 where
  pub nid_table : HashTable Nid NmEntry
  pub nid32_table : HashTable Nid32 NmEntry32

unfoldable pub new_nm_entry32 : Nid32 → Nid → Nid → NidMapper → Run NidMapper
new_nm_entry32 nid32 nid nidgw s = do
  found ← hash_lookup32 nid32 s.nid32_table
  elim found [
    | some nme ↦ do
      r ← hash_insert32 true nid32 (record nme { nid = nid; nidgw = nidgw }) s.nid32_table
      ok (record s { nid32_table = r.1 })
    | none ↦ do
      r ← hash_insert32 true nid32 (record { nid = nid; nidgw = nidgw }) s.nid32_table
      ok (record s { nid32_table = r.1 })
  ]

unfoldable pub new_nm_entry : Nid → Nid → NidMapper → Run NidMapper
new_nm_entry nid nidgw s = do
  found ← hash_lookup nid s.nid_table
  elim found [
    | some nme ↦ do
      r ← hash_insert true nid (record nme { nidgw = nidgw }) s.nid_table
      new_nm_entry32 (nid2nid32 nid) nid nidgw (record s { nid_table = r.1 })
    | none ↦ do
      r ← hash_insert true nid (record { nidgw = nidgw }) s.nid_table
      new_nm_entry32 (nid2nid32 nid) nid nidgw (record s { nid_table = r.1 })
  ]

unfoldable pub get_nm_entry : Nid → NidMapper → Run (Option NmEntry)
get_nm_entry nid s = hash_lookup nid s.nid_table

unfoldable pub get_nm_entry32 : Nid32 → NidMapper → Run (Option NmEntry32)
get_nm_entry32 nid32 s = hash_lookup32 nid32 s.nid32_table

unfoldable pub destroy_nid_mapper : NidMapper → NidMapper
destroy_nid_mapper s = record {
  nid_table = (free_hash_table s.nid_table).1;
  nid32_table = (free_hash_table32 s.nid32_table).1;
}

-- `niddns` and `nid32dns`, the file's own globals.
unfoldable pub update_nm : Nid → Nid32 → Config → NidMapper → Run NidMapper
update_nm niddns nid32dns conf s = do
  r ← hash_del niddns s.nid_table
  r32 ← hash_del32 nid32dns s.nid32_table
  s' ← new_nm_entry conf.niddns conf.nidcore (record { nid_table = r.1; nid32_table = r32.1 })
  new_nm_entry32 (nid2nid32 conf.niddns) conf.niddns conf.nidcore s'

-- What `inet_pton` makes of the addresses in `init_nid_mapper`: `a.b.c.d`, and `a:b::z`.
unfoldable pub ipv4 : ℕ → ℕ → ℕ → ℕ → Nid32
ipv4 a b c d = a + 256 * b + 65536 * c + 16777216 * d

unfoldable pub ipv6 : ℕ → ℕ → ℕ → Nid
ipv6 a b z = record {
  u6_addr8 = a / 256 ∷ a % 256 ∷ b / 256 ∷ b % 256 ∷ (replicate 10 0 ++ z / 256 ∷ z % 256 ∷ []);
}

-- One name: its address, and its entry.
abbrev pub FixedName : Type 0
FixedName = Nid32 × NmEntry32

-- The names that are known without a name server: 16382 is 3ffe, 48059 is bbbb, 65535 is ffff.
unfoldable pub fixed_names : List FixedName
fixed_names =
    (ipv4 1 0 0 1, record { nid = ipv6 16382 0 1; nidgw = ipv6 48059 0 11 })
    ∷ (ipv4 1 0 0 2, record { nid = ipv6 16382 0 2; nidgw = ipv6 16382 0 7 })
    ∷ (ipv4 1 0 0 3, record { nid = ipv6 16382 0 3; nidgw = ipv6 16382 0 4 })
    ∷ (ipv4 1 0 0 4, record { nid = ipv6 16382 0 4; nidgw = ipv6 16382 0 4 })
    ∷ (ipv4 1 0 0 5, record { nid = ipv6 16382 0 5; nidgw = ipv6 16382 0 4 })
    ∷ (ipv4 1 0 0 6, record { nid = ipv6 16382 0 6; nidgw = ipv6 48059 0 11 })
    ∷ (ipv4 1 0 0 7, record { nid = ipv6 16382 0 7; nidgw = ipv6 16382 0 7 })
    ∷ (ipv4 1 0 0 8, record { nid = ipv6 16382 0 8; nidgw = ipv6 48059 0 11 })
    ∷ (ipv4 1 0 0 9, record { nid = ipv6 16382 0 9; nidgw = ipv6 16382 0 7 })
    ∷ (ipv4 1 0 0 11, record { nid = ipv6 16382 3 17; nidgw = ipv6 65535 65535 15 })
    ∷ (ipv4 1 0 1 1, record { nid = ipv6 16382 0 257; nidgw = ipv6 65535 65535 15 })
    ∷ (ipv4 1 0 1 2, record { nid = ipv6 16382 0 258; nidgw = ipv6 65535 65535 15 })
    ∷ (ipv4 1 0 1 3, record { nid = ipv6 16382 0 259; nidgw = ipv6 65535 65535 15 })
    ∷ (ipv4 1 0 0 16, record { nid = ipv6 16382 0 16; nidgw = ipv6 65535 65535 15 })
    ∷ []

unfoldable pub add_names : List FixedName → NidMapper → Run NidMapper
add_names [] s = ok s
add_names (e ∷ es) s = do s' ← new_nm_entry32 e.0 e.1.nid e.1.nidgw s; add_names es s'

-- `get_dns()` is the argument.
unfoldable pub init_nid_mapper : (dns : Bool) → Run NidMapper
init_nid_mapper dns =
    let s : NidMapper = record {
      nid_table = construct_hash_table true 10;
      nid32_table = construct_hash_table32 true 10;
    } in
    if dns then ok s else add_names fixed_names s
