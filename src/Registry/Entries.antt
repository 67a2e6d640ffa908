-- ===== src/Registry/Entries.antt =====
-- What the registry answers, and how an entry changes it.
use node_identity_architetur.Base.{
  ◌≡◌, refl, Bool, true, false, Option, none, some, arith, ◌==◌, if◌then◌else◌, Bool-cases,
  Option-cases, inl, inr,
}
use node_identity_architetur.Conn.{ConnEntry}
use node_identity_architetur.Key.{same}
use node_identity_architetur.Mapper.Entries.{Writes, pinned, store-Writes}
use node_identity_architetur.Mapper.{ConnTable}
use node_identity_architetur.Nid.{Nid, Nid32, nid_key}
use node_identity_architetur.Registry.{add_registry, get_registry}
use node_identity_architetur.Run.{ok, ◌>>=◌, Returns}
use node_identity_architetur.Table.View.{IsValid, view, hash_lookup-view}

-- An entry answers with its address, unless that is 0.
abbrev pub registered : Option ConnEntry → Bool × Nid32
registered none = (false, 0)
registered (some ce) = if ce.ip == 0 then (false, 0) else (true, ce.ip)

pub get_registry_lem :
    (nid : Nid) (t : ConnTable) → IsValid t → get_registry nid t ≡ ok (registered (view t nid))
unfolding get_registry
get_registry_lem nid t valid = rw (hash_lookup-view t nid valid.sized) (ground arith)

pub add_registry-Writes :
    (nid : Nid) (ip : Nid32) (t : ConnTable)
    → IsValid t
    → Returns (add_registry nid ip t) (Writes t nid (some (pinned ip (view t nid))))
unfolding add_registry
add_registry-Writes nid ip t valid =
    rw (hash_lookup-view t nid valid.sized) (elim (Option-cases (view t nid)) [
      | inl absent ↦ rw (absent, ◌>>=◌) (store-Writes nid _ t valid)
      | inr (ce, e) ↦ rw (e, ◌>>=◌) (store-Writes nid _ t valid)
    ])

pub registered-pinned :
    (ip : Nid32) (e : Option ConnEntry)
    → registered (some (pinned ip e)) ≡ (if ip == 0 then (false, 0) else (true, ip))
registered-pinned ip none = refl
registered-pinned ip (some ce) = refl

-- On a well-formed table, after `addRegistry` of an address for one identifier, `getRegistry`
-- answers 1 with the address for that identifier (0 with address 0 if the address is 0), and
-- answers as before for any other. The table stays well formed.
pub get_registry-add_registry :
    (nid q : Nid) (ip : Nid32) (t : ConnTable)
    → IsValid t
    → Returns (add_registry nid ip t) λ t'.
      IsValid t'
      × (get_registry q t'
          ≡ ok (
              if same q nid
              then (if ip == 0 then (false, 0) else (true, ip))
              else registered (view t q)))
get_registry-add_registry nid q ip t valid =
    let (t', run, (valid', reads)) = add_registry-Writes nid ip t valid in
    (
      t',
      run,
      (
        valid',
        rw (get_registry_lem q t' valid', reads q)
            (elim (Bool-cases (same q nid)) [
              | inl hit ↦ rw (hit, ← registered-pinned ip (view t nid))
              | inr miss ↦ rw miss
            ]),
      ),
    )
