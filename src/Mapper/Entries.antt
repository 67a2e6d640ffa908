-- ===== src/Mapper/Entries.antt =====
-- What the writers of the connection map do to it.
use node_identity_architetur.Base.{
  ℕ, ◌≡◌, refl, Option, none, some, arith, ◌==◌, if◌then◌else◌, Bool-cases, Option-cases, inl, inr,
}
use node_identity_architetur.Conn.{ConnEntry}
use node_identity_architetur.Mapper.{ConnTable, store, new_cm_entry, static_cm_entry, del_cm_entry}
use node_identity_architetur.Nid.{Nid, Nid32, nid_key, nid_eq_iff}
use node_identity_architetur.Run.{◌>>=◌, Returns}
use node_identity_architetur.Table.View.{
  IsValid, view, update, hash_lookup-view, hash_insert_lem, hash_del_lem,
}

-- The run gives a well-formed table that reads as before but at one identifier.
abbrev pub Writes : ConnTable → Nid → Option ConnEntry → ConnTable → Type 0
Writes t nid v t' = IsValid t' × ((q : Nid) → view t' q ≡ update (view t) nid v q)

pub store-Writes :
    (nid : Nid) (ce : ConnEntry) (t : ConnTable)
    → IsValid t
    → Returns (store nid ce t) (Writes t nid (some ce))
unfolding store
store-Writes nid ce t valid =
    let ((r, t'), run, (returned, valid', reads)) = hash_insert_lem t nid ce valid in
    (t', rw run, (valid', reads))

pub del_cm_entry-Writes :
    (nid : Nid) (t : ConnTable) → IsValid t → Returns (del_cm_entry nid t) (Writes t nid none)
unfolding del_cm_entry
del_cm_entry-Writes nid t valid =
    let ((r, t'), run, (returned, valid', reads)) = hash_del_lem t nid valid in
    (t', rw run, (valid', reads))

-- A static entry stays; any other is replaced by the address, stamped with the time.
abbrev pub renewed : ℕ → Nid32 → Option ConnEntry → ConnEntry
renewed now ip none = record { ip = ip; tstamp = now }
renewed now ip (some ce) = if ce.tstamp == 0 then ce else record { ip = ip; tstamp = now }

-- `newCMEntry` on a well-formed table renews the entry of the identifier (a static entry keeps
-- its address and stays static) and touches no other.
pub new_cm_entry-Writes :
    (now : ℕ) (nid : Nid) (ip : Nid32) (t : ConnTable)
    → IsValid t
    → Returns (new_cm_entry now nid ip t) (Writes t nid (some (renewed now ip (view t nid))))
unfolding new_cm_entry
new_cm_entry-Writes now nid ip t valid =
    rw (hash_lookup-view t nid valid.sized) (elim (Option-cases (view t nid)) [
      | inl absent ↦ rw (absent, ◌>>=◌) (store-Writes nid _ t valid)
      | inr (ce, e) ↦ elim (Bool-cases (ce.tstamp == 0)) [
        | inl static ↦
            rw (e, static, ◌>>=◌) (t, refl, (valid, λ q. ground (arith, nid_eq_iff q nid)))
        | inr old ↦ rw (e, old, ◌>>=◌) (store-Writes nid _ t valid)
      ]
    ])

-- An entry that is there keeps its stamp; a new one is static.
abbrev pub pinned : Nid32 → Option ConnEntry → ConnEntry
pinned ip none = record { ip = ip; tstamp = 0 }
pinned ip (some ce) = record { ip = ip; tstamp = ce.tstamp }

-- `staticCMEntry` on a well-formed table writes the address, makes the entry static if it is new,
-- keeps the stamp of one that is there, and touches no other identifier.
pub static_cm_entry-Writes :
    (nid : Nid) (ip : Nid32) (t : ConnTable)
    → IsValid t
    → Returns (static_cm_entry nid ip t) (Writes t nid (some (pinned ip (view t nid))))
unfolding static_cm_entry
static_cm_entry-Writes nid ip t valid =
    rw (hash_lookup-view t nid valid.sized) (elim (Option-cases (view t nid)) [
      | inl absent ↦ rw (absent, ◌>>=◌) (store-Writes nid _ t valid)
      | inr (ce, e) ↦ rw (e, ◌>>=◌) (store-Writes nid _ t valid)
    ])
