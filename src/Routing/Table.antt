-- ===== src/Routing/Table.antt =====
-- `getRTEntry` on every branch, and its writers.
use node_identity_architetur.Base.{
  ℕ, ◌+◌, ◌≡◌, refl, Bool, true, false, ◌||◌, Option, none, some, arith, ◌==◌, ltb, if◌then◌else◌,
  Bool-cases, Option-cases, inl, inr,
}
use node_identity_architetur.Conn.{ConnEntry, gateway_timeout}
use node_identity_architetur.Mapper.Entries.{Writes}
use node_identity_architetur.Nid.{Nid, Nid32, nid_key, nid_eq_iff}
use node_identity_architetur.Routing.{Routing, get_rt_entry}
use node_identity_architetur.Run.{◌>>=◌, Returns}
use node_identity_architetur.Table.View.{IsValid, view, hash_lookup-view, hash_del_lem}

-- A static entry, or one stamped less than GATEWAY_TIMEOUT seconds ago.
abbrev pub is_fresh : ℕ → ConnEntry → Bool
is_fresh now ce = ltb now (ce.tstamp + gateway_timeout) || (ce.tstamp == 0)

-- What the table answers with: the address of a fresh entry, if it is not 0.
abbrev pub route : ℕ → Nid32 → Option ConnEntry → Bool × Nid32
route now gw none = (false, gw)
route now gw (some ce) =
    if is_fresh now ce then (if ce.ip == 0 then (false, gw) else (true, ce.ip)) else (false, gw)

-- An entry that is not fresh is dropped.
abbrev pub unless_stale : ℕ → Option ConnEntry → Option ConnEntry
unless_stale now none = none
unless_stale now (some ce) = if is_fresh now ce then some ce else none

-- `getRTEntry` on a well-formed table answers with the address of the fresh entry, or with the
-- gateway's; it drops the entry if it is stale and changes nothing else.
pub get_rt_entry_lem :
    (now : ℕ) (nid : Nid) (r : Routing)
    → IsValid r.rtable
    → Returns (get_rt_entry now nid r) λ (a, r').
      (a ≡ route now r.gateway_ip (view r.rtable nid))
      × Writes r.rtable nid (unless_stale now (view r.rtable nid)) r'.rtable
      × (r'.gateway_ip ≡ r.gateway_ip)
unfolding get_rt_entry
get_rt_entry_lem now nid r valid =
    rw (hash_lookup-view r.rtable nid valid.sized) (elim (Option-cases (view r.rtable nid)) [
      | inl absent ↦
          rw (absent, ◌>>=◌)
            (
              ((false, r.gateway_ip), r),
              refl,
              (refl, (valid, λ q. ground (arith, nid_eq_iff q nid)), refl),
            )
      | inr (ce, e) ↦ elim (Bool-cases (is_fresh now ce)) [
        | inl fresh ↦ elim (Bool-cases (ce.ip == 0)) [
          | inl zero_ip ↦
              rw (e, ◌>>=◌, fresh, zero_ip)
                (
                  ((false, r.gateway_ip), r),
                  refl,
                  (refl, (valid, λ q. ground (arith, nid_eq_iff q nid)), refl),
                )
          | inr some_ip ↦
              rw (e, ◌>>=◌, fresh, some_ip)
                (
                  ((true, ce.ip), r),
                  refl,
                  (refl, (valid, λ q. ground (arith, nid_eq_iff q nid)), refl),
                )
        ]
        | inr stale ↦
            let ((d, t), run, (returned, valid', reads)) = hash_del_lem r.rtable nid valid in
            rw (e, ◌>>=◌, stale, run)
              (
                ((false, r.gateway_ip), record r { rtable = t }),
                refl,
                (refl, (valid', reads), refl),
              )
      ]
    ])
