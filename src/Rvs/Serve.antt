-- ===== src/Rvs/Serve.antt =====
-- What the server answers, and for how long it remembers.
use node_identity_architetur.Base.{
  ℕ, ◌+◌, ◌≡◌, refl, ◌∙◌, true, Option, none, some, arith, ◌==◌, ltb, if◌then◌else◌, Bool-cases,
  Option-cases, inl, inr,
}
use node_identity_architetur.Conn.{ConnEntry, rvs_timeout}
use node_identity_architetur.Key.{same_refl}
use node_identity_architetur.Mapper.Entries.{Writes}
use node_identity_architetur.Mapper.{ConnTable}
use node_identity_architetur.Message.{NidMsg, rvs_update, rvs_ack, rvs_get, rvs_response}
use node_identity_architetur.Nid.{Nid, Nid32, nid_key, nid_eq_iff}
use node_identity_architetur.Run.{◌>>=◌, Returns}
use node_identity_architetur.Rvs.{add_entry, get_entry, serve}
use node_identity_architetur.Table.View.{
  IsValid, view, hash_lookup-view, hash_insert_lem, hash_del_lem,
}

-- The address on record, or 0 if there is none or it is too old.
abbrev pub on_record : ℕ → Option ConnEntry → Nid32
on_record now none = 0
on_record now (some ce) = if ltb now (ce.tstamp + rvs_timeout) then ce.ip else 0

abbrev pub remembered : ℕ → Option ConnEntry → Option ConnEntry
remembered now none = none
remembered now (some ce) = if ltb now (ce.tstamp + rvs_timeout) then some ce else none

pub add_entry-Writes :
    (now : ℕ) (nid : Nid) (ip : Nid32) (t : ConnTable)
    → IsValid t
    → Returns
        (add_entry now nid ip t)
        λ (done, t'). (done ≡ true) × Writes t nid (some (record { ip = ip; tstamp = now })) t'
unfolding add_entry
add_entry-Writes now nid ip t valid =
    let ((r, t'), run, (returned, valid', reads)) = hash_insert_lem t nid _ valid in
    ((true, t'), rw (run, ◌>>=◌) (ground (arith, returned)), (refl, (valid', reads)))

pub get_entry-Writes :
    (now : ℕ) (nid : Nid) (t : ConnTable)
    → IsValid t
    → Returns (get_entry now nid t) λ (ip, t').
      (ip ≡ on_record now (view t nid)) × Writes t nid (remembered now (view t nid)) t'
unfolding get_entry
get_entry-Writes now nid t valid =
    rw (hash_lookup-view t nid valid.sized) (elim (Option-cases (view t nid)) [
      | inl absent ↦
          rw (absent, ◌>>=◌) ((0, t), refl, (refl, (valid, λ q. ground (arith, nid_eq_iff q nid))))
      | inr (ce, e) ↦ elim (Bool-cases (ltb now (ce.tstamp + rvs_timeout))) [
        | inl fresh ↦
            rw (e, ◌>>=◌, fresh)
              ((ce.ip, t), refl, (refl, (valid, λ q. ground (arith, nid_eq_iff q nid))))
        | inr old ↦
            let ((r, t'), run, (returned, valid', reads)) = hash_del_lem t nid valid in
            rw (e, ◌>>=◌, old, run) ((0, t'), refl, (refl, (valid', reads)))
      ]
    ])

-- The reply to a message.
abbrev pub reply : ℕ → Option ConnEntry → NidMsg → NidMsg
reply now e m =
    if m.type == rvs_update
    then record m { type = rvs_ack }
    else if m.type == rvs_get
    then record m { type = rvs_response; ip = on_record now e }
    else m

-- The entry of the message's identifier afterwards.
abbrev pub after_message : ℕ → Option ConnEntry → NidMsg → Option ConnEntry
after_message now e m =
    if m.type == rvs_update
    then some (record { ip = m.ip; tstamp = now })
    else if m.type == rvs_get
    then remembered now e
    else e

-- One round of the server on a well-formed table: an update is recorded and acknowledged, a request
-- is answered with the address on record (0 if there is none, or if it is RVS_TIMEOUT seconds old
-- or older, and then it is forgotten), any other message is sent back as it came; no entry but
-- that of the message's identifier changes.
pub serve_lem :
    (now : ℕ) (m : NidMsg) (t : ConnTable)
    → IsValid t
    → Returns (serve now m t) λ (r, t').
      (r ≡ reply now (view t m.nid) m) × Writes t m.nid (after_message now (view t m.nid) m) t'
unfolding serve
serve_lem now m t valid = elim (Bool-cases (m.type == rvs_update)) [
  | inl is_update ↦
      let ((done, t'), run, (stored, writes)) = add_entry-Writes now m.nid m.ip t valid in
      rw (is_update, run) ((record m { type = rvs_ack }, t'), refl, (refl, writes))
  | inr not_update ↦ elim (Bool-cases (m.type == rvs_get)) [
    | inl is_get ↦
        let ((ip, t'), run, (answers, writes)) = get_entry-Writes now m.nid t valid in
        rw (not_update, is_get, run)
          ((record m { type = rvs_response; ip = ip }, t'), refl, (rw answers, writes))
    | inr other ↦
        rw (not_update, other)
          ((m, t), refl, (refl, (valid, λ q. ground (arith, nid_eq_iff q m.nid))))
  ]
]

-- With a well-formed table, a request for a node that announced itself is answered with the address
-- it announced, for RVS_TIMEOUT seconds and no longer.
pub serve-get-update :
    (then' now : ℕ) (u g : NidMsg) (t : ConnTable)
    → IsValid t
    → u.type ≡ rvs_update
    → g.type ≡ rvs_get
    → g.nid ≡ u.nid
    → Returns (serve then' u t >>= λ r. serve now g r.1) (λ (r, t').
      r ≡ record g { type = rvs_response; ip = if ltb now (then' + rvs_timeout) then u.ip else 0 })
serve-get-update then' now u g t valid is_update is_get same_nid =
    let ((a, t₁), run₁, (answered, (valid₁, reads₁))) = serve_lem then' u t valid in
    let ((b, t₂), run₂, (answered₂, writes₂)) = serve_lem now g t₁ valid₁ in
    let entry : view t₁ g.nid ≡ some (record { ip = u.ip; tstamp = then' }) =
      rw (reads₁ g.nid, same_nid, same_refl u.nid, is_update) in
    ((b, t₂), rw run₁ run₂, answered₂ ∙ rw (is_get, entry))
