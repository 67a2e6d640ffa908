-- ===== src/Queue/Lock.antt =====
-- When a request counts as pending.
use node_identity_architetur.Base.{
  ◌+◌, ◌≤◌, ◌<◌, ◌≡◌, refl, Bool, true, false, Option, none, some, arith, leb, if◌then◌else◌,
  Bool-cases, Option-cases, inl, inr,
}
use node_identity_architetur.Key.{same_refl}
use node_identity_architetur.Nid.{Nid, nid_key, nid_eq_iff}
use node_identity_architetur.Queue.{
  Clock, RvsqEntry, QueueTable, lock_time, queue, unqueue, is_expired, is_queued,
}
use node_identity_architetur.Run.{◌>>=◌, Returns}
use node_identity_architetur.Table.View.{
  IsValid, view, update, hash_lookup-view, hash_insert_lem, hash_del_lem,
}

-- A well-formed queue: a well-formed table in which each entry names the identifier it stands under.
pub record IsQueue (t : QueueTable) : Type 0 where
  pub valid : IsValid t
  pub keyed : (q : Nid) (re : RvsqEntry) → view t q ≡ some re → re.nid ≡ q

abbrev pub stamped : Clock → Nid → RvsqEntry
stamped now nid = record { nid = nid; tv_sec = now.sec; tv_usec = now.usec }

-- `queue` stores an entry with the time of the clock, and touches no other identifier.
pub queue_lem :
    (now : Clock) (nid : Nid) (t : QueueTable)
    → IsQueue t
    → Returns
        (queue now nid t)
        λ t'. IsQueue t' × ((q : Nid) → view t' q ≡ update (view t) nid (some (stamped now nid)) q)
unfolding queue
queue_lem now nid t is =
    let ((r, t'), run, (returned, valid', reads)) =
      hash_insert_lem t nid (stamped now nid) is.valid in
    (
      t',
      rw run,
      (
        record {
          valid = valid';
          keyed = λ q re e. ground (arith, reads q, is.keyed q re, nid_eq_iff q nid);
        },
        reads,
      ),
    )

pub unqueue_lem :
    (nid : Nid) (t : QueueTable)
    → IsQueue t
    → Returns
        (unqueue nid t)
        λ t'. IsQueue t' × ((q : Nid) → view t' q ≡ update (view t) nid none q)
unfolding unqueue
unqueue_lem nid t is =
    let ((r, t'), run, (returned, valid', reads)) = hash_del_lem t nid is.valid in
    (
      t',
      rw run,
      (record { valid = valid'; keyed = λ q re e. ground (arith, reads q, is.keyed q re) }, reads),
    )

-- What is pending under an entry: it is there, and the microseconds have not gone past its lock.
abbrev pub pending : Clock → Option RvsqEntry → Bool
pending now none = false
pending now (some re) = if is_expired now re then false else true

-- On a well-formed queue `is_queued` answers whether the entry is pending, drops the entry of the
-- identifier if it is not, and changes nothing else.
pub is_queued_lem :
    (now : Clock) (nid : Nid) (t : QueueTable)
    → IsQueue t
    → Returns (is_queued now nid t) λ (answer, t').
      (answer ≡ pending now (view t nid))
      × IsQueue t'
      × ((q : Nid)
          → view t' q ≡ (if pending now (view t nid) then view t q else update (view t) nid none q))
unfolding is_queued
is_queued_lem now nid t is =
    rw (hash_lookup-view t nid is.valid.sized) (elim (Option-cases (view t nid)) [
      | inl absent ↦
          rw (absent, ◌>>=◌) ((false, t), refl, (refl, is, λ q. ground (arith, nid_eq_iff q nid)))
      | inr (re, e) ↦ elim (Bool-cases (is_expired now re)) [
        | inl old ↦
            let (t', run, (is', reads)) = unqueue_lem nid t is in
            rw (e, old, ◌>>=◌) ((false, t'), rw run, (refl, is', reads))
        | inr new ↦
            rw (e, new, ◌>>=◌)
              ((true, t), rw (is.keyed nid re e, same_refl nid), (refl, is, λ q. refl))
      ]
    ])

-- On a well-formed queue, after `queue` at one clock, `isQueued` at another answers true exactly if
-- the microseconds of the second do not exceed those of the first by more than LOCK_TIME, whatever
-- the seconds, and the queue stays well formed.
pub is_queued-queue :
    (c d : Clock) (nid : Nid) (t : QueueTable)
    → IsQueue t
    → Returns
        (queue c nid t >>= is_queued d nid)
        λ (answer, t'). (answer ≡ leb d.usec (c.usec + lock_time)) × IsQueue t'
unfolding is_expired
is_queued-queue c d nid t is =
    let (t₁, run₁, (is₁, reads₁)) = queue_lem c nid t is in
    let ((answer, t₂), run₂, (answers, is₂, reads₂)) = is_queued_lem d nid t₁ is₁ in
    ((answer, t₂), rw run₁ run₂, (rw (answers, reads₁ nid, same_refl nid) (ground arith), is₂))

-- On a well-formed queue, a request queued in the last 150 milliseconds of a second is pending at
-- every later time: no clock with fewer than 1000000 microseconds sees it expire.
pub is_queued_forever :
    (c d : Clock) (nid : Nid) (t : QueueTable)
    → IsQueue t
    → 850000 ≤ c.usec
    → d.usec < 1000000
    → Returns (queue c nid t >>= is_queued d nid) λ (answer, t'). answer ≡ true
is_queued_forever c d nid t is late clock =
    let (r, run, (answers, is')) = is_queued-queue c d nid t is in
    (r, run, rw answers (ground arith))
