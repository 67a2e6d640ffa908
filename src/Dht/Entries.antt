-- ===== src/Dht/Entries.antt =====
-- What `getDHTEntry` answers and asks for, and that an answer serves the next lookup.
use mathlib.Core.List.{append-nil}
use node_identity_architetur.Base.{
  ◌≡◌, refl, ◌∙◌, Bool, true, false, Option, none, some, List, [], ◌∷◌, ◌++◌, ◌==◌, if◌then◌else◌,
  Bool-cases, Option-cases, inl, inr,
}
use node_identity_architetur.Conn.{ConnEntry}
use node_identity_architetur.Dht.{Dht, add_dht_entry, ask_dht, get_dht_entry, dht_answered}
use node_identity_architetur.DhtQueue.{dht_queue, dht_unqueue, is_dht_queued}
use node_identity_architetur.Key.{same_refl}
use node_identity_architetur.Mapper.Entries.{store-Writes}
use node_identity_architetur.Nid.{Nid, Nid32, nid_key}
use node_identity_architetur.Queue.Lock.{IsQueue, pending, queue_lem, unqueue_lem, is_queued_lem}
use node_identity_architetur.Queue.{Clock}
use node_identity_architetur.Run.{◌>>=◌, Returns}
use node_identity_architetur.Table.View.{IsValid, view, update, hash_lookup-view}

pub record IsDht (d : Dht) : Type 0 where
  pub known : IsValid d.dhtable
  pub requests : IsQueue d.dht_queue_table

-- A request goes out unless one is pending.
abbrev pub requested : Bool → Nid → List Nid
requested true nid = []
requested false nid = nid ∷ []

-- What a lookup answers, given the entry: the address if it is not 0, else 0 and `*dst` kept.
abbrev pub answered : Nid32 → Option ConnEntry → Bool × Nid32
answered dst none = (false, dst)
answered dst (some ce) = if ce.ip == 0 then (false, dst) else (true, ce.ip)

module _ (now : Clock) (nid : Nid) (d : Dht) (is : IsDht d) where
  ask_dht_lem : Returns (ask_dht now nid d) λ d'.
      IsDht d'
      × (d'.dhtable ≡ d.dhtable)
      × (d'.sp_dht ≡ d.sp_dht ++ requested (pending now (view d.dht_queue_table nid)) nid)
  unfolding ask_dht is_dht_queued dht_queue
  ask_dht_lem =
      let ((queued, q), run, (answers, isq, reads)) =
        is_queued_lem now nid d.dht_queue_table is.requests in
      elim (Bool-cases (pending now (view d.dht_queue_table nid))) [
        | inl held ↦ (
          record d { dht_queue_table = q },
          rw (run, ◌>>=◌, answers, held),
          (record { known = is.known; requests = isq }, refl, rw (held, append-nil)),
        )
        | inr free ↦
            let (q', run', (isq', reads')) = queue_lem now nid q isq in
            (
              record d { dht_queue_table = q'; sp_dht = d.sp_dht ++ nid ∷ [] },
              rw (run, ◌>>=◌, answers, free, run'),
              (record { known = is.known; requests = isq' }, refl, rw free),
            )
      ]

  -- `getDHTEntry` on a well-formed state answers 1 with an address that is known and not 0, and
  -- then changes nothing; else it answers 0, keeps `*dst`, and sends one request unless one is
  -- pending. The table stays as it is.
  pub get_dht_entry_lem :
      (dst : Nid32)
      → Returns (get_dht_entry now nid dst d) λ (a, d').
        (a ≡ answered dst (view d.dhtable nid))
        × IsDht d'
        × (d'.dhtable ≡ d.dhtable)
        × (d'.sp_dht
            ≡ d.sp_dht
              ++ (if a.0 then [] else requested (pending now (view d.dht_queue_table nid)) nid))
  unfolding get_dht_entry
  get_dht_entry_lem dst = rw (hash_lookup-view d.dhtable nid is.known.sized) (
      let (d', run, (is', kept, sends)) = ask_dht_lem in
      elim (Option-cases (view d.dhtable nid)) [
        | inl absent ↦ rw (absent, ◌>>=◌, run) (((false, dst), d'), refl, (refl, is', kept, sends))
        | inr (ce, e) ↦ elim (Bool-cases (ce.ip == 0)) [
          | inl zero_ip ↦
              rw (e, ◌>>=◌, zero_ip, run) (((false, dst), d'), refl, (refl, is', kept, sends))
          | inr some_ip ↦
              rw (e, ◌>>=◌, some_ip) (((true, ce.ip), d), refl, (refl, is, refl, rw append-nil))
        ]
      ])

  pub dht_answered_lem :
      (ip : Nid32)
      → Returns (dht_answered now.sec nid ip d) λ d'.
        IsDht d'
        × ((q : Nid)
            → view d'.dhtable q
              ≡ update (view d.dhtable) nid (some (record { ip = ip; tstamp = now.sec })) q)
        × (pending now (view d'.dht_queue_table nid) ≡ false)
  unfolding dht_answered dht_unqueue add_dht_entry
  dht_answered_lem ip =
      let (q, run, (isq, reads)) = unqueue_lem nid d.dht_queue_table is.requests in
      let (t, run', (known, reads')) =
        store-Writes nid (record { ip = ip; tstamp = now.sec }) d.dhtable is.known in
      (
        record d { dhtable = t; dht_queue_table = q },
        rw (run, ◌>>=◌, run'),
        (record { known = known; requests = isq }, reads', rw (reads nid, same_refl nid)),
      )

-- On a well-formed state, once the distributed table has answered for an identifier with an address
-- that is not 0, `getDHTEntry` answers 1 with that address at any later time, and asks for nothing.
pub get_dht_entry_after_answer :
    (now later : Clock) (nid : Nid) (ip dst : Nid32) (d : Dht)
    → IsDht d
    → (ip == 0) ≡ false
    → Returns (dht_answered now.sec nid ip d) (λ d'.
      Returns
        (get_dht_entry later nid dst d')
        (λ (a, d''). (a ≡ (true, ip)) × (d''.sp_dht ≡ d'.sp_dht)))
get_dht_entry_after_answer now later nid ip dst d is known =
    let (d', run, (is', reads, freed)) = dht_answered_lem now nid d is ip in
    let ((a, d''), run', (answers, is'', kept, sends)) = get_dht_entry_lem later nid d' is' dst in
    let answer : a ≡ (true, ip) = answers ∙ rw (reads nid, same_refl nid, known) in
    (d', run, ((a, d''), run', (answer, sends ∙ rw (answer, append-nil))))
