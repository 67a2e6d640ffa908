-- ===== src/Mapper/Lookup.antt =====
-- `getCMEntry`: every branch, and what a miss leaves behind.
use node_identity_architetur.Base.{
  ℕ, ◌+◌, ◌<◌, ◌≡◌, refl, Bool, true, false, ◌||◌, Option, none, some, List, [], ◌∷◌, ◌++◌, arith,
  ◌==◌, ltb, if◌then◌else◌, Bool-cases, Option-cases, inl, inr,
}
use mathlib.Core.List.{append-nil}
use node_identity_architetur.Conn.{ConnEntry, rvs_update_timeout, rvs_proactive}
use node_identity_architetur.Mapper.Entries.{Writes, new_cm_entry-Writes, del_cm_entry-Writes}
use node_identity_architetur.Mapper.{Mapper, ConnTable, resolve, ask_again, get_cm_entry}
use node_identity_architetur.Nid.{Nid, Nid32, nid_key, nid_eq_iff}
use node_identity_architetur.Queue.Lock.{IsQueue, pending, queue_lem, is_queued_lem}
use node_identity_architetur.Queue.{Clock}
use node_identity_architetur.Run.{◌>>=◌, Returns}
use node_identity_architetur.Table.View.{IsValid, view, update, hash_lookup-view}

-- The state is well formed.
pub record IsMapper (m : Mapper) : Type 0 where
  pub conns : IsValid m.connmap
  pub requests : IsQueue m.queue_table

-- An entry is good (static, or young), due (about to expire), or gone (expired or absent).
pub data Age : Type 0 where
  good due gone : Age

abbrev pub age : ℕ → Option ConnEntry → Age
age now none = gone
age now (some ce) =
    if (ce.tstamp == 0) || ltb now (ce.tstamp + rvs_proactive)
    then good
    else if ltb now (ce.tstamp + rvs_update_timeout)
    then due
    else gone

-- The address that the entry answers with, or else the gateway's.
abbrev pub answer_ip : Nid32 → Age → Option ConnEntry → Nid32
answer_ip gw a none = gw
answer_ip gw gone (some ce) = gw
answer_ip gw good (some ce) = ce.ip
answer_ip gw due (some ce) = ce.ip

abbrev pub is_hit : Age → Bool
is_hit gone = false
is_hit _ = true

-- What `sp_cm2rvs` receives.
abbrev pub asked : Age → Bool → Nid → List Nid
asked good queued nid = []
asked due queued nid = if queued then [] else nid ∷ []
asked gone queued nid = nid ∷ []

-- The entry of the identifier afterwards.
abbrev pub kept : ℕ → Nid32 → Age → Option ConnEntry → Option ConnEntry
kept now gw good e = e
kept now gw due e = e
kept now gw gone e = some (record { ip = gw; tstamp = now })

-- The result and the state after a lookup that met the entry `e` of age `a`.
pub record Answers (now : Clock) (nid : Nid) (m : Mapper) (e : Option ConnEntry) (a : Age)
    (r : (Bool × Nid32) × Mapper) : Type 0 where
  pub hit : r.0.0 ≡ is_hit a
  pub ip : r.0.1 ≡ answer_ip m.cm_gateway_ip a e
  pub well : IsMapper r.1
  pub reads :
      (q : Nid)
      → view r.1.connmap q ≡ update (view m.connmap) nid (kept now.sec m.cm_gateway_ip a e) q
  pub sends : r.1.sp_cm2rvs ≡ m.sp_cm2rvs ++ asked a (pending now (view m.queue_table nid)) nid
  pub gateway : r.1.cm_gateway_ip ≡ m.cm_gateway_ip

module _ (now : Clock) (nid : Nid) (m : Mapper) (is : IsMapper m) where
  resolve-Answers :
      (e : Option ConnEntry) (t : ConnTable)
      → Writes m.connmap nid none t
      → Returns (resolve now.sec nid (record m { connmap = t })) (Answers now nid m e gone)
  unfolding resolve
  resolve-Answers e t (valid, reads) =
      let (t', run, (valid', reads')) = new_cm_entry-Writes now.sec nid m.cm_gateway_ip t valid in
      (
        ((false, m.cm_gateway_ip), record m { connmap = t'; sp_cm2rvs = m.sp_cm2rvs ++ nid ∷ [] }),
        rw run,
        record {
          hit = refl;
          ip = ground arith;
          well = record { conns = valid'; requests = is.requests };
          reads = λ q. ground (arith, reads q, reads nid, reads' q, nid_eq_iff nid nid);
          sends = refl;
          gateway = refl;
        },
      )

  ask_again_lem : Returns (ask_again now nid m) λ m'.
      IsMapper m'
      × (m'.connmap ≡ m.connmap)
      × (m'.sp_cm2rvs ≡ m.sp_cm2rvs ++ asked due (pending now (view m.queue_table nid)) nid)
      × (m'.cm_gateway_ip ≡ m.cm_gateway_ip)
  unfolding ask_again
  ask_again_lem =
      let ((queued, q), run, (answers, isq, reads)) =
        is_queued_lem now nid m.queue_table is.requests in
      elim (Bool-cases (pending now (view m.queue_table nid))) [
        | inl held ↦ (
          record m { queue_table = q },
          rw (run, ◌>>=◌, answers, held),
          (record { conns = is.conns; requests = isq }, refl, rw (held, append-nil), refl),
        )
        | inr free ↦
            let (q', run', (isq', reads')) = queue_lem now nid q isq in
            (
              record m { queue_table = q'; sp_cm2rvs = m.sp_cm2rvs ++ nid ∷ [] },
              rw (run, ◌>>=◌, answers, free, run'),
              (record { conns = is.conns; requests = isq' }, refl, rw free, refl),
            )
      ]

  -- On a well-formed state `getCMEntry` answers 1 with the address of a good or due entry, and 0
  -- with the gateway's address otherwise. A good entry is left alone; one that is due is asked for
  -- again unless a request is pending; one that is gone is replaced by an entry for the gateway,
  -- and asked for. No other identifier's entry changes.
  pub get_cm_entry-Answers :
      Returns
        (get_cm_entry now nid m)
        (Answers now nid m (view m.connmap nid) (age now.sec (view m.connmap nid)))
  unfolding get_cm_entry
  get_cm_entry-Answers =
      rw (hash_lookup-view m.connmap nid is.conns.sized) (elim (Option-cases (view m.connmap nid)) [
        | inl absent ↦
            rw (absent, ◌>>=◌)
              (resolve-Answers none m.connmap (is.conns, λ q. ground (arith, nid_eq_iff q nid)))
        | inr (ce, e) ↦
            elim (Bool-cases ((ce.tstamp == 0) || ltb now.sec (ce.tstamp + rvs_proactive))) [
              | inl young ↦
                  rw (e, ◌>>=◌, young)
                    (
                      ((true, ce.ip), m),
                      refl,
                      record {
                        hit = refl;
                        ip = refl;
                        well = is;
                        reads = λ q. ground (arith, nid_eq_iff q nid);
                        sends = rw append-nil;
                        gateway = refl;
                      },
                    )
              | inr old ↦ elim (Bool-cases (ltb now.sec (ce.tstamp + rvs_update_timeout))) [
                | inl late ↦
                    let (m', run, (is', same_map, sends, gateway)) = ask_again_lem in
                    rw (e, ◌>>=◌, old, late)
                      (
                        ((true, ce.ip), m'),
                        rw run,
                        record {
                          hit = refl;
                          ip = refl;
                          well = is';
                          reads = λ q. ground (arith, nid_eq_iff q nid);
                          sends = sends;
                          gateway = gateway;
                        },
                      )
                | inr expired ↦
                    let (t, run, writes) = del_cm_entry-Writes nid m.connmap is.conns in
                    rw (e, ◌>>=◌, old, expired, run) (resolve-Answers (some ce) t writes)
              ]
            ]
      ])

-- On a well-formed state without a usable entry for the identifier, `getCMEntry` answers 0 with the
-- gateway's address, and a second lookup less than RVS_PROACTIVE seconds later answers 1 with the
-- gateway's address.
pub get_cm_entry_after_miss :
    (now later : Clock) (nid : Nid) (m : Mapper)
    → IsMapper m
    → age now.sec (view m.connmap nid) ≡ gone
    → later.sec < now.sec + rvs_proactive
    → Returns (get_cm_entry now nid m) (λ (r, m').
      (r ≡ (false, m.cm_gateway_ip))
      × Returns (get_cm_entry later nid m') (λ (r', m''). r' ≡ (true, m.cm_gateway_ip)))
get_cm_entry_after_miss now later nid m is miss soon =
    let ((r, m'), run, first) = get_cm_entry-Answers now nid m is in
    let ((r', m''), run', second) = get_cm_entry-Answers later nid m' first.well in
    let entry : view m'.connmap nid ≡ some (record { ip = m.cm_gateway_ip; tstamp = now.sec }) =
      ground (arith, first.reads nid, nid_eq_iff nid nid) in
    let young : age later.sec (view m'.connmap nid) ≡ good = rw entry (ground arith) in
    (
      (r, m'),
      run,
      (
        ground (arith, first.hit, first.ip),
        ((r', m''), run', ground (arith, second.hit, second.ip)),
      ),
    )
