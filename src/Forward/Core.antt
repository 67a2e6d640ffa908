-- ===== src/Forward/Core.antt =====
-- The order in which the core gateway asks its tables.
use mathlib.Core.List.{append-nil}
use node_identity_architetur.Base.{
  ◌≡◌, ◌⊎◌, refl, ◌∙◌, ap, Bool, true, false, Option, none, some, List, [], ◌∷◌, ◌++◌, arith,
  if◌then◌else◌, Bool-cases, inl, inr,
}
use node_identity_architetur.Conn.{ConnEntry}
use node_identity_architetur.Dht.Entries.{answered, get_dht_entry_lem}
use node_identity_architetur.Forward.Output.{
  IsNr, ask_cm_lem, ask_rt_lem, sendto-IsNr, known_age, mapped, routed,
}
use node_identity_architetur.Forward.{
  NrState, sendto, ask_registry, ask_dht_entry, nr_output_core_route, nr_output_core_own,
}
use node_identity_architetur.Mapper.Lookup.{is_hit}
use node_identity_architetur.Message.{Packet}
use node_identity_architetur.Nid.{Nid32, nid_key}
use node_identity_architetur.Queue.{Clock}
use node_identity_architetur.Registry.Entries.{registered, get_registry_lem}
use node_identity_architetur.Run.{Run, ok, ◌>>=◌, Returns}
use node_identity_architetur.Table.View.{view}

-- The first table with an address: the routing table and the registry for the identifier, then the
-- distributed table for its gateway.
abbrev pub first_of_three : Bool × Nid32 → Bool × Nid32 → Bool × Nid32 → Option Nid32
first_of_three (true, ip) b c = some ip
first_of_three (false, _) (true, ip) c = some ip
first_of_three (false, _) (false, _) (true, ip) = some ip
first_of_three (false, _) (false, _) (false, _) = none

abbrev pub core_hop : Clock → Packet → NrState → Option Nid32
core_hop now p s =
    first_of_three (routed now p.header.dest_nid s) (registered (view s.registry p.header.dest_nid))
      (answered 0 (view s.dht.dhtable p.header.dest_nid_gw))

abbrev pub sent_to : Option Nid32 → Packet → List (Nid32 × Packet)
sent_to none p = []
sent_to (some ip) p = (ip, p) ∷ []

-- The state is well formed, and the packet has been sent along the hop, if there is one.
pub record Sent (p : Packet) (s : NrState) (hop : Option Nid32) (s' : NrState) : Type 0 where
  pub well : IsNr s'
  pub sent : s'.sent ≡ s.sent ++ sent_to hop p

answer_cases :
    (x : Bool × Nid32) → ((ip : Nid32) × (x ≡ (true, ip))) ⊎ ((ip : Nid32) × (x ≡ (false, ip)))
answer_cases (true, ip) = inl (ip, refl)
answer_cases (false, ip) = inr (ip, refl)

registered_miss : (e : Option ConnEntry) (ip : Nid32) → registered e ≡ (false, ip) → ip ≡ 0
registered_miss none ip h = ground arith
registered_miss (some ce) ip h = ground arith

module _ (now : Clock) (p : Packet) where
  -- The last stage of the walk, and the last two.
  dht_stage : NrState → Run NrState
  dht_stage s₂ = do
    (answered, s₃) ← ask_dht_entry now p.header.dest_nid_gw s₂
    if answered then ok (sendto p s₃) else ok s₃

  registry_stage : NrState → Run NrState
  unfolding dht_stage
  registry_stage s₁ = do
    (known, s₂) ← ask_registry p.header.dest_nid s₁
    if known then ok (sendto p s₂) else dht_stage s₂

  dht_stage-Sent :
      (s : NrState)
      → IsNr s
      → Returns (dht_stage s) (
          Sent p s (
            first_of_three
              (false, 0)
              (false, 0)
              (answered s.peer (view s.dht.dhtable p.header.dest_nid_gw))))
  unfolding dht_stage ask_dht_entry
  dht_stage-Sent s is =
      let ((a, d), run, (answers, is', kept, sends)) =
        get_dht_entry_lem now p.header.dest_nid_gw s.dht is.dht s.peer in
      let well : (ip : Nid32) → IsNr (record s { dht = d; peer = ip }) =
        λ ip. record { cm = is.cm; rt = is.rt; registry = is.registry; dht = is' } in
      elim (answer_cases (answered s.peer (view s.dht.dhtable p.header.dest_nid_gw))) [
        | inl (ip, e) ↦
            rw (run, ◌>>=◌, answers, e, first_of_three)
              (
                sendto p (record s { dht = d; peer = ip }),
                refl,
                record {
                  well = sendto-IsNr p (record s { dht = d; peer = ip }) (well ip);
                  sent = unfold sendto in refl;
                },
              )
        | inr (ip, e) ↦
            rw (run, ◌>>=◌, answers, e, first_of_three)
              (
                record s { dht = d; peer = ip },
                refl,
                record { well = well ip; sent = rw append-nil },
              )
      ]

  registry_stage-Sent :
      (s : NrState)
      → IsNr s
      → Returns (registry_stage s) (
          Sent p s (
            first_of_three
              (false, 0)
              (registered (view s.registry p.header.dest_nid))
              (answered 0 (view s.dht.dhtable p.header.dest_nid_gw))))
  unfolding registry_stage ask_registry
  registry_stage-Sent s is =
      let answers = get_registry_lem p.header.dest_nid s.registry is.registry in
      elim (answer_cases (registered (view s.registry p.header.dest_nid))) [
        | inl (ip, e) ↦
            rw (answers, ◌>>=◌, e, first_of_three)
              (
                sendto p (record s { peer = ip }),
                refl,
                record {
                  well =
                      sendto-IsNr p (record s { peer = ip })
                        (record { cm = is.cm; rt = is.rt; registry = is.registry; dht = is.dht });
                  sent = unfold sendto in refl;
                },
              )
        | inr (ip, e) ↦
            let cleared : registered (view s.registry p.header.dest_nid) ≡ (false, 0) =
              e
              ∙ ap (λ (x : Nid32). (false, x))
                  (registered_miss (view s.registry p.header.dest_nid) ip e) in
            let (s', run', sent) =
              dht_stage-Sent (record s { peer = 0 })
                (record { cm = is.cm; rt = is.rt; registry = is.registry; dht = is.dht }) in
            rw (answers, ◌>>=◌, cleared, first_of_three)
              (s', run', record { well = sent.well; sent = sent.sent })
      ]

  -- On a well-formed state, `thread_nr_output_core` sends a packet that it routes to the address of
  -- the first of three answers, the routing table's and the registry's for the destination and the
  -- distributed table's for the destination's gateway, or drops it if none has an address. The
  -- state stays well formed.
  pub nr_output_core_route-Sent :
      (s : NrState) → IsNr s → Returns (nr_output_core_route now p s) (Sent p s (core_hop now p s))
  unfolding nr_output_core_route registry_stage dht_stage
  nr_output_core_route-Sent s is =
      let ((found, s₁), run, after) = ask_rt_lem now p.header.dest_nid s is in
      elim (answer_cases (routed now p.header.dest_nid s)) [
        | inl (ip, e) ↦
            let hit : found ≡ true = ap (λ (x : Bool × Nid32). x.0) (after.answers ∙ e) in
            rw (run, ◌>>=◌, hit, e, first_of_three)
              (
                sendto p s₁,
                refl,
                record {
                  well = sendto-IsNr p s₁ after.well;
                  sent =
                      unfold sendto in
                      rw (after.sent, ap (λ (x : Bool × Nid32). x.1) (after.answers ∙ e));
                },
              )
        | inr (ip, e) ↦
            let miss : found ≡ false = ap (λ (x : Bool × Nid32). x.0) (after.answers ∙ e) in
            let (s', run', sent) = registry_stage-Sent s₁ after.well in
            rw (run, ◌>>=◌, miss, e, first_of_three)
              (
                s',
                run',
                record {
                  well = sent.well;
                  sent = sent.sent ∙ rw (after.sent, after.registry, after.dht);
                },
              )
      ]

  -- On a well-formed state, `thread_nr_output_core` sends a packet of the core gateway's own to the
  -- address of the connection map if that has a usable entry for the destination, and else as it
  -- routes. The state stays well formed.
  pub nr_output_core_own-Sent :
      (s : NrState)
      → IsNr s
      → Returns (nr_output_core_own now p s) (
          Sent p s (
            if is_hit (known_age now p.header.dest_nid s)
            then some (mapped now p.header.dest_nid s)
            else core_hop now p s))
  unfolding nr_output_core_own
  nr_output_core_own-Sent s is =
      let ((hit, s₁), run, after) = ask_cm_lem now p.header.dest_nid s is in
      elim (Bool-cases (is_hit (known_age now p.header.dest_nid s))) [
        | inl known ↦
            rw (run, ◌>>=◌, after.hits, known)
              (
                sendto p s₁,
                refl,
                record {
                  well = sendto-IsNr p s₁ after.well;
                  sent = unfold sendto in rw (after.sent, after.peer);
                },
              )
        | inr unknown ↦
            let (s', run', sent) = nr_output_core_route-Sent s₁ after.well in
            rw (run, ◌>>=◌, after.hits, unknown)
              (
                s',
                run',
                record {
                  well = sent.well;
                  sent = sent.sent ∙ rw (after.sent, after.rt, after.registry, after.dht);
                },
              )
      ]
