-- ===== src/Forward/Input.antt =====
-- What the input threads do with a packet that arrives.
use node_identity_architetur.Base.{ℕ, ◌≡◌, refl, true, false, some, [], ◌∷◌, ◌++◌}
use node_identity_architetur.Forward.{NrInput, deliver, nr_input, nr_input_gw}
use node_identity_architetur.Key.{same}
use node_identity_architetur.Mapper.Entries.{Writes, renewed, new_cm_entry-Writes}
use node_identity_architetur.Message.{Packet}
use node_identity_architetur.Nid.{Nid, Nid32, nid_key}
use node_identity_architetur.Run.{ok, Returns}
use node_identity_architetur.Table.View.{IsValid, view}

-- A packet for this host reaches the packet handler, and its sender is known at the address that
-- it came from.
pub record Delivered (now : ℕ) (from : Nid32) (p : Packet) (s s' : NrInput) : Type 0 where
  pub learned :
      Writes s.connmap p.header.src_nid
        (some (renewed now from (view s.connmap p.header.src_nid)))
        s'.connmap
  pub handed : s'.sp_nr2ph ≡ s.sp_nr2ph ++ p ∷ []
  pub routed : s'.sp_nr ≡ s.sp_nr

module _ (now : ℕ) (from : Nid32) (p : Packet) (s : NrInput) (valid : IsValid s.connmap) where
  deliver-Delivered : Returns (deliver now from p s) (Delivered now from p s)
  unfolding deliver
  deliver-Delivered =
      let (t, run, writes) = new_cm_entry-Writes now p.header.src_nid from s.connmap valid in
      (
        record s { connmap = t; sp_nr2ph = s.sp_nr2ph ++ p ∷ [] },
        rw run,
        record { learned = writes; handed = refl; routed = refl },
      )

  -- With a well-formed connection table, both input threads hand a packet for their own identifier
  -- to the packet handler and renew the entry of its sender with the address that it came from. A
  -- packet for another identifier is dropped by `thread_nr_input`, and given to the output thread
  -- by `thread_nr_input_gw`.
  pub nr_input_lem :
      (nid : Nid)
      → (same p.header.dest_nid nid ≡ true
          → Returns (nr_input now nid from p s) (Delivered now from p s)
            × Returns (nr_input_gw now nid from p s) (Delivered now from p s))
        × (same p.header.dest_nid nid ≡ false
            → (nr_input now nid from p s ≡ ok s)
              × (nr_input_gw now nid from p s ≡ ok (record s { sp_nr = s.sp_nr ++ p ∷ [] })))
  unfolding nr_input nr_input_gw
  nr_input_lem nid = (
    λ here. rw here (deliver-Delivered, deliver-Delivered),
    λ elsewhere. rw elsewhere (refl, refl),
  )
