-- ===== src/Control/Heard.antt =====
-- What a control message changes.
use mathlib.Core.List.{append-nil}
use node_identity_architetur.Base.{
  ℕ, ◌≡◌, refl, Option, none, some, List, [], ◌∷◌, ◌++◌, arith, ◌==◌, if◌then◌else◌, Bool-cases,
  inl, inr,
}
use node_identity_architetur.Conn.{ConnEntry}
use node_identity_architetur.Control.{ControlState, on_redirect, on_relocate, on_response}
use node_identity_architetur.Mapper.Entries.{
  Writes, renewed, new_cm_entry-Writes, del_cm_entry-Writes,
}
use node_identity_architetur.Mapper.{ConnTable}
use node_identity_architetur.Message.{NidMsg}
use node_identity_architetur.Nid.{Nid, nid_key, nid_eq_iff}
use node_identity_architetur.Queue.Lock.{IsQueue, unqueue_lem}
use node_identity_architetur.Queue.{RvsqEntry}
use node_identity_architetur.Run.{◌>>=◌, Returns}
use node_identity_architetur.Table.{HashTable}
use node_identity_architetur.Table.View.{IsValid, view, update}

pub record IsControl (s : ControlState) : Type 0 where
  pub conns : IsValid s.connmap
  pub requests : IsQueue s.queue_table
  pub registered : IsValid s.registry_table

-- The effect of one message: the entries of its identifier in the three tables, and what is written
-- to the two sockets.
pub record Effect : Type 0 where
  pub conn : Option ConnEntry
  pub request : Option RvsqEntry
  pub registration : Option ConnEntry
  pub co2rvs : List NidMsg
  pub co2gwl : List NidMsg

-- The effect `f` on the entries of `nid`, and no other change.
pub record Heard (nid : Nid) (f : Effect) (s s' : ControlState) : Type 0 where
  pub well : IsControl s'
  pub conns : (q : Nid) → view s'.connmap q ≡ update (view s.connmap) nid f.conn q
  pub requests : (q : Nid) → view s'.queue_table q ≡ update (view s.queue_table) nid f.request q
  pub registrations :
      (q : Nid) → view s'.registry_table q ≡ update (view s.registry_table) nid f.registration q
  pub co2rvs : s'.sp_co2rvs ≡ s.sp_co2rvs ++ f.co2rvs
  pub co2gwl : s'.sp_co2gwl ≡ s.sp_co2gwl ++ f.co2gwl

abbrev pub unchanged : Nid → ControlState → Effect
unchanged nid s = record {
  conn = view s.connmap nid;
  request = view s.queue_table nid;
  registration = view s.registry_table nid;
  co2rvs = [];
  co2gwl = [];
}

module _ {V : Type 0} where
  same_view : (t : HashTable Nid V) (nid q : Nid) → view t q ≡ update (view t) nid (view t nid) q
  same_view t nid q = ground (arith, nid_eq_iff q nid)

-- An address that is not 0 settles the request.
abbrev pub response_effect : ℕ → NidMsg → ControlState → Effect
response_effect now m s = if m.ip == 0 then unchanged m.nid s else record (unchanged m.nid s) {
  conn = some (renewed now m.ip (view s.connmap m.nid));
  request = none;
}

module _ (m : NidMsg) (s : ControlState) (is : IsControl s) where
  pub unchanged-Heard : Heard m.nid (unchanged m.nid s) s s
  unchanged-Heard = record {
    well = is;
    conns = same_view s.connmap m.nid;
    requests = same_view s.queue_table m.nid;
    registrations = same_view s.registry_table m.nid;
    co2rvs = rw append-nil;
    co2gwl = rw append-nil;
  }

  conn-Heard :
      (v : Option ConnEntry) (t : ConnTable)
      → Writes s.connmap m.nid v t
      → Heard m.nid (record (unchanged m.nid s) { conn = v }) s (record s { connmap = t })
  conn-Heard v t (valid, reads) = record {
    well = record { conns = valid; requests = is.requests; registered = is.registered };
    conns = reads;
    requests = same_view s.queue_table m.nid;
    registrations = same_view s.registry_table m.nid;
    co2rvs = rw append-nil;
    co2gwl = rw append-nil;
  }

  pub rvs-Heard :
      Heard m.nid
        (record (unchanged m.nid s) { co2rvs = m ∷ [] })
        s
        (record s { sp_co2rvs = s.sp_co2rvs ++ m ∷ [] })
  rvs-Heard = record {
    well = record { conns = is.conns; requests = is.requests; registered = is.registered };
    conns = same_view s.connmap m.nid;
    requests = same_view s.queue_table m.nid;
    registrations = same_view s.registry_table m.nid;
    co2rvs = refl;
    co2gwl = rw append-nil;
  }

  pub gwl-Heard :
      Heard m.nid
        (record (unchanged m.nid s) { co2gwl = m ∷ [] })
        s
        (record s { sp_co2gwl = s.sp_co2gwl ++ m ∷ [] })
  gwl-Heard = record {
    well = record { conns = is.conns; requests = is.requests; registered = is.registered };
    conns = same_view s.connmap m.nid;
    requests = same_view s.queue_table m.nid;
    registrations = same_view s.registry_table m.nid;
    co2rvs = rw append-nil;
    co2gwl = refl;
  }

  pub registry-Heard :
      (v : Option ConnEntry) (t : ConnTable)
      → Writes s.registry_table m.nid v t
      → Heard m.nid
          (record (unchanged m.nid s) { registration = v })
          s
          (record s { registry_table = t })
  registry-Heard v t (valid, reads) = record {
    well = record { conns = is.conns; requests = is.requests; registered = valid };
    conns = same_view s.connmap m.nid;
    requests = same_view s.queue_table m.nid;
    registrations = reads;
    co2rvs = rw append-nil;
    co2gwl = rw append-nil;
  }

  module _ (now : ℕ) where
    pub on_redirect-Heard : Returns (on_redirect now m s) (
        Heard m.nid
          (record (unchanged m.nid s) { conn = some (renewed now m.ip (view s.connmap m.nid)) })
          s)
    unfolding on_redirect
    on_redirect-Heard =
        let (t, run, writes) = new_cm_entry-Writes now m.nid m.ip s.connmap is.conns in
        (record s { connmap = t }, rw run, conn-Heard _ t writes)

    pub on_relocate-Heard :
        Returns (on_relocate m s) (Heard m.nid (record (unchanged m.nid s) { conn = none }) s)
    unfolding on_relocate
    on_relocate-Heard =
        let (t, run, writes) = del_cm_entry-Writes m.nid s.connmap is.conns in
        (record s { connmap = t }, rw run, conn-Heard none t writes)

    pub on_response-Heard : Returns (on_response now m s) (Heard m.nid (response_effect now m s) s)
    unfolding on_response
    on_response-Heard = elim (Bool-cases (m.ip == 0)) [
      | inl no_ip ↦ rw no_ip (s, refl, unchanged-Heard)
      | inr ip ↦
          let (q, run_q, (isq, reads_q)) = unqueue_lem m.nid s.queue_table is.requests in
          let (t, run, (valid, reads)) = new_cm_entry-Writes now m.nid m.ip s.connmap is.conns in
          rw (ip, ◌>>=◌, run_q, run)
            (
              record s { queue_table = q; connmap = t },
              refl,
              record {
                well = record { conns = valid; requests = isq; registered = is.registered };
                conns = reads;
                requests = reads_q;
                registrations = same_view s.registry_table m.nid;
                co2rvs = rw append-nil;
                co2gwl = rw append-nil;
              },
            )
    ]
