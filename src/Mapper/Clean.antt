-- ===== src/Mapper/Clean.antt =====
-- `cleanCM` and `updateCMconf`: a new configuration forgets the live entries.
use node_identity_architetur.Base.{
  if◌then◌else◌, Bool-cases, inl, inr, ℕ, ◌≡◌, refl, ◌∙◌, false, Option, none, some, List, [], ◌∷◌,
  ◌++◌, arith,
}
use node_identity_architetur.Conn.Enumerate.{live_ip, hash_enumerate_lem, hash_enumerate_again}
use node_identity_architetur.Conn.{ConnEntry, LlNode, hash_enumerate, init_ll}
use node_identity_architetur.Mapper.Entries.{pinned, del_cm_entry-Writes, static_cm_entry-Writes}
use node_identity_architetur.Mapper.{
  Mapper, ConnTable, del_listed, get_all_connections, clean_cm, update_cm_conf,
}
use node_identity_architetur.Chain.{find}
use node_identity_architetur.Config.{Config}
use node_identity_architetur.Mapper.Lookup.{IsMapper}
use node_identity_architetur.Table.Entries.{find-append}
use node_identity_architetur.Key.{same, same_refl}
use node_identity_architetur.Nid.{Nid, Nid32, nid_key}
use node_identity_architetur.Run.{◌>>=◌, Returns}
use node_identity_architetur.Table.View.{IsValid, view}

abbrev pub unless_listed : Option Nid32 → Option ConnEntry → Option ConnEntry
unless_listed none e = e
unless_listed (some ip) e = none

del_listed_lem :
    (ns : List LlNode) (t : ConnTable)
    → IsValid t
    → Returns
        (del_listed ns t)
        λ t'. IsValid t' × ((q : Nid) → view t' q ≡ unless_listed (find q ns) (view t q))
unfolding del_listed find
del_listed_lem [] t valid = (t, refl, (valid, λ q. refl))
del_listed_lem (n ∷ ns) t valid =
    let (t₁, run₁, (valid₁, reads₁)) = del_cm_entry-Writes n.0 t valid in
    let (t₂, run₂, (valid₂, reads₂)) = del_listed_lem ns t₁ valid₁ in
    (t₂, rw run₁ run₂, (valid₂, λ q. ground (arith, reads₁ q, reads₂ q)))

find_twice :
    (q : Nid) (l twice : List LlNode)
    → twice ≡ l ++ l
    → find q (elim l as (λ _. List LlNode) [ [] ↦ [] | n ∷ ns ↦ twice ]) ≡ find q l
find_twice q [] twice e = refl
find_twice q (n ∷ ns) twice e = rw e (find-append q (n ∷ ns) (n ∷ ns) ∙ ground arith)

-- `cleanCM` on a well-formed table deletes the live entries, and no others: an entry that has
-- expired stays.
pub clean_cm_lem :
    (now : ℕ) (t : ConnTable)
    → IsValid t
    → Returns (clean_cm now t) λ t'.
      IsValid t' × ((q : Nid) → view t' q ≡ unless_listed (live_ip now (view t q)) (view t q))
unfolding clean_cm get_all_connections
clean_cm_lem now t valid =
    let (u, reads, sized) = hash_enumerate_lem now t valid in
    let l = (hash_enumerate now t init_ll).next in
    let (t', run, (valid', reads')) = del_listed_lem _ t valid in
    (
      t',
      run,
      (
        valid',
        λ q.
            reads' q
            ∙ rw (
              find_twice q l _ (hash_enumerate_again now t (hash_enumerate now t init_ll)),
              reads q,
            ),
      ),
    )

-- What is left of an entry when the live ones are forgotten.
abbrev pub unless_live : ℕ → Option ConnEntry → Option ConnEntry
unless_live now e = unless_listed (live_ip now e) e

abbrev pub ip_of : Option ConnEntry → Option Nid32
ip_of none = none
ip_of (some ce) = some ce.ip

-- The state after the change of the configuration.
pub record Reconfigured (now : ℕ) (conf : Config) (m m' : Mapper) : Type 0 where
  pub well : IsMapper m'
  pub nidgw : m'.cm_nidgw ≡ conf.nidgw
  pub nidrvs : m'.cm_nidrvs ≡ conf.nidrvs
  pub gateway_ip : m'.cm_gateway_ip ≡ conf.gateway_ip
  pub rvs_ip : m'.cm_rvs_ip ≡ conf.rvs_ip
  pub forgotten :
      (q : Nid)
      → same q conf.nidgw ≡ false
      → same q conf.nidrvs ≡ false
      → live_ip now (view m'.connmap q) ≡ none
  pub rvs : ip_of (view m'.connmap conf.nidrvs) ≡ some conf.rvs_ip
  pub gateway :
      ip_of (view m'.connmap conf.nidgw)
      ≡ some (if same conf.nidgw conf.nidrvs then conf.rvs_ip else conf.gateway_ip)

live_ip-unless_live : (now : ℕ) (e : Option ConnEntry) → live_ip now (unless_live now e) ≡ none
live_ip-unless_live now none = refl
live_ip-unless_live now (some ce) = ground arith

ip_of-pinned : (ip : Nid32) (e : Option ConnEntry) → ip_of (some (pinned ip e)) ≡ some ip
ip_of-pinned ip none = refl
ip_of-pinned ip (some ce) = refl

-- `updateCMconf` on a well-formed state takes over the configuration, forgets every live entry but
-- those of the new gateway and rendezvous server, and gives the server's entry its new address, and
-- the gateway's entry its own too, unless both have one identifier, whose entry then has the server's.
pub update_cm_conf-Reconfigured :
    (now : ℕ) (conf : Config) (m : Mapper)
    → IsMapper m
    → Returns (update_cm_conf now conf m) (Reconfigured now conf m)
unfolding update_cm_conf
update_cm_conf-Reconfigured now conf m is =
    let (t₁, run₁, (valid₁, reads₁)) = del_cm_entry-Writes m.cm_nidgw m.connmap is.conns in
    let (t₂, run₂, (valid₂, reads₂)) = del_cm_entry-Writes m.cm_nidrvs t₁ valid₁ in
    let (t₃, run₃, (valid₃, reads₃)) = clean_cm_lem now t₂ valid₂ in
    let (t₄, run₄, (valid₄, reads₄)) =
      static_cm_entry-Writes conf.nidgw conf.gateway_ip t₃ valid₃ in
    let (t₅, run₅, (valid₅, reads₅)) = static_cm_entry-Writes conf.nidrvs conf.rvs_ip t₄ valid₄ in
    (
      record m {
        connmap = t₅;
        cm_nidgw = conf.nidgw;
        cm_nidrvs = conf.nidrvs;
        cm_gateway_ip = conf.gateway_ip;
        cm_rvs_ip = conf.rvs_ip;
      },
      rw (run₁, ◌>>=◌, run₂, run₃, run₄, run₅),
      record {
        well = record { conns = valid₅; requests = is.requests };
        nidgw = refl;
        nidrvs = refl;
        gateway_ip = refl;
        rvs_ip = refl;
        forgotten = λ q not_gw not_rvs.
            rw (reads₅ q, not_rvs, reads₄ q, not_gw, reads₃ q)
              (live_ip-unless_live now (view t₂ q));
        rvs = rw (reads₅ conf.nidrvs, same_refl conf.nidrvs) (ip_of-pinned conf.rvs_ip _);
        gateway = elim (Bool-cases (same conf.nidgw conf.nidrvs)) [
          | inl one ↦ rw (reads₅ conf.nidgw, one) (ip_of-pinned conf.rvs_ip _)
          | inr apart ↦
              rw (reads₅ conf.nidgw, apart, reads₄ conf.nidgw, same_refl conf.nidgw)
                (ip_of-pinned conf.gateway_ip _)
        ];
      },
    )
