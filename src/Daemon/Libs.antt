-- ===== src/Daemon/Libs.antt =====
-- What the start of a role does to the tables, and to the array of libraries.
use mathlib.Core.List.{append-nil}
use node_identity_architetur.Base.{
  ◌+◌, ◌<◌, ◌≤◌, ◌≡◌, ◌∙◌, sym, ap, refl, Bool, true, List, [], ◌∷◌, ◌++◌, arith, ltb, length,
  length-append,
}
use node_identity_architetur.Config.{Config}
use node_identity_architetur.Daemon.{
  NodeType, node_role, rvs_role, gateway_role, core_role, Thread, dhcp_thr, Daemon, Switches,
  open_lib, start_threads, static_entries, static_routes, later_threads,
}
use node_identity_architetur.Mapper.Entries.{static_cm_entry-Writes}
use node_identity_architetur.Names.Entries.{IsNidMapper, new_nm_entry-Named}
use node_identity_architetur.Nid.{nid_key}
use node_identity_architetur.Routing.{static_rt_entry}
use node_identity_architetur.Run.{ok, ◌>>=◌, Returns}
use node_identity_architetur.Table.View.{IsValid}

pub record IsDaemon (d : Daemon) : Type 0 where
  pub names : IsNidMapper d.names
  pub conns : IsValid d.connmap
  pub routes : IsValid d.rt.rtable

-- What a role starts.
abbrev pub threads_of : Switches → NodeType → List Thread
threads_of sw node_role = dhcp_thr ∷ later_threads sw node_role
threads_of sw rvs_role = later_threads sw rvs_role
threads_of sw gateway_role = dhcp_thr ∷ later_threads sw gateway_role
threads_of sw core_role = later_threads sw core_role

append-∷ : (a b : List Thread) (x : Thread) → (a ++ x ∷ []) ++ b ≡ a ++ x ∷ b
append-∷ [] b x = refl
append-∷ (y ∷ a) b x = ap (y ∷◌) (append-∷ a b x)

module _ (found : Thread → Bool) (all : (t : Thread) → found t ≡ true) where
  pub open_lib_lem :
      (t : Thread) (d : Daemon)
      → length d.lib_db < 12
      → open_lib found t d ≡ ok (record d { lib_db = d.lib_db ++ t ∷ [] })
  unfolding open_lib
  open_lib_lem t d room =
      let fits : ltb (length d.lib_db) 12 ≡ true = ground (arith, room) in rw (all t, fits)

  pub start_threads_lem :
      (ts : List Thread) (d : Daemon)
      → length d.lib_db + length ts ≤ 12
      → Returns (start_threads found ts d) λ d'.
        (d'.lib_db ≡ d.lib_db ++ ts)
        × (d'.names ≡ d.names)
        × (d'.connmap ≡ d.connmap)
        × (d'.rt ≡ d.rt)
  unfolding start_threads
  start_threads_lem [] d room = (d, refl, (sym (append-nil d.lib_db), refl, refl, refl))
  start_threads_lem (t ∷ ts) d room =
      let d₁ : Daemon = record d { lib_db = d.lib_db ++ t ∷ [] } in
      let (d', run, (db, names, conns, routes)) =
        start_threads_lem ts d₁ (omega (arith, room, length-append d.lib_db (t ∷ []))) in
      (
        d',
        rw (open_lib_lem t d (omega (arith, room)), ◌>>=◌) run,
        (db ∙ append-∷ d.lib_db ts t, names, conns, routes),
      )

-- The tables stay well formed, and no library is opened.
abbrev pub SetUp : Daemon → Daemon → Type 0
SetUp d d' = IsDaemon d' × (d'.lib_db ≡ d.lib_db)

pub static_entries_lem :
    (conf : Config) (d : Daemon) → IsDaemon d → Returns (static_entries conf d) (SetUp d)
unfolding static_entries
static_entries_lem conf d is =
    let (names, run, named) = new_nm_entry-Named conf.nidrvs conf.nidcore d.names is.names in
    let (t, run₁, (valid, reads)) =
      static_cm_entry-Writes conf.nidrvs conf.rvs_ip d.connmap is.conns in
    let (t', run₂, (valid', reads')) = static_cm_entry-Writes conf.nidgw conf.gateway_ip t valid in
    rw (run, ◌>>=◌, run₁, run₂)
      (
        record d { names = names; connmap = t' },
        refl,
        (record { names = named.well; conns = valid'; routes = is.routes }, refl),
      )

pub static_routes_lem :
    (conf : Config) (d : Daemon) → IsDaemon d → Returns (static_routes conf d) (SetUp d)
unfolding static_routes static_rt_entry
static_routes_lem conf d is =
    let (t, run₁, (valid, reads)) =
      static_cm_entry-Writes conf.nidrvs conf.rvs_ip d.rt.rtable is.routes in
    let (t', run₂, (valid', reads')) = static_cm_entry-Writes conf.nidgw conf.gateway_ip t valid in
    rw (run₁, ◌>>=◌, run₂)
      (
        record d { rt = record d.rt { rtable = t' } },
        refl,
        (record { names = is.names; conns = is.conns; routes = valid' }, refl),
      )
