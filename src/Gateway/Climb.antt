-- ===== src/Gateway/Climb.antt =====
-- What a registration leaves behind at each gateway that it passes.
use node_identity_architetur.Base.{
  ℕ, ◌+◌, ◌<◌, ◌≡◌, refl, ◌∙◌, true, false, Option, none, some, [], ◌∷◌, ◌++◌, arith, ◌==◌,
  if◌then◌else◌, Bool-cases, inl, inr,
}
use node_identity_architetur.Config.{Config}
use node_identity_architetur.Conn.{ConnEntry, gateway_timeout}
use node_identity_architetur.Control.Heard.{IsControl}
use node_identity_architetur.Control.Roles.{control_gw_core-Heard}
use node_identity_architetur.Control.{ControlState, control_gw_core}
use node_identity_architetur.Gateway.{
  GwState, gw_listener, gw_core_listener, redirect_to_home, registration, gw_talker,
}
use node_identity_architetur.Key.{same, same_refl}
use node_identity_architetur.Mapper.Entries.{Writes, renewed, pinned, new_cm_entry-Writes}
use node_identity_architetur.Message.{NidMsg, registry}
use node_identity_architetur.Nid.{Nid, Nid32, nid_key}
use node_identity_architetur.Registry.Entries.{
  add_registry-Writes, get_registry_lem, registered-pinned,
}
use node_identity_architetur.Registry.{get_registry}
use node_identity_architetur.Routing.Table.{route, get_rt_entry_lem}
use node_identity_architetur.Routing.{Routing, new_rt_entry, get_rt_entry}
use node_identity_architetur.Run.{ok, ◌>>=◌, Returns}
use node_identity_architetur.Table.View.{IsValid, view, update}

pub record IsGw (s : GwState) : Type 0 where
  pub routes : IsValid s.rt.rtable
  pub registrations : IsValid s.registry_table

pub new_rt_entry-Writes :
    (now : ℕ) (nid : Nid) (ip : Nid32) (r : Routing)
    → IsValid r.rtable
    → Returns (new_rt_entry now nid ip r) λ r'.
      Writes r.rtable nid (some (renewed now ip (view r.rtable nid))) r'.rtable
      × (r'.gateway_ip ≡ r.gateway_ip)
unfolding new_rt_entry
new_rt_entry-Writes now nid ip r valid =
    let (t, run, writes) = new_cm_entry-Writes now nid ip r.rtable valid in
    (record r { rtable = t }, rw run, (writes, refl))

-- A route that a gateway has not got as static is the last registered address.
pub route-renewed :
    (now later gw ip : ℕ) (e : Option ConnEntry)
    → ((ce : ConnEntry) → e ≡ some ce → (ce.tstamp == 0) ≡ false)
    → (ip == 0) ≡ false
    → later < now + gateway_timeout
    → route later gw (some (renewed now ip e)) ≡ (true, ip)
route-renewed now later gw ip none dynamic known soon = ground arith
route-renewed now later gw ip (some ce) dynamic known soon = rw (dynamic ce refl) (ground arith)

-- A gateway on a well-formed state that hears a registration of a node without a static route
-- there, from an address that is not 0, hands the message to its talker, stays well formed, and
-- routes packets for the node to that address for GATEWAY_TIMEOUT seconds.
pub gw_listener_routes :
    (now later : ℕ) (m : NidMsg) (s : GwState)
    → IsGw s
    → ((ce : ConnEntry) → view s.rt.rtable m.nid ≡ some ce → (ce.tstamp == 0) ≡ false)
    → (m.ip == 0) ≡ false
    → later < now + gateway_timeout
    → Returns (gw_listener now m s) λ s'.
      IsGw s'
      × (s'.sp_gwl2gwt ≡ s.sp_gwl2gwt ++ m ∷ [])
      × Returns (get_rt_entry later m.nid s'.rt) (λ (a, r). a ≡ (true, m.ip))
unfolding gw_listener
gw_listener_routes now later m s is dynamic known soon =
    let (rt, run, ((valid, reads), same_gw)) = new_rt_entry-Writes now m.nid m.ip s.rt is.routes in
    let ((a, r), run_get, (answers, writes', same)) = get_rt_entry_lem later m.nid rt valid in
    (
      record s { rt = rt; sp_gwl2gwt = s.sp_gwl2gwt ++ m ∷ [] },
      rw run,
      (
        record { routes = valid; registrations = is.registrations },
        refl,
        (
          (a, r),
          run_get,
          answers
              ∙ rw (reads m.nid, same_refl m.nid)
                  (route-renewed now later rt.gateway_ip m.ip (view s.rt.rtable m.nid) dynamic known
                    soon),
        ),
      ),
    )

-- On a well-formed state with both of the talker's sockets empty, a message of the listener leaves
-- the talker as a REGISTRY to the next gateway, of the same node, at the gateway's own address.
pub gw_talker-gw_listener :
    (now : ℕ) (conf : Config) (locator : Nid32) (m : NidMsg) (s : GwState)
    → IsGw s
    → s.sp_rvs2gwt ≡ []
    → s.sp_gwl2gwt ≡ []
    → Returns (gw_listener now m s) λ s'.
      (gw_talker conf locator s').sp_gwt2ph
      ≡ s.sp_gwt2ph ++ record m { type = registry; dest_nid = conf.nidgw; ip = locator } ∷ []
unfolding gw_listener gw_talker registration
gw_talker-gw_listener now conf locator m s is idle idle' =
    let (rt, run, rest) = new_rt_entry-Writes now m.nid m.ip s.rt is.routes in
    (record s { rt = rt; sp_gwl2gwt = s.sp_gwl2gwt ++ m ∷ [] }, rw run, rw (idle, idle'))

-- On a well-formed state the core gateway's listener renews the route of a registration's
-- identifier. If the registration names this core gateway as the source's, the identifier's
-- registry entry gets the address 0 and nothing is sent; if not, a REDIRECT_CORE for the home goes
-- to the packet handler and the registry is as before.
pub gw_core_listener_lem :
    (now : ℕ) (nid : Nid) (locator : Nid32) (m : NidMsg) (s : GwState)
    → IsGw s
    → Returns (gw_core_listener now nid locator m s) λ s'.
      IsGw s'
      × Writes s.rt.rtable m.nid (some (renewed now m.ip (view s.rt.rtable m.nid))) s'.rt.rtable
      × ((q : Nid)
          → view s'.registry_table q ≡ (
              if same m.src_nid_gw nid
              then update
                  (view s.registry_table)
                  m.nid
                  (some (pinned 0 (view s.registry_table m.nid)))
                  q
              else view s.registry_table q))
      × (s'.sp_gwt2ph ≡ (
          if same m.src_nid_gw nid
          then s.sp_gwt2ph
          else s.sp_gwt2ph ++ redirect_to_home nid locator m ∷ []))
unfolding gw_core_listener
gw_core_listener_lem now nid locator m s is =
    let (rt, run, (writes, same_gw)) = new_rt_entry-Writes now m.nid m.ip s.rt is.routes in
    elim (Bool-cases (same m.src_nid_gw nid)) [
      | inl home ↦
          let (t, run', (valid, reads)) =
            add_registry-Writes m.nid 0 s.registry_table is.registrations in
          rw (run, ◌>>=◌, home, run')
            (
              record s { rt = rt; registry_table = t },
              refl,
              (record { routes = writes.0; registrations = valid }, writes, reads, refl),
            )
      | inr abroad ↦
          rw (run, ◌>>=◌, abroad)
            (
              record s { rt = rt; sp_gwt2ph = s.sp_gwt2ph ++ redirect_to_home nid locator m ∷ [] },
              refl,
              (
                record { routes = writes.0; registrations = is.registrations },
                writes,
                λ q. refl,
                refl,
              ),
            )
    ]

-- A node that registers in a foreign tree: the message that the foreign core gateway sends makes
-- the registry of the home core gateway, whose state is well formed, answer 1 with the foreign core
-- gateway's address, if that is not 0.
pub home_learns_redirect :
    (now : ℕ) (nid : Nid) (locator : Nid32) (m : NidMsg) (home : ControlState)
    → IsControl home
    → (locator == 0) ≡ false
    → Returns
        (control_gw_core now (redirect_to_home nid locator m) home)
        λ home'. get_registry m.nid home'.registry_table ≡ ok (true, locator)
unfolding redirect_to_home
home_learns_redirect now nid locator m home is known =
    let (home', run, heard) = control_gw_core-Heard now (redirect_to_home nid locator m) home is in
    (
      home',
      run,
      get_registry_lem m.nid home'.registry_table heard.well.registered
          ∙ rw (
            heard.registrations m.nid,
            same_refl m.nid,
            registered-pinned locator (view home.registry_table m.nid),
            known,
          ),
    )
