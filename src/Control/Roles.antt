-- ===== src/Control/Roles.antt =====
-- The four control threads, message type by message type.
use node_identity_architetur.Base.{
  ℕ, refl, ◌||◌, none, some, [], ◌∷◌, ◌++◌, ◌==◌, if◌then◌else◌, Bool-cases, inl, inr,
}
use node_identity_architetur.Control.Heard.{
  IsControl, Effect, Heard, unchanged, unchanged-Heard, rvs-Heard, gwl-Heard, registry-Heard,
  on_redirect-Heard, on_relocate-Heard, on_response-Heard, response_effect,
}
use node_identity_architetur.Control.{
  ControlState, control, control_rvs, control_gw, control_gw_core,
}
use node_identity_architetur.Mapper.Entries.{renewed, pinned}
use node_identity_architetur.Message.{
  NidMsg, redirect, relocate, registry, redirect_core, rvs_update, rvs_get, rvs_response,
}
use node_identity_architetur.Nid.{nid_key}
use node_identity_architetur.Registry.Entries.{add_registry-Writes}
use node_identity_architetur.Run.{Returns}
use node_identity_architetur.Table.View.{view}

-- A message that every role understands alike, or else the role's own effect.
abbrev pub common_effect : ℕ → NidMsg → ControlState → Effect → Effect
common_effect now m s own =
    if m.type == redirect
    then record (unchanged m.nid s) { conn = some (renewed now m.ip (view s.connmap m.nid)) }
    else if m.type == relocate
    then record (unchanged m.nid s) { conn = none }
    else own

abbrev pub node_effect : ℕ → NidMsg → ControlState → Effect
node_effect now m s =
    common_effect now m s
      (if m.type == rvs_response then response_effect now m s else unchanged m.nid s)

abbrev pub rvs_effect : ℕ → NidMsg → ControlState → Effect
rvs_effect now m s = common_effect now m s (
    if (m.type == rvs_update) || (m.type == rvs_get)
    then record (unchanged m.nid s) { co2rvs = m ∷ [] }
    else unchanged m.nid s)

abbrev pub gw_effect : ℕ → NidMsg → ControlState → Effect
gw_effect now m s = common_effect now m s (
    if m.type == registry
    then record (unchanged m.nid s) { co2gwl = m ∷ [] }
    else unchanged m.nid s)

abbrev pub core_effect : ℕ → NidMsg → ControlState → Effect
core_effect now m s = common_effect now m s (
    if m.type == registry
    then record (unchanged m.nid s) { co2gwl = m ∷ [] }
    else if m.type == redirect_core
    then record (unchanged m.nid s) {
      registration = some (pinned m.ip (view s.registry_table m.nid));
    }
    else unchanged m.nid s)

module _ (now : ℕ) (m : NidMsg) (s : ControlState) (is : IsControl s) where
  -- On a well-formed state the control thread of a node renews the entry of a REDIRECT's
  -- identifier, drops that of a RELOCATE's, settles the request of an RVS_RESPONSE whose address is
  -- not 0 and renews its entry, and ignores every other message. No other identifier is touched,
  -- and nothing is sent.
  pub control-Heard : Returns (control now m s) (Heard m.nid (node_effect now m s) s)
  unfolding control
  control-Heard = elim (Bool-cases (m.type == redirect)) [
    | inl a ↦ rw a (on_redirect-Heard m s is now)
    | inr a' ↦ elim (Bool-cases (m.type == relocate)) [
      | inl b ↦ rw (a', b) (on_relocate-Heard m s is now)
      | inr b' ↦ elim (Bool-cases (m.type == rvs_response)) [
        | inl c ↦ rw (a', b', c) (on_response-Heard m s is now)
        | inr c' ↦ rw (a', b', c') (s, refl, unchanged-Heard m s is)
      ]
    ]
  ]

  -- On a well-formed state the control thread of a rendezvous server's host renews the entry of a
  -- REDIRECT's identifier, drops that of a RELOCATE's, hands RVS_UPDATE and RVS_GET to the server,
  -- and ignores every other message. No other identifier is touched.
  pub control_rvs-Heard : Returns (control_rvs now m s) (Heard m.nid (rvs_effect now m s) s)
  unfolding control_rvs
  control_rvs-Heard = elim (Bool-cases (m.type == redirect)) [
    | inl a ↦ rw a (on_redirect-Heard m s is now)
    | inr a' ↦ elim (Bool-cases (m.type == relocate)) [
      | inl b ↦ rw (a', b) (on_relocate-Heard m s is now)
      | inr b' ↦ elim (Bool-cases ((m.type == rvs_update) || (m.type == rvs_get))) [
        | inl c ↦
            rw (a', b', c) (record s { sp_co2rvs = s.sp_co2rvs ++ m ∷ [] }, refl, rvs-Heard m s is)
        | inr c' ↦ rw (a', b', c') (s, refl, unchanged-Heard m s is)
      ]
    ]
  ]

  -- On a well-formed state the control thread of a gateway renews the entry of a REDIRECT's
  -- identifier, drops that of a RELOCATE's, hands a REGISTRY to the gateway's listener, and ignores
  -- every other message. No other identifier is touched.
  pub control_gw-Heard : Returns (control_gw now m s) (Heard m.nid (gw_effect now m s) s)
  unfolding control_gw
  control_gw-Heard = elim (Bool-cases (m.type == redirect)) [
    | inl a ↦ rw a (on_redirect-Heard m s is now)
    | inr a' ↦ elim (Bool-cases (m.type == relocate)) [
      | inl b ↦ rw (a', b) (on_relocate-Heard m s is now)
      | inr b' ↦ elim (Bool-cases (m.type == registry)) [
        | inl c ↦
            rw (a', b', c) (record s { sp_co2gwl = s.sp_co2gwl ++ m ∷ [] }, refl, gwl-Heard m s is)
        | inr c' ↦ rw (a', b', c') (s, refl, unchanged-Heard m s is)
      ]
    ]
  ]

  -- On a well-formed state the control thread of a core gateway does as a gateway's with REDIRECT,
  -- RELOCATE and REGISTRY, writes the address of a REDIRECT_CORE to the registry under its
  -- identifier, and ignores every other message. No other identifier is touched.
  pub control_gw_core-Heard :
      Returns (control_gw_core now m s) (Heard m.nid (core_effect now m s) s)
  unfolding control_gw_core
  control_gw_core-Heard = elim (Bool-cases (m.type == redirect)) [
    | inl a ↦ rw a (on_redirect-Heard m s is now)
    | inr a' ↦ elim (Bool-cases (m.type == relocate)) [
      | inl b ↦ rw (a', b) (on_relocate-Heard m s is now)
      | inr b' ↦ elim (Bool-cases (m.type == registry)) [
        | inl c ↦
            rw (a', b', c) (record s { sp_co2gwl = s.sp_co2gwl ++ m ∷ [] }, refl, gwl-Heard m s is)
        | inr c' ↦ elim (Bool-cases (m.type == redirect_core)) [
          | inl d ↦
              let (t, run, writes) =
                add_registry-Writes m.nid m.ip s.registry_table is.registered in
              rw (a', b', c', d, run)
                (record s { registry_table = t }, refl, registry-Heard m s is _ t writes)
          | inr d' ↦ rw (a', b', c', d') (s, refl, unchanged-Heard m s is)
        ]
      ]
    ]
  ]
