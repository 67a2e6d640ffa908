-- ===== src/Config.antt =====
-- configuration.c: the globals of the configuration, as the other modules read them.
use node_identity_architetur.Base.{ℕ}
use node_identity_architetur.Nid.{Nid, Nid32}

pub record Config : Type 0 where
  pub nid : Nid
  pub nidgw : Nid
  pub nidrvs : Nid
  pub nidcore : Nid
  pub nidcorehome : Nid
  pub niddns : Nid
  pub gateway_ip : Nid32
  pub rvs_ip : Nid32
  pub ip : Nid32
  pub mobility : ℕ

-- `enum mobility_types`
abbrev pub intradomain : ℕ
intradomain = 0

abbrev pub interdomain : ℕ
interdomain = 1
