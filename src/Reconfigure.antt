-- ===== src/Reconfigure.antt =====
-- configuration.c: `set_conf_dhcp`, which takes over the configuration of a new network, and what
-- it calls. `inet_pton` is a parameter: what it reads in a text, if it is an address.
pub mod Lease
use node_identity_architetur.Base.{
  ℕ, ◌+◌, ◌*◌, ◌/◌, ◌%◌, Bool, Option, none, some, List, [], ◌∷◌, ◌==◌, if◌then◌else◌, get_or,
}
use node_identity_architetur.Config.{Config}
use node_identity_architetur.Names.{update_nm}
use node_identity_architetur.Nid.{Nid, Nid32, CString}
use node_identity_architetur.PacketHandler.{PhState, update_ph}
use node_identity_architetur.Run.{Run, ok, ◌>>=◌}
use node_identity_architetur.RvsClient.{zero_nid}

-- `server_address` of dnshandler.c is the number that its text prints.
pub record Configured : Type 0 where
  pub conf : Config
  pub ph : PhState
  pub server_address : Nid32

-- The delimiter, `|`.
abbrev pub delimiter : ℕ
delimiter = 124

unfoldable pub skip_delimiters : CString → CString
skip_delimiters [] = []
skip_delimiters (c ∷ cs) = if c == delimiter then skip_delimiters cs else c ∷ cs

-- The characters before the next delimiter, and those behind it.
unfoldable pub cut_token : CString → CString × CString
cut_token [] = ([], [])
cut_token (c ∷ cs) =
    let rest = cut_token cs in if c == delimiter then ([], cs) else (c ∷ rest.0, rest.1)

-- `strtok`: the token, and where the next call goes on; none is NULL.
unfoldable pub strtok : CString → Option (CString × CString)
strtok str = elim (skip_delimiters str) [ [] ↦ none | c ∷ cs ↦ some (cut_token (c ∷ cs)) ]

module _ {A : Type 0} where
  unfoldable pub overwrite : Option A → A → A
  overwrite none old = old
  overwrite (some a) old = a

  -- One `if` of `set_conf_dhcp`: the variable afterwards, and where the next call goes on.
  unfoldable pub next_field : (CString → Option A) → CString → A → A × CString
  next_field inet_pton str old = elim (strtok str) [
    | none ↦ (old, [])
    | some (token, rest) ↦ (overwrite (inet_pton token) old, rest)
  ]

-- `ntohl` of a 32-bit number
unfoldable pub ntohl : ℕ → ℕ
ntohl w =
    w / 16777216 % 256 + 256 * (w / 65536 % 256) + 65536 * (w / 256 % 256) + 16777216 * (w % 256)

-- `update_dns_server_address`; `last24bit` is an `unsigned` that stays below 2 ^ 24.
unfoldable pub update_dns_server_address : Nid → Nid32
update_dns_server_address niddnsserver =
    let last24bit =
      (get_or niddnsserver.u6_addr8 13 0 * 256 + get_or niddnsserver.u6_addr8 14 0) * 256
      + get_or niddnsserver.u6_addr8 15 0 in
    ntohl (last24bit + 16777216)

module _ (inet_pton6 : CString → Option Nid) (inet_pton4 : CString → Option Nid32) where
  -- The seven variables.
  unfoldable pub read_lease : CString → Config → Config
  read_lease str conf =
      let (nidcore, s₁) = next_field inet_pton6 str conf.nidcore in
      let (nidgw, s₂) = next_field inet_pton6 s₁ conf.nidgw in
      let (gateway_ip, s₃) = next_field inet_pton4 s₂ conf.gateway_ip in
      let (nidrvs, s₄) = next_field inet_pton6 s₃ conf.nidrvs in
      let (rvs_ip, s₅) = next_field inet_pton4 s₄ conf.rvs_ip in
      let (niddns, s₆) = next_field inet_pton6 s₅ conf.niddns in
      let (ip, s₇) = next_field inet_pton4 s₆ conf.ip in
      record conf {
        nidcore = nidcore;
        nidgw = nidgw;
        gateway_ip = gateway_ip;
        nidrvs = nidrvs;
        rvs_ip = rvs_ip;
        niddns = niddns;
        ip = ip;
      }

  -- The globals `niddns` and `nid32dns` of nid_mapper.c are all zeros.
  unfoldable pub set_conf_dhcp : CString → Configured → Run Configured
  set_conf_dhcp str s = do
    let conf = read_lease str s.conf
    names ← update_nm zero_nid 0 conf s.ph.names
    ok (record {
      conf = conf;
      ph = update_ph conf (record s.ph { names = names });
      server_address = update_dns_server_address conf.niddns;
    })
