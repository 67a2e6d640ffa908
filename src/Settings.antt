-- ===== src/Settings.antt =====
-- configuration.c: the globals, their accessors, and `get_data`, which reads them from the tree of
-- the configuration file. The parser of XML, `inet_pton` and `atoi` are the libraries'.
pub mod Words
pub mod Role
pub mod Walk
use node_identity_architetur.Base.{
  ℕ, ◌%◌, ◌^◌, Bool, true, false, Option, none, some, List, [], ◌∷◌, ◌==◌, ltb, if◌then◌else◌,
  length,
}
use node_identity_architetur.Config.{Config}
use node_identity_architetur.Nid.{Nid, Nid32, CString, bytes_eq, nid2nid32}
use node_identity_architetur.Reconfigure.{update_dns_server_address, overwrite}
use node_identity_architetur.Run.{Run, ok, out_of_bounds, exited, ◌>>=◌}
use node_identity_architetur.Settings.Words.{
  type_name, ip_name, node_id_name, nidgw_name, nidcorehome_name, nidcore_name, nidrvs_name,
  rvs_ip_name, rvs_timeout_name, niddns_name, niddht_name, dht_ip_name, dht_port_name, dht_name,
  dhcp_name, dns_name, primary_iface_name,
}

-- A list of `xmlNode`s joined by `next`: whether the first is an element, its name, the text that
-- `xmlNodeGetContent` gives of it, its children, and the nodes after it.
pub data XmlNodes : Type 0 where
  null : XmlNodes
  node :
      (element : Bool) (name : CString) (content : Option CString) (children : XmlNodes)
      (next : XmlNodes)
      → XmlNodes

-- `xmlNodeGetContent`, which gives no text for NULL.
unfoldable pub xml_node_get_content : XmlNodes → Option CString
xml_node_get_content null = none
xml_node_get_content (node element name content children next) = content

-- The globals that only this file and the core gateway read, and those of `Config`.
pub record Settings : Type 0 where
  pub type' : ℕ
  pub conf : Config
  pub nid32 : Nid32
  pub niddht : Nid
  pub dht_ip : Nid32
  pub dht_port : ℕ
  pub rvs_timeout : ℕ
  pub dhcp : ℕ
  pub dht : ℕ
  pub dns : ℕ
  pub primary_iface : CString
  pub server_address : Nid32

-- `enum node_types`
abbrev pub core : ℕ
core = 3

-- `setNID32`: the last four bytes of the identifier, the first of them set to 1.
unfoldable pub set_nid32 : Settings → Settings
set_nid32 s = record s { nid32 = nid2nid32 s.conf.nid }

unfoldable pub set_gateway_ip : Nid32 → Settings → Settings
set_gateway_ip new_ip s = record s { conf = record s.conf { gateway_ip = new_ip } }

unfoldable pub set_rvs_ip : Nid32 → Settings → Settings
set_rvs_ip new_ip s = record s { conf = record s.conf { rvs_ip = new_ip } }

unfoldable pub set_dht_ip : Nid32 → Settings → Settings
set_dht_ip new_ip s = record s { dht_ip = new_ip }

unfoldable pub set_ip : Nid32 → Settings → Settings
set_ip new_ip s = record s { conf = record s.conf { ip = new_ip } }

unfoldable pub set_mobility : ℕ → Settings → Settings
set_mobility new s = record s { conf = record s.conf { mobility = new % 2 ^ 16 } }

-- An array of 32 bytes.
unfoldable pub set_primary_iface : CString → Settings → Run Settings
set_primary_iface data' s =
    if ltb (length data') 32 then ok (record s { primary_iface = data' }) else out_of_bounds

-- One `if` on the name of an element: its text is read, or if there is none the process ends, where
-- the text is required.
unfoldable pub on_name :
    CString
    → (required : Bool) → (CString → Settings → Run Settings)
    → CString
    → XmlNodes
    → Settings
    → Run Settings
on_name wanted required read name children s =
    if bytes_eq name wanted
    then elim (xml_node_get_content children) [
      | some data' ↦ read data' s
      | none ↦ if required then exited else ok s
    ]
    else ok s

module _ (inet_pton6 : CString → Option Nid) (inet_pton4 : CString → Option Nid32)
    (atoi : CString → ℕ) where
  -- An `int` that is stored in an `unsigned short`.
  unfoldable pub short : CString → ℕ
  short data' = atoi data' % 2 ^ 16

  unfoldable pub read6 : Nid → CString → Nid
  read6 old data' = overwrite (inet_pton6 data') old

  unfoldable pub read4 : Nid32 → CString → Nid32
  read4 old data' = overwrite (inet_pton4 data') old

  -- The names of every role, up to `niddns`.
  unfoldable pub read_common : CString → XmlNodes → Settings → Run Settings
  read_common name children s = do
    s₁ ← on_name type_name true (λ data' s. ok (record s { type' = short data' })) name children s
    s₂ ←
        on_name ip_name true (λ data' s. ok (set_gateway_ip (read4 s.conf.gateway_ip data') s)) name
          children s₁
    s₃ ←
        on_name node_id_name true
          (λ data' s.
            ok (set_nid32 (record s { conf = record s.conf { nid = read6 s.conf.nid data' } })))
          name children s₂
    s₄ ←
        on_name nidgw_name true
          (λ data' s. ok (record s { conf = record s.conf { nidgw = read6 s.conf.nidgw data' } }))
          name children s₃
    s₅ ←
        on_name nidcorehome_name true
          (λ data' s.
            ok (record s { conf = record s.conf { nidcorehome = read6 s.conf.nidcorehome data' } }))
          name children s₄
    s₆ ←
        on_name nidcore_name true
          (λ data' s.
            ok (record s { conf = record s.conf { nidcore = read6 s.conf.nidcore data' } }))
          name children s₅
    s₇ ←
        on_name nidrvs_name true
          (λ data' s. ok (record s { conf = record s.conf { nidrvs = read6 s.conf.nidrvs data' } }))
          name children s₆
    s₈ ←
        on_name rvs_ip_name true (λ data' s. ok (set_rvs_ip (read4 s.conf.rvs_ip data') s)) name
          children s₇
    s₉ ←
        on_name rvs_timeout_name true (λ data' s. ok (record s { rvs_timeout = short data' })) name
          children s₈
    on_name niddns_name true
        (λ data' s.
          let niddns = read6 s.conf.niddns data' in
          ok (record s {
            conf = record s.conf { niddns = niddns };
            server_address = update_dns_server_address niddns;
          }))
        name children s₉

  -- What a core gateway alone reads.
  unfoldable pub read_core : CString → XmlNodes → Settings → Run Settings
  read_core name children s = do
    s₁ ←
        on_name niddht_name true (λ data' s. ok (record s { niddht = read6 s.niddht data' })) name
          children s
    s₂ ←
        on_name dht_ip_name true (λ data' s. ok (set_dht_ip (read4 s.dht_ip data') s)) name children
          s₁
    s₃ ←
        on_name dht_port_name true (λ data' s. ok (record s { dht_port = short data' })) name
          children s₂
    on_name dht_name false (λ data' s. ok (record s { dht = short data' })) name children s₃

  unfoldable pub read_last : CString → XmlNodes → Settings → Run Settings
  read_last name children s = do
    s₁ ← on_name dhcp_name false (λ data' s. ok (record s { dhcp = short data' })) name children s
    s₂ ← on_name dns_name false (λ data' s. ok (record s { dns = short data' })) name children s₁
    on_name primary_iface_name true set_primary_iface name children s₂

  -- The body of the loop for an element; the type is tested after it may have been read.
  unfoldable pub read_element : CString → XmlNodes → Settings → Run Settings
  read_element name children s = do
    s₁ ← read_common name children s
    s₂ ← if s₁.type' == core then read_core name children s₁ else ok s₁
    read_last name children s₂

  unfoldable pub get_data : XmlNodes → Settings → Run Settings
  get_data null s = ok s
  get_data (node element name content children next) s = do
    s₁ ← if element then read_element name children s else ok s
    s₂ ← get_data children s₁
    get_data next s₂

  -- `xmlReadFile` gives the document's root element, or NULL if the file cannot be parsed.
  unfoldable pub read_config : (doc : Option XmlNodes) → Settings → Run Settings
  read_config none s = exited
  read_config (some root_element) s = get_data root_element s
