-- ===== src/Settings/Words.antt =====
-- The names of the elements that the configuration file may hold, as texts.
use node_identity_architetur.Base.{[], ◌∷◌}
use node_identity_architetur.Nid.{CString}

-- type
abbrev pub type_name : CString
type_name = 116 ∷ 121 ∷ 112 ∷ 101 ∷ []

-- ip
abbrev pub ip_name : CString
ip_name = 105 ∷ 112 ∷ []

-- nodeID
abbrev pub node_id_name : CString
node_id_name = 110 ∷ 111 ∷ 100 ∷ 101 ∷ 73 ∷ 68 ∷ []

-- nidgw
abbrev pub nidgw_name : CString
nidgw_name = 110 ∷ 105 ∷ 100 ∷ 103 ∷ 119 ∷ []

-- nidcorehome
abbrev pub nidcorehome_name : CString
nidcorehome_name = 110 ∷ 105 ∷ 100 ∷ 99 ∷ 111 ∷ 114 ∷ 101 ∷ 104 ∷ 111 ∷ 109 ∷ 101 ∷ []

-- nidcore
abbrev pub nidcore_name : CString
nidcore_name = 110 ∷ 105 ∷ 100 ∷ 99 ∷ 111 ∷ 114 ∷ 101 ∷ []

-- nidrvs
abbrev pub nidrvs_name : CString
nidrvs_name = 110 ∷ 105 ∷ 100 ∷ 114 ∷ 118 ∷ 115 ∷ []

-- rvsIP
abbrev pub rvs_ip_name : CString
rvs_ip_name = 114 ∷ 118 ∷ 115 ∷ 73 ∷ 80 ∷ []

-- rvsTimeout
abbrev pub rvs_timeout_name : CString
rvs_timeout_name = 114 ∷ 118 ∷ 115 ∷ 84 ∷ 105 ∷ 109 ∷ 101 ∷ 111 ∷ 117 ∷ 116 ∷ []

-- niddns
abbrev pub niddns_name : CString
niddns_name = 110 ∷ 105 ∷ 100 ∷ 100 ∷ 110 ∷ 115 ∷ []

-- niddht
abbrev pub niddht_name : CString
niddht_name = 110 ∷ 105 ∷ 100 ∷ 100 ∷ 104 ∷ 116 ∷ []

-- dhtIP
abbrev pub dht_ip_name : CString
dht_ip_name = 100 ∷ 104 ∷ 116 ∷ 73 ∷ 80 ∷ []

-- dhtPort
abbrev pub dht_port_name : CString
dht_port_name = 100 ∷ 104 ∷ 116 ∷ 80 ∷ 111 ∷ 114 ∷ 116 ∷ []

-- dht
abbrev pub dht_name : CString
dht_name = 100 ∷ 104 ∷ 116 ∷ []

-- dhcp
abbrev pub dhcp_name : CString
dhcp_name = 100 ∷ 104 ∷ 99 ∷ 112 ∷ []

-- dns
abbrev pub dns_name : CString
dns_name = 100 ∷ 110 ∷ 115 ∷ []

-- primaryIface
abbrev pub primary_iface_name : CString
primary_iface_name = 112 ∷ 114 ∷ 105 ∷ 109 ∷ 97 ∷ 114 ∷ 121 ∷ 73 ∷ 102 ∷ 97 ∷ 99 ∷ 101 ∷ []
