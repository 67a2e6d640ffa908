-- ===== src/Tests/Files.antt =====
-- Configuration files: the beginning of `nid.conf.example`, and a file that says nothing of the type.
use node_identity_architetur.Base.{ℕ, ◌≡◌, refl, true, false, Option, none, some, [], ◌∷◌, ◌++◌}
use node_identity_architetur.Nid.{Nid, Nid32, CString, bytes_eq}
use node_identity_architetur.Run.{exited, ok}
use node_identity_architetur.Settings.Role.{SameDht, IfOk, get_data-SameDht}
use node_identity_architetur.Settings.Walk.{
  elements, nidgw_element, read_elements, get_data-elements, get_data_exits,
}
use node_identity_architetur.Settings.Words.{type_name, nidgw_name, niddht_name}
use node_identity_architetur.Settings.{
  XmlNodes, null, node, Settings, get_data, read_element, read_common, read_last, on_name,
  xml_node_get_content, short,
}
use node_identity_architetur.Tests.Data.{alice, conf}

abbrev text : CString → XmlNodes
text content = node false [] (some content) null null

abbrev configuration_name : CString
configuration_name = 99 ∷ 111 ∷ 110 ∷ 102 ∷ 105 ∷ 103 ∷ []

abbrev gateway_name : CString
gateway_name = 103 ∷ 97 ∷ 116 ∷ 101 ∷ []

abbrev zero_text : CString
zero_text = 48 ∷ []

-- The gateway's identifier is left empty.
abbrev gateway_elements : XmlNodes
gateway_elements = node true nidgw_name none null null

abbrev in_file : XmlNodes
in_file =
    node true type_name (some zero_text) (text zero_text)
      (node true gateway_name none gateway_elements null)

abbrev example_file : XmlNodes
example_file = node true configuration_name none in_file null

abbrev settings : Settings
settings = record {
  type' = 0;
  conf = conf;
  nid32 = 1;
  niddht = alice;
  dht_ip = 3;
  dht_port = 4;
  rvs_timeout = 5;
  dhcp = 0;
  dht = 0;
  dns = 0;
  primary_iface = [];
  server_address = 0;
}

abbrev pton6 : CString → Option Nid
pton6 c = some alice

abbrev pton4 : CString → Option Nid32
pton4 c = some 9

abbrev atoi : CString → ℕ
atoi c = 0

get_data-elements_example :
    get_data pton6 pton4 atoi example_file settings
    ≡ read_elements pton6 pton4 atoi (elements example_file) settings
get_data-elements_example = get_data-elements pton6 pton4 atoi example_file settings

example_shape :
    elements example_file
    ≡ ((configuration_name, in_file)
        ∷ (type_name, text zero_text)
        ∷ (gateway_name, gateway_elements)
        ∷ [])
      ++ (nidgw_name, null) ∷ []
unfolding elements
example_shape = refl

example_before :
    read_elements pton6 pton4 atoi
      ((configuration_name, in_file)
        ∷ (type_name, text zero_text)
        ∷ (gateway_name, gateway_elements)
        ∷ [])
      settings
    ≡ ok settings
unfolding read_elements read_element read_common read_last on_name bytes_eq xml_node_get_content
    short
example_before = refl

get_data_exits_example : get_data pton6 pton4 atoi example_file settings ≡ exited
unfolding xml_node_get_content
get_data_exits_example =
    get_data_exits pton6 pton4 atoi example_file settings settings
      ((configuration_name, in_file)
        ∷ (type_name, text zero_text)
        ∷ (gateway_name, gateway_elements)
        ∷ [])
      [] nidgw_name null example_shape example_before nidgw_element refl

abbrev untyped_file : XmlNodes
untyped_file = node true niddht_name none (text zero_text) null

get_data-SameDht_example : IfOk (SameDht settings) (get_data pton6 pton4 atoi untyped_file settings)
unfolding elements bytes_eq
get_data-SameDht_example = get_data-SameDht pton6 pton4 atoi settings refl untyped_file (refl, tt)
