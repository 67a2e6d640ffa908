-- ===== src/Dhcp/Kept.antt =====
-- Whatever the DHCP client writes, a round of `thread_dhcp` that ends normally leaves the name mapper
-- well formed.
use node_identity_architetur.Base.{ℕ, Option, none, some, List}
use node_identity_architetur.Dhcp.{maxbuflen, second_token, decide_mobility, thread_dhcp}
use node_identity_architetur.Memory.{fill, strcpy}
use node_identity_architetur.Names.Entries.{IsNidMapper}
use node_identity_architetur.Names.Update.{update_nm-Updated}
use node_identity_architetur.Names.{update_nm}
use node_identity_architetur.Nid.{Nid, Nid32, CString}
use node_identity_architetur.PacketHandler.{update_ph}
use node_identity_architetur.Reconfigure.{Configured, read_lease, set_conf_dhcp}
use node_identity_architetur.Run.{WhenOk, WhenOk-bind, WhenOk-then, Returns-WhenOk, ok-WhenOk}
use node_identity_architetur.RvsClient.{zero_nid}

abbrev Good : Configured → Type 0
Good s = IsNidMapper s.ph.names

module _ (inet_ntop6 : Nid → CString) (inet_pton6 : CString → Option Nid)
    (inet_pton4 : CString → Option Nid32) where
  decide_mobility-Good :
      (token : Option CString) (s : Configured)
      → Good s
      → WhenOk (decide_mobility inet_ntop6 inet_pton6 inet_pton4 token s) Good
  unfolding decide_mobility
  decide_mobility-Good none s is = λ y lost. cc
  decide_mobility-Good (some token) s is = ok-WhenOk Good _ is

  set_conf_dhcp-Good :
      (str : CString) (s : Configured)
      → Good s
      → WhenOk (set_conf_dhcp inet_pton6 inet_pton4 str s) Good
  unfolding set_conf_dhcp update_ph
  set_conf_dhcp-Good str s is =
      let conf = read_lease inet_pton6 inet_pton4 str s.conf in
      WhenOk-bind (update_nm zero_nid 0 conf s.ph.names) _ IsNidMapper Good
        (λ names run.
          (Returns-WhenOk (update_nm-Updated zero_nid 0 conf s.ph.names is) names run).well)
        λ names is'. ok-WhenOk Good _ is'

  pub thread_dhcp-IsNidMapper :
      (received : List ℕ) (s : Configured)
      → IsNidMapper s.ph.names
      → WhenOk
          (thread_dhcp inet_ntop6 inet_pton6 inet_pton4 received s)
          λ s'. IsNidMapper s'.ph.names
  unfolding thread_dhcp
  thread_dhcp-IsNidMapper received s is = WhenOk-then (fill maxbuflen received) _ Good λ buf.
      WhenOk-then (strcpy maxbuflen 0 buf) _ Good λ text.
        WhenOk-bind (decide_mobility inet_ntop6 inet_pton6 inet_pton4 (second_token text) s) _ Good
          Good (decide_mobility-Good (second_token text) s is) (set_conf_dhcp-Good text)
