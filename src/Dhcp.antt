-- ===== src/Dhcp.antt =====
-- dhcp.c: the thread that takes over what the DHCP client hands on.
pub mod Roam
pub mod Kept
use node_identity_architetur.Base.{ℕ, Bool, Option, none, some, List, [], ◌∷◌, if◌then◌else◌}
use node_identity_architetur.Config.{Config, intradomain, interdomain}
use node_identity_architetur.Memory.{Buffer, copy_from, splice, copy_to, fill, strcpy}
use node_identity_architetur.Nid.{Nid, Nid32, CString, bytes_eq}
use node_identity_architetur.Reconfigure.{Configured, strtok, set_conf_dhcp}
use node_identity_architetur.Run.{Run, ok, null_pointer, ◌>>=◌}

abbrev pub maxbuflen : ℕ
maxbuflen = 128

abbrev pub inet6_addrstrlen : ℕ
inet6_addrstrlen = 46

-- Before the loop: the array for the text of an identifier is cleared.
unfoldable pub start_dhcp : Buffer → Run Buffer
unfolding fill
start_dhcp aux = do zeros ← fill maxbuflen []; copy_to 0 zeros aux

-- The second field of the response. `strtok` on NULL goes on where the first call stopped.
unfoldable pub second_token : CString → Option CString
second_token response = elim (strtok response) [
  | none ↦ none
  | some (token, rest) ↦ elim (strtok rest) [ none ↦ none | some (token', rest') ↦ some token' ]
]

module _ (inet_ntop6 : Nid → CString) (inet_pton6 : CString → Option Nid)
    (inet_pton4 : CString → Option Nid32) where
  -- Whether the gateway changes decides on the kind of the movement. `strcmp` reads its arguments.
  unfoldable pub decide_mobility : Option CString → Configured → Run Configured
  decide_mobility none s = null_pointer
  decide_mobility (some token) s = ok (record s {
    conf = record s.conf {
      mobility = if bytes_eq token (inet_ntop6 s.conf.nidgw) then intradomain else interdomain;
    };
  })

  -- One round of the loop, with the bytes that the client has written.
  unfoldable pub thread_dhcp : List ℕ → Configured → Run Configured
  thread_dhcp received s = do
    buf ← fill maxbuflen received
    dhcp_response ← strcpy maxbuflen 0 buf
    s' ← decide_mobility (second_token dhcp_response) s
    set_conf_dhcp inet_pton6 inet_pton4 dhcp_response s'
