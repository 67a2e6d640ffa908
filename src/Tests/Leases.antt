-- ===== src/Tests/Leases.antt =====
-- A lease, with texts of addresses that spell every byte by one character behind a zero.
use node_identity_architetur.Base.{
  ℕ, ◌+◌, ◌-◌, ◌<◌, ◌^◌, ◌≡◌, ◌==◌, refl, false, Option, none, some, List, [], ◌∷◌, arith, All,
}
use node_identity_architetur.Dhcp.Roam.{moved, thread_dhcp-lease_text}
use node_identity_architetur.Dhcp.{thread_dhcp}
use node_identity_architetur.Memory.Splice.{IsText}
use node_identity_architetur.Nid.{Nid, Nid32, CString, IsNid}
use node_identity_architetur.Reconfigure.Lease.{IsToken, Lease, IsLease, lease_text, with_lease}
use node_identity_architetur.Reconfigure.{Configured, delimiter, update_dns_server_address}
use node_identity_architetur.Run.{Returns}
use node_identity_architetur.Tests.Data.{alice, bob, carol, conf, ph, names-IsNidMapper}

abbrev letters : List ℕ → CString
letters [] = []
letters (b ∷ bs) = (b + 200) ∷ letters bs

abbrev bytes : CString → List ℕ
bytes [] = []
bytes (c ∷ cs) = (c - 200) ∷ bytes cs

bytes-letters : (bs : List ℕ) → bytes (letters bs) ≡ bs
bytes-letters [] = refl
bytes-letters (b ∷ bs) = let same : b + 200 - 200 ≡ b = omega arith in rw (same, bytes-letters bs)

letters-IsPlain : (bs : List ℕ) → All (λ c. (c == delimiter) ≡ false) (letters bs)
letters-IsPlain [] = tt
letters-IsPlain (b ∷ bs) = (ground arith, letters-IsPlain bs)

abbrev text6 : Nid → CString
text6 a = 48 ∷ letters a.u6_addr8

abbrev text4 : Nid32 → CString
text4 a = 48 ∷ (a + 200) ∷ []

abbrev pton6 : CString → Option Nid
pton6 [] = none
pton6 (c ∷ cs) = some (record { u6_addr8 = bytes cs })

abbrev pton4 : CString → Option Nid32
pton4 (c ∷ d ∷ []) = some (d - 200)
pton4 _ = none

text6-IsToken : (a : Nid) → IsNid a → IsToken (text6 a)
text6-IsToken a is = record {
  plain = (ground arith, letters-IsPlain a.u6_addr8);
  some_text = λ e. ground (arith, e);
}

text4-IsToken : (a : Nid32) → a < 2 ^ 32 → IsToken (text4 a)
text4-IsToken a is = record {
  plain = (ground arith, (ground arith, tt));
  some_text = λ e. ground (arith, e);
}

pton6-text6 : (a : Nid) → IsNid a → pton6 (text6 a) ≡ some a
pton6-text6 a is = rw (bytes-letters a.u6_addr8)

pton4-text4 : (a : Nid32) → a < 2 ^ 32 → pton4 (text4 a) ≡ some a
pton4-text4 a is = let same : a + 200 - 200 ≡ a = omega arith in rw same

abbrev lease : Lease
lease = record {
  nidcore = carol;
  nidgw = bob;
  gateway_ip = 3;
  nidrvs = carol;
  rvs_ip = 4;
  niddns = alice;
  ip = 5;
}

alice-IsNid : IsNid alice
alice-IsNid = record { sixteen = refl; bytes = ground arith }

bob-IsNid : IsNid bob
bob-IsNid = record { sixteen = refl; bytes = ground arith }

carol-IsNid : IsNid carol
carol-IsNid = record { sixteen = refl; bytes = ground arith }

lease-IsLease : IsLease lease
lease-IsLease = record {
  nidcore = carol-IsNid;
  nidgw = bob-IsNid;
  gateway_ip = omega arith;
  nidrvs = carol-IsNid;
  rvs_ip = omega arith;
  niddns = alice-IsNid;
  ip = omega arith;
}

abbrev configured : Configured
configured = record { conf = conf; ph = ph; server_address = 0 }

response-IsText : IsText (lease_text text6 text4 lease)
response-IsText = ground arith

-- The host comes to another gateway.
thread_dhcp-lease_text_example :
    Returns (thread_dhcp text6 pton6 pton4 (lease_text text6 text4 lease) configured) λ s'.
      (s'.conf ≡ with_lease lease (record conf { mobility = moved conf.nidgw bob }))
      × (s'.ph.nidcore ≡ carol)
      × (s'.server_address ≡ update_dns_server_address alice)
thread_dhcp-lease_text_example =
    thread_dhcp-lease_text pton6 pton4 text6 text4 text6-IsToken text4-IsToken pton6-text6
      pton4-text4 lease configured lease-IsLease carol-IsNid names-IsNidMapper response-IsText
      (omega arith)
