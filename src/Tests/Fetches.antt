-- ===== src/Tests/Fetches.antt =====
-- An answer of the distributed table whose address is shorter than the identifier's text.
use node_identity_architetur.Base.{
  true, ◌≡◌, refl, Option, none, some, [], ◌∷◌, ◌++◌, arith, replicate,
}
use node_identity_architetur.Dht.Entries.{IsDht}
use node_identity_architetur.Dht.Fetch.{Fetch, thread_dht_get}
use node_identity_architetur.Dht.Stale.{thread_dht_get-value}
use node_identity_architetur.Nid.{Nid, Nid32, CString, nid_key}
use node_identity_architetur.Reconfigure.{overwrite}
use node_identity_architetur.Run.{Returns}
use node_identity_architetur.Table.View.{view, update}
use node_identity_architetur.Tests.Data.{alice, noon, dht, dht-IsDht}

abbrev begin : CString
begin = 51 ∷ 102 ∷ 102 ∷ []

abbrev rest : CString
rest = 101 ∷ 58 ∷ []

abbrev value : CString
value = 49 ∷ 46 ∷ 50 ∷ []

abbrev ntop6 : Nid → CString
ntop6 a = begin ++ rest

-- No text with more is an address.
abbrev pton4 : CString → Option Nid32
pton4 text = none

abbrev fetching : Fetch
fetching = record { dht = record dht { sp_dht = alice ∷ [] }; nid32 = 7; aux = replicate 46 0 }

thread_dht_get-value_example :
    Returns
      (thread_dht_get ntop6 pton4 100
        (record { resolved = true; connected = true; answers = true })
        (some (value ∷ []))
        fetching)
      λ (s', running).
        (running ≡ true)
        × (s'.nid32 ≡ overwrite (pton4 (value ++ rest)) 7)
        × IsDht s'.dht
        × ((q : Nid)
            → view s'.dht.dhtable q
              ≡ update (view dht.dhtable) alice (some (record { ip = s'.nid32; tstamp = 100 })) q)
thread_dht_get-value_example =
    thread_dht_get-value ntop6 pton4 noon alice [] value begin rest [] fetching refl (ground arith)
      (ground arith) (ground arith) refl (omega arith) refl
      (record { known = dht-IsDht.known; requests = dht-IsDht.requests }) refl
