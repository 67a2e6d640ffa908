-- ===== src/Tests/Joins.antt =====
-- A network that is joined, one whose name is too long, and three new addresses.
use node_identity_architetur.Base.{◌≡◌, true, some, [], ◌∷◌, ◌++◌, arith}
use node_identity_architetur.Conecta.Ends.{joining, conecta-ends, conecta_overflow}
use node_identity_architetur.Conecta.{remove_leases, dhcpcd, conecta}
use node_identity_architetur.Mobility.{AddressEvent}
use node_identity_architetur.Nid.{CString}
use node_identity_architetur.Run.{ok, out_of_bounds}
use node_identity_architetur.Tests.Data.{conf}

-- "eth1" and "lab"
abbrev iface : CString
iface = 101 ∷ 116 ∷ 104 ∷ 49 ∷ []

abbrev essid : CString
essid = 108 ∷ 97 ∷ 98 ∷ []

conecta-ends_example :
    conecta true true 3 iface essid
      (some 16 ∷ some 16 ∷ some 17 ∷ some 16 ∷ some 16 ∷ some 16 ∷ some 20 ∷ [])
    ≡ ok (record {
      commands = joining iface essid ++ remove_leases ∷ (dhcpcd ++ iface) ∷ [];
      ended = true;
    })
conecta-ends_example =
    conecta-ends iface essid 3 (omega arith)
      (some 16 ∷ some 16 ∷ some 17 ∷ some 16 ∷ some 16 ∷ some 16 ∷ some 20 ∷ []) (omega arith)
      (omega arith) (tt, (tt, (tt, (tt, (tt, (tt, (tt, tt)))))))

conecta_overflow_example :
    conecta true true 3 iface (essid ++ essid ++ essid ++ essid) [] ≡ out_of_bounds
conecta_overflow_example =
    conecta_overflow iface (essid ++ essid ++ essid ++ essid) 3 (omega arith) [] (omega arith)

abbrev new_address : AddressEvent
new_address = record { now = 100; conf = conf; locator = 6; nlmsg_type = some 20 }
