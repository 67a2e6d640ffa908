-- ===== src/Tests/Threads.antt =====
-- The routing threads and the packet handler.
use node_identity_architetur.Base.{◌≡◌, refl, true, false, if◌then◌else◌, [], ◌∷◌, ◌++◌, arith}
use node_identity_architetur.Forward.Core.{core_hop, Sent, nr_output_core_route-Sent}
use node_identity_architetur.Forward.Output.{nr_output_gw_own_twice}
use node_identity_architetur.Forward.{nr_output_gw_own, nr_output_core_route}
use node_identity_architetur.Message.{datagram, message, data_type, redirect}
use node_identity_architetur.Names.Entries.{Named}
use node_identity_architetur.Nid.{nid_key, nid32_key}
use node_identity_architetur.PacketHandler.Rounds.{
  for_control, is_raw, for_socket, ph_output_keeps_source, ph_input_lem,
}
use node_identity_architetur.PacketHandler.{ph_output, ph_input}
use node_identity_architetur.Run.{◌>>=◌, exited, Returns}
use node_identity_architetur.Tests.Data.{
  alice, bob, carol, noon, after_noon, no_conns-view, conns-bob, nr, nr-IsNr, ping, packet, moved,
  names, names-IsNidMapper, names-bob, ph, ph_in, to_bob,
}

nr_output_gw_own_twice_example :
    Returns
      (nr_output_gw_own noon packet nr >>= nr_output_gw_own after_noon packet)
      λ s'. s'.sent ≡ ([] ++ (7, packet) ∷ []) ++ (9, packet) ∷ []
nr_output_gw_own_twice_example =
    nr_output_gw_own_twice noon after_noon packet packet nr 7 nr-IsNr (rw (no_conns-view bob))
      (rw conns-bob (ground arith)) refl (omega arith)

nr_output_core_route-Sent_example :
    Returns (nr_output_core_route noon packet nr) (Sent packet nr (core_hop noon packet nr))
nr_output_core_route-Sent_example = nr_output_core_route-Sent noon packet nr nr-IsNr

ph_output_keeps_source_example : Returns (ph_output ph) λ s'.
    Returns (ph_output (record s' { sp_nf2ph = ping ∷ [] })) λ s''.
      s''.sp_ph2nr
      ≡ []
        ++ record {
          header = record to_bob { type = redirect; src_nid = bob; dest_nid = alice };
          payload = message moved;
        }
          ∷ record {
            header = record {
              type = data_type;
              src_nid = bob;
              dest_nid = bob;
              src_nid_gw = carol;
              dest_nid_gw = carol;
            };
            payload = datagram ping;
          }
          ∷ []
ph_output_keeps_source_example =
    ph_output_keeps_source moved [] ping [] (record { nid = bob; nidgw = carol }) ph
      names-IsNidMapper refl refl names-bob

ph_input_lem_example :
    Returns (ph_input true packet ph_in) (λ s'.
      Named alice carol names s'.names
      × (s'.sp_ph2co ≡ [] ++ for_control packet)
      × (s'.raw_tcp ≡ [] ++ for_socket 6 packet)
      × (s'.raw_udp ≡ [] ++ for_socket 17 packet)
      × (s'.raw_icmp ≡ [] ++ for_socket 1 packet))
    × (ph_input false packet ph_in ≡ (if is_raw packet then exited else ph_input true packet ph_in))
ph_input_lem_example = ph_input_lem packet ph_in names-IsNidMapper
