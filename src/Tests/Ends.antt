-- ===== src/Tests/Ends.antt =====
-- The rendezvous server and its clients.
use node_identity_architetur.Base.{◌≡◌, [], ◌∷◌, if◌then◌else◌, ltb, ◌+◌}
use node_identity_architetur.Conn.{rvs_timeout}
use node_identity_architetur.Message.{rvs_response}
use node_identity_architetur.Nid.{nid_key}
use node_identity_architetur.Run.{Returns, ◌>>=◌}
use node_identity_architetur.RvsClient.RoundTrip.{exchange, resolve_announced}
use node_identity_architetur.RvsClient.{rvs_update_msg, rvs_get_msg}
use node_identity_architetur.Tests.Data.{alice, bob, carol, conns, conns-IsValid, conf, bob_conf}

resolve_announced_example :
    Returns
      (exchange 100 (rvs_update_msg conf 5) conns >>= λ r.
        exchange 109 (rvs_get_msg bob_conf alice) r.1)
      λ (out, t').
        (out.sp_rvs2ph
          ≡ record (rvs_get_msg bob_conf alice) {
            type = rvs_response;
            src_nid = carol;
            dest_nid = bob;
            ip = if ltb 109 (100 + rvs_timeout) then 5 else 0;
          }
            ∷ [])
        × (out.sp_rvs2gwt ≡ [])
resolve_announced_example = resolve_announced 100 109 conf bob_conf 5 conns conns-IsValid
