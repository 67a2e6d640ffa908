-- ===== src/RvsClient/RoundTrip.antt =====
-- A resolution from end to end: the announcement of one node, the request of another, the reply.
use node_identity_architetur.Base.{ℕ, ◌+◌, ◌≡◌, ◌∙◌, some, [], ◌∷◌, ltb, if◌then◌else◌}
use node_identity_architetur.Config.{Config}
use node_identity_architetur.Conn.{rvs_timeout}
use node_identity_architetur.Key.{same_refl}
use node_identity_architetur.Mapper.{ConnTable}
use node_identity_architetur.Message.{NidMsg, rvs_response}
use node_identity_architetur.Nid.{Nid32, nid_key}
use node_identity_architetur.Run.{Run, ok, ◌>>=◌, Returns}
use node_identity_architetur.Rvs.Serve.{serve_lem, reply}
use node_identity_architetur.Rvs.{serve}
use node_identity_architetur.RvsClient.{
  ProxyOut, rvs_proxy_send, rvs_proxy_recv, turn_round, rvs_update_msg, rvs_get_msg,
}
use node_identity_architetur.Table.View.{IsValid, view}

-- A message goes through the proxy to the server, and the reply comes back through the proxy.
pub exchange : ℕ → NidMsg → ConnTable → Run (ProxyOut × ConnTable)
exchange now m t = do (r, t') ← serve now (rvs_proxy_send m) t; ok (rvs_proxy_recv r, t')

-- After node `a` has announced itself to a server whose table is well formed, a request of node `b`
-- for `a` brings back to the packet handler one response, from the rendezvous server to `b`, which
-- names `a` and holds the address that `a` announced, or 0 if RVS_TIMEOUT seconds have passed.
-- Nothing goes to the gateway.
pub resolve_announced :
    (then' now : ℕ) (a b : Config) (locator : Nid32) (t : ConnTable)
    → IsValid t
    → Returns
        (exchange then' (rvs_update_msg a locator) t >>= λ r.
          exchange now (rvs_get_msg b a.nid) r.1)
        (λ (out, t').
          (out.sp_rvs2ph
            ≡ record (rvs_get_msg b a.nid) {
              type = rvs_response;
              src_nid = b.nidrvs;
              dest_nid = b.nid;
              ip = if ltb now (then' + rvs_timeout) then locator else 0;
            }
              ∷ [])
          × (out.sp_rvs2gwt ≡ []))
unfolding exchange rvs_proxy_send rvs_proxy_recv turn_round rvs_update_msg rvs_get_msg
resolve_announced then' now a b locator t valid =
    let ((r₁, t₁), run₁, (answered₁, (valid₁, reads₁))) =
      serve_lem then' (rvs_update_msg a locator) t valid in
    let ((r₂, t₂), run₂, (answered₂, writes₂)) = serve_lem now (rvs_get_msg b a.nid) t₁ valid₁ in
    let entry : view t₁ a.nid ≡ some (record { ip = locator; tstamp = then' }) =
      reads₁ a.nid ∙ rw (same_refl a.nid) in
    let answer : r₂
        ≡ reply now (some (record { ip = locator; tstamp = then' })) (rvs_get_msg b a.nid) =
      answered₂ ∙ rw entry in
    ((rvs_proxy_recv r₂, t₂), rw (run₁, ◌>>=◌, run₂), (rw answer, rw answer))
