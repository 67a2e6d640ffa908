-- ===== src/Dns/Kept.antt =====
-- Whatever the proxy's datagrams hold, a round of `thread_dnshandler` that ends normally leaves the
-- name mapper well formed.
use node_identity_architetur.Base.{
  ℕ, Bool, ◌&&◌, Option, none, some, List, take, length, Option-cases, inl, inr,
}
use node_identity_architetur.Dns.Proxy.{
  NidsPointer, to_ans_ans, Proxy, Kernel, Round, stop, receive, send_answer, deref, learn_nids,
  answer_from_cache, answer_from_server, handle_response, ask_server, handle_query,
  thread_dnshandler,
}
use node_identity_architetur.Dns.Response.{build_dns_response, build_dns_response_with_fqdn_table}
use node_identity_architetur.Dns.{buffer_length, modify_dns_query, analyse_dns_response, get_nids}
use node_identity_architetur.FqdnTable.{new_fqdnt_entry, get_nids_by_name}
use node_identity_architetur.Memory.{Buffer, until_nul}
use node_identity_architetur.Names.Entries.{IsNidMapper, new_nm_entry-Named, new_nm_entry32_lem}
use node_identity_architetur.Names.{NidMapper, new_nm_entry, new_nm_entry32}
use node_identity_architetur.Nid.{Nid, CString}
use node_identity_architetur.Reconfigure.{update_dns_server_address}
use node_identity_architetur.Run.{
  WhenOk, WhenOk-bind, WhenOk-then, Returns-WhenOk, ok-WhenOk, if-WhenOk, option-WhenOk,
}

abbrev Good : Round → Type 0
Good r = IsNidMapper r.proxy.names

-- What is learnt, if the texts are well formed.
abbrev Learnt : Option (Nid × NidMapper) → Type 0
Learnt none = Unit
Learnt (some x) = IsNidMapper x.1

stop-Good : (s : Proxy) (sent : Option (List ℕ)) → IsNidMapper s.names → WhenOk (stop s sent) Good
unfolding stop
stop-Good s sent is = ok-WhenOk Good _ is

send_answer-Good :
    (k : Kernel) (s : Proxy) (sent : Option (List ℕ)) (rc : ℕ)
    → IsNidMapper s.names
    → WhenOk (send_answer k s sent rc) Good
unfolding send_answer
send_answer-Good k s sent rc is = ok-WhenOk Good _ is

module _ (inet_pton6 : CString → Option Nid) where
  learn_nids-Learnt :
      (nidtuple : Buffer) (names : NidMapper)
      → IsNidMapper names
      → WhenOk (learn_nids inet_pton6 nidtuple names) Learnt
  unfolding learn_nids
  learn_nids-Learnt nidtuple names is = WhenOk-then (get_nids nidtuple) _ Learnt λ two.
      elim (Option-cases (inet_pton6 (until_nul two.0))) [
        | inl unread ↦ rw unread (ok-WhenOk Learnt none tt)
        | inr (nid, read) ↦ elim (Option-cases (inet_pton6 (until_nul two.1))) [
          | inl unread ↦ rw (read, unread) (ok-WhenOk Learnt none tt)
          | inr (nidr, read') ↦
              rw (read, read')
                (WhenOk-bind (new_nm_entry nid nidr names) _ IsNidMapper Learnt
                  (λ names₁ run.
                    (Returns-WhenOk (new_nm_entry-Named nid nidr names is) names₁ run).well)
                  λ names₁ is₁.
                    let nid32 = update_dns_server_address nid in
                    WhenOk-bind (new_nm_entry32 nid32 nid nidr names₁) _ IsNidMapper Learnt
                      (λ names₂ run.
                        (Returns-WhenOk (new_nm_entry32_lem nid32 nid nidr names₁ is₁) names₂
                          run).well)
                      λ names₂ is₂. ok-WhenOk Learnt (some (nid, names₂)) is₂)
        ]
      ]

  answer_from_cache-Good :
      (k : Kernel) (nids : NidsPointer) (query_type : ℕ) (s : Proxy)
      → IsNidMapper s.names
      → WhenOk (answer_from_cache inet_pton6 k nids query_type s) Good
  unfolding answer_from_cache
  answer_from_cache-Good k nids query_type s is =
      WhenOk-bind (learn_nids inet_pton6 (deref nids s) s.names) _ Learnt Good
        (learn_nids-Learnt (deref nids s) s.names is)
        λ learnt is'.
          option-WhenOk learnt _ _ Learnt Good is' (λ u. stop-Good s none is)
            λ (nid, names) is₁.
              let address = update_dns_server_address nid in
              WhenOk-then (build_dns_response_with_fqdn_table s.buffer address nid query_type) _
                Good
                λ r.
                  send_answer-Good k (record s { buffer = r.1; names = names }) none buffer_length
                    is₁

  answer_from_server-Good :
      (alloc : Bool) (k : Kernel) (fqdn : CString) (query_type rc : ℕ) (sent : Option (List ℕ))
      (s : Proxy)
      → IsNidMapper s.names
      → WhenOk (answer_from_server inet_pton6 alloc k fqdn query_type rc sent s) Good
  unfolding answer_from_server
  answer_from_server-Good alloc k fqdn query_type rc sent s is =
      WhenOk-then (new_fqdnt_entry alloc fqdn to_ans_ans s.fqdn_table) _ Good λ inserted.
        let s' = record s { fqdn_table = inserted.1 } in
        WhenOk-bind (learn_nids inet_pton6 s.ans_ans s.names) _ Learnt Good
          (learn_nids-Learnt s.ans_ans s.names is)
          λ learnt is'.
            option-WhenOk learnt _ _ Learnt Good is' (λ u. stop-Good s' sent is)
              λ (nid, names) is₁.
                let address = update_dns_server_address nid in
                WhenOk-then (build_dns_response s.buffer address nid query_type) _ Good
                  λ r. send_answer-Good k (record s' { buffer = r.1; names = names }) sent rc is₁

  handle_response-Good :
      (alloc : Bool) (k : Kernel) (fqdn : CString) (query_type rc : ℕ) (sent : Option (List ℕ))
      (s : Proxy)
      → IsNidMapper s.names
      → WhenOk (handle_response inet_pton6 alloc k fqdn query_type rc sent s) Good
  unfolding handle_response
  handle_response-Good alloc k fqdn query_type rc sent s is =
      WhenOk-then (analyse_dns_response s.buffer) _ Good λ ret.
        let s' = record s { ans_ans = ret.answer_ans } in
        if-WhenOk Good ret.accepted _ _
          (answer_from_server-Good alloc k fqdn query_type rc sent s' is)
          (send_answer-Good k s' sent rc is)

  ask_server-Good :
      (alloc : Bool) (k : Kernel) (fqdn : CString) (query_type rc : ℕ) (s : Proxy)
      → IsNidMapper s.names
      → WhenOk (ask_server inet_pton6 alloc k fqdn query_type rc s) Good
  unfolding ask_server
  ask_server-Good alloc k fqdn query_type rc s is =
      if-WhenOk Good (k.server_socket && k.forwarded) _ _
        (option-WhenOk k.response _ _ (λ o. Unit {0}) Good tt
          (λ u. stop-Good s (some (take rc s.buffer)) is)
          λ datagram u.
            handle_response-Good alloc k fqdn query_type (length (take buffer_length datagram))
              (some (take rc s.buffer)) (record s { buffer = receive datagram s.buffer }) is)
        (stop-Good s none is)

  handle_query-Good :
      (alloc : Bool) (k : Kernel) (rc : ℕ) (s : Proxy)
      → IsNidMapper s.names
      → WhenOk (handle_query inet_pton6 alloc k rc s) Good
  unfolding handle_query
  handle_query-Good alloc k rc s is = WhenOk-then (modify_dns_query s.buffer) _ Good λ q.
      let s' = record s { buffer = q.buf } in
      WhenOk-then (get_nids_by_name q.fqdn s.fqdn_table) _ Good λ found.
        option-WhenOk found _ _ (λ o. Unit {0}) Good tt
          (λ u. ask_server-Good alloc k q.fqdn q.query_type rc s' is)
          λ nids u. answer_from_cache-Good k nids q.query_type s' is

  pub thread_dnshandler-IsNidMapper :
      (alloc : Bool) (k : Kernel) (s : Proxy)
      → IsNidMapper s.names
      → WhenOk (thread_dnshandler inet_pton6 alloc k s) λ r. IsNidMapper r.proxy.names
  unfolding thread_dnshandler
  thread_dnshandler-IsNidMapper alloc k s is =
      if-WhenOk Good k.bound _ _
        (option-WhenOk k.query _ _ (λ o. Unit {0}) Good tt (λ u. stop-Good s none is)
          λ datagram u.
            handle_query-Good alloc k (length (take buffer_length datagram))
              (record s { buffer = receive datagram s.buffer }) is)
        (stop-Good s none is)
