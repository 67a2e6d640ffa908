-- ===== src/Dns/Proxy.antt =====
-- thread_dnshandler: one round of its loop, and the cache that it keeps.
use node_identity_architetur.Base.{
  ℕ, Bool, false, ◌&&◌, Option, none, some, List, take, length, if◌then◌else◌,
}
use node_identity_architetur.Dns.Response.{build_dns_response, build_dns_response_with_fqdn_table}
use node_identity_architetur.Dns.{buffer_length, modify_dns_query, analyse_dns_response, get_nids}
use node_identity_architetur.FqdnTable.{new_fqdnt_entry, get_nids_by_name, init_fqdn_table}
use node_identity_architetur.Memory.{Buffer, splice, until_nul}
use node_identity_architetur.Names.{NidMapper, new_nm_entry, new_nm_entry32}
use node_identity_architetur.Nid.{Nid, CString}
use node_identity_architetur.Reconfigure.{update_dns_server_address}
use node_identity_architetur.Run.{Run, ok, ◌>>=◌}
use node_identity_architetur.Table.{HashTable}

-- The only pointer that the cache is ever given: that to the thread's array `ansAns`.
pub data NidsPointer : Type 0 where
  to_ans_ans : NidsPointer

-- The cache, the two arrays of the thread that outlive a round, and the name mapper.
pub record Proxy : Type 0 where
  pub fqdn_table : HashTable CString NidsPointer
  pub ans_ans : Buffer
  pub buffer : Buffer
  pub names : NidMapper

-- What the kernel does in a round. A datagram is none if the call fails.
pub record Kernel : Type 0 where
  pub bound : Bool
  pub query : Option (List ℕ)
  pub server_socket : Bool
  pub forwarded : Bool
  pub response : Option (List ℕ)
  pub answered : Bool

-- What the round sends, and whether the loop goes on.
pub record Round : Type 0 where
  pub proxy : Proxy
  pub to_server : Option (List ℕ)
  pub to_client : Option (List ℕ)
  pub running : Bool

-- A `break`
unfoldable pub stop : Proxy → Option (List ℕ) → Run Round
stop s sent = ok (record { proxy = s; to_server = sent; to_client = none; running = false })

-- `recvfrom` leaves what lies behind the datagram as it was.
unfoldable pub receive : List ℕ → Buffer → Buffer
receive datagram buf = splice 0 (take buffer_length datagram) buf

unfoldable pub send_answer : Kernel → Proxy → Option (List ℕ) → ℕ → Run Round
send_answer k s sent rc = ok (record {
  proxy = s;
  to_server = sent;
  to_client = some (take rc s.buffer);
  running = k.answered;
})

-- The text that a pointer of the cache points to.
unfoldable pub deref : NidsPointer → Proxy → Buffer
deref to_ans_ans s = s.ans_ans

module _ (inet_pton6 : CString → Option Nid) where
  -- The two identifiers of a text, if they are well formed, as both branches read and name them.
  unfoldable pub learn_nids : Buffer → NidMapper → Run (Option (Nid × NidMapper))
  learn_nids nidtuple names = do
    (nid, nidr) ← get_nids nidtuple
    elim (inet_pton6 (until_nul nid)) [
      | none ↦ ok none
      | some nidaddr ↦ elim (inet_pton6 (until_nul nidr)) [
        | none ↦ ok none
        | some nidraddr ↦ do
          names₁ ← new_nm_entry nidaddr nidraddr names
          names₂ ← new_nm_entry32 (update_dns_server_address nidaddr) nidaddr nidraddr names₁
          ok (some (nidaddr, names₂))
      ]
    ]

  -- The name is in the cache.
  unfoldable pub answer_from_cache : Kernel → NidsPointer → ℕ → Proxy → Run Round
  answer_from_cache k nids_returned query_type s = do
    learnt ← learn_nids (deref nids_returned s) s.names
    elim learnt [
      | none ↦ stop s none
      | some (nidaddr, names) ↦ do
        (done, buf) ←
            build_dns_response_with_fqdn_table s.buffer (update_dns_server_address nidaddr) nidaddr
              query_type
        send_answer k (record s { buffer = buf; names = names }) none buffer_length
    ]

  -- The name server has answered without an error.
  unfoldable pub answer_from_server :
      (alloc : Bool) → Kernel → CString → ℕ → (rc : ℕ) → Option (List ℕ) → Proxy → Run Round
  answer_from_server alloc k fqdn query_type rc sent s = do
    (inserted, fqdn_table) ← new_fqdnt_entry alloc fqdn to_ans_ans s.fqdn_table
    learnt ← learn_nids s.ans_ans s.names
    let s' = record s { fqdn_table = fqdn_table }
    elim learnt [
      | none ↦ stop s' sent
      | some (nidaddr, names) ↦ do
        (done, buf) ←
            build_dns_response s.buffer (update_dns_server_address nidaddr) nidaddr query_type
        send_answer k (record s' { buffer = buf; names = names }) sent rc
    ]

  -- The name server's datagram has been received.
  unfoldable pub handle_response :
      (alloc : Bool) → Kernel → CString → ℕ → (rc : ℕ) → Option (List ℕ) → Proxy → Run Round
  handle_response alloc k fqdn query_type rc sent s = do
    ret ← analyse_dns_response s.buffer
    let s' = record s { ans_ans = ret.answer_ans }
    if ret.accepted
        then answer_from_server alloc k fqdn query_type rc sent s'
        else send_answer k s' sent rc

  -- The name is not in the cache, and the query goes to the server.
  unfoldable pub ask_server : (alloc : Bool) → Kernel → CString → ℕ → (rc : ℕ) → Proxy → Run Round
  ask_server alloc k fqdn query_type rc s =
      if k.server_socket && k.forwarded
      then elim k.response [
        | none ↦ stop s (some (take rc s.buffer))
        | some datagram ↦
            handle_response alloc k fqdn query_type (length (take buffer_length datagram))
              (some (take rc s.buffer)) (record s { buffer = receive datagram s.buffer })
      ]
      else stop s none

  -- A query has been received.
  unfoldable pub handle_query : (alloc : Bool) → Kernel → (rc : ℕ) → Proxy → Run Round
  handle_query alloc k rc s = do
    q ← modify_dns_query s.buffer
    let s' = record s { buffer = q.buf }
    found ← get_nids_by_name q.fqdn s.fqdn_table
    elim found [
      | some nids_returned ↦ answer_from_cache k nids_returned q.query_type s'
      | none ↦ ask_server alloc k q.fqdn q.query_type rc s'
    ]

  -- One round. The proxy's socket is made, bound and read; all three may fail.
  unfoldable pub thread_dnshandler : (alloc : Bool) → Kernel → Proxy → Run Round
  thread_dnshandler alloc k s =
      if k.bound
      then elim k.query [
        | none ↦ stop s none
        | some datagram ↦
            handle_query alloc k (length (take buffer_length datagram))
              (record s { buffer = receive datagram s.buffer })
      ]
      else stop s none

-- The state in which the thread enters its loop; the arrays are not initialised.
unfoldable pub start_dnshandler : (alloc : Bool) → (ans_ans buffer : Buffer) → NidMapper → Proxy
start_dnshandler alloc ans_ans buffer names = record {
  fqdn_table = init_fqdn_table alloc;
  ans_ans = ans_ans;
  buffer = buffer;
  names = names;
}
