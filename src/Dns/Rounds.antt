-- ===== src/Dns/Rounds.antt =====
-- Rounds of the proxy.
use node_identity_architetur.Base.{
  ℕ, Bool, ◌-◌, ◌<◌, ◌≡◌, refl, true, Option, none, some, List, [], ◌∷◌, ◌++◌, arith, length, take,
}
use node_identity_architetur.Dns.Learn.{nids_text, learn_nids_lem, same_nid32}
use node_identity_architetur.Dns.Fields.{address, message}
use node_identity_architetur.Dns.Made.{build_made_lem}
use node_identity_architetur.Dns.Proxy.{
  to_ans_ans, Proxy, Kernel, Round, receive, send_answer, deref, learn_nids, answer_from_cache,
  handle_query, thread_dnshandler,
}
use node_identity_architetur.Dns.Question.{
  IsAddress, asked, layout, Holds, retyped, modify_dns_query_lem,
}
use node_identity_architetur.FqdnHash.{fqdn_hash_lookup}
use node_identity_architetur.FqdnTable.{get_nids_by_name}
use node_identity_architetur.Memory.Splice.{IsText, zeros}
use node_identity_architetur.Names.Entries.{IsNidMapper, Named}
use node_identity_architetur.Nid.{Nid, CString, IsNid, nid2nid32, fqdn_key}
use node_identity_architetur.Run.{ok, ◌>>=◌, Returns}
use node_identity_architetur.Table.View.{IsValid, view, hash_lookup-view}

-- A query that has been received in full: the buffer holds it, behind what the buffer held before.
pub record Received (k : Kernel) (s : Proxy) (a b : ℕ) (counts : List ℕ) (name : CString)
    (q_type : ℕ) (rest : List ℕ) : Type 0 where
  pub datagram : List ℕ
  pub bound : k.bound ≡ true
  pub query : k.query ≡ some datagram
  pub holds : Holds a b counts name q_type rest (receive datagram s.buffer)

-- The proxy once the query has been changed.
abbrev pub asking : Proxy → ℕ → ℕ → List ℕ → CString → ℕ → List ℕ → Proxy
asking s a b counts name q_type rest = record s {
  buffer = layout a b counts name (asked q_type) rest;
}

module _ (inet_pton6 : CString → Option Nid) (alloc : Bool) (k : Kernel) (s : Proxy) (a b : ℕ)
    (counts : List ℕ) (name : CString) (q_type : ℕ) (rest : List ℕ)
    (received : Received k s a b counts name q_type rest) where
  pub hit_lem :
      IsValid s.fqdn_table
      → view s.fqdn_table name ≡ some to_ans_ans
      → thread_dnshandler inet_pton6 alloc k s
        ≡ answer_from_cache inet_pton6 k to_ans_ans q_type (asking s a b counts name q_type rest)
  unfolding thread_dnshandler handle_query get_nids_by_name fqdn_hash_lookup answer_from_cache
  hit_lem valid known = rw (
    received.bound,
    received.query,
    modify_dns_query_lem a b counts name q_type rest (receive received.datagram s.buffer)
        received.holds,
    ◌>>=◌,
    hash_lookup-view s.fqdn_table name valid.sized,
    known,
  )

module _ (inet_pton6 : CString → Option Nid) (text6 : Nid → CString)
    (sized : (a : Nid) → IsNid a → length (text6 a) ≡ 39)
    (text : (a : Nid) → IsNid a → IsText (text6 a))
    (reads : (a : Nid) → IsNid a → inet_pton6 (text6 a) ≡ some a) where
  -- The round answers from its cache.
  pub record FromCache (k : Kernel) (s : Proxy) (a b : ℕ) (name : CString) (q_type : ℕ)
      (nid nidr : Nid) (round : Round) : Type 0 where
    pub kept : round.proxy.fqdn_table ≡ s.fqdn_table
    pub kept_text : round.proxy.ans_ans ≡ s.ans_ans
    pub learnt : Named nid nidr s.names round.proxy.names
    pub asks_nobody : round.to_server ≡ none
    pub sent :
        let data' = address (nid2nid32 nid) nid q_type in
        round.to_client
        ≡ some (
            take 512
              (message (a ∷ b ∷ []) name q_type data' ++ zeros (474 - length name - length data')))
    pub goes_on : round.running ≡ k.answered

  module _ (alloc : Bool) (k : Kernel) (s : Proxy) (a b : ℕ) (counts : List ℕ) (name : CString)
      (q_type : ℕ) (rest : List ℕ) (received : Received k s a b counts name q_type rest) where
    pub thread_dnshandler-FromCache :
        (nid nidr : Nid) (z : ℕ)
        → IsNid nid
        → IsNid nidr
        → IsNidMapper s.names
        → IsValid s.fqdn_table
        → view s.fqdn_table name ≡ some to_ans_ans
        → s.ans_ans ≡ nids_text (text6 nid) (text6 nidr) ++ zeros z
        → IsAddress q_type
        → Returns (thread_dnshandler inet_pton6 alloc k s) (FromCache k s a b name q_type nid nidr)
    unfolding answer_from_cache deref send_answer
    thread_dnshandler-FromCache nid nidr z is is' well valid known cached asks =
        let (names, learns, named) =
          learn_nids_lem inet_pton6 text6 sized text reads nid nidr z s.names is is' well in
        let learns' : learn_nids inet_pton6 s.ans_ans s.names ≡ ok (some (nid, names)) =
          rw cached learns in
        let word : asked q_type < 65536 = ground (arith, asks) in
        let holds =
          retyped a b counts name q_type (asked q_type) rest (receive received.datagram s.buffer)
            received.holds word in
        let data' = address (nid2nid32 nid) nid q_type in
        let reply =
          message (a ∷ b ∷ []) name q_type data' ++ zeros (474 - length name - length data') in
        (
          record {
            proxy = record s { buffer = reply; names = names };
            to_server = none;
            to_client = some (take 512 reply);
            running = k.answered;
          },
          rw (
            hit_lem inet_pton6 alloc k s a b counts name q_type rest received valid known,
            learns',
            ◌>>=◌,
            same_nid32 nid is,
            build_made_lem a b counts name (asked q_type) rest
                (layout a b counts name (asked q_type) rest) holds (nid2nid32 nid) nid q_type
                is.sixteen asks,
          ),
          record {
            kept = refl;
            kept_text = refl;
            learnt = named;
            asks_nobody = refl;
            sent = refl;
            goes_on = refl;
          },
        )
