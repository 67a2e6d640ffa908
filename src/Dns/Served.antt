-- ===== src/Dns/Served.antt =====
-- Rounds of the proxy that ask the name server.
use node_identity_architetur.Base.{
  ℕ, Bool, ◌+◌, ◌-◌, ◌*◌, ◌≤◌, ◌≡◌, ◌∙◌, refl, true, false, Option, none, some, List, ◌∷◌, ◌++◌,
  arith, ◌==◌, length, take, bit_and,
}
use node_identity_architetur.Dns.Learn.{nids_text, learn_nids_lem, same_nid32}
use node_identity_architetur.Dns.Fields.{address}
use node_identity_architetur.Dns.Proxy.{
  to_ans_ans, NidsPointer, Proxy, Kernel, Round, receive, send_answer, learn_nids, handle_query,
  ask_server, handle_response, answer_from_server, thread_dnshandler,
}
use node_identity_architetur.Dns.Question.{IsAddress, asked, layout, Holds, modify_dns_query_lem}
use node_identity_architetur.Dns.Rebuilt.{rebuilt, build_dns_response_lem}
use node_identity_architetur.Dns.Record.{Reply, IsReply, reply_rest, analyse_lem}
use node_identity_architetur.Dns.Refused.{analyse_refused}
use node_identity_architetur.Dns.Rounds.{Received, asking}
use node_identity_architetur.Dns.Sized.{length-rebuilt}
use node_identity_architetur.FqdnHash.{fqdn_hash_lookup, fqdn_hash_insert}
use node_identity_architetur.FqdnTable.{get_nids_by_name, new_fqdnt_entry, is_pointer}
use node_identity_architetur.Memory.Splice.{IsText, zeros, length_next}
use node_identity_architetur.Names.Entries.{IsNidMapper, Named}
use node_identity_architetur.Nid.{Nid, CString, IsNid, nid2nid32, fqdn_key}
use node_identity_architetur.Run.{ok, ◌>>=◌, Returns}
use node_identity_architetur.Table.View.{IsValid, view, update, hash_lookup-view, hash_insert_lem}
use node_identity_architetur.Table.{HashTable}

-- The query goes out, and a response comes back.
pub record Exchange (k : Kernel) (s : Proxy) (a b f₁ f₂ : ℕ) (more : List ℕ) (name : CString)
    (type' : ℕ) (rest : List ℕ) : Type 0 where
  pub datagram : List ℕ
  pub socket : k.server_socket ≡ true
  pub sent : k.forwarded ≡ true
  pub response : k.response ≡ some datagram
  pub holds : Holds a b (f₁ ∷ f₂ ∷ more) name type' rest (receive datagram s.buffer)

module _ (inet_pton6 : CString → Option Nid) (alloc : Bool) (k : Kernel) (s : Proxy) (a b : ℕ)
    (counts : List ℕ) (name : CString) (q_type : ℕ) (rest : List ℕ)
    (received : Received k s a b counts name q_type rest) where
  abbrev asked_query : Proxy
  asked_query = asking s a b counts name q_type rest

  -- The bytes of the query, as they go to the server.
  abbrev forwarded_query : List ℕ
  forwarded_query =
      take (length (take 512 received.datagram)) (layout a b counts name (asked q_type) rest)

  miss_lem :
      IsValid s.fqdn_table
      → view s.fqdn_table name ≡ none
      → thread_dnshandler inet_pton6 alloc k s
        ≡ ask_server inet_pton6 alloc k name q_type
            (length (take 512 received.datagram))
            asked_query
  unfolding thread_dnshandler handle_query get_nids_by_name fqdn_hash_lookup ask_server
  miss_lem valid new = rw (
    received.bound,
    received.query,
    modify_dns_query_lem a b counts name q_type rest (receive received.datagram s.buffer)
        received.holds,
    ◌>>=◌,
    hash_lookup-view s.fqdn_table name valid.sized,
    new,
  )

  module _ (f₁ f₂ : ℕ) (more : List ℕ) (type' : ℕ) (rest' : List ℕ)
      (exchange : Exchange k asked_query a b f₁ f₂ more name type' rest') where
    abbrev pub heard : Proxy
    heard = record s { buffer = receive exchange.datagram asked_query.buffer }

    ask_lem :
        IsValid s.fqdn_table
        → view s.fqdn_table name ≡ none
        → thread_dnshandler inet_pton6 alloc k s
          ≡ handle_response inet_pton6 alloc k name q_type
              (length (take 512 exchange.datagram))
              (some forwarded_query)
              heard
    unfolding ask_server handle_response send_answer answer_from_server
    ask_lem valid new = rw (miss_lem valid new, exchange.socket, exchange.sent, exchange.response)

    -- An error of the server is passed on, and the cached text is gone.
    pub thread_dnshandler_refused :
        IsValid s.fqdn_table
        → view s.fqdn_table name ≡ none
        → (bit_and (f₁ * 256 + f₂) 15 == 0) ≡ false
        → thread_dnshandler inet_pton6 alloc k s
          ≡ ok (record {
            proxy = record heard { ans_ans = zeros 256 };
            to_server = some forwarded_query;
            to_client = some (
                take
                  (length (take 512 exchange.datagram))
                  (receive exchange.datagram asked_query.buffer));
            running = k.answered;
          })
    unfolding handle_response send_answer
    thread_dnshandler_refused valid new refused =
        ask_lem valid new
        ∙ rw (
          analyse_refused a b f₁ f₂ more name type' rest' heard.buffer exchange.holds refused,
          ◌>>=◌,
        )

-- What an insertion into the cache leaves.
pub record Cached (name : CString) (t t' : HashTable CString NidsPointer) : Type 0 where
  pub valid : IsValid t'
  pub reads : (q : CString) → view t' q ≡ update (view t) name (some to_ans_ans) q

new_fqdnt_entry_lem :
    (name : CString) (t : HashTable CString NidsPointer)
    → IsValid t
    → Returns (new_fqdnt_entry true name to_ans_ans t) λ r. Cached name t r.1
unfolding new_fqdnt_entry fqdn_hash_insert
new_fqdnt_entry_lem name t valid =
    let ((old, t'), run, (returned, valid', reads)) = hash_insert_lem t name to_ans_ans valid in
    ((is_pointer old, t'), rw (run, ◌>>=◌), record { valid = valid'; reads = reads })

module _ (inet_pton6 : CString → Option Nid) (text6 : Nid → CString)
    (sized : (a : Nid) → IsNid a → length (text6 a) ≡ 39)
    (text : (a : Nid) → IsNid a → IsText (text6 a))
    (reads : (a : Nid) → IsNid a → inet_pton6 (text6 a) ≡ some a) (k : Kernel) (s : Proxy) (a b : ℕ)
    (counts : List ℕ) (name : CString) (q_type : ℕ) (rest : List ℕ)
    (received : Received k s a b counts name q_type rest) where
  -- The round has asked the server, and has learnt what it answered.
  pub record FromServer (f₁ f₂ : ℕ) (more : List ℕ) (r : Reply) (datagram : List ℕ) (nid nidr : Nid)
      (round : Round) : Type 0 where
    pub cached : Cached name s.fqdn_table round.proxy.fqdn_table
    pub kept_text :
        round.proxy.ans_ans
        ≡ nids_text (text6 nid) (text6 nidr)
          ++ zeros (256 - length (nids_text (text6 nid) (text6 nidr)))
    pub learnt : Named nid nidr s.names round.proxy.names
    pub asks_text :
        round.to_server
        ≡ some (
            take (length (take 512 received.datagram)) (layout a b counts name (asked q_type) rest))
    pub sent :
        round.to_client
        ≡ some (
            take
              (length (take 512 datagram))
              (rebuilt a b (f₁ ∷ f₂ ∷ more) name r q_type (address (nid2nid32 nid) nid q_type)))
    pub keeps_size : length round.proxy.buffer ≡ 512
    pub goes_on : round.running ≡ k.answered

  module _ (f₁ f₂ : ℕ) (more : List ℕ) (r : Reply)
      (exchange : Exchange k
        (asking s a b counts name q_type rest)
        a
        b
        f₁
        f₂
        more
        name
        16
        (reply_rest r))
      (is : IsReply r) where
    -- Under the same conditions on the texts, on well-formed tables, a query for an address of a
    -- name of at most 211 characters (199 for an IPv6 address) that is not in the cache goes to the
    -- server as a query for text. If the server answers without an error with the texts of two
    -- identifiers and the name of a name server of at most 255 bytes behind its first, the name is
    -- in the cache and no other is touched, the array `ansAns` holds the texts, the name mapper has
    -- recorded the identifiers as `newNMEntry` does, and the client is sent the response rewritten
    -- for its query, as long as the server's was. The buffer keeps its size, and the loop goes on
    -- if the answer can be sent.
    pub thread_dnshandler-FromServer :
        (nid nidr : Nid)
        → IsNid nid
        → IsNid nidr
        → IsNidMapper s.names
        → IsValid s.fqdn_table
        → view s.fqdn_table name ≡ none
        → (bit_and (f₁ * 256 + f₂) 15 == 0) ≡ true
        → r.text ≡ nids_text (text6 nid) (text6 nidr)
        → length r.ns_text ≤ 255
        → IsAddress q_type
        → length name + length (address (nid2nid32 nid) nid q_type) ≤ 215
        → Returns
            (thread_dnshandler inet_pton6 true k s)
            (FromServer f₁ f₂ more r exchange.datagram nid nidr)
    unfolding handle_response answer_from_server send_answer
    thread_dnshandler-FromServer nid nidr is₁ is₂ well valid new ok_flags says short asks room =
        let (names, learns, named) =
          learn_nids_lem inet_pton6 text6 sized text reads nid nidr
            (256 - length (nids_text (text6 nid) (text6 nidr))) s.names is₁ is₂ well in
        let ((inserted, t), run, stored) = new_fqdnt_entry_lem name s.fqdn_table valid in
        let buf = receive exchange.datagram (layout a b counts name (asked q_type) rest) in
        let texts : length (nids_text (text6 nid) (text6 nidr)) ≡ 79 =
          omega
            (arith, length_next 39 (text6 nid) (44 ∷ text6 nidr) (sized nid is₁), sized nidr is₂) in
        let text_fits : length r.text ≤ 256 = rw says (omega (arith, texts)) in
        let learns' : learn_nids inet_pton6 (r.text ++ zeros (256 - length r.text)) s.names
            ≡ ok (some (nid, names)) =
          rw says learns in
        let read =
          analyse_lem a b f₁ f₂ more name 16 r buf exchange.holds is ok_flags text_fits
            (omega (arith, short)) in
        let reply =
          rebuilt a b (f₁ ∷ f₂ ∷ more) name r q_type (address (nid2nid32 nid) nid q_type) in
        (
          record {
            proxy = record {
              fqdn_table = t;
              ans_ans = r.text ++ zeros (256 - length r.text);
              buffer = reply;
              names = names;
            };
            to_server = some (
                take (length (take 512 received.datagram))
                  (layout a b counts name (asked q_type) rest));
            to_client = some (take (length (take 512 exchange.datagram)) reply);
            running = k.answered;
          },
          ask_lem inet_pton6 true k s a b counts name q_type rest received f₁ f₂ more 16
                (reply_rest r) exchange valid new
              ∙ rw (
                read,
                ◌>>=◌,
                run,
                learns',
                same_nid32 nid is₁,
                build_dns_response_lem a b f₁ f₂ more name r buf exchange.holds is (nid2nid32 nid)
                    nid is₁.sixteen q_type asks (omega (arith, short)) room ok_flags,
              ),
          record {
            cached = stored;
            kept_text = rw says;
            learnt = named;
            asks_text = refl;
            sent = refl;
            keeps_size =
                length-rebuilt a b f₁ f₂ more name r buf exchange.holds is (nid2nid32 nid) nid
                  is₁.sixteen q_type asks (omega (arith, short)) room;
            goes_on = refl;
          },
        )
