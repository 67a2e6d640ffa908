-- ===== src/Tests/Proxies.antt =====
-- Rounds of the proxy for one name, from an empty cache.
use node_identity_architetur.Base.{
  ◌≡◌, ◌∙◌, ◌==◌, if◌then◌else◌, Bool-cases, inl, inr, refl, true, false, none, some, [], ◌∷◌,
  arith, ap, length,
}
use node_identity_architetur.Chain.{find}
use node_identity_architetur.Dns.Cache.{served-FromCache, refused-stop, forgetful}
use node_identity_architetur.Dns.Proxy.{
  Proxy, Kernel, NidsPointer, to_ans_ans, receive, thread_dnshandler,
}
use node_identity_architetur.Dns.Question.{layout}
use node_identity_architetur.Dns.Record.{reply_rest}
use node_identity_architetur.Dns.Rounds.{Received, FromCache, asking}
use node_identity_architetur.Dns.Sized.{receive_full}
use node_identity_architetur.Dns.Served.{Exchange, FromServer, thread_dnshandler-FromServer}
use node_identity_architetur.Memory.Splice.{zeros}
use node_identity_architetur.Memory.{Buffer, htons, htonl, splice}
use node_identity_architetur.Nid.{CString, fqdn_key, bytes32, bytes_eq}
use node_identity_architetur.Run.{Returns}
use node_identity_architetur.Table.View.{IsValid, view, home}
use node_identity_architetur.Table.{HashTable}
use node_identity_architetur.Tests.Data.{alice, bob, ph, names-IsNidMapper}
use node_identity_architetur.Tests.Messages.{
  pton6, long6, length-long6, long6-IsText, pton6-long6, alice-IsNid, bob-IsNid, name_a, counts,
  no_more, query_a, query_a-Holds, reply_a, reply_a-IsReply, more, answer_a, answer_a-Holds,
}

abbrev name_b : CString
name_b = 1 ∷ 98 ∷ []

-- The cache holds the other name.
abbrev one_name : HashTable CString NidsPointer
one_name = record { size = 1; table = λ i. if i == 0 then (name_b, to_ans_ans) ∷ [] else [] }

modulo_one : (q : CString) → home q one_name ≡ 0
modulo_one q = omega arith

one_name-IsValid : IsValid one_name
unfolding find
one_name-IsValid = record {
  sized = omega arith;
  unique =
      λ i. elim (Bool-cases (i == 0)) [ inl first ↦ rw first (refl, tt) | inr other ↦ rw other tt ];
  placed = λ i q h. let other : (i == 0) ≡ false = rw (← modulo_one q) h in rw other;
}

one_name-a : view one_name name_a ≡ none
unfolding view find bytes_eq
one_name-a = rw (modulo_one name_a)

one_name-b : view one_name name_b ≡ some to_ans_ans
unfolding view find bytes_eq
one_name-b = rw (modulo_one name_b)

abbrev proxy : Proxy
proxy = record { fqdn_table = one_name; ans_ans = zeros 256; buffer = zeros 512; names = ph.names }

abbrev kernel : Kernel
kernel = record {
  bound = true;
  query = some query_a;
  server_socket = true;
  forwarded = true;
  response = some answer_a;
  answered = true;
}

received : Received kernel proxy 7 8 counts name_a 1 no_more
unfolding receive splice htons
received = record { datagram = query_a; bound = refl; query = refl; holds = query_a-Holds }

exchange :
    Exchange kernel
      (asking proxy 7 8 counts name_a 1 no_more)
      7
      8
      129
      128
      more
      name_a
      16
      (reply_rest reply_a)
unfolding receive splice htons htonl
exchange = record {
  datagram = answer_a;
  socket = refl;
  sent = refl;
  response = refl;
  holds = answer_a-Holds;
}

served : Returns (thread_dnshandler pton6 true kernel proxy) (
    FromServer pton6 long6 length-long6 long6-IsText pton6-long6 kernel proxy 7 8 counts name_a 1
      no_more received 129 128 more reply_a exchange.datagram alice bob)
unfolding bytes32
served =
    thread_dnshandler-FromServer pton6 long6 length-long6 long6-IsText pton6-long6 kernel proxy 7 8
      counts name_a 1 no_more received 129 128 more reply_a exchange reply_a-IsReply alice bob
      alice-IsNid bob-IsNid names-IsNidMapper one_name-IsValid one_name-a refl refl (omega arith)
      refl (omega arith)

thread_dnshandler-FromServer_example : Returns (thread_dnshandler pton6 true kernel proxy) (
    FromServer pton6 long6 length-long6 long6-IsText pton6-long6 kernel proxy 7 8 counts name_a 1
      no_more received 129 128 more reply_a exchange.datagram alice bob)
unfolding bytes32
thread_dnshandler-FromServer_example =
    thread_dnshandler-FromServer pton6 long6 length-long6 long6-IsText pton6-long6 kernel proxy 7 8
      counts name_a 1 no_more received 129 128 more reply_a exchange reply_a-IsReply alice bob
      alice-IsNid bob-IsNid names-IsNidMapper one_name-IsValid one_name-a refl refl (omega arith)
      refl (omega arith)

-- The other name is asked for.
abbrev query_b : Buffer
query_b = layout 9 9 counts name_b 1 no_more

query_b-sized : length query_b ≡ 512
unfolding htons
query_b-sized = refl

abbrev kernel_b : Kernel
kernel_b = record kernel { query = some query_b }

received_b : (s : Proxy) → length s.buffer ≡ 512 → Received kernel_b s 9 9 counts name_b 1 no_more
received_b s sized = record {
  datagram = query_b;
  bound = refl;
  query = refl;
  holds = record {
    ten = refl;
    text = ground arith;
    short = omega arith;
    word = omega arith;
    sized = ap length (receive_full query_b s.buffer query_b-sized sized) ∙ query_b-sized;
    shape = receive_full query_b s.buffer query_b-sized sized;
  };
}

-- The name in the cache is answered with the other name's identifiers.
served-FromCache_example : Returns (thread_dnshandler pton6 true kernel_b served.0.proxy) (
    FromCache pton6 long6 length-long6 long6-IsText pton6-long6 kernel_b served.0.proxy 9 9 name_b 1
      alice bob)
served-FromCache_example =
    served-FromCache pton6 long6 length-long6 long6-IsText pton6-long6 kernel proxy 7 8 counts
      name_a 1 no_more received 129 128 more reply_a exchange.datagram alice bob served.0 served.2
      alice-IsNid bob-IsNid true kernel_b 9 9 counts name_b 1 no_more
      (received_b served.0.proxy served.2.keeps_size) (inr one_name-b) refl

-- The server knows no such name: error 3.
abbrev answer_none : Buffer
answer_none = layout 7 8 (129 ∷ 131 ∷ more) name_a 16 no_more

abbrev kernel_none : Kernel
kernel_none = record kernel { response = some answer_none }

received_none : Received kernel_none proxy 7 8 counts name_a 1 no_more
unfolding receive splice htons
received_none = record { datagram = query_a; bound = refl; query = refl; holds = query_a-Holds }

refusal :
    Exchange kernel_none
      (asking proxy 7 8 counts name_a 1 no_more)
      7
      8
      129
      131
      more
      name_a
      16
      no_more
unfolding receive splice htons
refusal = record {
  datagram = answer_none;
  socket = refl;
  sent = refl;
  response = refl;
  holds = record {
    ten = refl;
    text = ground arith;
    short = omega arith;
    word = omega arith;
    sized = refl;
    shape = refl;
  };
}

abbrev after_refusal : Proxy
after_refusal =
    forgetful pton6 refl true kernel_none kernel_b proxy 7 8 counts name_a 1 no_more received_none
      129 131 more 16 no_more refusal

after_refusal-sized : length after_refusal.buffer ≡ 512
unfolding receive splice htons refusal
after_refusal-sized = refl

refused-stop_example : Returns (thread_dnshandler pton6 true kernel_none proxy) λ round.
    (round.running ≡ true)
    × Returns
        (thread_dnshandler pton6 true kernel_b round.proxy)
        λ round'. (round'.to_client ≡ none) × (round'.running ≡ false)
refused-stop_example =
    refused-stop pton6 refl true kernel_none kernel_b proxy 7 8 counts name_a 1 no_more
      received_none 129 131 more 16 no_more refusal 9 9 counts name_b 1 no_more one_name-IsValid
      one_name-a refl (received_b after_refusal after_refusal-sized) one_name-b
