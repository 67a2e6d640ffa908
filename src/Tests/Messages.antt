-- ===== src/Tests/Messages.antt =====
-- Messages of the name server's protocol for the name `a`, and texts of 39 characters that spell
-- an identifier's bytes before a padding.
use node_identity_architetur.Base.{
  ℕ, suc, ◌+◌, ◌-◌, ◌≡◌, ◌∙◌, sym, ap, refl, true, Option, none, some, List, [], ◌∷◌, ◌++◌, arith,
  take, length, length-append, replicate,
}
use node_identity_architetur.Dns.Learn.{nids_text}
use node_identity_architetur.Dns.Fields.{message}
use node_identity_architetur.Dns.Made.{build_made_lem}
use node_identity_architetur.Dns.Question.{layout, Holds}
use node_identity_architetur.Dns.Rebuilt.{rebuilt, build_dns_response_lem}
use node_identity_architetur.Dns.Record.{Reply, IsReply, reply_rest, analyse_overflow}
use node_identity_architetur.Dns.Response.{build_dns_response, build_dns_response_with_fqdn_table}
use node_identity_architetur.Dns.{analyse_dns_response}
use node_identity_architetur.Memory.Splice.{IsText, zeros}
use node_identity_architetur.Memory.{Buffer, htons, htonl}
use node_identity_architetur.Nid.{Nid, CString, IsNid}
use node_identity_architetur.Run.{ok, out_of_bounds}
use node_identity_architetur.Tests.Data.{alice, bob}

abbrev pub letters : List ℕ → CString
letters [] = []
letters (b ∷ bs) = (b + 200) ∷ letters bs

abbrev pub unletters : CString → List ℕ
unletters [] = []
unletters (c ∷ cs) = (c - 200) ∷ unletters cs

abbrev pub padding : CString
padding = replicate 23 48

abbrev pub long6 : Nid → CString
long6 a = letters a.u6_addr8 ++ padding

abbrev pub pton6 : CString → Option Nid
pton6 [] = none
pton6 (c ∷ cs) = some (record { u6_addr8 = unletters (take 16 (c ∷ cs)) })

length-letters : (bs : List ℕ) → length (letters bs) ≡ length bs
length-letters [] = refl
length-letters (b ∷ bs) = ap suc (length-letters bs)

unletters-take : (bs : List ℕ) → unletters (take (length bs) (letters bs ++ padding)) ≡ bs
unletters-take [] = refl
unletters-take (b ∷ bs) = let same : b + 200 - 200 ≡ b = omega arith in rw (same, unletters-take bs)

pub length-long6 : (a : Nid) → IsNid a → length (long6 a) ≡ 39
length-long6 a is =
    omega (arith, length-append (letters a.u6_addr8) padding, length-letters a.u6_addr8, is.sixteen)

letters-IsText : (bs : List ℕ) → IsText (letters bs ++ padding)
letters-IsText [] = ground arith
letters-IsText (b ∷ bs) = (ground arith, letters-IsText bs)

pub long6-IsText : (a : Nid) → IsNid a → IsText (long6 a)
long6-IsText a is = letters-IsText a.u6_addr8

pton6-letters :
    (bs : List ℕ) → length bs ≡ 16 → pton6 (letters bs ++ padding) ≡ some (record { u6_addr8 = bs })
pton6-letters [] e = absurd (omega (arith, e))
pton6-letters (b ∷ bs) e =
    let read : unletters (take (length (b ∷ bs)) (letters (b ∷ bs) ++ padding)) ≡ b ∷ bs =
      unletters-take (b ∷ bs) in
    let read' : unletters (take 16 (letters (b ∷ bs) ++ padding)) ≡ b ∷ bs =
      ap (λ n. unletters (take n (letters (b ∷ bs) ++ padding))) (sym e) ∙ read in
    ap (λ xs. some (record { u6_addr8 = xs })) read'

pub pton6-long6 : (a : Nid) → IsNid a → pton6 (long6 a) ≡ some a
pton6-long6 a is = pton6-letters a.u6_addr8 is.sixteen

pub alice-IsNid : IsNid alice
alice-IsNid = record { sixteen = refl; bytes = ground arith }

pub bob-IsNid : IsNid bob
bob-IsNid = record { sixteen = refl; bytes = ground arith }

abbrev pub name_a : CString
name_a = 1 ∷ 97 ∷ []

abbrev pub counts : List ℕ
counts = 1 ∷ 0 ∷ 0 ∷ 1 ∷ 0 ∷ 0 ∷ 0 ∷ 0 ∷ 0 ∷ 0 ∷ []

-- Class 1, and nothing more.
abbrev pub no_more : List ℕ
no_more = 0 ∷ 1 ∷ zeros 493

-- A query for the address of the name.
abbrev pub query_a : Buffer
query_a = layout 7 8 counts name_a 1 no_more

pub query_a-Holds : Holds 7 8 counts name_a 1 no_more query_a
unfolding htons
query_a-Holds = record {
  ten = refl;
  text = ground arith;
  short = omega arith;
  word = omega arith;
  sized = refl;
  shape = refl;
}

abbrev pub texts : CString
texts = nids_text (long6 alice) (long6 bob)

abbrev pub reply_a : Reply
reply_a = record {
  class_name = 0 ∷ 1 ∷ 192 ∷ 12 ∷ [];
  answer_type = 16;
  class_ttl = 0 ∷ 1 ∷ 0 ∷ 0 ∷ 0 ∷ 60 ∷ [];
  count = 79;
  text = texts;
  ns_name = 49164;
  ns_type = 2;
  ns_class = 1;
  ns_ttl = 60;
  ns_count = 1;
  ns_text = 98 ∷ 0 ∷ [];
  tail = zeros 386;
}

pub reply_a-IsReply : IsReply reply_a
reply_a-IsReply = record {
  four = refl;
  six = refl;
  text_short = omega arith;
  ns_short = omega arith;
  name_word = omega arith;
  type_word = omega arith;
  class_word = omega arith;
  ttl_word = omega arith;
}

abbrev pub more : List ℕ
more = 0 ∷ 1 ∷ 0 ∷ 1 ∷ 0 ∷ 1 ∷ 0 ∷ 0 ∷ []

abbrev pub answer_a : Buffer
answer_a = layout 7 8 (129 ∷ 128 ∷ more) name_a 16 (reply_rest reply_a)

pub answer_a-sized : length answer_a ≡ 512
unfolding htons htonl
answer_a-sized = refl

pub answer_a-Holds : Holds 7 8 (129 ∷ 128 ∷ more) name_a 16 (reply_rest reply_a) answer_a
answer_a-Holds = record {
  ten = refl;
  text = ground arith;
  short = omega arith;
  word = omega arith;
  sized = answer_a-sized;
  shape = refl;
}

build_made_lem_example :
    build_dns_response_with_fqdn_table query_a 5 alice 28
    ≡ ok (true, message (7 ∷ 8 ∷ []) name_a 28 alice.u6_addr8 ++ zeros 456)
build_made_lem_example =
    build_made_lem 7 8 counts name_a 1 no_more query_a query_a-Holds 5 alice 28 refl refl

build_dns_response_lem_example :
    build_dns_response answer_a 5 alice 28
    ≡ ok (true, rebuilt 7 8 (129 ∷ 128 ∷ more) name_a reply_a 28 alice.u6_addr8)
build_dns_response_lem_example =
    build_dns_response_lem 7 8 129 128 more name_a reply_a answer_a answer_a-Holds reply_a-IsReply 5
      alice refl 28 refl (omega arith) (omega arith) refl

-- A text of 300 bytes
abbrev long_reply : Reply
long_reply = record reply_a { text = replicate 300 48; tail = zeros 165 }

abbrev long_answer : Buffer
long_answer = layout 7 8 (129 ∷ 128 ∷ more) name_a 16 (reply_rest long_reply)

long_reply-IsReply : IsReply long_reply
long_reply-IsReply = record {
  four = refl;
  six = refl;
  text_short = omega arith;
  ns_short = omega arith;
  name_word = omega arith;
  type_word = omega arith;
  class_word = omega arith;
  ttl_word = omega arith;
}

long_answer-sized : length long_answer ≡ 512
unfolding htons htonl
long_answer-sized = refl

long_answer-Holds : Holds 7 8 (129 ∷ 128 ∷ more) name_a 16 (reply_rest long_reply) long_answer
long_answer-Holds = record {
  ten = refl;
  text = ground arith;
  short = omega arith;
  word = omega arith;
  sized = long_answer-sized;
  shape = refl;
}

analyse_overflow_example : analyse_dns_response long_answer ≡ out_of_bounds
analyse_overflow_example =
    analyse_overflow 7 8 129 128 more name_a 16 long_reply long_answer long_answer-Holds
      long_reply-IsReply refl (omega arith)
