-- ===== src/Dns/Response.antt =====
-- The two functions of dnshandler.c that write a response.
use node_identity_architetur.Base.{
  ℕ, ◌+◌, Bool, true, false, ◌&&◌, ◌||◌, List, ◌==◌, if◌then◌else◌, length, replicate, bit_and,
}
use node_identity_architetur.Dns.{dns_maxnamelength, dnshdr, buffer_length}
use node_identity_architetur.Memory.{
  Buffer, copy_from, copy_to, fill, strcpy, htons, htonl, load16, load32,
}
use node_identity_architetur.Nid.{Nid, Nid32, bytes32}
use node_identity_architetur.Run.{Run, ok, ◌>>=◌}

-- The answer's record from the end of the name in the question: its type, data, and their length.
unfoldable pub write_answer : ℕ → ℕ → List ℕ → ℕ → Buffer → Run Buffer
write_answer at type' data' data_length buf = do
  buf₁ ← copy_to (at + 6) (htons type') buf
  buf₂ ← copy_to (at + 12 + 4) data' buf₁
  copy_to (at + 10 + 4) (htons data_length) buf₂

-- The authority's record: `nsName`, `nsType`, `nsClass`, `nsTTL`, `nsDataLength` and `nsNs`.
pub record Authority : Type 0 where
  pub name : ℕ
  pub type' : ℕ
  pub class : ℕ
  pub ttl : ℕ
  pub data_length : ℕ
  pub ns : Buffer

unfoldable pub read_authority : ℕ → Buffer → Run Authority
read_authority at buf = do
  name ← load16 at buf
  type' ← load16 (at + 2) buf
  class ← load16 (at + 4) buf
  ttl ← load32 (at + 6) buf
  data_length ← load16 (at + 6 + 4) buf
  data' ← copy_from (at + 6 + 4 + 2) data_length buf
  ns ← fill (dns_maxnamelength + 1) data'
  ok (record {
    name = name;
    type' = type';
    class = class;
    ttl = ttl;
    data_length = data_length;
    ns = ns;
  })

unfoldable pub write_authority : ℕ → Authority → Buffer → Run Buffer
write_authority at a buf = do
  buf₁ ← copy_to at (htons a.name) buf
  buf₂ ← copy_to (at + 2) (htons a.type') buf₁
  buf₃ ← copy_to (at + 4) (htons a.class) buf₂
  buf₄ ← copy_to (at + 6) (htonl a.ttl) buf₃
  buf₅ ← copy_to (at + 6 + 4) (htons a.data_length) buf₄
  buf₆ ← copy_to (at + 6 + 4 + 2) (replicate (dns_maxnamelength + 1) 0) buf₅
  data' ← copy_from 0 a.data_length a.ns
  copy_to (at + 6 + 4 + 2) data' buf₆

-- The question's type
unfoldable pub write_question : ℕ → ℕ → ℕ → Buffer → Run Buffer
write_question at query_type q_type buf =
    if (query_type == 16) && ((q_type == 1) || (q_type == 28))
    then copy_to at (htons q_type) buf
    else ok buf

unfoldable pub write_address : ℕ → Nid32 → Nid → ℕ → Buffer → Run Buffer
write_address at nid32addr nidaddr q_type buf =
    if q_type == 1
    then write_answer at 1 (bytes32 nid32addr) 4 buf
    else (if q_type == 28 then write_answer at 28 nidaddr.u6_addr8 16 buf else ok buf)

-- The new data is shorter or longer than the text, and the authority's record moves behind it.
unfoldable pub replace_answer : ℕ → Nid32 → Nid → ℕ → Authority → Buffer → Run (Bool × Buffer)
replace_answer at nid32addr nidaddr q_type a buf = do
  buf₁ ← write_address at nid32addr nidaddr q_type buf
  answer_data_length ← load16 (at + 10 + 4) buf₁
  buf₂ ← write_authority (at + 12 + 4 + answer_data_length) a buf₁
  ok (true, buf₂)

-- `true` stands for the result 0, `false` for -1.
unfoldable pub build_dns_response : Buffer → Nid32 → Nid → ℕ → Run (Bool × Buffer)
build_dns_response buf nid32addr nidaddr q_type = do
  query_name ← strcpy (dns_maxnamelength + 1) dnshdr buf
  let at = 1 + dnshdr + length query_name
  query_type ← load16 at buf
  answer_data_length ← load16 (at + 10 + 4) buf
  a ← read_authority (at + 12 + 4 + answer_data_length) buf
  buf₁ ← write_question at query_type q_type buf
  flags ← load16 2 buf₁
  if (query_type == 16) && (bit_and flags 15 == 0)
      then replace_answer at nid32addr nidaddr q_type a buf₁
      else ok (false, buf₁)

-- The header of a response that the proxy makes itself: `flags` is 34176.
unfoldable pub write_header : List ℕ → Buffer → Run Buffer
write_header transaction_id buf = do
  buf₁ ← copy_to 0 transaction_id buf
  buf₂ ← copy_to 2 (htons 34176) buf₁
  buf₃ ← copy_to 4 (htons 1) buf₂
  buf₄ ← copy_to 6 (htons 1) buf₃
  buf₅ ← copy_to 8 (htons 1) buf₄
  copy_to 10 (htons 0) buf₅

-- A type is written for the two kinds of addresses alone.
unfoldable pub write_type : ℕ → ℕ → Buffer → Run Buffer
write_type at q_type buf =
    if (q_type == 1) || (q_type == 28) then copy_to at (htons q_type) buf else ok buf

-- The question's type and class, and the answer's name, type, class and time to live.
unfoldable pub write_records : ℕ → ℕ → Buffer → Run Buffer
write_records at q_type buf = do
  buf₁ ← write_type at q_type buf
  buf₂ ← copy_to (at + 2) (htons 1) buf₁
  buf₃ ← copy_to (at + 4) (htons 49164) buf₂
  buf₄ ← write_type (at + 6) q_type buf₃
  buf₅ ← copy_to (at + 8) (htons 1) buf₄
  copy_to (at + 10) (htonl 60) buf₅

-- The length of the data, and the data.
unfoldable pub write_data : ℕ → List ℕ → ℕ → Buffer → Run Buffer
write_data at data' data_length buf = do
  buf₁ ← copy_to (at + 10 + 4) (htons data_length) buf
  copy_to (at + 12 + 4) data' buf₁

-- The authority's type, class and time to live.
unfoldable pub write_made_authority : ℕ → Buffer → Run (Bool × Buffer)
write_made_authority at buf = do
  buf₁ ← copy_to (at + 1) (htons 2) buf
  buf₂ ← copy_to (at + 1 + 2) (htons 1) buf₁
  buf₃ ← copy_to (at + 1 + 4) (htonl 60) buf₂
  ok (true, buf₃)

unfoldable pub write_rest : ℕ → Nid32 → Nid → ℕ → Buffer → Run (Bool × Buffer)
write_rest at nid32addr nidaddr q_type buf =
    if q_type == 1
    then write_data at (bytes32 nid32addr) 4 buf >>= write_made_authority (at + 12 + 4 + 4)
    else (if q_type == 28
        then write_data at nidaddr.u6_addr8 16 buf >>= write_made_authority (at + 12 + 4 + 16)
        else ok (false, buf))

unfoldable pub build_dns_response_with_fqdn_table : Buffer → Nid32 → Nid → ℕ → Run (Bool × Buffer)
build_dns_response_with_fqdn_table buf nid32addr nidaddr q_type = do
  transaction_id ← copy_from 0 2 buf
  query_name ← strcpy (dns_maxnamelength + 1) dnshdr buf
  buf₁ ← copy_to 0 (replicate buffer_length 0) buf
  buf₂ ← write_header transaction_id buf₁
  buf₃ ← copy_to dnshdr query_name buf₂
  buf₄ ← write_records (1 + dnshdr + length query_name) q_type buf₃
  write_rest (1 + dnshdr + length query_name) nid32addr nidaddr q_type buf₄
