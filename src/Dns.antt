-- ===== src/Dns.antt =====
-- dnshandler.c, the proxy between applications and the name server: a query for an address becomes
-- a query for text, and the identifiers in the text become an address again.
pub mod Kept
pub mod Response
pub mod Made
pub mod Fields
pub mod Rewrite
pub mod Sized
pub mod Cache
pub mod Served
pub mod Rounds
pub mod Learn
pub mod Proxy
pub mod Authority
pub mod Rebuilt
pub mod Refused
pub mod Record
pub mod Question
use node_identity_architetur.Base.{
  ℕ, ◌+◌, ◌-◌, ◌^◌, Bool, true, false, ◌||◌, List, [], ◌∷◌, ◌==◌, if◌then◌else◌, length, bit_and,
}
use node_identity_architetur.Memory.{Buffer, copy_from, copy_to, fill, strcpy, htons, load16}
use node_identity_architetur.Nid.{CString}
use node_identity_architetur.Run.{Run, ok, ◌>>=◌}

-- Of the two files
abbrev pub dns_maxnamelength : ℕ
dns_maxnamelength = 255

abbrev pub nidchar_maxlength : ℕ
nidchar_maxlength = 39

abbrev pub buffer_length : ℕ
buffer_length = 512

-- `sizeof(struct dnshdr)`
abbrev pub dnshdr : ℕ
dnshdr = 12

-- What the function leaves in its three arguments
pub record Query : Type 0 where
  pub buf : Buffer
  pub fqdn : CString
  pub query_type : ℕ

-- The query's type, replaced if it is that of an address.
unfoldable pub ask_for_text : ℕ → ℕ → Buffer → Run Buffer
ask_for_text at query_type buf =
    if (query_type == 1) || (query_type == 28) then copy_to at (htons 16) buf else ok buf

unfoldable pub modify_dns_query : Buffer → Run Query
modify_dns_query buf = do
  query_name ← strcpy (dns_maxnamelength + 1) dnshdr buf
  query_type ← load16 (1 + dnshdr + length query_name) buf
  buf' ← ask_for_text (1 + dnshdr + length query_name) query_type buf
  ok (record { buf = buf'; fqdn = query_name; query_type = query_type })

-- The result, and what is left in the arguments; `accepted` stands for the result 0, else it is -1.
pub record Analysis : Type 0 where
  pub accepted : Bool
  pub query_name : CString
  pub answer_ans : Buffer
  pub ns_ns : Buffer

-- `length - 1` as the last argument of `memcpy`, a `size_t` of 32 bits.
unfoldable pub text_size : ℕ → ℕ
text_size data_length = if data_length == 0 then 2 ^ 32 - 1 else data_length - 1

-- The text of a record's data, behind the byte that counts it, copied into an array.
unfoldable pub copy_text : ℕ → ℕ → Buffer → Run Buffer
copy_text at data_length buf = do
  text ← copy_from at (text_size data_length) buf
  fill (dns_maxnamelength + 1) text

unfoldable pub analyse_answers : CString → Buffer → Run Analysis
analyse_answers query_name buf = do
  answer_data_length ← load16 (1 + dnshdr + length query_name + 10 + 4) buf
  answer_ans ← copy_text (dnshdr + length query_name + 2 + 12 + 4) answer_data_length buf
  ns_data_length ← load16 (1 + dnshdr + length query_name + 12 + 4 + answer_data_length + 6 + 4) buf
  ns_ns ←
      copy_text (dnshdr + length query_name + 2 + 12 + 4 + answer_data_length + 6 + 4 + 2)
        ns_data_length buf
  ok (record { accepted = true; query_name = query_name; answer_ans = answer_ans; ns_ns = ns_ns })

unfoldable pub analyse_dns_response : Buffer → Run Analysis
analyse_dns_response buf = do
  empty ← fill (dns_maxnamelength + 1) []
  query_name ← strcpy (dns_maxnamelength + 1) dnshdr buf
  flags ← load16 2 buf
  if bit_and flags 15 == 0
      then analyse_answers query_name buf
      else ok
          (record { accepted = false; query_name = query_name; answer_ans = empty; ns_ns = empty })

-- The two texts, each an array of 40 bytes.
unfoldable pub get_nids : Buffer → Run (Buffer × Buffer)
get_nids nidtuple = do
  nnid ← copy_from 0 nidchar_maxlength nidtuple
  nnid' ← fill (nidchar_maxlength + 1) nnid
  nnidr ← copy_from (nidchar_maxlength + 1) nidchar_maxlength nidtuple
  nnidr' ← fill (nidchar_maxlength + 1) nnidr
  ok (nnid', nnidr')
