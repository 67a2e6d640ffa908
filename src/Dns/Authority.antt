-- ===== src/Dns/Authority.antt =====
-- The authority's record of the name server's response.
use node_identity_architetur.Base.{
  ℕ, suc, ◌+◌, ◌-◌, ◌≤◌, ◌≡◌, ◌∙◌, sym, refl, List, ◌∷◌, ◌++◌, arith, length,
}
use node_identity_architetur.Dns.Question.{Holds}
use node_identity_architetur.Dns.Record.{
  Reply, IsReply, reply_rest, ns_head, answered, ns, length-answered, shape-answered,
  read-ns_length,
}
use node_identity_architetur.Dns.Response.{Authority, read_authority}
use node_identity_architetur.Memory.Splice.{
  joins, zeros, length_next, load_within, load16_within, load32_within, fill_lem,
}
use node_identity_architetur.Memory.{Buffer, copy_from, htons, htonl, load16, load32}
use node_identity_architetur.Nid.{CString}
use node_identity_architetur.Run.{ok, ◌>>=◌}

-- The fields as the function keeps them.
abbrev pub authority : Reply → Authority
authority r = record {
  name = r.ns_name;
  type' = r.ns_type;
  class = r.ns_class;
  ttl = r.ns_ttl;
  data_length = suc (length r.ns_text);
  ns = (r.ns_count ∷ r.ns_text) ++ zeros (256 - suc (length r.ns_text));
}

module _ (a b : ℕ) (counts : List ℕ) (name : CString) (type' : ℕ) (r : Reply) (buf : Buffer)
    (holds : Holds a b counts name type' (reply_rest r) buf) (is : IsReply r) where
  abbrev before_ns : List ℕ
  before_ns = answered a b counts name type' r buf holds is

  abbrev at_ns : ℕ
  at_ns = ns a b counts name type' r buf holds is

  abbrev after_ttl : List ℕ
  after_ttl = htons (suc (length r.ns_text)) ++ (r.ns_count ∷ (r.ns_text ++ r.tail))

  shape : buf ≡ before_ns ++ (ns_head r ++ after_ttl)
  shape = shape-answered a b counts name type' r buf holds is

  place : length before_ns ≡ at_ns
  place = length-answered a b counts name type' r buf holds is

  read-ns_name : load16 at_ns buf ≡ ok r.ns_name
  unfolding htons htonl
  read-ns_name =
      load16_within before_ns
        (htons r.ns_type ++ (htons r.ns_class ++ (htonl r.ns_ttl ++ after_ttl))) buf at_ns place
        r.ns_name is.name_word (shape ∙ sym (simp joins))

  read-ns_type : load16 (at_ns + 2) buf ≡ ok r.ns_type
  unfolding htons htonl
  read-ns_type =
      load16_within (before_ns ++ htons r.ns_name)
        (htons r.ns_class ++ (htonl r.ns_ttl ++ after_ttl)) buf (at_ns + 2)
        (length_next at_ns before_ns (htons r.ns_name) place) r.ns_type is.type_word
        (shape ∙ sym (simp joins))

  read-ns_class : load16 (at_ns + 4) buf ≡ ok r.ns_class
  unfolding htons htonl
  read-ns_class =
      load16_within (before_ns ++ (htons r.ns_name ++ htons r.ns_type))
        (htonl r.ns_ttl ++ after_ttl) buf (at_ns + 4)
        (length_next at_ns before_ns (htons r.ns_name ++ htons r.ns_type) place) r.ns_class
        is.class_word (shape ∙ sym (simp joins))

  read-ns_ttl : load32 (at_ns + 6) buf ≡ ok r.ns_ttl
  unfolding htons htonl
  read-ns_ttl =
      load32_within (before_ns ++ (htons r.ns_name ++ htons r.ns_type ++ htons r.ns_class))
        after_ttl buf (at_ns + 6)
        (length_next at_ns before_ns (htons r.ns_name ++ htons r.ns_type ++ htons r.ns_class) place)
        r.ns_ttl is.ttl_word (shape ∙ sym (simp joins))

  read-ns_data : copy_from (at_ns + 12) (suc (length r.ns_text)) buf ≡ ok (r.ns_count ∷ r.ns_text)
  unfolding htons htonl
  read-ns_data =
      load_within (before_ns ++ (ns_head r ++ htons (suc (length r.ns_text))))
        (r.ns_count ∷ r.ns_text) r.tail buf (at_ns + 12) (shape ∙ sym (simp joins))
        (length_next at_ns before_ns (ns_head r ++ htons (suc (length r.ns_text))) place)
        (suc (length r.ns_text)) refl

  pub read_authority_lem :
      suc (length r.ns_text) ≤ 256 → read_authority at_ns buf ≡ ok (authority r)
  unfolding read_authority
  read_authority_lem h =
      let at_length : at_ns + 6 + 4 ≡ at_ns + 10 = omega arith in
      let at_data : at_ns + 10 + 2 ≡ at_ns + 12 = omega arith in
      rw (
        read-ns_name,
        ◌>>=◌,
        read-ns_type,
        read-ns_class,
        read-ns_ttl,
        at_length,
        read-ns_length a b counts name type' r buf holds is,
        at_data,
        read-ns_data,
        fill_lem 256 (r.ns_count ∷ r.ns_text) h,
      )
