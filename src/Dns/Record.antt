-- ===== src/Dns/Record.antt =====
-- What the proxy reads in the name server's response.
use node_identity_architetur.Base.{
  ℕ, suc, ◌+◌, ◌-◌, ◌*◌, ◌<◌, ◌≤◌, ◌≡◌, ◌∙◌, sym, refl, true, false, List, [], ◌∷◌, ◌++◌, ◌==◌,
  arith, length, bit_and, leb,
}
use node_identity_architetur.Dns.Question.{Holds, shape_behind, length-before, before, read_name}
use node_identity_architetur.Dns.Refused.{read-flags}
use node_identity_architetur.Dns.{
  Analysis, text_size, copy_text, analyse_answers, analyse_dns_response,
}
use node_identity_architetur.Memory.Splice.{
  load_within, load16_within, joins, zeros, length_next, fill_lem,
}
use node_identity_architetur.Memory.{Buffer, copy_from, fill, htons, htonl, load16}
use node_identity_architetur.Nid.{CString}
use node_identity_architetur.Run.{ok, out_of_bounds, ◌>>=◌}

-- A response of one answer and one authority. An answer's data is a text behind one byte, its
-- length; so is the first label of the name server's name.
pub record Reply : Type 0 where
  pub class_name : List ℕ
  pub answer_type : ℕ
  pub class_ttl : List ℕ
  pub count : ℕ
  pub text : List ℕ
  pub ns_name : ℕ
  pub ns_type : ℕ
  pub ns_class : ℕ
  pub ns_ttl : ℕ
  pub ns_count : ℕ
  pub ns_text : List ℕ
  pub tail : List ℕ

pub record IsReply (r : Reply) : Type 0 where
  pub four : length r.class_name ≡ 4
  pub six : length r.class_ttl ≡ 6
  pub text_short : length r.text < 65535
  pub ns_short : length r.ns_text < 65535
  pub name_word : r.ns_name < 65536
  pub type_word : r.ns_type < 65536
  pub class_word : r.ns_class < 65536
  pub ttl_word : r.ns_ttl < 4294967296

-- The fields of the authority up to its length.
abbrev pub ns_head : Reply → List ℕ
ns_head r = htons r.ns_name ++ (htons r.ns_type ++ (htons r.ns_class ++ htonl r.ns_ttl))

abbrev pub ns_rest : Reply → List ℕ
ns_rest r = ns_head r ++ (htons (suc (length r.ns_text)) ++ (r.ns_count ∷ (r.ns_text ++ r.tail)))

-- What follows the answer's time to live.
abbrev pub answer_rest : Reply → List ℕ
answer_rest r = htons (suc (length r.text)) ++ (r.count ∷ (r.text ++ ns_rest r))

-- What follows the question's type.
abbrev pub reply_rest : Reply → List ℕ
reply_rest r = r.class_name ++ (htons r.answer_type ++ (r.class_ttl ++ answer_rest r))

module _ (a b : ℕ) (counts : List ℕ) (name : CString) (type' : ℕ) (r : Reply) (buf : Buffer)
    (holds : Holds a b counts name type' (reply_rest r) buf) (is : IsReply r) where
  -- The message up to the answer's length.
  abbrev pub head : List ℕ
  head =
      before a b counts name type' (reply_rest r) buf holds
      ++ 0 ∷ []
      ++ htons type'
      ++ r.class_name
      ++ htons r.answer_type
      ++ r.class_ttl

  abbrev pub at : ℕ
  at = 1 + 12 + length name

  length-head : length head ≡ at + 14
  unfolding htons
  length-head =
      let p₀ = before a b counts name type' (reply_rest r) buf holds in
      let l₀ = length-before a b counts name type' (reply_rest r) buf holds in
      let p₁ = p₀ ++ 0 ∷ [] in
      let l₁ = length_next (12 + length name) p₀ (0 ∷ []) l₀ in
      let p₂ = p₁ ++ htons type' in
      let l₂ = length_next (12 + length name + 1) p₁ (htons type') l₁ in
      let p₃ = p₂ ++ r.class_name in
      let l₃ = length_next (12 + length name + 1 + 2) p₂ r.class_name l₂ in
      let p₄ = p₃ ++ htons r.answer_type in
      let l₄ : length p₄ ≡ 12 + length name + 9 = omega (
        arith,
        length_next (12 + length name + 3 + 4) p₃ (htons r.answer_type)
            (omega (arith, l₃, is.four)),
      ) in
      omega (arith, length_next (12 + length name + 9) p₄ r.class_ttl l₄, is.six)

  shape-head : buf ≡ head ++ answer_rest r
  unfolding htons
  shape-head = shape_behind a b counts name type' (reply_rest r) buf holds ∙ sym (simp joins)

  pub shape-text :
      buf ≡ (head ++ htons (suc (length r.text)) ++ r.count ∷ []) ++ (r.text ++ ns_rest r)
  unfolding htons
  shape-text = shape-head ∙ sym (simp joins)

  pub read-length : load16 (at + 14) buf ≡ ok (suc (length r.text))
  read-length =
      load16_within head (r.count ∷ (r.text ++ ns_rest r)) buf (at + 14) length-head
        (suc (length r.text)) (omega (arith, is.text_short)) shape-head

  pub length-text : length (head ++ htons (suc (length r.text)) ++ r.count ∷ []) ≡ at + 17
  unfolding htons
  length-text =
      let p = head ++ htons (suc (length r.text)) in
      let l = length_next (at + 14) head (htons (suc (length r.text))) length-head in
      omega (arith, length_next (at + 14 + 2) p (r.count ∷ []) l)

  read-text : copy_from (at + 17) (length r.text) buf ≡ ok r.text
  read-text =
      load_within (head ++ htons (suc (length r.text)) ++ r.count ∷ []) r.text (ns_rest r) buf
        (at + 17) shape-text length-text (length r.text) refl

  -- The message up to the answer's end.
  abbrev pub answered : List ℕ
  answered = head ++ htons (suc (length r.text)) ++ r.count ∷ [] ++ r.text

  abbrev pub ns : ℕ
  ns = at + 16 + suc (length r.text)

  pub length-answered : length answered ≡ ns
  length-answered = omega (
    arith,
    length_next (at + 17) (head ++ htons (suc (length r.text)) ++ r.count ∷ []) r.text length-text,
  )

  pub shape-answered : buf ≡ answered ++ ns_rest r
  unfolding htons htonl
  shape-answered = shape-text ∙ sym (simp joins)

  pub read-ns_length : load16 (ns + 10) buf ≡ ok (suc (length r.ns_text))
  unfolding htons htonl
  read-ns_length =
      load16_within (answered ++ ns_head r) (r.ns_count ∷ (r.ns_text ++ r.tail)) buf (ns + 10)
        (length_next ns answered (ns_head r) length-answered) (suc (length r.ns_text))
        (omega (arith, is.ns_short)) (shape-answered ∙ sym (simp joins))

  read-ns_text : copy_from (ns + 13) (length r.ns_text) buf ≡ ok r.ns_text
  unfolding htons htonl
  read-ns_text =
      load_within (answered ++ (ns_head r ++ htons (suc (length r.ns_text)) ++ r.ns_count ∷ []))
        r.ns_text r.tail buf (ns + 13) (shape-answered ∙ sym (simp joins))
        (length_next ns answered (ns_head r ++ htons (suc (length r.ns_text)) ++ r.ns_count ∷ [])
          length-answered)
        (length r.ns_text) refl

  copy_answer :
      length r.text ≤ 256
      → copy_text (12 + length name + 2 + 12 + 4) (suc (length r.text)) buf
        ≡ ok (r.text ++ zeros (256 - length r.text))
  unfolding copy_text text_size
  copy_answer h =
      let place : 12 + length name + 2 + 12 + 4 ≡ at + 17 = omega arith in
      let size : suc (length r.text) - 1 ≡ length r.text = omega arith in
      let some_text : (suc (length r.text) == 0) ≡ false = ground arith in
      rw (some_text, size, place, read-text, ◌>>=◌, fill_lem 256 r.text h)

  copy_ns :
      length r.ns_text ≤ 256
      → copy_text
          (12 + length name + 2 + 12 + 4 + suc (length r.text) + 6 + 4 + 2)
          (suc (length r.ns_text))
          buf
        ≡ ok (r.ns_text ++ zeros (256 - length r.ns_text))
  unfolding copy_text text_size
  copy_ns h =
      let place : 12 + length name + 2 + 12 + 4 + suc (length r.text) + 6 + 4 + 2 ≡ ns + 13 =
        omega arith in
      let size : suc (length r.ns_text) - 1 ≡ length r.ns_text = omega arith in
      let some_text : (suc (length r.ns_text) == 0) ≡ false = ground arith in
      rw (some_text, size, place, read-ns_text, ◌>>=◌, fill_lem 256 r.ns_text h)

  -- The answer's text and the authority's, each behind its first byte, in arrays of zeros.
  abbrev pub analysis : Analysis
  analysis = record {
    accepted = true;
    query_name = name;
    answer_ans = r.text ++ zeros (256 - length r.text);
    ns_ns = r.ns_text ++ zeros (256 - length r.ns_text);
  }

  pub analyse_answers_lem :
      length r.text ≤ 256 → length r.ns_text ≤ 256 → analyse_answers name buf ≡ ok analysis
  unfolding analyse_answers
  analyse_answers_lem h k =
      let at_length : 1 + 12 + length name + 10 + 4 ≡ at + 14 = omega arith in
      let at_ns : 1 + 12 + length name + 12 + 4 + suc (length r.text) + 6 + 4 ≡ ns + 10 =
        omega arith in
      rw (at_length, read-length, ◌>>=◌, copy_answer h, at_ns, read-ns_length, copy_ns k)

  -- A text of more than 256 bytes does not fit the array it is copied to.
  pub analyse_answers_overflow : 256 < length r.text → analyse_answers name buf ≡ out_of_bounds
  unfolding analyse_answers copy_text text_size fill
  analyse_answers_overflow h =
      let at_length : 1 + 12 + length name + 10 + 4 ≡ at + 14 = omega arith in
      let place : 12 + length name + 2 + 12 + 4 ≡ at + 17 = omega arith in
      let size : suc (length r.text) - 1 ≡ length r.text = omega arith in
      let some_text : (suc (length r.text) == 0) ≡ false = ground arith in
      let no_room : leb (length r.text) 256 ≡ false = ground arith in
      rw (at_length, read-length, ◌>>=◌, some_text, size, place, read-text, no_room)

module _ (a b f₁ f₂ : ℕ) (more : List ℕ) (name : CString) (type' : ℕ) (r : Reply) (buf : Buffer)
    (holds : Holds a b (f₁ ∷ f₂ ∷ more) name type' (reply_rest r) buf) (is : IsReply r) where
  -- Of a response without an error, with one answer and one authority whose data hold at most 256
  -- bytes behind their first, `analyse_dns_response` returns 0 and copies the name, and those bytes
  -- of each to an array whose rest is zeros.
  pub analyse_lem :
      (bit_and (f₁ * 256 + f₂) 15 == 0) ≡ true
      → length r.text ≤ 256
      → length r.ns_text ≤ 256
      → analyse_dns_response buf ≡ ok (analysis a b (f₁ ∷ f₂ ∷ more) name type' r buf holds is)
  unfolding analyse_dns_response fill
  analyse_lem ok_flags h k = rw (
    read_name a b (f₁ ∷ f₂ ∷ more) name type' (reply_rest r) buf holds,
    ◌>>=◌,
    read-flags a b f₁ f₂ more name type' (reply_rest r) buf holds,
    ok_flags,
    analyse_answers_lem a b (f₁ ∷ f₂ ∷ more) name type' r buf holds is h k,
  )

  -- A response without an error whose answer holds more than 256 bytes of text makes
  -- `analyse_dns_response` write outside the array that it copies the text to.
  pub analyse_overflow :
      (bit_and (f₁ * 256 + f₂) 15 == 0) ≡ true
      → 256 < length r.text
      → analyse_dns_response buf ≡ out_of_bounds
  unfolding analyse_dns_response fill
  analyse_overflow ok_flags h = rw (
    read_name a b (f₁ ∷ f₂ ∷ more) name type' (reply_rest r) buf holds,
    ◌>>=◌,
    read-flags a b f₁ f₂ more name type' (reply_rest r) buf holds,
    ok_flags,
    analyse_answers_overflow a b (f₁ ∷ f₂ ∷ more) name type' r buf holds is h,
  )
