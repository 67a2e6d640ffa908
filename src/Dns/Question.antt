-- ===== src/Dns/Question.antt =====
-- A query on its way to the name server.
use node_identity_architetur.Base.{
  ℕ, ◌+◌, ◌<◌, ◌≤◌, ◌≡◌, ◌∙◌, sym, ap, refl, true, ◌||◌, List, ◌∷◌, ◌++◌, ◌==◌, arith, length,
  length-append, if◌then◌else◌, inl, inr, Bool-cases,
}
use node_identity_architetur.Dns.{ask_for_text, modify_dns_query}
use node_identity_architetur.Memory.Splice.{
  IsText, copy_to-append, copy_from-append, strcpy-append, append_assoc,
}
use node_identity_architetur.Memory.{Buffer, copy_from, copy_to, splice, htons, load16, strcpy}
use node_identity_architetur.Nid.{CString}
use node_identity_architetur.Run.{ok, ◌>>=◌}

abbrev pub IsAddress : ℕ → Type 0
IsAddress q_type = ((q_type == 1) || (q_type == 28)) ≡ true

-- The type that the server is asked for
abbrev pub asked : ℕ → ℕ
asked q_type = if (q_type == 1) || (q_type == 28) then 16 else q_type

-- A message: its identifier, the rest of its header, a name and a type, and what follows.
abbrev pub layout : ℕ → ℕ → List ℕ → CString → ℕ → List ℕ → Buffer
layout a b counts name type' rest = (a ∷ b ∷ counts) ++ (name ++ 0 ∷ (htons type' ++ rest))

-- The buffer holds a message of this layout.
pub record Holds (a b : ℕ) (counts : List ℕ) (name : CString) (type' : ℕ) (rest : List ℕ)
    (buf : Buffer) : Type 0 where
  pub ten : length counts ≡ 10
  pub text : IsText name
  pub short : length name ≤ 255
  pub word : type' < 65536
  pub sized : length buf ≡ 512
  pub shape : buf ≡ layout a b counts name type' rest

module _ (a b : ℕ) (counts : List ℕ) (name : CString) (type' : ℕ) (rest : List ℕ) (buf : Buffer)
    (holds : Holds a b counts name type' rest buf) where
  abbrev pub before : List ℕ
  before = (a ∷ b ∷ counts) ++ name

  pub length-before : length before ≡ 12 + length name
  length-before = omega (arith, length-append (a ∷ b ∷ counts) name, holds.ten)

  -- The same bytes, parted behind the name.
  pub shape_behind : buf ≡ before ++ (0 ∷ (htons type' ++ rest))
  shape_behind = holds.shape ∙ sym (append_assoc (a ∷ b ∷ counts) name (0 ∷ (htons type' ++ rest)))

  pub read_name : strcpy 256 12 buf ≡ ok name
  read_name = rw holds.shape (
      strcpy-append (a ∷ b ∷ counts) name (htons type' ++ rest) 256 12 holds.text
        (omega (arith, holds.short)) (omega (arith, holds.ten)))

  pub read_type : load16 (1 + 12 + length name) buf ≡ ok type'
  unfolding load16 htons
  read_type =
      let place : 1 + 12 + length name ≡ length before + 1 = omega (arith, length-before) in
      let bytes : copy_from (1 + 12 + length name) 2 buf ≡ ok (htons type') = rw shape_behind (
        copy_from-append before (0 ∷ (htons type' ++ rest)) (1 + 12 + length name) 1 place 2
          (omega arith)) in
      rw bytes (ap ok (omega (arith, holds.word)))

  pub write_type :
      (new : ℕ)
      → copy_to (1 + 12 + length name) (htons new) buf ≡ ok (layout a b counts name new rest)
  unfolding htons splice
  write_type new =
      let place : 1 + 12 + length name ≡ length before + 1 = omega (arith, length-before) in
      rw shape_behind (
        copy_to-append before (0 ∷ (htons type' ++ rest)) (1 + 12 + length name) 1 place (htons new)
          (omega arith)
        ∙ ap ok (append_assoc (a ∷ b ∷ counts) name (0 ∷ (htons new ++ rest))))

  -- For a query in the buffer whose name has at most 255 characters, `modify_dns_query` returns the
  -- name and the type, and changes nothing in the buffer but the type: to that of text, if it is
  -- that of an address.
  pub modify_dns_query_lem :
      modify_dns_query buf
      ≡ ok (record {
        buf = layout a b counts name (asked type') rest;
        fqdn = name;
        query_type = type';
      })
  unfolding modify_dns_query ask_for_text
  modify_dns_query_lem = elim (Bool-cases ((type' == 1) || (type' == 28))) [
    | inl is ↦ rw (read_name, ◌>>=◌, read_type, is, write_type 16)
    | inr other ↦
        rw (read_name, ◌>>=◌, read_type, other)
          (ap (λ m. ok (record { buf = m; fqdn = name; query_type = type' })) holds.shape)
  ]

-- Another type in the question.
pub retyped :
    (a b : ℕ) (counts : List ℕ) (name : CString) (type' new : ℕ) (rest : List ℕ) (buf : Buffer)
    → Holds a b counts name type' rest buf
    → new < 65536
    → Holds a b counts name new rest (layout a b counts name new rest)
unfolding htons
retyped a b counts name type' new rest buf holds word = record {
  ten = holds.ten;
  text = holds.text;
  short = holds.short;
  word = word;
  sized = omega (
    arith,
    holds.sized,
    ap length holds.shape,
    length-append (a ∷ b ∷ counts) (name ++ 0 ∷ (htons type' ++ rest)),
    length-append (a ∷ b ∷ counts) (name ++ 0 ∷ (htons new ++ rest)),
    length-append name (0 ∷ (htons type' ++ rest)),
    length-append name (0 ∷ (htons new ++ rest)),
  );
  shape = refl;
}
