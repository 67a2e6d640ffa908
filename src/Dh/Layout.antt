-- ===== src/Dh/Layout.antt =====
-- The message of the two programs: three texts, each followed by zeros up to 32 bytes.
use node_identity_architetur.Base.{
  ℕ, zero, suc, ◌+◌, ◌-◌, ◌<◌, ◌≤◌, ◌≡◌, ◌∙◌, refl, sym, ap, ◌⊎◌, inl, inr, Bool-cases, List, [],
  ◌∷◌, ◌++◌, arith, leb, false, length, length-append, take, drop,
}
use node_identity_architetur.Dh.{OpenSsl, field, text_at, dh_message, read_message}
use node_identity_architetur.Memory.Splice.{
  IsText, joins, append_assoc, length-drop, zeros, zeros-append, length-zeros, copy_to-zeros,
  load_within, strcpy-append,
}
use node_identity_architetur.Memory.{Buffer, splice, copy_to, until_nul}
use node_identity_architetur.Nid.{CString}
use node_identity_architetur.Run.{ok, out_of_bounds, ◌>>=◌}

abbrev pub padded : CString → Buffer
padded text = text ++ zeros (32 - length text)

length-padded : (text : CString) → length text ≤ 32 → length (padded text) ≡ 32
length-padded text short =
    omega (arith, length-append text (zeros (32 - length text)), length-zeros (32 - length text))

copy_to_outside :
    (at : ℕ) (bs buf : List ℕ) → length buf < at + length bs → copy_to at bs buf ≡ out_of_bounds
unfolding copy_to
copy_to_outside at bs buf h =
    let outside : leb (at + length bs) (length buf) ≡ false = ground (arith, h) in rw outside

-- A text and its NUL, written to the first of the zeros that end an array.
store_text :
    (at m : ℕ) (pre text : Buffer)
    → length pre ≡ at
    → length text ≤ 32
    → 32 ≤ m
    → suc (length text) ≤ m
    → copy_to at (text ++ 0 ∷ []) (pre ++ zeros m) ≡ ok ((pre ++ padded text) ++ zeros (m - 32))
store_text at m pre text place short wide room =
    let k = length text in
    let size : length (text ++ 0 ∷ []) ≡ k + 1 = length-append text (0 ∷ []) in
    let split : zeros (m - k) ≡ zeros (32 - k) ++ zeros (m - 32) =
      let rest : m - k - (32 - k) ≡ m - 32 = omega (arith, short) in
      rw (← rest) (zeros-append (32 - k) (m - k) (omega arith)) in
    let next : m - k ≡ suc (m - (k + 1)) = omega (arith, room) in
    let tail : 0 ∷ zeros (m - (k + 1)) ≡ zeros (32 - k) ++ zeros (m - 32) =
      ap zeros (sym next) ∙ split in
    copy_to-zeros at m (m - (k + 1)) pre (text ++ 0 ∷ []) place (omega (arith, size, room))
    ∙ ap ok (simp joins (rw tail))

-- The text of a field, up to its zeros.
until_nul-zeros : (text : CString) (n : ℕ) → IsText text → until_nul (text ++ zeros n) ≡ text
unfolding until_nul
until_nul-zeros [] zero is = refl
until_nul-zeros [] (suc n) is = refl
until_nul-zeros (c ∷ text) n (here, there) = rw (here, until_nul-zeros text n there)

field_lem :
    (pre tail buf : Buffer) (text : CString) (at : ℕ)
    → length pre ≡ at
    → IsText text
    → length text ≤ 32
    → buf ≡ pre ++ (padded text ++ tail)
    → field at buf ≡ ok text
unfolding field
field_lem pre tail buf text at place is short shape = rw (
  load_within pre (padded text) tail buf at shape place 32 (length-padded text short),
  until_nul-zeros text (32 - length text) is,
)

text_at_lem :
    (pre tail buf : Buffer) (text : CString) (at : ℕ)
    → length pre ≡ at
    → IsText text
    → length text < 32
    → buf ≡ pre ++ (padded text ++ tail)
    → text_at at buf ≡ ok text
unfolding text_at
text_at_lem pre tail buf text at place is short shape =
    let one : 32 - length text ≡ suc (31 - length text) = omega arith in
    let split : padded text ++ tail ≡ text ++ 0 ∷ (zeros (31 - length text) ++ tail) =
      rw one (append_assoc text (0 ∷ zeros (31 - length text)) tail) in
    rw (shape, split)
      (strcpy-append pre text (zeros (31 - length text) ++ tail) 1500 at is (omega arith)
        (sym place))

length-take : (n : ℕ) (buf : Buffer) → n ≤ length buf → length (take n buf) ≡ n
length-take zero buf room = refl
length-take (suc n) [] room = absurd (omega (arith, room))
length-take (suc n) (c ∷ buf) room = ap suc (length-take n buf (omega (arith, room)))

length-splice :
    (at : ℕ) (bs buf : Buffer)
    → at + length bs ≤ length buf
    → length (splice at bs buf) ≡ length buf
unfolding splice
length-splice at bs buf room =
    let behind = drop (at + length bs) buf in
    omega (
      arith,
      room,
      length-append (take at buf) (bs ++ behind),
      length-append bs behind,
      length-take at buf (omega (arith, room)),
      length-drop (at + length bs) buf,
    )

-- A copy keeps the size of the array, if it stays inside.
copy_to_cases :
    (at : ℕ) (bs buf : Buffer)
    → (copy_to at bs buf ≡ out_of_bounds)
      ⊎ ((buf' : Buffer) × (copy_to at bs buf ≡ ok buf') × (length buf' ≡ length buf))
unfolding copy_to splice
copy_to_cases at bs buf = elim (Bool-cases (leb (at + length bs) (length buf))) [
  | inr outside ↦ inl (rw outside refl)
  | inl inside ↦
      let room : at + length bs ≤ length buf = ground (arith, inside) in
      inr (splice at bs buf, rw inside refl, length-splice at bs buf room)
]

-- A public key of 32 digits or more does not fit, whatever the other two numbers.
pub dh_message_overflow :
    (ssl : OpenSsl) (p g public' : ℕ)
    → 32 ≤ length (ssl.bn2hex public')
    → dh_message ssl p g public' ≡ out_of_bounds
unfolding dh_message
dh_message_overflow ssl p g public' long =
    elim (copy_to_cases 0 (ssl.bn2hex p ++ 0 ∷ []) (zeros 96)) [
      | inl out ↦ rw (out, ◌>>=◌) refl
      | inr (m₁, run₁, size₁) ↦ elim (copy_to_cases 32 (ssl.bn2hex g ++ 0 ∷ []) m₁) [
        | inl out ↦ rw (run₁, ◌>>=◌, out) refl
        | inr (m₂, run₂, size₂) ↦
            rw (run₁, ◌>>=◌, run₂)
              (copy_to_outside 64 (ssl.bn2hex public' ++ 0 ∷ []) m₂ (
                omega (
                  arith,
                  long,
                  size₁,
                  size₂,
                  length-zeros 96,
                  length-append (ssl.bn2hex public') (0 ∷ []),
                )))
      ]
    ]

module _ (ssl : OpenSsl) (p g public' : ℕ) where
  -- The bytes of the message.
  abbrev pub layout : Buffer
  layout = padded (ssl.bn2hex p) ++ (padded (ssl.bn2hex g) ++ padded (ssl.bn2hex public'))

  module _ (short_p : length (ssl.bn2hex p) ≤ 32) (short_g : length (ssl.bn2hex g) < 32) where
    first_text :
        copy_to 0 (ssl.bn2hex p ++ 0 ∷ []) (zeros 96) ≡ ok (padded (ssl.bn2hex p) ++ zeros 64)
    first_text = store_text 0 96 [] (ssl.bn2hex p) refl short_p (omega arith) (omega arith)

    second_text :
        copy_to 32 (ssl.bn2hex g ++ 0 ∷ []) (padded (ssl.bn2hex p) ++ zeros 64)
        ≡ ok ((padded (ssl.bn2hex p) ++ padded (ssl.bn2hex g)) ++ zeros 32)
    second_text =
        store_text 32 64 (padded (ssl.bn2hex p)) (ssl.bn2hex g)
          (length-padded (ssl.bn2hex p) short_p) (omega arith) (omega arith) (omega arith)

    two_fields : length (padded (ssl.bn2hex p) ++ padded (ssl.bn2hex g)) ≡ 64
    two_fields = omega (
      arith,
      length-append (padded (ssl.bn2hex p)) (padded (ssl.bn2hex g)),
      length-padded (ssl.bn2hex p) short_p,
      length-padded (ssl.bn2hex g) (omega arith),
    )

    pub dh_message_lem : length (ssl.bn2hex public') < 32 → dh_message ssl p g public' ≡ ok layout
    unfolding dh_message
    dh_message_lem short =
        let two = padded (ssl.bn2hex p) ++ padded (ssl.bn2hex g) in
        rw (first_text, ◌>>=◌, second_text)
          (store_text 64 32 two (ssl.bn2hex public') two_fields (omega arith) (omega arith)
              (omega arith)
            ∙ ap ok (simp joins))

    pub read_message_lem :
        (tail buf : Buffer)
        → length (ssl.bn2hex public') < 32
        → IsText (ssl.bn2hex p)
        → IsText (ssl.bn2hex g)
        → IsText (ssl.bn2hex public')
        → buf ≡ layout ++ tail
        → read_message ssl buf
          ≡ ok (
            ssl.hex2bn (ssl.bn2hex p),
            ssl.hex2bn (ssl.bn2hex g),
            ssl.hex2bn (ssl.bn2hex public'),
          )
    unfolding read_message
    read_message_lem tail buf short is_p is_g is_public shape =
        let p_text = padded (ssl.bn2hex p) in
        let g_text = padded (ssl.bn2hex g) in
        let public_text = padded (ssl.bn2hex public') in
        rw (
          field_lem [] (g_text ++ (public_text ++ tail)) buf (ssl.bn2hex p) 0 refl is_p short_p
              (shape ∙ simp joins),
          ◌>>=◌,
          text_at_lem p_text (public_text ++ tail) buf (ssl.bn2hex g) 32
              (length-padded (ssl.bn2hex p) short_p) is_g short_g (shape ∙ simp joins),
          field_lem (p_text ++ g_text) tail buf (ssl.bn2hex public') 64 two_fields is_public
              (omega arith) (shape ∙ simp joins),
        )

    pub length-layout : length (ssl.bn2hex public') < 32 → length layout ≡ 96
    length-layout short = omega (
      arith,
      length-append (padded (ssl.bn2hex p)) (padded (ssl.bn2hex g) ++ padded (ssl.bn2hex public')),
      length-append (padded (ssl.bn2hex g)) (padded (ssl.bn2hex public')),
      length-padded (ssl.bn2hex p) short_p,
      length-padded (ssl.bn2hex g) (omega arith),
      length-padded (ssl.bn2hex public') (omega arith),
    )
