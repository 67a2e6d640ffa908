-- ===== src/Tests/Keys.antt =====
-- The exchange of keys with numbers printed by strokes, and sums for powers.
use node_identity_architetur.Base.{
  ℕ, zero, suc, ◌+◌, ◌≡◌, refl, ap, true, some, [], ◌∷◌, ◌++◌, arith, length, replicate,
}
use node_identity_architetur.Dh.Agree.{Works, keys-agree, client_key_overflow, public_key_overflow}
use node_identity_architetur.Dh.Layout.{layout}
use node_identity_architetur.Dh.{OpenSsl, field, text_at, read_message, dh_client, dh_server}
use node_identity_architetur.Memory.{
  Buffer, splice, copy_from, copy_to, until_nul, terminated, strcpy,
}
use node_identity_architetur.Memory.Splice.{IsText, zeros, length-zeros}
use node_identity_architetur.Run.{ok, out_of_bounds}

abbrev strokes : OpenSsl
strokes = record {
  bn2hex = λ n. replicate n 49;
  hex2bn = λ text. length text;
  generate_key = λ p g priv. g + priv;
  compute_key = λ public' p priv. some ((public' + priv) ∷ []);
}

strokes_digits : (n : ℕ) → length (replicate {A = ℕ} n 49) ≡ n
strokes_digits zero = refl
strokes_digits (suc n) = ap suc (strokes_digits n)

strokes_texts : (n : ℕ) → IsText (replicate n 49)
strokes_texts zero = tt
strokes_texts (suc n) = (refl, strokes_texts n)

strokes-Works : Works strokes
strokes-Works = record {
  digits = strokes_digits;
  texts = strokes_texts;
  agrees = λ p g a b.
      let sums : g + a + b ≡ g + b + a = omega arith in ap (λ (n : ℕ). some (n ∷ [])) sums;
}

keys-agree_example :
    (dh_server strokes (zeros 1500) 4 (record { recv = some (layout strokes 3 1 3); send = true })
      ≡ ok (layout strokes 3 1 5, 7 ∷ []))
    × (dh_client strokes 2 (some (3, 1)) 2 (record {
      socket = true;
      connect = true;
      send = true;
      recv = some (layout strokes 3 1 5);
    })
        ≡ ok (layout strokes 3 1 3, 7 ∷ []))
keys-agree_example =
    keys-agree strokes strokes-Works 3 1 2 4 (omega arith) (omega arith) (zeros 1500) (7 ∷ [])
      (omega arith) (omega arith) (length-zeros 1500) refl

client_key_overflow_example :
    dh_client strokes 2
      (some (3, 1))
      31
      (record { socket = true; connect = true; send = true; recv = some [] })
    ≡ out_of_bounds
client_key_overflow_example =
    client_key_overflow strokes 3 1 31
      (record { socket = true; connect = true; send = true; recv = some [] }) (omega arith)

-- A message whose own key has 32 digits, and what the server's buffer holds then.
abbrev long_message : Buffer
long_message = layout strokes 3 1 32

abbrev after_long : Buffer
after_long = long_message ++ zeros 1404

after_long_reads : read_message strokes after_long ≡ ok (3, 1, 32)
unfolding read_message field text_at copy_from until_nul strcpy terminated
after_long_reads = refl

long_message_fits : copy_to 0 long_message (zeros 1500) ≡ ok after_long
unfolding copy_to splice
long_message_fits = refl

public_key_overflow_example :
    dh_server strokes (zeros 1500) 31 (record { recv = some long_message; send = true })
    ≡ out_of_bounds
public_key_overflow_example =
    public_key_overflow strokes 3 1 32 31 (zeros 1500) long_message after_long (63 ∷ []) true
      long_message_fits after_long_reads refl (omega arith)
