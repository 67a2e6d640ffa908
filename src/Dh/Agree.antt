-- ===== src/Dh/Agree.antt =====
-- The two programs together.
use node_identity_architetur.Base.{
  ℕ, ◌+◌, ◌<◌, ◌≤◌, ◌≡◌, ◌∙◌, refl, Bool, true, some, List, [], ◌++◌, arith, length, drop,
}
use node_identity_architetur.Dh.Layout.{
  layout, dh_message_lem, dh_message_overflow, read_message_lem, length-layout,
}
use node_identity_architetur.Dh.{
  read_message, OpenSsl, ClientNet, must, must_have, client_hello, client_finish, dh_client,
  dh_server,
}
use node_identity_architetur.Memory.Splice.{IsText, zeros, length-zeros, copy_to-drop}
use node_identity_architetur.Memory.{Buffer, copy_to}
use node_identity_architetur.Run.{ok, out_of_bounds, ◌>>=◌}

-- What the programs rely on: the digits of a number are read back, they are characters, and the two
-- sides of an exchange compute the same bytes.
pub record Works (ssl : OpenSsl) : Type 0 where
  pub digits : (n : ℕ) → ssl.hex2bn (ssl.bn2hex n) ≡ n
  pub texts : (n : ℕ) → IsText (ssl.bn2hex n)
  pub agrees :
      (p g a b : ℕ)
      → ssl.compute_key (ssl.generate_key p g a) p b ≡ ssl.compute_key (ssl.generate_key p g b) p a

module _ (ssl : OpenSsl) (works : Works ssl) (p g a b : ℕ) where
  abbrev pub client_key : ℕ
  client_key = ssl.generate_key p g a

  abbrev pub server_key : ℕ
  server_key = ssl.generate_key p g b

  module _ (short_p : length (ssl.bn2hex p) ≤ 32) (short_g : length (ssl.bn2hex g) < 32) where
    -- A message that has been written over the start of a buffer is read back.
    read_received :
        (key : ℕ) (tail : Buffer)
        → length (ssl.bn2hex key) < 32
        → read_message ssl (layout ssl p g key ++ tail) ≡ ok (p, g, key)
    read_received key tail short =
        read_message_lem ssl p g key short_p short_g tail (layout ssl p g key ++ tail) short
          (works.texts p) (works.texts g) (works.texts key) refl
        ∙ rw (works.digits p, works.digits g, works.digits key)

    received :
        (bytes buf : Buffer)
        → length bytes ≤ length buf
        → copy_to 0 bytes buf ≡ ok (bytes ++ drop (0 + length bytes) buf)
    received bytes buf room = copy_to-drop 0 0 [] bytes buf refl (omega arith)

    -- If OpenSSL works, `p` has at most 32 digits, and `g` and the two public keys have fewer: the
    -- server answers the client's message with a message from which the client computes the key that
    -- the server has computed, whatever the server's buffer held before. Both messages hold `p`, `g`
    -- and the sender's public key, each followed by zeros up to 32 bytes.
    pub keys-agree :
        (ubuf : Buffer) (secret : List ℕ)
        → length (ssl.bn2hex client_key) < 32
        → length (ssl.bn2hex server_key) < 32
        → length ubuf ≡ 1500
        → ssl.compute_key client_key p b ≡ some secret
        → (dh_server ssl ubuf b (record { recv = some (layout ssl p g client_key); send = true })
            ≡ ok (layout ssl p g server_key, secret))
          × (dh_client ssl 2 (some (p, g)) a (record {
            socket = true;
            connect = true;
            send = true;
            recv = some (layout ssl p g server_key);
          })
              ≡ ok (layout ssl p g client_key, secret))
    unfolding dh_server dh_client client_hello client_finish must must_have
    keys-agree ubuf secret short_a short_b size known =
        let sent = layout ssl p g client_key in
        let reply = layout ssl p g server_key in
        let fits : (key : ℕ) → length (ssl.bn2hex key) < 32 → length (layout ssl p g key) ≡ 96 =
          λ key. length-layout ssl p g key short_p short_g in
        let room : length sent ≤ length ubuf = omega (arith, size, fits client_key short_a) in
        let room' : length reply ≤ length (zeros 1500) =
          omega (arith, length-zeros 1500, fits server_key short_b) in
        (
          rw (
            received sent ubuf room,
            ◌>>=◌,
            read_received client_key (drop (0 + length sent) ubuf) short_a,
            known,
            dh_message_lem ssl p g server_key short_p short_g short_b,
          ),
          rw (
            dh_message_lem ssl p g client_key short_p short_g short_a,
            ◌>>=◌,
            received reply (zeros 1500) room',
            read_received server_key (drop (0 + length reply) (zeros 1500)) short_b,
            ← works.agrees p g a b,
            known,
          ),
        )

-- A client whose own public key has 32 digits or more writes outside its message before it opens a
-- socket, whatever the sizes of the other numbers and whatever the network does.
pub client_key_overflow :
    (ssl : OpenSsl) (p g priv : ℕ) (net : ClientNet)
    → 32 ≤ length (ssl.bn2hex (ssl.generate_key p g priv))
    → dh_client ssl 2 (some (p, g)) priv net ≡ out_of_bounds
unfolding dh_client client_hello must must_have
client_key_overflow ssl p g priv net long =
    let faults = dh_message_overflow ssl p g (ssl.generate_key p g priv) long in rw (faults, ◌>>=◌)

-- A server that receives bytes which fit its buffer, reads the three numbers in it and computes the
-- shared key, and whose own public key has 32 digits or more, writes outside its reply, whatever the
-- sizes of the numbers that it has read.
pub public_key_overflow :
    (ssl : OpenSsl) (p g public' priv : ℕ) (ubuf bytes buf : Buffer) (secret : List ℕ)
    (sends : Bool)
    → copy_to 0 bytes ubuf ≡ ok buf
    → read_message ssl buf ≡ ok (p, g, public')
    → ssl.compute_key public' p priv ≡ some secret
    → 32 ≤ length (ssl.bn2hex (ssl.generate_key p g priv))
    → dh_server ssl ubuf priv (record { recv = some bytes; send = sends }) ≡ out_of_bounds
unfolding dh_server must must_have
public_key_overflow ssl p g public' priv ubuf bytes buf secret sends fits reads known long =
    let faults = dh_message_overflow ssl p g (ssl.generate_key p g priv) long in
    rw (fits, ◌>>=◌, reads, known, faults)
