-- ===== src/Dh.antt =====
-- dh_client2.c and dh_server2.c: two programs that agree on a key by the protocol of Diffie and
-- Hellman. What the OpenSSL library computes is a parameter, and so is what the socket calls do.
-- `dh_struct` is an array of 96 bytes with its three texts at 0, 32 and 64; a `strcpy` into one of
-- them may run on into the next, but not out of the array.
pub mod Layout
pub mod Agree
use node_identity_architetur.Base.{
  ℕ, Bool, Option, none, some, List, [], ◌∷◌, ◌++◌, ◌==◌, if◌then◌else◌, replicate,
}
use node_identity_architetur.Memory.{Buffer, copy_from, copy_to, strcpy, until_nul}
use node_identity_architetur.Nid.{CString}
use node_identity_architetur.Run.{Run, ok, exited, ◌>>=◌}

abbrev pub prime_len : ℕ
prime_len = 32

abbrev pub dh_maxbuflen : ℕ
dh_maxbuflen = 1500

-- The calls of OpenSSL: `BN_bn2hex`, `BN_hex2bn`, the public key that `DH_generate_key` makes of
-- `p`, `g` and the private key that it has chosen, and the bytes that `DH_compute_key` makes of the
-- other's public key, `p` and the private key, or that it fails.
pub record OpenSsl : Type 0 where
  pub bn2hex : ℕ → CString
  pub hex2bn : CString → ℕ
  pub generate_key : (p g priv : ℕ) → ℕ
  pub compute_key : (public' p priv : ℕ) → Option (List ℕ)

-- What the socket calls of the client do: `recv` may fail or give bytes.
pub record ClientNet : Type 0 where
  pub socket : Bool
  pub connect : Bool
  pub send : Bool
  pub recv : Option (List ℕ)

-- What they do in the server's process for one connection, once it is accepted.
pub record ServerNet : Type 0 where
  pub recv : Option (List ℕ)
  pub send : Bool

unfoldable pub must : Bool → Run (Unit {0})
must done = if done then ok tt else exited

unfoldable pub must_have : {A : Type 0} → Option A → Run A
must_have none = exited
must_have (some a) = ok a

-- `strncpy` of PRIME_LEN bytes into `tmp`, whose last byte is NUL: the text that `tmp` holds.
unfoldable pub field : ℕ → Buffer → Run CString
field at buf = do bs ← copy_from at prime_len buf; ok (until_nul bs)

-- A text that is read where it stands in a buffer of MAXBUFLEN bytes.
unfoldable pub text_at : ℕ → Buffer → Run CString
text_at at buf = strcpy dh_maxbuflen at buf

module _ (ssl : OpenSsl) where
  -- The three `strcpy` into the cleared `dh_msg`.
  unfoldable pub dh_message : (p g public' : ℕ) → Run Buffer
  dh_message p g public' = do
    m₁ ← copy_to 0 (ssl.bn2hex p ++ 0 ∷ []) (replicate 96 0)
    m₂ ← copy_to prime_len (ssl.bn2hex g ++ 0 ∷ []) m₁
    copy_to 64 (ssl.bn2hex public' ++ 0 ∷ []) m₂

  -- The numbers in a received message: `p`, `g` and the public key.
  unfoldable pub read_message : Buffer → Run (ℕ × ℕ × ℕ)
  read_message buf = do
    p ← field 0 buf
    g ← text_at prime_len buf
    public' ← field 64 buf
    ok (ssl.hex2bn p, ssl.hex2bn g, ssl.hex2bn public')

  -- The client: `main` up to `send`, with the parameters that `DH_generate_parameters` finds and
  -- the private key that `DH_generate_key` chooses. It gives the parameters and the message.
  unfoldable pub client_hello :
      (argc : ℕ) → Option (ℕ × ℕ) → (priv : ℕ) → ClientNet → Run ((ℕ × ℕ) × Buffer)
  client_hello argc params priv net = do
    args ← must (argc == 2)
    client ← must_have params
    dh_msg ← dh_message client.0 client.1 (ssl.generate_key client.0 client.1 priv)
    opened ← must net.socket
    connected ← must net.connect
    sent ← must net.send
    ok (client, dh_msg)

  -- The rest of `main`: the reply is read into a cleared buffer, and the shared key is computed.
  unfoldable pub client_finish : (client : ℕ × ℕ) → (priv : ℕ) → ClientNet → Run (List ℕ)
  client_finish client priv net = do
    bytes ← must_have net.recv
    buf ← copy_to 0 bytes (replicate dh_maxbuflen 0)
    server ← read_message buf
    must_have (ssl.compute_key server.2 client.0 priv)

  -- The message that is sent, and the key.
  unfoldable pub dh_client :
      (argc : ℕ) → Option (ℕ × ℕ) → (priv : ℕ) → ClientNet → Run (Buffer × List ℕ)
  dh_client argc params priv net = do
    hello ← client_hello argc params priv net
    key ← client_finish hello.0 priv net
    ok (hello.1, key)

  -- The server's process for one connection: `ubuf` is what its buffer holds before, and `priv` the
  -- private key that `DH_generate_key` chooses. It gives the reply and the key.
  unfoldable pub dh_server : (ubuf : Buffer) → (priv : ℕ) → ServerNet → Run (Buffer × List ℕ)
  dh_server ubuf priv net = do
    bytes ← must_have net.recv
    buf ← copy_to 0 bytes ubuf
    client ← read_message buf
    key ← must_have (ssl.compute_key client.2 client.0 priv)
    dh_msg ← dh_message client.0 client.1 (ssl.generate_key client.0 client.1 priv)
    sent ← must net.send
    ok (dh_msg, key)
