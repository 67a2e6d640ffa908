-- ===== src/Dht/Fetch.antt =====
-- dhtc.c: the threads that put the core gateway's address into the distributed table, and get other
-- gateways' from it. What the RPC calls return is an argument.
use node_identity_architetur.Base.{
  ℕ, Bool, true, false, Option, none, some, List, [], ◌∷◌, ◌++◌, ◌-◌, length, replicate,
  if◌then◌else◌,
}
use node_identity_architetur.Dht.{Dht, dht_answered, hash_nid}
use node_identity_architetur.Memory.{Buffer, copy_to, strcpy, until_nul}
use node_identity_architetur.Nid.{Nid, Nid32, CString}
use node_identity_architetur.Reconfigure.{overwrite}
use node_identity_architetur.Run.{Run, ok, null_pointer, exited, ◌>>=◌}

-- What the calls find: the host, a connection to it, and an answer to the first call on it.
pub record Server : Type 0 where
  pub resolved : Bool
  pub connected : Bool
  pub answers : Bool

-- `connectDHTserver`: whether there is a client, in place of NULL.
unfoldable pub connect_dht_server : Server → Run Bool
connect_dht_server server =
    if server.resolved
    then (if server.connected then (if server.answers then ok true else exited) else ok false)
    else exited

-- One entry of the distributed table: `put_args` without the strings that name the application.
pub record Put : Type 0 where
  pub key : ℕ
  pub value : CString

unfoldable pub opendhtput : CString → CString → List Put → List Put
unfolding hash_nid
opendhtput key value sent = sent ++ record { key = hash_nid key; value = value } ∷ []

-- One round of `thread_dht_update`: what has been put, and whether the thread goes on.
unfoldable pub thread_dht_update :
    (inet_ntop6 : Nid → CString) (core_ip : CString)
    → Nid
    → Server
    → List Put
    → Run (List Put × Bool)
unfolding connect_dht_server opendhtput
thread_dht_update inet_ntop6 core_ip nid server sent = do
  clnt ← connect_dht_server server
  if clnt then ok (opendhtput (inet_ntop6 nid) core_ip sent, true) else ok (sent, false)

-- The state of `thread_dht_get`: the table, and the variables `nid32` and `aux`, which keep what
-- the last round left.
pub record Fetch : Type 0 where
  pub dht : Dht
  pub nid32 : Nid32
  pub aux : Buffer

-- The bytes that `strncpy` writes of a value and its length.
unfoldable pub strncpy : List ℕ → List ℕ
strncpy value = until_nul value ++ replicate (length value - length (until_nul value)) 0

module _ (inet_ntop6 : Nid → CString) (inet_pton4 : CString → Option Nid32) where
  -- The first value, written over the text of the identifier.
  unfoldable pub take_value : ℕ → Nid → List ℕ → Fetch → Run (Fetch × Bool)
  take_value now nid value s = do
    aux ← copy_to 0 (strncpy value) s.aux
    address ← strcpy 46 0 aux
    let nid32 = overwrite (inet_pton4 address) s.nid32
    dht ← dht_answered now nid nid32 s.dht
    ok (record { dht = dht; nid32 = nid32; aux = aux }, true)

  -- `get_result`, with its values.
  unfoldable pub take_values : ℕ → Nid → Option (List (List ℕ)) → Fetch → Run (Fetch × Bool)
  take_values now nid none s = null_pointer
  take_values now nid (some []) s = ok (s, true)
  take_values now nid (some (value ∷ values)) s = take_value now nid value s

  -- The identifier's text is written to `aux`, and the server is asked for it.
  unfoldable pub ask_dht_server : ℕ → Nid → Option (List (List ℕ)) → Fetch → Run (Fetch × Bool)
  ask_dht_server now nid result s = do
    aux ← copy_to 0 (inet_ntop6 nid ++ 0 ∷ []) s.aux
    take_values now nid result (record s { aux = aux })

  -- A request has been read from `sp_dht`.
  unfoldable pub fetch : ℕ → Nid → Server → Option (List (List ℕ)) → Fetch → Run (Fetch × Bool)
  fetch now nid server result s = do
    clnt ← connect_dht_server server
    if clnt then ask_dht_server now nid result s else ok (s, false)

  -- One round; the thread waits for a request.
  unfoldable pub thread_dht_get : ℕ → Server → Option (List (List ℕ)) → Fetch → Run (Fetch × Bool)
  thread_dht_get now server result s = elim s.dht.sp_dht [
    | [] ↦ ok (s, true)
    | nid ∷ nids ↦ fetch now nid server result (record s { dht = record s.dht { sp_dht = nids } })
  ]
