-- ===== src/Dht.antt =====
-- dhtc.c: the core gateway's copy of what the distributed hash table answered, and the requests to
-- it. The threads that call the table are in `Fetch`.
pub mod Entries
pub mod Fetch
pub mod Kept
pub mod Stale
use node_identity_architetur.Base.{
  ℕ, Bool, true, false, Option, none, some, List, [], ◌∷◌, ◌++◌, ◌==◌, if◌then◌else◌,
}
use node_identity_architetur.Conn.{ConnEntry}
use node_identity_architetur.DhtQueue.{dht_queue, dht_unqueue, is_dht_queued}
use node_identity_architetur.Mapper.{ConnTable, store}
use node_identity_architetur.Nid.{Nid, Nid32, CString, nid_key, fqdn_hash}
use node_identity_architetur.Queue.{Clock, QueueTable}
use node_identity_architetur.Run.{Run, ok, ◌>>=◌}
use node_identity_architetur.Table.{construct_hash_table, free_hash_table, hash_lookup}

-- The table, the queue of requests, and what has been written to the socket `sp_dht`.
pub record Dht : Type 0 where
  pub dhtable : ConnTable
  pub dht_queue_table : QueueTable
  pub sp_dht : List Nid

-- The key of a name in the distributed table: the loop of `fqdn_hash`.
unfoldable pub hash_nid : CString → ℕ
hash_nid = fqdn_hash

unfoldable pub init_dhtable : Dht → Dht
init_dhtable d = record d { dhtable = construct_hash_table true 30 }

unfoldable pub destroy_dhtable : Dht → Dht
destroy_dhtable d = record d { dhtable = (free_hash_table d.dhtable).1 }

unfoldable pub add_dht_entry : ℕ → Nid → Nid32 → Dht → Run Dht
add_dht_entry now nid ip d = do
  t ← store nid (record { ip = ip; tstamp = now }) d.dhtable
  ok (record d { dhtable = t })

-- The request for an identifier that the copy does not know, unless one is under way.
unfoldable pub ask_dht : Clock → Nid → Dht → Run Dht
ask_dht now nid d = do
  (queued, q) ← is_dht_queued now nid d.dht_queue_table
  if queued then ok (record d { dht_queue_table = q }) else (do
    q' ← dht_queue now nid q
    ok (record d { dht_queue_table = q'; sp_dht = d.sp_dht ++ nid ∷ [] }))

-- The result, and `*dst` afterwards: it is written only where the result is 1.
unfoldable pub get_dht_entry : Clock → Nid → Nid32 → Dht → Run ((Bool × Nid32) × Dht)
get_dht_entry now nid dst d = do
  found ← hash_lookup nid d.dhtable
  elim found [
    | some ce ↦
        if ce.ip == 0
        then (do d' ← ask_dht now nid d; ok ((false, dst), d'))
        else ok ((true, ce.ip), d)
    | none ↦ do d' ← ask_dht now nid d; ok ((false, dst), d')
  ]

-- `thread_dht_get` once an answer has come in: the address of its first value.
unfoldable pub dht_answered : ℕ → Nid → Nid32 → Dht → Run Dht
dht_answered now nid nid32 d = do
  q ← dht_unqueue nid d.dht_queue_table
  add_dht_entry now nid nid32 (record d { dht_queue_table = q })
