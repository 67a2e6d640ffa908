-- ===== src/DhtQueue.antt =====
-- dht_queue_table.c: the queue of the requests to the distributed hash table. It repeats the text
-- of rvs_queue_table.c over a table of its own.
use node_identity_architetur.Base.{Bool}
use node_identity_architetur.Nid.{Nid}
use node_identity_architetur.Queue.{
  Clock, QueueTable, init_rvs_queue_table, destroy_rvs_queue_table, queue, unqueue, is_queued,
}
use node_identity_architetur.Run.{Run}

unfoldable pub init_dht_queue_table : (alloc : Bool) → QueueTable
init_dht_queue_table = init_rvs_queue_table

unfoldable pub destroy_dht_queue_table : QueueTable → QueueTable
destroy_dht_queue_table = destroy_rvs_queue_table

unfoldable pub dht_queue : Clock → Nid → QueueTable → Run QueueTable
dht_queue = queue

unfoldable pub dht_unqueue : Nid → QueueTable → Run QueueTable
dht_unqueue = unqueue

unfoldable pub is_dht_queued : Clock → Nid → QueueTable → Run (Bool × QueueTable)
is_dht_queued = is_queued
