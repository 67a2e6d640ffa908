-- ===== src/Queue.antt =====
-- rvs_queue_table.c: the identifiers for which a resolution is under way, each with the time of the
-- request. dht_queue_table.c repeats its text for the requests to the hash table of the core.
pub mod Lock
use node_identity_architetur.Base.{
  ℕ, ◌+◌, Bool, true, false, Option, none, some, List, ltb, if◌then◌else◌,
}
use node_identity_architetur.Key.{same}
use node_identity_architetur.Nid.{Nid, nid_key}
use node_identity_architetur.Run.{Run, ok, ◌>>=◌}
use node_identity_architetur.Table.{
  HashTable, construct_hash_table, free_hash_table, hash_insert, hash_lookup, hash_del,
}

-- What the clock says during one operation: `time(NULL)`, and the microseconds of `gettimeofday`,
-- which start again at 0 every second.
pub record Clock : Type 0 where
  pub sec : ℕ
  pub usec : ℕ

-- `rvsq_entry`, with the two fields of its `struct timeval`.
pub record RvsqEntry : Type 0 where
  pub nid : Nid
  pub tv_sec : ℕ
  pub tv_usec : ℕ

abbrev pub QueueTable : Type 0
QueueTable = HashTable Nid RvsqEntry

abbrev pub lock_time : ℕ
lock_time = 150000

unfoldable pub init_rvs_queue_table : (alloc : Bool) → QueueTable
init_rvs_queue_table alloc = construct_hash_table alloc 10

-- The entries themselves are not freed: no function is passed.
unfoldable pub destroy_rvs_queue_table : QueueTable → QueueTable
destroy_rvs_queue_table t = (free_hash_table t).1

unfoldable pub queue : Clock → Nid → QueueTable → Run QueueTable
queue now nid t = do
  r ← hash_insert true nid (record { nid = nid; tv_sec = now.sec; tv_usec = now.usec }) t
  ok r.1

unfoldable pub unqueue : Nid → QueueTable → Run QueueTable
unqueue nid t = do r ← hash_del nid t; ok r.1

-- `re->tstamp.tv_usec + LOCK_TIME < now.tv_usec`; the seconds are not compared.
unfoldable pub is_expired : Clock → RvsqEntry → Bool
is_expired now re = ltb (re.tv_usec + lock_time) now.usec

unfoldable pub is_queued : Clock → Nid → QueueTable → Run (Bool × QueueTable)
is_queued now nid t = do
  found ← hash_lookup nid t
  elim found [
    | none ↦ ok (false, t)
    | some re ↦
        if is_expired now re
        then (do t' ← unqueue nid t; ok (false, t'))
        else ok (same nid re.nid, t)
  ]
