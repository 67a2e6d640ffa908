-- ===== src/Mapper.antt =====
-- connection_mapper.c: which address a peer's identifier is reached at. Entries expire, are asked
-- for again shortly before they do, and are replaced by the gateway's address when they are gone.
-- Memory for an entry is taken to be available: the source does not test its `calloc`.
pub mod Entries
pub mod Clean
pub mod Lookup
use node_identity_architetur.Base.{
  ℕ, ◌+◌, Bool, true, false, ◌||◌, Option, none, some, List, [], ◌∷◌, ◌++◌, ◌==◌, ltb,
  if◌then◌else◌,
}
use node_identity_architetur.Config.{Config}
use node_identity_architetur.Conn.{
  ConnEntry, LlNode, LlHead, rvs_update_timeout, rvs_proactive, init_ll, hash_enumerate,
}
use node_identity_architetur.Nid.{Nid, Nid32, nid_key}
use node_identity_architetur.Queue.{Clock, QueueTable, queue, is_queued}
use node_identity_architetur.Run.{Run, ok, ◌>>=◌}
use node_identity_architetur.Table.{
  HashTable, construct_hash_table, free_hash_table, hash_insert, hash_lookup, hash_del,
}

abbrev pub ConnTable : Type 0
ConnTable = HashTable Nid ConnEntry

-- The globals of the file, the queue of pending resolutions that it consults, and what has been
-- written to the socket `sp_cm2rvs`.
pub record Mapper : Type 0 where
  pub connmap : ConnTable
  pub cm_nidgw : Nid
  pub cm_nidrvs : Nid
  pub cm_gateway_ip : Nid32
  pub cm_rvs_ip : Nid32
  pub queue_table : QueueTable
  pub sp_cm2rvs : List Nid

-- `hash_insert` of an entry, whose result the callers drop.
unfoldable pub store : Nid → ConnEntry → ConnTable → Run ConnTable
store nid ce t = do r ← hash_insert true nid ce t; ok r.1

unfoldable pub new_cm_entry : ℕ → Nid → Nid32 → ConnTable → Run ConnTable
new_cm_entry now nid ip t = do
  found ← hash_lookup nid t
  elim found [
    | some ce ↦ if ce.tstamp == 0 then ok t else store nid (record ce { ip = ip; tstamp = now }) t
    | none ↦ store nid (record { ip = ip; tstamp = now }) t
  ]

unfoldable pub static_cm_entry : Nid → Nid32 → ConnTable → Run ConnTable
static_cm_entry nid ip t = do
  found ← hash_lookup nid t
  elim found [
    | some ce ↦ store nid (record ce { ip = ip }) t
    | none ↦ store nid (record { ip = ip; tstamp = 0 }) t
  ]

unfoldable pub del_cm_entry : Nid → ConnTable → Run ConnTable
del_cm_entry nid t = do r ← hash_del nid t; ok r.1

unfoldable pub get_all_connections : ℕ → ConnTable → LlHead
get_all_connections now t = hash_enumerate now t init_ll

-- The walk over the list that deletes each identifier.
unfoldable pub del_listed : List LlNode → ConnTable → Run ConnTable
del_listed [] t = ok t
del_listed (n ∷ ns) t = do t' ← del_cm_entry n.0 t; del_listed ns t'

-- The list is filled twice. `lpt`, taken between the two, heads the doubled list unless the first
-- filling left it empty.
unfoldable pub clean_cm : ℕ → ConnTable → Run ConnTable
clean_cm now t =
    let ll = get_all_connections now t in
    let lpt : List LlNode = elim ll.next [ [] ↦ [] | n ∷ ns ↦ (hash_enumerate now t ll).next ] in
    del_listed lpt t

unfoldable pub init_conn_mapper : Config → QueueTable → Mapper
init_conn_mapper conf queue_table = record {
  connmap = construct_hash_table true 20;
  cm_nidgw = conf.nidgw;
  cm_nidrvs = conf.nidrvs;
  cm_gateway_ip = conf.gateway_ip;
  cm_rvs_ip = conf.rvs_ip;
  queue_table = queue_table;
  sp_cm2rvs = [];
}

unfoldable pub destroy_conn_mapper : Mapper → Mapper
destroy_conn_mapper m = record m { connmap = (free_hash_table m.connmap).1 }

unfoldable pub update_cm_conf : ℕ → Config → Mapper → Run Mapper
update_cm_conf now conf m = do
  t₁ ← del_cm_entry m.cm_nidgw m.connmap
  t₂ ← del_cm_entry m.cm_nidrvs t₁
  t₃ ← clean_cm now t₂
  t₄ ← static_cm_entry conf.nidgw conf.gateway_ip t₃
  t₅ ← static_cm_entry conf.nidrvs conf.rvs_ip t₄
  ok (record m {
    connmap = t₅;
    cm_nidgw = conf.nidgw;
    cm_nidrvs = conf.nidrvs;
    cm_gateway_ip = conf.gateway_ip;
    cm_rvs_ip = conf.rvs_ip;
  })

-- The end of `getCMEntry`: nothing usable was found.
unfoldable pub resolve : ℕ → Nid → Mapper → Run ((Bool × Nid32) × Mapper)
resolve now nid m = do
  t ← new_cm_entry now nid m.cm_gateway_ip m.connmap
  ok ((false, m.cm_gateway_ip), record m { connmap = t; sp_cm2rvs = m.sp_cm2rvs ++ nid ∷ [] })

-- The entry is about to expire: ask for it again, once.
unfoldable pub ask_again : Clock → Nid → Mapper → Run Mapper
ask_again now nid m = do
  (queued, q) ← is_queued now nid m.queue_table
  if queued then ok (record m { queue_table = q }) else (do
    q' ← queue now nid q
    ok (record m { queue_table = q'; sp_cm2rvs = m.sp_cm2rvs ++ nid ∷ [] }))

-- The result, and the address written to `*dst`.
unfoldable pub get_cm_entry : Clock → Nid → Mapper → Run ((Bool × Nid32) × Mapper)
get_cm_entry now nid m = do
  found ← hash_lookup nid m.connmap
  elim found [
    | none ↦ resolve now.sec nid m
    | some ce ↦
        if (ce.tstamp == 0) || ltb now.sec (ce.tstamp + rvs_proactive)
        then ok ((true, ce.ip), m)
        else if ltb now.sec (ce.tstamp + rvs_update_timeout)
        then (do m' ← ask_again now nid m; ok ((true, ce.ip), m'))
        else (do t ← del_cm_entry nid m.connmap; resolve now.sec nid (record m { connmap = t }))
  ]
