-- ===== src/Tests/Conns.antt =====
-- The connection mapper, the queue, and the other tables of connection entries.
use node_identity_architetur.Base.{◌≡◌, ◌+◌, true, arith, leb}
use node_identity_architetur.Config.{Config}
use node_identity_architetur.Mapper.Clean.{Reconfigured, update_cm_conf-Reconfigured}
use node_identity_architetur.Mapper.Lookup.{Answers, age, get_cm_entry-Answers}
use node_identity_architetur.Mapper.{get_cm_entry, update_cm_conf}
use node_identity_architetur.Nid.{nid_key}
use node_identity_architetur.Queue.Lock.{IsQueue, is_queued-queue, is_queued_forever}
use node_identity_architetur.Queue.{lock_time, queue, is_queued}
use node_identity_architetur.Run.{◌>>=◌, Returns}
use node_identity_architetur.Table.View.{view}
use node_identity_architetur.Tests.Data.{
  bob, noon, after_noon, no_requests, no_requests-IsQueue, mapper, mapper-IsMapper, conf,
}

get_cm_entry-Answers_example :
    Returns
      (get_cm_entry noon bob mapper)
      (Answers noon bob mapper (view mapper.connmap bob) (age 100 (view mapper.connmap bob)))
get_cm_entry-Answers_example = get_cm_entry-Answers noon bob mapper mapper-IsMapper

-- The gateway and the rendezvous server are two hosts.
abbrev two_hosts : Config
two_hosts = record conf { nidgw = bob }

update_cm_conf-Reconfigured_example :
    Returns (update_cm_conf 100 two_hosts mapper) (Reconfigured 100 two_hosts mapper)
update_cm_conf-Reconfigured_example =
    update_cm_conf-Reconfigured 100 two_hosts mapper mapper-IsMapper

is_queued-queue_example :
    Returns
      (queue noon bob no_requests >>= is_queued after_noon bob)
      λ (answer, t'). (answer ≡ leb 10 (900000 + lock_time)) × IsQueue t'
is_queued-queue_example = is_queued-queue noon after_noon bob no_requests no_requests-IsQueue

is_queued_forever_example :
    Returns (queue noon bob no_requests >>= is_queued after_noon bob) λ (answer, t'). answer ≡ true
is_queued_forever_example =
    is_queued_forever noon after_noon bob no_requests no_requests-IsQueue (omega arith)
      (omega arith)
