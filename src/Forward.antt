-- ===== src/Forward.antt =====
-- The threads of nid_routing.c, one round of each loop at a time: where a packet is sent, and what
-- is done with one that arrives. `recvfrom`, `sendto` and the sockets are the environment: a round
-- is given the packet, and leaves what it sends in the state. Sends do not fail here; a failed
-- `sendto` only prints a message.
pub mod Output
pub mod Input
pub mod Core
use node_identity_architetur.Base.{ℕ, Bool, true, false, List, [], ◌∷◌, ◌++◌, if◌then◌else◌}
use node_identity_architetur.Config.{Config}
use node_identity_architetur.Dht.{Dht, get_dht_entry}
use node_identity_architetur.Key.{same}
use node_identity_architetur.Mapper.{Mapper, ConnTable, get_cm_entry, new_cm_entry}
use node_identity_architetur.Message.{Packet}
use node_identity_architetur.Nid.{Nid, Nid32, nid_key}
use node_identity_architetur.Queue.{Clock}
use node_identity_architetur.Registry.{get_registry}
use node_identity_architetur.Routing.{Routing, get_rt_entry}
use node_identity_architetur.Run.{Run, ok, ◌>>=◌}

-- What the output threads read and write. `peer` is the address field of `peer`, which stays from
-- one round to the next; `sent` is what `sendto` has been given.
pub record NrState : Type 0 where
  pub cm : Mapper
  pub rt : Routing
  pub registry : ConnTable
  pub dht : Dht
  pub peer : Nid32
  pub sent : List (Nid32 × Packet)

unfoldable pub sendto : Packet → NrState → NrState
sendto p s = record s { sent = s.sent ++ (s.peer, p) ∷ [] }

unfoldable pub ask_cm : Clock → Nid → NrState → Run (Bool × NrState)
ask_cm now nid s = do (r, m) ← get_cm_entry now nid s.cm; ok (r.0, record s { cm = m; peer = r.1 })

unfoldable pub ask_rt : Clock → Nid → NrState → Run (Bool × NrState)
ask_rt now nid s = do
  (r, t) ← get_rt_entry now.sec nid s.rt
  ok (r.0, record s { rt = t; peer = r.1 })

unfoldable pub ask_registry : Nid → NrState → Run (Bool × NrState)
ask_registry nid s = do r ← get_registry nid s.registry; ok (r.0, record s { peer = r.1 })

unfoldable pub ask_dht_entry : Clock → Nid → NrState → Run (Bool × NrState)
ask_dht_entry now nid s = do
  (r, d) ← get_dht_entry now nid s.peer s.dht
  ok (r.0, record s { dht = d; peer = r.1 })

-- `thread_nr_output`: the packet handler of a node.
unfoldable pub nr_output : Clock → Packet → NrState → Run NrState
nr_output now p s = do (hit, s') ← ask_cm now p.header.dest_nid s; ok (sendto p s')

-- `thread_nr_output_gw`, a packet of the gateway's own handler.
unfoldable pub nr_output_gw_own : Clock → Packet → NrState → Run NrState
nr_output_gw_own now p s = do
  (hit, s₁) ← ask_cm now p.header.dest_nid s
  if hit
      then ok (sendto p s₁)
      else (do (found, s₂) ← ask_rt now p.header.dest_nid s₁; ok (sendto p s₂))

-- `thread_nr_output_gw`, a packet that is routed.
unfoldable pub nr_output_gw_route : Clock → Packet → NrState → Run NrState
nr_output_gw_route now p s = do (found, s') ← ask_rt now p.header.dest_nid s; ok (sendto p s')

-- `thread_nr_output_core`, a packet that is routed; `continue` sends nothing.
unfoldable pub nr_output_core_route : Clock → Packet → NrState → Run NrState
nr_output_core_route now p s = do
  (routed, s₁) ← ask_rt now p.header.dest_nid s
  if routed then ok (sendto p s₁) else (do
    (known, s₂) ← ask_registry p.header.dest_nid s₁
    if known then ok (sendto p s₂) else (do
      (answered, s₃) ← ask_dht_entry now p.header.dest_nid_gw s₂
      if answered then ok (sendto p s₃) else ok s₃))

-- `thread_nr_output_core`, a packet of the core gateway's own handler.
unfoldable pub nr_output_core_own : Clock → Packet → NrState → Run NrState
nr_output_core_own now p s = do
  (hit, s') ← ask_cm now p.header.dest_nid s
  if hit then ok (sendto p s') else nr_output_core_route now p s'

-- What the input threads read and write: the connection map, and the sockets to the packet
-- handler and to the output thread.
pub record NrInput : Type 0 where
  pub connmap : ConnTable
  pub sp_nr2ph : List Packet
  pub sp_nr : List Packet

unfoldable pub deliver : ℕ → Nid32 → Packet → NrInput → Run NrInput
deliver now from p s = do
  t ← new_cm_entry now p.header.src_nid from s.connmap
  ok (record s { connmap = t; sp_nr2ph = s.sp_nr2ph ++ p ∷ [] })

-- `thread_nr_input`: a packet for another identifier is dropped.
unfoldable pub nr_input : ℕ → Nid → Nid32 → Packet → NrInput → Run NrInput
nr_input now nid from p s = if same p.header.dest_nid nid then deliver now from p s else ok s

-- `thread_nr_input_gw`: it is handed to the output thread.
unfoldable pub nr_input_gw : ℕ → Nid → Nid32 → Packet → NrInput → Run NrInput
nr_input_gw now nid from p s =
    if same p.header.dest_nid nid
    then deliver now from p s
    else ok (record s { sp_nr = s.sp_nr ++ p ∷ [] })
