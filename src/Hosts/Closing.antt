-- ===== src/Hosts/Closing.antt =====
-- nidd.c: `catch_int`, which an interrupt calls in one of the threads. The others go on until `exit`,
-- in code that `dlclose` may have unloaded: no round is modelled from here on. Printing is left out.
use node_identity_architetur.Base.{
  ℕ, zero, suc, ◌≤◌, ◌≡◌, ◌∙◌, refl, Bool, false, Option, List, [], ◌∷◌, ◌++◌, arith, length,
}
use mathlib.Core.List.{append_assoc, append-nil}
use node_identity_architetur.Daemon.Libs.{threads_of}
use node_identity_architetur.Daemon.{NodeType, Switches, Thread, lib_db_size}
use node_identity_architetur.Dht.{destroy_dhtable}
use node_identity_architetur.DhtQueue.{destroy_dht_queue_table}
use node_identity_architetur.Hosts.Safe.{Comes-IsHost}
use node_identity_architetur.Hosts.{Host, Comes}
use node_identity_architetur.Mapper.{destroy_conn_mapper}
use node_identity_architetur.Names.{destroy_nid_mapper}
use node_identity_architetur.Nid.{Nid, Nid32, CString, nid_key}
use node_identity_architetur.Queue.{destroy_rvs_queue_table}
use node_identity_architetur.Registry.{destroy_registry_table}
use node_identity_architetur.Routing.{destroy_rtable}
use node_identity_architetur.Table.{free_hash_table}
use node_identity_architetur.Hash32.{free_hash_table32}

-- `dlclose`
unfoldable pub close_lib : Thread → List Thread → List Thread
close_lib lib closed = closed ++ lib ∷ []

-- The loop over the first slots of `lib_db`; those behind the list hold NULL.
unfoldable pub close_libs : ℕ → List Thread → List Thread → List Thread
close_libs zero db closed = closed
close_libs (suc n) [] closed = close_libs n [] closed
close_libs (suc n) (lib ∷ db) closed = close_libs n db (close_lib lib closed)

-- The seven calls that destroy tables, in their order.
unfoldable pub destroy_tables : Host → Host
destroy_tables h =
    let nr = h.node.nr in
    let dht =
      destroy_dhtable
        (record nr.dht { dht_queue_table = destroy_dht_queue_table nr.dht.dht_queue_table }) in
    record h {
      node = record h.node {
        ph = record h.node.ph { names = destroy_nid_mapper h.node.ph.names };
        nr = record nr {
          cm = record (destroy_conn_mapper nr.cm) {
            queue_table = destroy_rvs_queue_table nr.cm.queue_table;
          };
          rt = destroy_rtable nr.rt;
          registry = destroy_registry_table nr.registry;
          dht = dht;
        };
      };
    }

-- What `catch_int` has done when it calls `exit`: the libraries closed, whether the tunnel device
-- is open, whether "pkill -9 dhcpcd" was run, and the state with its tables destroyed.
pub record Closing : Type 0 where
  pub closed : List Thread
  pub tap_open : Bool
  pub pkilled : Bool
  pub host : Host

unfoldable pub catch_int : (dhcp : Bool) → Host → Closing
catch_int dhcp h = record {
  closed = close_libs lib_db_size h.running [];
  tap_open = false;
  pkilled = dhcp;
  host = destroy_tables h;
}

-- No table holds anything.
pub record Emptied (h : Host) : Type 0 where
  pub names : h.node.ph.names.nid_table.size ≡ 0
  pub names32 : h.node.ph.names.nid32_table.size ≡ 0
  pub connmap : h.node.nr.cm.connmap.size ≡ 0
  pub rtable : h.node.nr.rt.rtable.size ≡ 0
  pub requests : h.node.nr.cm.queue_table.size ≡ 0
  pub dht_requests : h.node.nr.dht.dht_queue_table.size ≡ 0
  pub dhtable : h.node.nr.dht.dhtable.size ≡ 0
  pub registry : h.node.nr.registry.size ≡ 0

destroy_tables-Emptied : (h : Host) → Emptied (destroy_tables h)
unfolding destroy_tables destroy_nid_mapper destroy_conn_mapper destroy_rtable
    destroy_rvs_queue_table destroy_dht_queue_table destroy_dhtable destroy_registry_table
    free_hash_table free_hash_table32
destroy_tables-Emptied h = record {
  names = refl;
  names32 = refl;
  connmap = refl;
  rtable = refl;
  requests = refl;
  dht_requests = refl;
  dhtable = refl;
  registry = refl;
}

close_libs-append :
    (n : ℕ) (db closed : List Thread) → length db ≤ n → close_libs n db closed ≡ closed ++ db
unfolding close_libs close_lib
close_libs-append zero [] closed fits = rw append-nil refl
close_libs-append zero (lib ∷ db) closed fits = absurd (omega (arith, fits))
close_libs-append (suc n) [] closed fits = close_libs-append n [] closed (omega arith)
close_libs-append (suc n) (lib ∷ db) closed fits =
    close_libs-append n db (closed ++ lib ∷ []) (omega (arith, fits))
    ∙ append_assoc closed (lib ∷ []) db

module _ (inet_ntop6 : Nid → CString) (inet_pton6 : CString → Option Nid)
    (inet_pton4 : CString → Option Nid32) where
  -- An interrupt in any state that a host of any of the four roles comes to closes the library of
  -- each thread of the role once, in the order in which `main` has opened them, closes the tunnel
  -- device, kills the DHCP client if the host is configured to run it, and leaves every table of
  -- the name mapper, the connection mapper, the routes, the two request queues, the distributed
  -- table and the registry without a slot.
  pub Comes-catch_int :
      (found : Thread → Bool) (sw : Switches) (role : NodeType) (h : Host)
      → Comes inet_ntop6 inet_pton6 inet_pton4 found sw role h
      → ((catch_int sw.dhcp h).closed ≡ threads_of sw role)
        × ((catch_int sw.dhcp h).tap_open ≡ false)
        × ((catch_int sw.dhcp h).pkilled ≡ sw.dhcp)
        × Emptied (catch_int sw.dhcp h).host
  unfolding catch_int
  Comes-catch_int found sw role h comes =
      let is = Comes-IsHost inet_ntop6 inet_pton6 inet_pton4 found sw role h comes in
      (close_libs-append 12 h.running [] is.fits ∙ is.running, refl, refl, destroy_tables-Emptied h)
