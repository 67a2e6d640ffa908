-- ===== src/Lib.antt =====
-- A model of the daemon of the node identity architecture (src/, in C) and of its rendezvous
-- server, with proofs about it.
--
-- A host has a node identifier (NID, 16 bytes), and its packets go from identifier to identifier
-- over UDP. The daemon is a set of threads, joined by socket pairs, over a few hash tables:
--   the packet handler puts captured IP packets and control messages under a header;
--   the routing threads look up the destination and send, and take in what arrives;
--   the control thread acts on messages: REDIRECT, RELOCATE, REGISTRY, REDIRECT_CORE, RVS_*;
--   the rendezvous client announces the host and resolves identifiers at the server;
--   the gateway's threads pass registrations up the tree to the core gateway;
--   the mobility thread tells the peers and the server of a new address.
--
-- The files, and the sources that they model:
--   Nid         src/nid.h (NID, NID32), the hash functions of src/hash.c, src/hash32.c and
--               src/fqdn_hash.c, and nid2nid32 of src/configuration.c
--   Message     src/nid.h: NID_header, NID_msg, the message types, and what a buffer holds
--   Config      src/configuration.c: the globals that the other parts read
--   Chain       src/hash.h: one chain of buckets
--   Table       src/hash.c: hash_table and its operations; Table/View reads a table as a map from
--               keys to data, Table/Entries lists what the loops over a table visit
--   Hash32, FqdnHash   src/hash32.c and src/fqdn_hash.c: the same table at other keys
--   Conn        conn_entry of src/nid.h, src/llist.c, and hash_enumerate of src/hash.c
--   Queue, DhtQueue    src/rvs_queue_table.c and src/dht_queue_table.c
--   Mapper      src/connection_mapper.c; Mapper/Entries, Lookup and Clean prove about writes,
--               getCMEntry, and updateCMconf
--   Names       src/nid_mapper.c
--   Routing     src/nid_routing.c: the routing table
--   Forward     src/nid_routing.c: the threads; Forward/Output, Core and Input prove about them
--   Registry    src/gwc.c: the core gateway's registry
--   Gateway     src/gwc.c: the threads; Gateway/Climb follows a registration
--   Dht         src/dhtc.c: the host's copy of the distributed table; Dht/Fetch has the threads that
--               put into the table and get from it, Dht/Stale proves about the latter
--   Rvs         src/rvs.c: the rendezvous server
--   RvsClient   src/rvsc.c: the rendezvous client
--   Control     src/control.c: the control threads of the four roles
--   PacketHandler      src/packetHandler.c
--   Mobility    src/mobility.c
--   Reconfigure src/configuration.c: set_conf_dhcp, and update_dns_server_address of
--               src/dnshandler.c
--   Memory      arrays of bytes with their sizes; Memory/Splice proves about copies
--   FqdnTable   src/fqdn_table.c
--   Dns         src/dnshandler.c: the name server proxy; Dns/Response writes responses, Dns/Proxy is
--               the thread, and the other children prove about queries, responses and rounds
--   Settings    src/configuration.c: get_data, read_config and the setters; Settings/Walk and Role
--               prove about the walk over the file's tree
--   Dhcp        src/dhcp.c: thread_dhcp; Dhcp/Roam proves about a lease
--   Daemon      src/nidd.c: what main starts for each of the four roles
--   Startup     src/nidd.c: main of a node, and the rounds of its threads in any order;
--               Startup/Exchange follows a request and its answer between two nodes
--   Hosts       src/nidd.c: main of any of the four roles, and the rounds of all its threads in any
--               order; Hosts/Begun, Rounds and Safe prove that the tables stay well formed, and
--               Hosts/Routed and Climbing follow packets and registrations through a
--               gateway, Hosts/Arrival and Path along a path of gateways; Hosts/Closing has what
--               an interrupt does
--   Dh          src/dh_client2.c and src/dh_server2.c: two programs that agree on a key
--   Conecta     src/conecta.c: the program that joins a network and waits for its link
--   Base, Key, Run     shared helpers: numbers and lists, keys of a table, and results of code
--               that may divide by zero
--   Tests       the theorems at small inputs
--
-- How the code is modelled. The global tables and variables of a file are a record, and a function
-- that changes them takes and returns the record. A thread is a function that makes one round of
-- its loop: it is given what it reads, or takes the head of a list that stands for a socket, and
-- adds what it writes to other lists. A round is atomic: the code takes no lock, and what two
-- threads do to one table at the same moment is not modelled. A hash table is a size and a
-- function from places to chains, and `%` by a table size of 0 is a fault; so is a copy that leaves
-- an array, where arrays of bytes are modelled as such (the proxy, dhcp.c, and what nidd.c and
-- configuration.c copy), and a NULL text. `exit` ends a run too. `hash_insert` and
-- `construct_hash_table` take as a Boolean whether memory is found; the callers, which do not test
-- the result of `calloc`, are modelled where it is. A chain's nodes and an entry's memory are not
-- shared between tables, so an entry that is changed in place and then inserted is written once; the
-- proxy's cache holds pointers, and the text they point to is in the proxy's state.
--   An operation that reads the clock more than once is given one reading. Numbers of seconds do
-- not wrap around; hashes do, at 32 bits. An address is the number that `inet_pton` and
-- `inet_ntop` translate, in place of its text. The host's own address is an argument.
-- `inet_pton` is a parameter where the text matters, and so are `inet_ntop` and `atoi`.
--   A call that fails in a round, and after which the code calls `exit`, ends the run; whether it
-- fails is an argument. A thread takes rounds once the calls before its loop have succeeded.
-- A `recvfrom` or `read` whose failure is at most printed is taken to succeed.
--   Every definition is total: loops run over lists, so there is no fuel.
--
-- Not modelled: the RPC library and OpenSSL, calls of the kernel (src/tools.c, src/tuntap.c,
-- src/nidfilter.c), printing, the windows of src/gui, and the vendored src/dhcpcd-1.3.22-pl4.
pub mod Base
pub mod Run
pub mod Key
pub mod Chain
pub mod Nid
pub mod Table
pub mod Hash32
pub mod FqdnHash
pub mod Conn
pub mod Queue
pub mod DhtQueue
pub mod Config
pub mod Mapper
pub mod Message
pub mod Routing
pub mod Registry
pub mod Dht
pub mod Forward
pub mod Names
pub mod Rvs
pub mod RvsClient
pub mod Control
pub mod Gateway
pub mod PacketHandler
pub mod Mobility
pub mod Startup
pub mod Reconfigure
pub mod Memory
pub mod FqdnTable
pub mod Dns
pub mod Settings
pub mod Dhcp
pub mod Daemon
pub mod Hosts
pub mod Conecta
pub mod Dh
mod Tests
