-- ===== src/Conn.antt =====
-- Connection entries (nid.h), the linked list of llist.c, and the enumeration of a table of
-- connection entries into such a list (the end of hash.c).
pub mod Enumerate
use node_identity_architetur.Base.{ℕ, ◌+◌, Bool, ◌||◌, List, [], ◌∷◌, ◌==◌, ltb, if◌then◌else◌}
use node_identity_architetur.Chain.{Chain}
use node_identity_architetur.Nid.{Nid, Nid32}
use node_identity_architetur.Table.{HashTable, entries}

-- A time stamp of 0 marks a static entry.
pub record ConnEntry : Type 0 where
  pub ip : Nid32
  pub tstamp : ℕ

abbrev pub rvs_update_timeout : ℕ
rvs_update_timeout = 5

-- `RVS_UPDATE_TIMEOUT-1`
abbrev pub rvs_proactive : ℕ
rvs_proactive = 4

abbrev pub rvs_timeout : ℕ
rvs_timeout = 10

abbrev pub gateway_timeout : ℕ
gateway_timeout = 10

-- A node of the list: the identifier, and the address that the text `ip` prints.
abbrev pub LlNode : Type 0
LlNode = Nid × Nid32

pub record LlHead : Type 0 where
  pub size : ℕ
  pub next : List LlNode

unfoldable pub init_ll : LlHead
init_ll = record { size = 0; next = [] }

-- `tail`, and the write that links the node behind it.
unfoldable pub link_tail : LlNode → List LlNode → List LlNode
link_tail node [] = node ∷ []
link_tail node (n ∷ ns) = n ∷ link_tail node ns

unfoldable pub add_ll : Nid → Nid32 → LlHead → LlHead
add_ll nid ip ll = record { size = ll.size + 1; next = link_tail (nid, ip) ll.next }

-- `(ce->tstamp + RVS_UPDATE_TIMEOUT > time(NULL)) || (ce->tstamp == 0)`
unfoldable pub is_live : ℕ → ConnEntry → Bool
is_live now ce = ltb now (ce.tstamp + rvs_update_timeout) || (ce.tstamp == 0)

unfoldable pub enumerate_chain : ℕ → Chain Nid ConnEntry → LlHead → LlHead
enumerate_chain now [] ll = ll
enumerate_chain now (e ∷ c) ll =
    enumerate_chain now c (if is_live now e.1 then add_ll e.0 e.1.ip ll else ll)

unfoldable pub hash_enumerate : ℕ → HashTable Nid ConnEntry → LlHead → LlHead
hash_enumerate now t ll = enumerate_chain now (entries t) ll
