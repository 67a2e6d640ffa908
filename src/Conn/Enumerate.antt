-- ===== src/Conn/Enumerate.antt =====
-- `hash_enumerate` lists the live entries, each once.
use node_identity_architetur.Base.{
  ℕ, ◌+◌, ◌≡◌, refl, ◌∙◌, ap, sym, Option, none, some, List, [], ◌∷◌, ◌++◌, arith, if◌then◌else◌,
  length, Bool-cases, inl, inr,
}
use mathlib.Core.List.{append_assoc, append-nil}
use node_identity_architetur.Chain.{Chain, find, Unique}
use node_identity_architetur.Conn.{
  ConnEntry, LlNode, LlHead, init_ll, link_tail, add_ll, is_live, enumerate_chain, hash_enumerate,
}
use node_identity_architetur.Nid.{Nid, Nid32, nid_key, nid_eq_iff}
use node_identity_architetur.Table.{HashTable, entries}
use node_identity_architetur.Table.Entries.{entries_lem}
use node_identity_architetur.Table.View.{IsValid, view}

-- The addresses of the live entries of a chain.
live : ℕ → Chain Nid ConnEntry → List LlNode
live now [] = []
live now (e ∷ c) = if is_live now e.1 then (e.0, e.1.ip) ∷ live now c else live now c

-- What a live entry contributes.
abbrev pub live_ip : ℕ → Option ConnEntry → Option Nid32
live_ip now none = none
live_ip now (some ce) = if is_live now ce then some ce.ip else none

link_tail-append : (node : LlNode) (ns : List LlNode) → link_tail node ns ≡ ns ++ (node ∷ [])
unfolding link_tail
link_tail-append node [] = refl
link_tail-append node (n ∷ ns) = rw (link_tail-append node ns)

enumerate_chain-append :
    (now : ℕ) (c : Chain Nid ConnEntry) (ll : LlHead)
    → (enumerate_chain now c ll).next ≡ ll.next ++ live now c
unfolding enumerate_chain live
enumerate_chain-append now [] ll = rw append-nil
enumerate_chain-append now (e ∷ c) ll = elim (Bool-cases (is_live now e.1)) [
  | inl hit ↦
      rw (hit, enumerate_chain)
        (enumerate_chain-append now c (add_ll e.0 e.1.ip ll)
          ∙ (unfold add_ll in rw (link_tail-append, append_assoc)))
  | inr miss ↦ rw (miss, enumerate_chain) (enumerate_chain-append now c ll)
]

enumerate_chain-size :
    (now : ℕ) (c : Chain Nid ConnEntry) (ll : LlHead)
    → (enumerate_chain now c ll).size ≡ ll.size + length (live now c)
unfolding enumerate_chain live add_ll
enumerate_chain-size now [] ll = omega arith
enumerate_chain-size now (e ∷ c) ll = elim (Bool-cases (is_live now e.1)) [
  | inl hit ↦
      rw (hit, enumerate_chain) (omega (arith, enumerate_chain-size now c (add_ll e.0 e.1.ip ll)))
  | inr miss ↦ rw (miss, enumerate_chain) (enumerate_chain-size now c ll)
]

find-live :
    (now : ℕ) (q : Nid) (c : Chain Nid ConnEntry)
    → Unique c
    → find q (live now c) ≡ live_ip now (find q c)
unfolding live find
find-live now q [] u = refl
find-live now q (e ∷ c) u = ground (arith, find-live now q c, nid_eq_iff q e.0)

live-Unique : (now : ℕ) (c : Chain Nid ConnEntry) → Unique c → Unique (live now c)
unfolding live
live-Unique now [] u = tt
live-Unique now (e ∷ c) u = elim (Bool-cases (is_live now e.1)) [
  | inl hit ↦ rw hit (find-live now e.0 c u.1 ∙ rw u.0, live-Unique now c u.1)
  | inr miss ↦ rw miss (live-Unique now c u.1)
]

-- Starting from the empty list, `hash_enumerate` on a well-formed table gives a list in which each
-- identifier stands at most once, with its address exactly if its entry is live (static, or
-- stamped less than RVS_UPDATE_TIMEOUT seconds ago), and whose `size` is the number of its nodes.
pub hash_enumerate_lem :
    (now : ℕ) (t : HashTable Nid ConnEntry)
    → IsValid t
    → Unique (hash_enumerate now t init_ll).next
      × ((q : Nid) → find q (hash_enumerate now t init_ll).next ≡ live_ip now (view t q))
      × ((hash_enumerate now t init_ll).size ≡ length (hash_enumerate now t init_ll).next)
unfolding hash_enumerate init_ll
hash_enumerate_lem now t valid =
    let (u, reads) = entries_lem t valid in
    rw (enumerate_chain-append, enumerate_chain-size)
      (
        live-Unique now (entries t) u,
        λ q. find-live now q (entries t) u ∙ rw (reads q),
        omega arith,
      )

-- A second enumeration puts the same nodes once more behind those that are there.
pub hash_enumerate_again :
    (now : ℕ) (t : HashTable Nid ConnEntry) (ll : LlHead)
    → (hash_enumerate now t ll).next ≡ ll.next ++ (hash_enumerate now t init_ll).next
unfolding hash_enumerate init_ll
hash_enumerate_again now t ll =
    enumerate_chain-append now (entries t) ll
    ∙ ap (λ l. ll.next ++ l) (sym (enumerate_chain-append now (entries t) _))
