-- ===== src/Dns/Cache.antt =====
-- What later rounds make of the cache.
use node_identity_architetur.Base.{
  ℕ, Bool, ◌+◌, ◌-◌, ◌*◌, ◌≡◌, ◌⊎◌, ◌∙◌, refl, true, false, Option, none, some, List, [], arith,
  ◌==◌, length, bit_and, inl, inr, Bool-cases,
}
use node_identity_architetur.Dns.Learn.{nids_text}
use node_identity_architetur.Dns.Proxy.{
  to_ans_ans, Proxy, Kernel, Round, stop, deref, learn_nids, answer_from_cache, thread_dnshandler,
}
use node_identity_architetur.Dns.Question.{IsAddress}
use node_identity_architetur.Dns.Record.{Reply}
use node_identity_architetur.Dns.Rounds.{
  Received, FromCache, asking, hit_lem, thread_dnshandler-FromCache,
}
use node_identity_architetur.Dns.Served.{Exchange, heard, FromServer, thread_dnshandler_refused}
use node_identity_architetur.Dns.{get_nids}
use node_identity_architetur.Key.{same}
use node_identity_architetur.Memory.Splice.{IsText, zeros}
use node_identity_architetur.Memory.{fill, copy_from, until_nul}
use node_identity_architetur.Names.{NidMapper}
use node_identity_architetur.Nid.{Nid, CString, IsNid, fqdn_key}
use node_identity_architetur.Run.{ok, ◌>>=◌, Returns}
use node_identity_architetur.Table.View.{IsValid, view}

-- The name is the one just resolved, or was in the cache before.
abbrev pub InCache : CString → CString → Proxy → Type 0
InCache name' name s = (same name' name ≡ true) ⊎ (view s.fqdn_table name' ≡ some to_ans_ans)

module _ (inet_pton6 : CString → Option Nid) (text6 : Nid → CString)
    (sized : (a : Nid) → IsNid a → length (text6 a) ≡ 39)
    (text : (a : Nid) → IsNid a → IsText (text6 a))
    (reads : (a : Nid) → IsNid a → inet_pton6 (text6 a) ≡ some a) (k : Kernel) (s : Proxy) (a b : ℕ)
    (counts : List ℕ) (name : CString) (q_type : ℕ) (rest : List ℕ)
    (received : Received k s a b counts name q_type rest) (f₁ f₂ : ℕ) (more : List ℕ) (r : Reply)
    (datagram : List ℕ) (nid nidr : Nid) (round : Round) where
  -- If the name server's texts of identifiers have 39 characters, none of them NUL, and `inet_pton`
  -- reads them back: after a round that has learnt a name's two identifiers from the server, on
  -- well-formed tables, a query for an address of that name, or of any name that was in the cache
  -- before, is answered from the cache, and the answer holds the identifiers just learnt, whichever
  -- of the names is asked for. The name mapper records them again, nobody is asked, and the loop
  -- goes on if the answer can be sent.
  pub served-FromCache :
      FromServer inet_pton6 text6 sized text reads k s a b counts name q_type rest received f₁ f₂
        more r datagram nid nidr round
      → IsNid nid
      → IsNid nidr
      → (alloc : Bool) (k' : Kernel) (a' b' : ℕ) (counts' : List ℕ) (name' : CString) (q_type' : ℕ)
        (rest' : List ℕ)
      → Received k' round.proxy a' b' counts' name' q_type' rest'
      → InCache name' name s
      → IsAddress q_type'
      → Returns
          (thread_dnshandler inet_pton6 alloc k' round.proxy)
          (FromCache inet_pton6 text6 sized text reads k' round.proxy a' b' name' q_type' nid nidr)
  served-FromCache served is is' alloc k' a' b' counts' name' q_type' rest' received' cached asks =
      let known : view round.proxy.fqdn_table name' ≡ some to_ans_ans =
        served.cached.reads name' ∙ (elim (Bool-cases (same name' name)) [
          | inl hit ↦ rw hit
          | inr miss ↦
              rw miss
                (elim cached [ inl hit ↦ absurd (ground (arith, hit, miss)) | inr before ↦ before ])
        ]) in
      thread_dnshandler-FromCache inet_pton6 text6 sized text reads alloc k' round.proxy a' b'
        counts' name' q_type' rest' received' nid nidr
        (256 - length (nids_text (text6 nid) (text6 nidr))) is is' served.learnt.well
        served.cached.valid known served.kept_text asks

no_nids :
    (inet_pton6 : CString → Option Nid) (names : NidMapper)
    → inet_pton6 [] ≡ none
    → learn_nids inet_pton6 (zeros 256) names ≡ ok none
unfolding learn_nids get_nids copy_from fill until_nul
no_nids inet_pton6 names none_read = rw none_read

module _ (inet_pton6 : CString → Option Nid) (none_read : inet_pton6 [] ≡ none) (alloc : Bool)
    (k k' : Kernel) (s : Proxy) (a b : ℕ) (counts : List ℕ) (name : CString) (q_type : ℕ)
    (rest : List ℕ) (received : Received k s a b counts name q_type rest) (f₁ f₂ : ℕ)
    (more : List ℕ) (type' : ℕ) (rest' : List ℕ)
    (exchange : Exchange k
      (asking s a b counts name q_type rest)
      a
      b
      f₁
      f₂
      more
      name
      type'
      rest') where
  -- The proxy after the error.
  abbrev pub forgetful : Proxy
  forgetful =
      record (heard inet_pton6 alloc k s a b counts name q_type rest received f₁ f₂ more type' rest'
        exchange) { ans_ans = zeros 256 }

  -- If `inet_pton` refuses the empty text: a round on a well-formed cache in which the server
  -- answers a query for an unknown name with an error goes on exactly if its reply can be sent to
  -- the client, and then a query for any name in the cache is not answered and ends the loop.
  pub refused-stop :
      (a' b' : ℕ) (counts' : List ℕ) (name' : CString) (q_type' : ℕ) (rest'' : List ℕ)
      → IsValid s.fqdn_table
      → view s.fqdn_table name ≡ none
      → (bit_and (f₁ * 256 + f₂) 15 == 0) ≡ false
      → Received k' forgetful a' b' counts' name' q_type' rest''
      → view s.fqdn_table name' ≡ some to_ans_ans
      → Returns (thread_dnshandler inet_pton6 alloc k s) λ round.
        (round.running ≡ k.answered)
        × Returns
            (thread_dnshandler inet_pton6 alloc k' round.proxy)
            λ round'. (round'.to_client ≡ none) × (round'.running ≡ false)
  unfolding answer_from_cache deref stop
  refused-stop a' b' counts' name' q_type' rest'' valid new refused received' known = (
    _,
    thread_dnshandler_refused inet_pton6 alloc k s a b counts name q_type rest received f₁ f₂ more
        type' rest' exchange valid new refused,
    (
      refl,
      (
        record {
          proxy = asking forgetful a' b' counts' name' q_type' rest'';
          to_server = none;
          to_client = none;
          running = false;
        },
        hit_lem inet_pton6 alloc k' forgetful a' b' counts' name' q_type' rest'' received' valid
              known
            ∙ rw (no_nids inet_pton6 s.names none_read, ◌>>=◌),
        (refl, refl),
      ),
    ),
  )
