-- ===== src/Dht/Kept.antt =====
-- Whatever the server answers, a round of `thread_dht_get` that ends normally leaves the copy of the
-- table well formed.
use node_identity_architetur.Base.{
  ℕ, Bool, true, Option, none, some, List, [], ◌∷◌, List-cases, inl, inr, ◌++◌,
}
use node_identity_architetur.Dht.Entries.{IsDht, dht_answered_lem}
use node_identity_architetur.Dht.Fetch.{
  Server, Fetch, connect_dht_server, strncpy, take_value, take_values, ask_dht_server, fetch,
  thread_dht_get,
}
use node_identity_architetur.Dht.{dht_answered}
use node_identity_architetur.Memory.{copy_to, strcpy}
use node_identity_architetur.Nid.{Nid, Nid32, CString}
use node_identity_architetur.Reconfigure.{overwrite}
use node_identity_architetur.Run.{WhenOk, WhenOk-bind, Returns-WhenOk, ok-WhenOk, if-WhenOk}

abbrev Good : Fetch × Bool → Type 0
Good r = IsDht r.0.dht

-- Nothing is asked of the value.
abbrev Any {ℓ} : {X : Type ℓ} → X → Type 0
Any x = Unit {0}

module _ (inet_ntop6 : Nid → CString) (inet_pton4 : CString → Option Nid32) (now : ℕ) where
  take_value-IsDht :
      (nid : Nid) (value : List ℕ) (s : Fetch)
      → IsDht s.dht
      → WhenOk (take_value inet_ntop6 inet_pton4 now nid value s) Good
  unfolding take_value
  take_value-IsDht nid value s is =
      WhenOk-bind (copy_to 0 (strncpy value) s.aux) _ Any Good (λ aux e. tt)
        λ aux u.
          WhenOk-bind (strcpy 46 0 aux) _ Any Good (λ text e. tt)
            λ text u'.
              let nid32 = overwrite (inet_pton4 text) s.nid32 in
              WhenOk-bind (dht_answered now nid nid32 s.dht) _ IsDht Good
                (λ d run.
                  (Returns-WhenOk
                    (dht_answered_lem (record { sec = now; usec = 0 }) nid s.dht is nid32) d run).0)
                λ d is'. ok-WhenOk Good _ is'

  take_values-IsDht :
      (nid : Nid) (result : Option (List (List ℕ))) (s : Fetch)
      → IsDht s.dht
      → WhenOk (take_values inet_ntop6 inet_pton4 now nid result s) Good
  unfolding take_values
  take_values-IsDht nid none s is = λ y lost. cc
  take_values-IsDht nid (some []) s is = ok-WhenOk Good (s, true) is
  take_values-IsDht nid (some (value ∷ values)) s is = take_value-IsDht nid value s is

  pub thread_dht_get-IsDht :
      (server : Server) (result : Option (List (List ℕ))) (s : Fetch)
      → IsDht s.dht
      → WhenOk (thread_dht_get inet_ntop6 inet_pton4 now server result s) Good
  unfolding thread_dht_get fetch ask_dht_server
  thread_dht_get-IsDht server result s is = elim (List-cases s.dht.sp_dht) [
    | inl quiet ↦
        rw quiet (ok-WhenOk Good (_, true) (record { known = is.known; requests = is.requests }))
    | inr (nid, nids, waiting) ↦
        let s₁ : Fetch = record s { dht = record s.dht { sp_dht = nids } } in
        let is₁ : IsDht s₁.dht = record { known = is.known; requests = is.requests } in
        rw waiting (
          WhenOk-bind (connect_dht_server server) _ Any Good (λ clnt e. tt)
            λ clnt u.
              if-WhenOk Good clnt _ _
                (WhenOk-bind (copy_to 0 (inet_ntop6 nid ++ 0 ∷ []) s.aux) _ Any Good (λ aux e. tt)
                  λ aux u'. take_values-IsDht nid result (record s₁ { aux = aux }) is₁)
                (ok-WhenOk Good (s₁, _) is₁))
  ]
