-- ===== src/Dht/Stale.antt =====
-- What a round of `thread_dht_get` takes for the address.
use node_identity_architetur.Base.{
  ℕ, suc, ◌+◌, ◌-◌, ◌<◌, ◌≡◌, ◌∙◌, sym, ap, refl, true, Option, some, List, [], ◌∷◌, ◌++◌, arith,
  length, length-append, drop,
}
use node_identity_architetur.Dht.Entries.{IsDht, dht_answered_lem}
use node_identity_architetur.Dht.Fetch.{
  connect_dht_server, Fetch, strncpy, take_value, take_values, ask_dht_server, fetch,
  thread_dht_get,
}
use node_identity_architetur.Dht.{Dht}
use node_identity_architetur.Memory.Splice.{
  IsText, joins, store_within, copy_to-append, strcpy-append, append_assoc, append-nil,
}
use node_identity_architetur.Memory.{Buffer, copy_to, strcpy, splice, until_nul}
use node_identity_architetur.Nid.{Nid, Nid32, CString, nid_key}
use node_identity_architetur.Queue.{Clock}
use node_identity_architetur.Reconfigure.{overwrite}
use node_identity_architetur.Run.{ok, ◌>>=◌, Returns}
use node_identity_architetur.Table.View.{view, update}

until_nul_text : (s : CString) → IsText s → until_nul s ≡ s
unfolding until_nul
until_nul_text [] is = refl
until_nul_text (c ∷ s) (here, there) = rw (here, until_nul_text s there)

strncpy_text : (s : CString) → IsText s → strncpy s ≡ s
unfolding strncpy
strncpy_text s is =
    let none_left : length s - length s ≡ 0 = omega arith in
    rw (until_nul_text s is, none_left) (append-nil s)

module _ (inet_ntop6 : Nid → CString) (inet_pton4 : CString → Option Nid32) (now : Clock)
    (nid : Nid) (nids : List Nid) (value begin rest : CString) (values : List (List ℕ))
    (s : Fetch) where
  -- What the array held behind the text.
  abbrev behind : Buffer
  behind = drop (suc (length (begin ++ rest))) s.aux

  -- On a well-formed state, with the server at hand: if the first value of an answer has no more
  -- characters than the text of the identifier that is asked for, and that text, of fewer than 46
  -- characters, has no NUL, nor has the value, then a round of `thread_dht_get` gives `inet_pton`
  -- the value followed by the end of the identifier's text, and stores what it reads as the
  -- identifier's address, or if it reads none the address of an earlier round. No other identifier
  -- is touched, the state stays well formed, and the thread goes on.
  pub thread_dht_get-value :
      inet_ntop6 nid ≡ begin ++ rest
      → IsText (begin ++ rest)
      → IsText value
      → IsText (value ++ rest)
      → length value ≡ length begin
      → length (begin ++ rest) < 46
      → length s.aux ≡ 46
      → IsDht s.dht
      → s.dht.sp_dht ≡ nid ∷ nids
      → Returns
          (thread_dht_get inet_ntop6 inet_pton4 now.sec
            (record { resolved = true; connected = true; answers = true })
            (some (value ∷ values))
            s)
          λ (s', running).
            (running ≡ true)
            × (s'.nid32 ≡ overwrite (inet_pton4 (value ++ rest)) s.nid32)
            × IsDht s'.dht
            × ((q : Nid)
                → view s'.dht.dhtable q
                  ≡ update
                      (view s.dht.dhtable)
                      nid
                      (some (record { ip = s'.nid32; tstamp = now.sec }))
                      q)
  unfolding thread_dht_get splice fetch ask_dht_server take_values take_value connect_dht_server
  thread_dht_get-value named text value_text whole sized short room is asked =
      let d : Dht = record s.dht { sp_dht = nids } in
      let address = overwrite (inet_pton4 (value ++ rest)) s.nid32 in
      let (d', run, (is', reads, freed)) =
        dht_answered_lem now nid d (record { known = is.known; requests = is.requests }) address in
      let written : copy_to 0 (inet_ntop6 nid ++ 0 ∷ []) s.aux
          ≡ ok ((begin ++ rest) ++ 0 ∷ behind) =
        let bs = (begin ++ rest) ++ 0 ∷ [] in
        let n : length bs ≡ suc (length (begin ++ rest)) =
          omega (arith, length-append (begin ++ rest) (0 ∷ [])) in
        let n' : 0 + length bs ≡ suc (length (begin ++ rest)) = omega (arith, n) in
        rw named (
          copy_to-append [] s.aux 0 0 refl bs (omega (arith, n, room, short))
          ∙ rw n' (ap ok (append_assoc (begin ++ rest) (0 ∷ []) behind))) in
      let over : copy_to 0 (strncpy value) ((begin ++ rest) ++ 0 ∷ behind)
          ≡ ok ((value ++ rest) ++ 0 ∷ behind) =
        rw (strncpy_text value value_text) (
          store_within [] begin (rest ++ 0 ∷ behind) ((begin ++ rest) ++ 0 ∷ behind) 0 (simp joins)
            refl value (sym sized)
          ∙ ap ok (sym (simp joins))) in
      let read : strcpy 46 0 ((value ++ rest) ++ 0 ∷ behind) ≡ ok (value ++ rest) =
        strcpy-append [] (value ++ rest) behind 46 0 whole
          (omega (arith, length-append value rest, length-append begin rest, sized, short)) refl in
      (
        (record { dht = d'; nid32 = address; aux = (value ++ rest) ++ 0 ∷ behind }, true),
        rw (asked, ◌>>=◌, written, over, read, run),
        (refl, refl, is', reads),
      )
