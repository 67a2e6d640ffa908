-- ===== src/Dhcp/Roam.antt =====
-- A lease decides whether the host has moved to another domain.
use node_identity_architetur.Base.{
  ℕ, ◌-◌, ◌<◌, ◌≡◌, ◌∙◌, sym, ap, refl, ◌^◌, Option, some, [], ◌∷◌, arith, length, if◌then◌else◌,
  inl, inr, Bool-cases,
}
use node_identity_architetur.Config.{intradomain, interdomain}
use node_identity_architetur.Dhcp.{start_dhcp, second_token, decide_mobility, thread_dhcp}
use node_identity_architetur.Memory.Splice.{IsText, zeros, zeros-append, fill_lem, strcpy-append}
use node_identity_architetur.Memory.{Buffer, copy_to, fill}
use node_identity_architetur.Names.Entries.{IsNidMapper}
use node_identity_architetur.Nid.{Nid, Nid32, CString, IsNid, bytes_eq, bytes_eq_iff, nid_eq_iff}
use node_identity_architetur.Reconfigure.Lease.{
  IsToken, Lease, IsLease, lease_text, with_lease, strtok-append, set_conf_dhcp-lease_text,
}
use node_identity_architetur.Reconfigure.{Configured, update_dns_server_address}
use node_identity_architetur.Run.{out_of_bounds, ◌>>=◌, Returns}

-- The array has 46 bytes, and 128 are written.
pub start_dhcp_overflow : (aux : Buffer) → length aux ≡ 46 → start_dhcp aux ≡ out_of_bounds
unfolding start_dhcp fill copy_to
start_dhcp_overflow aux sized = ground (arith, sized)

abbrev pub moved : Nid → Nid → ℕ
moved old new = if bytes_eq new.u6_addr8 old.u6_addr8 then intradomain else interdomain

module _ (inet_pton6 : CString → Option Nid) (inet_pton4 : CString → Option Nid32)
    (text6 : Nid → CString) (text4 : Nid32 → CString)
    (token6 : (a : Nid) → IsNid a → IsToken (text6 a))
    (token4 : (a : Nid32) → a < 2 ^ 32 → IsToken (text4 a))
    (reads6 : (a : Nid) → IsNid a → inet_pton6 (text6 a) ≡ some a)
    (reads4 : (a : Nid32) → a < 2 ^ 32 → inet_pton4 (text4 a) ≡ some a) where
  -- Texts of identifiers are equal exactly if the identifiers are.
  text6_eq :
      (a b : Nid)
      → IsNid a
      → IsNid b
      → bytes_eq (text6 a) (text6 b) ≡ bytes_eq a.u6_addr8 b.u6_addr8
  text6_eq a b is is' = elim (Bool-cases (bytes_eq (text6 a) (text6 b))) [
    | inl hit ↦
        let texts : text6 a ≡ text6 b = (bytes_eq_iff (text6 a) (text6 b)).0 hit in
        let read : inet_pton6 (text6 b) ≡ some a = rw (← texts) (reads6 a is) in
        let same : a ≡ b = ground (arith, read, reads6 b is') in hit ∙ sym ((nid_eq_iff a b).1 same)
    | inr miss ↦ elim (Bool-cases (bytes_eq a.u6_addr8 b.u6_addr8)) [
      | inl hit ↦
          let texts : text6 a ≡ text6 b = ap text6 ((nid_eq_iff a b).0 hit) in
          absurd (ground (arith, miss, (bytes_eq_iff (text6 a) (text6 b)).1 texts))
      | inr other ↦ miss ∙ sym other
    ]
  ]

  second-lease_text :
      (l : Lease) → IsLease l → second_token (lease_text text6 text4 l) ≡ some (text6 l.nidgw)
  unfolding second_token
  second-lease_text l is = rw (
    second_token,
    strtok-append (text6 l.nidcore) _ (token6 l.nidcore is.nidcore),
    strtok-append (text6 l.nidgw) _ (token6 l.nidgw is.nidgw),
  )

  -- If `inet_pton` reads the texts of addresses back, none of which is empty or holds a `|`: on the
  -- text of a lease of fewer than 128 characters, none of them NUL, and a well-formed name mapper,
  -- a round of `thread_dhcp` takes over the seven addresses, and marks the movement as one within
  -- the domain exactly if the lease's gateway has the identifier of the old one. The core gateway
  -- of later data packets and the address of the name server follow the lease.
  pub thread_dhcp-lease_text :
      (l : Lease) (s : Configured)
      → IsLease l
      → IsNid s.conf.nidgw
      → IsNidMapper s.ph.names
      → IsText (lease_text text6 text4 l)
      → length (lease_text text6 text4 l) < 128
      → Returns (thread_dhcp text6 inet_pton6 inet_pton4 (lease_text text6 text4 l) s) λ s'.
        (s'.conf ≡ with_lease l (record s.conf { mobility = moved s.conf.nidgw l.nidgw }))
        × (s'.ph.nidcore ≡ l.nidcore)
        × (s'.server_address ≡ update_dns_server_address l.niddns)
  unfolding thread_dhcp decide_mobility
  thread_dhcp-lease_text l s is gateway well text short =
      let response = lease_text text6 text4 l in
      let n = length response in
      let room : zeros (128 - n) ≡ 0 ∷ zeros (127 - n) =
        zeros-append 1 (128 - n) (omega (arith, short))
        ∙ ap (λ k. 0 ∷ zeros k) (omega (arith, short)) in
      let kind : bytes_eq (text6 l.nidgw) (text6 s.conf.nidgw)
          ≡ bytes_eq l.nidgw.u6_addr8 s.conf.nidgw.u6_addr8 =
        text6_eq l.nidgw s.conf.nidgw is.nidgw gateway in
      let s₁ : Configured = record s {
        conf = record s.conf { mobility = moved s.conf.nidgw l.nidgw };
      } in
      let (s', run, (conf, core, updated, address)) =
        set_conf_dhcp-lease_text inet_pton6 inet_pton4 text6 text4 token6 token4 reads6 reads4 l s₁
          is well in
      (
        s',
        rw (
          fill_lem 128 response (omega (arith, short)),
          ◌>>=◌,
          room,
          strcpy-append [] response (zeros (127 - n)) 128 0 text short refl,
          second-lease_text l is,
          kind,
          run,
        ),
        (conf, core, address),
      )
