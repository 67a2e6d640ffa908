-- ===== src/Conecta/Ends.antt =====
-- When `conecta` ends, and what it has run.
use node_identity_architetur.Base.{
  ℕ, suc, ◌+◌, ◌<◌, ◌≤◌, ◌≡◌, ◌∙◌, true, false, Option, none, some, List, [], ◌∷◌, ◌++◌, arith,
  ◌==◌, ltb, leb, if◌then◌else◌, length, length-append, All, inl, inr, Bool-cases,
}
use node_identity_architetur.Conecta.{
  rtm_newlink, iwconfig, essid_off, key_off, essid_on, remove_leases, dhcpcd, Joining, read_event,
  run_command, link_up, wait_link, conecta,
}
use node_identity_architetur.Memory.{fill}
use node_identity_architetur.Nid.{CString}
use node_identity_architetur.Run.{ok, out_of_bounds, ◌>>=◌}

-- The number of events that say that the link has changed.
abbrev pub links : List (Option ℕ) → ℕ
links [] = 0
links (none ∷ events) = links events
links (some type ∷ events) = if type == rtm_newlink then suc (links events) else links events

-- `recvmsg` succeeds.
abbrev pub IsRead : Option ℕ → Type 0
IsRead none = ⊥
IsRead (some type) = Unit

run_command_lem :
    (text : CString) (s : Joining)
    → length text < 32
    → run_command text s ≡ ok (record s { commands = s.commands ++ text ∷ [] })
unfolding run_command fill
run_command_lem text s short =
    let fits : leb (length (text ++ 0 ∷ [])) 32 ≡ true =
      ground (arith, length-append text (0 ∷ []), short) in
    rw fits

run_command_overflow :
    (text : CString) (s : Joining) → 32 ≤ length text → run_command text s ≡ out_of_bounds
unfolding run_command fill
run_command_overflow text s long =
    let outside : leb (length (text ++ 0 ∷ [])) 32 ≡ false =
      ground (arith, length-append text (0 ∷ []), long) in
    rw outside

module _ (iface : CString) where
  abbrev joined : Joining → Joining
  joined s = record {
    commands = (s.commands ++ remove_leases ∷ []) ++ (dhcpcd ++ iface) ∷ [];
    ended = true;
  }

  link_up_lem : (s : Joining) → length iface ≤ 12 → link_up iface s ≡ ok (joined s)
  unfolding link_up
  link_up_lem s short = rw (
    run_command_lem (dhcpcd ++ iface) (record s { commands = s.commands ++ remove_leases ∷ [] })
        (omega (arith, length-append dhcpcd iface, short)),
    ◌>>=◌,
  )

  wait_link_lem :
      (count : ℕ) (events : List (Option ℕ)) (s : Joining)
      → length iface ≤ 12
      → count < 5
      → All IsRead events
      → wait_link iface count events s ≡ ok (if leb 5 (count + links events) then joined s else s)
  unfolding wait_link read_event
  wait_link_lem count [] s short few reads =
      let waits : leb 5 (count + 0) ≡ false = ground arith in rw waits
  wait_link_lem count (none ∷ events) s short few reads = absurd reads.0
  wait_link_lem count (some type ∷ events) s short few reads =
      elim (Bool-cases (type == rtm_newlink)) [
        | inr other ↦ rw other (wait_link_lem count events s short few reads.1)
        | inl link ↦ elim (Bool-cases (leb 5 (suc count))) [
          | inl last ↦
              let enough : leb 5 (count + suc (links events)) ≡ true = ground arith in
              rw (link, last, enough) (link_up_lem s short)
          | inr more ↦
              let next : count + suc (links events) ≡ suc count + links events = omega arith in
              rw (link, more, next)
                (wait_link_lem (suc count) events s short (ground arith) reads.1)
        ]
      ]

  -- What is run before the loop.
  abbrev pub joining : CString → List CString
  joining essid =
      (iwconfig ++ (iface ++ essid_off))
      ∷ (iwconfig ++ (iface ++ key_off))
      ∷ (iwconfig ++ (iface ++ (essid_on ++ essid)))
      ∷ []

  module _ (essid : CString) (argc : ℕ) (enough : 2 < argc) (events : List (Option ℕ)) where
    -- If the netlink socket can be opened and read, and the names of the interface and of the
    -- network have at most 15 characters together, the first of them at most 12: the program ends
    -- with the fifth event of a new link, whatever other events come, and has not ended before. It
    -- has run the three commands that join the network, and once it ends the two that ask for a
    -- lease.
    pub conecta-ends :
        length iface ≤ 12
        → length iface + length essid ≤ 15
        → All IsRead events
        → conecta true true argc iface essid events
          ≡ ok (
              if leb 5 (links events)
              then record {
                commands = joining essid ++ remove_leases ∷ (dhcpcd ++ iface) ∷ [];
                ended = true;
              }
              else record { commands = joining essid; ended = false })
    unfolding conecta
    conecta-ends short fits reads =
        let args : ltb argc 3 ≡ false = ground arith in
        let s₃ : Joining = record { commands = joining essid; ended = false } in
        rw
          (
            args,
            run_command_lem (iwconfig ++ (iface ++ essid_off))
                (record { commands = []; ended = false })
                (omega (arith, length-append iface essid_off)),
            ◌>>=◌,
            run_command_lem (iwconfig ++ (iface ++ key_off)) _
                (omega (arith, length-append iface key_off)),
            run_command_lem (iwconfig ++ (iface ++ (essid_on ++ essid))) _
                (omega (arith, length-append iface (essid_on ++ essid))),
          )
          (wait_link_lem 0 events s₃ short (omega arith) reads
            ∙ (let none_before : 0 + links events ≡ links events = omega arith in rw none_before))

    -- If the netlink socket can be opened and bound, and the two names have more than 15 characters
    -- together, the program writes outside the array for its commands before it waits for an
    -- event.
    pub conecta_overflow :
        15 < length iface + length essid → conecta true true argc iface essid events ≡ out_of_bounds
    unfolding conecta
    conecta_overflow long =
        let args : ltb argc 3 ≡ false = ground arith in
        let none_yet : Joining = record { commands = []; ended = false } in
        elim (Bool-cases (leb (length iface) 12)) [
          | inr wide ↦ rw (
            args,
            run_command_overflow (iwconfig ++ (iface ++ essid_off)) none_yet
                (ground (arith, length-append iface essid_off)),
            ◌>>=◌,
          )
          | inl short ↦
              let small : length iface ≤ 12 = ground arith in
              rw (
                args,
                run_command_lem (iwconfig ++ (iface ++ essid_off)) none_yet
                    (omega (arith, length-append iface essid_off)),
                ◌>>=◌,
                run_command_lem (iwconfig ++ (iface ++ key_off)) _
                    (omega (arith, length-append iface key_off)),
                run_command_overflow (iwconfig ++ (iface ++ (essid_on ++ essid))) _
                    (omega (arith, length-append iface (essid_on ++ essid))),
              )
        ]
