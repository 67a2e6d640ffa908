-- ===== src/Conecta.antt =====
-- conecta.c: the program that joins a wireless network and waits for its link before it runs the
-- DHCP client. What the kernel answers is an argument; the measured times are left out. A netlink
-- socket is joined to the group RTM_DELLINK here, and RTM_NEWADDR in mobility.c.
pub mod Ends
use node_identity_architetur.Base.{
  ℕ, suc, Bool, true, false, Option, none, some, List, [], ◌∷◌, ◌++◌, ◌==◌, ltb, leb, if◌then◌else◌,
}
use node_identity_architetur.Memory.{fill}
use node_identity_architetur.Nid.{CString}
use node_identity_architetur.Run.{Run, ok, exited, ◌>>=◌}

abbrev pub rtm_newlink : ℕ
rtm_newlink = 16

-- "iwconfig ", " essid off", " key off", " essid ", "rm -fr /etc/dhcpc/*" and "./dhcpcd -YR "
abbrev pub iwconfig : CString
iwconfig = 105 ∷ 119 ∷ 99 ∷ 111 ∷ 110 ∷ 102 ∷ 105 ∷ 103 ∷ 32 ∷ []

abbrev pub essid_off : CString
essid_off = 32 ∷ 101 ∷ 115 ∷ 115 ∷ 105 ∷ 100 ∷ 32 ∷ 111 ∷ 102 ∷ 102 ∷ []

abbrev pub key_off : CString
key_off = 32 ∷ 107 ∷ 101 ∷ 121 ∷ 32 ∷ 111 ∷ 102 ∷ 102 ∷ []

abbrev pub essid_on : CString
essid_on = 32 ∷ 101 ∷ 115 ∷ 115 ∷ 105 ∷ 100 ∷ 32 ∷ []

abbrev pub remove_leases : CString
remove_leases =
    114 ∷ 109 ∷ 32 ∷ 45 ∷ 102 ∷ 114 ∷ 32 ∷ 47 ∷ 101 ∷ 116 ∷ 99 ∷ 47 ∷ 100 ∷ 104 ∷ 99 ∷ 112 ∷ 99 ∷ 47
    ∷ 42 ∷ []

abbrev pub dhcpcd : CString
dhcpcd = 46 ∷ 47 ∷ 100 ∷ 104 ∷ 99 ∷ 112 ∷ 99 ∷ 100 ∷ 32 ∷ 45 ∷ 89 ∷ 82 ∷ 32 ∷ []

-- What the program runs, and whether it has ended; else it waits for the next event.
pub record Joining : Type 0 where
  pub commands : List CString
  pub ended : Bool

unfoldable pub open_netlink : (socket bind : Bool) → Run (Unit {0})
open_netlink socket bind = if socket then (if bind then ok tt else exited) else exited

-- The message type that `recvmsg` reads, if it succeeds.
unfoldable pub read_event : Option ℕ → Run Bool
read_event none = exited
read_event (some nlmsg_type) = ok (nlmsg_type == rtm_newlink)

-- `sprintf` into the array `command`, and `system`.
unfoldable pub run_command : CString → Joining → Run Joining
run_command text s = do
  command ← fill 32 (text ++ 0 ∷ [])
  ok (record s { commands = s.commands ++ text ∷ [] })

-- The fifth event of the link: the text of the first command is passed to `system` as it stands.
unfoldable pub link_up : CString → Joining → Run Joining
unfolding run_command
link_up iface s = do
  s' ← run_command (dhcpcd ++ iface) (record s { commands = s.commands ++ remove_leases ∷ [] })
  ok (record s' { ended = true })

-- The loop, over the events that come.
unfoldable pub wait_link : CString → ℕ → List (Option ℕ) → Joining → Run Joining
wait_link iface count [] s = ok s
wait_link iface count (event ∷ events) s = do
  newlink ← read_event event
  let rest = wait_link iface (if newlink then suc count else count) events s
  if newlink then (if leb 5 (suc count) then link_up iface s else rest) else rest

-- `main`, with its second and third arguments.
unfoldable pub conecta :
    (socket bind : Bool) → (argc : ℕ) → (iface essid : CString) → List (Option ℕ) → Run Joining
unfolding open_netlink
conecta socket bind argc iface essid events = do
  nl_socket ← open_netlink socket bind
  if ltb argc 3 then exited else (do
    s₁ ← run_command (iwconfig ++ (iface ++ essid_off)) (record { commands = []; ended = false })
    s₂ ← run_command (iwconfig ++ (iface ++ key_off)) s₁
    s₃ ← run_command (iwconfig ++ (iface ++ (essid_on ++ essid))) s₂
    wait_link iface 0 events s₃)
