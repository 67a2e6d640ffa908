-- ===== src/Mobility.antt =====
-- mobility.c: the thread that tells the peers and the rendezvous server of a new address. One round
-- of its loop is given what `read_event` returns and the text of the host's new address as a
-- number; the sockets are lists. What the kernel answers about the netlink socket is an argument.
pub mod Handover
pub mod Events
use node_identity_architetur.Base.{
  ℕ, suc, Bool, Option, none, some, List, [], ◌∷◌, ◌++◌, ◌==◌, leb, if◌then◌else◌,
}
use node_identity_architetur.Config.{Config, intradomain}
use node_identity_architetur.Conn.{LlNode}
use node_identity_architetur.Mapper.{Mapper, get_all_connections, update_cm_conf}
use node_identity_architetur.Message.{NidMsg, redirect, rvs_update}
use node_identity_architetur.Nid.{Nid, Nid32}
use node_identity_architetur.Run.{Run, ok, exited, ◌>>=◌}
use node_identity_architetur.RvsClient.{zero_msg}

-- `count` stays from one event to the next.
pub record MoState : Type 0 where
  pub count : ℕ
  pub cm : Mapper
  pub sp_mo2ph : List NidMsg
  pub sp_rvs2ph : List NidMsg

-- `rvs_update` of this file
unfoldable pub announce : Config → Nid32 → MoState → MoState
announce conf locator s = record s {
  sp_rvs2ph =
      s.sp_rvs2ph
      ++ record zero_msg {
        type = rvs_update;
        nid = conf.nid;
        src_nid = conf.nid;
        dest_nid = conf.nidrvs;
        ip = locator;
      }
        ∷ [];
}

-- The loop over the list, with the message that it fills.
unfoldable pub redirect_all : NidMsg → Nid32 → List LlNode → MoState → MoState
redirect_all nmsg locator [] s = s
redirect_all nmsg locator (n ∷ ns) s =
    let m = record nmsg { dest_nid = n.0; ip = locator } in
    redirect_all m locator ns (record s { sp_mo2ph = s.sp_mo2ph ++ m ∷ [] })

unfoldable pub hand_over : ℕ → Config → Nid32 → MoState → Run MoState
hand_over now conf locator s = do
  let nmsg : NidMsg = record zero_msg { nid = conf.nid; src_nid = conf.nid }
  let ll = get_all_connections now s.cm.connmap
  let s' : MoState =
      if conf.mobility == intradomain
      then redirect_all (record nmsg { type = redirect }) locator ll.next s
      else s
  cm ← update_cm_conf now conf s'.cm
  ok (announce conf locator (record s' { cm = cm; count = 0 }))

-- `thread_mobility`: every second new address is acted on.
unfoldable pub mobility : ℕ → Config → Nid32 → Bool → MoState → Run MoState
mobility now conf locator newaddr s =
    if newaddr
    then (if leb 2 (suc s.count)
        then hand_over now conf locator (record s { count = suc s.count })
        else ok (record s { count = suc s.count }))
    else ok s

abbrev pub rtm_newaddr : ℕ
rtm_newaddr = 20

-- `open_netlink` of this file: whether the socket is one, in place of -1.
unfoldable pub open_netlink : (socket bind : Bool) → Run Bool
open_netlink socket bind = if socket then ok bind else exited

-- `read_event` of this file, with the message type that `recvmsg` reads, if it succeeds.
unfoldable pub read_event : Option ℕ → Run Bool
read_event none = exited
read_event (some nlmsg_type) = ok (nlmsg_type == rtm_newaddr)

-- An event, with the time, the configuration and the address that its round finds.
pub record AddressEvent : Type 0 where
  pub now : ℕ
  pub conf : Config
  pub locator : Nid32
  pub nlmsg_type : Option ℕ

-- The loop, over the events that come.
unfoldable pub handle_events : List AddressEvent → MoState → Run MoState
handle_events [] s = ok s
handle_events (e ∷ es) s = do
  newaddr ← read_event e.nlmsg_type
  s' ← mobility e.now e.conf e.locator newaddr s
  handle_events es s'

-- `thread_mobility` from its start: `recvmsg` fails on a socket that could not be bound.
unfoldable pub thread_mobility :
    (socket bind : Bool)
    → (cm : Mapper) → (sp_mo2ph sp_rvs2ph : List NidMsg) → List AddressEvent
    → Run MoState
unfolding open_netlink
thread_mobility socket bind cm sp_mo2ph sp_rvs2ph es = do
  nl_socket ← open_netlink socket bind
  let s : MoState = record { count = 0; cm = cm; sp_mo2ph = sp_mo2ph; sp_rvs2ph = sp_rvs2ph }
  if nl_socket then handle_events es s else exited
