-- ===== src/PacketHandler/Rounds.antt =====
-- What a round of the packet handler sends, and what it does with a packet that comes in.
use mathlib.Core.List.{append_assoc, append-nil}
use node_identity_architetur.Base.{
  ℕ, ◌≡◌, refl, ◌||◌, Bool, true, false, get_or, none, some, List, [], ◌∷◌, ◌++◌, ◌==◌,
  if◌then◌else◌, arith, ◌&&◌, Option-cases, inl, inr,
}
use node_identity_architetur.Message.{
  NidHeader, NidMsg, IpPacket, Payload, datagram, message, Packet, data_type,
}
use node_identity_architetur.Hash32.{hash_lookup32}
use node_identity_architetur.Names.Entries.{IsNidMapper, Named, new_nm_entry-Named}
use node_identity_architetur.Names.{NmEntry32, get_nm_entry32}
use node_identity_architetur.Nid.{nid_key, nid32_key, bytes32}
use node_identity_architetur.PacketHandler.{
  PhState, write_ph2nr, output_data, output_msg, ph_output, PhInput, input_data, is_control,
  dispatch, ph_input, protocol, raw_sendto,
}
use node_identity_architetur.Run.{ok, exited, ◌>>=◌, Returns}
use node_identity_architetur.Table.View.{view, hash_lookup-view}

-- The header of a packet of data for an address that the name mapper knows.
abbrev pub data_header : PhState → NmEntry32 → NidHeader
data_header s nm = record s.header {
  type = data_type;
  src_nid_gw = s.nidcore;
  dest_nid = nm.nid;
  dest_nid_gw = nm.nidgw;
}

-- With a well-formed name mapper, a captured packet is read before anything else. If the name
-- mapper knows the address it goes to, it is sent with the identifier and gateway that the mapper
-- gives, the core gateway as the source's gateway, and as its source the one in the header that the
-- last round left; if not, it is dropped.
pub ph_output_datagram :
    (ip : IpPacket) (ips : List IpPacket) (s : PhState)
    → IsNidMapper s.names
    → s.sp_nf2ph ≡ ip ∷ ips
    → Returns (ph_output s) λ s'.
      (s'.sp_nf2ph ≡ ips)
      × (s'.sp_ph2nr ≡ elim (view s.names.nid32_table ip.daddr) [
        | some nm ↦ s.sp_ph2nr ++ record { header = data_header s nm; payload = datagram ip } ∷ []
        | none ↦ s.sp_ph2nr
      ])
unfolding ph_output output_data write_ph2nr get_nm_entry32 hash_lookup32
ph_output_datagram ip ips s is captured =
    rw (captured, hash_lookup-view s.names.nid32_table ip.daddr is.names32.sized)
      (elim (Option-cases (view s.names.nid32_table ip.daddr)) [
        | inl unknown ↦ rw (unknown, ◌>>=◌) (_, refl, (refl, refl))
        | inr (nm, known) ↦ rw (known, ◌>>=◌) (_, refl, (refl, refl))
      ])

-- With a well-formed name mapper and no captured packet waiting, the first message of the
-- rendezvous modules is sent under a header with its own type, source and destination. A packet
-- that is captured then, for a known address, is sent with the source of that message as its own.
pub ph_output_keeps_source :
    (m : NidMsg) (ms : List NidMsg) (ip : IpPacket) (ips : List IpPacket) (nm : NmEntry32)
    (s : PhState)
    → IsNidMapper s.names
    → s.sp_nf2ph ≡ []
    → s.sp_rvs2ph ≡ m ∷ ms
    → view s.names.nid32_table ip.daddr ≡ some nm
    → Returns (ph_output s) λ s'. Returns (ph_output (record s' { sp_nf2ph = ip ∷ ips })) λ s''.
      s''.sp_ph2nr
      ≡ s.sp_ph2nr
        ++ record {
          header = record s.header { type = m.type; src_nid = m.src_nid; dest_nid = m.dest_nid };
          payload = message m;
        }
          ∷ record {
            header = record {
              type = data_type;
              src_nid = m.src_nid;
              dest_nid = nm.nid;
              src_nid_gw = s.nidcore;
              dest_nid_gw = nm.nidgw;
            };
            payload = datagram ip;
          }
          ∷ []
unfolding ph_output output_data output_msg write_ph2nr get_nm_entry32 hash_lookup32
ph_output_keeps_source m ms ip ips nm s is quiet waiting known =
    rw (quiet, waiting)
      (
        _,
        refl,
        rw (hash_lookup-view s.names.nid32_table ip.daddr is.names32.sized, known, ◌>>=◌)
            (_, refl, rw append_assoc),
      )

-- The byte at offset 9 of what stands behind a header: the protocol of an IP packet, and in a
-- message, whose first four bytes are its type, a byte of the source's identifier.
abbrev pub byte_9 : Payload → ℕ
byte_9 (datagram ip) = ip.protocol
byte_9 (message m) = get_or (bytes32 m.type ++ m.src_nid.u6_addr8) 9 0

-- What a raw socket is given: the data whose protocol is the socket's.
abbrev pub for_socket : ℕ → Packet → List Payload
for_socket number p =
    if (p.header.type == 0) && (byte_9 p.payload == number) then p.payload ∷ [] else []

-- The types that the control thread is given: REDIRECT, REGISTRY, REDIRECT_CORE and the four of the
-- rendezvous server, but not RELOCATE.
abbrev pub control_types : List ℕ
control_types = 1 ∷ 3 ∷ 4 ∷ 5 ∷ 6 ∷ 7 ∷ 8 ∷ []

abbrev pub one_of : ℕ → List ℕ → Bool
one_of n [] = false
one_of n (m ∷ ms) = (n == m) || one_of n ms

abbrev pub for_control : Packet → List Payload
for_control p = if one_of p.header.type control_types then p.payload ∷ [] else []

-- Whether a packet is for one of the raw sockets.
abbrev pub is_raw : Packet → Bool
is_raw p = (p.header.type == 0) && one_of (byte_9 p.payload) (6 ∷ 17 ∷ 1 ∷ [])

-- What the `switch` adds to the sockets.
record Dispatched (p : Packet) (s s' : PhInput) : Type 0 where
  names : s'.names ≡ s.names
  control : s'.sp_ph2co ≡ s.sp_ph2co ++ for_control p
  tcp : s'.raw_tcp ≡ s.raw_tcp ++ for_socket 6 p
  udp : s'.raw_udp ≡ s.raw_udp ++ for_socket 17 p
  icmp : s'.raw_icmp ≡ s.raw_icmp ++ for_socket 1 p

byte_9-protocol : (p : Payload) → protocol p ≡ byte_9 p
unfolding protocol bytes32
byte_9-protocol (datagram ip) = refl
byte_9-protocol (message m) = refl

-- The sockets after a packet, if `sendto` succeeds.
placed : Packet → PhInput → PhInput
placed p s =
    if p.header.type == 0
    then (if byte_9 p.payload == 6
        then record s { raw_tcp = s.raw_tcp ++ p.payload ∷ [] }
        else if byte_9 p.payload == 17
        then record s { raw_udp = s.raw_udp ++ p.payload ∷ [] }
        else if byte_9 p.payload == 1
        then record s { raw_icmp = s.raw_icmp ++ p.payload ∷ [] }
        else s)
    else if one_of p.header.type control_types
    then record s { sp_ph2co = s.sp_ph2co ++ p.payload ∷ [] }
    else s

placed-Dispatched : (p : Packet) (s : PhInput) → Dispatched p s (placed p s)
unfolding placed
placed-Dispatched p s = record {
  names = ground arith;
  control = ground (arith, append-nil s.sp_ph2co);
  tcp = ground (arith, append-nil s.raw_tcp);
  udp = ground (arith, append-nil s.raw_udp);
  icmp = ground (arith, append-nil s.raw_icmp);
}

dispatch-placed : (p : Packet) (s : PhInput) → dispatch true p s ≡ ok (placed p s)
unfolding dispatch input_data raw_sendto is_control placed
dispatch-placed p s = rw (byte_9-protocol p.payload) (ground arith)

dispatch_fails :
    (p : Packet) (s : PhInput)
    → dispatch false p s ≡ (if is_raw p then exited else dispatch true p s)
unfolding dispatch input_data raw_sendto
dispatch_fails p s = rw (byte_9-protocol p.payload) (ground arith)

-- With a well-formed name mapper, the input thread lets the mapper learn the source of a packet and
-- its gateway as `newNMEntry` does. It gives data of protocol 6, 17 and 1 to the three raw sockets,
-- and messages of the types 1 to 8 except RELOCATE to the control thread, and drops anything else.
-- If `sendto` fails on a raw socket the process ends, and other packets fare as before.
pub ph_input_lem :
    (p : Packet) (s : PhInput)
    → IsNidMapper s.names
    → Returns (ph_input true p s) (λ s'.
      Named p.header.src_nid p.header.src_nid_gw s.names s'.names
      × (s'.sp_ph2co ≡ s.sp_ph2co ++ for_control p)
      × (s'.raw_tcp ≡ s.raw_tcp ++ for_socket 6 p)
      × (s'.raw_udp ≡ s.raw_udp ++ for_socket 17 p)
      × (s'.raw_icmp ≡ s.raw_icmp ++ for_socket 1 p))
      × (ph_input false p s ≡ (if is_raw p then exited else ph_input true p s))
unfolding ph_input
ph_input_lem p s is =
    let (names, run, named) = new_nm_entry-Named p.header.src_nid p.header.src_nid_gw s.names is in
    let t : PhInput = record s { names = names } in
    let done = placed-Dispatched p t in
    rw (run, ◌>>=◌)
      (
        (
          placed p t,
          dispatch-placed p t,
          (rw done.names named, done.control, done.tcp, done.udp, done.icmp),
        ),
        dispatch_fails p t,
      )
