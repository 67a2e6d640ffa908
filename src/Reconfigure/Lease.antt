-- ===== src/Reconfigure/Lease.antt =====
-- A lease that is printed field by field is read back.
use node_identity_architetur.Base.{
  ℕ, ◌<◌, ◌^◌, ◌≡◌, ◌≢◌, refl, ap, false, Option, some, [], ◌∷◌, ◌++◌, ◌==◌, All, arith, get_or,
}
use node_identity_architetur.Config.{Config}
use node_identity_architetur.Names.Entries.{IsNidMapper}
use node_identity_architetur.Names.Update.{Updated, update_nm-Updated}
use node_identity_architetur.Nid.{Nid, Nid32, CString, IsNid, nid2nid32}
use node_identity_architetur.PacketHandler.{update_ph}
use node_identity_architetur.Reconfigure.{
  Configured, delimiter, skip_delimiters, cut_token, strtok, overwrite, next_field, ntohl,
  update_dns_server_address, read_lease, set_conf_dhcp,
}
use node_identity_architetur.Run.{◌>>=◌, Returns}
use node_identity_architetur.RvsClient.{zero_nid}

abbrev IsPlain : ℕ → Type 0
IsPlain c = (c == delimiter) ≡ false

-- A text with no delimiter, and with at least one character.
pub record IsToken (t : CString) : Type 0 where
  pub plain : All IsPlain t
  pub some_text : t ≢ []

cut_token-append :
    (t rest : CString) → All IsPlain t → cut_token (t ++ delimiter ∷ rest) ≡ (t, rest)
unfolding cut_token
cut_token-append [] rest plain = refl
cut_token-append (c ∷ t) rest (here, there) = rw (here, cut_token-append t rest there)

cut_token_end : (t : CString) → All IsPlain t → cut_token t ≡ (t, [])
unfolding cut_token
cut_token_end [] plain = refl
cut_token_end (c ∷ t) (here, there) = rw (here, cut_token_end t there)

pub strtok-append : (t rest : CString) → IsToken t → strtok (t ++ delimiter ∷ rest) ≡ some (t, rest)
unfolding strtok skip_delimiters
strtok-append [] rest is = absurd (is.some_text refl)
strtok-append (c ∷ t) rest is =
    rw (strtok, skip_delimiters, is.plain.0) (ap some (cut_token-append (c ∷ t) rest is.plain))

strtok_end : (t : CString) → IsToken t → strtok t ≡ some (t, [])
unfolding strtok skip_delimiters
strtok_end [] is = absurd (is.some_text refl)
strtok_end (c ∷ t) is =
    rw (strtok, skip_delimiters, is.plain.0) (ap some (cut_token_end (c ∷ t) is.plain))

-- `update_dns_server_address` computes the 32-bit identifier that `nid2nid32` gives the name
-- server, if the last three of the identifier's 16 bytes are bytes.
pub dns_address-nid2nid32 :
    (nid : Nid)
    → get_or nid.u6_addr8 13 0 < 256
    → get_or nid.u6_addr8 14 0 < 256
    → get_or nid.u6_addr8 15 0 < 256
    → update_dns_server_address nid ≡ nid2nid32 nid
unfolding update_dns_server_address ntohl nid2nid32
dns_address-nid2nid32 nid b₁₃ b₁₄ b₁₅ = omega arith

module _ {A : Type 0} (inet_pton : CString → Option A) (t : CString) (is : IsToken t) (new old : A)
    (reads : inet_pton t ≡ some new) where
  next_field-append :
      (rest : CString) → next_field inet_pton (t ++ delimiter ∷ rest) old ≡ (new, rest)
  unfolding next_field overwrite
  next_field-append rest = rw (next_field, strtok-append t rest is, reads)

  next_field_end : next_field inet_pton t old ≡ (new, [])
  unfolding next_field overwrite
  next_field_end = rw (next_field, strtok_end t is, reads)

-- What a lease says.
pub record Lease : Type 0 where
  pub nidcore : Nid
  pub nidgw : Nid
  pub gateway_ip : Nid32
  pub nidrvs : Nid
  pub rvs_ip : Nid32
  pub niddns : Nid
  pub ip : Nid32

pub record IsLease (l : Lease) : Type 0 where
  pub nidcore : IsNid l.nidcore
  pub nidgw : IsNid l.nidgw
  pub gateway_ip : l.gateway_ip < 2 ^ 32
  pub nidrvs : IsNid l.nidrvs
  pub rvs_ip : l.rvs_ip < 2 ^ 32
  pub niddns : IsNid l.niddns
  pub ip : l.ip < 2 ^ 32

-- The seven addresses, separated by the delimiter.
abbrev pub lease_text : (Nid → CString) → (Nid32 → CString) → Lease → CString
lease_text text6 text4 l =
    text6 l.nidcore
    ++ delimiter
      ∷ (text6 l.nidgw
          ++ delimiter
            ∷ (text4 l.gateway_ip
                ++ delimiter
                  ∷ (text6 l.nidrvs
                      ++ delimiter
                        ∷ (text4 l.rvs_ip
                            ++ delimiter ∷ (text6 l.niddns ++ delimiter ∷ text4 l.ip)))))

abbrev pub with_lease : Lease → Config → Config
with_lease l conf = record conf {
  nidcore = l.nidcore;
  nidgw = l.nidgw;
  gateway_ip = l.gateway_ip;
  nidrvs = l.nidrvs;
  rvs_ip = l.rvs_ip;
  niddns = l.niddns;
  ip = l.ip;
}

module _ (inet_pton6 : CString → Option Nid) (inet_pton4 : CString → Option Nid32)
    (text6 : Nid → CString) (text4 : Nid32 → CString)
    (token6 : (a : Nid) → IsNid a → IsToken (text6 a))
    (token4 : (a : Nid32) → a < 2 ^ 32 → IsToken (text4 a))
    (reads6 : (a : Nid) → IsNid a → inet_pton6 (text6 a) ≡ some a)
    (reads4 : (a : Nid32) → a < 2 ^ 32 → inet_pton4 (text4 a) ≡ some a) where
  read_lease-lease_text :
      (l : Lease) (conf : Config)
      → IsLease l
      → read_lease inet_pton6 inet_pton4 (lease_text text6 text4 l) conf ≡ with_lease l conf
  unfolding read_lease
  read_lease-lease_text l conf is = rw (
    next_field-append inet_pton6 (text6 l.nidcore) (token6 l.nidcore is.nidcore) l.nidcore
        conf.nidcore (reads6 l.nidcore is.nidcore) _,
    next_field-append inet_pton6 (text6 l.nidgw) (token6 l.nidgw is.nidgw) l.nidgw conf.nidgw
        (reads6 l.nidgw is.nidgw) _,
    next_field-append inet_pton4 (text4 l.gateway_ip) (token4 l.gateway_ip is.gateway_ip)
        l.gateway_ip conf.gateway_ip (reads4 l.gateway_ip is.gateway_ip) _,
    next_field-append inet_pton6 (text6 l.nidrvs) (token6 l.nidrvs is.nidrvs) l.nidrvs conf.nidrvs
        (reads6 l.nidrvs is.nidrvs) _,
    next_field-append inet_pton4 (text4 l.rvs_ip) (token4 l.rvs_ip is.rvs_ip) l.rvs_ip conf.rvs_ip
        (reads4 l.rvs_ip is.rvs_ip) _,
    next_field-append inet_pton6 (text6 l.niddns) (token6 l.niddns is.niddns) l.niddns conf.niddns
        (reads6 l.niddns is.niddns) _,
    next_field_end inet_pton4 (text4 l.ip) (token4 l.ip is.ip) l.ip conf.ip (reads4 l.ip is.ip),
  )

  -- If `inet_pton` reads the texts of addresses back, none of which is empty or holds a `|`, then
  -- `set_conf_dhcp` on the texts of a lease's seven addresses, separated by `|`, takes over all
  -- seven, makes the lease's core gateway that of later data packets, has the name server's address
  -- follow the lease, and changes the entries of the name mapper, if that is well formed: the name
  -- server's are written, and those under the identifiers 0 are gone.
  pub set_conf_dhcp-lease_text :
      (l : Lease) (s : Configured)
      → IsLease l
      → IsNidMapper s.ph.names
      → Returns (set_conf_dhcp inet_pton6 inet_pton4 (lease_text text6 text4 l) s) λ s'.
        (s'.conf ≡ with_lease l s.conf)
        × (s'.ph.nidcore ≡ l.nidcore)
        × Updated zero_nid 0 (with_lease l s.conf) s.ph.names s'.ph.names
        × (s'.server_address ≡ update_dns_server_address l.niddns)
  unfolding set_conf_dhcp update_ph
  set_conf_dhcp-lease_text l s is well =
      let (names, run, updated) =
        update_nm-Updated zero_nid 0 (with_lease l s.conf) s.ph.names well in
      rw (read_lease-lease_text l s.conf is, run, ◌>>=◌) (_, refl, (refl, refl, updated, refl))
