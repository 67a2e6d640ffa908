-- ===== src/Mobility/Events.antt =====
-- How often the mobility thread acts on the events that it reads.
use node_identity_architetur.Base.{
  ℕ, ◌+◌, ◌/◌, ◌%◌, ◌≡◌, none, some, List, [], ◌∷◌, ◌==◌, if◌then◌else◌, length,
}
use node_identity_architetur.Mapper.Lookup.{IsMapper}
use node_identity_architetur.Mapper.{Mapper}
use node_identity_architetur.Mobility.{MoState, AddressEvent, rtm_newaddr}

-- The number of events that say that an address is new.
abbrev pub new_addresses : List AddressEvent → ℕ
new_addresses [] = 0
new_addresses (e ∷ es) = elim e.nlmsg_type [
  | none ↦ new_addresses es
  | some type ↦ (if type == rtm_newaddr then 1 else 0) + new_addresses es
]

abbrev pub IsRead : AddressEvent → Type 0
IsRead e = (type : ℕ) × (e.nlmsg_type ≡ some type)

-- After so many new addresses more.
pub record Acted (n : ℕ) (s s' : MoState) : Type 0 where
  pub well : IsMapper s'.cm
  pub count : s'.count ≡ (s.count + n) % 2
  pub announced : length s'.sp_rvs2ph ≡ length s.sp_rvs2ph + (s.count + n) / 2
