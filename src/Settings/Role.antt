-- ===== src/Settings/Role.antt =====
-- What a configuration file changes for a role that is not the core gateway's.
use node_identity_architetur.Base.{
  ℕ, ◌≡◌, refl, Bool, false, Option, List, [], ◌∷◌, ◌==◌, ltb, length, inl, inr, Bool-cases,
  Option-cases, All,
}
use node_identity_architetur.Nid.{Nid, Nid32, CString, bytes_eq}
use node_identity_architetur.Run.{
  Run, ok, exited, division_by_zero, out_of_bounds, null_pointer, ◌>>=◌,
}
use node_identity_architetur.Settings.Walk.{Element, elements, read_elements, get_data-elements}
use node_identity_architetur.Settings.Words.{type_name}
use node_identity_architetur.Settings.{
  XmlNodes, Settings, core, xml_node_get_content, on_name, set_primary_iface, read_common,
  read_last, read_element, get_data, set_gateway_ip, set_nid32, set_rvs_ip,
}

-- If the run ends normally, its value satisfies the predicate.
abbrev pub IfOk : (Settings → Type 0) → Run Settings → Type 0
IfOk P (ok s) = P s
IfOk P division_by_zero = Unit
IfOk P out_of_bounds = Unit
IfOk P null_pointer = Unit
IfOk P exited = Unit

module _ (P : Settings → Type 0) where
  IfOk->>= :
      (m : Run Settings) (f : Settings → Run Settings)
      → IfOk P m
      → ((s : Settings) → P s → IfOk P (f s))
      → IfOk P (m >>= f)
  IfOk->>= (ok s) f h g = g s h
  IfOk->>= division_by_zero f h g = tt
  IfOk->>= out_of_bounds f h g = tt
  IfOk->>= null_pointer f h g = tt
  IfOk->>= exited f h g = tt

  IfOk-on_name :
      (wanted : CString) (required : Bool) (read : CString → Settings → Run Settings)
      (name : CString) (children : XmlNodes)
      → ((data' : CString) (s : Settings) → P s → IfOk P (read data' s))
      → (s : Settings) → P s
      → IfOk P (on_name wanted required read name children s)
  unfolding on_name
  IfOk-on_name wanted required read name children keeps s p =
      elim (Bool-cases (bytes_eq name wanted)) [
        | inr other ↦ rw other p
        | inl hit ↦ elim (Option-cases (xml_node_get_content children)) [
          | inr (data', e) ↦ rw (hit, e) (keeps data' s p)
          | inl empty ↦ elim (Bool-cases required) [
            | inl must ↦ rw (hit, empty, must) tt
            | inr may ↦ rw (hit, empty, may) p
          ]
        ]
      ]

  IfOk-skip :
      (wanted : CString) (required : Bool) (read : CString → Settings → Run Settings)
      (name : CString) (children : XmlNodes) (s : Settings)
      → bytes_eq name wanted ≡ false
      → P s
      → IfOk P (on_name wanted required read name children s)
  unfolding on_name
  IfOk-skip wanted required read name children s other p = rw other p

-- The type, and what a core gateway alone reads.
abbrev pub SameDht : Settings → Settings → Type 0
SameDht s₀ s =
    (s.type' ≡ s₀.type')
    × (s.niddht ≡ s₀.niddht)
    × (s.dht_ip ≡ s₀.dht_ip)
    × (s.dht_port ≡ s₀.dht_port)
    × (s.dht ≡ s₀.dht)

-- The element says nothing of the type.
abbrev pub OtherName : Element → Type 0
OtherName e = bytes_eq e.0 type_name ≡ false

module _ (inet_pton6 : CString → Option Nid) (inet_pton4 : CString → Option Nid32)
    (atoi : CString → ℕ) (s₀ : Settings) (role : (s₀.type' == core) ≡ false) where
  abbrev P : Settings → Type 0
  P = SameDht s₀

  common-SameDht :
      (name : CString) (children : XmlNodes) (s : Settings)
      → bytes_eq name type_name ≡ false
      → P s
      → IfOk P (read_common inet_pton6 inet_pton4 atoi name children s)
  unfolding read_common set_gateway_ip set_nid32 set_rvs_ip
  common-SameDht name children s other p =
      IfOk->>= P _ _ (IfOk-skip P _ _ _ name children s other p) λ s₁ p₁.
        IfOk->>= P _ _ (IfOk-on_name P _ _ _ name children (λ data' s p. p) s₁ p₁) λ s₂ p₂.
          IfOk->>= P _ _ (IfOk-on_name P _ _ _ name children (λ data' s p. p) s₂ p₂) λ s₃ p₃.
            IfOk->>= P _ _ (IfOk-on_name P _ _ _ name children (λ data' s p. p) s₃ p₃) λ s₄ p₄.
              IfOk->>= P _ _ (IfOk-on_name P _ _ _ name children (λ data' s p. p) s₄ p₄) λ s₅ p₅.
                IfOk->>= P _ _ (IfOk-on_name P _ _ _ name children (λ data' s p. p) s₅ p₅) λ s₆ p₆.
                  IfOk->>= P _ _ (IfOk-on_name P _ _ _ name children (λ data' s p. p) s₆ p₆)
                    λ s₇ p₇.
                      IfOk->>= P _ _ (IfOk-on_name P _ _ _ name children (λ data' s p. p) s₇ p₇)
                        λ s₈ p₈.
                          IfOk->>= P _ _ (IfOk-on_name P _ _ _ name children (λ data' s p. p) s₈ p₈)
                            λ s₉ p₉. IfOk-on_name P _ _ _ name children (λ data' s p. p) s₉ p₉

  last-SameDht :
      (name : CString) (children : XmlNodes) (s : Settings)
      → P s
      → IfOk P (read_last inet_pton6 inet_pton4 atoi name children s)
  unfolding read_last set_primary_iface
  last-SameDht name children s p =
      IfOk->>= P _ _ (IfOk-on_name P _ _ _ name children (λ data' s p. p) s p) λ s₁ p₁.
        IfOk->>= P _ _ (IfOk-on_name P _ _ _ name children (λ data' s p. p) s₁ p₁) λ s₂ p₂.
          IfOk-on_name P _ _ _ name children
            (λ data' s p. elim (Bool-cases (ltb (length data') 32)) [
              | inl fits ↦ rw fits p
              | inr long ↦ rw long tt
            ])
            s₂ p₂

  element-SameDht :
      (e : Element) (s : Settings)
      → OtherName e
      → P s
      → IfOk P (read_element inet_pton6 inet_pton4 atoi e.0 e.1 s)
  unfolding read_element
  element-SameDht e s other p = IfOk->>= P _ _ (common-SameDht e.0 e.1 s other p) λ s₁ p₁.
      let not_core : (s₁.type' == core) ≡ false = rw p₁.0 role in
      rw (not_core, ◌>>=◌) (last-SameDht e.0 e.1 s₁ p₁)

  elements-SameDht :
      (es : List Element) (s : Settings)
      → All OtherName es
      → P s
      → IfOk P (read_elements inet_pton6 inet_pton4 atoi es s)
  unfolding read_elements
  elements-SameDht [] s others p = p
  elements-SameDht (e ∷ es) s (other, others) p =
      IfOk->>= P _ _ (element-SameDht e s other p) λ s' p'. elements-SameDht es s' others p'

  -- If the type is not the core gateway's when the reading starts, and no element of the file is
  -- named `type`, then a file that is read to its end changes neither the type nor what concerns
  -- the distributed table, wherever its elements stand.
  pub get_data-SameDht :
      (t : XmlNodes)
      → All OtherName (elements t)
      → IfOk P (get_data inet_pton6 inet_pton4 atoi t s₀)
  get_data-SameDht t others =
      rw (get_data-elements inet_pton6 inet_pton4 atoi t s₀)
        (elements-SameDht (elements t) s₀ others (refl, refl, refl, refl, refl))
