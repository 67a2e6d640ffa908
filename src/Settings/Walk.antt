-- ===== src/Settings/Walk.antt =====
-- The walk over the tree of the configuration file, as a loop over its elements.
use node_identity_architetur.Base.{
  ℕ, ◌≡◌, ◌∙◌, sym, ap, refl, true, false, Option, none, List, [], ◌∷◌, ◌++◌, ◌==◌, inl, inr,
  Bool-cases,
}
use node_identity_architetur.Nid.{Nid, Nid32, CString, bytes_eq}
use node_identity_architetur.Run.{
  Run, ok, exited, division_by_zero, out_of_bounds, null_pointer, ◌>>=◌,
}
use node_identity_architetur.Settings.Words.{
  type_name, ip_name, node_id_name, nidgw_name, nidcorehome_name, nidcore_name, nidrvs_name,
  rvs_ip_name, rvs_timeout_name, niddns_name, primary_iface_name,
}
use node_identity_architetur.Settings.{
  XmlNodes, null, node, Settings, core, xml_node_get_content, on_name, read_common, read_core,
  read_last, read_element, get_data,
}

-- An element's name, and its children.
abbrev pub Element : Type 0
Element = CString × XmlNodes

-- The elements of a tree in the order of the file, an element before those inside it.
unfoldable pub elements : XmlNodes → List Element
elements null = []
elements (node true name content children next) =
    (name, children) ∷ (elements children ++ elements next)
elements (node false name content children next) = elements children ++ elements next

-- The elements that end the process if they are empty, in a file for any role.
pub data IsRequired : CString → Type 0 where
  type_element : IsRequired type_name
  ip_element : IsRequired ip_name
  node_id_element : IsRequired node_id_name
  nidgw_element : IsRequired nidgw_name
  nidcorehome_element : IsRequired nidcorehome_name
  nidcore_element : IsRequired nidcore_name
  nidrvs_element : IsRequired nidrvs_name
  rvs_ip_element : IsRequired rvs_ip_name
  rvs_timeout_element : IsRequired rvs_timeout_name
  niddns_element : IsRequired niddns_name
  primary_iface_element : IsRequired primary_iface_name

>>=-assoc :
    (m : Run Settings) (f g : Settings → Run Settings) → ((m >>= f) >>= g) ≡ (m >>= λ s. f s >>= g)
>>=-assoc (ok s) f g = refl
>>=-assoc division_by_zero f g = refl
>>=-assoc out_of_bounds f g = refl
>>=-assoc null_pointer f g = refl
>>=-assoc exited f g = refl

>>=-cong :
    (m : Run Settings) (f g : Settings → Run Settings)
    → ((s : Settings) → f s ≡ g s)
    → (m >>= f) ≡ (m >>= g)
>>=-cong (ok s) f g e = e s
>>=-cong division_by_zero f g e = refl
>>=-cong out_of_bounds f g e = refl
>>=-cong null_pointer f g e = refl
>>=-cong exited f g e = refl

module _ (inet_pton6 : CString → Option Nid) (inet_pton4 : CString → Option Nid32)
    (atoi : CString → ℕ) where
  -- The loop
  unfoldable pub read_elements : List Element → Settings → Run Settings
  read_elements [] s = ok s
  read_elements (e ∷ es) s = do
    s' ← read_element inet_pton6 inet_pton4 atoi e.0 e.1 s
    read_elements es s'

  read_elements-append :
      (a b : List Element) (s : Settings)
      → read_elements (a ++ b) s ≡ (read_elements a s >>= read_elements b)
  unfolding read_elements
  read_elements-append [] b s = refl
  read_elements-append (e ∷ a) b s =
      >>=-cong (read_element inet_pton6 inet_pton4 atoi e.0 e.1 s) _ _
        (λ s'. read_elements-append a b s')
      ∙ sym (
          >>=-assoc (read_element inet_pton6 inet_pton4 atoi e.0 e.1 s) (read_elements a)
            (read_elements b))

  -- `get_data` on a tree is the loop over the tree's elements, in the order of the file and an
  -- element before those inside it, that reads one element after the other.
  pub get_data-elements :
      (t : XmlNodes) (s : Settings)
      → get_data inet_pton6 inet_pton4 atoi t s ≡ read_elements (elements t) s
  unfolding get_data elements read_elements
  get_data-elements null s = refl
  get_data-elements (node true name content children next) s =
      >>=-cong (read_element inet_pton6 inet_pton4 atoi name children s) _ _ λ s₁.
        >>=-cong (get_data inet_pton6 inet_pton4 atoi children s₁) _ _
          (λ s₂. get_data-elements next s₂)
        ∙ ap (◌>>= read_elements (elements next)) (get_data-elements children s₁)
        ∙ sym (read_elements-append (elements children) (elements next) s₁)
  get_data-elements (node false name content children next) s =
      >>=-cong (get_data inet_pton6 inet_pton4 atoi children s) _ _
        (λ s₂. get_data-elements next s₂)
      ∙ ap (◌>>= read_elements (elements next)) (get_data-elements children s)
      ∙ sym (read_elements-append (elements children) (elements next) s)

  empty_element :
      (name : CString) (children : XmlNodes) (s : Settings)
      → IsRequired name
      → xml_node_get_content children ≡ none
      → read_element inet_pton6 inet_pton4 atoi name children s ≡ exited
  unfolding read_element read_common on_name bytes_eq read_core read_last
  empty_element name children s type_element empty = rw empty
  empty_element name children s ip_element empty = rw empty
  empty_element name children s node_id_element empty = rw empty
  empty_element name children s nidgw_element empty = rw empty
  empty_element name children s nidcorehome_element empty = rw empty
  empty_element name children s nidcore_element empty = rw empty
  empty_element name children s nidrvs_element empty = rw empty
  empty_element name children s rvs_ip_element empty = rw empty
  empty_element name children s rvs_timeout_element empty = rw empty
  empty_element name children s niddns_element empty = rw empty
  empty_element name children s primary_iface_element empty = elim (Bool-cases (s.type' == core)) [
    | inl is ↦ rw (is, empty)
    | inr other ↦ rw (other, empty)
  ]

  -- If the elements before it are read, an element with nothing in it ends the process if it has
  -- one of the eleven names that the code requires a text of whatever the role.
  pub get_data_exits :
      (t : XmlNodes) (s s' : Settings) (before after : List Element) (name : CString)
      (children : XmlNodes)
      → elements t ≡ before ++ (name, children) ∷ after
      → read_elements before s ≡ ok s'
      → IsRequired name
      → xml_node_get_content children ≡ none
      → get_data inet_pton6 inet_pton4 atoi t s ≡ exited
  unfolding read_elements
  get_data_exits t s s' before after name children shape reads required empty =
      get_data-elements t s
      ∙ rw (
        shape,
        read_elements-append before ((name, children) ∷ after) s,
        reads,
        ◌>>=◌,
        empty_element name children s' required empty,
      )
