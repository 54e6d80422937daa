-- ===== src/Config/Links/Endpoints.antt =====
-- What the endpoints of links without issues satisfy.
use pktlab.Base.{
  ℕ, ◌≡◌, refl, sym, true, false, not, some, List, ◌∷◌, ◌==◌, arith, inl, inr, String, is_nil,
  Option-cases, contains, is_empty, partition,
}
use pktlab.Config.Names.{setdefault, member}
use pktlab.Config.Names.Distinct.{append_nil, Below, keys, setdefault-new, setdefault-second}
use pktlab.Config.Addresses.{Ref, parse_interface_ref}
use pktlab.Config.Links.{ref_eq, Found, Step, ◌then_step◌, use_endpoint}

-- The text is the namespace and the interface, neither of them empty, at a colon.
pub record IsRef (value : String) (ref : Ref) : Type 0 where
  pub spelled : partition b':' value ≡ some ref
  pub namespace_given : is_empty ref.0 ≡ false
  pub interface_given : is_empty ref.1 ≡ false

pub parse_interface_ref-IsRef :
    (path value : String)
    → is_nil (parse_interface_ref path value).1 ≡ true
    → (ref : Ref) × IsRef value ref × ((parse_interface_ref path value).0 ≡ some ref)
unfolding parse_interface_ref
parse_interface_ref-IsRef path value h = elim (Option-cases (partition b':' value)) [
  | inl e ↦ absurd (ground (arith, e))
  | inr (ref, e) ↦ (
    ref,
    record {
      spelled = e;
      namespace_given = ground (arith, e);
      interface_given = ground (arith, e);
    },
    ground (arith, e),
  )
]

module _ {N : Type 0} where
  pub then_step-nil :
      (a b : Step N) (found : Found N)
      → is_nil ((a then_step b) found).0 ≡ true
      → (is_nil (a found).0 ≡ true) × (is_nil (b (a found).1).0 ≡ true)
  then_step-nil a b found h = append_nil (a found).0 (b (a found).1).0 h

  -- The dictionary has the interfaces found, each at the index of an earlier link.
  abbrev pub Tracked : ℕ → Found N → Type 0
  Tracked index found = (keys ref_eq found.seen ≡ found.interfaces) × Below ref_eq index found.seen

  pub first_endpoint :
      (namespaces : List String) (path : String) (index : ℕ) (ref : Ref) (found : Found N)
      → Tracked index found
      → is_nil (use_endpoint namespaces path index (some ref) found).0 ≡ true
      → (contains ref.0 namespaces ≡ true)
        × (member ref_eq ref found.interfaces ≡ false)
        × ((use_endpoint namespaces path index (some ref) found).1 ≡ record found {
          seen = (ref, index) ∷ found.seen;
          interfaces = ref ∷ found.interfaces;
        })
  unfolding use_endpoint
  first_endpoint namespaces path index ref found t h =
      let parts : (contains ref.0 namespaces ≡ true)
          × (not ((setdefault ref_eq ref index found.seen).0 == index) ≡ false) =
        ground arith in
      let new = setdefault-new ref_eq ref index found.seen t.1 parts.1 in
      (parts.0, rw (sym t.0) new.0, rw (parts.0, new.1) refl)

  pub second_endpoint :
      (namespaces : List String) (path : String) (index : ℕ) (a b : Ref) (seen : List (Ref × ℕ))
      (found : Found N)
      → Below ref_eq index seen
      → ref_eq a b ≡ false
      → found.seen ≡ (a, index) ∷ seen
      → is_nil (use_endpoint namespaces path index (some b) found).0 ≡ true
      → (contains b.0 namespaces ≡ true)
        × (member ref_eq b (keys ref_eq seen) ≡ false)
        × ((use_endpoint namespaces path index (some b) found).1 ≡ record found {
          seen = (b, index) ∷ (a, index) ∷ seen;
          interfaces = b ∷ found.interfaces;
        })
  unfolding use_endpoint
  second_endpoint namespaces path index a b seen found below d e h =
      let parts : (contains b.0 namespaces ≡ true)
          × (not ((setdefault ref_eq b index ((a, index) ∷ seen)).0 == index) ≡ false) =
        ground (arith, e) in
      let new = setdefault-second ref_eq a b index seen below d parts.1 in
      (parts.0, new.0, rw (parts.0, e, new.1) refl)
