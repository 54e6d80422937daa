-- ===== src/Config/Links.antt =====
-- Validation of links: `_collect_link_issues` of ctrld/pktlab_ctrld/config/validation.py.
-- The dictionary from a declared namespace to the set of its interfaces is the list of its pairs,
-- and so is the one from a namespace to its connected networks, in order.
pub mod Endpoints
pub mod Sound
use pktlab.Base.{
  ℕ, suc, String, Bool, true, false, ◌&&◌, not, Option, none, some, List, [], ◌∷◌, ◌++◌, ◌==◌,
  if◌then◌else◌, ◌<>◌, decimal, str_eq, contains, on_option,
}
use pktlab.Types.{LinkModel}
use pktlab.Config.{ValidationIssue, issue, issue_if}
use pktlab.Config.Names.{setdefault, at_index}
use pktlab.Config.Addresses.{IpLibrary, Ref, Parsed, parse_interface_ref, parse_interface_address}

abbrev pub ref_eq : Ref → Ref → Bool
ref_eq a b = str_eq a.0 b.0 && str_eq a.1 b.1

-- What the loop over the links has found.
pub record Found (N : Type 0) : Type 0 where
  pub seen : List (Ref × ℕ)
  pub interfaces : List Ref
  pub networks : List (String × N)

abbrev pub nothing_found : {N : Type 0} → Found N
nothing_found = record { seen = []; interfaces = []; networks = [] }

abbrev pub unknown_namespace : String → String → List ValidationIssue
unknown_namespace path namespace =
    issue path "unknown_namespace" ("namespace '" <> namespace <> "' is not declared in namespaces")

abbrev pub both_equal : Option Ref → Option Ref → Bool
both_equal (some a) (some b) = ref_eq a b
both_equal _ _ = false

abbrev pub Step : Type 0 → Type 0
Step N = Found N → List ValidationIssue × Found N

module _ {N : Type 0} where
  -- Two steps, one after the other.
  infixr 20 ◌then_step◌
  abbrev pub ◌then_step◌ : Step N → Step N → Step N
  ◌then_step◌ a b found =
      let (is, found') = a found in let (js, found'') = b found' in (is ++ js, found'')

  abbrev pub report : List ValidationIssue → Step N
  report issues found = (issues, found)

  -- The body of the loop over the two endpoints of a link.
  unfoldable pub use_endpoint : List String → String → ℕ → Option Ref → Step N
  use_endpoint namespaces path index none found = ([], found)
  use_endpoint namespaces path index (some ref) found =
      if contains ref.0 namespaces
      then (let (previous, seen') = setdefault ref_eq ref index found.seen in
          (
            issue_if (not (previous == index)) path "interface_reused" (
                "interface '"
                <> ref.0
                <> ":"
                <> ref.1
                <> "' is already used by links["
                <> decimal previous
                <> "]"),
            record found { seen = seen'; interfaces = ref ∷ found.interfaces },
          ))
      else (unknown_namespace path ref.0, found)

  abbrev pub connect : List String → Option Ref → N → Found N → Found N
  connect namespaces none network found = found
  connect namespaces (some ref) network found =
      if contains ref.0 namespaces
      then record found { networks = found.networks ++ (ref.0, network) ∷ [] }
      else found

module _ {N A : Type 0} (ip : IpLibrary N A) (namespaces : List String) where
  abbrev connect_both : String → Option Ref → Option Ref → Option N → Option N → Step N
  connect_both path a b (some m) (some n) found =
      if ip.same_network m n then ([], connect namespaces b n (connect namespaces a m found)) else (
        issue path "mismatched_subnets"
            "link endpoint addresses must belong to the same IPv4 network",
        found,
      )
  connect_both path a b _ _ found = ([], found)

  -- The addresses of a link, from the test on `ip_a` and `ip_b` on.
  unfoldable pub use_addresses :
      String → Option Ref → Option Ref → Option String → Option String → Step N
  use_addresses path a b none none found = ([], found)
  use_addresses path a b (some ip_a) (some ip_b) found =
      let (m, is) = parse_interface_address ip (path <> ".ip_a") (some ip_a) in
      let (n, js) = parse_interface_address ip (path <> ".ip_b") (some ip_b) in
      (report (is ++ js) then_step connect_both path a b m n) found
  use_addresses path a b _ _ found = (
    issue path "incomplete_link_addressing"
        "ip_a and ip_b must either both be provided or both be omitted",
    found,
  )

  -- The body of the loop over the links.
  unfoldable pub use_link : ℕ → LinkModel → Step N
  use_link index link found =
      let path = at_index "links" index in
      let (a, is) = parse_interface_ref (path <> ".a") link.a in
      let (b, js) = parse_interface_ref (path <> ".b") link.b in
      (report (
            is
            ++ (js
                ++ issue_if (both_equal a b) path "self_link"
                    "link endpoints must refer to two different interfaces"))
          then_step use_endpoint namespaces (path <> ".a") index a
          then_step use_endpoint namespaces (path <> ".b") index b
          then_step use_addresses path a b link.ip_a link.ip_b)
        found

  unfoldable pub use_links : ℕ → List LinkModel → Step N
  use_links index [] found = ([], found)
  use_links index (link ∷ rest) found =
      (use_link index link then_step use_links (suc index) rest) found
