-- ===== src/Config/Links/Sound.antt =====
-- What links without issues satisfy.
use pktlab.Base.{
  ℕ, suc, ◌≡◌, refl, sym, ap, ◌∙◌, true, false, Option, none, some, List, [], ◌∷◌, ◌++◌, arith,
  String, is_nil, contains, ◌<>◌,
}
use pktlab.Types.{LinkModel}
use pktlab.Config.{issue_if}
use pktlab.Config.Names.{at_index, member}
use pktlab.Config.Names.Distinct.{append_nil, Below-suc, issue_if_nil}
use pktlab.Config.Addresses.{Ref, ipv4, IpLibrary, parse_interface_ref, parse_interface_address}
use pktlab.Config.Rules.Valid.{checked-ipv4}
use pktlab.Config.Links.{
  ref_eq, Found, Step, ◌then_step◌, report, use_endpoint, connect_both, use_addresses, use_link,
  use_links, both_equal,
}
use pktlab.Config.Links.Endpoints.{
  IsRef, parse_interface_ref-IsRef, then_step-nil, Tracked, first_endpoint, second_endpoint,
}

module _ {N A : Type 0} (ip : IpLibrary N A) (namespaces : List String) where
  -- The addresses of a link between `a` and `b`, and the networks known with it: none for a link
  -- without addresses, and otherwise one network that both ends are in.
  abbrev pub Addressed :
      Ref → Ref → Option String → Option String → List (String × N) → List (String × N) → Type 0
  Addressed a b none none networks networks' = networks' ≡ networks
  Addressed a b (some ip_a) (some ip_b) networks networks' =
      (m : N) × (n : N) × (ip.ip_interface ip_a ≡ ipv4 m)
      × (ip.ip_interface ip_b ≡ ipv4 n)
      × (ip.same_network m n ≡ true)
      × (networks' ≡ (networks ++ (a.0, m) ∷ []) ++ (b.0, n) ∷ [])
  Addressed a b _ _ networks networks' = ⊥

  -- A link between two new interfaces of declared namespaces.
  pub record Joins (link : LinkModel) (known : List Ref) (networks : List (String × N)) (a b : Ref)
      (networks' : List (String × N)) : Type 0 where
    pub a_end : IsRef link.a a
    pub b_end : IsRef link.b b
    pub a_declared : contains a.0 namespaces ≡ true
    pub b_declared : contains b.0 namespaces ≡ true
    pub distinct : ref_eq a b ≡ false
    pub a_new : member ref_eq a known ≡ false
    pub b_new : member ref_eq b known ≡ false
    pub addresses : Addressed a b link.ip_a link.ip_b networks networks'

  -- The links, one after the other, and the interfaces and networks after them.
  abbrev pub AllJoin :
      List LinkModel → List Ref → List (String × N) → List Ref → List (String × N) → Type 0
  AllJoin [] known networks known' networks' = (known' ≡ known) × (networks' ≡ networks)
  AllJoin (link ∷ rest) known networks known' networks' =
      (a : Ref) × (b : Ref) × (more : List (String × N)) × Joins link known networks a b more
      × AllJoin rest (b ∷ a ∷ known) more known' networks'

  read_interface :
      (path value : String)
      → is_nil (parse_interface_address ip path (some value)).1 ≡ true
      → (n : N) × (ip.ip_interface value ≡ ipv4 n)
        × (parse_interface_address ip path (some value) ≡ (some n, []))
  unfolding parse_interface_address
  read_interface path value h =
      let (n, e, r) =
        checked-ipv4 path "invalid_ipv4_interface" "IPv4 interface with prefix length" "addresses"
          value (ip.ip_interface value) h in
      (n, e, rw e refl)

  addresses-Addressed :
      (path : String) (a b : Ref) (ip_a ip_b : Option String) (found : Found N)
      → contains a.0 namespaces ≡ true
      → contains b.0 namespaces ≡ true
      → is_nil (use_addresses ip namespaces path (some a) (some b) ip_a ip_b found).0 ≡ true
      → (more : List (String × N)) × Addressed a b ip_a ip_b found.networks more
        × ((use_addresses ip namespaces path (some a) (some b) ip_a ip_b found).1
            ≡ record found { networks = more })
  unfolding use_addresses
  addresses-Addressed path a b none none found da db h = (found.networks, refl, refl)
  addresses-Addressed path a b none (some y) found da db h = cc h
  addresses-Addressed path a b (some x) none found da db h = cc h
  addresses-Addressed path a b (some x) (some y) found da db h =
      let first = parse_interface_address ip (path <> ".ip_a") (some x) in
      let second = parse_interface_address ip (path <> ".ip_b") (some y) in
      let parts =
        append_nil (first.1 ++ second.1)
          (connect_both ip namespaces path (some a) (some b) first.0 second.0 found).0 h in
      let reads = append_nil first.1 second.1 parts.0 in
      let (m, em, rm) = read_interface (path <> ".ip_a") x reads.0 in
      let (n, en, rn) = read_interface (path <> ".ip_b") y reads.1 in
      let joined : is_nil
            (connect_both ip namespaces path (some a) (some b) (some m) (some n) found).0
          ≡ true =
        rw (rm, rn) at parts.1 in
      let same : ip.same_network m n ≡ true = ground (arith, joined) in
      (
        (found.networks ++ (a.0, m) ∷ []) ++ (b.0, n) ∷ [],
        (m, n, em, en, same, refl),
        rw (rm, rn, same, da, db) refl,
      )

  -- The steps on a link between two references that have been read.
  abbrev use_read : String → ℕ → Ref → Ref → LinkModel → Step N
  use_read path index a b link =
      use_endpoint namespaces (path <> ".a") index (some a)
      then_step use_endpoint namespaces (path <> ".b") index (some b)
      then_step use_addresses ip namespaces path (some a) (some b) link.ip_a link.ip_b

  use_read-Joins :
      (path : String) (index : ℕ) (a b : Ref) (link : LinkModel) (found : Found N)
      → Tracked index found
      → IsRef link.a a
      → IsRef link.b b
      → ref_eq a b ≡ false
      → is_nil (use_read path index a b link found).0 ≡ true
      → (more : List (String × N)) × Joins link found.interfaces found.networks a b more
        × ((use_read path index a b link found).1 ≡ record {
          seen = (b, index) ∷ (a, index) ∷ found.seen;
          interfaces = b ∷ a ∷ found.interfaces;
          networks = more;
        })
  use_read-Joins path index a b link found t a_end b_end distinct h =
      let step_a : Step N = use_endpoint namespaces (path <> ".a") index (some a) in
      let step_b : Step N = use_endpoint namespaces (path <> ".b") index (some b) in
      let step_ips = use_addresses ip namespaces path (some a) (some b) link.ip_a link.ip_b in
      let outer = then_step-nil step_a (step_b then_step step_ips) found h in
      let inner = then_step-nil step_b step_ips (step_a found).1 outer.1 in
      let (a_declared, a_new, found_a) =
        first_endpoint namespaces (path <> ".a") index a found t outer.0 in
      let (b_declared, b_new, found_b) =
        second_endpoint namespaces (path <> ".b") index a b found.seen (step_a found).1 t.1 distinct
          (ap (λ f. f.seen) found_a) inner.0 in
      let (more, addressed, found_ips) =
        addresses-Addressed path a b link.ip_a link.ip_b (step_b (step_a found).1).1 a_declared
          b_declared inner.1 in
      let before =
        found_b
        ∙ ap {A = Found N}
            (λ f. record f {
              seen = (b, index) ∷ (a, index) ∷ found.seen;
              interfaces = b ∷ f.interfaces;
            })
            found_a in
      (
        more,
        record {
          a_end = a_end;
          b_end = b_end;
          a_declared = a_declared;
          b_declared = b_declared;
          distinct = distinct;
          a_new = a_new;
          b_new = rw (sym t.0) b_new;
          addresses = rw before at addressed;
        },
        found_ips ∙ ap {A = Found N} (λ f. record f { networks = more }) before,
      )

  use_link-use_read :
      (index : ℕ) (link : LinkModel) (a b : Ref) (found : Found N)
      → (parse_interface_ref (at_index "links" index <> ".a") link.a).0 ≡ some a
      → (parse_interface_ref (at_index "links" index <> ".b") link.b).0 ≡ some b
      → (use_link ip namespaces index link found).1
        ≡ (use_read (at_index "links" index) index a b link found).1
  unfolding use_link
  use_link-use_read index link a b found ea eb = rw (ea, eb) refl

  link-Joins :
      (index : ℕ) (link : LinkModel) (found : Found N)
      → Tracked index found
      → is_nil (use_link ip namespaces index link found).0 ≡ true
      → (a : Ref) × (b : Ref) × (more : List (String × N)) × Joins link found.interfaces
          found.networks a b more
        × ((use_link ip namespaces index link found).1 ≡ record {
          seen = (b, index) ∷ (a, index) ∷ found.seen;
          interfaces = b ∷ a ∷ found.interfaces;
          networks = more;
        })
  unfolding use_link
  link-Joins index link found t h =
      let path = at_index "links" index in
      let pa = parse_interface_ref (path <> ".a") link.a in
      let pb = parse_interface_ref (path <> ".b") link.b in
      let self =
        issue_if (both_equal pa.0 pb.0) path "self_link"
          "link endpoints must refer to two different interfaces" in
      let use_a = use_endpoint namespaces (path <> ".a") index pa.0 in
      let use_b = use_endpoint namespaces (path <> ".b") index pb.0 in
      let use_ips = use_addresses ip namespaces path pa.0 pb.0 link.ip_a link.ip_b in
      let parts =
        then_step-nil (report (pa.1 ++ (pb.1 ++ self))) (use_a then_step use_b then_step use_ips)
          found h in
      let first = append_nil pa.1 (pb.1 ++ self) parts.0 in
      let second = append_nil pb.1 self first.1 in
      let (a, a_end, ea) = parse_interface_ref-IsRef (path <> ".a") link.a first.0 in
      let (b, b_end, eb) = parse_interface_ref-IsRef (path <> ".b") link.b second.0 in
      let steps : is_nil (use_read path index a b link found).0 ≡ true = rw (ea, eb) at parts.1 in
      let distinct : ref_eq a b ≡ false =
        issue_if_nil (ref_eq a b) path "self_link"
          "link endpoints must refer to two different interfaces" (rw (ea, eb) at second.1) in
      let (more, joins, after) =
        use_read-Joins path index a b link found t a_end b_end distinct steps in
      (a, b, more, joins, use_link-use_read index link a b found ea eb ∙ after)

  pub use_links-AllJoin :
      (index : ℕ) (links : List LinkModel) (found : Found N)
      → Tracked index found
      → is_nil (use_links ip namespaces index links found).0 ≡ true
      → AllJoin links found.interfaces found.networks
          (use_links ip namespaces index links found).1.interfaces
          (use_links ip namespaces index links found).1.networks
  unfolding use_links
  use_links-AllJoin index [] found t h = (refl, refl)
  use_links-AllJoin index (link ∷ rest) found t h =
      let parts =
        then_step-nil (use_link ip namespaces index link) (use_links ip namespaces (suc index) rest)
          found h in
      let (a, b, more, joins, after) = link-Joins index link found t parts.0 in
      let next : Found N = record {
        seen = (b, index) ∷ (a, index) ∷ found.seen;
        interfaces = b ∷ a ∷ found.interfaces;
        networks = more;
      } in
      let tracked : Tracked (suc index) next = (
        ap (λ ks. b ∷ a ∷ ks) t.0,
        (omega arith, (omega arith, Below-suc ref_eq index found.seen t.1)),
      ) in
      (
        a,
        b,
        more,
        joins,
        rw after (use_links-AllJoin (suc index) rest next tracked (rw after at parts.1)),
      )
