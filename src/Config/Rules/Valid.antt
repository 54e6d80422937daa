-- ===== src/Config/Rules/Valid.antt =====
-- What a ruleset without issues satisfies.
use pktlab.Base.{
  ℕ, suc, ◌≡◌, refl, Bool, true, false, ◌&&◌, ◌||◌, not, Option, none, some, List, [], ◌∷◌, ◌++◌,
  ◌==◌, arith, String, is_nil, is_some, contains, All, ◌<>◌,
}
use pktlab.Types.{RulesetModel, RuleModel, RuleMatchModel, RuleActionModel}
use pktlab.Config.Names.{setdefault, at_index}
use pktlab.Config.Names.Distinct.{
  append_nil, Fresh, Below, Below-suc, keys, setdefault-new, issue_if_nil,
}
use pktlab.Config.Addresses.{
  ParsedIp, malformed, other_family, ipv4, IpLibrary, checked, parse_address, parse_network,
}
use pktlab.Config.Rules.{
  validate_rule_action, validate_rule_match, is_icmp, entry_issues, collect_ruleset_issues,
  path_with_prefix,
}

-- An optional text that, if it is there, is read as an IPv4 object.
abbrev pub Reads {ℓ} : {X : Type ℓ} → (String → ParsedIp X) → Option String → Type ℓ
Reads read none = Unit
Reads {X = X} read (some s) = (x : X) × (read s ≡ ipv4 x)

-- A port that, if there is one, is among the allowed ones.
abbrev pub PortKnown : Option (List String) → Option String → Type 0
PortKnown (some ports) (some port) = contains port ports ≡ true
PortKnown _ _ = Unit

abbrev pub ids : List RuleModel → List ℕ
ids [] = []
ids (r ∷ rest) = r.id ∷ ids rest

pub checked-ipv4 :
    {X : Type 0} (path code what families value : String) (p : ParsedIp X)
    → is_nil (checked path code what families value p).1 ≡ true
    → (x : X) × (p ≡ ipv4 x) × ((checked path code what families value p).0 ≡ some x)
unfolding checked
checked-ipv4 path code what families value malformed h = cc
checked-ipv4 path code what families value other_family h = cc
checked-ipv4 path code what families value (ipv4 a) h = (a, refl, refl)

action-PortKnown :
    (action : RuleActionModel) (path : String) (allowed : Option (List String))
    → is_nil (validate_rule_action action path allowed) ≡ true
    → PortKnown allowed action.port
unfolding validate_rule_action
action-PortKnown action path allowed h = ground arith

module _ {N A : Type 0} (ip : IpLibrary N A) where
  pub address-Reads :
      (path : String) (o : Option String)
      → is_nil (parse_address ip path true o).1 ≡ true
      → Reads ip.ip_address o
  unfolding parse_address
  address-Reads path none h = tt
  address-Reads path (some s) h =
      let r =
        checked-ipv4 path "invalid_ipv4_address" "IPv4 address" "addresses" s (ip.ip_address s) h in
      (r.0, r.1)

  pub network-Reads :
      (path : String) (b : Bool) (o : Option String)
      → is_nil (parse_network ip path b o).1 ≡ true
      → Reads ip.ip_network o
  unfolding parse_network
  network-Reads path b none h = tt
  network-Reads path b (some s) h =
      let r =
        checked-ipv4 path "invalid_ipv4_network" "IPv4 network with prefix length" "networks" s
          (ip.ip_network s) h in
      (r.0, r.1)

  -- A match that can be met: an address or a network at each side, read as IPv4, and no port of a
  -- protocol that has none.
  pub record IsValidMatch (m : RuleMatchModel) : Type 0 where
    pub one_source : is_some m.src_ip && is_some m.src_cidr ≡ false
    pub one_destination : is_some m.dst_ip && is_some m.dst_cidr ≡ false
    pub src_ip : Reads ip.ip_address m.src_ip
    pub dst_ip : Reads ip.ip_address m.dst_ip
    pub src_cidr : Reads ip.ip_network m.src_cidr
    pub dst_cidr : Reads ip.ip_network m.dst_cidr
    pub icmp : is_icmp m.proto && (is_some m.src_port || is_some m.dst_port) ≡ false

  match-IsValidMatch :
      (m : RuleMatchModel) (path : String)
      → is_nil (validate_rule_match ip m path) ≡ true
      → IsValidMatch m
  unfolding validate_rule_match
  match-IsValidMatch m path h =
      let a = append_nil _ _ h in
      let b = append_nil _ _ a.1 in
      let c = append_nil _ _ b.1 in
      let d = append_nil _ _ c.1 in
      let e = append_nil _ _ d.1 in
      let f = append_nil _ _ e.1 in
      record {
        one_source = issue_if_nil _ _ _ _ a.0;
        one_destination = issue_if_nil _ _ _ _ b.0;
        src_ip = address-Reads _ _ c.0;
        dst_ip = address-Reads _ _ d.0;
        src_cidr = network-Reads _ _ _ e.0;
        dst_cidr = network-Reads _ _ _ f.0;
        icmp = issue_if_nil _ _ _ _ f.1;
      }

  -- A ruleset whose rules have distinct identifiers and valid matches, and whose actions name only
  -- allowed ports.
  pub record IsValidRules (allowed : Option (List String)) (rules : RulesetModel) : Type 0 where
    pub default_port : PortKnown allowed rules.default_action.port
    pub distinct : Fresh ◌==◌ [] (ids rules.entries)
    pub matches : All (λ r. IsValidMatch r.match) rules.entries
    pub ports : All (λ r. PortKnown allowed r.action.port) rules.entries

  -- What the scan of the entries establishes.
  abbrev Scanned : Option (List String) → List (ℕ × ℕ) → List RuleModel → Type 0
  Scanned allowed seen rules =
      Fresh ◌==◌ (keys ◌==◌ seen) (ids rules)
      × All (λ r. IsValidMatch r.match) rules
      × All (λ r. PortKnown allowed r.action.port) rules

  entries-Scanned :
      (prefix : Option String) (allowed : Option (List String)) (index : ℕ) (seen : List (ℕ × ℕ))
      (rules : List RuleModel)
      → Below ◌==◌ index seen
      → is_nil (entry_issues ip prefix allowed index seen rules) ≡ true
      → Scanned allowed seen rules
  unfolding entry_issues
  entries-Scanned prefix allowed index seen [] b h = (tt, tt, tt)
  entries-Scanned prefix allowed index seen (rule ∷ rest) b h =
      let path = path_with_prefix prefix (at_index "entries" index) in
      let seen' = (setdefault ◌==◌ rule.id index seen).1 in
      let parts : (not ((setdefault ◌==◌ rule.id index seen).0 == index) ≡ false)
          × (is_nil (
                validate_rule_match ip rule.match path
                ++ (validate_rule_action rule.action (path <> ".action") allowed
                    ++ entry_issues ip prefix allowed (suc index) seen' rest))
              ≡ true) =
        ground arith in
      let m =
        append_nil (validate_rule_match ip rule.match path)
          (validate_rule_action rule.action (path <> ".action") allowed
            ++ entry_issues ip prefix allowed (suc index) seen' rest)
          parts.1 in
      let a =
        append_nil (validate_rule_action rule.action (path <> ".action") allowed)
          (entry_issues ip prefix allowed (suc index) seen' rest) m.1 in
      let new = setdefault-new ◌==◌ rule.id index seen b parts.0 in
      let others =
        entries-Scanned prefix allowed (suc index) ((rule.id, index) ∷ seen) rest
          (omega arith, Below-suc ◌==◌ index seen b) (rw new.1 at (a.1)) in
      (
        (new.0, others.0),
        (match-IsValidMatch rule.match path m.0, others.1),
        (action-PortKnown rule.action (path <> ".action") allowed a.0, others.2),
      )

  pub collect-IsValidRules :
      (rules : RulesetModel) (prefix : Option String) (allowed : Option (List String))
      → is_nil (collect_ruleset_issues ip rules prefix allowed) ≡ true
      → IsValidRules allowed rules
  unfolding collect_ruleset_issues
  collect-IsValidRules rules prefix allowed h =
      let parts =
        append_nil
          (validate_rule_action rules.default_action (path_with_prefix prefix "default_action")
            allowed)
          (entry_issues ip prefix allowed 0 [] rules.entries) h in
      let scanned = entries-Scanned prefix allowed 0 [] rules.entries tt parts.1 in
      record {
        default_port =
            action-PortKnown rules.default_action (path_with_prefix prefix "default_action") allowed
              parts.0;
        distinct = scanned.0;
        matches = scanned.1;
        ports = scanned.2;
      }
