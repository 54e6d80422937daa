-- ===== src/Config/Rules/Exact.antt =====
-- `validate_ruleset` accepts exactly the valid rulesets.
use pktlab.Base.{
  ℕ, suc, ◌≡◌, refl, true, Option, none, some, List, [], ◌∷◌, ◌==◌, arith, String, is_nil,
  on_option, All, ◌<>◌, ◌↔◌,
}
use pktlab.Effect.{ok}
use pktlab.Types.{RulesetModel, RuleModel, RuleMatchModel, RuleActionModel}
use pktlab.Config.Names.{at_index, to_set}
use pktlab.Config.Names.Distinct.{Fresh, keys, setdefault-fresh, same_index}
use pktlab.Config.Addresses.{IpLibrary, checked, parse_address, parse_network}
use pktlab.Config.Rules.{
  validate_rule_action, validate_rule_match, entry_issues, collect_ruleset_issues, validate_ruleset,
  ValidatedRuleset, path_with_prefix,
}
use pktlab.Config.Rules.Valid.{
  Reads, PortKnown, ids, IsValidMatch, IsValidRules, collect-IsValidRules,
}

PortKnown-action :
    (action : RuleActionModel) (path : String) (allowed : Option (List String))
    → PortKnown allowed action.port
    → validate_rule_action action path allowed ≡ []
unfolding validate_rule_action
PortKnown-action action path allowed h = ground arith

module _ {N A : Type 0} (ip : IpLibrary N A) where
  Reads-address :
      (path : String) (o : Option String)
      → Reads ip.ip_address o
      → (parse_address ip path true o).1 ≡ []
  unfolding parse_address checked
  Reads-address path none h = refl
  Reads-address path (some s) h = rw h.1 refl

  Reads-network :
      (path : String) (o : Option String)
      → Reads ip.ip_network o
      → (parse_network ip path true o).1 ≡ []
  unfolding parse_network checked
  Reads-network path none h = refl
  Reads-network path (some s) h = rw h.1 refl

  IsValidMatch-match :
      (m : RuleMatchModel) (path : String) → IsValidMatch ip m → validate_rule_match ip m path ≡ []
  unfolding validate_rule_match
  IsValidMatch-match m path v =
      rw
        (
          v.one_source,
          v.one_destination,
          Reads-address (path <> ".match.src_ip") m.src_ip v.src_ip,
          Reads-address (path <> ".match.dst_ip") m.dst_ip v.dst_ip,
          Reads-network (path <> ".match.src_cidr") m.src_cidr v.src_cidr,
          Reads-network (path <> ".match.dst_cidr") m.dst_cidr v.dst_cidr,
          v.icmp,
        )
        refl

  entries-nil :
      (prefix : Option String) (allowed : Option (List String)) (index : ℕ) (seen : List (ℕ × ℕ))
      (rules : List RuleModel)
      → Fresh ◌==◌ (keys ◌==◌ seen) (ids rules)
      → All (λ r. IsValidMatch ip r.match) rules
      → All (λ r. PortKnown allowed r.action.port) rules
      → entry_issues ip prefix allowed index seen rules ≡ []
  unfolding entry_issues
  entries-nil prefix allowed index seen [] fresh matches ports = refl
  entries-nil prefix allowed index seen (rule ∷ rest) fresh matches ports =
      let path = path_with_prefix prefix (at_index "entries" index) in
      rw
        (
          setdefault-fresh ◌==◌ rule.id index seen fresh.0,
          same_index index,
          IsValidMatch-match rule.match path matches.0,
          PortKnown-action rule.action (path <> ".action") allowed ports.0,
        )
        (entries-nil prefix allowed (suc index) ((rule.id, index) ∷ seen) rest fresh.1 matches.1
          ports.1)

  IsValidRules-nil :
      (allowed : Option (List String)) (rules : RulesetModel)
      → IsValidRules ip allowed rules
      → collect_ruleset_issues ip rules none allowed ≡ []
  unfolding collect_ruleset_issues
  IsValidRules-nil allowed rules v =
      rw
        (PortKnown-action rules.default_action (path_with_prefix none "default_action") allowed
          v.default_port)
        (entries-nil none allowed 0 [] rules.entries v.distinct v.matches v.ports)

  accepted-nil :
      (rules : RulesetModel) (allowed : Option (List String)) (v : ValidatedRuleset)
      → validate_ruleset ip rules allowed ≡ ok v
      → is_nil (collect_ruleset_issues ip rules none allowed) ≡ true
  unfolding validate_ruleset
  accepted-nil rules allowed v h = ground arith

  -- A ruleset is accepted, unchanged and with the set of the allowed ports, exactly when its rules
  -- have distinct identifiers, its matches name at most one IPv4 address or network at each side
  -- and no port of icmp, and its actions name only allowed ports.
  pub validate_ruleset-IsValidRules :
      (rules : RulesetModel) (allowed : Option (List String))
      → (validate_ruleset ip rules allowed
          ≡ ok (record { rules = rules; allowed_port_names = on_option allowed [] to_set }))
        ↔ IsValidRules ip allowed rules
  unfolding validate_ruleset
  validate_ruleset-IsValidRules rules allowed = (
    λ h. collect-IsValidRules ip rules none allowed (accepted-nil rules allowed _ h),
    λ v. rw (IsValidRules-nil allowed rules v) refl,
  )
