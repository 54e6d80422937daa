-- ===== src/Config/Rules.antt =====
-- Validation of rulesets: `_collect_ruleset_issues`, `_validate_rule_match`,
-- `_validate_rule_action`, `_path_with_prefix` and `validate_ruleset` of
-- ctrld/pktlab_ctrld/config/validation.py.
pub mod Valid
pub mod Exact
use pktlab.Base.{
  ℕ, suc, String, Bool, true, false, ◌&&◌, ◌||◌, not, Option, none, some, List, [], ◌∷◌, ◌++◌, ◌==◌,
  if◌then◌else◌, ◌<>◌, decimal, is_empty, is_nil, is_some, contains, on_option,
}
use pktlab.Error.{rule_validation_error, validation_error, typed}
use pktlab.Effect.{Outcome, ok, raised}
use pktlab.Types.{RulesetModel, RuleModel, RuleMatchModel, RuleActionModel, RuleProtocol}
use pktlab.Config.{ValidationIssue, issue_if, issues_to_dicts}
use pktlab.Config.Names.{setdefault, at_index, to_set}
use pktlab.Config.Addresses.{IpLibrary, parse_address, parse_network}

unfoldable pub path_with_prefix : Option String → String → String
path_with_prefix none suffix = suffix
path_with_prefix (some prefix) suffix = if is_empty prefix then suffix else prefix <> "." <> suffix

-- The ports that an action may name; `none` where any may.
unfoldable pub validate_rule_action :
    RuleActionModel → String → Option (List String) → List ValidationIssue
validate_rule_action action path allowed = on_option action.port [] λ port.
    on_option allowed [] λ ports.
      issue_if (not (contains port ports)) (path <> ".port") "unknown_port"
        ("port '" <> port <> "' is not declared in dpdk_ports")

abbrev pub is_icmp : Option RuleProtocol → Bool
is_icmp (some RuleProtocol.icmp) = true
is_icmp _ = false

pub record ValidatedRuleset : Type 0 where
  pub rules : RulesetModel
  pub allowed_port_names : List String

module _ {N A : Type 0} (ip : IpLibrary N A) where
  unfoldable pub validate_rule_match : RuleMatchModel → String → List ValidationIssue
  validate_rule_match match path =
      issue_if (is_some match.src_ip && is_some match.src_cidr) (path <> ".match")
        "conflicting_source_match" "src_ip and src_cidr cannot both be set on the same rule"
      ++ (issue_if (is_some match.dst_ip && is_some match.dst_cidr) (path <> ".match")
            "conflicting_destination_match"
            "dst_ip and dst_cidr cannot both be set on the same rule"
          ++ ((parse_address ip (path <> ".match.src_ip") true match.src_ip).1
              ++ ((parse_address ip (path <> ".match.dst_ip") true match.dst_ip).1
                  ++ ((parse_network ip (path <> ".match.src_cidr") true match.src_cidr).1
                      ++ ((parse_network ip (path <> ".match.dst_cidr") true match.dst_cidr).1
                          ++ issue_if
                              (is_icmp match.proto
                                && (is_some match.src_port || is_some match.dst_port))
                              (path <> ".match") "icmp_port_match"
                              "icmp rules cannot constrain src_port or dst_port")))))

  -- The loop over the entries.
  unfoldable pub entry_issues :
      Option String
      → Option (List String)
      → ℕ
      → List (ℕ × ℕ)
      → List RuleModel
      → List ValidationIssue
  entry_issues prefix allowed index seen [] = []
  entry_issues prefix allowed index seen (rule ∷ rest) =
      let path = path_with_prefix prefix (at_index "entries" index) in
      let (first, seen') = setdefault ◌==◌ rule.id index seen in
      issue_if (not (first == index)) (path <> ".id") "duplicate_rule_id"
        ("rule id " <> decimal rule.id <> " duplicates the entry at index " <> decimal first)
      ++ (validate_rule_match rule.match path
          ++ (validate_rule_action rule.action (path <> ".action") allowed
              ++ entry_issues prefix allowed (suc index) seen' rest))

  -- `_collect_ruleset_issues`; the ports that it tests against are a set of the names given.
  unfoldable pub collect_ruleset_issues :
      RulesetModel → Option String → Option (List String) → List ValidationIssue
  collect_ruleset_issues rules prefix allowed =
      validate_rule_action rules.default_action (path_with_prefix prefix "default_action") allowed
      ++ entry_issues prefix allowed 0 [] rules.entries

  -- `validate_ruleset`
  unfoldable pub validate_ruleset : RulesetModel → Option (List String) → Outcome ValidatedRuleset
  validate_ruleset rules allowed =
      let issues = collect_ruleset_issues rules none allowed in
      if is_nil issues
      then ok (record { rules = rules; allowed_port_names = on_option allowed [] to_set })
      else raised (
          typed (
            validation_error "rules config failed semantic validation" rule_validation_error
              (issues_to_dicts issues)))
