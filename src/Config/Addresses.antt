-- ===== src/Config/Addresses.antt =====
-- Interface references and IPv4 texts: `_parse_interface_ref`, `_parse_interface_address`,
-- `_parse_address`, `_parse_network` and `_missing_value_issue` of
-- ctrld/pktlab_ctrld/config/validation.py. A parser returns its value and the issues that it
-- appends.
use pktlab.Base.{
  String, Bool, ◌||◌, Option, none, some, List, [], ◌<>◌, is_empty, partition, if◌then◌else◌,
}
use pktlab.Config.{ValidationIssue, issue}

-- The outcome of `ip_interface`, `ip_address` and `ip_network`: a ValueError, an object of IPv6,
-- or one of IPv4.
pub data ParsedIp {ℓ} (A : Type ℓ) : Type ℓ where
  malformed : ParsedIp A
  other_family : ParsedIp A
  ipv4 : A → ParsedIp A

-- What the code uses of the `ipaddress` module, over its types of networks and addresses: the
-- network of an interface, `==` of networks and `in`.
pub record IpLibrary (N A : Type 0) : Type 0 where
  pub ip_interface : String → ParsedIp N
  pub ip_address : String → ParsedIp A
  pub ip_network : String → ParsedIp N
  pub same_network : N → N → Bool
  pub is_in : A → N → Bool

abbrev pub Parsed : Type 0 → Type 0
Parsed A = Option A × List ValidationIssue

abbrev pub Ref : Type 0
Ref = String × String

unfoldable pub parse_interface_ref : String → String → Parsed Ref
parse_interface_ref path value = elim (partition b':' value) [
  | none ↦ (
    none,
    issue path "invalid_interface_ref"
        "interface references must use the '<namespace>:<interface>' form",
  )
  | some (namespace, interface) ↦
      if is_empty namespace || is_empty interface
      then (
        none,
        issue path "invalid_interface_ref"
            "interface references must use the '<namespace>:<interface>' form",
      )
      else (some (namespace, interface), [])
]

-- The end of the three parsers: a value, or the issue for what the text is instead.
unfoldable pub checked :
    {A : Type 0} → String → String → String → String → String → ParsedIp A → Parsed A
checked path code what families value malformed =
    (none, issue path code ("'" <> value <> "' is not a valid " <> what))
checked path code what families value other_family = (
  none,
  issue path "invalid_address_family" ("only IPv4 " <> families <> " are supported in the MVP"),
)
checked path code what families value (ipv4 a) = (some a, [])

unfoldable pub missing_value_issue : {A : Type 0} → String → String → Parsed A
missing_value_issue path label = (none, issue path "missing_value" (label <> " is required"))

module _ {N A : Type 0} (ip : IpLibrary N A) where
  -- `_parse_interface_address`, to the network of the interface.
  unfoldable pub parse_interface_address : String → Option String → Parsed N
  unfolding checked
  parse_interface_address path none = (none, [])
  parse_interface_address path (some value) =
      checked path "invalid_ipv4_interface" "IPv4 interface with prefix length" "addresses" value
        (ip.ip_interface value)

  unfoldable pub parse_address : String → Bool → Option String → Parsed A
  unfolding checked missing_value_issue
  parse_address path optional none =
      if optional then (none, []) else missing_value_issue path "IPv4 address"
  parse_address path optional (some value) =
      checked path "invalid_ipv4_address" "IPv4 address" "addresses" value (ip.ip_address value)

  unfoldable pub parse_network : String → Bool → Option String → Parsed N
  unfolding checked missing_value_issue
  parse_network path optional none =
      if optional then (none, []) else missing_value_issue path "IPv4 network with prefix"
  parse_network path optional (some value) =
      checked path "invalid_ipv4_network" "IPv4 network with prefix length" "networks" value
        (ip.ip_network value)
