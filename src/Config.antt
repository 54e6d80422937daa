-- ===== src/Config.antt =====
-- Configuration: the package ctrld/pktlab_ctrld/config.
-- A function that appends to the caller's `issues` returns what it appends.
pub mod Names
pub mod Addresses
pub mod Rules
pub mod Links
pub mod Ports
pub mod Validation
pub mod Loading
pub mod Lcores
pub mod Runtime
use pktlab.Base.{String, Bool, List, [], ◌∷◌, if◌then◌else◌}
use pktlab.Types.{TopologyConfigModel, DpdkProcessConfigModel, EffectiveDpdkRuntimeModel}
use pktlab.Error.{Value, Values, nil, cons, text, dict, entry, end}

pub record ValidationIssue : Type 0 where
  pub path : String
  pub code : String
  pub message : String

-- A topology that has passed validation, with its datapath profile. Sets are lists without order.
pub record ValidatedTopologyConfig : Type 0 where
  pub topology : TopologyConfigModel
  pub requested_dpdk_config : DpdkProcessConfigModel
  pub effective_dpdk_config : EffectiveDpdkRuntimeModel
  pub namespace_names : List String
  pub dpdk_port_names : List String
  pub namespace_interfaces : List (String × List String)

unfoldable pub issue_to_dict : ValidationIssue → Value
issue_to_dict i =
    dict (
      entry "path" (text i.path)
        (entry "code" (text i.code) (entry "message" (text i.message) end)))

unfoldable pub issues_to_dicts : List ValidationIssue → Values
issues_to_dicts [] = nil
issues_to_dicts (i ∷ rest) = cons (issue_to_dict i) (issues_to_dicts rest)

abbrev pub issue : String → String → String → List ValidationIssue
issue path code message = record { path = path; code = code; message = message } ∷ []

-- `if test: issues.append(ValidationIssue(...))`
abbrev pub issue_if : Bool → String → String → String → List ValidationIssue
issue_if test path code message = if test then issue path code message else []
