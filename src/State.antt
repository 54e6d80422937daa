-- ===== src/State.antt =====
-- The controller's desired and observed state and the reconcile planner: the package
-- ctrld/pktlab_ctrld/state. A constructor with a `__post_init__` is a function into `Outcome`.
pub mod Checks
pub mod Reconcile
use pktlab.Base.{
  ℕ, zero, suc, String, Bool, true, false, Option, none, some, List, if◌then◌else◌, ◌<>◌, CharTable,
  is_blank,
}
use pktlab.Error.{value_error}
use pktlab.Effect.{Outcome, ok, raised}
use pktlab.Types.{DpdkProcessConfigModel, EffectiveDpdkRuntimeModel}

pub data ControllerStateValue : Type 0 where
  stopped starting running degraded reconciling stopping failed : ControllerStateValue

pub data DatapathStateValue : Type 0 where
  starting running paused degraded stopping failed : DatapathStateValue

pub record DesiredState : Type 0 where
  pub topology_config_path : Option String
  pub topology_name : Option String
  pub desired_rules_version : Option ℕ
  pub requested_dpdk_config : Option DpdkProcessConfigModel
  pub desired_controller_state : ControllerStateValue
  pub desired_datapath_running : Bool

-- The fields that `DesiredState(...)` leaves at their defaults.
abbrev pub plain_desired : ControllerStateValue → Bool → DesiredState
plain_desired state datapath = record {
  topology_config_path = none;
  topology_name = none;
  desired_rules_version = none;
  requested_dpdk_config = none;
  desired_controller_state = state;
  desired_datapath_running = datapath;
}

-- `_validate_optional_text`; a result that is not `none` is the message of the ValueError.
unfoldable pub validate_optional_text : CharTable → String → Option String → Option String
validate_optional_text t field none = none
validate_optional_text t field (some value) =
    if is_blank t value then some (field <> " must be a non-empty string when provided") else none

abbrev or_else : {A : Type 0} → Option String → Outcome A → Outcome A
or_else none rest = rest
or_else (some message) rest = raised (value_error message)

-- `DesiredState(...)` with its `__post_init__`; a rules version is never negative here.
unfoldable pub make_desired : CharTable → DesiredState → Outcome DesiredState
unfolding validate_optional_text
make_desired t d =
    or_else (validate_optional_text t "topology_config_path" d.topology_config_path)
      (or_else (validate_optional_text t "topology_name" d.topology_name) (ok d))

abbrev pub topology_requested : DesiredState → Bool
topology_requested d = elim d.topology_name [ none ↦ false | some _ ↦ true ]

pub record CaptureObservation : Type 0 where
  pub namespace : String
  pub interface : String
  pub pid : Option ℕ

pub record ObservedState : Type 0 where
  pub datapath_health : Option DatapathStateValue
  pub applied_rules_version : Option ℕ
  pub dpdkd_pid : Option ℕ
  pub effective_dpdk_config : Option EffectiveDpdkRuntimeModel
  pub active_captures : List (String × CaptureObservation)
  pub topology_applied : Bool

-- `_validate_optional_positive`
unfoldable pub validate_optional_positive : String → Option ℕ → Option String
validate_optional_positive field (some zero) =
    some (field <> " must be greater than zero when provided")
validate_optional_positive field _ = none

-- `CaptureObservation(...)` with its `__post_init__`.
unfoldable pub make_capture_observation :
    CharTable → CaptureObservation → Outcome CaptureObservation
unfolding validate_optional_positive
make_capture_observation t c =
    if is_blank t c.namespace
    then raised (value_error "namespace must be a non-empty string")
    else if is_blank t c.interface
    then raised (value_error "interface must be a non-empty string")
    else or_else (validate_optional_positive "pid" c.pid) (ok c)

-- `ObservedState(...)` with its `__post_init__`.
unfoldable pub make_observed : ObservedState → Outcome ObservedState
unfolding validate_optional_positive
make_observed o = elim (validate_optional_positive "dpdkd_pid" o.dpdkd_pid) [
  | none ↦ ok o
  | some message ↦ raised (value_error message)
]

abbrev pub datapath_running : ObservedState → Bool
datapath_running o = elim o.dpdkd_pid [ none ↦ false | some _ ↦ true ]
