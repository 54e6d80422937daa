-- ===== src/State/Reconcile.antt =====
-- The reconcile planner, ctrld/pktlab_ctrld/state/reconcile.py.
pub mod Plan
use pktlab.Base.{
  ℕ, String, Bool, true, false, ◌&&◌, not, Option, none, some, List, [], ◌∷◌, ◌++◌, ◌==◌,
  if◌then◌else◌, is_nil,
}
use pktlab.State.{
  DesiredState, ObservedState, DatapathStateValue, topology_requested, datapath_running,
}

pub data ReconcileActionType : Type 0 where
  stop_datapath destroy_topology apply_topology start_datapath : ReconcileActionType
  wait_for_datapath replace_rules : ReconcileActionType

pub record ReconcileAction : Type 0 where
  pub action : ReconcileActionType
  pub reason : String

pub record ReconcilePlan : Type 0 where
  pub actions : List ReconcileAction

abbrev pub is_noop : ReconcilePlan → Bool
is_noop p = is_nil p.actions

-- `observed.datapath_health != "running"`
abbrev pub not_running : Option DatapathStateValue → Bool
not_running (some DatapathStateValue.running) = false
not_running _ = true

-- `desired is not None and desired != observed` on rules versions.
abbrev pub rules_differ : Option ℕ → Option ℕ → Bool
rules_differ none _ = false
rules_differ (some v) none = true
rules_differ (some v) (some w) = not (v == w)

-- `if test: actions.append(ReconcileAction(kind, reason))`
abbrev pub append_if :
    Bool → ReconcileActionType → String → List ReconcileAction → List ReconcileAction
append_if test kind reason actions =
    if test then actions ++ record { action = kind; reason = reason } ∷ [] else actions

unfoldable pub build_reconcile_plan : DesiredState → ObservedState → ReconcilePlan
build_reconcile_plan desired observed =
    let a0 : List ReconcileAction = [] in
    let a1 =
      append_if (not desired.desired_datapath_running && datapath_running observed) stop_datapath
        "datapath is running but the desired state does not require it" a0 in
    let a2 =
      append_if (not (topology_requested desired) && observed.topology_applied) destroy_topology
        "topology is applied but the desired state no longer requests one" a1 in
    let a3 =
      append_if (topology_requested desired && not observed.topology_applied) apply_topology
        "desired topology is missing from the observed state" a2 in
    let a4 =
      append_if (desired.desired_datapath_running && not (datapath_running observed)) start_datapath
        "desired state requires the datapath process to be running" a3 in
    let a5 =
      append_if
        (desired.desired_datapath_running
          && (datapath_running observed && not_running observed.datapath_health))
        wait_for_datapath "datapath process exists but has not reported a healthy running state yet"
        a4 in
    let a6 =
      append_if (rules_differ desired.desired_rules_version observed.applied_rules_version)
        replace_rules "observed datapath rules do not match the desired rules version" a5 in
    record { actions = a6 }
