-- ===== src/State/Reconcile/Plan.antt =====
-- What a reconcile plan contains, its order, and that carrying it out converges.
use pktlab.Base.{
  ℕ, suc, ◌≤◌, ◌≡◌, refl, String, Bool, true, false, ◌&&◌, Option, none, some, List, [], ◌∷◌, arith,
  if◌then◌else◌,
}
use pktlab.State.{
  DesiredState, ObservedState, DatapathStateValue, topology_requested, datapath_running,
}
use pktlab.State.Reconcile.{
  ReconcileActionType, ReconcileAction, is_noop, rules_differ, not_running, append_if,
  build_reconcile_plan, stop_datapath, destroy_topology, apply_topology, start_datapath,
  wait_for_datapath, replace_rules,
}

-- The place of an action in every plan: what takes down comes before what sets up.
abbrev pub stage : ReconcileActionType → ℕ
stage stop_datapath = 0
stage destroy_topology = 1
stage apply_topology = 2
stage start_datapath = 3
stage wait_for_datapath = 4
stage replace_rules = 5

-- The stages of the actions rise strictly from `low` on.
abbrev pub Rises : ℕ → List ReconcileAction → Type 0
Rises low [] = Unit
Rises low (a ∷ rest) = (low ≤ stage a.action) × Rises (suc (stage a.action)) rest

-- In every plan the stages rise: the datapath is stopped and a topology destroyed before one is
-- applied and the datapath started, rules come last, and no action occurs twice.
pub build_reconcile_plan_order :
    (d : DesiredState) (o : ObservedState) → Rises 0 (build_reconcile_plan d o).actions
unfolding build_reconcile_plan
build_reconcile_plan_order d o = ground arith

-- What carrying out an action brings about when it succeeds: the datapath process with its health,
-- the topology, or the rules version of the desired state.
abbrev pub carry_out : DesiredState → ℕ → ReconcileActionType → ObservedState → ObservedState
carry_out d pid stop_datapath o = record o { dpdkd_pid = none; datapath_health = none }
carry_out d pid destroy_topology o = record o { topology_applied = false }
carry_out d pid apply_topology o = record o { topology_applied = true }
carry_out d pid start_datapath o = record o {
  dpdkd_pid = some pid;
  datapath_health = some DatapathStateValue.running;
}
carry_out d pid wait_for_datapath o = record o { datapath_health = some DatapathStateValue.running }
carry_out d pid replace_rules o = record o { applied_rules_version = d.desired_rules_version }

pub carry_out_all : DesiredState → ℕ → List ReconcileAction → ObservedState → ObservedState
carry_out_all d pid [] o = o
carry_out_all d pid (a ∷ rest) o = carry_out_all d pid rest (carry_out d pid a.action o)

carry_out_all-append_if :
    (d : DesiredState) (pid : ℕ) (b : Bool) (k : ReconcileActionType) (r : String)
    (xs : List ReconcileAction) (o : ObservedState)
    → carry_out_all d pid (append_if b k r xs) o
      ≡ (if b then carry_out d pid k (carry_out_all d pid xs o) else carry_out_all d pid xs o)
unfolding carry_out_all
carry_out_all-append_if d pid true k r [] o = refl
carry_out_all-append_if d pid false k r [] o = refl
carry_out_all-append_if d pid true k r (x ∷ xs) o =
    carry_out_all-append_if d pid true k r xs (carry_out d pid x.action o)
carry_out_all-append_if d pid false k r (x ∷ xs) o = refl

rules_differ_self : (v : Option ℕ) → rules_differ v v ≡ false
rules_differ_self none = refl
rules_differ_self (some v) = ground arith

-- Planning converges: once the actions of a plan have been carried out, in their order and with
-- success, the next plan has nothing to do.
pub build_reconcile_plan_converges :
    (d : DesiredState) (o : ObservedState) (pid : ℕ)
    → is_noop (build_reconcile_plan d (carry_out_all d pid (build_reconcile_plan d o).actions o))
      ≡ true
unfolding build_reconcile_plan carry_out_all
build_reconcile_plan_converges d o pid = ground (arith, rules_differ_self d.desired_rules_version)

-- The health that is wanted of a datapath that should run, and the rules version that is wanted.
abbrev HealthMet : Bool → Option DatapathStateValue → Type 0
HealthMet false health = Unit
HealthMet true health = health ≡ some DatapathStateValue.running

abbrev RulesMet : Option ℕ → Option ℕ → Type 0
RulesMet none applied = Unit
RulesMet (some version) applied = applied ≡ some version

-- What is observed is what is desired.
pub record IsMet (d : DesiredState) (o : ObservedState) : Type 0 where
  pub running : datapath_running o ≡ d.desired_datapath_running
  pub healthy : HealthMet d.desired_datapath_running o.datapath_health
  pub topology : o.topology_applied ≡ topology_requested d
  pub rules : RulesMet d.desired_rules_version o.applied_rules_version

not_running-health :
    (health : Option DatapathStateValue)
    → not_running health ≡ false
    → health ≡ some DatapathStateValue.running
not_running-health (some DatapathStateValue.running) h = refl
not_running-health (some DatapathStateValue.starting) h = cc h
not_running-health (some DatapathStateValue.paused) h = cc h
not_running-health (some DatapathStateValue.degraded) h = cc h
not_running-health (some DatapathStateValue.stopping) h = cc h
not_running-health (some DatapathStateValue.failed) h = cc h
not_running-health none h = cc h

healthy-HealthMet :
    (b : Bool) (health : Option DatapathStateValue)
    → (b && not_running health) ≡ false
    → HealthMet b health
healthy-HealthMet false health h = tt
healthy-HealthMet true health h = not_running-health health h

same-RulesMet :
    (wanted applied : Option ℕ) → rules_differ wanted applied ≡ false → RulesMet wanted applied
same-RulesMet none applied h = tt
same-RulesMet (some v) none h = cc h
same-RulesMet (some v) (some w) h = ground (arith, h)

noop-IsMet :
    (d : DesiredState) (o : ObservedState) → is_noop (build_reconcile_plan d o) ≡ true → IsMet d o
unfolding build_reconcile_plan
noop-IsMet d o h = record {
  running = ground (arith, h);
  healthy = healthy-HealthMet d.desired_datapath_running o.datapath_health (ground (arith, h));
  topology = ground (arith, h);
  rules = same-RulesMet d.desired_rules_version o.applied_rules_version (ground (arith, h));
}

-- Once the actions of a plan have been carried out, in their order and with success, what is observed
-- is what is desired: the datapath runs exactly if it should, and then it reports the state running, a
-- topology is applied exactly if one is requested, and a rules version that is desired is applied.
pub build_reconcile_plan-IsMet :
    (d : DesiredState) (o : ObservedState) (pid : ℕ)
    → IsMet d (carry_out_all d pid (build_reconcile_plan d o).actions o)
build_reconcile_plan-IsMet d o pid =
    noop-IsMet d (carry_out_all d pid (build_reconcile_plan d o).actions o)
      (build_reconcile_plan_converges d o pid)
