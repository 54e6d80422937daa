-- ===== src/Controller/Runtime/Ending.antt =====
-- The end of the controller's life, and its answers without a datapath.
use pktlab.Base.{
  ◌≡◌, refl, sym, ap, true, false, Option, none, some, if◌then◌else◌, Bool-cases, inl, inr,
}
use mathlib.Core.Path.{subst}
use pktlab.Effect.{Outcome, ok, raised, pure, continue, ◌>>=◌}
use pktlab.Effect.Triple.{Post, bind-Post}
use pktlab.State.{ControllerStateValue, plain_desired, make_observed, validate_optional_positive}
use pktlab.Topology.Manager.{Managed, AppliedTopology, TopologyOperationResult, on_plant}
use pktlab.Topology.Manager.Teardown.{AfterDestroy, destroy-current}
use pktlab.Controller.{ControllerRuntime, Plant, Env}
use pktlab.Controller.Health.{report, unmanaged_datapath_status, observed_from_datapath}
use pktlab.Controller.Parts.{
  plant_shell, manager_config, manager_destroy, stop_topology_datapath, current_datapath_status,
}
use pktlab.Controller.Runtime.{stop_services, finish_stop, stop}
use pktlab.Controller.Commands.{
  not_supervising, datapath_stats_snapshot, reset_datapath_stats, pause_datapath, resume_datapath,
}
use pktlab.Controller.Runtime.Frame.{IsSame, stop_topology_datapath-Keeps, manager_destroy-Keeps}

-- A controller that has been stopped: no topology, and nothing desired.
pub record IsShutDown {W : Type 0} (s : Managed (Plant W)) : Type 0 where
  pub no_topology : s.current ≡ none
  pub not_started : s.plant.runtime.started ≡ false
  pub stopped : s.plant.runtime.controller_state ≡ ControllerStateValue.stopped
  pub desired : s.plant.runtime.desired_state ≡ plain_desired ControllerStateValue.stopped false
  pub observed : s.plant.runtime.observed_state.topology_applied ≡ false
  pub no_datapath : s.plant.runtime.observed_state.dpdkd_pid ≡ none

-- A controller whose stop has failed: it is still started, with the desired and the observed state
-- of `r`.
pub record IsStopping {W : Type 0} (r : ControllerRuntime) (s : Managed (Plant W)) : Type 0 where
  pub still_started : s.plant.runtime.started ≡ r.started
  pub stopping : s.plant.runtime.controller_state ≡ ControllerStateValue.stopping
  pub same_desired : s.plant.runtime.desired_state ≡ r.desired_state
  pub same_observed : s.plant.runtime.observed_state ≡ r.observed_state

module _ {W : Type 0} (env : Env W) where
  -- The fields of `r` once its stop has begun.
  abbrev begun : ControllerRuntime → ControllerRuntime
  begun r =
      report ControllerStateValue.stopping "stopping controller runtime"
        (record r { controller_override_message = none })

  IsSame-IsStopping :
      (r : ControllerRuntime) (s : Managed (Plant W)) → IsSame (begun r) s.plant → IsStopping r s
  IsSame-IsStopping r s h = record {
    still_started = ap (λ q. q.started) h.same;
    stopping = ap (λ q. q.controller_state) h.same;
    same_desired = ap (λ q. q.desired_state) h.same;
    same_observed = ap (λ q. q.observed_state) h.same;
  }

  -- The services have ended and the topology is gone, or the stop has failed.
  abbrev AfterServices : ControllerRuntime → Outcome (Unit {0}) × Managed (Plant W) → Type 0
  AfterServices r x = Post (λ _ s'. s'.current ≡ none) (λ _ s'. IsStopping r s') x

  after_datapath :
      (r : ControllerRuntime) (x : Outcome (Unit {0}) × Plant W)
      → IsSame (begun r) x.1
      → AfterServices r (x.0, record { current = none; plant = x.1 })
  after_datapath r (ok _, p) h = refl
  after_datapath r (raised e, p) h = IsSame-IsStopping r (record { current = none; plant = p }) h

  after_manager :
      (r : ControllerRuntime) (before : Option AppliedTopology)
      (x : Outcome TopologyOperationResult × Managed (Plant W))
      → AfterDestroy env.chars (plant_shell env.shell) (manager_config env) before x
      → IsSame (begun r) x.1.plant
      → AfterServices r (continue (λ _. pure tt) x)
  after_manager r before (ok _, s) d h = d.0
  after_manager r before (raised e, s) d h = IsSame-IsStopping r s h

  services-AfterServices :
      (r : ControllerRuntime) (before : Option AppliedTopology) (p : Plant W)
      → IsSame (begun r) p
      → AfterServices r (stop_services env (record { current = before; plant = p }))
  unfolding stop_services
  services-AfterServices r none p h =
      after_datapath r (stop_topology_datapath env p)
        ((stop_topology_datapath-Keeps env (begun r)).at p h)
  services-AfterServices r (some a) p h =
      let s : Managed (Plant W) = record { current = some a; plant = p } in
      after_manager r (some a) (manager_destroy env s)
        (destroy-current env.chars (plant_shell env.shell) (manager_config env) s)
        ((manager_destroy-Keeps env (begun r)).at s h)

  finish-IsShutDown :
      (r : ControllerRuntime) (s : Managed (Plant W))
      → s.current ≡ none
      → Post {A = Unit}
          (λ _ s'. IsShutDown s')
          (λ _ s'. IsStopping r s')
          (on_plant (finish_stop env) s)
  unfolding finish_stop observed_from_datapath make_observed validate_optional_positive
  finish-IsShutDown r s h = record {
    no_topology = h;
    not_started = refl;
    stopped = refl;
    desired = refl;
    observed = refl;
    no_datapath = refl;
  }

  -- Stopping a started controller either returns with no topology, nothing desired and the
  -- controller stopped, or raises and leaves it started, in the state "stopping", with what is
  -- desired and observed unchanged.
  pub stop-IsShutDown :
      (s : Managed (Plant W))
      → s.plant.runtime.started ≡ true
      → Post {A = Unit} (λ _ s'. IsShutDown s') (λ _ s'. IsStopping s.plant.runtime s') (stop env s)
  unfolding stop
  stop-IsShutDown s h =
      let r = s.plant.runtime in
      let s1 : Managed (Plant W) = record s { plant = record s.plant { runtime = begun r } } in
      subst
        (λ b.
          Post {A = Unit} (λ _ s'. IsShutDown s') (λ _ s'. IsStopping r s')
            (if b
              then (stop_services env >>= (λ _. on_plant (finish_stop env))) s1
              else (ok tt, s)))
        (sym h)
        (bind-Post (λ _ s'. IsShutDown s') (λ _ s'. IsStopping r s') (λ _ s'. s'.current ≡ none)
          (stop_services env) (λ _. on_plant (finish_stop env)) s1
          (services-AfterServices r s.current (record s.plant { runtime = begun r })
            (record { same = refl }))
          (λ _ s' gone. finish-IsShutDown r s' gone))

  current_status-unmanaged :
      (p : Plant W)
      → p.runtime.supervisor ≡ none
      → current_datapath_status env p ≡ (ok (unmanaged_datapath_status p.runtime), p)
  unfolding current_datapath_status
  current_status-unmanaged p h = elim (Bool-cases p.runtime.started) [
    | inl e ↦ simp (e, h) refl
    | inr e ↦ simp e refl
  ]

  -- Without a supervisor every datapath command is refused as a state conflict, and nothing is
  -- changed: the statistics, their reset, pausing and resuming.
  pub commands-conflict :
      (p : Plant W)
      → p.runtime.supervisor ≡ none
      → (datapath_stats_snapshot env p ≡ (raised (not_supervising env), p))
        × (reset_datapath_stats env p ≡ (raised (not_supervising env), p))
        × (pause_datapath env p ≡ (raised (not_supervising env), p))
        × (resume_datapath env p ≡ (raised (not_supervising env), p))
  unfolding datapath_stats_snapshot reset_datapath_stats pause_datapath resume_datapath
  commands-conflict p h =
      (simp (current_status-unmanaged p h, h) refl, rw h refl, rw h refl, rw h refl)
