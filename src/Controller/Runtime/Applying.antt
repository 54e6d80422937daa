-- ===== src/Controller/Runtime/Applying.antt =====
-- Applying a topology through the controller.
use pktlab.Base.{
  ◌≡◌, refl, ap, Bool, true, false, Option, none, some, String, arith, is_some, is_blank, ◌<>◌,
}
use mathlib.Core.Path.{◌∙◌}
use pktlab.Error.{Exn}
use pktlab.Effect.{Outcome, ok, raised, pure, raise, catch, handle, continue, ◌>>=◌, ◌>>◌}
use pktlab.Effect.Keeps.{Keeps, Keeps-lift, Keeps-if, Keeps-bind, Keeps-Post}
use pktlab.Effect.Triple.{Post, bind-Post}
use pktlab.State.Checks.{make_desired-IsDesired}
use pktlab.State.{
  ControllerStateValue, DesiredState, ObservedState, make_desired, make_observed,
  validate_optional_positive,
}
use pktlab.Types.{EffectiveDpdkRuntimeModel}
use pktlab.Config.{ValidatedTopologyConfig}
use pktlab.Process.{DatapathProcessStatus}
use pktlab.Topology.Manager.{Managed, TopologyOperationResult, on_plant}
use pktlab.Topology.Manager.Outcomes.{AfterApply, apply-current}
use pktlab.Controller.{ControllerRuntime, Plant, Env}
use pktlab.Controller.Health.{report, observed_from_datapath}
use pktlab.Controller.Health.Meaning.{recompute_controller_health_frame}
use pktlab.Controller.Parts.{
  OnPlant, plant_shell, manager_config, manager_apply, update, recompute, observe, observe_again,
  current_datapath_status, desired_state_without_topology,
}
use pktlab.Controller.Runtime.{record_failed_apply, fail_apply, record_applied, apply_topology}
use pktlab.Controller.Runtime.Frame.{IsSame, current_datapath_status-Keeps, manager_apply-Keeps}
use pktlab.Controller.Runtime.Destroying.{
  IsLive, IsSame-IsLive, runtime-Keeps, override-Keeps, observed-Keeps, recompute-Keeps,
  status-Keeps,
}

-- A controller that had the fields `r` and to which the topology `v` of `path` was applied.
pub record IsApplied {W : Type 0} (r : ControllerRuntime) (path : String) (name : String)
    (p : Plant W) : Type 0 where
  pub same_started : p.runtime.started ≡ r.started
  pub desired_path : p.runtime.desired_state.topology_config_path ≡ some path
  pub desired_name : p.runtime.desired_state.topology_name ≡ some name
  pub desired_running : p.runtime.desired_state.desired_datapath_running ≡ true
  pub observed : p.runtime.observed_state.topology_applied ≡ true

-- What the manager reports of a topology that it has applied.
record Reports (path : String) (name : String) (x : TopologyOperationResult) : Type 0 where
  applied : x.applied ≡ true
  of_path : x.config_path ≡ some path
  of_name : x.topology_name ≡ some name

observed_applied :
    (q : ControllerRuntime) (status : DatapathProcessStatus) (b : Bool)
    (e : Option EffectiveDpdkRuntimeModel) (o : ObservedState)
    → observed_from_datapath q status b e ≡ ok o
    → o.topology_applied ≡ b
unfolding observed_from_datapath make_observed validate_optional_positive
observed_applied q status b e o h = ground (arith, h)

module _ {W : Type 0} (env : Env W) (r : ControllerRuntime) (path : String) where
  -- The fields once the application has begun.
  abbrev begun : ControllerRuntime
  begun =
      report ControllerStateValue.reconciling ("applying topology from " <> path)
        (record r { controller_override_message = none })

  reset-Keeps :
      Keeps
        (IsLive {W = W} r)
        (update (λ q. record q { desired_state = desired_state_without_topology env q }))
  reset-Keeps = record { at = λ p h. record { live = h.live } }

  record_failed_apply-Keeps : (b : Bool) → Keeps (IsLive {W = W} r) (record_failed_apply env b path)
  unfolding record_failed_apply observe_again observe
  record_failed_apply-Keeps b =
      let a = runtime-Keeps env r in
      let c = override-Keeps env r in
      let d = observed-Keeps env r in
      let e = recompute-Keeps env r in
      let f = status-Keeps env r in search (Keeps-lift, Keeps-if, Keeps-bind, reset-Keeps) depth 20

  -- The manager has recorded and reported the topology, or the controller is as live as before.
  abbrev Halfway : Outcome TopologyOperationResult × Managed (Plant W) → Type 0
  Halfway x =
      Post
        (λ result s'.
          (v : ValidatedTopologyConfig) × (s'.current
            ≡ some (record { config_path = path; validated = v }))
          × Reports path v.topology.lab.name result
          × IsSame begun s'.plant)
        (λ _ s'. IsLive r s'.plant) x

  after_failure :
      (e : Exn) (s : Managed (Plant W)) → IsLive r s.plant → Halfway (fail_apply env path e s)
  after_failure e s h =
      go (record_failed_apply env (is_some s.current) path s.plant)
        ((record_failed_apply-Keeps (is_some s.current)).at s.plant h)
    where
      go :
          (x : Outcome (Unit {0}) × Plant W)
          → IsLive r x.1
          → Halfway (
              continue (λ _. raise {A = TopologyOperationResult} e) (x.0, record s { plant = x.1 }))
      go (ok _, p) l = l
      go (raised e', p) l = l

  after_manager :
      (before : Managed (Plant W)) (x : Outcome TopologyOperationResult × Managed (Plant W))
      → AfterApply env.chars (plant_shell env.shell) (manager_config env) path before x
      → IsSame begun x.1.plant
      → Halfway (handle (fail_apply env path) x)
  after_manager before (ok _, s) (v, loaded, c, a, p, n) h =
      (v, c, record { applied = a; of_path = p; of_name = n }, h)
  after_manager before (raised e, s) d h =
      after_failure e s (IsSame-IsLive env r begun s.plant refl h)

  -- The end of an application on the plant.
  abbrev Ends : String → Outcome (Unit {0}) × Plant W → Type 0
  Ends name x = Post (λ _ p'. IsApplied r path name p') (λ _ p'. IsLive r p') x

  -- What is desired of the applied topology.
  record Desires (name : String) (d : DesiredState) : Type 0 where
    of_path : d.topology_config_path ≡ some path
    of_name : d.topology_name ≡ some name
    running : d.desired_datapath_running ≡ true

  abbrev desiring : DesiredState → ControllerRuntime
  desiring d = record begun { desired_state = d }

  after_observing :
      (name : String) (d : DesiredState) (status : DatapathProcessStatus) (p : Plant W)
      → Desires name d
      → IsSame (desiring d) p
      → (x : Outcome ObservedState) → ((o : ObservedState) → x ≡ ok o → o.topology_applied ≡ true)
      → Ends name (
          continue
            (λ _. recompute status)
            (continue (λ observed. update (λ q. record q { observed_state = observed })) (x, p)))
  after_observing name d status p w h (raised e) k = IsSame-IsLive env r (desiring d) p refl h
  after_observing name d status p w h (ok o) k =
      let q = record p.runtime { observed_state = o } in
      let frame = recompute_controller_health_frame status q in
      let desired = ap (λ z. z.desired_state) frame ∙ ap (λ z. z.desired_state) h.same in
      record {
        same_started = ap (λ z. z.started) frame ∙ ap (λ z. z.started) h.same;
        desired_path = ap (λ z. z.topology_config_path) desired ∙ w.of_path;
        desired_name = ap (λ z. z.topology_name) desired ∙ w.of_name;
        desired_running = ap (λ z. z.desired_datapath_running) desired ∙ w.running;
        observed = ap (λ z. z.observed_state.topology_applied) frame ∙ k o refl;
      }

  abbrev with_desired : DesiredState → ControllerRuntime → ControllerRuntime
  with_desired d q = record q { desired_state = d }

  abbrev without_override : ControllerRuntime → ControllerRuntime
  without_override q = record q { controller_override_message = none }

  -- The part of `record_applied` after the new desired state.
  abbrev observe_applied : TopologyOperationResult → OnPlant W Unit
  observe_applied result = current_datapath_status env >>= λ status.
      observe env status result.applied result.effective_dpdk_config >> recompute status

  observe_applied-IsApplied :
      (name : String) (result : TopologyOperationResult) (d : DesiredState) (p : Plant W)
      → result.applied ≡ true
      → Desires name d
      → IsSame (desiring d) p
      → Ends name (observe_applied result p)
  unfolding observe
  observe_applied-IsApplied name result d p applied w h =
      bind-Post (λ _ p'. IsApplied r path name p') (λ _ p'. IsLive r p')
        (λ _ p'. IsSame (desiring d) p') (current_datapath_status env)
        (λ status.
          observe env status result.applied result.effective_dpdk_config >> recompute status)
        p
        (halfway (current_datapath_status env p) (
          Keeps-Post (current_datapath_status env) p
            (current_datapath_status-Keeps env (desiring d)) h))
        (λ status p' same.
          after_observing name d status p' w same
            (observed_from_datapath p'.runtime status result.applied result.effective_dpdk_config)
            (λ o e.
              observed_applied p'.runtime status result.applied result.effective_dpdk_config o e
              ∙ applied))
    where
      halfway :
          (x : Outcome DatapathProcessStatus × Plant W)
          → Post (λ _ p'. IsSame (desiring d) p') (λ _ p'. IsSame (desiring d) p') x
          → Post (λ _ p'. IsSame (desiring d) p') (λ _ p'. IsLive r p') x
      halfway (ok a, p') same = same
      halfway (raised e, p') same = IsSame-IsLive env r (desiring d) p' refl same

  after_desired :
      (name : String) (result : TopologyOperationResult) (p : Plant W)
      → result.applied ≡ true
      → IsSame begun p
      → (x : Outcome DesiredState) → ((d : DesiredState) → x ≡ ok d → Desires name d)
      → Ends name (
          continue
            (λ desired.
              update (λ q. record q { desired_state = desired }) >> observe_applied result)
            (x, p))
  after_desired name result p applied h (raised e) k = IsSame-IsLive env r begun p refl h
  after_desired name result p applied h (ok d) k =
      observe_applied-IsApplied name result d
        (record p { runtime = record p.runtime { desired_state = d } }) applied (k d refl)
        (record { same = ap (with_desired d) h.same })

  record_applied-IsApplied :
      (name : String) (result : TopologyOperationResult) (p : Plant W)
      → Reports path name result
      → IsSame begun p
      → Ends name (record_applied env result p)
  unfolding record_applied
  record_applied-IsApplied name result p m h =
      after_desired name result
        (record p { runtime = record p.runtime { controller_override_message = none } }) m.applied
        (record { same = ap without_override h.same }) (make_desired env.chars _)
        (λ d e.
          let same = (make_desired-IsDesired env.chars _ d e).same in
          record {
            of_path = ap (λ z. z.topology_config_path) same ∙ m.of_path;
            of_name = ap (λ z. z.topology_name) same ∙ m.of_name;
            running = ap (λ z. z.desired_datapath_running) same ∙ m.applied;
          })

  -- The end of `apply_topology`.
  abbrev pub Finishes : Outcome TopologyOperationResult × Managed (Plant W) → Type 0
  Finishes x =
      Post
        (λ _ s'.
          (v : ValidatedTopologyConfig) × (s'.current
            ≡ some (record { config_path = path; validated = v }))
          × IsApplied r path v.topology.lab.name s'.plant)
        (λ _ s'. IsLive r s'.plant) x

  finish :
      (result : TopologyOperationResult) (s : Managed (Plant W)) (v : ValidatedTopologyConfig)
      → s.current ≡ some (record { config_path = path; validated = v })
      → (x : Outcome (Unit {0}) × Plant W) → Ends v.topology.lab.name x
      → Finishes (continue (λ _. pure result) (x.0, record s { plant = x.1 }))
  finish result s v c (ok _, p) h = (v, c, h)
  finish result s v c (raised e, p) h = h

-- Applying a topology through the controller either returns with it recorded by the manager, desired
-- with its path and name and a running datapath, and observed, or raises; in both cases the
-- controller is started exactly if it was before.
pub apply_topology-IsApplied :
    {W : Type 0} (env : Env W) (path : String) (s : Managed (Plant W))
    → is_blank env.chars path ≡ false
    → Finishes env s.plant.runtime path (apply_topology env path s)
unfolding apply_topology
apply_topology-IsApplied {W} env path s text =
    let r = s.plant.runtime in
    let s1 : Managed (Plant W) = record s {
      plant = record s.plant { runtime = begun env r path };
    } in
    rw text (
      bind-Post
        (λ _ s'.
          (v : ValidatedTopologyConfig) × (s'.current
            ≡ some (record { config_path = path; validated = v }))
          × IsApplied r path v.topology.lab.name s'.plant)
        (λ _ s'. IsLive r s'.plant)
        (λ result s'.
          (v : ValidatedTopologyConfig) × (s'.current
            ≡ some (record { config_path = path; validated = v }))
          × Reports path v.topology.lab.name result
          × IsSame (begun env r path) s'.plant)
        (catch (manager_apply env path) (fail_apply env path))
        (λ result. on_plant (record_applied env result) >> pure result) s1
        (after_manager env r path s1 (manager_apply env path s1)
          (apply-current env.chars (plant_shell env.shell) (manager_config env) path s1)
          ((manager_apply-Keeps env (begun env r path) path).at s1 (record { same = refl })))
        (λ result s2 (v, c, m, h).
          finish env r path result s2 v c (record_applied env result s2.plant)
            (record_applied-IsApplied env r path v.topology.lab.name result s2.plant m h)))
