-- ===== src/Controller/Runtime/Destroying.antt =====
-- Destroying a topology through the controller.
use pktlab.Base.{◌≡◌, refl, ap, false, Option, none, if◌then◌else◌, String, arith}
use mathlib.Core.Path.{◌∙◌}
use pktlab.Error.{Exn}
use pktlab.Effect.{Outcome, ok, raised, pure, raise, catch, handle, continue, ◌>>◌}
use pktlab.Effect.Keeps.{Keeps, Keeps-lift, Keeps-bind, Keeps-Post}
use pktlab.Effect.Triple.{Post, bind-Post}
use pktlab.State.{
  ControllerStateValue, ObservedState, plain_desired, make_observed, validate_optional_positive,
}
use pktlab.Process.{DatapathProcessStatus}
use pktlab.Topology.Manager.{Managed, AppliedTopology, TopologyOperationResult, on_plant}
use pktlab.Topology.Manager.Teardown.{AfterDestroy, destroy-current}
use pktlab.Controller.{ControllerRuntime, Plant, Env}
use pktlab.Controller.Health.{report, observed_from_datapath}
use pktlab.Controller.Health.Meaning.{recompute_controller_health_frame}
use pktlab.Controller.Parts.{
  OnPlant, plant_shell, manager_config, manager_destroy, update, recompute, override, observe,
  observe_again, current_datapath_status, stop_topology_datapath, desired_state_without_topology,
  runtime,
}
use pktlab.Controller.Runtime.{
  record_failed_destroy, fail_destroy, record_destroyed, destroy_topology,
}
use pktlab.Controller.Runtime.Frame.{
  IsSame, current_datapath_status-Keeps, stop_topology_datapath-Keeps, manager_destroy-Keeps,
}

-- A controller that had the fields `r` and from which its topology was taken: it desires none and
-- observes none, and is started exactly if it was before.
pub record IsCleared {W : Type 0} (r : ControllerRuntime) (p : Plant W) : Type 0 where
  pub same_started : p.runtime.started ≡ r.started
  pub desired :
      p.runtime.desired_state
      ≡ plain_desired
          (if r.started then ControllerStateValue.running else ControllerStateValue.stopped)
          false
  pub observed : p.runtime.observed_state.topology_applied ≡ false

-- A plant whose controller is started exactly if it was before.
pub record IsLive {W : Type 0} (r : ControllerRuntime) (p : Plant W) : Type 0 where
  pub live : p.runtime.started ≡ r.started

module _ {W : Type 0} (env : Env W) (r : ControllerRuntime) where
  -- The fields once the destruction has begun.
  abbrev begun : ControllerRuntime
  begun =
      report ControllerStateValue.reconciling "destroying topology"
        (record r { controller_override_message = none })

  -- The fields once the datapath has been stopped.
  abbrev cleared : ControllerRuntime
  cleared = record begun { desired_state = desired_state_without_topology env begun }

  -- The topology is gone and the fields are those of `begun`, or the controller is as live as before.
  abbrev Halfway : {A : Type 0} → Outcome A × Managed (Plant W) → Type 0
  Halfway x =
      Post (λ _ s'. (s'.current ≡ none) × IsSame begun s'.plant) (λ _ s'. IsLive r s'.plant) x

  pub IsSame-IsLive :
      (q : ControllerRuntime) (p : Plant W) → q.started ≡ r.started → IsSame q p → IsLive r p
  IsSame-IsLive q p e h = record { live = ap (λ z. z.started) h.same ∙ e }

  pub IsLive-Keeps :
      {A : Type 0} (m : OnPlant W A)
      → ((q : ControllerRuntime) → Keeps (IsSame q) m)
      → Keeps (IsLive {W = W} r) m
  IsLive-Keeps m k = record {
    at =
        λ p h. IsSame-IsLive p.runtime (m p).1 h.live ((k p.runtime).at p (record { same = refl }));
  }

  pub runtime-Keeps : Keeps (IsLive {W = W} r) runtime
  runtime-Keeps = record { at = λ p h. h }

  pub override-Keeps : (m : String) → Keeps (IsLive {W = W} r) (override m)
  override-Keeps m = record { at = λ p h. record { live = h.live } }

  pub observed-Keeps :
      (o : ObservedState) → Keeps (IsLive {W = W} r) (update (λ q. record q { observed_state = o }))
  observed-Keeps o = record { at = λ p h. record { live = h.live } }

  pub recompute-Keeps :
      (status : DatapathProcessStatus) → Keeps (IsLive {W = W} r) (recompute status)
  recompute-Keeps status = record {
    at = λ p h. record {
      live = ap (λ z. z.started) (recompute_controller_health_frame status p.runtime) ∙ h.live;
    };
  }

  pub status-Keeps : Keeps (IsLive {W = W} r) (current_datapath_status env)
  status-Keeps =
      IsLive-Keeps (current_datapath_status env) (λ q. current_datapath_status-Keeps env q)

  record_failed_destroy-Keeps : Keeps (IsLive {W = W} r) (record_failed_destroy env)
  unfolding record_failed_destroy observe_again observe
  record_failed_destroy-Keeps =
      search
        (
          Keeps-lift, Keeps-bind, runtime-Keeps, override-Keeps, observed-Keeps, recompute-Keeps,
          status-Keeps,
        )
        depth 20

  after_failure :
      (e : Exn) (s : Managed (Plant W)) → IsLive r s.plant → Halfway (fail_destroy env e s)
  after_failure e s h =
      go (record_failed_destroy env s.plant) (record_failed_destroy-Keeps.at s.plant h)
    where
      go :
          (x : Outcome (Unit {0}) × Plant W)
          → IsLive r x.1
          → Halfway (
              continue (λ _. raise {A = TopologyOperationResult} e) (x.0, record s { plant = x.1 }))
      go (ok _, p) l = l
      go (raised e', p) l = l

  after_manager :
      (before : Option AppliedTopology) (x : Outcome TopologyOperationResult × Managed (Plant W))
      → AfterDestroy env.chars (plant_shell env.shell) (manager_config env) before x
      → IsSame begun x.1.plant
      → Halfway (handle (fail_destroy env) x)
  after_manager before (ok _, s) d h = (d.0, h)
  after_manager before (raised e, s) d h = after_failure e s (IsSame-IsLive begun s.plant refl h)

  after_stop :
      (s : Managed (Plant W))
      → s.current ≡ none
      → IsSame begun s.plant
      → Halfway (on_plant (stop_topology_datapath env) s)
  after_stop s n h =
      go (stop_topology_datapath env s.plant)
        ((stop_topology_datapath-Keeps env begun).at s.plant h)
    where
      go :
          (x : Outcome (Unit {0}) × Plant W)
          → IsSame begun x.1
          → Halfway (x.0, record s { plant = x.1 })
      go (ok _, p) h' = (n, h')
      go (raised e, p) h' = IsSame-IsLive begun p refl h'

  -- The end of a destruction.
  abbrev Ends : {A : Type 0} → Outcome A × Plant W → Type 0
  Ends x = Post (λ _ p'. IsCleared r p') (λ _ p'. IsLive r p') x

  after_observing :
      (status : DatapathProcessStatus) (p : Plant W)
      → IsSame cleared p
      → (x : Outcome ObservedState) → ((o : ObservedState) → x ≡ ok o → o.topology_applied ≡ false)
      → Ends (
          continue
            (λ _. recompute status)
            (continue (λ observed. update (λ q. record q { observed_state = observed })) (x, p)))
  after_observing status p h (raised e) k = IsSame-IsLive cleared p refl h
  after_observing status p h (ok o) k =
      let q = record p.runtime { observed_state = o } in
      let frame = recompute_controller_health_frame status q in
      record {
        same_started = ap (λ z. z.started) frame ∙ ap (λ z. z.started) h.same;
        desired = ap (λ z. z.desired_state) frame ∙ ap (λ z. z.desired_state) h.same;
        observed = ap (λ z. z.observed_state.topology_applied) frame ∙ k o refl;
      }

  topology_not_applied :
      (q : ControllerRuntime) (status : DatapathProcessStatus) (o : ObservedState)
      → observed_from_datapath q status false none ≡ ok o
      → o.topology_applied ≡ false
  unfolding observed_from_datapath make_observed validate_optional_positive
  topology_not_applied q status o h = ground (arith, h)

  abbrev clear_fields : ControllerRuntime → ControllerRuntime
  clear_fields q =
      let q' = record q { controller_override_message = none } in
      record q' { desired_state = desired_state_without_topology env q' }

  record_destroyed-IsCleared : (p : Plant W) → IsSame begun p → Ends (record_destroyed env p)
  unfolding record_destroyed observe
  record_destroyed-IsCleared p h =
      let p1 : Plant W = record p { runtime = clear_fields p.runtime } in
      let rest =
        λ (status : DatapathProcessStatus). observe env status false none >> recompute status in
      bind-Post (λ _ p'. IsCleared r p') (λ _ p'. IsLive r p') (λ _ p'. IsSame cleared p')
        (current_datapath_status env) rest p1
        (halfway (current_datapath_status env p1) (
          Keeps-Post (current_datapath_status env) p1 (current_datapath_status-Keeps env cleared)
            (record { same = ap clear_fields h.same })))
        (λ status p' same.
          after_observing status p' same (observed_from_datapath p'.runtime status false none)
            (topology_not_applied p'.runtime status))
    where
      halfway :
          (x : Outcome DatapathProcessStatus × Plant W)
          → Post (λ _ p'. IsSame cleared p') (λ _ p'. IsSame cleared p') x
          → Post (λ _ p'. IsSame cleared p') (λ _ p'. IsLive r p') x
      halfway (ok a, p') same = same
      halfway (raised e, p') same = IsSame-IsLive cleared p' refl same

  -- The end of `destroy_topology`.
  abbrev Finishes : Outcome TopologyOperationResult × Managed (Plant W) → Type 0
  Finishes x =
      Post (λ _ s'. (s'.current ≡ none) × IsCleared r s'.plant) (λ _ s'. IsLive r s'.plant) x

  finish :
      (result : TopologyOperationResult) (s : Managed (Plant W))
      → s.current ≡ none
      → (x : Outcome (Unit {0}) × Plant W) → Ends x
      → Finishes (continue (λ _. pure result) (x.0, record s { plant = x.1 }))
  finish result s n (ok _, p) h = (n, h)
  finish result s n (raised e, p) h = h

-- Destroying the topology of the controller either returns with no topology recorded, desired or
-- observed, or raises; in both cases the controller is started exactly if it was before.
pub destroy_topology-IsCleared :
    {W : Type 0} (env : Env W) (s : Managed (Plant W))
    → Post
        (λ _ s'. (s'.current ≡ none) × IsCleared s.plant.runtime s'.plant)
        (λ _ s'. IsLive s.plant.runtime s'.plant)
        (destroy_topology env s)
unfolding destroy_topology
destroy_topology-IsCleared {W} env s =
    let r = s.plant.runtime in
    let Q = λ (_ : TopologyOperationResult) (s' : Managed (Plant W)).
      (s'.current ≡ none) × IsCleared r s'.plant in
    let E = λ (_ : Exn) (s' : Managed (Plant W)). IsLive r s'.plant in
    let s1 : Managed (Plant W) = record s { plant = record s.plant { runtime = begun env r } } in
    let half = λ (s' : Managed (Plant W)). (s'.current ≡ none) × IsSame (begun env r) s'.plant in
    bind-Post Q E (λ _ s'. half s') (catch (manager_destroy env) (fail_destroy env))
      (λ result.
        on_plant (stop_topology_datapath env) >> (on_plant (record_destroyed env) >> pure result))
      s1
      (after_manager env r s.current (manager_destroy env s1)
        (destroy-current env.chars (plant_shell env.shell) (manager_config env) s1)
        ((manager_destroy-Keeps env (begun env r)).at s1 (record { same = refl })))
      (λ result s2 h2.
        bind-Post Q E (λ _ s'. half s') (on_plant (stop_topology_datapath env))
          (λ _. on_plant (record_destroyed env) >> pure result) s2 (after_stop env r s2 h2.0 h2.1)
          (λ _ s3 h3.
            finish env r result s3 h3.0 (record_destroyed env s3.plant)
              (record_destroyed-IsCleared env r s3.plant h3.1)))
