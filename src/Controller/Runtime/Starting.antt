-- ===== src/Controller/Runtime/Starting.antt =====
-- The start of the controller.
use pktlab.Base.{◌≡◌, refl, sym, ap, Bool, true, false, none, if◌then◌else◌, ◌⊎◌, inl, inr}
use mathlib.Core.Path.{subst, ◌∙◌}
use pktlab.Effect.{Outcome, ok, raised, pure, continue, ◌>>=◌, ◌>>◌}
use pktlab.Effect.Keeps.{Keeps, Keeps-on_option, Keeps-pure, Keeps-Post}
use pktlab.Effect.Triple.{Post, bind-Post}
use pktlab.State.{ControllerStateValue, ObservedState, plain_desired}
use pktlab.Process.{DatapathProcessStatus}
use pktlab.Controller.{ControllerRuntime, Plant, Env}
use pktlab.Controller.Health.{
  report, recompute_controller_health, observed_from_datapath, unmanaged_datapath_status,
}
use pktlab.Controller.Health.Meaning.{
  is_healthy, recompute_controller_health-state, recompute_controller_health_frame,
}
use pktlab.Controller.Parts.{
  OnPlant, update, recompute, on_supervisor, sup_start, observe, observe_again,
}
use pktlab.Controller.Runtime.{start_supervisor, start}
use pktlab.Controller.Runtime.Frame.{IsSame, on_supervisor-Keeps}

-- What holds of the fields once a controller with the fields `r` has been started.
pub record IsStarted {W : Type 0} (r : ControllerRuntime) (p : Plant W) : Type 0 where
  pub started : p.runtime.started ≡ true
  pub desired :
      p.runtime.desired_state
      ≡ plain_desired ControllerStateValue.running r.config.supervise_datapath
  pub reported :
      (p.runtime.controller_state ≡ ControllerStateValue.running)
      ⊎ (p.runtime.controller_state ≡ ControllerStateValue.degraded)

-- What holds once a start has failed.
pub record IsUnstarted {W : Type 0} (r : ControllerRuntime) (p : Plant W) : Type 0 where
  pub still : p.runtime.started ≡ r.started
  pub starting : p.runtime.controller_state ≡ ControllerStateValue.starting
  pub same_observed : p.runtime.observed_state ≡ r.observed_state

if_running :
    (b : Bool) (c : ControllerStateValue)
    → c ≡ (if b then ControllerStateValue.running else ControllerStateValue.degraded)
    → (c ≡ ControllerStateValue.running) ⊎ (c ≡ ControllerStateValue.degraded)
if_running true c h = inl h
if_running false c h = inr h

module _ {W : Type 0} (env : Env W) where
  -- The fields of `r` once its start has begun.
  abbrev begun : ControllerRuntime → ControllerRuntime
  begun r =
      record (report ControllerStateValue.starting "starting controller runtime"
        (record r { controller_override_message = none })) {
          desired_state = plain_desired ControllerStateValue.running r.config.supervise_datapath;
        }

  start_supervisor-Keeps : (r : ControllerRuntime) → Keeps (IsSame r) (start_supervisor env)
  start_supervisor-Keeps r = record {
    at = λ p h.
        (Keeps-on_option p.runtime.supervisor (pure (unmanaged_datapath_status p.runtime))
            (λ s. on_supervisor s (sup_start env))
            (Keeps-pure (unmanaged_datapath_status p.runtime))
            (λ s. on_supervisor-Keeps r s (sup_start env))).at
          p h;
  }

  abbrev Ends : ControllerRuntime → Outcome (Unit {0}) × Plant W → Type 0
  Ends r x = Post (λ _ p'. IsStarted r p') (λ _ p'. IsUnstarted r p') x

  abbrev rest_of_start : DatapathProcessStatus → OnPlant W Unit
  rest_of_start status = update (λ q. record q { started = true }) >> recompute status

  after_observing :
      (r : ControllerRuntime) (status : DatapathProcessStatus) (p : Plant W)
      → IsSame (begun r) p
      → (x : Outcome ObservedState)
      → Ends r (
          continue
            (λ _. rest_of_start status)
            (continue (λ observed. update (λ q. record q { observed_state = observed })) (x, p)))
  after_observing r status p h (raised e) = record {
    still = ap (λ q. q.started) h.same;
    starting = ap (λ q. q.controller_state) h.same;
    same_observed = ap (λ q. q.observed_state) h.same;
  }
  after_observing r status p h (ok o) =
      let q = record p.runtime { observed_state = o; started = true } in
      let frame = recompute_controller_health_frame status q in
      record {
        started = ap (λ z. z.started) frame;
        desired = ap (λ z. z.desired_state) frame ∙ ap (λ z. z.desired_state) h.same;
        reported =
            if_running (is_healthy status q) (recompute_controller_health status q).controller_state
              (recompute_controller_health-state status q refl);
      }

  -- Starting a controller that is not started either returns with it started, running or degraded,
  -- and with a running controller as what is desired, or raises and leaves it not started, in the
  -- state "starting", with what is observed unchanged.
  pub start-IsStarted :
      (p : Plant W)
      → p.runtime.started ≡ false
      → Post {A = Unit}
          (λ _ p'. IsStarted p.runtime p')
          (λ _ p'. IsUnstarted p.runtime p')
          (start env p)
  unfolding start observe_again observe
  start-IsStarted p h =
      let r = p.runtime in
      let p1 : Plant W = record p { runtime = begun r } in
      let rest =
        λ (status : DatapathProcessStatus). observe_again env status >> rest_of_start status in
      subst (λ b. Ends r (if b then (ok tt, p) else (start_supervisor env >>= rest) p1)) (sym h)
        (bind-Post (λ _ p'. IsStarted r p') (λ _ p'. IsUnstarted r p') (λ _ p'. IsSame (begun r) p')
          (start_supervisor env) rest p1
          (failed r (start_supervisor env p1) (
            Keeps-Post (start_supervisor env) p1 (start_supervisor-Keeps (begun r))
              (record { same = refl })))
          (λ status p' same. after_observing r status p' same (
            observed_from_datapath p'.runtime status p'.runtime.observed_state.topology_applied
              p'.runtime.observed_state.effective_dpdk_config)))
    where
      failed :
          (r : ControllerRuntime) (x : Outcome DatapathProcessStatus × Plant W)
          → Post (λ _ p'. IsSame (begun r) p') (λ _ p'. IsSame (begun r) p') x
          → Post (λ _ p'. IsSame (begun r) p') (λ _ p'. IsUnstarted r p') x
      failed r (ok s, p') same = same
      failed r (raised e, p') same = record {
        still = ap (λ q. q.started) same.same;
        starting = ap (λ q. q.controller_state) same.same;
        same_observed = ap (λ q. q.observed_state) same.same;
      }
