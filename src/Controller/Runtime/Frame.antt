-- ===== src/Controller/Runtime/Frame.antt =====
-- What the topology manager changes of the controller's fields.
use pktlab.Base.{String, ◌≡◌, Option, none, on_option}
use pktlab.Effect.{Action, pure}
use pktlab.Effect.Keeps.{
  Keeps, Keeps-pure, Keeps-raise, Keeps-lift, Keeps-if, Keeps-catch, Keeps-bind, Keeps-on_option,
}
use pktlab.Config.{ValidatedTopologyConfig}
use pktlab.Process.{DpdkdSupervisor}
use pktlab.Process.Supervisor.{Method}
use pktlab.Topology.Frame.{ShellKeeps}
use pktlab.Topology.Manager.{Managed}
use pktlab.Topology.Manager.Frame.{CallbacksKeep, apply-Keeps, destroy-Keeps}
use pktlab.Controller.{ControllerRuntime, Plant, Env}
use pktlab.Controller.Health.{unmanaged_datapath_status}
use pktlab.Controller.Parts.{
  plant_shell, runtime, update, on_supervisor, on_world, stop_topology_datapath, replace_supervisor,
  start_topology_datapath, manager_config, manager_apply, manager_destroy, sup_stop,
  current_datapath_status, sup_status,
}

-- The controller's fields without the supervisor.
abbrev pub blind : ControllerRuntime → ControllerRuntime
blind r = record r { supervisor = none }

-- The fields of the plant are those of `r`, but for the supervisor.
pub record IsSame {W : Type 0} (r : ControllerRuntime) (p : Plant W) : Type 0 where
  pub same : blind p.runtime ≡ blind r

module _ {W : Type 0} (r : ControllerRuntime) where
  runtime-Keeps : Keeps {W = Plant W} (IsSame r) runtime
  runtime-Keeps = record { at = λ p h. h }

  on_world-Keeps : {A : Type 0} (m : Action W A) → Keeps (IsSame r) (on_world m)
  on_world-Keeps m = record { at = λ p h. record { same = h.same } }

  pub on_supervisor-Keeps :
      {A : Type 0} (s : DpdkdSupervisor) (m : Method W A) → Keeps (IsSame r) (on_supervisor s m)
  on_supervisor-Keeps s m = record { at = λ p h. record { same = h.same } }

  set_supervisor-Keeps :
      (o : Option DpdkdSupervisor)
      → Keeps {W = Plant W} (IsSame r) (update (λ q. record q { supervisor = o }))
  set_supervisor-Keeps o = record { at = λ p h. record { same = h.same } }

ruleset rules = (
  Keeps-pure, Keeps-raise, Keeps-lift, Keeps-if, Keeps-catch, Keeps-bind, Keeps-on_option,
  runtime-Keeps, on_world-Keeps, on_supervisor-Keeps, set_supervisor-Keeps,
)

module _ {W : Type 0} (env : Env W) (r : ControllerRuntime) where
  pub stop_topology_datapath-Keeps : Keeps (IsSame r) (stop_topology_datapath env)
  unfolding stop_topology_datapath
  stop_topology_datapath-Keeps = record {
    at = λ p h.
        (Keeps-on_option p.runtime.supervisor (pure tt) (λ s. on_supervisor s (sup_stop env))
            (Keeps-pure tt) (λ s. on_supervisor-Keeps r s (sup_stop env))).at
          p h;
  }

  pub current_datapath_status-Keeps : Keeps (IsSame r) (current_datapath_status env)
  unfolding current_datapath_status
  current_datapath_status-Keeps = record {
    at = λ p h.
        (Keeps-if p.runtime.started
            (on_option p.runtime.supervisor (pure (unmanaged_datapath_status p.runtime))
              (λ s. on_supervisor s (sup_status env)))
            (pure (unmanaged_datapath_status p.runtime))
            (Keeps-on_option p.runtime.supervisor (pure (unmanaged_datapath_status p.runtime))
              (λ s. on_supervisor s (sup_status env))
              (Keeps-pure (unmanaged_datapath_status p.runtime))
              (λ s. on_supervisor-Keeps r s (sup_status env)))
            (Keeps-pure (unmanaged_datapath_status p.runtime))).at
          p h;
  }

  replace_supervisor-Keeps :
      (v : ValidatedTopologyConfig) → Keeps (IsSame r) (replace_supervisor env v)
  unfolding replace_supervisor
  replace_supervisor-Keeps v = search rules depth 20

  start_topology_datapath-Keeps :
      (v : ValidatedTopologyConfig) → Keeps (IsSame r) (start_topology_datapath env v)
  unfolding start_topology_datapath
  start_topology_datapath-Keeps v =
      let a = stop_topology_datapath-Keeps in
      let b = replace_supervisor-Keeps v in search rules depth 20

  shell-Keeps : ShellKeeps (IsSame r) (plant_shell env.shell)
  shell-Keeps = record {
    commands = λ argv. record { at = λ p h. record { same = h.same } };
    clock = λ p h. record { same = h.same };
    sleeping = λ n p h. record { same = h.same };
  }

  callbacks-Keep : CallbacksKeep (IsSame r) (manager_config env)
  callbacks-Keep = record {
    loading = λ path. on_world-Keeps r (env.load_topology path);
    starting = λ v. start_topology_datapath-Keeps v;
    stopping = stop_topology_datapath-Keeps;
  }

  -- Whether it returns or raises, applying a topology changes no field of the controller but its
  -- supervisor.
  pub manager_apply-Keeps :
      (path : String) → Keeps (λ (s : Managed (Plant W)). IsSame r s.plant) (manager_apply env path)
  manager_apply-Keeps path =
      apply-Keeps (IsSame r) env.chars (plant_shell env.shell) (manager_config env) shell-Keeps
        callbacks-Keep path

  pub manager_destroy-Keeps :
      Keeps (λ (s : Managed (Plant W)). IsSame r s.plant) (manager_destroy env)
  manager_destroy-Keeps =
      destroy-Keeps (IsSame r) env.chars (plant_shell env.shell) (manager_config env) shell-Keeps
        callbacks-Keep
