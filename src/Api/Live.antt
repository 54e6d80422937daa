-- ===== src/Api/Live.antt =====
-- The snapshots and datapath commands leave the controller started exactly if it was before.
use pktlab.Effect.{raise}
use pktlab.Effect.Keeps.{
  Keeps, Keeps-pure, Keeps-raise, Keeps-lift, Keeps-if, Keeps-bind, Keeps-on_option,
}
use pktlab.Ipc.{CommandResult, AckPayload}
use pktlab.Process.Supervisor
use pktlab.Process.Supervisor.{Method}
use pktlab.Process.{DatapathProcessStatus}
use pktlab.Controller.{ControllerRuntime, Env}
use pktlab.Controller.Parts.{on_supervisor, observe, observe_again}
use pktlab.Controller.Runtime.Frame.{on_supervisor-Keeps}
use pktlab.Controller.Runtime.Destroying.{
  IsLive, IsLive-Keeps, runtime-Keeps, observed-Keeps, recompute-Keeps, status-Keeps,
}
use pktlab.Controller.Commands.{
  command, payload_of, demand_ok, not_supervising, health_snapshot, datapath_status_snapshot,
  datapath_stats_snapshot, reset_datapath_stats, run_datapath_control_command, pause_datapath,
  resume_datapath,
}

module _ {W : Type 0} (env : Env W) (r : ControllerRuntime) where
  command-Keeps :
      {P : Type 0} (m : Method W (CommandResult P)) → Keeps (IsLive {W = W} r) (command env m)
  command-Keeps m = IsLive-Keeps env r (command env m) λ q. record {
    at = λ p h.
        (Keeps-on_option p.runtime.supervisor (raise (not_supervising env)) (λ s. on_supervisor s m)
            (Keeps-raise (not_supervising env)) (λ s. on_supervisor-Keeps q s m)).at
          p h;
  }

  payload_of-Keeps :
      {P : Type 0} (result : CommandResult P) → Keeps (IsLive {W = W} r) (payload_of env result)
  unfolding payload_of
  payload_of-Keeps result = search (Keeps-lift, Keeps-raise, Keeps-on_option)

  demand_ok-Keeps :
      {P : Type 0} (result : CommandResult P) → Keeps (IsLive {W = W} r) (demand_ok env result)
  demand_ok-Keeps result = search (Keeps-pure, Keeps-raise, Keeps-on_option)

  observe_again-Keeps :
      (status : DatapathProcessStatus) → Keeps (IsLive {W = W} r) (observe_again env status)
  unfolding observe_again observe
  observe_again-Keeps status =
      let a = runtime-Keeps env r in
      let b = observed-Keeps env r in search (Keeps-lift, Keeps-bind) depth 20

  pub health_snapshot-Keeps : Keeps (IsLive {W = W} r) (health_snapshot env)
  unfolding health_snapshot
  health_snapshot-Keeps =
      let a = runtime-Keeps env r in
      let b = status-Keeps env r in
      let c = recompute-Keeps env r in
      search (Keeps-pure, Keeps-if, Keeps-bind, observe_again-Keeps) depth 20

  pub status_snapshot-Keeps : Keeps (IsLive {W = W} r) (datapath_status_snapshot env)
  unfolding datapath_status_snapshot
  status_snapshot-Keeps =
      let a = runtime-Keeps env r in
      let b = health_snapshot-Keeps in
      search (Keeps-pure, Keeps-if, Keeps-bind, command-Keeps, payload_of-Keeps) depth 20

  pub stats_snapshot-Keeps : Keeps (IsLive {W = W} r) (datapath_stats_snapshot env)
  unfolding datapath_stats_snapshot
  stats_snapshot-Keeps =
      let b = status-Keeps env r in
      search (Keeps-pure, Keeps-bind, command-Keeps, payload_of-Keeps) depth 20

  pub reset-Keeps : Keeps (IsLive {W = W} r) (reset_datapath_stats env)
  unfolding reset_datapath_stats
  reset-Keeps =
      let b = status-Keeps env r in
      search (Keeps-pure, Keeps-lift, Keeps-bind, command-Keeps, payload_of-Keeps, demand_ok-Keeps)
        depth 20

  control-Keeps :
      (m : Method W (CommandResult AckPayload))
      → Keeps (IsLive {W = W} r) (run_datapath_control_command env m)
  unfolding run_datapath_control_command
  control-Keeps m =
      let b = status-Keeps env r in
      let c = recompute-Keeps env r in
      search
        (Keeps-pure, Keeps-lift, Keeps-bind, command-Keeps, observe_again-Keeps, demand_ok-Keeps)
        depth 20

  pub pause-Keeps : Keeps (IsLive {W = W} r) (pause_datapath env)
  unfolding pause_datapath
  pause-Keeps =
      control-Keeps
        (Supervisor.pause_datapath env.chars env.shell env.processes env.sockets env.codec)

  pub resume-Keeps : Keeps (IsLive {W = W} r) (resume_datapath env)
  unfolding resume_datapath
  resume-Keeps =
      control-Keeps
        (Supervisor.resume_datapath env.chars env.shell env.processes env.sockets env.codec)
