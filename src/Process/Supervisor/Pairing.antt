-- ===== src/Process/Supervisor/Pairing.antt =====
-- The supervisor's invariant: it has a client exactly while it has a process, for its own socket.
use pktlab.Base.{ℕ, zero, suc, String, ◌≡◌, refl, Bool, true, Option, none, some, ℤ, CharTable}
use pktlab.Error.{Exn, typed, PktlabError, ErrorClass}
use pktlab.Effect.{Action}
use pktlab.Effect.Keeps.{
  Keeps, Keeps-on_option, Keeps-pure, Keeps-raise, Keeps-lift, Keeps-if, Keeps-catch, Keeps-bind,
}
use pktlab.Util.{Shell}
use pktlab.Ipc.{CommandResult, Codec, Sockets, HealthStateModel, VersionPayload}
use pktlab.Ipc.Client.{
  DpdkClient, client_get_ports, client_get_stats, client_reset_stats, client_pause_datapath,
  client_resume_datapath,
}
use pktlab.Process.{SupervisorConfig, DatapathProcessStatus, Processes, DpdkdSupervisor, Supervised}
use pktlab.Process.Fields.{
  clear, set_last_error, set_last_health, set_ready, set_exit, detach, attach,
}
use pktlab.Process.Supervisor.{
  Method, on_world, update, this, on_class, on_transport_error, require_client, demand,
  refresh_ipc_state, status_of, status, when_reachable, stop_locked, stop, try_ready, ready_loop,
  wait_for_ready, spawn, is_alive, start, get_ports, get_stats, reset_stats, pause_datapath,
  resume_datapath,
}

abbrev Paired : SupervisorConfig → Option ℕ → Option DpdkClient → Type 0
Paired c none none = Unit
Paired c (some p) (some client) = client.socket_path ≡ c.socket_path
Paired c _ _ = ⊥

-- A process comes with a client for the configured socket, and no process with no client.
pub record IsPaired {W : Type 0} (s : Supervised W) : Type 0 where
  pub paired : Paired s.config s.process s.client

-- An assignment that keeps the pairing.
record Respects (f : DpdkdSupervisor → DpdkdSupervisor) : Type 0 where
  respects :
      (s : DpdkdSupervisor)
      → Paired s.config s.process s.client
      → Paired (f s).config (f s).process (f s).client

clear-Respects : Respects clear
unfolding clear
clear-Respects = record { respects = λ s h. h }

set_last_error-Respects : (m : String) → Respects (set_last_error m)
unfolding set_last_error
set_last_error-Respects m = record { respects = λ s h. h }

set_last_health-Respects : (x : HealthStateModel) → Respects (set_last_health x)
unfolding set_last_health
set_last_health-Respects x = record { respects = λ s h. h }

set_ready-Respects : (v : VersionPayload) → Respects (set_ready v)
unfolding set_ready
set_ready-Respects v = record { respects = λ s h. h }

set_exit-Respects : (c : ℤ) (m : String) → Respects (set_exit c m)
unfolding set_exit
set_exit-Respects c m = record { respects = λ s h. h }

detach-Respects : Respects detach
unfolding detach
detach-Respects = record { respects = λ s h. tt }

attach-Respects : (p : ℕ) → Respects (attach p)
unfolding attach
attach-Respects p = record { respects = λ s h. refl }

module _ {W : Type 0} where
  on_world-Keeps : {A : Type 0} (m : Action W A) → Keeps IsPaired (on_world m)
  on_world-Keeps m = record { at = λ s h. record { paired = h.paired } }

  this-Keeps : Keeps {W = Supervised W} IsPaired this
  this-Keeps = record { at = λ s h. h }

  update-Keeps :
      (f : DpdkdSupervisor → DpdkdSupervisor)
      → Respects f
      → Keeps {W = Supervised W} IsPaired (update f)
  update-Keeps f k = record { at = λ s h. record { paired = k.respects s.supervisor h.paired } }

module _ {W A : Type 0} where
  on_class-Keeps :
      (c : ErrorClass) (handler : PktlabError → Method W A) (x : PktlabError)
      → ((y : PktlabError) → Keeps IsPaired (handler y))
      → Keeps IsPaired (on_class c handler x)
  on_class-Keeps ErrorClass.datapath_transport handler x k = k x
  on_class-Keeps _ handler x k = Keeps-raise (typed x)

  on_transport_error-Keeps :
      (handler : PktlabError → Method W A) (e : Exn)
      → ((y : PktlabError) → Keeps IsPaired (handler y))
      → Keeps IsPaired (on_transport_error handler e)
  on_transport_error-Keeps handler (typed x) k = on_class-Keeps x.class handler x k
  on_transport_error-Keeps handler _ k = Keeps-raise _

ruleset rules = (
  Keeps-pure, Keeps-raise, Keeps-lift, Keeps-if, Keeps-catch, Keeps-bind, Keeps-on_option,
  on_world-Keeps, this-Keeps, on_transport_error-Keeps, update-Keeps, clear-Respects,
  set_last_error-Respects, set_last_health-Respects, set_ready-Respects, set_exit-Respects,
  detach-Respects, attach-Respects,
)

module _ {W : Type 0} (t : CharTable) (shell : Shell W) (processes : Processes W)
    (sockets : Sockets W) (codec : Codec) where
  require_client-Keeps : Keeps IsPaired (require_client t shell processes sockets codec)
  unfolding require_client
  require_client-Keeps = search rules

  demand-Keeps :
      {P : Type 0} (what : String) (r : CommandResult P)
      → Keeps IsPaired (demand t shell processes sockets codec what r)
  unfolding demand
  demand-Keeps what r = search rules

  refresh_ipc_state-Keeps :
      (p : ℕ) → Keeps IsPaired (refresh_ipc_state t shell processes sockets codec p)
  unfolding refresh_ipc_state
  refresh_ipc_state-Keeps p = search (rules, require_client-Keeps, demand-Keeps) depth 20

  status_of-Keeps : (p : ℕ) → Keeps IsPaired (status_of t shell processes sockets codec p)
  unfolding status_of
  status_of-Keeps p = search (rules, refresh_ipc_state-Keeps) depth 20

  status-Keeps : Keeps IsPaired (status t shell processes sockets codec)
  unfolding status
  status-Keeps = search (rules, status_of-Keeps) depth 20

  when_reachable-Keeps :
      {P : Type 0} (purpose : String) (command : DpdkClient → Action W P)
      → Keeps IsPaired (when_reachable t shell processes sockets codec purpose command)
  unfolding when_reachable
  when_reachable-Keeps purpose command = search (rules, status-Keeps, require_client-Keeps) depth 20

  stop_locked-Keeps : (b : Bool) → Keeps IsPaired (stop_locked t shell processes sockets codec b)
  unfolding stop_locked
  stop_locked-Keeps b = search rules depth 20

  try_ready-Keeps :
      (p : ℕ) (again : Method W DatapathProcessStatus)
      → Keeps IsPaired again
      → Keeps IsPaired (try_ready t shell processes sockets codec p again)
  unfolding try_ready
  try_ready-Keeps p again k = search (rules, refresh_ipc_state-Keeps) depth 20

  ready_loop-Keeps :
      (fuel deadline : ℕ)
      → Keeps IsPaired (ready_loop t shell processes sockets codec fuel deadline)
  unfolding ready_loop
  ready_loop-Keeps zero deadline = search rules
  ready_loop-Keeps (suc fuel) deadline =
      let again = ready_loop-Keeps fuel deadline in search (rules, try_ready-Keeps) depth 20

  wait_for_ready-Keeps : Keeps IsPaired (wait_for_ready t shell processes sockets codec)
  unfolding wait_for_ready
  wait_for_ready-Keeps = search (rules, ready_loop-Keeps) depth 20

  spawn-Keeps : Keeps IsPaired (spawn t shell processes sockets codec)
  unfolding spawn
  spawn-Keeps = search (rules, wait_for_ready-Keeps, stop_locked-Keeps) depth 20

  is_alive-Keeps : (p : Option ℕ) → Keeps IsPaired (is_alive t shell processes sockets codec p)
  unfolding is_alive
  is_alive-Keeps none = search rules
  is_alive-Keeps (some p) = search rules

  start-Keeps : Keeps IsPaired (start t shell processes sockets codec)
  unfolding start
  start-Keeps = search (rules, is_alive-Keeps, wait_for_ready-Keeps, spawn-Keeps) depth 20

  -- Every method of the supervisor keeps the pairing, whether it returns or raises and whatever the
  -- processes and sockets do: starting, stopping, the status and the IPC commands.
  pub methods-IsPaired :
      (s : Supervised W)
      → IsPaired s
      → IsPaired (start t shell processes sockets codec s).1
        × IsPaired (stop t shell processes sockets codec s).1
        × IsPaired (status t shell processes sockets codec s).1
        × IsPaired (get_ports t shell processes sockets codec s).1
        × IsPaired (get_stats t shell processes sockets codec s).1
        × IsPaired (reset_stats t shell processes sockets codec s).1
        × IsPaired (pause_datapath t shell processes sockets codec s).1
        × IsPaired (resume_datapath t shell processes sockets codec s).1
  unfolding stop get_ports get_stats reset_stats pause_datapath resume_datapath
  methods-IsPaired s h = (
    start-Keeps.at s h,
    (stop_locked-Keeps true).at s h,
    status-Keeps.at s h,
    (when_reachable-Keeps "port status" (client_get_ports sockets codec)).at s h,
    (when_reachable-Keeps "stats" (client_get_stats sockets codec)).at s h,
    (when_reachable-Keeps "stats reset" (client_reset_stats sockets codec)).at s h,
    (when_reachable-Keeps "pause" (client_pause_datapath sockets codec)).at s h,
    (when_reachable-Keeps "resume" (client_resume_datapath sockets codec)).at s h,
  )
