-- ===== src/Process/Supervisor/Status.antt =====
-- What a status of the supervisor says.
use pktlab.Base.{ℕ, zero, suc, ◌≡◌, refl, true, false, none, some, arith, ℤ, is_some, CharTable, ap}
use pktlab.Error.{Exn, typed, PktlabError, ErrorClass}
use mathlib.Core.Path.{subst}
use pktlab.Effect.{Outcome, ok, raised, Action}
use pktlab.Effect.Returns.{
  Holds, Returns, Returns-pure, Returns-raise, Returns-if, Returns-on_option, Returns-catch,
  Returns-bind, Returns-weaken, Returns-step,
}
use pktlab.Util.{Shell}
use pktlab.Ipc.{Codec, Sockets, HealthPayload, VersionPayload, CommandResult, unwrap}
use pktlab.Ipc.Client.{DpdkClient, client_ping, client_get_health, client_get_version}
use pktlab.Process.{DatapathProcessStatus, Processes, DpdkdSupervisor, Supervised}
use pktlab.Process.Fields.{set_last_health, set_ready, stopped_status, live_status}
use pktlab.Process.Supervisor.{
  Method, on_world, require_client, demand, on_class, on_transport_error, conclude,
  refresh_ipc_state, status_of, status, try_ready, ready_loop, wait_for_ready, spawn, start,
}

-- A report is consistent: it has a pid exactly if the process runs, only a running process is
-- reachable, and a reachable one has a version, a health and no error.
pub record IsReport (r : DatapathProcessStatus) : Type 0 where
  pub managed : r.managed ≡ true
  pub has_pid : r.running ≡ is_some r.pid
  pub runs : r.reachable ≡ true → r.running ≡ true
  pub no_exit_code : r.running ≡ true → r.exit_code ≡ none
  pub has_version : r.reachable ≡ true → is_some r.version ≡ true
  pub has_health : r.reachable ≡ true → is_some r.health ≡ true
  pub no_error : r.reachable ≡ true → r.last_error ≡ none

-- A report of a process that answers.
pub record IsReady (r : DatapathProcessStatus) : Type 0 where
  pub report : IsReport r
  pub reached : r.reachable ≡ true

stopped_status-IsReport : (s : DpdkdSupervisor) → IsReport (stopped_status s)
stopped_status-IsReport s = ground arith

unreachable-IsReport : (pid : ℕ) (s : DpdkdSupervisor) → IsReport (live_status pid false s)
unreachable-IsReport pid s = ground arith

ended-IsReport :
    (code : ℤ) (s : DpdkdSupervisor)
    → IsReport (record (stopped_status s) { exit_code = some code })
ended-IsReport code s = ground arith

module _ {W A : Type 0} {Q : A → Type 0} where
  on_class-Returns :
      (c : ErrorClass) (handler : PktlabError → Method W A) (x : PktlabError)
      → ((y : PktlabError) → Returns Q (handler y))
      → Returns Q (on_class c handler x)
  on_class-Returns ErrorClass.datapath_transport handler x k = k x
  on_class-Returns _ handler x k = Returns-raise (typed x)

  on_transport_error-Returns :
      (handler : PktlabError → Method W A) (e : Exn)
      → ((y : PktlabError) → Returns Q (handler y))
      → Returns Q (on_transport_error handler e)
  on_transport_error-Returns handler (typed x) k = on_class-Returns x.class handler x k
  on_transport_error-Returns handler _ k = Returns-raise _

ruleset rules = (
  Returns-pure, Returns-raise, Returns-if, Returns-on_option, Returns-catch, Returns-bind,
  on_transport_error-Returns,
)

module _ {W : Type 0} (t : CharTable) (shell : Shell W) (processes : Processes W)
    (sockets : Sockets W) (codec : Codec) where
  -- A client has got the health and the version of the report from the datapath, by two calls over IPC.
  pub record IsAnswered (r : DatapathProcessStatus) : Type 0 where
    pub ready : IsReady r
    pub client : DpdkClient
    pub before_health : W
    pub before_version : W
    pub health_result : CommandResult HealthPayload
    pub version_result : CommandResult VersionPayload
    pub health : HealthPayload
    pub version : VersionPayload
    pub health_called : (client_get_health sockets codec client before_health).0 ≡ ok health_result
    pub version_called :
        (client_get_version sockets codec client before_version).0 ≡ ok version_result
    pub health_given : unwrap health_result ≡ ok health
    pub version_given : unwrap version_result ≡ ok version
    pub health_reported : r.health ≡ some health.health
    pub version_reported : r.version ≡ some version

  -- The result of a call in some world.
  abbrev Called : {A : Type 0} → Action W A → A → Type 0
  Called call a = (w : W) × ((call w).0 ≡ ok a)

  on_world-Called : {A : Type 0} (call : Action W A) → Returns (Called call) (on_world call)
  on_world-Called {A} call = record { at = λ s. go s.world (call s.world) refl }
    where
      go : (w : W) (x : Outcome A × W) → call w ≡ x → Holds (Called call) x.0
      go w (ok a, w') e = (w, ap (λ y. y.0) e)
      go w (raised x, w') e = tt

  conclude-IsAnswered :
      (p : ℕ) (client : DpdkClient) (h : CommandResult HealthPayload)
      (v : CommandResult VersionPayload)
      → Called (client_get_health sockets codec client) h
      → Called (client_get_version sockets codec client) v
      → Returns IsAnswered (conclude t shell processes sockets codec p (unwrap h) (unwrap v))
  unfolding set_last_health set_ready
  conclude-IsAnswered p client h v (w, called) (w', called') = go (unwrap h) (unwrap v) refl refl
    where
      go :
          (x : Outcome HealthPayload) (y : Outcome VersionPayload)
          → unwrap h ≡ x
          → unwrap v ≡ y
          → Returns IsAnswered (conclude t shell processes sockets codec p x y)
      go (raised e) y hx hy = record { at = λ s. tt }
      go (ok health) (raised e) hx hy = record { at = λ s. tt }
      go (ok health) (ok version) hx hy = record {
        at = λ s. record {
          ready = record { report = ground arith; reached = refl };
          client = client;
          before_health = w;
          before_version = w';
          health_result = h;
          version_result = v;
          health = health;
          version = version;
          health_called = called;
          version_called = called';
          health_given = hx;
          version_given = hy;
          health_reported = refl;
          version_reported = refl;
        };
      }

  refresh_ipc_state-IsAnswered :
      (p : ℕ) → Returns IsAnswered (refresh_ipc_state t shell processes sockets codec p)
  unfolding refresh_ipc_state
  refresh_ipc_state-IsAnswered p =
      Returns-bind (require_client t shell processes sockets codec) _ λ client.
        Returns-bind (on_world (client_ping sockets codec client)) _ λ ping.
          Returns-bind (demand t shell processes sockets codec "datapath readiness ping" ping) _
            λ _.
              Returns-step (Called (client_get_health sockets codec client)) _ _
                (on_world-Called (client_get_health sockets codec client))
                λ h got_health.
                  Returns-bind (demand t shell processes sockets codec "datapath health check" h) _
                    λ _.
                      Returns-step (Called (client_get_version sockets codec client)) _ _
                        (on_world-Called (client_get_version sockets codec client))
                        λ v got_version.
                          Returns-bind
                            (demand t shell processes sockets codec "datapath version check" v) _
                            λ _. conclude-IsAnswered p client h v got_health got_version

  refresh_ipc_state-IsReport :
      (p : ℕ) → Returns IsReport (refresh_ipc_state t shell processes sockets codec p)
  refresh_ipc_state-IsReport p =
      Returns-weaken _ (λ r answered. answered.ready.report) (refresh_ipc_state-IsAnswered p)

  status_of-IsReport : (p : ℕ) → Returns IsReport (status_of t shell processes sockets codec p)
  unfolding status_of
  status_of-IsReport p =
      search (rules, refresh_ipc_state-IsReport, unreachable-IsReport, ended-IsReport) depth 20

  pub status-Returns : Returns IsReport (status t shell processes sockets codec)
  unfolding status
  status-Returns = search (rules, status_of-IsReport, stopped_status-IsReport) depth 20

  -- Every status that the supervisor reports is consistent: it has a process id exactly if a process
  -- runs, a running process has no exit code, and a reachable one runs and has a version, a health and
  -- no error.
  pub status-IsReport :
      (s : Supervised W) (r : DatapathProcessStatus)
      → (status t shell processes sockets codec s).0 ≡ ok r
      → IsReport r
  status-IsReport s r e = subst (Holds IsReport) e (status-Returns.at s)

  try_ready-IsAnswered :
      (p : ℕ) (again : Method W DatapathProcessStatus)
      → Returns IsAnswered again
      → Returns IsAnswered (try_ready t shell processes sockets codec p again)
  unfolding try_ready
  try_ready-IsAnswered p again k = search (rules, refresh_ipc_state-IsAnswered) depth 20

  ready_loop-IsAnswered :
      (fuel deadline : ℕ)
      → Returns IsAnswered (ready_loop t shell processes sockets codec fuel deadline)
  unfolding ready_loop
  ready_loop-IsAnswered zero deadline = search rules
  ready_loop-IsAnswered (suc fuel) deadline =
      let again = ready_loop-IsAnswered fuel deadline in
      search (rules, try_ready-IsAnswered) depth 20

  wait_for_ready-IsAnswered : Returns IsAnswered (wait_for_ready t shell processes sockets codec)
  unfolding wait_for_ready
  wait_for_ready-IsAnswered = search (rules, ready_loop-IsAnswered) depth 20

  pub wait_for_ready-IsReady : Returns IsReady (wait_for_ready t shell processes sockets codec)
  wait_for_ready-IsReady = Returns-weaken _ (λ r answered. answered.ready) wait_for_ready-IsAnswered

  spawn-IsAnswered : Returns IsAnswered (spawn t shell processes sockets codec)
  unfolding spawn
  spawn-IsAnswered = search (rules, wait_for_ready-IsAnswered) depth 20

  start-Returns : Returns IsAnswered (start t shell processes sockets codec)
  unfolding start
  start-Returns = search (rules, wait_for_ready-IsAnswered, spawn-IsAnswered) depth 20

  -- When `start` returns a status, the datapath runs and a client has got the health and the version of
  -- that status from it, by two calls over IPC that were answered without an error.
  pub start-IsAnswered :
      (s : Supervised W) (r : DatapathProcessStatus)
      → (start t shell processes sockets codec s).0 ≡ ok r
      → IsAnswered r
  start-IsAnswered s r e = subst (Holds IsAnswered) e (start-Returns.at s)
