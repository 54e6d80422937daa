-- ===== src/Process/Supervisor.antt =====
-- The methods of `DpdkdSupervisor`, ctrld/pktlab_ctrld/process/supervisor.py.
pub mod Pairing
pub mod Status
pub mod Stopping
use pktlab.Base.{
  ℕ, zero, suc, ◌+◌, String, Bool, true, false, not, Option, none, some, List, [], ◌∷◌, ◌++◌, ltb,
  ◌==◌, ℤ, on_option, if◌then◌else◌, ◌<>◌, is_empty, or_text, CharTable, strip,
}
use pktlab.Error.{
  Value, Context, end, entry, text, num, int, null, dict, text_or_null, PktlabError, ErrorClass,
  Exn, typed, timeout_expired, execution_error, transport_error,
}
use pktlab.Effect.{
  Outcome, ok, raised, Action, pure, raise, lift, handle, catch, continue, ◌>>=◌, ◌>>◌,
}
use pktlab.Util.{Shell}
use pktlab.Util.Time.{out_of_fuel}
use pktlab.Ipc.{
  DatapathErrorModel, datapath_code_value, CommandResult, is_ok, unwrap, Codec, Sockets, AckPayload,
  VersionPayload, HealthPayload, HealthStateModel, PortsPayload, StatsPayload,
}
use pktlab.Ipc.Client.{
  DpdkClient, client_ping, client_get_version, client_get_health, client_get_ports,
  client_get_stats, client_reset_stats, client_pause_datapath, client_resume_datapath,
}
use pktlab.Process.Fields.{
  dump_error, stopped_status, live_status, socket_context, clear, set_last_error, set_last_health,
  set_ready, set_exit, detach, attach, command_line,
}
use pktlab.Process.{SupervisorConfig, DatapathProcessStatus, Processes, DpdkdSupervisor, Supervised}

-- `except DatapathTransportError as exc`
abbrev pub on_class {ℓ} :
    {S A : Type ℓ} → ErrorClass → (PktlabError → Action S A) → PktlabError → Action S A
on_class ErrorClass.datapath_transport handler e = handler e
on_class _ handler e = raise (typed e)

abbrev pub on_transport_error {ℓ} : {S A : Type ℓ} → (PktlabError → Action S A) → Exn → Action S A
on_transport_error handler (typed e) = on_class e.class handler e
on_transport_error handler e = raise e

-- A method on the supervisor's fields and the world `W`.
abbrev pub Method : Type 0 → Type 0 → Type 0
Method W A = Action (Supervised W) A

module _ {W : Type 0} where
  -- An action on the world alone.
  abbrev pub on_world : {A : Type 0} → Action W A → Method W A
  on_world m s = let (r, w) = m s.world in (r, record s { world = w })

  abbrev pub update : (DpdkdSupervisor → DpdkdSupervisor) → Method W Unit
  update f s = (ok tt, record s { supervisor = f s.supervisor })

  abbrev pub this : Method W DpdkdSupervisor
  this s = (ok s.supervisor, s)

module _ {W : Type 0} (t : CharTable) (shell : Shell W) (processes : Processes W)
    (sockets : Sockets W) (codec : Codec) where
  abbrev pub poll : ℕ → Method W (Option ℤ)
  poll p = on_world λ w. let (code, w') = processes.poll p w in (ok code, w')

  abbrev closing_pipe : ℕ → Outcome String × W → Outcome String × W
  closing_pipe p (r, w) = (r, processes.close_stderr p w)

  -- `_consume_stderr_locked`
  unfoldable pub consume_stderr : ℕ → Action W String
  consume_stderr p w =
      if processes.stderr_closed p w
      then (ok "", w)
      else closing_pipe p ((do content ← processes.read_stderr p; pure (strip t content)) w)

  -- `_require_client_locked`
  unfoldable pub require_client : Method W DpdkClient
  require_client = do
    s ← this
    on_option s.client
        (raise (typed (execution_error "datapath client is not initialized" (socket_context s))))
        pure

  -- The test of one answer of `_refresh_ipc_state_locked`; `what` begins its message.
  unfoldable pub demand : {P : Type 0} → String → CommandResult P → Method W Unit
  demand what result = on_option result.error (pure tt) λ error.
      let message =
        what <> " failed: " <> datapath_code_value error.code <> ": " <> error.message in
      do
        s ← this
        update (set_last_error message)
        raise (
            typed (
              execution_error message (
                entry "socket_path" (text s.config.socket_path)
                  (entry "error" (dump_error error) end))))

  -- The end of `_refresh_ipc_state_locked`, on the two unwrapped results.
  abbrev pub conclude :
      ℕ → Outcome HealthPayload → Outcome VersionPayload → Method W DatapathProcessStatus
  conclude p health_outcome version_outcome = do
    health ← lift health_outcome
    update (set_last_health health.health)
    version ← lift version_outcome
    update (set_ready version)
    s ← this
    pure (live_status (processes.pid_of p) true s)

  -- `_refresh_ipc_state_locked`
  unfoldable pub refresh_ipc_state : ℕ → Method W DatapathProcessStatus
  refresh_ipc_state p = do
    client ← require_client
    ping_result ← on_world (client_ping sockets codec client)
    demand "datapath readiness ping" ping_result
    health_result ← on_world (client_get_health sockets codec client)
    demand "datapath health check" health_result
    version_result ← on_world (client_get_version sockets codec client)
    demand "datapath version check" version_result
    conclude p (unwrap health_result) (unwrap version_result)

  -- The status of a process that has ended: it is forgotten.
  abbrev pub forget_process : ℤ → String → Method W DatapathProcessStatus
  forget_process code stderr = do
    s ← this
    update (
        set_exit code (
          if is_empty stderr
          then or_text s.last_error "datapath process exited unexpectedly"
          else stderr))
    update detach
    s ← this
    pure (record (stopped_status s) { exit_code = some code })

  abbrev pub unreachable_status : ℕ → PktlabError → Method W DatapathProcessStatus
  unreachable_status p e = do
    update (set_last_error e.message)
    s ← this
    pure (live_status (processes.pid_of p) false s)

  unfoldable pub status_of : ℕ → Method W DatapathProcessStatus
  unfolding refresh_ipc_state
  status_of p = do
    exit_code ← poll p
    on_option exit_code (catch (refresh_ipc_state p) (on_transport_error (unreachable_status p)))
        (λ code. do stderr ← on_world (consume_stderr p); forget_process code stderr)

  -- `_status_locked`, which is `status`
  unfoldable pub status : Method W DatapathProcessStatus
  status = do s ← this; on_option s.process (pure (stopped_status s)) status_of

  -- The IPC methods: `get_ports`, `get_stats`, `reset_stats`, `pause_datapath`, `resume_datapath`.
  unfoldable pub when_reachable : {P : Type 0} → String → (DpdkClient → Action W P) → Method W P
  when_reachable purpose command = do
    current ← status
    if current.reachable then (do client ← require_client; on_world (command client)) else (do
      s ← this
      raise (
          typed
            (transport_error ("datapath IPC is not reachable for " <> purpose) (socket_context s))))

  unfoldable pub get_ports : Method W (CommandResult PortsPayload)
  unfolding when_reachable
  get_ports = when_reachable "port status" (client_get_ports sockets codec)

  unfoldable pub get_stats : Method W (CommandResult StatsPayload)
  unfolding when_reachable
  get_stats = when_reachable "stats" (client_get_stats sockets codec)

  unfoldable pub reset_stats : Method W (CommandResult AckPayload)
  unfolding when_reachable
  reset_stats = when_reachable "stats reset" (client_reset_stats sockets codec)

  unfoldable pub pause_datapath : Method W (CommandResult AckPayload)
  unfolding when_reachable
  pause_datapath = when_reachable "pause" (client_pause_datapath sockets codec)

  unfoldable pub resume_datapath : Method W (CommandResult AckPayload)
  unfolding when_reachable
  resume_datapath = when_reachable "resume" (client_resume_datapath sockets codec)

  abbrev wait_for : ℕ → ℕ → Action W Unit
  wait_for p patience = do processes.wait p patience; pure tt

  -- `except subprocess.TimeoutExpired`
  abbrev kill_on_timeout : ℕ → ℕ → Exn → Action W Unit
  kill_on_timeout p patience timeout_expired w = wait_for p patience (processes.kill p w)
  kill_on_timeout p patience e w = (raised e, w)

  -- `terminate`, then `kill` if the process does not end in time.
  unfoldable pub end_process : ℕ → ℕ → Action W Unit
  end_process p patience w =
      let (code, w') = processes.poll p w in
      elim code [
        | some _ ↦ (ok tt, w')
        | none ↦ catch (wait_for p patience) (kill_on_timeout p patience) (processes.terminate p w')
      ]

  abbrev pub clear_if : Bool → Method W Unit
  clear_if clear_history = if clear_history then update clear else pure tt

  -- `_stop_locked`
  unfoldable pub stop_locked : Bool → Method W Unit
  unfolding consume_stderr end_process
  stop_locked clear_history = do
    s ← this
    update detach
    on_option s.process (pure tt) λ p. do
      on_world (end_process p s.config.shutdown_timeout_seconds)
      on_world (consume_stderr p)
      pure tt
    clear_if clear_history

  -- `stop`
  unfoldable pub stop : Method W Unit
  stop = stop_locked true

  abbrev read_clock : Method W ℕ
  read_clock = on_world λ w. let (now, w') = shell.monotonic w in (ok now, w')

  -- The exception of a process that ended before it was ready.
  abbrev pub ended_early : DpdkdSupervisor → ℤ → String → Exn
  ended_early s code stderr = typed (
      execution_error "datapath process exited before readiness was confirmed" (
        entry "binary_path" (text s.config.dpdkd_binary) (
          entry "socket_path" (text s.config.socket_path)
            (entry "exit_code" (int code) (entry "stderr" (text_or_null stderr) end)))))

  abbrev pub never_ready : DpdkdSupervisor → Exn
  never_ready s = typed (
      execution_error "timed out waiting for datapath IPC readiness" (
        entry "binary_path" (text s.config.dpdkd_binary) (
          entry "socket_path" (text s.config.socket_path)
            (entry "timeout_seconds" (num s.config.startup_timeout_seconds) end))))

  abbrev pub report_exit : ℤ → String → Method W DatapathProcessStatus
  report_exit code stderr = do
    update (
        set_exit code
          (if is_empty stderr then "datapath process exited before readiness" else stderr))
    s ← this
    raise (ended_early s code stderr)

  -- `except DatapathTransportError` in the loop.
  abbrev pub retry : Method W DatapathProcessStatus → PktlabError → Method W DatapathProcessStatus
  retry again e = do
    update (set_last_error e.message)
    s ← this
    on_world (λ w. (ok tt, shell.sleep s.config.poll_interval_seconds w))
    again

  -- One round of the loop for the live process `p`; `again` is the rest of the loop.
  unfoldable pub try_ready : ℕ → Method W DatapathProcessStatus → Method W DatapathProcessStatus
  unfolding refresh_ipc_state consume_stderr
  try_ready p again = do
    exit_code ← poll p
    on_option exit_code (catch (refresh_ipc_state p) (on_transport_error (retry again)))
        (λ code. do stderr ← on_world (consume_stderr p); report_exit code stderr)

  abbrev pub lost : Method W DatapathProcessStatus
  lost = do
    s ← this
    raise (
        typed (execution_error "datapath process state was lost during startup" (socket_context s)))

  unfoldable pub ready_loop : ℕ → ℕ → Method W DatapathProcessStatus
  unfolding try_ready
  ready_loop zero deadline = raise out_of_fuel
  ready_loop (suc fuel) deadline = do
    now ← read_clock
    s ← this
    if ltb now deadline
        then on_option s.process lost (λ p. try_ready p (ready_loop fuel deadline))
        else raise (never_ready s)

  -- `_wait_for_ready_locked`; one round for each tick of the timeout, and the last test, are enough.
  unfoldable pub wait_for_ready : Method W DatapathProcessStatus
  wait_for_ready = do
    now ← read_clock
    s ← this
    ready_loop (suc s.config.startup_timeout_seconds) (now + s.config.startup_timeout_seconds)

  -- `except Exception: self._stop_locked(clear_history=False); raise`
  abbrev pub stop_and_raise : Exn → Method W DatapathProcessStatus
  stop_and_raise e = do stop_locked false; raise e

  -- The part of `start` that spawns a process.
  unfoldable pub spawn : Method W DatapathProcessStatus
  spawn = do
    update clear
    s ← this
    p ← on_world (processes.popen (command_line s.config))
    update (attach p)
    catch wait_for_ready stop_and_raise

  unfoldable pub is_alive : Option ℕ → Method W Bool
  is_alive none = pure false
  is_alive (some p) = do code ← poll p; pure (on_option code true (λ _. false))

  -- `start`
  unfoldable pub start : Method W DatapathProcessStatus
  start = do s ← this; alive ← is_alive s.process; if alive then wait_for_ready else spawn
