-- ===== src/Tests/Supervision.antt =====
-- Examples of the supervisor's methods and of the controller's health.
use pktlab.Base.{ℕ, ◌≡◌, refl, true, none, some, List, [], ◌∷◌, pos, if◌then◌else◌}
use pktlab.Effect.{ok}
use pktlab.State.{ControllerStateValue, plain_desired}
use pktlab.Util.{Shell}
use pktlab.Error.{get_entry}
use pktlab.Ipc.Protocol.{
  pack, unpack, frame_payload, read_exact, read_loop, recv_frame, encode_request, send_request,
  recv_response, parse_response, parse_loaded, envelope,
}
use pktlab.Ipc.Client.{exchange, read_response, typed_call}
use pktlab.Process.{DatapathProcessStatus, SupervisorConfig, Processes, Supervised, new_supervisor}
use pktlab.Process.Fields.{command_line, set_last_health, set_ready}
use pktlab.Process.Supervisor.{
  start, stop, status, spawn, status_of, refresh_ipc_state, require_client, demand, is_alive,
  wait_for_ready, ready_loop, try_ready, get_ports, get_stats, reset_stats, pause_datapath,
  resume_datapath,
}
use pktlab.Process.Supervisor.Pairing.{IsPaired, methods-IsPaired}
use pktlab.Process.Supervisor.Status.{IsReport, IsAnswered, status-IsReport, start-IsAnswered}
use pktlab.Process.Supervisor.Stopping.{Settled, spawn_settles}
use pktlab.Controller.{ControllerRuntime}
use pktlab.Controller.Health.{recompute_controller_health, unmanaged_datapath_status}
use pktlab.Controller.Health.Meaning.{is_healthy, recompute_controller_health-state}
use pktlab.Tests.{ascii}
use pktlab.Tests.Wire.{acknowledging, one_by_one, client, answering, healthy, health, version}

-- A world that is the bytes on the socket: time stands still, but for sleeping.
abbrev pub still : Shell (List ℕ)
still = record {
  run = λ argv w. (ok (record { returncode = pos 0; stdout = ""; stderr = "" }), w);
  monotonic = λ w. (0, w);
  sleep = λ n w. w;
  describe = λ e. "failed";
}

-- Every process is number 1, and ends when it is waited for.
abbrev pub one_process : Processes (List ℕ)
one_process = record {
  popen = λ argv w. (ok 1, w);
  poll = λ p w. (none, w);
  pid_of = λ p. p;
  terminate = λ p w. w;
  kill = λ p w. w;
  wait = λ p timeout w. (ok (pos 0), w);
  stderr_closed = λ p w. true;
  read_stderr = λ p w. (ok "", w);
  close_stderr = λ p w. w;
}

abbrev config : SupervisorConfig
config = record {
  dpdkd_binary = "pktlab-dpdkd";
  socket_path = "/run/dp.sock";
  launch_prefix = [];
  extra_args = [];
  startup_timeout_seconds = 3;
  poll_interval_seconds = 1;
  shutdown_timeout_seconds = 1;
}

-- A supervisor with a process, and a socket on which an acknowledgement waits.
abbrev live : Supervised (List ℕ)
live = record {
  supervisor = record (new_supervisor config) { process = some 1; client = some client };
  world = 0 ∷ 0 ∷ 0 ∷ 1 ∷ 7 ∷ [];
}

live-IsPaired : IsPaired live
live-IsPaired = record { paired = refl }

methods-IsPaired_example :
    IsPaired (start ascii still one_process one_by_one acknowledging live).1
    × IsPaired (stop ascii still one_process one_by_one acknowledging live).1
    × IsPaired (status ascii still one_process one_by_one acknowledging live).1
    × IsPaired (get_ports ascii still one_process one_by_one acknowledging live).1
    × IsPaired (get_stats ascii still one_process one_by_one acknowledging live).1
    × IsPaired (reset_stats ascii still one_process one_by_one acknowledging live).1
    × IsPaired (pause_datapath ascii still one_process one_by_one acknowledging live).1
    × IsPaired (resume_datapath ascii still one_process one_by_one acknowledging live).1
methods-IsPaired_example =
    methods-IsPaired ascii still one_process one_by_one acknowledging live live-IsPaired

-- The status of the live process, which answers.
abbrev report : DatapathProcessStatus
report = record {
  managed = true;
  socket_path = "/run/dp.sock";
  pid = some 1;
  running = true;
  reachable = true;
  exit_code = none;
  last_error = none;
  version = some version;
  health = some health;
}

status_reported : (status ascii still one_process answering healthy live).0 ≡ ok report
unfolding status status_of refresh_ipc_state require_client demand set_last_health set_ready
    typed_call exchange read_response send_request recv_response recv_frame read_exact read_loop
    encode_request frame_payload pack unpack parse_response parse_loaded envelope get_entry
    pktlab.Ipc.Client.call
status_reported = refl

status-IsReport_example : IsReport report
status-IsReport_example =
    status-IsReport ascii still one_process answering healthy live report status_reported

start_reported : (start ascii still one_process answering healthy live).0 ≡ ok report
unfolding start is_alive wait_for_ready ready_loop try_ready refresh_ipc_state require_client demand
    set_last_health set_ready typed_call exchange read_response send_request recv_response
    recv_frame read_exact read_loop encode_request frame_payload pack unpack parse_response
    parse_loaded envelope get_entry pktlab.Ipc.Client.call
start_reported = refl

start-IsAnswered_example : IsAnswered ascii still one_process answering healthy report
start-IsAnswered_example =
    start-IsAnswered ascii still one_process answering healthy live report start_reported

spawn_settles_example :
    Settled ascii still one_process one_by_one acknowledging
      (command_line config)
      live.world
      (spawn ascii still one_process one_by_one acknowledging live)
spawn_settles_example = spawn_settles ascii still one_process one_by_one acknowledging live

-- A running controller whose datapath should run.
abbrev pub busy : ControllerRuntime
busy = record {
  config = record {
    datapath_binary = "pktlab-dpdkd";
    datapath_socket_path = "/run/dp.sock";
    datapath_startup_timeout_seconds = 3;
    supervise_datapath = true;
  };
  desired_state = plain_desired ControllerStateValue.running true;
  observed_state = record {
    datapath_health = none;
    applied_rules_version = none;
    dpdkd_pid = none;
    effective_dpdk_config = none;
    active_captures = [];
    topology_applied = true;
  };
  controller_state = ControllerStateValue.running;
  controller_message = "controller ready";
  controller_override_message = none;
  started = true;
  supervisor = some live.supervisor;
}

recompute_controller_health-state_example :
    (recompute_controller_health (unmanaged_datapath_status busy) busy).controller_state ≡ (
      if is_healthy (unmanaged_datapath_status busy) busy
      then ControllerStateValue.running
      else ControllerStateValue.degraded)
recompute_controller_health-state_example =
    recompute_controller_health-state (unmanaged_datapath_status busy) busy refl
