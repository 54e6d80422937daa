-- ===== src/Process/Fields.antt =====
-- What the methods of `DpdkdSupervisor` read from its fields and assign to them,
-- ctrld/pktlab_ctrld/process/supervisor.py.
use pktlab.Base.{ℕ, String, Bool, true, false, none, some, List, ◌∷◌, ◌++◌, ℤ}
use pktlab.Error.{Value, Context, end, entry, text, dict}
use pktlab.Ipc.{DatapathErrorModel, datapath_code_value, VersionPayload, HealthStateModel}
use pktlab.Process.{SupervisorConfig, DatapathProcessStatus, DpdkdSupervisor}

-- `error.model_dump(mode="json")`
unfoldable pub dump_error : DatapathErrorModel → Value
dump_error e =
    dict (entry "code" (text (datapath_code_value e.code)) (entry "message" (text e.message) end))

-- The status without a live process.
abbrev pub stopped_status : DpdkdSupervisor → DatapathProcessStatus
stopped_status s = record {
  managed = true;
  socket_path = s.config.socket_path;
  pid = none;
  running = false;
  reachable = false;
  exit_code = s.last_exit_code;
  last_error = s.last_error;
  version = s.last_version;
  health = s.last_health;
}

-- The status of a live process, reached over IPC or not.
abbrev pub live_status : ℕ → Bool → DpdkdSupervisor → DatapathProcessStatus
live_status pid reachable s = record {
  managed = true;
  socket_path = s.config.socket_path;
  pid = some pid;
  running = true;
  reachable = reachable;
  exit_code = none;
  last_error = s.last_error;
  version = s.last_version;
  health = s.last_health;
}

abbrev pub socket_context : DpdkdSupervisor → Context
socket_context s = entry "socket_path" (text s.config.socket_path) end

-- The assignments to the supervisor's fields.
unfoldable pub clear : DpdkdSupervisor → DpdkdSupervisor
clear s = record s {
  last_version = none;
  last_health = none;
  last_error = none;
  last_exit_code = none;
}

unfoldable pub set_last_error : String → DpdkdSupervisor → DpdkdSupervisor
set_last_error message s = record s { last_error = some message }

unfoldable pub set_last_health : HealthStateModel → DpdkdSupervisor → DpdkdSupervisor
set_last_health health s = record s { last_health = some health }

unfoldable pub set_ready : VersionPayload → DpdkdSupervisor → DpdkdSupervisor
set_ready version s = record s {
  last_version = some version;
  last_error = none;
  last_exit_code = none;
}

unfoldable pub set_exit : ℤ → String → DpdkdSupervisor → DpdkdSupervisor
set_exit code message s = record s { last_exit_code = some code; last_error = some message }

unfoldable pub detach : DpdkdSupervisor → DpdkdSupervisor
detach s = record s { process = none; client = none }

-- A new process and a client for the configured socket, with the client's timeout of one second.
unfoldable pub attach : ℕ → DpdkdSupervisor → DpdkdSupervisor
attach p s = record s {
  process = some p;
  client = some (record { socket_path = s.config.socket_path; timeout_seconds = 1000 });
}

abbrev pub command_line : SupervisorConfig → List String
command_line c =
    c.launch_prefix ++ (c.dpdkd_binary ∷ "--socket-path" ∷ c.socket_path ∷ c.extra_args)
