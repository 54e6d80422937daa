-- ===== src/Process.antt =====
-- The datapath supervisor: ctrld/pktlab_ctrld/process/supervisor.py. A method is an action on the
-- supervisor's fields and the world; the locks, which one thread passes, are left out.
-- Times are ticks of one millisecond.
pub mod Fields
pub mod Supervisor
use pktlab.Base.{
  ℕ, String, Bool, true, false, ◌||◌, Option, none, some, List, [], ◌∷◌, ◌==◌, ℤ, if◌then◌else◌,
  CharTable, is_blank,
}
use pktlab.Error.{value_error}
use pktlab.Effect.{Outcome, ok, raised, Action}
use pktlab.Ipc.{VersionPayload, HealthStateModel}
use pktlab.Ipc.Client.{DpdkClient}

pub record SupervisorConfig : Type 0 where
  pub dpdkd_binary : String
  pub socket_path : String
  pub launch_prefix : List String
  pub extra_args : List String
  pub startup_timeout_seconds : ℕ
  pub poll_interval_seconds : ℕ
  pub shutdown_timeout_seconds : ℕ

-- `any(not token.strip() for token in tokens)`
unfoldable pub any_blank : CharTable → List String → Bool
any_blank t [] = false
any_blank t (token ∷ rest) = is_blank t token || any_blank t rest

-- `SupervisorConfig(...)` with its `__post_init__`.
unfoldable pub make_supervisor_config : CharTable → SupervisorConfig → Outcome SupervisorConfig
unfolding any_blank
make_supervisor_config t c =
    if is_blank t c.dpdkd_binary
    then raised (value_error "dpdkd_binary must be a non-empty string")
    else if is_blank t c.socket_path
    then raised (value_error "socket_path must be a non-empty string")
    else if any_blank t c.launch_prefix
    then raised (value_error "launch_prefix must not contain empty elements")
    else if any_blank t c.extra_args
    then raised (value_error "extra_args must not contain empty elements")
    else if c.startup_timeout_seconds == 0
    then raised (value_error "startup_timeout_seconds must be greater than zero")
    else if c.poll_interval_seconds == 0
    then raised (value_error "poll_interval_seconds must be greater than zero")
    else if c.shutdown_timeout_seconds == 0
    then raised (value_error "shutdown_timeout_seconds must be greater than zero")
    else ok c

pub record DatapathProcessStatus : Type 0 where
  pub managed : Bool
  pub socket_path : String
  pub pid : Option ℕ
  pub running : Bool
  pub reachable : Bool
  pub exit_code : Option ℤ
  pub last_error : Option String
  pub version : Option VersionPayload
  pub health : Option HealthStateModel

-- What the code uses of `subprocess.Popen` objects, which are numbered: starting one, its exit code
-- if it has ended, its signals, and the pipe of its standard error.
pub record Processes (W : Type 0) : Type 0 where
  pub popen : List String → Action W ℕ
  pub poll : ℕ → W → Option ℤ × W
  pub pid_of : ℕ → ℕ
  pub terminate : ℕ → W → W
  pub kill : ℕ → W → W
  pub wait : ℕ → ℕ → Action W ℤ
  pub stderr_closed : ℕ → W → Bool
  pub read_stderr : ℕ → Action W String
  pub close_stderr : ℕ → W → W

-- The fields of `DpdkdSupervisor`.
pub record DpdkdSupervisor : Type 0 where
  pub config : SupervisorConfig
  pub process : Option ℕ
  pub client : Option DpdkClient
  pub last_version : Option VersionPayload
  pub last_health : Option HealthStateModel
  pub last_error : Option String
  pub last_exit_code : Option ℤ

abbrev pub new_supervisor : SupervisorConfig → DpdkdSupervisor
new_supervisor c = record {
  config = c;
  process = none;
  client = none;
  last_version = none;
  last_health = none;
  last_error = none;
  last_exit_code = none;
}

-- A supervisor in the world in which its process runs.
pub record Supervised (W : Type 0) : Type 0 where
  pub supervisor : DpdkdSupervisor
  pub open supervisor use *
  pub world : W
