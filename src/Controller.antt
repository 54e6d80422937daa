-- ===== src/Controller.antt =====
-- The controller runtime: ctrld/pktlab_ctrld/app.py. Its fields, the manager's current topology and
-- the world are one state; the locks, which one thread passes, are left out.
pub mod Health
pub mod Parts
pub mod Runtime
pub mod Commands
pub mod Args
use pktlab.Base.{
  ℕ, String, Bool, true, false, Option, none, some, List, ◌==◌, if◌then◌else◌, CharTable, is_blank,
}
use pktlab.Error.{value_error}
use pktlab.Effect.{Outcome, ok, raised, Action}
use pktlab.Types.{TopologyConfigModel}
use pktlab.State.{DesiredState, ObservedState, ControllerStateValue}
use pktlab.Config.{ValidatedTopologyConfig}
use pktlab.Util.{Shell}
use pktlab.Ipc.{Codec, Sockets, PortInfoModel, DatapathStatsModel}
use pktlab.Process.{DatapathProcessStatus, Processes, DpdkdSupervisor}

pub record ControllerConfig : Type 0 where
  pub datapath_binary : String
  pub datapath_socket_path : String
  pub datapath_startup_timeout_seconds : ℕ
  pub supervise_datapath : Bool

-- `ControllerConfig(...)` with its `__post_init__`.
unfoldable pub make_controller_config : CharTable → ControllerConfig → Outcome ControllerConfig
make_controller_config t c =
    if is_blank t c.datapath_binary
    then raised (value_error "datapath_binary must be a non-empty string")
    else if is_blank t c.datapath_socket_path
    then raised (value_error "datapath_socket_path must be a non-empty string")
    else if c.datapath_startup_timeout_seconds == 0
    then raised (value_error "datapath_startup_timeout_seconds must be greater than zero")
    else ok c

-- The fields of `ControllerRuntime`.
pub record ControllerRuntime : Type 0 where
  pub config : ControllerConfig
  pub desired_state : DesiredState
  pub observed_state : ObservedState
  pub controller_state : ControllerStateValue
  pub controller_message : String
  pub controller_override_message : Option String
  pub started : Bool
  pub supervisor : Option DpdkdSupervisor

-- The controller's fields and the world: what the topology manager's callbacks change.
pub record Plant (W : Type 0) : Type 0 where
  pub runtime : ControllerRuntime
  pub world : W

-- What the controller uses and does not implement, and the manager's loader and validator.
pub record Env (W : Type 0) : Type 0 where
  pub chars : CharTable
  pub shell : Shell W
  pub processes : Processes W
  pub sockets : Sockets W
  pub codec : Codec
  pub load_topology : String → Action W TopologyConfigModel
  pub validate_topology : TopologyConfigModel → Outcome ValidatedTopologyConfig

pub record ControllerHealthSnapshot : Type 0 where
  pub controller_service : String
  pub controller_version : String
  pub controller_state : ControllerStateValue
  pub controller_message : String
  pub desired_state : DesiredState
  pub observed_state : ObservedState
  pub datapath_status : DatapathProcessStatus

pub record DatapathRuntimeStatusSnapshot : Type 0 where
  pub controller_snapshot : ControllerHealthSnapshot
  pub ports : List PortInfoModel

pub record DatapathRuntimeStatsSnapshot : Type 0 where
  pub datapath_status : DatapathProcessStatus
  pub stats : DatapathStatsModel

pub record DatapathStatsResetResult : Type 0 where
  pub datapath_status : DatapathProcessStatus
  pub stats : DatapathStatsModel
  pub message : String

pub record DatapathControlResult : Type 0 where
  pub datapath_status : DatapathProcessStatus
  pub message : String
