-- ===== src/Ipc.antt =====
-- Controller-to-datapath IPC: the models of ctrld/pktlab_ctrld/dpdk_client/models.py, and what the
-- code uses of pydantic, of the JSON codec and of Unix sockets.
pub mod Protocol
pub mod Client
use pktlab.Base.{ℕ, String, Bool, true, false, Option, none, some, List, ℤ}
use pktlab.Error.{Value, Context, Exn, runtime_error}
use pktlab.Effect.{Outcome, ok, raised, Action}
use pktlab.State.{DatapathStateValue}
use pktlab.Types.{PortRole}

pub data DatapathErrorCode : Type 0 where
  invalid_request invalid_payload unknown_command rule_validation_error : DatapathErrorCode
  port_init_error state_conflict internal_error : DatapathErrorCode

unfoldable pub datapath_code_value : DatapathErrorCode → String
datapath_code_value invalid_request = "INVALID_REQUEST"
datapath_code_value invalid_payload = "INVALID_PAYLOAD"
datapath_code_value unknown_command = "UNKNOWN_COMMAND"
datapath_code_value rule_validation_error = "RULE_VALIDATION_ERROR"
datapath_code_value port_init_error = "PORT_INIT_ERROR"
datapath_code_value state_conflict = "STATE_CONFLICT"
datapath_code_value internal_error = "INTERNAL_ERROR"

-- The commands that have a request model.
pub data DatapathCommand : Type 0 where
  ping get_version get_health get_ports get_stats reset_stats : DatapathCommand
  pause_datapath resume_datapath : DatapathCommand

unfoldable pub command_name : DatapathCommand → String
command_name ping = "ping"
command_name get_version = "get_version"
command_name get_health = "get_health"
command_name get_ports = "get_ports"
command_name get_stats = "get_stats"
command_name reset_stats = "reset_stats"
command_name pause_datapath = "pause_datapath"
command_name resume_datapath = "resume_datapath"

-- The payload of every request is empty.
pub record RequestEnvelope : Type 0 where
  pub id : String
  pub cmd : DatapathCommand

pub record DatapathErrorModel : Type 0 where
  pub code : DatapathErrorCode
  pub message : String

pub data ResponseEnvelope : Type 0 where
  success : String → Value → ResponseEnvelope
  failure : String → DatapathErrorModel → ResponseEnvelope

abbrev pub response_id : ResponseEnvelope → String
response_id (success id payload) = id
response_id (failure id error) = id

pub record AckPayload : Type 0 where
  pub message : String

pub record VersionPayload : Type 0 where
  pub service : String
  pub version : String
  pub dpdk_version : String

pub record HealthStateModel : Type 0 where
  pub state : DatapathStateValue
  pub message : String
  pub applied_rule_version : ℕ
  pub ports_ready : Bool
  pub paused : Bool

pub record HealthPayload : Type 0 where
  pub health : HealthStateModel

pub data PortState : Type 0 where
  up down : PortState

pub record PortInfoModel : Type 0 where
  pub name : String
  pub port_id : ℕ
  pub role : PortRole
  pub state : PortState

pub record PortsPayload : Type 0 where
  pub ports : List PortInfoModel

pub record DatapathStatsModel : Type 0 where
  pub rx_packets : ℕ
  pub tx_packets : ℕ
  pub drop_packets : ℕ
  pub drop_parse_errors : ℕ
  pub drop_no_match : ℕ
  pub rx_bursts : ℕ
  pub tx_bursts : ℕ
  pub unsent_packets : ℕ
  pub rule_hits : List (String × ℤ)

pub record StatsPayload : Type 0 where
  pub stats : DatapathStatsModel

pub record CommandResult (P : Type 0) : Type 0 where
  pub request_id : String
  pub payload : Option P
  pub error : Option DatapathErrorModel

module _ {P : Type 0} where
  -- `CommandResult.success` and `CommandResult.failure`
  abbrev pub succeeded : String → P → CommandResult P
  succeeded id p = record { request_id = id; payload = some p; error = none }

  abbrev pub failed : String → DatapathErrorModel → CommandResult P
  failed id e = record { request_id = id; payload = none; error = some e }

  abbrev pub is_ok : CommandResult P → Bool
  is_ok r = elim r.error [ none ↦ true | some _ ↦ false ]

  abbrev pub unwrap : CommandResult P → Outcome P
  unwrap r = elim r.payload [
    | none ↦ raised (runtime_error "cannot unwrap a failed command result")
    | some p ↦ ok p
  ]

-- The outcome of pydantic's `model_validate`: a model, or the errors that it lists.
pub data Validated (A : Type 0) : Type 0 where
  valid : A → Validated A
  invalid : Value → Validated A

-- The outcome of decoding bytes as UTF-8 and as JSON; a JSON error carries its position.
pub data Loaded : Type 0 where
  bad_utf8 : Loaded
  bad_json : Context → Loaded
  json : Value → Loaded

-- What the code uses of pydantic and of the `json` module. Bytes are numbers below 256.
pub record Codec : Type 0 where
  pub dump_request : RequestEnvelope → List ℕ
  pub load_json : List ℕ → Loaded
  pub valid_id : String → Bool
  pub validate_success : Value → Validated (String × Value)
  pub validate_error : Value → Validated (String × DatapathErrorModel)
  pub validate_ack : Value → Validated AckPayload
  pub validate_version : Value → Validated VersionPayload
  pub validate_health : Value → Validated HealthPayload
  pub validate_ports : Value → Validated PortsPayload
  pub validate_stats : Value → Validated StatsPayload

-- What the code uses of the `socket` and `uuid` modules. `connect` stands for creating the socket,
-- setting its timeout and connecting; `close` for leaving the `with` block.
pub record Sockets (W : Type 0) : Type 0 where
  pub connect : String → ℕ → Action W Unit
  pub sendall : List ℕ → Action W Unit
  pub recv : ℕ → Action W (List ℕ)
  pub close : W → W
  pub request_id : W → String × W
