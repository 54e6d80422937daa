-- ===== src/Ctl.antt =====
-- The command line client: ctl/pktlabctl. Its models are what pydantic makes of a response; httpx,
-- the JSON codec, pydantic and argparse are parameters.
pub mod Client
pub mod Output
pub mod Commands
pub mod Schema
use pktlab.Base.{ℕ, String, Bool, Option, List, ℤ}
use pktlab.Error.{Value}

pub record ControllerStatusModel : Type 0 where
  pub service : String
  pub version : String
  pub state : String
  pub message : String

pub record DatapathStatusModel : Type 0 where
  pub managed : Bool
  pub reachable : Bool
  pub socket_path : String
  pub pid : Option ℕ
  pub exit_code : Option ℤ
  pub last_error : Option String
  pub service : Option String
  pub version : Option String
  pub dpdk_version : Option String
  pub state : Option String
  pub message : Option String
  pub applied_rule_version : Option ℕ
  pub ports_ready : Bool
  pub paused : Bool

pub record HealthResponseModel : Type 0 where
  pub controller : ControllerStatusModel
  pub datapath : DatapathStatusModel

pub record DatapathPortModel : Type 0 where
  pub name : String
  pub port_id : ℕ
  pub role : String
  pub state : String

pub record DatapathStatusResponseModel : Type 0 where
  pub controller : ControllerStatusModel
  pub datapath : DatapathStatusModel
  pub ports : List DatapathPortModel

-- A count of a rule may be negative, which the model allows.
pub record DatapathStatsModel : Type 0 where
  pub rx_packets : ℕ
  pub tx_packets : ℕ
  pub drop_packets : ℕ
  pub drop_parse_errors : ℕ
  pub drop_no_match : ℕ
  pub rx_bursts : ℕ
  pub tx_bursts : ℕ
  pub unsent_packets : ℕ
  pub rule_hits : List (String × ℤ)

pub record DatapathStatsResponseModel : Type 0 where
  pub datapath : DatapathStatusModel
  pub stats : DatapathStatsModel

pub record DatapathStatsResetResponseModel : Type 0 where
  pub datapath : DatapathStatusModel
  pub stats : DatapathStatsModel
  pub message : String

pub record DatapathControlResponseModel : Type 0 where
  pub datapath : DatapathStatusModel
  pub message : String

pub record TopologyOperationResponseModel : Type 0 where
  pub operation : String
  pub topology_name : Option String
  pub config_path : Option String
  pub applied : Bool
  pub datapath_namespace : Option String
  pub datapath_running : Bool
  pub message : String

-- A method's end: a value, a ControllerClientError, a ValueError or another exception, each by its
-- text.
pub data Fetched (A : Type 0) : Type 0 where
  fetched : A → Fetched A
  client_error : String → Fetched A
  bad_value : String → Fetched A
  escaped : String → Fetched A

abbrev pub and_fetch : {A B : Type 0} → Fetched A → (A → Fetched B) → Fetched B
and_fetch (fetched a) f = f a
and_fetch (client_error m) f = client_error m
and_fetch (bad_value m) f = bad_value m
and_fetch (escaped m) f = escaped m

-- The outcome of `response.json()`: a document, a JSONDecodeError, or another exception.
pub data Body : Type 0 where
  document : Value → Body
  not_json : Body
  unreadable : String → Body

-- The outcome of the request and of `raise_for_status`: a response, an HTTPStatusError with its
-- status code and response, another HTTPError, or any other exception, by their texts.
pub data Exchange : Type 0 where
  received : Body → Exchange
  status_error : ℕ → Body → Exchange
  http_error : String → Exchange
  broken : String → Exchange

-- The outcome of `model_validate`: the model, or a ValidationError with its text.
pub data Checked (M : Type 0) : Type 0 where
  matches : M → Checked M
  mismatch : String → Checked M

-- What the client uses and does not implement: `client.request(method, path, json=json_body)` at a
-- base URL with a timeout in milliseconds, `str` of a JSON value, the models' `model_validate`, and
-- `json.dumps(payload.model_dump(mode="json"), indent=2, sort_keys=True)`.
pub record Services (W : Type 0) : Type 0 where
  pub request : String → ℕ → String → String → Option Value → W → Exchange × W
  pub value_text : Value → String
  pub check_health : Value → Checked HealthResponseModel
  pub check_status : Value → Checked DatapathStatusResponseModel
  pub check_stats : Value → Checked DatapathStatsResponseModel
  pub check_reset : Value → Checked DatapathStatsResetResponseModel
  pub check_control : Value → Checked DatapathControlResponseModel
  pub check_topology : Value → Checked TopologyOperationResponseModel
  pub dump_status : DatapathStatusResponseModel → String
  pub dump_stats : DatapathStatsResponseModel → String
  pub dump_reset : DatapathStatsResetResponseModel → String
  pub dump_control : DatapathControlResponseModel → String
  pub dump_topology : TopologyOperationResponseModel → String
