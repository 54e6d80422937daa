-- ===== src/Ctl/Client.antt =====
-- `ControllerClient` of ctl/pktlabctl/client.py.
pub mod Failures
use pktlab.Base.{
  ℕ, String, Option, none, some, if◌then◌else◌, ◌==◌, ◌<>◌, decimal, CharTable, is_blank,
  rstrip_char,
}
use pktlab.Error.{Value, Context, null, dict, text, entry, end, get_entry}
use pktlab.Ctl.{
  HealthResponseModel, DatapathStatusResponseModel, DatapathStatsResponseModel,
  DatapathStatsResetResponseModel, DatapathControlResponseModel, TopologyOperationResponseModel,
  Fetched, fetched, client_error, bad_value, escaped, and_fetch, Body, document, not_json,
  unreadable, Exchange, received, status_error, http_error, broken, Checked, matches, mismatch,
  Services,
}

pub record ControllerClient : Type 0 where
  pub base_url : String
  pub timeout_seconds : ℕ

-- `ControllerClient(base_url, timeout_seconds=...)`, the timeout in milliseconds.
unfoldable pub make_client : CharTable → String → ℕ → Fetched ControllerClient
make_client t base_url timeout_seconds =
    if is_blank t base_url
    then bad_value "base_url must be a non-empty string"
    else if timeout_seconds == 0
    then bad_value "timeout_seconds must be greater than zero"
    else fetched
        (record { base_url = rstrip_char b'/' base_url; timeout_seconds = timeout_seconds })

-- A method of the client: its end, and the world after it.
abbrev pub Call : Type 0 → Type 0 → Type 0
Call W A = W → Fetched A × W

-- The text after the path in the message of an HTTP error.
unfoldable pub error_detail : (Value → String) → Body → String
error_detail value_text (document (dict payload)) = elim (get_entry "detail" payload) [
  | none ↦ ""
  | some null ↦ ""
  | some detail ↦ ": " <> value_text detail
]
error_detail value_text _ = ""

-- The end of `_request_json`, on the response.
unfoldable pub read_payload : Body → Fetched Value
read_payload (document (dict payload)) = fetched (dict payload)
read_payload (document _) = client_error "controller returned a non-object JSON payload"
read_payload not_json = client_error "controller returned invalid JSON"
read_payload (unreadable message) = escaped message

unfoldable pub read_exchange : (Value → String) → String → Exchange → Fetched Value
unfolding error_detail read_payload
read_exchange value_text path (received body) = read_payload body
read_exchange value_text path (status_error code body) =
    client_error (
      "controller returned HTTP "
      <> decimal code
      <> " for "
      <> path
      <> error_detail value_text body)
read_exchange value_text path (http_error message) =
    client_error ("controller request failed for " <> path <> ": " <> message)
read_exchange value_text path (broken message) = escaped message

-- The model of a response, or the message of the mismatch.
unfoldable pub read_model : {M : Type 0} → String → Checked M → Fetched M
read_model what (matches m) = fetched m
read_model what (mismatch message) =
    client_error
      ("controller " <> what <> " response did not match the expected schema: " <> message)

module _ {W : Type 0} (services : Services W) (client : ControllerClient) where
  -- `_request_json`
  unfoldable pub request_json : String → String → Option Value → Call W Value
  unfolding read_exchange
  request_json method path json_body w =
      let (exchange, w') =
        services.request client.base_url client.timeout_seconds method path json_body w in
      (read_exchange services.value_text path exchange, w')

  -- A request, and the model of its response.
  abbrev pub typed_request :
      {M : Type 0} → String → String → Option Value → String → (Value → Checked M) → Call W M
  typed_request method path json_body what check w =
      let (payload, w') = request_json method path json_body w in
      (and_fetch payload (λ v. read_model what (check v)), w')

  abbrev pub empty_body : Option Value
  empty_body = some (dict end)

  unfoldable pub get_health : Call W HealthResponseModel
  get_health = typed_request "GET" "/health" none "health" services.check_health

  unfoldable pub get_datapath_status : Call W DatapathStatusResponseModel
  get_datapath_status =
      typed_request "GET" "/datapath/status" none "datapath status" services.check_status

  unfoldable pub get_datapath_stats : Call W DatapathStatsResponseModel
  get_datapath_stats =
      typed_request "GET" "/datapath/stats" none "datapath stats" services.check_stats

  unfoldable pub reset_datapath_stats : Call W DatapathStatsResetResponseModel
  reset_datapath_stats =
      typed_request "POST" "/datapath/stats/reset" empty_body "datapath stats-reset"
        services.check_reset

  unfoldable pub pause_datapath : Call W DatapathControlResponseModel
  pause_datapath =
      typed_request "POST" "/datapath/pause" empty_body "datapath pause" services.check_control

  unfoldable pub resume_datapath : Call W DatapathControlResponseModel
  resume_datapath =
      typed_request "POST" "/datapath/resume" empty_body "datapath resume" services.check_control

  unfoldable pub apply_topology : CharTable → String → Call W TopologyOperationResponseModel
  apply_topology t config_path w =
      if is_blank t config_path
      then (bad_value "config_path must be a non-empty string", w)
      else typed_request "POST" "/topology/apply"
          (some (dict (entry "config_path" (text config_path) end))) "topology apply"
          services.check_topology w

  unfoldable pub destroy_topology : Call W TopologyOperationResponseModel
  destroy_topology =
      typed_request "POST" "/topology/destroy" empty_body "topology destroy" services.check_topology
