-- ===== src/Error.antt =====
-- Errors as values: ctrld/pktlab_ctrld/error.py, and the Python exceptions that the controller
-- lets pass or catches. `Value` is what an error's context or a JSON document holds, a float by its text.
use pktlab.Base.{ℕ, String, Bool, Option, none, some, List, [], ◌∷◌, str_eq}
use pktlab.Base.{ℤ, pos, if◌then◌else◌}

pub data ErrorCode : Type 0 where
  datapath_transport_error config_parse_error invalid_request invalid_payload : ErrorCode
  unknown_command rule_validation_error topology_validation_error topology_apply_error : ErrorCode
  topology_destroy_error process_error port_init_error state_conflict timeout : ErrorCode
  internal_error : ErrorCode

-- `code.value`
unfoldable pub code_value : ErrorCode → String
code_value datapath_transport_error = "DATAPATH_TRANSPORT_ERROR"
code_value config_parse_error = "CONFIG_PARSE_ERROR"
code_value invalid_request = "INVALID_REQUEST"
code_value invalid_payload = "INVALID_PAYLOAD"
code_value unknown_command = "UNKNOWN_COMMAND"
code_value rule_validation_error = "RULE_VALIDATION_ERROR"
code_value topology_validation_error = "TOPOLOGY_VALIDATION_ERROR"
code_value topology_apply_error = "TOPOLOGY_APPLY_ERROR"
code_value topology_destroy_error = "TOPOLOGY_DESTROY_ERROR"
code_value process_error = "PROCESS_ERROR"
code_value port_init_error = "PORT_INIT_ERROR"
code_value state_conflict = "STATE_CONFLICT"
code_value timeout = "TIMEOUT"
code_value internal_error = "INTERNAL_ERROR"

mutual
  pub data Value : Type 0 where
    null : Value
    flag : Bool → Value
    int : ℤ → Value
    float : String → Value
    text : String → Value
    list : Values → Value
    dict : Context → Value

  pub data Values : Type 0 where
    nil : Values
    cons : Value → Values → Values

  pub data Context : Type 0 where
    end : Context
    entry : String → Value → Context → Context

abbrev pub num : ℕ → Value
num n = int (pos n)

abbrev pub optional_text : Option String → Value
optional_text none = null
optional_text (some s) = text s

-- `text or None`
abbrev pub text_or_null : String → Value
text_or_null s = if str_eq s "" then null else text s

pub texts : List String → Values
texts [] = nil
texts (s ∷ rest) = cons (text s) (texts rest)

-- `context.get(key)`
unfoldable pub get_entry : String → Context → Option Value
get_entry k end = none
get_entry k (entry j v rest) = if str_eq j k then some v else get_entry k rest

-- `context[key] = value`
unfoldable pub set_entry : String → Value → Context → Context
set_entry k v end = entry k v end
set_entry k v (entry j w rest) =
    if str_eq j k then entry j v rest else entry j w (set_entry k v rest)

-- The class of a typed error, on which `except` clauses select.
pub data ErrorClass : Type 0 where
  base validation config_parse datapath_protocol datapath_transport process_execution : ErrorClass

pub record PktlabError : Type 0 where
  pub class : ErrorClass
  pub code : ErrorCode
  pub message : String
  pub context : Context

unfoldable pub to_dict : PktlabError → Value
unfolding code_value
to_dict e =
    dict
      (entry "code" (text (code_value e.code)) (entry "message" (text e.message) (tail e.context)))
  where
    tail : Context → Context
    tail end = end
    tail (entry k v rest) = entry "context" (dict (entry k v rest)) end

-- `PktlabError(code, message, context=context)`
abbrev pub pktlab_error : ErrorCode → String → Context → PktlabError
pktlab_error c m x = record { class = base; code = c; message = m; context = x }

-- `ValidationError(message, code=code, issues=issues)`
unfoldable pub validation_error : String → ErrorCode → Values → PktlabError
validation_error m c nil = record { class = validation; code = c; message = m; context = end }
validation_error m c (cons v vs) = record {
  class = validation;
  code = c;
  message = m;
  context = entry "issues" (list (cons v vs)) end;
}

abbrev pub parse_error : String → Context → PktlabError
parse_error m x = record {
  class = config_parse;
  code = config_parse_error;
  message = m;
  context = x;
}

abbrev pub protocol_error : String → Context → PktlabError
protocol_error m x = record {
  class = datapath_protocol;
  code = invalid_payload;
  message = m;
  context = x;
}

abbrev pub transport_error : String → Context → PktlabError
transport_error m x = record {
  class = datapath_transport;
  code = datapath_transport_error;
  message = m;
  context = x;
}

abbrev pub execution_error : String → Context → PktlabError
execution_error m x = record {
  class = process_execution;
  code = process_error;
  message = m;
  context = x;
}

-- The exceptions that cross the modelled code. `invalid_model` is pydantic's ValidationError,
-- `other` any exception that no handler of the controller names.
pub data Exn : Type 0 where
  typed : PktlabError → Exn
  value_error : String → Exn
  runtime_error : String → Exn
  invalid_model : String → Exn
  timeout_expired : Exn
  file_not_found connection_refused socket_timeout : Exn
  os_error : Option ℕ → Exn
  other : String → Exn
