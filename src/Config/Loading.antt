-- ===== src/Config/Loading.antt =====
-- Reading and parsing of configuration files: ctrld/pktlab_ctrld/config/topology.py and rules.py.
-- The file system, the YAML reader and pydantic are parameters.
pub mod Failures
use pktlab.Base.{String, Bool, List, [], ◌∷◌, ◌<>◌, is_empty, join, if◌then◌else◌}
use pktlab.Error.{
  Value, Values, Context, nil, cons, text, list, dict, entry, end, parse_error, Exn, typed,
  value_error,
}
use pktlab.Effect.{Outcome, ok, raised, Action, and_then}
use pktlab.Types.{TopologyConfigModel, RulesetModel}

-- The outcome of `Path.read_text(encoding="utf-8")`: the text, an OSError with its text, or another
-- exception, such as the ValueError of a path with a NUL or of bytes that are not UTF-8.
pub data FileText : Type 0 where
  content : String → FileText
  unreadable : String → FileText
  not_read : Exn → FileText

-- The outcome of `yaml.safe_load`: a YAMLError with its text, another exception, such as the
-- ValueError of a date that does not exist, None, a mapping, or another document by the name of its
-- type.
pub data Yaml (D : Type 0) : Type 0 where
  malformed : String → Yaml D
  not_loaded : Exn → Yaml D
  nothing : Yaml D
  other_root : String → Yaml D
  mapping : D → Yaml D

-- An item of `ValidationError.errors()`, the parts of its location by their texts.
pub record PydanticError : Type 0 where
  pub loc : List String
  pub type : String
  pub msg : String

pub data Validated (M : Type 0) : Type 0 where
  valid : M → Validated M
  invalid : List PydanticError → Validated M

-- What the loaders use and do not implement.
pub record Loaders (W D : Type 0) : Type 0 where
  -- `str(Path(path))`
  pub path_text : String → String
  pub read_text : String → W → FileText × W
  pub safe_load : String → Yaml D
  pub validate_topology_model : D → Validated TopologyConfigModel
  pub validate_ruleset_model : D → Validated RulesetModel

abbrev pub dotted_or_root : List String → String
dotted_or_root loc = let path = join "." loc in if is_empty path then "$" else path

unfoldable pub serialize_pydantic_errors : List PydanticError → Values
serialize_pydantic_errors [] = nil
serialize_pydantic_errors (e ∷ rest) =
    cons
      (dict (
        entry "path" (text (dotted_or_root e.loc))
          (entry "code" (text e.type) (entry "message" (text e.msg) end))))
      (serialize_pydantic_errors rest)

abbrev pub failure : {A : Type 0} → String → Context → Outcome A
failure message context = raised (typed (parse_error message context))

-- `_load_yaml_mapping`, on what `yaml.safe_load` made of the text.
unfoldable pub load_yaml_mapping : {D : Type 0} → Yaml D → String → String → Outcome D
load_yaml_mapping (malformed detail) source name =
    failure (name <> " YAML could not be parsed")
      (entry "source" (text source) (entry "detail" (text detail) end))
load_yaml_mapping (not_loaded e) source name = raised e
load_yaml_mapping nothing source name =
    failure (name <> " is empty") (entry "source" (text source) end)
load_yaml_mapping (other_root type) source name =
    failure (name <> " must be a mapping at the document root")
      (entry "source" (text source) (entry "root_type" (text type) end))
load_yaml_mapping (mapping d) source name = ok d

-- The model that pydantic built, or its errors as a typed error.
unfoldable pub validated_model : {M : Type 0} → String → String → Validated M → Outcome M
validated_model source name (valid m) = ok m
validated_model source name (invalid errors) =
    failure (name <> " structure is invalid")
      (entry "source" (text source) (entry "issues" (list (serialize_pydantic_errors errors)) end))

-- What a loader makes of the file's text, or of the failure to read it.
unfoldable pub loaded_text :
    {M : Type 0} → String → String → (String → Outcome M) → FileText → Outcome M
loaded_text source name parse (content t) = parse t
loaded_text source name parse (unreadable detail) =
    failure ("unable to read " <> name)
      (entry "source" (text source) (entry "detail" (text detail) end))
loaded_text source name parse (not_read e) = raised e

module _ {W D : Type 0} (loaders : Loaders W D) where
  unfoldable pub parse_topology_config_text : String → String → Outcome TopologyConfigModel
  parse_topology_config_text document source =
      and_then (load_yaml_mapping (loaders.safe_load document) source "topology config") λ payload.
        validated_model source "topology config" (loaders.validate_topology_model payload)

  unfoldable pub load_topology_config : String → Action W TopologyConfigModel
  load_topology_config path w =
      let source = loaders.path_text path in
      let (file, w') = loaders.read_text source w in
      (loaded_text source "topology config" (λ t. parse_topology_config_text t source) file, w')

  unfoldable pub parse_rules_config_text : String → String → Outcome RulesetModel
  parse_rules_config_text document source =
      and_then (load_yaml_mapping (loaders.safe_load document) source "rules config")
        λ payload. validated_model source "rules config" (loaders.validate_ruleset_model payload)

  unfoldable pub load_rules_config : String → Action W RulesetModel
  load_rules_config path w =
      let source = loaders.path_text path in
      let (file, w') = loaders.read_text source w in
      (loaded_text source "rules config" (λ t. parse_rules_config_text t source) file, w')
