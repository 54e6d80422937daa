-- ===== src/Config/Loading/Failures.antt =====
-- How the loading of a configuration file fails.
use pktlab.Base.{◌≡◌, refl, String, some}
use pktlab.Error.{typed, config_parse_error, get_entry, text}
use pktlab.Effect.{Outcome, ok, raised, and_then}
use pktlab.Config.Loading.{
  FileText, content, unreadable, not_read, Yaml, malformed, not_loaded, nothing, other_root,
  mapping, Validated, valid, invalid, Loaders, load_yaml_mapping, validated_model, loaded_text,
  parse_topology_config_text, load_topology_config, parse_rules_config_text, load_rules_config,
}

-- A model, or a typed parse error that names the source.
abbrev pub IsLoaded : {M : Type 0} → String → Outcome M → Type 0
IsLoaded source (ok m) = Unit
IsLoaded source (raised (typed e)) =
    (e.code ≡ config_parse_error) × (get_entry "source" e.context ≡ some (text source))
IsLoaded source (raised _) = ⊥

-- The outcome for a document: the exception that the YAML reader raised where it is no YAMLError, and
-- otherwise the loader's own.
abbrev pub IsYamlOutcome : {D M : Type 0} → String → Yaml D → Outcome M → Type 0
IsYamlOutcome source (not_loaded e) r = r ≡ raised e
IsYamlOutcome source _ r = IsLoaded source r

-- The outcome for a file: the exception of the reading where it is no OSError, the loader's own for
-- an OSError, and that of the document for a text.
abbrev pub IsFileOutcome :
    {D M : Type 0} → String → (String → Yaml D) → FileText → Outcome M → Type 0
IsFileOutcome source safe_load (not_read e) r = r ≡ raised e
IsFileOutcome source safe_load (unreadable detail) r = IsLoaded source r
IsFileOutcome source safe_load (content t) r = IsYamlOutcome source (safe_load t) r

module _ {M : Type 0} (source name : String) where
  verdict-IsLoaded : (v : Validated M) → IsLoaded source (validated_model source name v)
  unfolding validated_model get_entry
  verdict-IsLoaded (valid m) = tt
  verdict-IsLoaded (invalid errors) = (refl, refl)

  parse-IsYamlOutcome :
      {D : Type 0} (y : Yaml D) (validate : D → Validated M)
      → IsYamlOutcome source y
          (and_then (load_yaml_mapping y source name) λ d. validated_model source name (validate d))
  unfolding load_yaml_mapping validated_model get_entry
  parse-IsYamlOutcome (malformed detail) validate = (refl, refl)
  parse-IsYamlOutcome (not_loaded e) validate = refl
  parse-IsYamlOutcome nothing validate = (refl, refl)
  parse-IsYamlOutcome (other_root type) validate = (refl, refl)
  parse-IsYamlOutcome (mapping d) validate = verdict-IsLoaded (validate d)

  loaded_text-IsFileOutcome :
      {D : Type 0} (safe_load : String → Yaml D) (parse : String → Outcome M) (file : FileText)
      → ((t : String) → IsYamlOutcome source (safe_load t) (parse t))
      → IsFileOutcome source safe_load file (loaded_text source name parse file)
  unfolding loaded_text get_entry
  loaded_text-IsFileOutcome safe_load parse (content t) h = h t
  loaded_text-IsFileOutcome safe_load parse (unreadable detail) h = (refl, refl)
  loaded_text-IsFileOutcome safe_load parse (not_read e) h = refl

module _ {W D : Type 0} (loaders : Loaders W D) where
  -- Loading a topology or a ruleset lets an exception pass that the reading raises and that is no
  -- OSError, and one that the YAML reader raises on the text and that is no YAMLError. Otherwise,
  -- whether the file is readable or not and whatever its document and pydantic's verdict are, it
  -- gives a model or a typed CONFIG_PARSE_ERROR whose context names the source.
  pub load_config-IsFileOutcome :
      (path : String) (w : W)
      → IsFileOutcome
          (loaders.path_text path)
          loaders.safe_load
          (loaders.read_text (loaders.path_text path) w).0
          (load_topology_config loaders path w).0
        × IsFileOutcome
            (loaders.path_text path)
            loaders.safe_load
            (loaders.read_text (loaders.path_text path) w).0
            (load_rules_config loaders path w).0
  unfolding load_topology_config load_rules_config parse_topology_config_text
      parse_rules_config_text
  load_config-IsFileOutcome path w =
      let source = loaders.path_text path in
      let file = (loaders.read_text source w).0 in
      (
        loaded_text-IsFileOutcome source "topology config" loaders.safe_load
            (λ t. parse_topology_config_text loaders t source) file
            (λ t.
              parse-IsYamlOutcome source "topology config" (loaders.safe_load t)
                loaders.validate_topology_model),
        loaded_text-IsFileOutcome source "rules config" loaders.safe_load
            (λ t. parse_rules_config_text loaders t source) file
            (λ t.
              parse-IsYamlOutcome source "rules config" (loaders.safe_load t)
                loaders.validate_ruleset_model),
      )
