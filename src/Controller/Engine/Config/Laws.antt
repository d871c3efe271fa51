-- ===== src/Controller/Engine/Config/Laws.antt =====
-- The files that a user of DefaultConfigOverwrite cannot replace.
use heat_operator.Base.{
  String, is_some, true, [], ◌∷◌, GoMap, lookup, insert, copy_into, lookup-insert, ◌≡◌, arith,
}
use heat_operator.Api.Types.{HeatServiceTemplate}
use heat_operator.Api.Route.{value}
use heat_operator.Heat.Names.{
  defaults_config_file_name, custom_config_file_name, custom_service_config_file_name,
  custom_config_secrets_file_name, custom_service_config_secrets_file_name,
}
use heat_operator.Controller.Engine.Config.{engine_custom_data}

-- the files that the operator writes itself
abbrev pub reserved : HeatServiceTemplate → GoMap String → String → GoMap String
reserved t heat_secret custom_secrets =
    (custom_service_config_secrets_file_name, custom_secrets)
    ∷ (custom_config_secrets_file_name, value (lookup custom_config_secrets_file_name heat_secret))
    ∷ (custom_config_file_name, value (lookup custom_config_file_name heat_secret))
    ∷ (defaults_config_file_name, value (lookup defaults_config_file_name heat_secret))
    ∷ (custom_service_config_file_name, t.custom_service_config)
    ∷ []

-- A file that the operator writes itself has the operator's contents in the Secret of a
-- HeatEngine, whatever DefaultConfigOverwrite holds.
pub lookup-engine_custom_data :
    (t : HeatServiceTemplate) (heat_secret : GoMap String) (custom_secrets name : String)
    → is_some (lookup name (reserved t heat_secret custom_secrets)) ≡ true
    → lookup name (engine_custom_data t heat_secret custom_secrets)
      ≡ lookup name (reserved t heat_secret custom_secrets)
unfolding engine_custom_data lookup
lookup-engine_custom_data t heat_secret custom_secrets name h = ground (
  arith,
  lookup-insert name custom_service_config_secrets_file_name custom_secrets secrets,
  lookup-insert name custom_config_secrets_file_name (parent custom_config_secrets_file_name)
      custom,
  lookup-insert name custom_config_file_name (parent custom_config_file_name) defaults,
  lookup-insert name defaults_config_file_name (parent defaults_config_file_name) own_file,
  lookup-insert name custom_service_config_file_name t.custom_service_config overwritten,
)
  where
    parent : String → String
    parent file = value (lookup file heat_secret)

    overwritten : GoMap String
    overwritten =
        copy_into (insert custom_service_config_file_name t.custom_service_config [])
          t.default_config_overwrite

    own_file : GoMap String
    own_file = insert custom_service_config_file_name t.custom_service_config overwritten

    defaults : GoMap String
    defaults = insert defaults_config_file_name (parent defaults_config_file_name) own_file

    custom : GoMap String
    custom = insert custom_config_file_name (parent custom_config_file_name) defaults

    secrets : GoMap String
    secrets = insert custom_config_secrets_file_name (parent custom_config_secrets_file_name) custom
