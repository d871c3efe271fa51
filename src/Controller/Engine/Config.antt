-- ===== src/Controller/Engine/Config.antt =====
-- The configuration Secret of a HeatEngine: the custom data that generateServiceSecrets of
-- internal/controller/heatengine_controller.go builds of the secrets that it has read.
pub mod Laws
use heat_operator.Base.{String, [], GoMap, lookup, insert, copy_into}
use heat_operator.Api.Types.{HeatServiceTemplate}
use heat_operator.Api.Route.{value}
use heat_operator.Heat.Names.{
  defaults_config_file_name, custom_config_file_name, custom_service_config_file_name,
  custom_config_secrets_file_name, custom_service_config_secrets_file_name,
}

-- The service's own configuration, written before and after the files of DefaultConfigOverwrite;
-- then three files of the parent's Secret (a missing key is an empty file), and the concatenation
-- of the service's secrets.
unfoldable pub engine_custom_data :
    HeatServiceTemplate → (heat_secret : GoMap String) → (custom_secrets : String) → GoMap String
engine_custom_data t heat_secret custom_secrets =
    let start = insert custom_service_config_file_name t.custom_service_config [] in
    let overwritten = copy_into start t.default_config_overwrite in
    let own = insert custom_service_config_file_name t.custom_service_config overwritten in
    let defaults =
      insert defaults_config_file_name (value (lookup defaults_config_file_name heat_secret)) own in
    let custom =
      insert custom_config_file_name (value (lookup custom_config_file_name heat_secret))
        defaults in
    let secrets =
      insert custom_config_secrets_file_name
        (value (lookup custom_config_secrets_file_name heat_secret)) custom in
    insert custom_service_config_secrets_file_name custom_secrets secrets
