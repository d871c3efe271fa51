-- ===== src/Heat/Names.antt =====
-- internal/heat/const.go and funcs.go: names that the reconcilers share.
use heat_operator.Base.{String, List, [], ◌∷◌, ◌==◌, if◌then◌else◌, ◌<>◌}
use heat_operator.Api.Types.{OwnerReference}

-- the three deployed services
pub data Component : Type 0 where
  engine api cfnapi : Component

abbrev pub service_name : String
service_name = "heat"

abbrev pub stack_user_role : String
stack_user_role = "heat_stack_user"

abbrev pub stack_domain_admin_username : String
stack_domain_admin_username = "heat_stack_domain_admin"

abbrev pub stack_domain_name : String
stack_domain_name = "heat_stack"

abbrev pub database_name : String
database_name = "heat"

abbrev pub defaults_config_file_name : String
defaults_config_file_name = "00-default.conf"

abbrev pub custom_config_file_name : String
custom_config_file_name = "01-custom.conf"

abbrev pub custom_service_config_file_name : String
custom_service_config_file_name = "02-custom-service.conf"

abbrev pub custom_config_secrets_file_name : String
custom_config_secrets_file_name = "03-custom-secrets.conf"

abbrev pub custom_service_config_secrets_file_name : String
custom_service_config_secrets_file_name = "04-custom-service-secrets.conf"

abbrev pub ac_consumer_finalizer : String
ac_consumer_finalizer = "openstack.org/heat-ac-consumer"

abbrev pub transport_consumer_finalizer : String
transport_consumer_finalizer = "openstack.org/heat-transport-consumer"

-- GetOwningHeatName: the first owner of kind Heat
unfoldable pub get_owning_heat_name : List OwnerReference → String
get_owning_heat_name [] = ""
get_owning_heat_name (ref ∷ refs) =
    if ref.kind == "Heat" then ref.name else get_owning_heat_name refs

-- (instance Heat) RbacResourceName
abbrev pub rbac_resource_name : String → String
rbac_resource_name name = "heat-" <> name

-- the Secret that generateServiceSecrets renders for a resource
abbrev pub config_data_name : String → String
config_data_name name = name <> "-config-data"
