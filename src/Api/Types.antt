-- ===== src/Api/Types.antt =====
-- The resources of api/v1beta1 (heat_types.go, heatapi_types.go, heatcfnapi_types.go,
-- heatengine_types.go, common_types.go). A pointer is an `Option`, an embedded struct is a field
-- that the record opens. A value of a foreign type that the code only passes on is an `Opaque`.
use heat_operator.Base.{ℕ, String, Bool, Option, List, GoMap}

-- A value of a foreign struct: nothing is known of it but which one it is.
pub record Opaque : Type 0 where
  pub ident : ℕ

pub record TopoRef : Type 0 where
  pub name : String
  pub namespace : String

pub record RabbitMqConfig : Type 0 where
  pub cluster : String
  pub user : String
  pub vhost : String

pub record PasswordSelector : Type 0 where
  pub service : String
  pub auth_encryption_key : String
  pub stack_domain_admin_password : String

pub record DbPurge : Type 0 where
  pub age : ℕ
  pub schedule : String

pub record HeatExtraVolMounts : Type 0 where
  pub name : String
  pub region : String
  pub vol_mounts : List Opaque

pub record HeatTemplate : Type 0 where
  pub service_user : String
  pub database_account : String
  pub secret : String
  pub password_selectors : PasswordSelector
  pub extra_mounts : List HeatExtraVolMounts
  pub application_credential_secret : String  -- Auth.ApplicationCredentialSecret

pub record HeatServiceTemplate : Type 0 where
  pub replicas : Option ℕ
  pub default_config_overwrite : GoMap String
  pub node_selector : Option (GoMap String)
  pub custom_service_config : String
  pub custom_service_config_secrets : List String
  pub resources : Opaque
  pub topology_ref : Option TopoRef

-- tls.API: the CA bundle and the secrets of the two endpoints
pub record Tls : Type 0 where
  pub ca_bundle_secret_name : String
  pub internal_secret_name : Option String
  pub public_secret_name : Option String

-- HeatAPITemplateCore and HeatCfnAPITemplateCore have the same fields.
pub record HeatApiTemplateCore : Type 0 where
  pub override : GoMap Opaque  -- Override.Service, keyed by the endpoint
  pub tls : Tls
  pub template : HeatServiceTemplate
  pub open template use *

pub record HeatApiTemplate : Type 0 where
  pub container_image : String
  pub core : HeatApiTemplateCore
  pub open core use *

pub record HeatEngineTemplate : Type 0 where
  pub container_image : String
  pub template : HeatServiceTemplate  -- HeatEngineTemplateCore embeds this alone
  pub open template use *

pub record HeatSpecBase : Type 0 where
  pub database_instance : String
  pub memcached_instance : String
  pub rabbit_mq_cluster_name : String
  pub messaging_bus : RabbitMqConfig
  pub notifications_bus : Option RabbitMqConfig
  pub custom_service_config : String
  pub custom_service_config_secrets : List String
  pub preserve_jobs : Bool
  pub default_config_overwrite : GoMap String
  pub node_selector : Option (GoMap String)
  pub api_timeout : ℕ
  pub heat_template : HeatTemplate
  pub open heat_template use *
  pub topology_ref : Option TopoRef
  pub db_purge : DbPurge

pub record HeatSpec : Type 0 where
  pub base : HeatSpecBase
  pub open base use *
  pub heat_api : HeatApiTemplate
  pub heat_cfn_api : HeatApiTemplate
  pub heat_engine : HeatEngineTemplate

-- The spec without container images, as OpenStackControlplane embeds it.
pub record HeatSpecCore : Type 0 where
  pub base : HeatSpecBase
  pub open base use *
  pub heat_api : HeatApiTemplateCore
  pub heat_cfn_api : HeatApiTemplateCore
  pub heat_engine : HeatServiceTemplate

pub record OwnerReference : Type 0 where
  pub kind : String
  pub name : String

-- metav1.ObjectMeta. `deleting` is `!DeletionTimestamp.IsZero()`.
pub record ObjectMeta : Type 0 where
  pub name : String
  pub namespace : String
  pub generation : ℕ
  pub deleting : Bool
  pub finalizers : List String
  pub annotations : GoMap String
  pub owner_references : List OwnerReference

-- HeatStatus, over the type of condition.Conditions
pub record HeatStatus (C : Type 0) : Type 0 where
  pub conditions : C
  pub hash : GoMap String
  pub database_hostname : String
  pub transport_url_secret : String
  pub notifications_transport_url_secret : String
  pub heat_api_ready_count : ℕ
  pub heat_cfn_api_ready_count : ℕ
  pub heat_engine_ready_count : ℕ
  pub application_credential_secret : String
  pub observed_generation : ℕ
