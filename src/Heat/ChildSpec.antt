-- ===== src/Heat/ChildSpec.antt =====
-- The specs that the Heat reconciler gives its children (HeatAPISpec, HeatCfnAPISpec and
-- HeatEngineSpec of api/v1beta1), as one record: the template is the component's own.
use heat_operator.Base.{String, Option, GoMap}
use heat_operator.Api.Types.{Opaque, Tls, HeatTemplate, HeatServiceTemplate}

pub record ChildSpec : Type 0 where
  pub database_hostname : String
  pub transport_url_secret : String
  pub service_account : String
  pub container_image : String
  pub tls : Tls  -- of a HeatEngine only the CA bundle
  pub override : GoMap Opaque  -- of the two APIs
  pub heat_template : HeatTemplate
  pub template : HeatServiceTemplate
  pub memcached_instance : Option String
