-- ===== src/Controller/Children.antt =====
-- apiDeploymentCreateOrUpdate, cfnapiDeploymentCreateOrUpdate and engineDeploymentCreateOrUpdate of
-- internal/controller/heat_controller.go, each on the type of its own child: the spec that is built
-- from the Heat resource, and the mutate function of CreateOrUpdate on the child that is there, but
-- for the owner reference.
pub mod Laws
use heat_operator.Base.{String, Option, none, some, nonempty, insert, if◌then◌else◌}
use heat_operator.Api.Types.{ObjectMeta, HeatSpec, HeatServiceTemplate}
use heat_operator.Api.Children.{HeatApiSpec, HeatCfnApiSpec, HeatEngineSpec}
use heat_operator.Heat.Names.{rbac_resource_name}
use heat_operator.Controller.Heat.Env.{Memcached}
use heat_operator.Controller.Heat.Children.{or_else}
use heat_operator.Controller.Watches.{Resource}

-- `spec.NodeSelector` and `spec.TopologyRef`, inherited where they are nil
abbrev inherit : HeatSpec → HeatServiceTemplate → HeatServiceTemplate
inherit spec template = record template {
  node_selector = or_else template.node_selector spec.base.node_selector;
  topology_ref = or_else template.topology_ref spec.base.topology_ref;
}

-- `if memcached.GetMemcachedMTLSSecret() != ""`
abbrev mtls_instance : HeatSpec → Memcached → Option String
mtls_instance spec mc = if nonempty mc.mtls_secret then some spec.memcached_instance else none

abbrev annotated : String → ObjectMeta → ObjectMeta
annotated hash meta = record meta {
  annotations = insert "openstack.org/input-secret-hash" hash meta.annotations;
}

module _ (meta : ObjectMeta) (spec : HeatSpec) (database_hostname : String) (mc : Memcached)
    (transport_url_secret expected_input_hash : String) where
  abbrev heat_api_spec : HeatApiSpec
  heat_api_spec =
      let api = spec.heat_api in
      let core = api.core in
      record {
        heat_template = spec.heat_template;
        heat_api_template = record api {
          core = record core { template = inherit spec core.template };
        };
        database_hostname = database_hostname;
        transport_url_secret = transport_url_secret;
        service_account = rbac_resource_name meta.name;
        memcached_instance = mtls_instance spec mc;
      }

  unfoldable pub api_deployment_create_or_update : Resource HeatApiSpec → Resource HeatApiSpec
  api_deployment_create_or_update deployment =
      let built = heat_api_spec in
      record {
        meta = annotated expected_input_hash deployment.meta;
        spec = record built {
          memcached_instance = or_else built.memcached_instance deployment.spec.memcached_instance;
        };
      }

  abbrev heat_cfn_api_spec : HeatCfnApiSpec
  heat_cfn_api_spec =
      let api = spec.heat_cfn_api in
      let core = api.core in
      record {
        heat_template = spec.heat_template;
        heat_cfn_api_template = record api {
          core = record core { template = inherit spec core.template };
        };
        database_hostname = database_hostname;
        transport_url_secret = transport_url_secret;
        service_account = rbac_resource_name meta.name;
        memcached_instance = mtls_instance spec mc;
      }

  unfoldable pub cfnapi_deployment_create_or_update :
      Resource HeatCfnApiSpec → Resource HeatCfnApiSpec
  cfnapi_deployment_create_or_update deployment =
      let built = heat_cfn_api_spec in
      record {
        meta = annotated expected_input_hash deployment.meta;
        spec = record built {
          memcached_instance = or_else built.memcached_instance deployment.spec.memcached_instance;
        };
      }

  -- TLS.Ca of the HeatAPI template
  abbrev heat_engine_spec : HeatEngineSpec
  heat_engine_spec =
      let engine = spec.heat_engine in
      record {
        heat_template = spec.heat_template;
        heat_engine_template = record engine { template = inherit spec engine.template };
        database_hostname = database_hostname;
        transport_url_secret = transport_url_secret;
        service_account = rbac_resource_name meta.name;
        ca_bundle_secret_name = spec.heat_api.tls.ca_bundle_secret_name;
        memcached_instance = mtls_instance spec mc;
      }

  unfoldable pub engine_deployment_create_or_update :
      Resource HeatEngineSpec → Resource HeatEngineSpec
  engine_deployment_create_or_update deployment =
      let built = heat_engine_spec in
      record {
        meta = annotated expected_input_hash deployment.meta;
        spec = record built {
          memcached_instance = or_else built.memcached_instance deployment.spec.memcached_instance;
        };
      }
