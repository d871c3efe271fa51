-- ===== src/Examples/Children.antt =====
-- The children of the concrete Heat resource, with a Memcached that has mTLS.
use heat_operator.Base.{true, none, some, ◌≡◌}
use heat_operator.Api.Children.{HeatApiSpec, HeatCfnApiSpec, HeatEngineSpec}
use heat_operator.Controller.Heat.Env.{Memcached}
use heat_operator.Controller.Watches.{Resource}
use heat_operator.Controller.Children.Laws.{
  of_api, of_cfnapi, of_engine, update_api, update_cfnapi, update_engine, update_shared,
  children_agree,
}
use heat_operator.Examples.Resource.{written, heat_meta}
use heat_operator.Examples.Services.{service_meta, old_status}

abbrev mtls_memcached : Memcached
mtls_memcached = record {
  is_ready = true;
  mtls_secret = "memcached-mtls";
  server_list = "";
  server_list_with_inet = "";
  tls_support = true;
}

abbrev api_child : Resource HeatApiSpec
api_child = record {
  meta = service_meta;
  spec = record {
    database_hostname = "old-db";
    transport_url_secret = "old-transport";
    service_account = "heat-heat";
    heat_template = written.heat_template;
    heat_api_template = written.heat_api;
    memcached_instance = some "memcached";
  };
}

abbrev cfnapi_child : Resource HeatCfnApiSpec
cfnapi_child = record {
  meta = service_meta;
  spec = record {
    database_hostname = "old-db";
    transport_url_secret = "old-transport";
    service_account = "heat-heat";
    heat_template = written.heat_template;
    heat_cfn_api_template = written.heat_cfn_api;
    memcached_instance = none;
  };
}

abbrev engine_child : Resource HeatEngineSpec
engine_child = record {
  meta = service_meta;
  spec = record {
    database_hostname = "old-db";
    transport_url_secret = "old-transport";
    service_account = "heat-heat";
    ca_bundle_secret_name = "old-ca";
    heat_template = written.heat_template;
    heat_engine_template = written.heat_engine;
    memcached_instance = none;
  };
}

children_agree_example :
    ((of_api old_status
          (update_api heat_meta written "db" mtls_memcached "transport" "hash" api_child)
        ≡ update_shared heat_meta written "db" mtls_memcached "transport" "hash"
            (of_api old_status api_child))
      × (update_api heat_meta written "db" mtls_memcached "transport" "hash"
            (update_api heat_meta written "db" mtls_memcached "transport" "hash" api_child)
          ≡ update_api heat_meta written "db" mtls_memcached "transport" "hash" api_child))
    × ((of_cfnapi old_status
            (update_cfnapi heat_meta written "db" mtls_memcached "transport" "hash" cfnapi_child)
          ≡ update_shared heat_meta written "db" mtls_memcached "transport" "hash"
              (of_cfnapi old_status cfnapi_child))
        × (update_cfnapi heat_meta written "db" mtls_memcached "transport" "hash"
              (update_cfnapi heat_meta written "db" mtls_memcached "transport" "hash" cfnapi_child)
            ≡ update_cfnapi heat_meta written "db" mtls_memcached "transport" "hash" cfnapi_child))
    × ((of_engine old_status
            (update_engine heat_meta written "db" mtls_memcached "transport" "hash" engine_child)
          ≡ update_shared heat_meta written "db" mtls_memcached "transport" "hash"
              (of_engine old_status engine_child))
        × (update_engine heat_meta written "db" mtls_memcached "transport" "hash"
              (update_engine heat_meta written "db" mtls_memcached "transport" "hash" engine_child)
            ≡ update_engine heat_meta written "db" mtls_memcached "transport" "hash" engine_child))
children_agree_example =
    children_agree heat_meta written "db" mtls_memcached "transport" "hash" old_status api_child
      cfnapi_child engine_child
