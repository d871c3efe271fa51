-- ===== src/Controller/Children/Laws.antt =====
-- The three functions write what the shared model of a child's write does, and writing twice is
-- writing once.
use heat_operator.Base.{String, none, insert, [], ◌∷◌, GoMap, eq_refl, ◌≡◌, refl, arith}
use heat_operator.Api.Types.{ObjectMeta, HeatSpec}
use heat_operator.Api.Children.{HeatApiSpec, HeatCfnApiSpec, HeatEngineSpec}
use heat_operator.Heat.Names.{engine, api, cfnapi}
use heat_operator.Heat.ChildSpec.{ChildSpec}
use heat_operator.Controller.Heat.Env.{Memcached}
use heat_operator.Controller.Heat.Children.{child_spec}
use heat_operator.Controller.Service.Env.{ServiceStatus}
use heat_operator.Controller.Service.Reconcile.{Instance}
use heat_operator.Controller.Watches.{Resource}
use heat_operator.Controller.Handshake.{mutate_child}
use heat_operator.Controller.Children.{
  api_deployment_create_or_update, cfnapi_deployment_create_or_update,
  engine_deployment_create_or_update,
}

-- the spec of a child, as the model that the services share has it
abbrev pub api_child : HeatApiSpec → ChildSpec
api_child s = record {
  database_hostname = s.database_hostname;
  transport_url_secret = s.transport_url_secret;
  service_account = s.service_account;
  container_image = s.heat_api_template.container_image;
  tls = s.heat_api_template.tls;
  override = s.heat_api_template.override;
  heat_template = s.heat_template;
  template = s.heat_api_template.template;
  memcached_instance = s.memcached_instance;
}

abbrev pub cfnapi_child : HeatCfnApiSpec → ChildSpec
cfnapi_child s = record {
  database_hostname = s.database_hostname;
  transport_url_secret = s.transport_url_secret;
  service_account = s.service_account;
  container_image = s.heat_cfn_api_template.container_image;
  tls = s.heat_cfn_api_template.tls;
  override = s.heat_cfn_api_template.override;
  heat_template = s.heat_template;
  template = s.heat_cfn_api_template.template;
  memcached_instance = s.memcached_instance;
}

abbrev pub engine_child : HeatEngineSpec → ChildSpec
engine_child s = record {
  database_hostname = s.database_hostname;
  transport_url_secret = s.transport_url_secret;
  service_account = s.service_account;
  container_image = s.heat_engine_template.container_image;
  tls = record {
    ca_bundle_secret_name = s.ca_bundle_secret_name;
    internal_secret_name = none;
    public_secret_name = none;
  };
  override = [];
  heat_template = s.heat_template;
  template = s.heat_engine_template.template;
  memcached_instance = s.memcached_instance;
}

module _ {C : Type 0} (status : ServiceStatus C) where
  abbrev pub of_api : Resource HeatApiSpec → Instance C
  of_api r = record {
    service = record { component = api; meta = r.meta; spec = api_child r.spec };
    status = status;
  }

  abbrev pub of_cfnapi : Resource HeatCfnApiSpec → Instance C
  of_cfnapi r = record {
    service = record { component = cfnapi; meta = r.meta; spec = cfnapi_child r.spec };
    status = status;
  }

  abbrev pub of_engine : Resource HeatEngineSpec → Instance C
  of_engine r = record {
    service = record { component = engine; meta = r.meta; spec = engine_child r.spec };
    status = status;
  }

insert-insert : (k v : String) (m : GoMap String) → insert k v (insert k v m) ≡ insert k v m
unfolding insert
insert-insert k v [] = ground (arith, eq_refl k)
insert-insert k v ((j, w) ∷ m) = ground (arith, eq_refl k, insert-insert k v m)

module _ (meta : ObjectMeta) (spec : HeatSpec) (hostname : String) (mc : Memcached)
    (secret hash : String) where
  abbrev pub update_api : Resource HeatApiSpec → Resource HeatApiSpec
  update_api = api_deployment_create_or_update meta spec hostname mc secret hash

  abbrev pub update_cfnapi : Resource HeatCfnApiSpec → Resource HeatCfnApiSpec
  update_cfnapi = cfnapi_deployment_create_or_update meta spec hostname mc secret hash

  abbrev pub update_engine : Resource HeatEngineSpec → Resource HeatEngineSpec
  update_engine = engine_deployment_create_or_update meta spec hostname mc secret hash

  abbrev pub update_shared : {C : Type 0} → Instance C → Instance C
  update_shared = mutate_child meta spec hostname mc secret hash

  api_settled : (a : Resource HeatApiSpec) → update_api (update_api a) ≡ update_api a
  unfolding api_deployment_create_or_update
  api_settled a =
      ground (arith, insert-insert "openstack.org/input-secret-hash" hash a.meta.annotations)

  cfnapi_settled : (c : Resource HeatCfnApiSpec) → update_cfnapi (update_cfnapi c) ≡ update_cfnapi c
  unfolding cfnapi_deployment_create_or_update
  cfnapi_settled c =
      ground (arith, insert-insert "openstack.org/input-secret-hash" hash c.meta.annotations)

  engine_settled : (e : Resource HeatEngineSpec) → update_engine (update_engine e) ≡ update_engine e
  unfolding engine_deployment_create_or_update
  engine_settled e =
      ground (arith, insert-insert "openstack.org/input-secret-hash" hash e.meta.annotations)

  -- Each of the three CreateOrUpdate functions of the children, on its own type, is the one write
  -- that the model of the services has, whatever the status of the child: a HeatEngine has no
  -- certificates and no overrides, and the other fields are those that the types share. And each is
  -- idempotent: on the child that it wrote it changes nothing.
  pub children_agree :
      {C : Type 0} (status : ServiceStatus C) (a : Resource HeatApiSpec)
      (c : Resource HeatCfnApiSpec) (e : Resource HeatEngineSpec)
      → ((of_api status (update_api a) ≡ update_shared (of_api status a))
          × (update_api (update_api a) ≡ update_api a))
        × ((of_cfnapi status (update_cfnapi c) ≡ update_shared (of_cfnapi status c))
            × (update_cfnapi (update_cfnapi c) ≡ update_cfnapi c))
        × ((of_engine status (update_engine e) ≡ update_shared (of_engine status e))
            × (update_engine (update_engine e) ≡ update_engine e))
  unfolding mutate_child child_spec api_deployment_create_or_update
      cfnapi_deployment_create_or_update engine_deployment_create_or_update
  children_agree status a c e =
      ((refl, api_settled a), (refl, cfnapi_settled c), (refl, engine_settled e))
