-- ===== src/Examples/Services.antt =====
-- The services' reconcilers on concrete instances in a cluster that grants every request.
use heat_operator.Base.{true, false, none, some, [], ◌∷◌, copy_into, refl, ◌≡◌}
use heat_operator.Api.Types.{ObjectMeta}
use heat_operator.Heat.Names.{api, cfnapi}
use heat_operator.Heat.ChildSpec.{ChildSpec}
use heat_operator.Controller.Heat.Env.{found, failed}
use heat_operator.Controller.Exec.{next, stop, empty_result}
use heat_operator.Controller.Service.Env.{Env, Service, ServiceStatus, State, Deployed, cluster_ip}
use heat_operator.Controller.Service.Normal.{reconcile_normal}
use heat_operator.Controller.Service.Safety.{IsSafe, IsConfirmed}
use heat_operator.Controller.Service.Safety.Normal.{reconcile_normal-IsConfirmed}
use heat_operator.Controller.Service.Watched.{AreCovered}
use heat_operator.Controller.Service.Watched.Normal.{reconcile_normal-AreCovered}
use heat_operator.Controller.Service.Delete.{
  reconcile_delete, release_everything, release_keystone, release_endpoint, release_service,
  drop_from, release_topology,
}
use heat_operator.Controller.Service.Delete.Laws.{Finished, reconcile_delete-Finished}
use heat_operator.Controller.Service.Reconcile.{
  Instance, reconcile, reconcile_body, dispatch, patch_and_return,
}
use heat_operator.Controller.Service.Reconcile.Laws.{
  StartsPrepared, ReportsOnly, reconcile-StartsPrepared, reconcile-ReportsOnly,
}
use heat_operator.Controller.Service.Inputs.{check_parent}
use heat_operator.Controller.Service.Config.{configure}
use heat_operator.Controller.Service.ParentMissing.{OnlyReads, check_parent-missing}
use heat_operator.Controller.Conditions.{
  not_found, is_true, is_false, input_ready, service_config_ready,
}
use heat_operator.Controller.Instances.Whole.{reconcile_of, instances-ReportsOnly}
use heat_operator.Examples.Resource.{some_opaque, written_base, some_template}
use heat_operator.Examples.Cluster.{Table, table_ops, table_laws, volume_ops}

abbrev pub service_meta : ObjectMeta
service_meta = record {
  name = "heat-api";
  namespace = "openstack";
  generation = 2;
  deleting = false;
  finalizers = "openstack.org/heatapi" ∷ [];
  annotations = ("openstack.org/input-secret-hash", "parent-hash") ∷ [];
  owner_references = record { kind = "Heat"; name = "heat" } ∷ [];
}

abbrev pub api_spec : ChildSpec
api_spec = record {
  database_hostname = "db";
  transport_url_secret = "transport-secret";
  service_account = "heat-heat";
  container_image = "api:1";
  tls = record {
    ca_bundle_secret_name = "ca";
    internal_secret_name = none;
    public_secret_name = some "cert";
  };
  override = [];
  heat_template = written_base.heat_template;
  template = some_template;
  memcached_instance = some "memcached";
}

abbrev pub api_service : Service
api_service = record { component = api; meta = service_meta; spec = api_spec }

abbrev running_deployment : Deployed
running_deployment = record {
  generation = 1;
  observed_generation = 1;
  ready_replicas = 1;
  is_ready = true;
}

abbrev pub granting : Env Table
granting = record {
  volume_ops = volume_ops;
  app_selector = "service";
  component_selector = "component";
  input_hash_name = "input";
  ca_bundle_key = "CA";
  tls_hash_name = "certs";
  endpoint_key = "endpoint";
  ingress_create_key = "core.openstack.org/ingress_create";
  hostname_key = "dnsmasq.network.openstack.org/hostname";
  finalizer = "openstack.org/heatapi";
  add_finalizer = λ f fs. (false, fs);
  remove_finalizer = λ f fs. [];
  verify_secret_fields = λ secret fields timeout log. ("h1", empty_result, none);
  get_secret = λ name log. found (("transport_url", "rabbit://") ∷ [], "h2");
  validate_ca_cert = λ name log. found "h3";
  validate_certs = λ tls log. found "h4";
  ensure_secrets = λ template vars log. (vars, none);
  hash_env = λ vars. ("hash", none);
  set_hash = λ m name hash. m;
  merge_string_maps = λ first second. copy_into second first;
  public_first = λ log. true;
  new_service = λ details override. found some_opaque;
  service_type = λ s. cluster_ip;
  service_hostname = λ s. "heat.openstack.svc";
  apply_service = λ object log. (empty_result, none);
  get_api_endpoint = λ object override https path. found "http://heat";
  apply_keystone_service = λ spec log. ((λ t. none), (empty_result, none));
  apply_keystone_endpoint = λ name urls log. ((λ t. none), (empty_result, none));
  ensure_topology = λ wanted last name log. found none;
  get_memcached = λ name log. found (record {
    is_ready = true;
    mtls_secret = "";
    server_list = "memcached:11211";
    server_list_with_inet = "inet:memcached:11211";
    tls_support = false;
  });
  apply_deployment = λ d log. (running_deployment, (empty_result, none));
  is_ready_for_input = λ name hash log. found true;
  get_keystone_endpoint = λ name log. none;
  get_keystone_service = λ name log. none;
  endpoint_has_finalizer = λ name log. true;
  service_has_finalizer = λ name log. true;
  update_keystone_endpoint = λ name log. none;
  update_keystone_service = λ name log. none;
  delete_topology_ref = λ last name log. (empty_result, none);
}

-- the parent's Secret is not there yet
abbrev orphaning : Env Table
orphaning = record granting { get_secret = λ name log. failed (not_found 0) }

abbrev pub old_status : ServiceStatus Table
old_status = record {
  hash = [];
  conditions = λ t. none;
  ready_count = 0;
  observed_generation = 1;
  last_applied_topology = none;
  applied_input_secret_hash = "old-hash";
}

abbrev pub first_state : State Table
first_state = record { status = old_status; log = [] }

reconcile_normal-IsConfirmed_example :
    IsSafe api_service (reconcile_normal table_ops granting api_service first_state).1.log
    × IsConfirmed api_service "old-hash"
        (reconcile_normal table_ops granting api_service first_state).1
reconcile_normal-IsConfirmed_example =
    reconcile_normal-IsConfirmed table_ops granting api_service first_state tt

reconcile_normal-AreCovered_example :
    AreCovered api_service (reconcile_normal table_ops granting api_service first_state).1.log
reconcile_normal-AreCovered_example =
    reconcile_normal-AreCovered table_ops granting api_service refl first_state tt

reconcile_delete-Finished_example :
    Finished table_ops granting api_service first_state.status.last_applied_topology
      ("openstack.org/heatapi" ∷ [])
      (reconcile_delete table_ops granting api_service ("openstack.org/heatapi" ∷ [], first_state))
reconcile_delete-Finished_example =
    reconcile_delete-Finished table_ops granting api_service ("openstack.org/heatapi" ∷ [])
      first_state

abbrev pub api_instance : Instance Table
api_instance = record { service = api_service; status = old_status }

abbrev dying_instance : Instance Table
dying_instance = record {
  service = record {
    component = api;
    meta = record service_meta { deleting = true };
    spec = api_spec;
  };
  status = old_status;
}

reconcile-StartsPrepared_example : StartsPrepared table_ops granting dying_instance
unfolding reconcile reconcile_body dispatch patch_and_return reconcile_delete release_everything
    release_keystone release_endpoint release_service drop_from release_topology
reconcile-StartsPrepared_example =
    reconcile-StartsPrepared table_ops granting (λ t. none) (λ i log. none) dying_instance refl

reconcile-ReportsOnly_example :
    ReportsOnly table_ops granting
      (λ t. none)
      (λ i log. none)
      api_instance
      (reconcile table_ops granting (λ t. none) (λ i log. none) none (found api_instance))
reconcile-ReportsOnly_example =
    reconcile-ReportsOnly table_ops granting (λ t. none) (λ i log. none) none api_instance

instances-ReportsOnly_example :
    ReportsOnly table_ops granting
      (λ t. none)
      (λ i log. none)
      (record { service = record api_service { component = cfnapi }; status = old_status })
      (reconcile_of table_ops granting cfnapi
        (λ t. none)
        (λ i log. none)
        none
        (found (service_meta, api_spec, old_status)))
instances-ReportsOnly_example =
    instances-ReportsOnly table_ops granting cfnapi (λ t. none) (λ i log. none) none service_meta
      api_spec old_status

check_parent-missing_example :
    (((check_parent table_ops orphaning api_service [] first_state).0 ≡ next [])
      × ((check_parent table_ops orphaning api_service [] first_state).1.conditions input_ready
          ≡ some is_true))
    × (((configure table_ops orphaning api_service [] first_state).0
          ≡ stop (empty_result, some (not_found 0)))
        × ((configure table_ops orphaning api_service [] first_state).1.conditions
              service_config_ready
            ≡ some is_false))
    × OnlyReads (reconcile_normal table_ops orphaning api_service first_state).1.log
check_parent-missing_example =
    check_parent-missing table_ops table_laws orphaning api_service (not_found 0) (λ log. refl) refl
      [] [] first_state first_state first_state tt
