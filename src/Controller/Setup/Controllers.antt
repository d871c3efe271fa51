-- ===== src/Controller/Setup/Controllers.antt =====
-- What each controller registers, in the order of its file, and its early returns.
use heat_operator.Base.{Option, none, [], ◌∷◌}
use heat_operator.Controller.Conditions.{Err}
use heat_operator.Controller.Exec.{Exec, pure, ◌>>◌}
use heat_operator.Controller.Watches.{
  Field, heat_index, heat_api_index, heat_cfn_api_index, heat_engine_index, password_secret,
  transport_url_secret, ca_bundle_secret_name, tls_api_internal, tls_api_public,
  custom_service_config, topology, auth_app_cred_secret,
}
use heat_operator.Controller.Setup.{
  Index, Builder, Watch, SetupOps, Mgr, index_field, complete, heat, heat_api, heat_cfn_api,
  heat_engine, mariadb_database, mariadb_account, job, cron_job, transport_url, service_account,
  role, role_binding, deployment, keystone_service, keystone_endpoint, k8s_service, memcached,
  k8s_secret, keystone_api, k8s_topology, of_heat, of_service, by_memcached_fn, by_secret_fn,
  by_find_objects_for_src, by_find_object_for_src, any_change, resource_version_changed,
  generation_changed, keystone_status_changed,
}

abbrev watch_secrets : Watch
watch_secrets = record {
  kind = k8s_secret;
  handler = by_find_objects_for_src;
  predicate = resource_version_changed;
}

abbrev watch_topologies : Watch
watch_topologies = record {
  kind = k8s_topology;
  handler = by_find_objects_for_src;
  predicate = generation_changed;
}

-- the Secrets of the parent
abbrev watch_owner : Watch
watch_owner = record { kind = k8s_secret; handler = by_secret_fn; predicate = any_change }

abbrev pub heat_builder : Builder
heat_builder = record {
  reconciled = heat;
  owned =
      heat_api ∷ heat_cfn_api ∷ heat_engine ∷ mariadb_database ∷ mariadb_account ∷ job ∷ cron_job
      ∷ transport_url ∷ service_account ∷ role ∷ role_binding ∷ [];
  watched =
      (record { kind = memcached; handler = by_memcached_fn; predicate = any_change })
      ∷ watch_secrets
      ∷ (record {
        kind = keystone_api;
        handler = by_find_object_for_src;
        predicate = keystone_status_changed;
      })
      ∷ [];
}

abbrev pub heat_api_builder : Builder
heat_api_builder = record {
  reconciled = heat_api;
  owned = keystone_service ∷ keystone_endpoint ∷ deployment ∷ k8s_service ∷ [];
  watched = watch_owner ∷ watch_secrets ∷ watch_topologies ∷ [];
}

abbrev pub heat_cfn_api_builder : Builder
heat_cfn_api_builder = record {
  reconciled = heat_cfn_api;
  owned = keystone_service ∷ keystone_endpoint ∷ deployment ∷ k8s_service ∷ [];
  watched = watch_owner ∷ watch_secrets ∷ watch_topologies ∷ [];
}

abbrev pub heat_engine_builder : Builder
heat_engine_builder = record {
  reconciled = heat_engine;
  owned = deployment ∷ [];
  watched = watch_owner ∷ watch_secrets ∷ watch_topologies ∷ [];
}

abbrev pub heat_field : Field → Index
heat_field f = record { kind = heat; field = f; extract = of_heat (λ spec. heat_index spec f) }

abbrev pub heat_api_field : Field → Index
heat_api_field f = record {
  kind = heat_api;
  field = f;
  extract = of_service (λ spec. heat_api_index spec f);
}

abbrev pub heat_cfn_api_field : Field → Index
heat_cfn_api_field f = record {
  kind = heat_cfn_api;
  field = f;
  extract = of_service (λ spec. heat_cfn_api_index spec f);
}

abbrev pub heat_engine_field : Field → Index
heat_engine_field f = record {
  kind = heat_engine;
  field = f;
  extract = of_service (λ spec. heat_engine_index spec f);
}

module _ (ops : SetupOps) where
  -- (r *HeatReconciler) SetupWithManager
  unfoldable pub setup_heat : Exec (Option Err) Mgr (Option Err)
  setup_heat = do
    index_field ops (heat_field password_secret)
    index_field ops (heat_field custom_service_config)
    index_field ops (heat_field auth_app_cred_secret)
    complete ops heat_builder
    pure none

  -- (r *HeatAPIReconciler) SetupWithManager
  unfoldable pub setup_heat_api : Exec (Option Err) Mgr (Option Err)
  setup_heat_api = do
    index_field ops (heat_api_field password_secret)
    index_field ops (heat_api_field transport_url_secret)
    index_field ops (heat_api_field ca_bundle_secret_name)
    index_field ops (heat_api_field tls_api_internal)
    index_field ops (heat_api_field tls_api_public)
    index_field ops (heat_api_field custom_service_config)
    index_field ops (heat_api_field topology)
    complete ops heat_api_builder
    pure none

  -- (r *HeatCfnAPIReconciler) SetupWithManager
  unfoldable pub setup_heat_cfn_api : Exec (Option Err) Mgr (Option Err)
  setup_heat_cfn_api = do
    index_field ops (heat_cfn_api_field password_secret)
    index_field ops (heat_cfn_api_field transport_url_secret)
    index_field ops (heat_cfn_api_field ca_bundle_secret_name)
    index_field ops (heat_cfn_api_field tls_api_internal)
    index_field ops (heat_cfn_api_field tls_api_public)
    index_field ops (heat_cfn_api_field custom_service_config)
    index_field ops (heat_cfn_api_field topology)
    complete ops heat_cfn_api_builder
    pure none

  -- (r *HeatEngineReconciler) SetupWithManager
  unfoldable pub setup_heat_engine : Exec (Option Err) Mgr (Option Err)
  setup_heat_engine = do
    index_field ops (heat_engine_field password_secret)
    index_field ops (heat_engine_field transport_url_secret)
    index_field ops (heat_engine_field ca_bundle_secret_name)
    index_field ops (heat_engine_field custom_service_config)
    index_field ops (heat_engine_field topology)
    complete ops heat_engine_builder
    pure none
