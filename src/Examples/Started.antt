-- ===== src/Examples/Started.antt =====
-- The client of the started operator, and a HeatAPI that uses a certificate.
use mathlib.Core.Path.{subst}
use heat_operator.Base.{true, false, [], ◌∷◌, ◌≡◌, ◌⊎◌, refl, sym, arith, eq_iff, lookup}
use heat_operator.Api.Defaults.{heat_api_container_image, heat_engine_container_image}
use heat_operator.Heat.Names.{api, get_owning_heat_name}
use heat_operator.Controller.Service.Normal.{reconcile_normal}
use heat_operator.Controller.Service.Watched.{AllRead}
use heat_operator.Controller.Setup.{Mgr, index_field, complete}
use heat_operator.Controller.Setup.Controllers.{
  setup_heat, setup_heat_api, setup_heat_cfn_api, setup_heat_engine,
}
use heat_operator.Controller.Setup.Laws.{full_mgr}
use heat_operator.Controller.Watches.{
  password_secret, transport_url_secret, ca_bundle_secret_name, tls_api_internal, tls_api_public,
  custom_service_config, topology, auth_app_cred_secret,
}
use heat_operator.Manager.Env.{initial_state}
use heat_operator.Manager.Slices.{append}
use heat_operator.Manager.Main.{
  main, append_option, base_tls_opts, watch_cert, manager_options, create_manager, set_up,
  set_up_controllers, install_defaults, setup_webhook, choose_checker, add_watcher, add_checks,
  start,
}
use heat_operator.Manager.Watching.{IsCached, Updates, IsAnswered, main-AreRequested}
use heat_operator.Examples.Cluster.{table_ops}
use heat_operator.Examples.Services.{api_service, granting, first_state}
use heat_operator.Examples.Start.{flags, env, keeps}
use heat_operator.Examples.Watching.{api_resource, client}

abbrev mgr : Mgr
mgr = (main env flags initial_state).1.mgr

registered : mgr ≡ full_mgr
unfolding main append_option base_tls_opts watch_cert manager_options create_manager set_up
    set_up_controllers install_defaults setup_webhook choose_checker add_watcher add_checks start
    setup_heat setup_heat_api setup_heat_cfn_api setup_heat_engine index_field complete append
registered = refl

full_client : IsCached full_mgr.indexes api (api_resource ∷ []) client
full_client password_secret = λ name namespace. refl
full_client transport_url_secret = λ name namespace. refl
full_client ca_bundle_secret_name = λ name namespace. refl
full_client tls_api_internal = λ name namespace. refl
full_client tls_api_public = λ name namespace. refl
full_client custom_service_config = λ name namespace. refl
full_client topology = λ name namespace. refl
full_client auth_app_cred_secret = tt

cached : IsCached mgr.indexes api (api_resource ∷ []) client
cached = subst (λ m. IsCached m.indexes api (api_resource ∷ []) client) (sym registered) full_client

-- Every change goes through, and every object has the label of the parent.
abbrev updates : Updates "owner" api_service
unfolding lookup get_owning_heat_name
updates = record {
  labels = λ name. ("owner", "heat") ∷ [];
  secret = λ p. true;
  topology = λ p. true;
  from_parent = refl;
  is_update = refl;
  new_version = refl;
  new_generation = refl;
}

main-AreRequested_example :
    ((main env flags initial_state).1.is_started ≡ false)
    ⊎ AllRead
        (IsAnswered client "owner" api_service updates
          (main env flags initial_state).1.mgr.controllers)
        (reconcile_normal table_ops granting api_service first_state).1.log
main-AreRequested_example =
    main-AreRequested env flags keeps (λ h. ground (arith, h, eq_iff heat_api_container_image ""))
      (λ h. ground (arith, h, eq_iff heat_engine_container_image "")) client "owner" api_service
      updates [] [] refl cached (λ namespace. refl) table_ops granting refl first_state tt
