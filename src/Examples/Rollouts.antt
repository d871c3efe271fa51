-- ===== src/Examples/Rollouts.antt =====
-- The handshake of a parent and a service, and a reconcile of a service that is through, in a cluster
-- that grants every request.
use heat_operator.Base.{
  if◌then◌else◌, String, true, false, none, some, [], ◌∷◌, GoMap, lookup, insert, arith, refl, ◌≡◌,
  ◌⊎◌,
}
use heat_operator.Heat.Jobs.Mounts.{AreDeclaredBut}
use heat_operator.Heat.Deployments.Mounts.{
  DeploymentLaws, DeploymentFits, given_mounts, engine_services, api_services,
  deployments-AreDeclaredBut,
}
use heat_operator.Examples.Builders.{volume_laws}
use heat_operator.Heat.Deployments.{
  Rollout, engine_deployment, cfnapi_deployment, httpd_deployment, api_deployment, format_tls,
  endpoint_certs,
}
use heat_operator.Controller.Conditions.{input_ready, tls_input_ready, is_true, is_false}
use heat_operator.Controller.Heat.Env.{Memcached, found}
use heat_operator.Controller.Service.Safety.{just_confirmed}
use heat_operator.Controller.Handshake.Runs.{
  Run, start, followed, parent_writes, child_reconciles, asked, IsKnown, reported-IsKnown,
}
use heat_operator.Controller.Handshake.{mutate_child, Agreed, handshake}
use heat_operator.Controller.Service.Env.{State}
use heat_operator.Controller.Service.Inputs.{
  verify_secret, get_secret, check_parent, check_inputs, check_ca_bundle, check_certs, check_tls,
}
use heat_operator.Controller.Service.Config.{
  custom_secrets, generate_service_secrets, create_hash_of_input_hashes, hash_inputs, configure,
}
use heat_operator.Heat.Volumes.{internal, public}
use heat_operator.Controller.Service.Endpoints.Urls.{HasUrl, expose_all-urls}
use heat_operator.Controller.Service.Endpoints.{
  api_kind, annotated, expose, exposed, range_order, expose_all, register, reconcile_init,
  initialise,
}
use heat_operator.Controller.Service.Topology.{ensure_topology, topology_done, handle_topology}
use heat_operator.Controller.Service.Rollout.{
  find_memcached, apply_deployment, check_ready, report_ready, count_ready, observe, roll_out,
}
use heat_operator.Controller.Service.Normal.{finish, reconcile_normal}
use heat_operator.Controller.Service.Reconcile.{
  Instance, reconcile, reconcile_body, patch_and_return,
}
use heat_operator.Controller.Service.Clean.Normal.{reconcile_normal-settled_or_tls}
use heat_operator.Examples.Resource.{written, heat_meta}
use heat_operator.Examples.Cluster.{Table, table_ops, table_laws, volume_ops}
use heat_operator.Examples.Services.{granting, api_spec, first_state, api_service, api_instance}

reconcile_normal-settled_or_tls_example :
    ((reconcile_normal table_ops granting api_service first_state).1.conditions tls_input_ready
      ≡ some is_false)
    ⊎ ((reconcile_normal table_ops granting api_service first_state).1.conditions input_ready
        ≡ some is_true)
unfolding reconcile_normal finish verify_secret get_secret check_parent check_inputs check_ca_bundle
    check_certs check_tls custom_secrets generate_service_secrets hash_inputs
    create_hash_of_input_hashes configure annotated expose exposed range_order expose_all register
    reconcile_init initialise ensure_topology topology_done handle_topology find_memcached
    apply_deployment check_ready report_ready count_ready observe roll_out httpd_deployment
    api_deployment format_tls endpoint_certs
reconcile_normal-settled_or_tls_example =
    reconcile_normal-settled_or_tls table_ops table_laws granting api_service input_ready refl
      first_state refl

abbrev plain_memcached : Memcached
plain_memcached = record {
  is_ready = true;
  mtls_secret = "";
  server_list = "memcached:11211";
  server_list_with_inet = "inet:memcached:11211";
  tls_support = false;
}

abbrev told_child : Instance Table
told_child =
    mutate_child heat_meta written "db" plain_memcached "transport-secret" "new-hash" api_instance

abbrev child_after : Instance Table
child_after =
    elim (reconcile table_ops granting (λ t. none) (λ i log. none) none
      (found told_child)).patched [ none ↦ api_instance | some c ↦ c ]

handshake_example :
    Agreed table_ops "new-hash" api_instance child_after
      (reconcile table_ops granting (λ t. none) (λ i log. none) none (found told_child)).log
unfolding reconcile reconcile_body patch_and_return
handshake_example =
    handshake table_ops heat_meta written "db" plain_memcached "transport-secret" "new-hash"
      api_instance granting (λ t. none) (λ i log. none) none child_after refl

abbrev range_result : GoMap String
range_result = ("public", "http://heat") ∷ ("internal", "http://heat") ∷ []

abbrev after_range : State Table
after_range = (expose_all table_ops granting api_service api_kind [] first_state).1

expose_all-urls_example :
    HasUrl table_ops granting api_service api_kind [] internal range_result
    × HasUrl table_ops granting api_service api_kind [] public range_result
unfolding annotated expose exposed range_order expose_all lookup insert
expose_all-urls_example =
    expose_all-urls table_ops granting api_service api_kind [] first_state after_range range_result
      refl

deployment_laws : DeploymentLaws volume_ops
deployment_laws = record {
  base = volume_laws;
  mtls = λ name e. ground arith;
  writable = λ name path n e. ground arith;
  service = λ secret endpt cert key n e. ground arith;
}

abbrev plan : Rollout
plan = record {
  namespace = "openstack";
  name = "heat-api";
  config_hash = "hash";
  labels = [];
  topology = none;
  mtls_secret = "mtls";
  app_selector = "service";
}

deployments-AreDeclaredBut_example :
    AreDeclaredBut
      (given_mounts volume_ops api_spec engine_services)
      (engine_deployment volume_ops api_spec plan).volume_mounts
      (engine_deployment volume_ops api_spec plan).volumes
    × DeploymentFits
        (given_mounts volume_ops api_spec api_services)
        (api_deployment volume_ops api_spec plan)
    × DeploymentFits
        (given_mounts volume_ops api_spec api_services)
        (cfnapi_deployment volume_ops api_spec plan)
deployments-AreDeclaredBut_example =
    deployments-AreDeclaredBut volume_ops deployment_laws api_spec plan

abbrev told_then_ready :
    Run table_ops
      (record { child = api_instance; confirmed = [] })
      (record {
        child = child_after;
        confirmed =
            if just_confirmed
              (reconcile table_ops granting (λ t. none) (λ i log. none) none (found told_child)).log
            then asked told_child ∷ []
            else [];
      })
unfolding reconcile reconcile_body patch_and_return
told_then_ready =
    followed
      (followed (start _)
        (parent_writes _ heat_meta written "db" plain_memcached "transport-secret" "new-hash"))
      (child_reconciles (record { child = told_child; confirmed = [] }) granting (λ t. none)
        (λ i log. none) none child_after refl)

reported-IsKnown_example : IsKnown table_ops "old-hash" (record {
  child = child_after;
  confirmed =
      if just_confirmed
        (reconcile table_ops granting (λ t. none) (λ i log. none) none (found told_child)).log
      then asked told_child ∷ []
      else [];
})
unfolding reconcile reconcile_body patch_and_return
reported-IsKnown_example = reported-IsKnown table_ops api_instance _ told_then_ready
