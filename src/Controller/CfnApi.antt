-- ===== src/Controller/CfnApi.antt =====
-- internal/controller/heatcfnapi_controller.go: the reconciler of HeatCfnAPI, out of the parts that the services share,
-- in its own order.
use heat_operator.Base.{
  String, Bool, true, false, ◌||◌, Option, none, some, List, [], ◌∷◌, GoMap, if◌then◌else◌,
}
use heat_operator.Api.Types.{ObjectMeta}
use heat_operator.Heat.Names.{cfnapi}
use heat_operator.Heat.ChildSpec.{ChildSpec}
use heat_operator.Controller.Conditions.{
  is_not_found, Condition, ready, create_service_ready, input_ready, service_config_ready,
  deployment_ready, keystone_service_ready, keystone_endpoint_ready, unknown_condition, init_reason,
  no_message, input_ready_init_message, CondOps, Err, tls_input_ready, input_ready_message,
}
use heat_operator.Controller.Exec.{
  Exec, Returned, empty_result, pure, return, call, return_unless_done, ◌>>=◌, ◌>>◌,
}
use heat_operator.Controller.Heat.Env.{Fetched, found, failed}
use heat_operator.Controller.Service.Reconcile.{
  initial, Instance, Outcome, with_finalizers, ensure_finalizer, not_started, patch_and_return,
}
use heat_operator.Controller.Service.Env.{
  ServiceStatus, Log, Env, State, Service, update_conditions,
}
use heat_operator.Controller.Service.Inputs.{get_secret, check_inputs, check_ca_bundle, check_certs}
use heat_operator.Controller.Service.Config.{
  Generated, generate_service_secrets, create_hash_of_input_hashes, hash_inputs,
}
use heat_operator.Controller.Service.Endpoints.{cfnapi_kind, expose_all, register}
use heat_operator.Controller.Service.Topology.{handle_topology}
use heat_operator.Controller.Service.Rollout.{service_labels, find_memcached, roll_out}
use heat_operator.Controller.Service.Normal.{finish}
use heat_operator.Controller.Service.Delete.{release_keystone, release_topology, drop_finalizer}

module _ {C : Type 0} (ops : CondOps C) (env : Env C) (meta : ObjectMeta) (spec : ChildSpec) where
  abbrev svc : Service
  svc = record { component = cfnapi; meta = meta; spec = spec }

  -- getSecret
  unfoldable pub cfnapi_get_secret :
      String → GoMap String → Exec (Returned × GoMap String) (State C) (Returned × GoMap String)
  cfnapi_get_secret = get_secret ops env svc

  -- the secret of OpenStack, that of the TransportURL, and the parent's
  unfoldable pub cfnapi_check_inputs : Exec Returned (State C) (GoMap String)
  cfnapi_check_inputs = check_inputs ops env svc

  -- the CA bundle, then the certificates of the endpoints
  unfoldable pub cfnapi_check_tls : GoMap String → Exec Returned (State C) (GoMap String)
  cfnapi_check_tls vars = do
    vars' ← check_ca_bundle ops env svc vars
    vars'' ← check_certs ops env svc vars'
    update_conditions (ops.mark_true tls_input_ready input_ready_message)
    pure vars''

  -- generateServiceSecrets
  unfoldable pub cfnapi_generate_service_secrets : GoMap String → Exec Generated (State C) Generated
  cfnapi_generate_service_secrets = generate_service_secrets ops env svc

  -- createHashOfInputHashes
  unfoldable pub cfnapi_create_hash : GoMap String → Exec Returned (State C) (String × Option Err)
  cfnapi_create_hash = create_hash_of_input_hashes ops env svc

  -- what reconcileNormal does with the configuration and the hash of the inputs
  unfoldable pub cfnapi_hash_inputs : Option Err → GoMap String → Exec Returned (State C) String
  cfnapi_hash_inputs = hash_inputs ops env svc

  -- reconcileInit: the Services of the endpoints
  unfoldable pub cfnapi_expose_all : GoMap String → Exec Returned (State C) (GoMap String)
  cfnapi_expose_all = expose_all ops env svc cfnapi_kind

  -- reconcileInit: the service and its endpoints in Keystone
  unfoldable pub cfnapi_register : GoMap String → Exec Returned (State C) Returned
  cfnapi_register = register ops env svc cfnapi_kind

  -- reconcileInit
  unfoldable pub cfnapi_reconcile_init : GoMap String → Exec Returned (State C) Returned
  unfolding cfnapi_expose_all cfnapi_register
  cfnapi_reconcile_init labels = do endpoints ← cfnapi_expose_all labels; cfnapi_register endpoints

  -- the Topology, Memcached, the Deployment and the readiness of its pods
  unfoldable pub cfnapi_roll_out : String → Exec Returned (State C) (Unit {0})
  cfnapi_roll_out hash = do
    topology ← handle_topology ops env svc
    memcached ← find_memcached ops env svc
    roll_out ops env svc hash topology memcached

  -- reconcileUpdate, which only logs
  unfoldable pub cfnapi_reconcile_update : Exec Returned (State C) Returned
  cfnapi_reconcile_update = pure (empty_result, none)

  -- reconcileUpgrade, which only logs
  unfoldable pub cfnapi_reconcile_upgrade : Exec Returned (State C) Returned
  cfnapi_reconcile_upgrade = pure (empty_result, none)

  -- reconcileNormal
  unfoldable pub cfnapi_reconcile_normal : Exec Returned (State C) Returned
  unfolding cfnapi_reconcile_update cfnapi_reconcile_upgrade cfnapi_check_inputs cfnapi_check_tls
      cfnapi_generate_service_secrets cfnapi_hash_inputs cfnapi_reconcile_init cfnapi_roll_out
  cfnapi_reconcile_normal = do
    vars ← cfnapi_check_inputs
    vars' ← cfnapi_check_tls vars
    (err, vars'') ← call (cfnapi_generate_service_secrets vars')
    hash ← cfnapi_hash_inputs err vars''
    r ← call (cfnapi_reconcile_init (service_labels ops env svc))
    return_unless_done r
    updated ← call cfnapi_reconcile_update
    return_unless_done updated
    upgraded ← call cfnapi_reconcile_upgrade
    return_unless_done upgraded
    cfnapi_roll_out hash
    finish ops env svc

  -- reconcileDelete up to the finalizer
  unfoldable pub cfnapi_release : Exec Returned (State C) Returned
  cfnapi_release = do
    release_keystone ops env svc cfnapi_kind.keystone_name
    release_topology ops env svc
    pure (empty_result, none)

  -- reconcileDelete
  unfoldable pub cfnapi_reconcile_delete : Exec Returned (List String × State C) Returned
  unfolding cfnapi_release
  cfnapi_reconcile_delete (finalizers, s) =
      let (x, s') = cfnapi_release s in (x, (drop_finalizer ops env svc x finalizers, s'))

-- StatusConditionsList
abbrev pub cfnapi_conditions_list : List Condition
cfnapi_conditions_list =
    initial ready
    ∷ initial create_service_ready
    ∷ initial input_ready
    ∷ initial service_config_ready
    ∷ initial deployment_ready
    ∷ unknown_condition keystone_service_ready init_reason no_message
    ∷ unknown_condition keystone_endpoint_ready init_reason no_message
    ∷ unknown_condition tls_input_ready init_reason input_ready_init_message
    ∷ []

module _ {C : Type 0} (ops : CondOps C) (env : Env C) where
  -- Reconcile (the initial status)
  abbrev pub cfnapi_init_status : ObjectMeta → State C → State C
  cfnapi_init_status meta s = record s {
    status = record (s.status) {
      conditions = ops.init cfnapi_conditions_list s.conditions;
      observed_generation = meta.generation;
    };
  }

  -- Reconcile (the deletion or the rest)
  unfoldable pub cfnapi_dispatch :
      ObjectMeta
      → ChildSpec
      → (initialised deleting : Bool) → Exec Returned (List String × State C) Returned
  cfnapi_dispatch meta spec true deleting = return (empty_result, none)
  cfnapi_dispatch meta spec false true = cfnapi_reconcile_delete ops env meta spec
  cfnapi_dispatch meta spec false false =
      with_finalizers (cfnapi_reconcile_normal ops env meta spec)

  -- Reconcile (after the deferred function is set)
  unfoldable pub cfnapi_reconcile_body :
      ObjectMeta → ChildSpec → (is_new : Bool) → Exec Returned (List String × State C) Returned
  unfolding cfnapi_dispatch
  cfnapi_reconcile_body meta spec is_new (finalizers, s) =
      let (added, finalizers') = ensure_finalizer ops env meta finalizers in
      cfnapi_dispatch meta spec (added || is_new) meta.deleting
        (finalizers', cfnapi_init_status meta s)

  -- Reconcile of what the Get of the instance gave
  unfoldable pub cfnapi_reconcile :
      (empty : C)
      → (patch : Instance C → Log → Option Err) → (new_helper : Option Err)
      → Fetched (ObjectMeta × ChildSpec × ServiceStatus C)
      → Outcome C
  unfolding cfnapi_reconcile_body patch_and_return
  cfnapi_reconcile empty patch new_helper (failed e) =
      not_started ops env (if is_not_found e then none else some e)
  cfnapi_reconcile empty patch (some e) (found instance) = not_started ops env (some e)
  cfnapi_reconcile empty patch none (found (meta, spec, status)) =
      let is_new = ops.is_nil status.conditions in
      patch_and_return ops env patch (svc ops env meta spec)
        (if is_new then empty else status.conditions)
        (cfnapi_reconcile_body meta spec is_new
          (meta.finalizers, record { status = status; log = [] }))
