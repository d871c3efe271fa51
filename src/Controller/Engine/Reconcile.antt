-- ===== src/Controller/Engine/Reconcile.antt =====
-- internal/controller/heatengine_controller.go: the reconciler of HeatEngine, out of the parts that the services share,
-- in its own order and without the steps that only the APIs have.
use heat_operator.Base.{
  String, Bool, true, false, ◌||◌, Option, none, some, List, [], GoMap, if◌then◌else◌,
}
use heat_operator.Api.Types.{ObjectMeta}
use heat_operator.Heat.Names.{engine}
use heat_operator.Heat.ChildSpec.{ChildSpec}
use heat_operator.Controller.Conditions.{
  is_not_found, CondOps, Err, tls_input_ready, input_ready_message,
}
use heat_operator.Controller.Exec.{
  Exec, Returned, empty_result, pure, return, call, return_unless_done, ◌>>=◌, ◌>>◌,
}
use heat_operator.Controller.Heat.Env.{Fetched, found, failed}
use heat_operator.Controller.Service.Reconcile.{
  Instance, Outcome, with_finalizers, ensure_finalizer, not_started, patch_and_return,
  engine_conditions_list,
}
use heat_operator.Controller.Service.Env.{
  ServiceStatus, Log, Env, State, Service, update_conditions,
}
use heat_operator.Controller.Service.Inputs.{get_secret, check_inputs, check_ca_bundle}
use heat_operator.Controller.Service.Config.{
  Generated, generate_service_secrets, create_hash_of_input_hashes, hash_inputs,
}
use heat_operator.Controller.Service.Topology.{handle_topology}
use heat_operator.Controller.Service.Rollout.{find_memcached, roll_out}
use heat_operator.Controller.Service.Normal.{finish}
use heat_operator.Controller.Service.Delete.{release_topology, drop_finalizer}

module _ {C : Type 0} (ops : CondOps C) (env : Env C) (meta : ObjectMeta) (spec : ChildSpec) where
  abbrev svc : Service
  svc = record { component = engine; meta = meta; spec = spec }

  -- getSecret
  unfoldable pub engine_get_secret :
      String → GoMap String → Exec (Returned × GoMap String) (State C) (Returned × GoMap String)
  engine_get_secret = get_secret ops env svc

  -- the secret of OpenStack, that of the TransportURL, and the parent's
  unfoldable pub engine_check_inputs : Exec Returned (State C) (GoMap String)
  engine_check_inputs = check_inputs ops env svc

  -- the CA bundle alone
  unfoldable pub engine_check_tls : GoMap String → Exec Returned (State C) (GoMap String)
  engine_check_tls vars = do
    vars' ← check_ca_bundle ops env svc vars
    update_conditions (ops.mark_true tls_input_ready input_ready_message)
    pure vars'

  -- generateServiceSecrets
  unfoldable pub engine_generate_service_secrets : GoMap String → Exec Generated (State C) Generated
  engine_generate_service_secrets = generate_service_secrets ops env svc

  -- createHashOfInputHashes
  unfoldable pub engine_create_hash : GoMap String → Exec Returned (State C) (String × Option Err)
  engine_create_hash = create_hash_of_input_hashes ops env svc

  -- what reconcileNormal does with the configuration and the hash of the inputs
  unfoldable pub engine_hash_inputs : Option Err → GoMap String → Exec Returned (State C) String
  engine_hash_inputs = hash_inputs ops env svc

  -- reconcileInit, which only logs
  unfoldable pub engine_reconcile_init : Exec Returned (State C) Returned
  engine_reconcile_init = pure (empty_result, none)

  -- the Topology, Memcached, the Deployment and the readiness of its pods
  unfoldable pub engine_roll_out : String → Exec Returned (State C) (Unit {0})
  engine_roll_out hash = do
    topology ← handle_topology ops env svc
    memcached ← find_memcached ops env svc
    roll_out ops env svc hash topology memcached

  -- reconcileUpdate, which only logs
  unfoldable pub engine_reconcile_update : Exec Returned (State C) Returned
  engine_reconcile_update = pure (empty_result, none)

  -- reconcileUpgrade, which only logs
  unfoldable pub engine_reconcile_upgrade : Exec Returned (State C) Returned
  engine_reconcile_upgrade = pure (empty_result, none)

  -- reconcileNormal
  unfoldable pub engine_reconcile_normal : Exec Returned (State C) Returned
  unfolding engine_reconcile_update engine_reconcile_upgrade engine_check_inputs engine_check_tls
      engine_generate_service_secrets engine_hash_inputs engine_reconcile_init engine_roll_out
  engine_reconcile_normal = do
    vars ← engine_check_inputs
    vars' ← engine_check_tls vars
    (err, vars'') ← call (engine_generate_service_secrets vars')
    hash ← engine_hash_inputs err vars''
    r ← call engine_reconcile_init
    return_unless_done r
    updated ← call engine_reconcile_update
    return_unless_done updated
    upgraded ← call engine_reconcile_upgrade
    return_unless_done upgraded
    engine_roll_out hash
    finish ops env svc

  -- reconcileDelete up to the finalizer
  unfoldable pub engine_release : Exec Returned (State C) Returned
  engine_release = do release_topology ops env svc; pure (empty_result, none)

  -- reconcileDelete
  unfoldable pub engine_reconcile_delete : Exec Returned (List String × State C) Returned
  unfolding engine_release
  engine_reconcile_delete (finalizers, s) =
      let (x, s') = engine_release s in (x, (drop_finalizer ops env svc x finalizers, s'))

module _ {C : Type 0} (ops : CondOps C) (env : Env C) where
  -- Reconcile (the initial status)
  abbrev pub engine_init_status : ObjectMeta → State C → State C
  engine_init_status meta s = record s {
    status = record (s.status) {
      conditions = ops.init engine_conditions_list s.conditions;
      observed_generation = meta.generation;
    };
  }

  -- Reconcile (the deletion or the rest)
  unfoldable pub engine_dispatch :
      ObjectMeta
      → ChildSpec
      → (initialised deleting : Bool) → Exec Returned (List String × State C) Returned
  engine_dispatch meta spec true deleting = return (empty_result, none)
  engine_dispatch meta spec false true = engine_reconcile_delete ops env meta spec
  engine_dispatch meta spec false false =
      with_finalizers (engine_reconcile_normal ops env meta spec)

  -- Reconcile (after the deferred function is set)
  unfoldable pub engine_reconcile_body :
      ObjectMeta → ChildSpec → (is_new : Bool) → Exec Returned (List String × State C) Returned
  unfolding engine_dispatch
  engine_reconcile_body meta spec is_new (finalizers, s) =
      let (added, finalizers') = ensure_finalizer ops env meta finalizers in
      engine_dispatch meta spec (added || is_new) meta.deleting
        (finalizers', engine_init_status meta s)

  -- Reconcile of what the Get of the instance gave
  unfoldable pub engine_reconcile :
      (empty : C)
      → (patch : Instance C → Log → Option Err) → (new_helper : Option Err)
      → Fetched (ObjectMeta × ChildSpec × ServiceStatus C)
      → Outcome C
  unfolding engine_reconcile_body patch_and_return
  engine_reconcile empty patch new_helper (failed e) =
      not_started ops env (if is_not_found e then none else some e)
  engine_reconcile empty patch (some e) (found instance) = not_started ops env (some e)
  engine_reconcile empty patch none (found (meta, spec, status)) =
      let is_new = ops.is_nil status.conditions in
      patch_and_return ops env patch (svc ops env meta spec)
        (if is_new then empty else status.conditions)
        (engine_reconcile_body meta spec is_new
          (meta.finalizers, record { status = status; log = [] }))
