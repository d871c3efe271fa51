-- ===== src/Controller/Service/Rollout.antt =====
-- The Deployment of a service: its creation, and the observation that its pods run with the current
-- inputs, which reconcileNormal reports to the parent as AppliedInputSecretHash.
use heat_operator.Base.{
  String, Bool, true, false, Option, none, some, [], ◌∷◌, GoMap, lookup, insert, ◌⊎◌, inl, inr, eqb,
  if◌then◌else◌,
}
use heat_operator.Api.Types.{Opaque}
use heat_operator.Api.Route.{value}
use heat_operator.Heat.Names.{Component, engine, api, cfnapi, service_name}
use heat_operator.Heat.Deployments.{
  Deployment, Rollout, engine_deployment, api_deployment, cfnapi_deployment,
}
use heat_operator.Controller.Conditions.{
  CondOps, Condition, Err, nil_dereference, false_condition, deployment_ready, error_reason,
  requested_reason, warning, info, ready_message, running_message, error_message,
}
use heat_operator.Controller.Exec.{
  Exec, Returned, empty_result, is_pending, pure, return, when, ◌>>=◌, ◌>>◌,
}
use heat_operator.Controller.Heat.Env.{Memcached, found, failed}
use heat_operator.Controller.Service.Env.{
  Env, State, Service, Deployed, memcached_read, deployment_applied, ready_for_input, ask,
  modify_status, update_conditions, set_and_return,
}

-- `ann["openstack.org/input-secret-hash"]`, which the parent writes
abbrev pub input_secret_hash : String
input_secret_hash = "openstack.org/input-secret-hash"

abbrev pub component_name : Component → String
component_name engine = "engine"
component_name api = "api"
component_name cfnapi = "cfnapi"

module _ {C : Type 0} (ops : CondOps C) (env : Env C) (svc : Service) where
  open svc use {meta, spec}

  abbrev pub service_labels : GoMap String
  service_labels =
      insert env.component_selector (component_name svc.component)
        ((env.app_selector, service_name) ∷ [])

  abbrev rollout_of : String → Option Opaque → Memcached → Rollout
  rollout_of hash topology mc = record {
    namespace = meta.namespace;
    name = meta.name;
    config_hash = hash;
    labels = service_labels;
    topology = topology;
    mtls_secret = mc.mtls_secret;
    app_selector = env.app_selector;
  }

  abbrev pub deployment_for : Component → Rollout → Err ⊎ Deployment
  deployment_for engine r = inr (engine_deployment env.volume_ops spec r)
  deployment_for api r = api_deployment env.volume_ops spec r
  deployment_for cfnapi r = cfnapi_deployment env.volume_ops spec r

  -- A nil MemcachedInstance, which the schema's default excludes, would panic: the reconcile ends.
  unfoldable pub find_memcached : Exec Returned (State C) Memcached
  find_memcached = elim spec.memcached_instance [
    | none ↦ return (empty_result, some nil_dereference)
    | some name ↦ (do
      reply ← ask (λ _. memcached_read name) (env.get_memcached name)
      elim reply [ failed e ↦ return (empty_result, some e) | found mc ↦ pure mc ])
  ]

  abbrev running : Condition
  running =
      false_condition deployment_ready requested_reason info (running_message deployment_ready)

  abbrev deployment_error : Err → Condition
  deployment_error e =
      false_condition deployment_ready error_reason warning (error_message deployment_ready e)

  unfoldable pub apply_deployment :
      Err ⊎ Deployment → Exec Returned (State C) (Deployed × Deployment)
  apply_deployment (inl e) = set_and_return ops (deployment_error e) (empty_result, some e)
  apply_deployment (inr d) = do
    (deployed, (result, err)) ← ask (λ _. deployment_applied d) (env.apply_deployment d)
    elim err [
      | some e ↦ set_and_return ops (deployment_error e) (result, some e)
      | none ↦
          if is_pending result
          then set_and_return ops running (result, none)
          else pure (deployed, d)
    ]

  -- deployment.IsReady and deployment.IsReadyForInput
  unfoldable pub check_ready : Deployed → String → String → Exec Returned (State C) Bool
  check_ready deployed name hash =
      if deployed.is_ready
      then (do
        reply ←
            ask (λ r. ready_for_input name hash (elim r [ found b ↦ b | failed e ↦ false ]))
              (env.is_ready_for_input name hash)
        elim reply [ failed e ↦ return (empty_result, some e) | found ready ↦ pure ready ])
      else pure false

  unfoldable pub report_ready : Bool → Exec Returned (State C) (Unit {0})
  report_ready true = do
    update_conditions (ops.mark_true deployment_ready (ready_message deployment_ready))
    modify_status (λ st. record st {
      applied_input_secret_hash = value (lookup input_secret_hash meta.annotations);
    })
  report_ready false = update_conditions (ops.set running)

  unfoldable pub count_ready : Deployed → Exec Returned (State C) (Unit {0})
  count_ready deployed = modify_status (λ st. record st { ready_count = deployed.ready_replicas })

  -- The readiness counts only where the Deployment's last generation was observed.
  unfoldable pub observe : Deployed → String → String → Exec Returned (State C) (Unit {0})
  unfolding count_ready check_ready report_ready
  observe deployed name hash =
      when (eqb deployed.generation deployed.observed_generation)
        (do count_ready deployed; ready ← check_ready deployed name hash; report_ready ready)

  unfoldable pub roll_out : String → Option Opaque → Memcached → Exec Returned (State C) (Unit {0})
  unfolding apply_deployment observe
  roll_out hash topology mc = do
    (deployed, d) ← apply_deployment (deployment_for svc.component (rollout_of hash topology mc))
    observe deployed d.name hash
