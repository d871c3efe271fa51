-- ===== src/Controller/Heat/Children.antt =====
-- engineDeploymentCreateOrUpdate, apiDeploymentCreateOrUpdate and cfnapiDeploymentCreateOrUpdate of
-- internal/controller/heat_controller.go, and what reconcileNormal does with their results. The
-- three differ in the template, the name, the condition and the status field.
pub mod Laws
use heat_operator.Base.{
  ℕ, String, Bool, ◌&&◌, Option, none, some, List, [], ◌∷◌, GoMap, ◌==◌, nonempty, eqb,
  if◌then◌else◌, ◌<>◌,
}
use heat_operator.Api.Types.{Tls, TopoRef, HeatServiceTemplate, HeatSpec, HeatStatus, ObjectMeta}
use heat_operator.Heat.Names.{Component, engine, api, cfnapi, rbac_resource_name}
use heat_operator.Heat.ChildSpec.{ChildSpec}
use heat_operator.Controller.Conditions.{
  CondOps, CondType, Err, Condition, Message, false_condition, unknown_condition, heat_engine_ready,
  heat_api_ready, heat_cfn_api_ready, deployment_ready, error_reason, requested_reason, warning,
  running_message, error_message, plain_error,
}
use heat_operator.Controller.Exec.{Exec, Returned, empty_result, pure, return, ◌>>=◌, ◌>>◌}
use heat_operator.Controller.Heat.Env.{
  Env, State, Child, Memcached, Fetched, found, failed, child_applied, ask, update_conditions,
  modify_status, get_status,
}
use heat_operator.Controller.Heat.Inputs.{set_and_return}

-- `if x == nil { x = y }`
abbrev pub or_else : {A : Type 0} → Option A → Option A → Option A
or_else none y = y
or_else (some x) y = some x

abbrev pub child_suffix : Component → String
child_suffix engine = "-engine"
child_suffix api = "-api"
child_suffix cfnapi = "-cfnapi"

abbrev pub ready_type : Component → CondType
ready_type engine = heat_engine_ready
ready_type api = heat_api_ready
ready_type cfnapi = heat_cfn_api_ready

-- the message of a failed CreateOrUpdate; that of HeatCfnAPI is the one of HeatAPI
abbrev pub failure_message : Component → Err → Message
failure_message engine e = plain_error e
failure_message api e = error_message heat_api_ready e
failure_message cfnapi e = error_message heat_api_ready e

abbrev pub component_template : HeatSpec → Component → HeatServiceTemplate
component_template spec engine = spec.heat_engine.template
component_template spec api = spec.heat_api.template
component_template spec cfnapi = spec.heat_cfn_api.template

abbrev component_image : HeatSpec → Component → String
component_image spec engine = spec.heat_engine.container_image
component_image spec api = spec.heat_api.container_image
component_image spec cfnapi = spec.heat_cfn_api.container_image

abbrev component_override : HeatSpec → Component → GoMap heat_operator.Api.Types.Opaque
component_override spec engine = []
component_override spec api = spec.heat_api.override
component_override spec cfnapi = spec.heat_cfn_api.override

-- a HeatEngine takes the CA bundle of the API, and no more
abbrev pub component_tls : HeatSpec → Component → Tls
component_tls spec engine = record (spec.heat_api.tls) {
  internal_secret_name = none;
  public_secret_name = none;
}
component_tls spec api = spec.heat_api.tls
component_tls spec cfnapi = spec.heat_cfn_api.tls

-- The spec of a child, given the MemcachedInstance that it has already: a node selector and a
-- topology of its own win over the Heat resource's, and the Memcached is passed only with mTLS.
unfoldable pub child_spec :
    ObjectMeta
    → HeatSpec
    → (database_hostname : String) → Memcached
    → (transport_url_secret : String) → Component
    → Option String
    → ChildSpec
child_spec meta spec hostname mc secret c existing =
    let template = component_template spec c in
    record {
      database_hostname = hostname;
      transport_url_secret = secret;
      service_account = rbac_resource_name meta.name;
      container_image = component_image spec c;
      tls = component_tls spec c;
      override = component_override spec c;
      heat_template = spec.heat_template;
      template = record template {
        node_selector = or_else template.node_selector spec.base.node_selector;
        topology_ref = or_else template.topology_ref spec.base.topology_ref;
      };
      memcached_instance =
          or_else (if nonempty mc.mtls_secret then some spec.memcached_instance else none) existing;
    }

-- `child.Generation == child.Status.ObservedGeneration && AppliedInputSecretHash == expected`
abbrev pub is_applied : {C : Type 0} → String → Child C → Bool
is_applied hash child =
    eqb child.generation child.observed_generation && child.applied_input_secret_hash == hash

-- the conjuncts of allServicesReady about one child
abbrev pub is_rolled_out : {C : Type 0} → String → Child C → Bool
is_rolled_out hash child = is_applied hash child && child.is_ready

abbrev pub set_ready_count : {C : Type 0} → Component → ℕ → HeatStatus C → HeatStatus C
set_ready_count engine n status = record status { heat_engine_ready_count = n }
set_ready_count api n status = record status { heat_api_ready_count = n }
set_ready_count cfnapi n status = record status { heat_cfn_api_ready_count = n }

-- `c := child.Status.Conditions.Mirror(t); if c != nil { Conditions.Set(c) }`
abbrev pub set_mirror : {C : Type 0} → CondOps C → Option Condition → C → C
set_mirror ops none conditions = conditions
set_mirror ops (some k) conditions = ops.set k conditions

module _ {C : Type 0} (ops : CondOps C) (env : Env C) (meta : ObjectMeta) (spec : HeatSpec) where
  unfoldable pub deploy_child :
      Memcached → String → String → Component → Exec Returned (State C) (Child C)
  unfolding child_spec
  deploy_child mc secret hash c = do
    status ← get_status
    let t = ready_type c
    (child, err) ←
        ask (λ (child, err). child_applied c secret hash child err)
          (env.apply_child c (meta.name <> child_suffix c)
            (child_spec meta spec status.database_hostname mc secret c) hash)
    elim err [
      | some e ↦
          set_and_return ops (false_condition t error_reason warning (failure_message c e))
            (empty_result, some e)
      | none ↦
          if is_applied hash child
          then (do
            modify_status (set_ready_count c child.ready_count)
            update_conditions (set_mirror ops (ops.mirror t child.conditions))
            pure child)
          else (do
            update_conditions
                (ops.set (unknown_condition t requested_reason (running_message deployment_ready)))
            pure child)
    ]

  -- the names of the secrets that rotate, in the order of the code
  abbrev pub secret_names : String → Option String → List String
  secret_names transport notifications =
      let ac =
        if nonempty spec.application_credential_secret
        then spec.application_credential_secret ∷ []
        else [] in
      transport ∷ elim notifications [ none ↦ ac | some n ↦ n ∷ ac ]

  -- The three children in order, and allServicesReady.
  unfoldable pub deploy_all : Memcached → String → String → Exec Returned (State C) Bool
  unfolding deploy_child
  deploy_all mc transport hash = do
    heat_engine ← deploy_child mc transport hash engine
    heat_api ← deploy_child mc transport hash api
    heat_cfn_api ← deploy_child mc transport hash cfnapi
    pure (
        is_rolled_out hash heat_engine
        && (is_rolled_out hash heat_api && is_rolled_out hash heat_cfn_api))

  -- The expected hash is computed first.
  unfoldable pub deploy_hashed : Memcached → String → Fetched String → Exec Returned (State C) Bool
  unfolding deploy_all
  deploy_hashed mc transport (failed e) = return (empty_result, some e)
  deploy_hashed mc transport (found hash) = deploy_all mc transport hash

  unfoldable pub deploy_children : Memcached → String → Option String → Exec Returned (State C) Bool
  unfolding deploy_hashed
  deploy_children mc transport notifications =
      deploy_hashed mc transport (env.hash_names (secret_names transport notifications))
