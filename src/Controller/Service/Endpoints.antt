-- ===== src/Controller/Service/Endpoints.antt =====
-- reconcileInit of HeatAPI and HeatCfnAPI: the Service objects of the two endpoints, and the
-- registration with Keystone. HeatEngine's only logs. Go ranges over the map of endpoints in an
-- order that it does not fix, which the environment chooses.
pub mod Urls
use heat_operator.Base.{
  ℕ, String, Bool, true, false, none, some, [], ◌∷◌, GoMap, lookup, insert, if◌then◌else◌, ◌<>◌,
  ◌&&◌,
}
use heat_operator.Api.Types.{Opaque}
use heat_operator.Heat.Names.{Component, engine, api, cfnapi}
use heat_operator.Heat.Volumes.{Endpoint, internal, public, endpoint_name}
use heat_operator.Controller.Conditions.{
  CondOps, Condition, Err, false_condition, create_service_ready, keystone_service_ready,
  keystone_endpoint_ready, error_reason, requested_reason, warning, info, ready_message,
  running_message, error_message,
}
use heat_operator.Controller.Exec.{
  Exec, Returned, empty_result, is_pending, next, pure, return, call, return_unless_done, ◌>>=◌,
  ◌>>◌,
}
use heat_operator.Controller.Heat.Env.{found, failed}
use heat_operator.Controller.Heat.Children.{set_mirror}
use heat_operator.Controller.Service.Env.{
  Env, State, Service, ServiceDetails, ServiceObject, ServiceType, cluster_ip, load_balancer,
  other_type, KeystoneServiceSpec, service_applied, keystone_service_applied,
  keystone_endpoint_applied, ask, update_conditions, set_and_return,
}

-- What differs between the two APIs.
pub record ApiKind : Type 0 where
  pub service_name : String  -- ServiceName of package heatapi or heatcfnapi
  pub port : ℕ
  pub path : String
  pub keystone_type : String
  pub keystone_name : String
  pub keystone_desc : String

abbrev pub api_kind : ApiKind
api_kind = record {
  service_name = "heat-api";
  port = 8004;
  path = "/v1/%(tenant_id)s";
  keystone_type = "orchestration";
  keystone_name = "heat";
  keystone_desc = "Heat API service";
}

abbrev pub cfnapi_kind : ApiKind
cfnapi_kind = record {
  service_name = "heat-cfnapi";
  port = 8000;
  path = "/v1";
  keystone_type = "cloudformation";
  keystone_name = "heat-cfn";
  keystone_desc = "Heat Cloudformation API service";
}

abbrev is_public : Endpoint → Bool
is_public internal = false
is_public public = true

abbrev is_cluster_ip : ServiceType → Bool
is_cluster_ip cluster_ip = true
is_cluster_ip load_balancer = false
is_cluster_ip other_type = false

abbrev is_load_balancer : ServiceType → Bool
is_load_balancer cluster_ip = false
is_load_balancer load_balancer = true
is_load_balancer other_type = false

module _ {C : Type 0} (ops : CondOps C) (env : Env C) (svc : Service) (kind : ApiKind) where
  open svc use {meta, spec}

  abbrev service_error : Err → Condition
  service_error e =
      false_condition create_service_ready error_reason warning
        (error_message create_service_ready e)

  abbrev pub details : GoMap String → Endpoint → ServiceDetails
  details labels endpt = record {
    name = kind.service_name <> "-" <> endpoint_name endpt;
    namespace = meta.namespace;
    labels = env.merge_string_maps labels ((env.endpoint_key, endpoint_name endpt) ∷ []);
    selector = labels;
    port = kind.port;
  }

  -- the annotations of a Service: its endpoint, whether it needs an ingress, and its host name
  unfoldable pub annotated : Endpoint → Opaque → ServiceObject
  annotated endpt built =
      let type = env.service_type built in
      let start : GoMap String = (env.endpoint_key, endpoint_name endpt) ∷ [] in
      let ingress = is_public endpt && is_cluster_ip type in
      let asked = insert env.ingress_create_key (if ingress then "true" else "false") start in
      record {
        built = built;
        annotations =
            if is_load_balancer type
            then insert env.hostname_key (env.service_hostname built) asked
            else asked;
      }

  -- one round of the loop over the endpoints
  unfoldable pub expose :
      GoMap String → Endpoint → GoMap String → Exec Returned (State C) (GoMap String)
  unfolding annotated
  expose labels endpt endpoints = do
    let override = lookup (endpoint_name endpt) spec.override
    elim (env.new_service (details labels endpt) override) [
      | failed e ↦ set_and_return ops (service_error e) (empty_result, some e)
      | found built ↦ (do
        let object = annotated endpt built
        (result, err) ← ask (λ _. service_applied endpt object) (env.apply_service object)
        elim err [
          | some e ↦ set_and_return ops (service_error e) (result, some e)
          | none ↦
              if is_pending result
              then set_and_return ops
                  (false_condition create_service_ready requested_reason info
                    (running_message create_service_ready))
                  (result, none)
              else elim (env.get_api_endpoint object override
                  (env.volume_ops.tls_enabled spec.tls endpt) kind.path) [
                    | failed e ↦ return (empty_result, some e)
                    | found url ↦ pure (insert (endpoint_name endpt) url endpoints)
                  ]
        ])
    ]

  -- the order of Go's range over the endpoints: whether the public one is first
  unfoldable pub range_order : Exec Returned (State C) Bool
  range_order s = (next (env.public_first s.log), s)

  unfoldable pub exposed : GoMap String → Exec Returned (State C) (GoMap String)
  exposed endpoints = do
    update_conditions (ops.mark_true create_service_ready (ready_message create_service_ready))
    pure endpoints

  -- the loop over the endpoints
  unfoldable pub expose_all : GoMap String → Exec Returned (State C) (GoMap String)
  unfolding expose exposed range_order
  expose_all labels = do
    first ← range_order
    endpoints ← expose labels (if first then public else internal) []
    endpoints' ← expose labels (if first then internal else public) endpoints
    exposed endpoints'

  abbrev keystone_spec : KeystoneServiceSpec
  keystone_spec = record {
    service_type = kind.keystone_type;
    service_name = kind.keystone_name;
    service_description = kind.keystone_desc;
    service_user = spec.heat_template.service_user;
    secret = spec.heat_template.secret;
    password_selector = spec.heat_template.password_selectors.service;
  }

  -- The loop over keystoneServices, which has one entry.
  unfoldable pub register : GoMap String → Exec Returned (State C) Returned
  register endpoints = do
    (service_conditions, made) ←
        ask (λ _. keystone_service_applied keystone_spec) (env.apply_keystone_service keystone_spec)
    return_unless_done made
    update_conditions (set_mirror ops (ops.mirror keystone_service_ready service_conditions))
    (endpoint_conditions, registered) ←
        ask (λ _. keystone_endpoint_applied kind.keystone_name endpoints)
          (env.apply_keystone_endpoint kind.keystone_name endpoints)
    return_unless_done registered
    update_conditions (set_mirror ops (ops.mirror keystone_endpoint_ready endpoint_conditions))
    pure (empty_result, none)

  unfoldable pub reconcile_init : GoMap String → Exec Returned (State C) Returned
  unfolding expose_all register
  reconcile_init labels = do endpoints ← expose_all labels; register endpoints

module _ {C : Type 0} (ops : CondOps C) (env : Env C) (svc : Service) where
  -- reconcileInit of the component
  abbrev pub reconcile_init_of : Component → GoMap String → Exec Returned (State C) Returned
  reconcile_init_of engine labels = pure (empty_result, none)
  reconcile_init_of api labels = reconcile_init ops env svc api_kind labels
  reconcile_init_of cfnapi labels = reconcile_init ops env svc cfnapi_kind labels

  unfoldable pub initialise : GoMap String → Exec Returned (State C) (Unit {0})
  unfolding reconcile_init
  initialise labels = do r ← call (reconcile_init_of svc.component labels); return_unless_done r
