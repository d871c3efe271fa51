-- ===== src/Controller/Service/Env.antt =====
-- What a service's reconciler asks of the cluster, and its state. As in Controller.Heat.Env, a reply
-- is a function of the calls made before it, and the log holds every call, the newest first.
use heat_operator.Base.{ℕ, String, Bool, Option, List, ◌∷◌, GoMap}
use heat_operator.Api.Types.{Opaque, Tls, TopoRef, ObjectMeta}
use heat_operator.Heat.Names.{Component}
use heat_operator.Heat.ChildSpec.{ChildSpec}
use heat_operator.Heat.Volumes.{VolumeOps, Endpoint}
use heat_operator.Heat.Deployments.{Deployment}
use heat_operator.Controller.Conditions.{CondOps, Condition, Err}
use heat_operator.Controller.Exec.{Exec, Returned, CtrlResult, next, return, ◌>>◌}
use heat_operator.Controller.Heat.Env.{Validator, Template, Fetched, Memcached}

-- HeatEngineStatus, HeatAPIStatus and HeatCfnAPIStatus have the same fields.
pub record ServiceStatus (C : Type 0) : Type 0 where
  pub hash : GoMap String
  pub conditions : C
  pub ready_count : ℕ
  pub observed_generation : ℕ
  pub last_applied_topology : Option TopoRef
  pub applied_input_secret_hash : String

-- service.GenericServiceDetails, and the endpoint whose override is applied
pub record ServiceDetails : Type 0 where
  pub name : String
  pub namespace : String
  pub labels : GoMap String
  pub selector : GoMap String
  pub port : ℕ

pub data ServiceType : Type 0 where
  cluster_ip load_balancer other_type : ServiceType

-- A service.Service: what NewService built, and the annotations added to it.
pub record ServiceObject : Type 0 where
  pub built : Opaque
  pub annotations : GoMap String

pub record KeystoneServiceSpec : Type 0 where
  pub service_type : String
  pub service_name : String
  pub service_description : String
  pub service_user : String
  pub secret : String
  pub password_selector : String

-- What is read of the Deployment after CreateOrPatch.
pub record Deployed : Type 0 where
  pub generation : ℕ
  pub observed_generation : ℕ
  pub ready_replicas : ℕ
  pub is_ready : Bool  -- deployment.IsReady

pub data Call : Type 0 where
  secret_verified : (name : String) → List (String × Validator) → (verified : Bool) → Call
  secret_read : (name : String) → Call
  ca_cert_validated : String → Call
  certs_validated : Tls → Call
  secrets_ensured : Template → Option Err → Call
  service_applied : Endpoint → ServiceObject → Call
  keystone_service_applied : KeystoneServiceSpec → Call
  keystone_endpoint_applied : (name : String) → GoMap String → Call
  topology_ensured : (wanted last : Option TopoRef) → Call
  memcached_read : String → Call
  deployment_applied : Deployment → Call
  ready_for_input : (name hash : String) → (ready : Bool) → Call
  keystone_endpoint_read keystone_endpoint_updated : (name : String) → Option Err → Call
  keystone_service_read keystone_service_updated : (name : String) → Option Err → Call
  topology_released : Option TopoRef → Option Err → Call

abbrev pub Log : Type 0
Log = List Call

pub record Env (C : Type 0) : Type 0 where
  pub volume_ops : VolumeOps
  pub app_selector : String  -- common.AppSelector
  pub component_selector : String  -- common.ComponentSelector
  pub input_hash_name : String  -- common.InputHashName
  pub ca_bundle_key : String  -- tls.CABundleKey
  pub tls_hash_name : String  -- tls.TLSHashName
  pub endpoint_key : String  -- service.AnnotationEndpointKey
  pub ingress_create_key : String  -- service.AnnotationIngressCreateKey
  pub hostname_key : String  -- service.AnnotationHostnameKey
  pub finalizer : String  -- helper.GetFinalizer()
  pub add_finalizer : String → List String → Bool × List String  -- controllerutil.AddFinalizer
  pub remove_finalizer : String → List String → List String  -- controllerutil.RemoveFinalizer
  pub verify_secret_fields :
      String → List (String × Validator) → ℕ → Log → String × CtrlResult × Option Err
  pub get_secret : String → Log → Fetched (GoMap String × String)  -- the data and the hash
  pub validate_ca_cert : String → Log → Fetched String
  pub validate_certs : Tls → Log → Fetched String
  pub ensure_secrets : Template → GoMap String → Log → GoMap String × Option Err
  pub hash_env : GoMap String → String × Option Err  -- util.ObjectHash of env.MergeEnvs
  pub set_hash : GoMap String → String → String → GoMap String  -- util.SetHash
  pub merge_string_maps : GoMap String → GoMap String → GoMap String  -- util.MergeStringMaps
  pub public_first : Log → Bool  -- the order of Go's range over the two endpoints
  pub new_service : ServiceDetails → Option Opaque → Fetched Opaque
  pub service_type : Opaque → ServiceType
  pub service_hostname : Opaque → String
  pub apply_service : ServiceObject → Log → Returned
  pub get_api_endpoint : ServiceObject → Option Opaque → (https : Bool) → String → Fetched String
  pub apply_keystone_service : KeystoneServiceSpec → Log → C × Returned
  pub apply_keystone_endpoint : String → GoMap String → Log → C × Returned
  pub ensure_topology : Option TopoRef → Option TopoRef → String → Log → Fetched (Option Opaque)
  pub get_memcached : String → Log → Fetched Memcached
  pub apply_deployment : Deployment → Log → Deployed × Returned
  pub is_ready_for_input : String → String → Log → Fetched Bool
  pub get_keystone_endpoint : String → Log → Option Err
  pub get_keystone_service : String → Log → Option Err
  -- controllerutil.RemoveFinalizer on the object that was read: whether there was one
  pub endpoint_has_finalizer : String → Log → Bool
  pub service_has_finalizer : String → Log → Bool
  pub update_keystone_endpoint : String → Log → Option Err
  pub update_keystone_service : String → Log → Option Err
  pub delete_topology_ref : Option TopoRef → String → Log → Returned

-- `instance.Status`, and the calls made so far
pub record State (C : Type 0) : Type 0 where
  pub status : ServiceStatus C
  pub open status use *
  pub log : Log

-- The instance's own fields.
pub record Service : Type 0 where
  pub component : Component
  pub meta : ObjectMeta
  pub spec : ChildSpec

module _ {R C : Type 0} where
  abbrev pub ask : {A : Type 0} → (A → Call) → (Log → A) → Exec R (State C) A
  ask entry reply s = let a = reply s.log in (next a, record s { log = entry a ∷ s.log })

  abbrev pub modify_status : (ServiceStatus C → ServiceStatus C) → Exec R (State C) (Unit {0})
  modify_status f s = (next tt, record s { status = f s.status })

  abbrev pub get_status : Exec R (State C) (ServiceStatus C)
  get_status s = (next s.status, s)

  -- instance.Status.Conditions.f(...)
  abbrev pub update_conditions : (C → C) → Exec R (State C) (Unit {0})
  update_conditions f s =
      (next tt, record s { status = record (s.status) { conditions = f s.conditions } })

-- `Conditions.Set(condition); return r`
abbrev pub set_and_return : {R C A : Type 0} → CondOps C → Condition → R → Exec R (State C) A
set_and_return ops k r = do update_conditions (ops.set k); return r
