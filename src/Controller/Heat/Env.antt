-- ===== src/Controller/Heat/Env.antt =====
-- What the Heat reconciler asks of the cluster, and the state it works on. A reply of the cluster
-- is a function of the calls made before it, so nothing is assumed of what other clients do
-- between two calls. The log holds every call, the newest first.
use heat_operator.Base.{ℕ, String, Bool, Option, List, ◌∷◌, GoMap}
use heat_operator.Api.Types.{Opaque, RabbitMqConfig, HeatStatus}
use heat_operator.Controller.Conditions.{Err}
use heat_operator.Controller.Exec.{CtrlResult, Returned, Exec, next}
use heat_operator.Heat.Names.{Component}
use heat_operator.Heat.ChildSpec.{ChildSpec}
use heat_operator.Heat.Jobs.{Job, CronJob}
use heat_operator.Heat.Volumes.{VolumeOps}

pub data Validator : Type 0 where
  password_validator no_op_validator : Validator

-- What the reconciler reads of a HeatEngine, HeatAPI or HeatCfnAPI after CreateOrUpdate.
pub record Child (C : Type 0) : Type 0 where
  pub generation : ℕ
  pub observed_generation : ℕ
  pub applied_input_secret_hash : String
  pub ready_count : ℕ
  pub is_ready : Bool  -- IsReady()
  pub conditions : C

-- What it reads of a Memcached.
pub record Memcached : Type 0 where
  pub is_ready : Bool
  pub mtls_secret : String  -- GetMemcachedMTLSSecret()
  pub server_list : String
  pub server_list_with_inet : String
  pub tls_support : Bool

-- The database account and secret of a mariadbv1.Database.
pub record Database : Type 0 where
  pub user_name : String
  pub password : String
  pub client_config : Bool → String  -- GetDatabaseClientConfig, by whether TLS is configured

-- A value of the `map[string]any` that the templates are rendered with.
pub data Param : Type 0 where
  text : String → Param
  flag : Bool → Param
  number : ℕ → Param

-- util.Template, as createSecretTemplates fills it in
pub record Template : Type 0 where
  pub name : String
  pub namespace : String
  pub custom_data : GoMap String
  pub config_options : GoMap Param
  pub api_vhosts : GoMap (GoMap Param)  -- ConfigOptions["APIvHosts"]
  pub cfn_api_vhosts : GoMap (GoMap Param)  -- ConfigOptions["CfnAPIvHosts"]

-- `(value, err)` where the value counts only without an error
pub data Fetched (A : Type 0) : Type 0 where
  found : A → Fetched A
  failed : Err → Fetched A

pub data Call (C : Type 0) : Type 0 where
  reconcile_rbac : Call C
  verify_secret_fields : String → List (String × Validator) → Call C
  verify_secret : String → List String → Call C
  get_memcached : String → Call C
  transport_url_applied : (name : String) → RabbitMqConfig → (secret : String) → Option Err → Call C
  consumer_added : (secret finalizer : String) → Option Err → Call C
  consumer_removed : (secret finalizer : String) → Option Err → Call C
  consumers_pruned : (finalizer : String) → (keep : List String) → Option Err → Call C
  rotation_finalized : (old current finalizer : String) → (ready : Bool) → Call C
  transport_url_deleted : String → Call C
  get_transport_url : String → Fetched String → Call C
  ensure_account : String → Call C
  apply_database wait_for_database : Call C
  get_database delete_db_finalizer : Option Err → Call C
  delete_unused_account_finalizers : String → Call C
  get_secret : String → Call C
  get_keystone_api get_endpoint : Call C
  ensure_secrets : Template → Call C
  do_job : Job → Call C
  apply_cron_job : CronJob → Call C
  get_admin_client create_domain create_role : Call C
  create_user : (password domain : String) → Call C
  assign_user_domain_role : (user domain : String) → Call C
  child_applied : Component → (transport hash : String) → Child C → Option Err → Call C

abbrev pub Log : Type 0 → Type 0
Log C = List (Call C)

-- The replies. Where a Go function returns several values, all of them are there, as in Go.
pub record Env (C : Type 0) : Type 0 where
  pub volume_ops : VolumeOps
  pub cert_mount_path : String  -- memcachedv1.CertMountPath()
  pub key_mount_path : String
  pub ca_mount_path : String
  pub app_selector : String  -- common.AppSelector
  pub input_hash_name : String  -- common.InputHashName
  pub finalizer : String  -- helper.GetFinalizer()
  pub add_finalizer : String → List String → Bool × List String  -- controllerutil.AddFinalizer
  pub remove_finalizer : String → List String → List String  -- controllerutil.RemoveFinalizer
  -- the conditions that ReconcileRbac sets are part of its reply
  pub reconcile_rbac : C → Log C → C × CtrlResult × Option Err
  pub verify_secret_fields :
      String → List (String × Validator) → ℕ → Log C → String × CtrlResult × Option Err
  pub verify_secret : String → List String → Log C → String × Option Err
  pub get_memcached : String → Log C → Fetched Memcached
  pub apply_transport_url : String → RabbitMqConfig → Log C → String × Option Err
  pub add_consumer : String → String → Log C → Option Err
  pub remove_consumer : String → String → Log C → Option Err
  pub prune_consumers : String → List String → Log C → Option Err
  pub finalize_rotation : String → String → String → Bool → Log C → String × Option Err
  pub delete_transport_url : String → Log C → Option Err
  pub get_transport_url : String → Log C → Fetched String
  pub ensure_account : String → Log C → Option Err
  pub apply_database : Log C → Returned
  pub wait_for_database : Log C → Returned
  pub database : Log C → Database
  pub database_hostname : Log C → String
  pub get_database : String → Log C → Option Err
  pub delete_db_finalizer : Log C → Option Err
  pub delete_unused_account_finalizers : String → Log C → Option Err
  pub get_secret : String → Log C → Fetched (GoMap String)
  pub get_keystone_api : Log C → Fetched Opaque
  pub get_endpoint : Opaque → Log C → Fetched String
  pub get_region : Opaque → String
  pub ensure_secrets : Template → GoMap String → Log C → GoMap String × Option Err
  pub hash_env : GoMap String → Fetched String  -- util.ObjectHash of env.MergeEnvs
  pub hash_names : List String → Fetched String  -- util.ObjectHash
  pub set_hash : GoMap String → String → String → GoMap String  -- util.SetHash
  pub do_job : Job → String → Log C → (CtrlResult × Option Err) × Bool × String
  pub apply_cron_job : CronJob → Log C → Returned
  pub get_admin_client : Option Opaque → Log C → Returned
  pub create_domain : Log C → String × Option Err
  pub create_role : String → Log C → Option Err
  pub create_user : String → String → String → Log C → String × Option Err
  pub assign_user_domain_role : String → String → String → Log C → Option Err
  -- CreateOrUpdate, with the mutate function: it is given the MemcachedInstance that is there
  pub apply_child :
      Component
      → (name : String) → (Option String → ChildSpec)
      → (input_secret_hash : String) → Log C
      → Child C × Option Err

-- `instance.Status`, the package variable `keystoneAPI`, and the calls made so far
pub record State (C : Type 0) : Type 0 where
  pub status : HeatStatus C
  pub open status use *
  pub keystone_api : Option Opaque
  pub log : Log C

module _ {R C : Type 0} where
  -- One call: it is logged, and its reply depends on the calls before it.
  abbrev pub ask : {A : Type 0} → (A → Call C) → (Log C → A) → Exec R (State C) A
  ask entry reply s = let a = reply s.log in (next a, record s { log = entry a ∷ s.log })

  abbrev pub modify_status : (HeatStatus C → HeatStatus C) → Exec R (State C) (Unit {0})
  modify_status f s = (next tt, record s { status = f s.status })

  abbrev pub get_status : Exec R (State C) (HeatStatus C)
  get_status s = (next s.status, s)

  -- instance.Status.Conditions.f(...)
  abbrev pub update_conditions : (C → C) → Exec R (State C) (Unit {0})
  update_conditions f s =
      (next tt, record s { status = record (s.status) { conditions = f s.conditions } })
