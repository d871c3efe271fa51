-- ===== src/Controller/Conditions.antt =====
-- lib-common's condition.Conditions: the operations that the reconcilers use, as a record over the
-- type `C` of condition lists, and the documented laws that the theorems need.
use heat_operator.Base.{
  ℕ, String, Bool, true, false, Option, none, some, List, eqb, ◌≡◌, if◌then◌else◌,
}

pub data CondType : Type 0 where
  ready input_ready memcached_ready rabbit_mq_transport_url_ready : CondType
  notification_bus_instance_ready mariadb_account_ready db_ready db_sync_ready : CondType
  service_config_ready cron_job_ready heat_stack_domain_ready : CondType
  heat_engine_ready heat_api_ready heat_cfn_api_ready : CondType
  service_account_ready role_ready role_binding_ready : CondType
  topology_ready tls_input_ready create_service_ready deployment_ready : CondType
  keystone_service_ready keystone_endpoint_ready : CondType

abbrev index : CondType → ℕ
index ready = 0
index input_ready = 1
index memcached_ready = 2
index rabbit_mq_transport_url_ready = 3
index notification_bus_instance_ready = 4
index mariadb_account_ready = 5
index db_ready = 6
index db_sync_ready = 7
index service_config_ready = 8
index cron_job_ready = 9
index heat_stack_domain_ready = 10
index heat_engine_ready = 11
index heat_api_ready = 12
index heat_cfn_api_ready = 13
index service_account_ready = 14
index role_ready = 15
index role_binding_ready = 16
index topology_ready = 17
index tls_input_ready = 18
index create_service_ready = 19
index deployment_ready = 20
index keystone_service_ready = 21
index keystone_endpoint_ready = 22

-- whether two condition types are the same
abbrev pub same_type : CondType → CondType → Bool
same_type t u = eqb (index t) (index u)

pub data Reason : Type 0 where
  error_reason requested_reason init_reason : Reason

pub data Severity : Type 0 where
  warning info : Severity

pub data Err : Type 0 where
  not_found : ℕ → Err  -- k8s_errors.IsNotFound holds of it
  other : ℕ → Err  -- any other error of a library
  auth_encryption_key_too_short ac_secret_missing_keys password_selector_not_found nil_dereference :
      Err
  waiting_for_topology : Err → Err  -- wrapped by ensureTopology or by its caller

abbrev pub is_not_found : Err → Bool
is_not_found (not_found _) = true
is_not_found (waiting_for_topology e) = is_not_found e
is_not_found _ = false

-- The message constants, named after the condition type that their name begins with.
pub data Message : Type 0 where
  ready_message waiting_message running_message init_message : CondType → Message
  error_message : CondType → Err → Message
  missing_keys_message : String → Message  -- the text about AC_ID and AC_SECRET
  waiting_for : CondType → String → Message  -- a waiting message with a secret's name
  waiting_for_error : CondType → Err → Message  -- a waiting message with an error's text
  plain_error : Err → Message  -- "%s"
  input_ready_init_message : Message  -- InputReadyInitMessage, for another type
  input_ready_message : Message  -- InputReadyMessage, for another type
  no_message : Message

pub data Condition : Type 0 where
  true_condition : CondType → Message → Condition
  false_condition : CondType → Reason → Severity → Message → Condition
  unknown_condition : CondType → Reason → Message → Condition

pub data Status : Type 0 where
  is_true is_false is_unknown : Status

abbrev pub type_of : Condition → CondType
type_of (true_condition t m) = t
type_of (false_condition t r s m) = t
type_of (unknown_condition t r m) = t

abbrev pub status_of : Condition → Status
status_of (true_condition t m) = is_true
status_of (false_condition t r s m) = is_false
status_of (unknown_condition t r m) = is_unknown

pub record CondOps (C : Type 0) : Type 0 where
  pub init : List Condition → C → C  -- Init(&cl)
  pub set : Condition → C → C
  pub mark_true : CondType → Message → C → C
  pub remove : CondType → C → C
  pub mirror : CondType → C → Option Condition
  pub get : CondType → C → Option Status  -- the status of Get(t), if there is one
  pub all_sub_condition_is_true : C → Bool
  pub restore_last_transition_times : C → C → C
  pub is_nil : C → Bool
  pub is_unknown : CondType → C → Bool  -- IsUnknown(t)
  pub set_pointer : Option Condition → C → C  -- Set of a pointer that may be nil

-- One condition for each type: a write is read back, and other types are left alone.
pub record CondLaws {C : Type 0} (ops : CondOps C) : Type 0 where
  pub get-set :
      (t : CondType) (k : Condition) (c : C)
      → ops.get t (ops.set k c)
        ≡ (if same_type t (type_of k) then some (status_of k) else ops.get t c)
  pub get-mark_true :
      (t u : CondType) (m : Message) (c : C)
      → ops.get t (ops.mark_true u m c) ≡ (if same_type t u then some is_true else ops.get t c)
  pub get-remove :
      (t u : CondType) (c : C)
      → ops.get t (ops.remove u c) ≡ (if same_type t u then none else ops.get t c)
  pub type_of-mirror :
      (t : CondType) (c : C) (k : Condition) → ops.mirror t c ≡ some k → type_of k ≡ t
