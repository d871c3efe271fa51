-- ===== src/Examples/Cluster.antt =====
-- Conditions as a function of the type, and a cluster that grants every request.
use heat_operator.Base.{
  inl, inr, String, true, false, Option, none, some, List, [], ◌∷◌, refl, sym, ap, if◌then◌else◌,
}
use heat_operator.Api.Types.{HeatStatus}
use heat_operator.Heat.Volumes.{VolumeOps, foreign_source, mount}
use heat_operator.Controller.Conditions.{
  other, CondOps, CondLaws, CondType, Condition, Status, is_true, type_of, status_of, same_type,
  true_condition, no_message,
}
use heat_operator.Controller.Exec.{empty_result}
use heat_operator.Controller.Heat.Env.{Env, State, Child, found}
use heat_operator.Examples.Resource.{some_opaque}

-- the status of each condition that is there
abbrev pub Table : Type 0
Table = CondType → Option Status

abbrev pub write : CondType → Option Status → Table → Table
write u st c t = if same_type t u then st else c t

abbrev pub write_all : List Condition → Table → Table
write_all [] c = c
write_all (k ∷ ks) c = write (type_of k) (some (status_of k)) (write_all ks c)

abbrev pub write_pointer : Option Condition → Table → Table
write_pointer none c = c
write_pointer (some k) c = write (type_of k) (some (status_of k)) c

abbrev pub table_ops : CondOps Table
table_ops = record {
  init = write_all;
  set = λ k. write (type_of k) (some (status_of k));
  mark_true = λ t m. write t (some is_true);
  remove = λ t. write t none;
  mirror = λ t c. some (true_condition t no_message);
  get = λ t c. c t;
  all_sub_condition_is_true = λ c. false;
  restore_last_transition_times = λ c saved. c;
  is_nil = λ c. false;
  is_unknown = λ t c. true;
  set_pointer = write_pointer;
}

abbrev type_in : CondType → Option Condition → CondType
type_in t none = t
type_in t (some k) = type_of k

pub table_laws : CondLaws table_ops
table_laws = record {
  get-set = λ t k c. refl;
  get-mark_true = λ t u m c. refl;
  get-remove = λ t u c. refl;
  type_of-mirror = λ t c k h. sym (ap (type_in t) h);
}

abbrev pub volume_ops : VolumeOps
volume_ops = record {
  db_sync = "DBSync";
  propagate = λ v svc. v ∷ [];
  extra_volumes = λ v. ("extra", v) ∷ [];
  extra_mounts = λ v. mount "extra" "/extra" "" true ∷ [];
  to_core_volume_source = foreign_source;
  config_secret_volumes = λ names. ([], []);
  ca_volume = λ tls. record { name = "ca"; source = foreign_source some_opaque };
  ca_volume_mounts = λ tls. mount "ca" "/ca" "" true ∷ [];
  writable_dir_volume = λ name. record { name = name; source = foreign_source some_opaque };
  writable_dir_volume_mount = λ name path. mount name path "" false;
  run_httpd_name = "run-httpd";
  run_httpd_path = "/run/httpd";
  to_service = λ secret. elim secret [ none ↦ inl (other 1) | some s ↦ inr s ];
  mtls_volume = record { name = "mtls"; source = foreign_source some_opaque };
  mtls_volume_mounts = mount "mtls" "/mtls" "" true ∷ [];
  tls_enabled = λ tls endpt. false;
  service_volume = λ secret endpt. record { name = endpt; source = foreign_source some_opaque };
  service_volume_mounts = λ secret endpt cert key. mount endpt cert "" true ∷ [];
}

-- a child that runs with the secrets of the hash
abbrev pub running_child : String → Child Table
running_child hash = record {
  generation = 1;
  observed_generation = 1;
  applied_input_secret_hash = hash;
  ready_count = 1;
  is_ready = true;
  conditions = λ t. none;
}

abbrev pub granting : Env Table
granting = record {
  volume_ops = volume_ops;
  cert_mount_path = "/cert";
  key_mount_path = "/key";
  ca_mount_path = "/ca";
  app_selector = "service";
  input_hash_name = "input";
  finalizer = "openstack.org/heat";
  add_finalizer = λ f fs. (false, fs);
  remove_finalizer = λ f fs. [];
  reconcile_rbac = λ c log. (c, empty_result, none);
  verify_secret_fields = λ secret fields timeout log. ("h1", empty_result, none);
  verify_secret = λ secret keys log. ("h2", none);
  get_memcached = λ name log. found (record {
    is_ready = true;
    mtls_secret = "";
    server_list = "memcached:11211";
    server_list_with_inet = "inet:memcached:11211";
    tls_support = false;
  });
  apply_transport_url = λ name bus log. ("transport-secret", none);
  add_consumer = λ secret finalizer log. none;
  remove_consumer = λ secret finalizer log. none;
  prune_consumers = λ finalizer keep log. none;
  finalize_rotation = λ old current finalizer ready log. (current, none);
  delete_transport_url = λ name log. none;
  get_transport_url = λ name log. found "transport-secret";
  ensure_account = λ account log. none;
  apply_database = λ log. (empty_result, none);
  wait_for_database = λ log. (empty_result, none);
  database =
      λ log. record { user_name = "heat"; password = "pw"; client_config = λ tls. "[client]" };
  database_hostname = λ log. "db";
  get_database = λ account log. none;
  delete_db_finalizer = λ log. none;
  delete_unused_account_finalizers = λ account log. none;
  get_secret = λ name log. found (
      ("HeatPassword", "pw")
      ∷ ("HeatAuthEncryptionKey", "0123456789abcdef0123456789abcdef")
      ∷ ("transport_url", "rabbit://")
      ∷ ("AC_ID", "id")
      ∷ ("AC_SECRET", "secret")
      ∷ []);
  get_keystone_api = λ log. found some_opaque;
  get_endpoint = λ keystone log. found "http://keystone";
  get_region = λ keystone. "regionOne";
  ensure_secrets = λ template vars log. (vars, none);
  hash_env = λ vars. found "hash";
  hash_names = λ names. found "hash";
  set_hash = λ m name hash. m;
  do_job = λ job hash log. ((empty_result, none), true, "job");
  apply_cron_job = λ job log. (empty_result, none);
  get_admin_client = λ keystone log. (empty_result, none);
  create_domain = λ log. ("domain", none);
  create_role = λ name log. none;
  create_user = λ name password domain log. ("user", none);
  assign_user_domain_role = λ role user domain log. none;
  apply_child = λ c name spec hash log. (running_child hash, none);
}

abbrev pub old_status : HeatStatus Table
old_status = record {
  conditions = λ t. none;
  hash = [];
  database_hostname = "";
  transport_url_secret = "old-transport-secret";
  notifications_transport_url_secret = "";
  heat_api_ready_count = 0;
  heat_cfn_api_ready_count = 0;
  heat_engine_ready_count = 0;
  application_credential_secret = "old-ac-secret";
  observed_generation = 1;
}

abbrev pub first_state : State Table
first_state = record { status = old_status; keystone_api = none; log = [] }
