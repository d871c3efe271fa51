-- ===== src/Manager/Env.antt =====
-- What cmd/main.go reads and calls, and the state of the process that it builds. A call that comes
-- once is a parameter by its arguments alone.
use heat_operator.Base.{ℕ, String, Bool, true, false, Option, none, List, []}
use heat_operator.Api.Types.{Opaque}
use heat_operator.Api.Defaults.{HeatDefaults}
use heat_operator.Controller.Conditions.{Err}
use heat_operator.Controller.Setup.{SetupOps, Mgr, empty_mgr}
use heat_operator.Manager.Slices.{Slice, Heap, empty_heap}

-- the values of the flags
pub record Flags : Type 0 where
  pub metrics_addr : String
  pub probe_addr : String
  pub enable_leader_election : Bool
  pub secure_metrics : Bool
  pub webhook_cert_path : String
  pub webhook_cert_name : String
  pub webhook_cert_key : String
  pub metrics_cert_path : String
  pub metrics_cert_name : String
  pub metrics_cert_key : String
  pub pprof_bind_address : String
  pub webhook_port : ℕ
  pub enable_http2 : Bool

-- their values where the command line gives none
abbrev pub default_flags : Flags
default_flags = record {
  metrics_addr = "0";
  probe_addr = ":8081";
  enable_leader_election = false;
  secure_metrics = true;
  webhook_cert_path = "";
  webhook_cert_name = "tls.crt";
  webhook_cert_key = "tls.key";
  metrics_cert_path = "";
  metrics_cert_name = "tls.crt";
  metrics_cert_key = "tls.key";
  pprof_bind_address = "";
  webhook_port = 9443;
  enable_http2 = false;
}

pub data Server : Type 0 where
  metrics_server webhook_server : Server

-- certwatcher.CertWatcher: the server whose certificate it watches, and the two files
pub record CertWatcher : Type 0 where
  pub server : Server
  pub cert : String
  pub key : String

-- the functions on a tls.Config
pub data TlsOption : Type 0 where
  min_version_tls13 http1_only : TlsOption
  get_certificate : CertWatcher → TlsOption

pub record MetricsOptions : Type 0 where
  pub bind_address : String
  pub secure_serving : Bool
  pub tls_opts : Slice
  pub is_filtered : Bool  -- FilterProvider is WithAuthenticationAndAuthorization

pub record WebhookOptions : Type 0 where
  pub port : ℕ
  pub tls_opts : Slice

-- ctrl.Options. `leases` are the durations that operator.SetManagerOptions sets.
pub record Options : Type 0 where
  pub metrics : MetricsOptions
  pub webhook_server : WebhookOptions
  pub health_probe_bind_address : String
  pub pprof_bind_address : String
  pub leader_election : Bool
  pub leader_election_id : String
  pub leases : Opaque

pub data Checker : Type 0 where
  ping webhook_started : Checker

pub record Env : Type 0 where
  pub grow : ℕ → ℕ → ℕ  -- the capacity that the runtime gives a slice that has to grow
  pub no_leases : Opaque  -- the zero values
  pub join : String → String → String  -- filepath.Join
  pub new_cert_watcher : (cert key : String) → Option Err  -- certwatcher.New
  pub set_manager_options : Options → Options × Option Err  -- operator.SetManagerOptions
  pub config_or_die : Option Err  -- ctrl.GetConfigOrDie, which exits
  pub new_manager : Options → Option Err  -- ctrl.NewManager
  pub get_config : Option Err  -- config.GetConfig
  pub new_for_config : Option Err  -- kubernetes.NewForConfig
  pub setup : SetupOps
  pub get_env_var : String → String → String  -- util.GetEnvVar
  pub getenv : String → String  -- os.Getenv
  pub complete_webhook : Option Err  -- SetupHeatWebhookWithManager's Complete
  pub add : CertWatcher → Option Err  -- mgr.Add
  pub add_healthz_check : Checker → Option Err
  pub add_readyz_check : Checker → Option Err
  pub start : Option Err  -- mgr.Start

-- `options` are those of the manager, `mgr` is what was registered with it, and `defaults` is the
-- package variable heatDefaults.
pub record State : Type 0 where
  pub heap : Heap TlsOption
  pub options : Option Options
  pub mgr : Mgr
  pub defaults : HeatDefaults
  pub has_webhook : Bool
  pub added : List CertWatcher  -- the newest first
  pub healthz : Option Checker
  pub readyz : Option Checker
  pub is_started : Bool

abbrev pub no_defaults : HeatDefaults
no_defaults = record {
  api_container_image_url = "";
  cfn_api_container_image_url = "";
  engine_container_image_url = "";
  db_purge_age = 0;
  db_purge_schedule = "";
}

abbrev pub initial_state : State
initial_state = record {
  heap = empty_heap;
  options = none;
  mgr = empty_mgr;
  defaults = no_defaults;
  has_webhook = false;
  added = [];
  healthz = none;
  readyz = none;
  is_started = false;
}
