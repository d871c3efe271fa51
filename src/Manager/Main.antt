-- ===== src/Manager/Main.antt =====
-- main of cmd/main.go. `os.Exit(1)` is the return of 1, and the end of main that of 0.
use heat_operator.Base.{
  ℕ, String, Bool, true, not, ◌==◌, Option, none, some, ◌∷◌, nonempty, if◌then◌else◌,
}
use heat_operator.Api.Defaults.{setup_defaults}
use heat_operator.Controller.Conditions.{Err}
use heat_operator.Controller.Exec.{Exec, returned, pure, return, ◌>>=◌, ◌>>◌}
use heat_operator.Controller.Setup.{Mgr}
use heat_operator.Controller.Setup.Controllers.{
  setup_heat, setup_heat_api, setup_heat_cfn_api, setup_heat_engine,
}
use heat_operator.Manager.Slices.{Slice, nil_slice, append}
use heat_operator.Manager.Env.{
  Env, Flags, State, TlsOption, min_version_tls13, http1_only, get_certificate, CertWatcher,
  metrics_server, webhook_server, Options, Checker, ping, webhook_started,
}

-- `if err != nil { os.Exit(1) }`
abbrev pub exit_if : Option Err → Exec ℕ State (Unit {0})
exit_if none = pure tt
exit_if (some e) = return 1

abbrev pub modify : (State → State) → Exec ℕ State (Unit {0})
modify f s = pure tt (f s)

module _ (env : Env) where
  unfoldable pub append_option : TlsOption → Slice → Exec ℕ State Slice
  append_option x slice s =
      let (slice', heap') = append env.grow x slice s.heap in
      pure slice' (record s { heap = heap' })

module _ (env : Env) (flags : Flags) where
  -- tlsOpts
  unfoldable pub base_tls_opts : Exec ℕ State Slice
  base_tls_opts = do
    slice ← append_option env min_version_tls13 nil_slice
    if flags.enable_http2 then pure slice else append_option env http1_only slice

  abbrev pub webhook_watcher : CertWatcher
  webhook_watcher = record {
    server = webhook_server;
    cert = env.join flags.webhook_cert_path flags.webhook_cert_name;
    key = env.join flags.webhook_cert_path flags.webhook_cert_key;
  }

  abbrev pub metrics_watcher : CertWatcher
  metrics_watcher = record {
    server = metrics_server;
    cert = env.join flags.metrics_cert_path flags.metrics_cert_name;
    key = env.join flags.metrics_cert_path flags.metrics_cert_key;
  }

  -- The watcher of a certificate, if a path is given, and the TLS options with it.
  unfoldable pub watch_cert :
      (path : String) → CertWatcher → Slice → Exec ℕ State (Option CertWatcher × Slice)
  watch_cert path watcher slice =
      if nonempty path
      then (exit_if (env.new_cert_watcher watcher.cert watcher.key)
          >> (append_option env (get_certificate watcher) slice >>= λ slice'.
              pure (some watcher, slice')))
      else pure (none, slice)

  unfoldable pub manager_options : (webhook_opts metrics_opts : Slice) → Options
  manager_options webhook_opts metrics_opts = record {
    metrics = record {
      bind_address = flags.metrics_addr;
      secure_serving = flags.secure_metrics;
      tls_opts = metrics_opts;
      is_filtered = flags.secure_metrics;
    };
    webhook_server = record { port = flags.webhook_port; tls_opts = webhook_opts };
    health_probe_bind_address = flags.probe_addr;
    pprof_bind_address = flags.pprof_bind_address;
    leader_election = flags.enable_leader_election;
    leader_election_id = "c3c8b535.openstack.org";
    leases = env.no_leases;
  }

  -- The second test of NewForConfig's error is left out: the first has exited.
  unfoldable pub create_manager : (webhook_opts metrics_opts : Slice) → Exec ℕ State (Unit {0})
  create_manager webhook_opts metrics_opts = do
    let (options, err) = env.set_manager_options (manager_options webhook_opts metrics_opts)
    exit_if err
    exit_if env.config_or_die
    exit_if (env.new_manager options)
    modify (λ s. record s { options = some options })
    exit_if env.get_config
    exit_if env.new_for_config

  unfoldable pub set_up : Exec (Option Err) Mgr (Option Err) → Exec ℕ State (Unit {0})
  set_up m s = let (x, mgr') = m s.mgr in exit_if (returned x) (record s { mgr = mgr' })

  unfoldable pub set_up_controllers : Exec ℕ State (Unit {0})
  set_up_controllers = do
    set_up (setup_heat env.setup)
    set_up (setup_heat_api env.setup)
    set_up (setup_heat_cfn_api env.setup)
    set_up (setup_heat_engine env.setup)

  -- SetupDefaults, with SetupHeatDefaults
  unfoldable pub install_defaults : Exec ℕ State (Unit {0})
  install_defaults = modify (λ s. record s { defaults = setup_defaults env.get_env_var })

  -- SetupHeatWebhookWithManager
  unfoldable pub setup_webhook : Exec ℕ State (Unit {0})
  setup_webhook = do exit_if env.complete_webhook; modify (λ s. record s { has_webhook = true })

  abbrev pub has_webhooks : Bool
  has_webhooks = not (env.getenv "ENABLE_WEBHOOKS" == "false")

  unfoldable pub choose_checker : Exec ℕ State Checker
  choose_checker = if has_webhooks then (setup_webhook >> pure webhook_started) else pure ping

  unfoldable pub add_watcher : Option CertWatcher → Exec ℕ State (Unit {0})
  add_watcher none = pure tt
  add_watcher (some watcher) = do
    exit_if (env.add watcher)
    modify (λ s. record s { added = watcher ∷ s.added })

  unfoldable pub add_checks : Checker → Exec ℕ State (Unit {0})
  add_checks checker = do
    exit_if (env.add_healthz_check checker)
    modify (λ s. record s { healthz = some checker })
    exit_if (env.add_readyz_check checker)
    modify (λ s. record s { readyz = some checker })

  unfoldable pub start : Exec ℕ State (Unit {0})
  start = do modify (λ s. record s { is_started = true }); exit_if env.start

  unfoldable pub main : Exec ℕ State ℕ
  main = do
    tls_opts ← base_tls_opts
    (webhook_cert, webhook_opts) ← watch_cert flags.webhook_cert_path webhook_watcher tls_opts
    (metrics_cert, metrics_opts) ← watch_cert flags.metrics_cert_path metrics_watcher tls_opts
    create_manager webhook_opts metrics_opts
    set_up_controllers
    install_defaults
    checker ← choose_checker
    add_watcher metrics_cert
    add_watcher webhook_cert
    add_checks checker
    start
    pure 0
