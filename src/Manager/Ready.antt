-- ===== src/Manager/Ready.antt =====
-- What has to be in place when the manager starts.
pub mod Created
pub mod Late
pub mod Started
use heat_operator.Base.{
  ℕ, String, sym, eq_iff, Bool, true, false, nonempty, Option, none, some, is_some, List, [], ◌∷◌,
  ◌≡◌, ◌≢◌, refl, ap, ◌∙◌, if◌then◌else◌, ◌⊎◌, inl, inr, arith,
}
use heat_operator.Api.Defaults.{
  HeatDefaults, setup_defaults, heat_api_container_image, heat_engine_container_image,
}
use mathlib.Core.Path.{subst}
use heat_operator.Api.Defaults.Laws.{IsFilled}
use heat_operator.Heat.Names.{Component}
use heat_operator.Controller.Conditions.{Err}
use heat_operator.Controller.Exec.{Exec, Exit, next, stop, returned, pure, ◌>>=◌, ◌>>◌}
use heat_operator.Controller.Exec.Rules.{
  Post, Triple, Triple-bind, Triple-if, Triple-exit, Triple-given, Post-end,
}
use heat_operator.Controller.Watches.{heat_watch_fields, watch_fields_of}
use heat_operator.Controller.Setup.{Mgr, empty_mgr, heat}
use heat_operator.Controller.Setup.Controllers.{
  heat_builder, heat_api_builder, heat_cfn_api_builder, heat_engine_builder,
}
use heat_operator.Controller.Setup.Laws.{
  Is, Done, Refused, AreIndexed, heat_extract, service_extract, kind_of, with_heat, with_heat_api,
  with_heat_cfn_api, with_heat_engine, full_mgr, heat_indexed, service_indexed, setup_heat_lem,
  setup_heat_api_lem, setup_heat_cfn_api_lem, setup_heat_engine_lem,
}
use heat_operator.Manager.Slices.{Slice, Heap, elements}
use heat_operator.Manager.Env.{
  Env, Flags, State, initial_state, TlsOption, CertWatcher, Options, Checker, ping, webhook_started,
  no_defaults,
}
use heat_operator.Manager.Main.{
  exit_if, modify, webhook_watcher, metrics_watcher, watch_cert, manager_options, create_manager,
  set_up, set_up_controllers, install_defaults, setup_webhook, has_webhooks, choose_checker,
  add_watcher, add_checks, start, main,
}
use heat_operator.Manager.Tls.{IsEarly, Exited, exit_if_lem, modify_lem, base_lem}
use heat_operator.Manager.Tls.Certificates.{
  webhook_of, metrics_of, watcher_if, Webhook, webhook_lem, metrics_lem, Served,
}

-- operator.SetManagerOptions leaves the servers alone.
pub record KeepsServers (env : Env) : Type 0 where
  pub metrics : (o : Options) → (env.set_manager_options o).0.metrics ≡ o.metrics
  pub webhook : (o : Options) → (env.set_manager_options o).0.webhook_server ≡ o.webhook_server

abbrev pub checker_of : Bool → Checker
checker_of true = webhook_started
checker_of false = ping

abbrev pub cons_if : Option CertWatcher → List CertWatcher → List CertWatcher
cons_if none watchers = watchers
cons_if (some watcher) watchers = watcher ∷ watchers

module _ (env : Env) (flags : Flags) where
  abbrev pub webhook_cert : Bool
  webhook_cert = nonempty flags.webhook_cert_path

  abbrev pub metrics_cert : Bool
  metrics_cert = nonempty flags.metrics_cert_path

  abbrev pub webhook_options : List (Option TlsOption)
  webhook_options =
      webhook_of env flags.enable_http2 (webhook_watcher env flags) (metrics_watcher env flags)
        webhook_cert metrics_cert

  abbrev pub metrics_options : List (Option TlsOption)
  metrics_options =
      metrics_of env flags.enable_http2 (webhook_watcher env flags) (metrics_watcher env flags)
        metrics_cert

  -- The manager was created with these servers.
  pub record HasServers (created : Option Options) (h : Heap TlsOption) : Type 0 where
    pub options : Options
    pub is_created : created ≡ some options
    pub webhook_tls : elements options.webhook_server.tls_opts h ≡ webhook_options
    pub metrics_tls : elements options.metrics.tls_opts h ≡ metrics_options
    pub is_secure : options.metrics.secure_serving ≡ flags.secure_metrics
    pub is_filtered : options.metrics.is_filtered ≡ flags.secure_metrics

  -- what is in place
  pub record IsReady (s : State) : Type 0 where
    pub servers : HasServers s.options s.heap
    pub controllers :
        s.mgr.controllers
        ≡ heat_engine_builder ∷ heat_cfn_api_builder ∷ heat_api_builder ∷ heat_builder ∷ []
    pub heat_fields : AreIndexed heat heat_extract heat_watch_fields s.mgr.indexes
    pub service_fields :
        (c : Component)
        → AreIndexed (kind_of c) (service_extract c) (watch_fields_of c) s.mgr.indexes
    pub defaults : IsFilled s.defaults
    pub webhook : s.has_webhook ≡ has_webhooks env flags
    pub watchers :
        s.added
        ≡ cons_if
            (watcher_if webhook_cert (webhook_watcher env flags))
            (cons_if (watcher_if metrics_cert (metrics_watcher env flags)) [])
    pub healthz : s.healthz ≡ some (checker_of (has_webhooks env flags))
    pub readyz : s.readyz ≡ some (checker_of (has_webhooks env flags))

  abbrev pub exit_code : Option Err → ℕ
  exit_code none = 0
  exit_code (some e) = 1

  -- main exited before Start, or the manager was started when all was in place.
  abbrev pub IsOutcome : (started : Option Err) → ℕ → State → Type 0
  IsOutcome started r s =
      ((r ≡ 1) × (s.is_started ≡ false))
      ⊎ ((s.is_started ≡ true) × IsReady s × (r ≡ exit_code started))
