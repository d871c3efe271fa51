-- ===== src/Manager/Ready/Started.antt =====
-- Start itself, and main as a whole.
use heat_operator.Base.{
  ℕ, sym, eq_iff, true, Option, none, some, [], ◌≡◌, ◌≢◌, refl, ap, ◌∙◌, inl, inr, arith,
}
use heat_operator.Api.Defaults.{
  HeatDefaults, setup_defaults, heat_api_container_image, heat_engine_container_image,
}
use mathlib.Core.Path.{subst}
use heat_operator.Api.Defaults.Laws.{IsFilled}
use heat_operator.Controller.Conditions.{Err}
use heat_operator.Controller.Exec.{Exec, returned, pure, ◌>>=◌, ◌>>◌}
use heat_operator.Controller.Exec.Rules.{
  Post, Triple, Triple-bind, Triple-exit, Triple-given, Post-end,
}
use heat_operator.Controller.Watches.{heat_watch_fields, watch_fields_of}
use heat_operator.Controller.Setup.{empty_mgr, heat}
use heat_operator.Controller.Setup.Laws.{
  AreIndexed, heat_extract, service_extract, kind_of, heat_indexed, service_indexed,
}
use heat_operator.Manager.Env.{Env, Flags, State, initial_state, CertWatcher, Checker}
use heat_operator.Manager.Main.{
  exit_if, webhook_watcher, metrics_watcher, watch_cert, set_up_controllers, install_defaults,
  has_webhooks, choose_checker, add_watcher, add_checks, start, main,
}
use heat_operator.Manager.Tls.{Exited, base_lem}
use heat_operator.Manager.Tls.Certificates.{watcher_if, webhook_lem, metrics_lem}
use heat_operator.Manager.Ready.{
  KeepsServers, webhook_cert, metrics_cert, cons_if, checker_of, IsReady, IsOutcome,
}
use heat_operator.Manager.Ready.Created.{Registered, controllers_lem, create_lem}
use heat_operator.Manager.Ready.Late.{Late, defaults_lem, checker_lem, added_lem, checks_lem}

module _ (env : Env) (flags : Flags) (keeps : KeepsServers env) where
  abbrev defaults : HeatDefaults
  defaults = setup_defaults env.get_env_var

  module _
      (api_image : env.get_env_var "RELATED_IMAGE_HEAT_API_IMAGE_URL_DEFAULT"
          heat_api_container_image
        ≢ "")
      (engine_image : env.get_env_var "RELATED_IMAGE_HEAT_ENGINE_IMAGE_URL_DEFAULT"
          heat_engine_container_image
        ≢ "") where
    defaults-IsFilled : IsFilled defaults
    unfolding setup_defaults
    defaults-IsFilled = record {
      api = api_image;
      cfn = api_image;
      engine = engine_image;
      age = omega arith;
      schedule = ground (arith, eq_iff "1 0 * * *" "");
    }

    abbrev Planned : Option CertWatcher → Option CertWatcher → Type 0
    Planned wc mc =
        (wc ≡ watcher_if (webhook_cert env flags) (webhook_watcher env flags))
        × (mc ≡ watcher_if (metrics_cert env flags) (metrics_watcher env flags))

    started-IsReady :
        (wc mc : Option CertWatcher) (checker : Checker) (s : State)
        → Planned wc mc
        → checker ≡ checker_of (has_webhooks env flags)
        → Late env flags keeps defaults
            (has_webhooks env flags)
            (cons_if wc (cons_if mc []))
            (some checker)
            (some checker)
            s
        → IsReady env flags (record s { is_started = true })
    started-IsReady wc mc checker s (is_wc, is_mc) chosen (servers, rest) = record {
      servers = servers;
      controllers = ap (λ s'. s'.mgr.controllers) rest;
      heat_fields =
          subst (λ s'. AreIndexed heat heat_extract heat_watch_fields s'.mgr.indexes) (sym rest)
            heat_indexed;
      service_fields = λ c.
          subst
            (λ s'. AreIndexed (kind_of c) (service_extract c) (watch_fields_of c) s'.mgr.indexes)
            (sym rest) (service_indexed c);
      defaults = subst (λ s'. IsFilled s'.defaults) (sym rest) defaults-IsFilled;
      webhook = ap (λ s'. s'.has_webhook) rest;
      watchers = ap (λ s'. s'.added) rest ∙ ground (arith, is_wc, is_mc);
      healthz = ap (λ s'. s'.healthz) rest ∙ ap some chosen;
      readyz = ap (λ s'. s'.readyz) rest ∙ ap some chosen;
    }

    started_lem :
        (wc mc : Option CertWatcher) (checker : Checker)
        → Planned wc mc
        → checker ≡ checker_of (has_webhooks env flags)
        → Triple
            (Late env flags keeps defaults
              (has_webhooks env flags)
              (cons_if wc (cons_if mc []))
              (some checker)
              (some checker))
            (start env flags >> pure 0)
            (IsOutcome env flags env.start)
            (IsOutcome env flags env.start)
    unfolding start
    started_lem wc mc checker planned chosen = record {
      at = λ s h. ends s env.start (started-IsReady wc mc checker s planned chosen h);
    }
      where
        ends :
            (s : State) (err : Option Err)
            → IsReady env flags (record s { is_started = true })
            → Post
                (IsOutcome env flags err)
                (IsOutcome env flags err)
                ((exit_if err >> pure 0) (record s { is_started = true }))
        ends s none ready = inr (refl, ready, refl)
        ends s (some e) ready = inr (refl, ready, refl)

    exits :
        {A : Type 0} {P : State → Type 0} {Q : A → State → Type 0} {m : Exec ℕ State A}
        → Triple P m Q Exited
        → Triple P m Q (IsOutcome env flags env.start)
    exits t = Triple-exit (λ r s. inl) t

    registered_lem :
        (wc mc : Option CertWatcher)
        → Planned wc mc
        → Triple
            (Registered env flags keeps empty_mgr)
            (set_up_controllers env flags
              >> (install_defaults env flags
                  >> (choose_checker env flags >>= λ checker.
                      add_watcher env flags mc
                      >> (add_watcher env flags wc
                          >> (add_checks env flags checker >> (start env flags >> pure 0))))))
            (IsOutcome env flags env.start)
            (IsOutcome env flags env.start)
    unfolding choose_checker
    registered_lem wc mc planned =
        let b = has_webhooks env flags in
        Triple-bind (exits (controllers_lem env flags keeps)) (λ _.
          Triple-bind (exits (defaults_lem env flags keeps)) (λ _.
            Triple-bind (exits (checker_lem env flags keeps b)) (λ checker.
              Triple-given (λ s h. h.0)
                (λ chosen.
                  Triple-bind
                    (exits (record { at = λ s h. (added_lem env flags keeps b [] mc).at s h.1 }))
                    (λ _. Triple-bind (exits (added_lem env flags keeps b (cons_if mc []) wc)) (λ _.
                      Triple-bind
                        (exits (checks_lem env flags keeps b (cons_if wc (cons_if mc [])) checker))
                        (λ _. started_lem wc mc checker planned chosen)))))))

    main_lem :
        Triple
          (λ s. s ≡ initial_state)
          (main env flags)
          (IsOutcome env flags env.start)
          (IsOutcome env flags env.start)
    unfolding main watch_cert
    main_lem =
        let webhook = webhook_watcher env flags in
        let metrics = metrics_watcher env flags in
        Triple-bind (exits (base_lem env flags)) (λ tls.
          Triple-bind
            (exits
              (webhook_lem env flags.enable_http2 webhook metrics tls (webhook_cert env flags) _))
            (λ (wc, w).
              Triple-bind
                (exits (
                  metrics_lem env flags.enable_http2 webhook metrics (webhook_cert env flags)
                    (metrics_cert env flags) _ tls w wc))
                (λ (mc, m).
                  Triple-given (λ s h. (h.watches_webhook, h.watches_metrics))
                    (λ planned.
                      Triple-bind (exits (create_lem env flags keeps wc w mc m))
                        (λ _. registered_lem wc mc planned)))))

    -- Where operator.SetManagerOptions leaves the servers alone and the environment gives the two
    -- images no empty name: main exits with 1 before it calls Start, or it calls Start when
    -- everything is in place, and then its exit code tells whether Start failed. In place are: the
    -- four controllers, each with an index, by its own index function, for every field that it
    -- watches; non-empty defaults; the webhook and its checker exactly if ENABLE_WEBHOOKS is not
    -- "false", with the checker as both checks; the certificate watchers of the given paths; and two
    -- servers with TLS 1.3 at least and without HTTP/2 unless it is enabled, of which the metrics
    -- server has its own certificate, and the webhook server too, unless both paths are given and
    -- the runtime leaves spare room in the slice that they share, where it has that of the metrics
    -- server.
    pub main-IsOutcome :
        IsOutcome env flags env.start
          (returned (main env flags initial_state).0)
          (main env flags initial_state).1
    main-IsOutcome =
        Post-end (IsOutcome env flags env.start) (main env flags initial_state)
          (main_lem.at initial_state refl)
