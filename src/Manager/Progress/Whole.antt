-- ===== src/Manager/Progress/Whole.antt =====
-- Where no call fails, the manager is started.
use heat_operator.Base.{ℕ, String, true, nonempty, Option, none, some, ◌≡◌, arith}
use heat_operator.Controller.Exec.{Exit, next, stop, returned, pure, ◌>>◌}
use heat_operator.Controller.Exec.Rules.{Post, Triple, Triple-bind, Triple-if}
use heat_operator.Manager.Slices.{Slice}
use heat_operator.Manager.Env.{
  Env, Flags, State, initial_state, CertWatcher, Checker, TlsOption, ping, webhook_started,
}
use heat_operator.Manager.Main.{
  manager_options, append_option, base_tls_opts, watch_cert, create_manager, install_defaults,
  setup_webhook, has_webhooks, choose_checker, add_watcher, add_checks, start, main,
}
use heat_operator.Manager.Progress.{
  AllSucceed, Any, Never, Goes, passes, goes_pure, goes_modify, goes_controllers,
}

module _ (env : Env) (flags : Flags) (ok : AllSucceed env) where
  goes_append : (x : TlsOption) (slice : Slice) → Goes (append_option env x slice)
  unfolding append_option
  goes_append x slice = record { at = λ s h. tt }

  goes_base : Goes (base_tls_opts env flags)
  unfolding base_tls_opts
  goes_base =
      Triple-bind (goes_append _ _)
        (λ slice. Triple-if flags.enable_http2 (λ h. goes_pure slice) (λ h. goes_append _ slice))

  goes_watch :
      (path : String) (watcher : CertWatcher) (slice : Slice)
      → Goes (watch_cert env flags path watcher slice)
  unfolding watch_cert
  goes_watch path watcher slice =
      Triple-if (nonempty path)
        (λ given.
          Triple-bind
            (passes (env.new_cert_watcher watcher.cert watcher.key)
              (ok.new_cert_watcher watcher.cert watcher.key))
            (λ _. Triple-bind (goes_append _ slice) (λ slice'. goes_pure (some watcher, slice'))))
        (λ absent. goes_pure (none, slice))

  goes_create : (w m : Slice) → Goes (create_manager env flags w m)
  unfolding create_manager
  goes_create w m =
      let options = env.set_manager_options (manager_options env flags w m) in
      Triple-bind (passes options.1 (ok.set_manager_options _)) (λ _.
        Triple-bind (passes env.config_or_die ok.config_or_die) (λ _.
          Triple-bind (passes (env.new_manager options.0) (ok.new_manager _)) (λ _.
            Triple-bind (goes_modify _) (λ _.
              Triple-bind (passes env.get_config ok.get_config)
                (λ _. passes env.new_for_config ok.new_for_config)))))

  goes_choose : Goes (choose_checker env flags)
  unfolding choose_checker setup_webhook
  goes_choose =
      Triple-if (has_webhooks env flags)
        (λ enabled.
          Triple-bind
            (Triple-bind (passes env.complete_webhook ok.complete_webhook) (λ _. goes_modify _))
            (λ _. goes_pure webhook_started))
        (λ disabled. goes_pure ping)

  goes_add : (watcher : Option CertWatcher) → Goes (add_watcher env flags watcher)
  unfolding add_watcher
  goes_add none = record { at = λ s h. tt }
  goes_add (some watcher) =
      Triple-bind (passes (env.add watcher) (ok.add watcher)) (λ _. goes_modify _)

  goes_checks : (checker : Checker) → Goes (add_checks env flags checker)
  unfolding add_checks
  goes_checks checker =
      Triple-bind (passes (env.add_healthz_check checker) (ok.add_healthz_check checker)) (λ _.
        Triple-bind (goes_modify _) (λ _.
          Triple-bind (passes (env.add_readyz_check checker) (ok.add_readyz_check checker))
            (λ _. goes_modify (λ s. record s { readyz = some checker }))))

  goes_start :
      Triple {A = ℕ}
        (Any tt)
        (start env flags >> pure 0)
        (λ r s. (r ≡ 0) × (s.is_started ≡ true))
        Never
  unfolding start
  goes_start = record { at = λ s h. ground (arith, ok.start) }

  goes_main : Triple (Any tt) (main env flags) (λ r s. (r ≡ 0) × (s.is_started ≡ true)) Never
  unfolding main install_defaults
  goes_main = Triple-bind goes_base (λ tls. Triple-bind (goes_watch _ _ tls) (λ (wc, w).
      Triple-bind (goes_watch _ _ tls) (λ (mc, m). Triple-bind (goes_create w m) (λ _.
        Triple-bind (goes_controllers env flags ok) (λ _. Triple-bind (goes_modify _) (λ _.
          Triple-bind goes_choose (λ checker. Triple-bind (goes_add mc) (λ _.
            Triple-bind (goes_add wc)
              (λ _. Triple-bind (goes_checks checker) (λ _. goes_start))))))))))

  -- Where no call gives an error, main starts the manager and ends with the exit code 0.
  pub main-IsStarted :
      (returned (main env flags initial_state).0 ≡ 0)
      × ((main env flags initial_state).1.is_started ≡ true)
  main-IsStarted = ended (main env flags initial_state) (goes_main.at initial_state tt)
    where
      ended :
          (x : Exit ℕ ℕ × State)
          → Post (λ r s. (r ≡ 0) × (s.is_started ≡ true)) Never x
          → (returned x.0 ≡ 0) × (x.1.is_started ≡ true)
      ended (next r, s) h = h
      ended (stop r, s) h = ground arith
