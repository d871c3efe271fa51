-- ===== src/Manager/Progress.antt =====
-- Where no call fails, every controller is set up.
pub mod Whole
use heat_operator.Base.{ℕ, String, true, false, nonempty, Option, none, some, ◌≡◌, refl, arith}
use heat_operator.Controller.Conditions.{Err}
use heat_operator.Controller.Exec.{Exec, Exit, next, stop, returned, pure, ◌>>◌}
use heat_operator.Controller.Exec.Rules.{Post, Triple, Triple-bind, Triple-if}
use heat_operator.Controller.Watches.{
  password_secret, transport_url_secret, ca_bundle_secret_name, tls_api_internal, tls_api_public,
  custom_service_config, topology, auth_app_cred_secret,
}
use heat_operator.Controller.Setup.{Index, Builder, Mgr, index_field, complete}
use heat_operator.Controller.Setup.Controllers.{
  heat_field, heat_api_field, heat_cfn_api_field, heat_engine_field, heat_builder, heat_api_builder,
  heat_cfn_api_builder, heat_engine_builder, setup_heat, setup_heat_api, setup_heat_cfn_api,
  setup_heat_engine,
}
use heat_operator.Manager.Slices.{Slice}
use heat_operator.Manager.Env.{
  Env, Flags, State, initial_state, Options, CertWatcher, Checker, TlsOption, ping, webhook_started,
}
use heat_operator.Manager.Main.{
  exit_if, modify, manager_options, append_option, base_tls_opts, watch_cert, create_manager,
  set_up, set_up_controllers, install_defaults, setup_webhook, has_webhooks, choose_checker,
  add_watcher, add_checks, start, main,
}

-- No call up to Start, and not Start either, gives an error.
pub record AllSucceed (env : Env) : Type 0 where
  pub new_cert_watcher : (cert key : String) → env.new_cert_watcher cert key ≡ none
  pub set_manager_options : (o : Options) → (env.set_manager_options o).1 ≡ none
  pub config_or_die : env.config_or_die ≡ none
  pub new_manager : (o : Options) → env.new_manager o ≡ none
  pub get_config : env.get_config ≡ none
  pub new_for_config : env.new_for_config ≡ none
  pub index_field : (index : Index) (mgr : Mgr) → env.setup.index_field index mgr ≡ none
  pub complete : (builder : Builder) (mgr : Mgr) → env.setup.complete builder mgr ≡ none
  pub complete_webhook : env.complete_webhook ≡ none
  pub add : (watcher : CertWatcher) → env.add watcher ≡ none
  pub add_healthz_check : (checker : Checker) → env.add_healthz_check checker ≡ none
  pub add_readyz_check : (checker : Checker) → env.add_readyz_check checker ≡ none
  pub start : env.start ≡ none

abbrev pub Any : {A S : Type 0} → A → S → Type 0
Any _ _ = Unit {0}

abbrev pub Never : {A S : Type 0} → A → S → Type 0
Never _ _ = false ≡ true

-- The body does not return early.
abbrev pub Goes : {R S A : Type 0} → Exec R S A → Type 0
Goes {R} {S} {A} m = Triple (Any tt) m (Any {A = A}) (Never {A = R})

pub passes : (err : Option Err) → err ≡ none → Goes (exit_if err)
passes none e = record { at = λ s h. tt }
passes (some err) e = record { at = λ s h. ground arith }

pub goes_pure : {R S A : Type 0} (a : A) → Goes {R = R} {S = S} (pure a)
goes_pure a = record { at = λ s h. tt }

pub goes_modify : (f : State → State) → Goes (modify f)
goes_modify f = record { at = λ s h. tt }

module _ (env : Env) (flags : Flags) (ok : AllSucceed env) where
  indexes : (index : Index) → Goes (index_field env.setup index)
  unfolding index_field
  indexes index = record { at = λ mgr h. ground (arith, ok.index_field index mgr) }

  completes : (builder : Builder) → Goes (complete env.setup builder)
  unfolding complete
  completes builder = record { at = λ mgr h. ground (arith, ok.complete builder mgr) }

  -- SetupWithManager returns nil.
  abbrev ReturnsNil : Exec (Option Err) Mgr (Option Err) → Type 0
  ReturnsNil m = Triple (Any tt) m (λ r mgr. r ≡ none) Never

  indexed :
      (index : Index) {rest : Exec (Option Err) Mgr (Option Err)}
      → ReturnsNil rest
      → ReturnsNil (index_field env.setup index >> rest)
  indexed index t = Triple-bind (indexes index) (λ _. t)

  built : (builder : Builder) → ReturnsNil (complete env.setup builder >> pure none)
  built builder = Triple-bind (completes builder) (λ _. record { at = λ mgr h. refl })

  goes_set_up : (m : Exec (Option Err) Mgr (Option Err)) → ReturnsNil m → Goes (set_up env flags m)
  unfolding set_up
  goes_set_up m t = record { at = λ s h. exits s (m s.mgr) (t.at s.mgr tt) }
    where
      exits :
          (s : State) (x : Exit (Option Err) (Option Err) × Mgr)
          → Post (λ r mgr. r ≡ none) Never x
          → Post
              (Any {A = Unit {0}})
              (Never {A = ℕ})
              (exit_if (returned x.0) (record s { mgr = x.1 }))
      exits s (next r, mgr) h = (passes r h).at (record s { mgr = mgr }) tt
      exits s (stop r, mgr) h = ground arith

  sets_up_heat : ReturnsNil (setup_heat env.setup)
  unfolding setup_heat
  sets_up_heat =
      (indexed (heat_field password_secret) (
        indexed (heat_field custom_service_config)
          (indexed (heat_field auth_app_cred_secret) (built heat_builder))))

  sets_up_heat_api : ReturnsNil (setup_heat_api env.setup)
  unfolding setup_heat_api
  sets_up_heat_api =
      (indexed (heat_api_field password_secret) (
        indexed (heat_api_field transport_url_secret) (
          indexed (heat_api_field ca_bundle_secret_name) (
            indexed (heat_api_field tls_api_internal) (
              indexed (heat_api_field tls_api_public) (
                indexed (heat_api_field custom_service_config)
                  (indexed (heat_api_field topology) (built heat_api_builder))))))))

  sets_up_heat_cfn_api : ReturnsNil (setup_heat_cfn_api env.setup)
  unfolding setup_heat_cfn_api
  sets_up_heat_cfn_api =
      (indexed (heat_cfn_api_field password_secret) (
        indexed (heat_cfn_api_field transport_url_secret) (
          indexed (heat_cfn_api_field ca_bundle_secret_name) (
            indexed (heat_cfn_api_field tls_api_internal) (
              indexed (heat_cfn_api_field tls_api_public) (
                indexed (heat_cfn_api_field custom_service_config)
                  (indexed (heat_cfn_api_field topology) (built heat_cfn_api_builder))))))))

  sets_up_heat_engine : ReturnsNil (setup_heat_engine env.setup)
  unfolding setup_heat_engine
  sets_up_heat_engine =
      (indexed (heat_engine_field password_secret) (
        indexed (heat_engine_field transport_url_secret) (
          indexed (heat_engine_field ca_bundle_secret_name) (
            indexed (heat_engine_field custom_service_config)
              (indexed (heat_engine_field topology) (built heat_engine_builder))))))

  pub goes_controllers : Goes (set_up_controllers env flags)
  unfolding set_up_controllers
  goes_controllers = Triple-bind (goes_set_up _ sets_up_heat) (λ _.
      Triple-bind (goes_set_up _ sets_up_heat_api) (λ _.
        Triple-bind (goes_set_up _ sets_up_heat_cfn_api) (λ _. goes_set_up _ sets_up_heat_engine)))
