-- ===== src/Manager/Ready/Late.antt =====
-- From the controllers to the checks.
use heat_operator.Base.{
  Bool, true, false, Option, none, some, List, [], ◌∷◌, ◌≡◌, refl, ap, if◌then◌else◌,
}
use heat_operator.Api.Defaults.{HeatDefaults, setup_defaults}
use heat_operator.Controller.Exec.{pure, ◌>>◌}
use heat_operator.Controller.Exec.Rules.{Triple, Triple-bind}
use heat_operator.Controller.Setup.Laws.{full_mgr}
use heat_operator.Manager.Env.{
  Env, Flags, State, initial_state, CertWatcher, Checker, ping, webhook_started,
}
use heat_operator.Manager.Main.{modify, install_defaults, setup_webhook, add_watcher, add_checks}
use heat_operator.Manager.Tls.{Exited, exit_if_lem, modify_lem}
use heat_operator.Manager.Ready.{KeepsServers, HasServers, cons_if, checker_of}
use heat_operator.Manager.Ready.Created.{Registered}

module _ (env : Env) (flags : Flags) (keeps : KeepsServers env) where
  -- The controllers are there, and of the rest, what is given.
  abbrev pub Late :
      HeatDefaults → Bool → List CertWatcher → (healthz readyz : Option Checker) → State → Type 0
  Late defaults has_webhook added healthz readyz s =
      HasServers env flags s.options s.heap
      × (s ≡ record initial_state {
        heap = s.heap;
        options = s.options;
        mgr = full_mgr;
        defaults = defaults;
        has_webhook = has_webhook;
        added = added;
        healthz = healthz;
        readyz = readyz;
      })

  not_started :
      {d : HeatDefaults} {b : Bool} {added : List CertWatcher} {healthz readyz : Option Checker}
      (s : State)
      → Late d b added healthz readyz s
      → s.is_started ≡ false
  not_started s h = ap (λ s'. s'.is_started) h.1

  abbrev pub defaults : HeatDefaults
  defaults = setup_defaults env.get_env_var

  pub defaults_lem :
      Triple
        (Registered env flags keeps full_mgr)
        (install_defaults env flags)
        (λ _. Late defaults false [] none none)
        Exited
  unfolding install_defaults
  defaults_lem = record {
    at = λ s (servers, rest).
        (servers, ap {A = State} (λ s'. record s' { defaults = defaults }) rest);
  }

  pub checker_lem :
      (b : Bool)
      → Triple
          (Late defaults false [] none none)
          (if b then (setup_webhook env flags >> pure webhook_started) else pure ping)
          (λ checker s. (checker ≡ checker_of b) × Late defaults b [] none none s)
          Exited
  unfolding setup_webhook
  checker_lem false = record { at = λ s h. (refl, h) }
  checker_lem true =
      Triple-bind
        (Triple-bind (exit_if_lem env.complete_webhook not_started) (λ _.
          modify_lem (λ s. record s { has_webhook = true })
            (λ s (servers, rest).
              (servers, ap {A = State} (λ s'. record s' { has_webhook = true }) rest))))
        (λ _. record { at = λ s h. (refl, h) })

  pub added_lem :
      (b : Bool) (added : List CertWatcher) (w : Option CertWatcher)
      → Triple
          (Late defaults b added none none)
          (add_watcher env flags w)
          (λ _. Late defaults b (cons_if w added) none none)
          Exited
  unfolding add_watcher
  added_lem b added none = record { at = λ s h. h }
  added_lem b added (some w) = Triple-bind (exit_if_lem (env.add w) not_started) (λ _.
      modify_lem (λ s. record s { added = w ∷ s.added })
        (λ s (servers, rest).
          (servers, ap {A = State} (λ s'. record s' { added = w ∷ s'.added }) rest)))

  healthz_lem :
      (b : Bool) (added : List CertWatcher) (checker : Checker)
      → Triple
          (Late defaults b added none none)
          (modify (λ s. record s { healthz = some checker }))
          (λ _. Late defaults b added (some checker) none)
          Exited
  healthz_lem b added checker = record {
    at = λ s (servers, rest).
        (servers, ap {A = State} (λ s'. record s' { healthz = some checker }) rest);
  }

  pub checks_lem :
      (b : Bool) (added : List CertWatcher) (checker : Checker)
      → Triple
          (Late defaults b added none none)
          (add_checks env flags checker)
          (λ _. Late defaults b added (some checker) (some checker))
          Exited
  unfolding add_checks
  checks_lem b added checker =
      Triple-bind (exit_if_lem (env.add_healthz_check checker) not_started) (λ _.
        Triple-bind (healthz_lem b added checker) (λ _.
          Triple-bind (exit_if_lem (env.add_readyz_check checker) not_started) (λ _.
            modify_lem (λ s. record s { readyz = some checker })
              (λ s (servers, rest).
                (servers, ap {A = State} (λ s'. record s' { readyz = some checker }) rest)))))
