-- ===== src/Controller/Service/Safety/Rollout.antt =====
-- The Deployment of a service gets the hash of the configuration that was just written, and its
-- parent hears of its own hash again only where the pods were just found to run with it.
use heat_operator.Base.{
  ℕ, String, Bool, true, false, Option, lookup, eq_refl, ◌≡◌, refl, arith, ◌⊎◌, inl, inr, eqb,
}
use heat_operator.Api.Types.{Opaque}
use heat_operator.Heat.Names.{Component, engine, api, cfnapi}
use heat_operator.Heat.Deployments.{
  Deployment, Rollout, Mounted, httpd_result, engine_deployment, httpd_deployment, api_deployment,
  cfnapi_deployment,
}
use heat_operator.Controller.Conditions.{CondOps, Err}
use heat_operator.Controller.Exec.Rules.{Triple, Triple-bind, Triple-when}
use heat_operator.Controller.Heat.Env.{Memcached}
use heat_operator.Controller.Service.Env.{Env, State, Service, Deployed}
use heat_operator.Controller.Service.Rollout.{
  deployment_for, apply_deployment, count_ready, check_ready, report_ready, observe, roll_out,
}
use heat_operator.Controller.Service.Safety.{
  IsSafe, IsConfirmed, config_hash, just_applied, just_confirmed,
}
use heat_operator.Controller.Service.Safety.Phases.{Safe, Provided}

-- The result is an error or carries the hash.
abbrev Carries : String → Err ⊎ Deployment → Type 0
Carries hash (inl e) = Unit {0}
Carries hash (inr d) = config_hash d ≡ hash

module _ {C : Type 0} (ops : CondOps C) (env : Env C) (svc : Service) where
  httpd-Carries :
      (r : Rollout) (name : String) (port : ℕ) (m : Err ⊎ Mounted)
      → Carries r.config_hash (httpd_result env.volume_ops svc.spec r name port m)
  unfolding lookup
  httpd-Carries r name port (inl e) = tt
  httpd-Carries r name port (inr m) = refl

  deployment-Carries :
      (c : Component) (r : Rollout) → Carries r.config_hash (deployment_for ops env svc c r)
  unfolding lookup engine_deployment httpd_deployment api_deployment cfnapi_deployment
  deployment-Carries engine r = refl
  deployment-Carries api r = httpd-Carries r _ _ _
  deployment-Carries cfnapi r = httpd-Carries r _ _ _

  module _ (before : String) where
    abbrev Applied : String → Deployed × Deployment → State C → Type 0
    Applied hash (deployed, d) s =
        Safe ops env svc before tt s × (just_applied d.name hash s.log ≡ true)

    abbrev pub Told : {A : Type 0} → A → State C → Type 0
    Told _ s = IsSafe svc s.log × IsConfirmed svc before s

    apply-Applied :
        (hash : String) (r : Err ⊎ Deployment)
        → Carries hash r
        → Triple
            (Provided ops env svc before tt)
            (apply_deployment ops env svc r)
            (Applied hash)
            Told
    unfolding apply_deployment
    apply-Applied hash (inl e) h' = record { at = λ s h. ground arith }
    apply-Applied hash (inr d) h' = record {
      at = λ s h. ground (arith, eq_refl d.name, eq_refl hash);
    }

    abbrev Observed : Bool → State C → Type 0
    Observed ready s = Safe ops env svc before tt s × (ready ≡ true → just_confirmed s.log ≡ true)

    check-Observed :
        (deployed : Deployed) (d : Deployment) (hash : String)
        → Triple
            (Applied hash (deployed, d))
            (check_ready ops env svc deployed d.name hash)
            Observed
            Told
    unfolding check_ready
    check-Observed deployed d hash = record { at = λ s h. ground arith }

    report-Told :
        (ready : Bool) → Triple (Observed ready) (report_ready ops env svc ready) Told Told
    unfolding report_ready
    report-Told true = record { at = λ s h. ground arith }
    report-Told false = record { at = λ s h. ground arith }

    count-Applied :
        (deployed : Deployed) (d : Deployment) (hash : String)
        → Triple
            (Applied hash (deployed, d))
            (count_ready ops env svc deployed)
            (λ _. Applied hash (deployed, d))
            Told
    unfolding count_ready
    count-Applied deployed d hash = record { at = λ s h. h }

    observe-Told :
        (deployed : Deployed) (d : Deployment) (hash : String)
        → Triple (Applied hash (deployed, d)) (observe ops env svc deployed d.name hash) Told Told
    unfolding observe
    observe-Told deployed d hash =
        Triple-when (eqb deployed.generation deployed.observed_generation)
          (Triple-bind (count-Applied deployed d hash)
            (λ _. Triple-bind (check-Observed deployed d hash) (λ ready. report-Told ready)))
          (λ s h. (h.0.0, inl h.0.1))

    pub roll_out-Told :
        (hash : String) (topology : Option Opaque) (mc : Memcached)
        → Triple (Provided ops env svc before tt) (roll_out ops env svc hash topology mc) Told Told
    unfolding roll_out
    roll_out-Told hash topology mc =
        Triple-bind (apply-Applied hash _ (deployment-Carries svc.component _))
          (λ (deployed, d). observe-Told deployed d hash)
