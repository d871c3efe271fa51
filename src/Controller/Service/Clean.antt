-- ===== src/Controller/Service/Clean.antt =====
-- A service's reconcileNormal that ends without an error and without a wait has InputReady, TLSInputReady,
-- ServiceConfigReady and, for the two APIs, CreateServiceReady true, or TLSInputReady false.
pub mod Setup
pub mod Normal
use heat_operator.Base.{
  String, Bool, true, false, ◌||◌, ◌&&◌, Option, none, some, is_some, List, [], ◌∷◌, GoMap, ◌≡◌,
  refl, sym, ap, ◌∙◌, ◌⊎◌, inl, inr, ◌++◌, arith, if◌then◌else◌,
}
use heat_operator.Api.Types.{Opaque}
use heat_operator.Heat.Names.{Component, engine, api, cfnapi}
use heat_operator.Heat.Volumes.{Endpoint, internal, public}
use heat_operator.Heat.Deployments.{Deployment}
use heat_operator.Controller.Conditions.{
  CondOps, CondLaws, CondType, Err, Status, Reason, Severity, error_reason, requested_reason,
  warning, info, same_type, is_true, is_false, input_ready, tls_input_ready, service_config_ready,
  create_service_ready, topology_ready, deployment_ready, ready,
}
use heat_operator.Controller.Exec.{
  Exec, Exit, next, stop, returned, Returned, empty_result, is_pending, pure, return_unless_done,
  ◌>>=◌, ◌>>◌,
}
use heat_operator.Controller.Exec.Rules.{
  Post, Triple, Triple-bind, Triple-call, Triple-return_unless_done,
}
use heat_operator.Controller.Heat.Env.{Validator, Memcached}
use heat_operator.Controller.Service.Env.{Env, State, Service, Deployed}
use heat_operator.Controller.Service.Inputs.{
  verify_secret, get_secret, check_parent, check_inputs, check_ca_bundle, check_certs,
  check_certs_of, check_tls,
}

module _ {C : Type 0} (ops : CondOps C) (laws : CondLaws ops) where
  -- an error or a wait, or a missing TLS secret
  abbrev pub NotDone : Returned → State C → Type 0
  NotDone (result, err) s =
      (is_some err || is_pending result ≡ true)
      ⊎ (ops.get tls_input_ready s.conditions ≡ some is_false)

  module _ (env : Env C) (svc : Service) (t : CondType) where
    -- the condition is true if it is among those marked so far
    abbrev pub Marked : {A : Type 0} → Bool → A → State C → Type 0
    Marked b _ s = b ≡ true → ops.get t s.conditions ≡ some is_true

    verify-Marked :
        (r : Reason) (sev : Severity) (name : String) (fields : List (String × Validator))
        (vars : GoMap String)
        → Triple
            (Marked false tt)
            (verify_secret ops env svc r sev name fields vars)
            (Marked false)
            NotDone
    unfolding verify_secret
    verify-Marked r sev name fields vars = record { at = λ s h. ground arith }

    parent-Marked :
        (vars : GoMap String)
        → Triple
            (Marked false tt)
            (check_parent ops env svc vars)
            (Marked (same_type t input_ready))
            NotDone
    unfolding check_parent get_secret
    parent-Marked vars = record { at = λ s h. grind (arith, laws.get-mark_true) }

    pub inputs-Marked :
        Triple
          (Marked false tt)
          (check_inputs ops env svc)
          (Marked (same_type t input_ready))
          NotDone
    unfolding check_inputs
    inputs-Marked =
        Triple-bind (verify-Marked _ _ _ _ [])
          (λ vars. Triple-bind (verify-Marked _ _ _ _ vars) (λ vars'. parent-Marked vars'))

    ca-Marked :
        (b : Bool) (vars : GoMap String)
        → Triple (Marked b tt) (check_ca_bundle ops env svc vars) (Marked b) NotDone
    unfolding check_ca_bundle
    ca-Marked b vars = record { at = λ s h. grind (arith, laws.get-set) }

    certs-Marked :
        (c : Component) (b : Bool) (vars : GoMap String)
        → Triple (Marked b tt) (check_certs_of ops env svc c vars) (Marked b) NotDone
    unfolding check_certs
    certs-Marked engine b vars = record { at = λ s h. h }
    certs-Marked api b vars = record { at = λ s h. grind (arith, laws.get-set) }
    certs-Marked cfnapi b vars = record { at = λ s h. grind (arith, laws.get-set) }

    pub tls-Marked :
        (b : Bool) (vars : GoMap String)
        → Triple
            (Marked b tt)
            (check_tls ops env svc vars)
            (Marked (b || same_type t tls_input_ready))
            NotDone
    unfolding check_tls
    tls-Marked b vars = Triple-bind (ca-Marked b vars) (λ vars'.
        Triple-bind (certs-Marked svc.component b vars')
          (λ vars''. record { at = λ s h. grind (arith, laws.get-mark_true) }))
