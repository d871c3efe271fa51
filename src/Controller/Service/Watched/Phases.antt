-- ===== src/Controller/Service/Watched/Phases.antt =====
-- The validation of the inputs and the configuration of a service read only what is watched.
use heat_operator.Base.{
  String, true, ◌==◌, Option, none, some, List, [], ◌∷◌, any, nonempty, eq_refl, GoMap, ◌≡◌, refl,
  arith,
}
use heat_operator.Heat.Names.{Component, engine, api, cfnapi}
use heat_operator.Controller.Conditions.{CondOps, Err, Reason, Severity}
use heat_operator.Controller.Exec.{pure, ◌>>=◌}
use heat_operator.Controller.Exec.Rules.{Triple, Triple-bind, Triple-call}
use heat_operator.Controller.Heat.Env.{Validator}
use heat_operator.Controller.Heat.Config.{concat_data}
use heat_operator.Controller.Service.Env.{Env, State, Service, ask, secrets_ensured}
use heat_operator.Controller.Service.Inputs.{
  verify_secret, get_secret, parent_secret, check_parent, check_inputs, check_ca_bundle,
  check_certs, check_certs_of, check_tls,
}
use heat_operator.Controller.Service.Config.{
  Generated, config_template, read_secret, custom_secrets, generate_service_secrets,
  create_hash_of_input_hashes, hash_inputs, configure,
}
use heat_operator.Controller.Service.Watched.{
  AreCovered, NilOrCovered, is_covered, parent_covered, secret_given, transport_given, ca_given,
  custom_given, certs_covered,
}

module _ {C : Type 0} (ops : CondOps C) (env : Env C) (svc : Service) where
  open svc use {meta, spec, component}

  abbrev pub Kept : {A : Type 0} → A → State C → Type 0
  Kept _ s = AreCovered svc s.log

  verify-Kept :
      (r : Reason) (sev : Severity) (name : String) (fields : List (String × Validator))
      (vars : GoMap String)
      → is_covered svc name ≡ true
      → Triple (Kept tt) (verify_secret ops env svc r sev name fields vars) Kept Kept
  unfolding verify_secret
  verify-Kept r sev name fields vars h = record { at = λ s k. ground arith }

  parent-Kept : (vars : GoMap String) → Triple (Kept tt) (check_parent ops env svc vars) Kept Kept
  unfolding check_parent get_secret
  parent-Kept vars = record { at = λ s k. ground (arith, parent_covered svc) }

  module _ (required : nonempty spec.heat_template.secret ≡ true) where
    pub inputs-Kept : Triple (Kept tt) (check_inputs ops env svc) Kept Kept
    unfolding check_inputs
    inputs-Kept =
        Triple-bind (verify-Kept _ _ _ _ [] (ground (arith, secret_given svc required component)))
          (λ vars.
            Triple-bind
              (verify-Kept _ _ _ _ vars (ground (arith, transport_given svc required component)))
              (λ vars'. parent-Kept vars'))

  ca-Kept : (vars : GoMap String) → Triple (Kept tt) (check_ca_bundle ops env svc vars) Kept Kept
  unfolding check_ca_bundle
  ca-Kept vars = record { at = λ s k. ground (arith, ca_given svc component) }

  checked_certs-Kept :
      (vars : GoMap String)
      → NilOrCovered svc spec.tls.internal_secret_name
        × NilOrCovered svc spec.tls.public_secret_name
      → Triple (Kept tt) (check_certs ops env svc vars) Kept Kept
  unfolding check_certs
  checked_certs-Kept vars h = record { at = λ s k. ground arith }

  certs-Kept :
      (c : Component) (vars : GoMap String)
      → component ≡ c
      → Triple (Kept tt) (check_certs_of ops env svc c vars) Kept Kept
  certs-Kept engine vars e = record { at = λ s k. k }
  certs-Kept api vars e = checked_certs-Kept vars (certs_covered svc api e refl)
  certs-Kept cfnapi vars e = checked_certs-Kept vars (certs_covered svc cfnapi e refl)

  pub tls-Kept : (vars : GoMap String) → Triple (Kept tt) (check_tls ops env svc vars) Kept Kept
  unfolding check_tls
  tls-Kept vars =
      Triple-bind (ca-Kept vars) (λ vars'.
        Triple-bind (certs-Kept component vars' refl) (λ vars''. record { at = λ s k. k }))

  read-Kept :
      (vars : GoMap String) (name : String)
      → is_covered svc name ≡ true
      → Triple (Kept tt) (read_secret ops env svc vars name) Kept Kept
  read-Kept vars name h = record { at = λ s k. ground arith }

  -- all the names are among the watched ones
  abbrev Among : List String → Type 0
  Among names = (name : String) → any (λ v. v == name) names ≡ true → is_covered svc name ≡ true

  custom-Kept :
      (vars : GoMap String) (acc : String) (names : List String)
      → Among names
      → Triple (Kept tt) (custom_secrets ops env svc vars acc names) Kept Kept
  unfolding custom_secrets
  custom-Kept vars acc [] h = record { at = λ s k. k }
  custom-Kept vars acc (name ∷ names) h =
      Triple-bind (read-Kept vars name (h name (ground (arith, eq_refl name))))
        (λ secret. custom-Kept vars (concat_data acc secret) names (λ n k. h n (ground arith)))

  ensured-Kept :
      (heat_secret : GoMap String) (custom : String) (vars : GoMap String)
      → Triple {R = Generated} {A = Generated}
          (Kept tt)
          (do
            (vars', err) ←
                ask
                  (λ (vs, err).
                    secrets_ensured (config_template ops env svc heat_secret custom) err)
                  (env.ensure_secrets (config_template ops env svc heat_secret custom) vars)
            pure (err, vars'))
          Kept
          Kept
  ensured-Kept heat_secret custom vars = record { at = λ s k. ground arith }

  hash-Kept :
      (err : Option Err) (vars : GoMap String)
      → Triple (Kept tt) (hash_inputs ops env svc err vars) Kept Kept
  unfolding hash_inputs create_hash_of_input_hashes
  hash-Kept none vars = record { at = λ s k. ground arith }
  hash-Kept (some e) vars = record { at = λ s k. ground arith }

  pub configure-Kept :
      (vars : GoMap String) → Triple (Kept tt) (configure ops env svc vars) Kept Kept
  unfolding configure generate_service_secrets
  configure-Kept vars =
      Triple-bind
        (Triple-call (
          Triple-bind (read-Kept vars (parent_secret meta) (parent_covered svc)) (λ heat_secret.
            Triple-bind
              (custom-Kept vars "" spec.template.custom_service_config_secrets
                (λ name h. ground (arith, custom_given svc component name)))
              (λ custom. ensured-Kept heat_secret custom vars))))
        (λ g. hash-Kept g.0 g.1)
