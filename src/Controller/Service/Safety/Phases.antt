-- ===== src/Controller/Service/Safety/Phases.antt =====
-- The parts of a service's reconcileNormal before the Deployment: their calls are safe, they leave
-- the hash of the parent alone, and they provide the inputs.
use heat_operator.Base.{String, true, none, some, List, [], ◌∷◌, GoMap, eq_refl, ◌≡◌, arith}
use heat_operator.Heat.Names.{Component, engine, api, cfnapi, config_data_name}
use heat_operator.Heat.Volumes.{Endpoint}
use heat_operator.Controller.Conditions.{CondOps, error_reason, requested_reason, warning, info}
use heat_operator.Controller.Exec.{pure, ◌>>=◌}
use heat_operator.Controller.Exec.Rules.{Triple, Triple-bind, Triple-call}
use heat_operator.Controller.Heat.Env.{Validator}
use heat_operator.Controller.Heat.Config.{concat_data}
use heat_operator.Controller.Service.Env.{Env, State, Service, ask, secrets_ensured}
use heat_operator.Controller.Service.Inputs.{
  verify_secret, get_secret, parent_secret, check_parent, check_inputs, check_ca_bundle,
  check_certs, check_certs_of, check_tls,
}
use heat_operator.Controller.Service.Config.{
  Generated, config_template, read_secret, custom_secrets, generate_service_secrets,
  create_hash_of_input_hashes, hash_inputs, configure,
}
use heat_operator.Controller.Service.Endpoints.{ApiKind, expose, register}
use heat_operator.Controller.Service.Safety.{verified, HasInputs, IsSafe}

module _ {C : Type 0} (ops : CondOps C) (env : Env C) (svc : Service) (before : String) where
  -- so far only allowed calls, and the hash is the one before
  abbrev pub Safe : {A : Type 0} → A → State C → Type 0
  Safe _ s = IsSafe svc s.log × (s.applied_input_secret_hash ≡ before)

  -- the first secret is verified
  abbrev Half : {A : Type 0} → A → State C → Type 0
  Half _ s = Safe tt s × (verified svc.spec.heat_template.secret s.log ≡ true)

  abbrev pub Verified : {A : Type 0} → A → State C → Type 0
  Verified _ s =
      Safe tt s
      × (verified svc.spec.heat_template.secret s.log ≡ true)
      × (verified svc.spec.transport_url_secret s.log ≡ true)

  abbrev pub Provided : {A : Type 0} → A → State C → Type 0
  Provided _ s = Safe tt s × HasInputs svc s.log

  first-Half :
      (fields : List (String × Validator)) (vars : GoMap String)
      → Triple
          (Safe tt)
          (verify_secret ops env svc error_reason warning svc.spec.heat_template.secret fields vars)
          Half
          Safe
  unfolding verify_secret
  first-Half fields vars = record {
    at = λ s h. ground (arith, eq_refl svc.spec.heat_template.secret);
  }

  second-Verified :
      (fields : List (String × Validator)) (vars : GoMap String)
      → Triple
          (Half tt)
          (verify_secret ops env svc requested_reason info svc.spec.transport_url_secret fields
            vars)
          Verified
          Safe
  unfolding verify_secret
  second-Verified fields vars = record {
    at = λ s h. ground (arith, eq_refl svc.spec.transport_url_secret);
  }

  parent-Verified :
      (vars : GoMap String) → Triple (Verified tt) (check_parent ops env svc vars) Verified Safe
  unfolding check_parent get_secret
  parent-Verified vars = record { at = λ s h. ground arith }

  pub inputs-Verified : Triple (Safe tt) (check_inputs ops env svc) Verified Safe
  unfolding check_inputs
  inputs-Verified =
      Triple-bind (first-Half _ [])
        (λ vars. Triple-bind (second-Verified _ vars) (λ vars'. parent-Verified vars'))

  ca_bundle-Verified :
      (vars : GoMap String) → Triple (Verified tt) (check_ca_bundle ops env svc vars) Verified Safe
  unfolding check_ca_bundle
  ca_bundle-Verified vars = record { at = λ s h. ground arith }

  certs-Verified :
      (c : Component) (vars : GoMap String)
      → Triple (Verified tt) (check_certs_of ops env svc c vars) Verified Safe
  unfolding check_certs
  certs-Verified engine vars = record { at = λ s h. h }
  certs-Verified api vars = record { at = λ s h. ground arith }
  certs-Verified cfnapi vars = record { at = λ s h. ground arith }

  pub tls-Verified :
      (vars : GoMap String) → Triple (Verified tt) (check_tls ops env svc vars) Verified Safe
  unfolding check_tls
  tls-Verified vars = Triple-bind (ca_bundle-Verified vars) (λ vars'.
      Triple-bind (certs-Verified svc.component vars') (λ vars''. record { at = λ s h. h }))

  -- generateServiceSecrets has failed, or the inputs are there.
  abbrev Written : Generated → State C → Type 0
  Written (none, vars) s = Provided tt s
  Written (some e, vars) s = Verified tt s

  read-Verified :
      (vars : GoMap String) (name : String)
      → Triple (Verified tt) (read_secret ops env svc vars name) Verified Written
  read-Verified vars name = record { at = λ s h. ground arith }

  custom-Verified :
      (vars : GoMap String) (acc : String) (names : List String)
      → Triple (Verified tt) (custom_secrets ops env svc vars acc names) Verified Written
  unfolding custom_secrets
  custom-Verified vars acc [] = record { at = λ s h. h }
  custom-Verified vars acc (name ∷ names) =
      Triple-bind (read-Verified vars name)
        (λ secret. custom-Verified vars (concat_data acc secret) names)

  ensured-Written :
      (heat_secret : GoMap String) (custom : String) (vars : GoMap String)
      → Triple {R = Generated}
          (Verified tt)
          (do
            (vars', err) ←
                ask
                  (λ (vs, err).
                    secrets_ensured (config_template ops env svc heat_secret custom) err)
                  (env.ensure_secrets (config_template ops env svc heat_secret custom) vars)
            pure (err, vars'))
          Written
          Written
  ensured-Written heat_secret custom vars = record {
    at = λ s h. ground (arith, eq_refl (config_data_name svc.meta.name));
  }

  generate-Written :
      (vars : GoMap String)
      → Triple (Verified tt) (generate_service_secrets ops env svc vars) Written Written
  unfolding generate_service_secrets
  generate-Written vars = Triple-bind (read-Verified vars (parent_secret svc.meta)) (λ heat_secret.
      Triple-bind (custom-Verified vars "" svc.spec.template.custom_service_config_secrets)
        (λ custom. ensured-Written heat_secret custom vars))

  hash-Provided :
      (g : Generated) → Triple (Written g) (hash_inputs ops env svc g.0 g.1) Provided Safe
  unfolding hash_inputs create_hash_of_input_hashes
  hash-Provided (none, vars) = record { at = λ s h. ground arith }
  hash-Provided (some e, vars) = record { at = λ s h. ground arith }

  pub configure-Provided :
      (vars : GoMap String) → Triple (Verified tt) (configure ops env svc vars) Provided Safe
  unfolding configure
  configure-Provided vars = Triple-bind (Triple-call (generate-Written vars)) (λ g. hash-Provided g)

  -- Provided inputs stay so.
  pub expose-Provided :
      (kind : ApiKind) (labels : GoMap String) (endpt : Endpoint) (urls : GoMap String)
      → Triple (Provided tt) (expose ops env svc kind labels endpt urls) Provided Provided
  unfolding expose
  expose-Provided kind labels endpt urls = record { at = λ s h. ground arith }

  pub register-Provided :
      (kind : ApiKind) (urls : GoMap String)
      → Triple (Provided tt) (register ops env svc kind urls) Provided Provided
  unfolding register
  register-Provided kind urls = record { at = λ s h. ground arith }
