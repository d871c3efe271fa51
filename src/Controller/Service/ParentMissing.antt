-- ===== src/Controller/Service/ParentMissing.antt =====
-- What happens to a service whose parent's Secret is not there yet.
use heat_operator.Base.{String, Bool, true, false, some, List, [], ◌∷◌, GoMap, ◌≡◌, arith}
use heat_operator.Heat.Names.{Component, engine, api, cfnapi}
use heat_operator.Controller.Conditions.{
  CondOps, CondLaws, Err, Reason, Severity, is_not_found, is_true, is_false, input_ready,
  service_config_ready,
}
use heat_operator.Controller.Exec.{Returned, next, stop, empty_result}
use heat_operator.Controller.Exec.Rules.{Triple, Triple-bind, Post-end}
use heat_operator.Controller.Heat.Env.{Validator, failed}
use heat_operator.Controller.Service.Env.{
  Env, State, Service, Call, Log, secret_verified, secret_read, ca_cert_validated, certs_validated,
}
use heat_operator.Controller.Service.Inputs.{
  verify_secret, get_secret, parent_secret, check_parent, check_inputs, check_ca_bundle,
  check_certs, check_certs_of, check_tls,
}
use heat_operator.Controller.Service.Config.{configure, generate_service_secrets, hash_inputs}
use heat_operator.Controller.Service.Normal.{reconcile_normal}

abbrev is_read : Call → Bool
is_read (secret_verified name fields verified) = true
is_read (secret_read name) = true
is_read (ca_cert_validated name) = true
is_read (certs_validated tls) = true
is_read _ = false

-- No call but reads and validations of Secrets.
abbrev pub OnlyReads : Log → Type 0
OnlyReads [] = Unit {0}
OnlyReads (call ∷ log) = (is_read call ≡ true) × OnlyReads log

module _ {C : Type 0} (ops : CondOps C) (env : Env C) (svc : Service) where
  abbrev Idle : {A : Type 0} → A → State C → Type 0
  Idle _ s = OnlyReads s.log

  verify-Idle :
      (r : Reason) (sev : Severity) (name : String) (fields : List (String × Validator))
      (vars : GoMap String)
      → Triple (Idle tt) (verify_secret ops env svc r sev name fields vars) Idle Idle
  unfolding verify_secret
  verify-Idle r sev name fields vars = record { at = λ s k. ground arith }

  parent-Idle : (vars : GoMap String) → Triple (Idle tt) (check_parent ops env svc vars) Idle Idle
  unfolding check_parent get_secret
  parent-Idle vars = record { at = λ s k. ground arith }

  inputs-Idle : Triple (Idle tt) (check_inputs ops env svc) Idle Idle
  unfolding check_inputs
  inputs-Idle =
      Triple-bind (verify-Idle _ _ _ _ [])
        (λ vars. Triple-bind (verify-Idle _ _ _ _ vars) (λ vars'. parent-Idle vars'))

  ca-Idle : (vars : GoMap String) → Triple (Idle tt) (check_ca_bundle ops env svc vars) Idle Idle
  unfolding check_ca_bundle
  ca-Idle vars = record { at = λ s k. ground arith }

  certs-Idle :
      (c : Component) (vars : GoMap String)
      → Triple (Idle tt) (check_certs_of ops env svc c vars) Idle Idle
  unfolding check_certs
  certs-Idle engine vars = record { at = λ s k. k }
  certs-Idle api vars = record { at = λ s k. ground arith }
  certs-Idle cfnapi vars = record { at = λ s k. ground arith }

  tls-Idle : (vars : GoMap String) → Triple (Idle tt) (check_tls ops env svc vars) Idle Idle
  unfolding check_tls
  tls-Idle vars =
      Triple-bind (ca-Idle vars)
        (λ vars'. Triple-bind (certs-Idle svc.component vars') (λ vars''. record { at = λ s k. k }))

  -- where the body does not come
  abbrev Never : {A : Type 0} → A → State C → Type 0
  Never _ s = true ≡ false

  module _ (e : Err)
      (missing : (log : Log) → env.get_secret (parent_secret svc.meta) log ≡ failed e) where
    configure-Idle :
        (vars : GoMap String) → Triple (Idle tt) (configure ops env svc vars) Never Idle
    unfolding configure generate_service_secrets hash_inputs
    configure-Idle vars = record { at = λ s k. ground (arith, missing s.log) }

    pub normal-Idle : Triple (Idle tt) (reconcile_normal ops env svc) Idle Idle
    unfolding reconcile_normal
    normal-Idle = Triple-bind inputs-Idle (λ vars.
        Triple-bind (tls-Idle vars) (λ vars'.
          Triple-bind (configure-Idle vars') (λ hash. record { at = λ s h. ground arith })))

module _ {C : Type 0} (ops : CondOps C) (laws : CondLaws ops) (env : Env C) (svc : Service) where
  -- If every read of the Secret of the parent Heat is answered with the same NotFound error: the
  -- inputs pass, without a hash of that Secret and without the requeue that getSecret asks for, and
  -- InputReady is true, although getSecret had just set it to false; the configuration then stops
  -- reconcileNormal with that error, whatever has happened in between, and ServiceConfigReady is
  -- false; so that reconcileNormal, wherever it returns, has made no call but reads and validations
  -- of Secrets. Conditions are assumed to be read back as they were written.
  pub check_parent-missing :
      (e : Err)
      → ((log : Log) → env.get_secret (parent_secret svc.meta) log ≡ failed e)
      → is_not_found e ≡ true
      → (vars vars' : GoMap String) (s s' started : State C) → OnlyReads started.log
      → (((check_parent ops env svc vars s).0 ≡ next vars)
          × (ops.get input_ready (check_parent ops env svc vars s).1.conditions ≡ some is_true))
        × (((configure ops env svc vars' s').0 ≡ stop (empty_result, some e))
            × (ops.get service_config_ready (configure ops env svc vars' s').1.conditions
                ≡ some is_false))
        × OnlyReads (reconcile_normal ops env svc started).1.log
  unfolding check_parent get_secret configure generate_service_secrets hash_inputs
  check_parent-missing e missing k vars vars' s s' started h = (
    grind (arith, missing s.log, laws.get-mark_true),
    grind (arith, missing s'.log, laws.get-set),
    Post-end (Idle ops env svc {A = Returned}) (reconcile_normal ops env svc started)
        ((normal-Idle ops env svc e missing).at started h),
  )
