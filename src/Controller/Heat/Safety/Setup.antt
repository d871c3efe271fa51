-- ===== src/Controller/Heat/Safety/Setup.antt =====
-- The configuration and the initialisation of the services: their calls are safe, and they leave
-- the finalizers that the children rely on.
use heat_operator.Base.{String, Option, none, some, List, [], ◌∷◌, GoMap, eq_refl, arith}
use heat_operator.Api.Types.{HeatSpec, ObjectMeta}
use heat_operator.Api.Route.{value}
use heat_operator.Controller.Conditions.{CondOps, Err}
use heat_operator.Controller.Exec.{Returned, return_unless_done}
use heat_operator.Controller.Exec.Rules.{Triple, Triple-bind, Triple-call}
use heat_operator.Controller.Heat.Env.{Env, State, Memcached, Database}
use heat_operator.Controller.Heat.Safety.Phases.{Safe, Linked, Held}
use heat_operator.Controller.Heat.Secrets.{
  configure, apply_config, generate_service_secrets, custom_secret, custom_secrets, gather_inputs,
  render_config,
}
use heat_operator.Controller.Heat.Config.{Inputs, concat_data}
use heat_operator.Controller.Heat.Init.{
  initialise, delete_unused_accounts, reconcile_init, reconcile_update, reconcile_upgrade,
  setup_db_purge, setup_stack_domain, stack_domain_from, stack_domain_done, ensure_stack_domain,
}

module _ {C : Type 0} (ops : CondOps C) (env : Env C) (meta : ObjectMeta) (spec : HeatSpec)
    (transport : String) where
  abbrev LinkedNow : {A : Type 0} → A → State C → Type 0
  LinkedNow = Linked ops env meta spec transport

  abbrev HeldNow : {A : Type 0} → A → State C → Type 0
  HeldNow = Held ops env meta spec transport

  abbrev SafeNow : {A : Type 0} → A → State C → Type 0
  SafeNow = Safe ops env meta spec

  custom_secret-Linked :
      (vars : GoMap String) (name : String)
      → Triple (LinkedNow tt) (custom_secret ops env meta spec vars name) LinkedNow LinkedNow
  unfolding custom_secret
  custom_secret-Linked vars name = record { at = λ s h. ground arith }

  custom_secrets-Linked :
      (vars : GoMap String) (acc : String) (names : List String)
      → Triple (LinkedNow tt) (custom_secrets ops env meta spec vars acc names) LinkedNow LinkedNow
  unfolding custom_secrets
  custom_secrets-Linked vars acc [] = record { at = λ s h. h }
  custom_secrets-Linked vars acc (name ∷ names) =
      Triple-bind (custom_secret-Linked vars name)
        (λ secret. custom_secrets-Linked vars (concat_data acc secret) names)

  gather_inputs-Linked :
      (vars : GoMap String) (t n : String)
      → Triple (LinkedNow tt) (gather_inputs ops env meta spec vars t n) LinkedNow LinkedNow
  unfolding gather_inputs
  gather_inputs-Linked vars t n = record { at = λ s h. ground arith }

  render_config-Linked :
      (vars : GoMap String) (mc : Memcached) (db : Database) (custom : GoMap String)
      (inputs : Inputs)
      → Triple
          (LinkedNow tt)
          (render_config ops env meta spec vars mc db custom inputs)
          LinkedNow
          LinkedNow
  unfolding render_config
  render_config-Linked vars mc db custom inputs = record { at = λ s h. ground arith }

  generate-Linked :
      (vars : GoMap String) (mc : Memcached) (t n : String)
      → Triple
          (LinkedNow tt)
          (generate_service_secrets ops env meta spec vars mc t n)
          LinkedNow
          LinkedNow
  unfolding generate_service_secrets
  generate-Linked vars mc t n = record {
    at = λ s.
        (Triple-bind (custom_secrets-Linked vars "" spec.base.custom_service_config_secrets)
            (λ extra.
              Triple-bind (gather_inputs-Linked vars t n)
                (λ inputs. render_config-Linked vars mc (env.database s.log) _ inputs))).at
          s;
  }

  apply_config-Held :
      (err : Option Err) (vars : GoMap String)
      → Triple (LinkedNow tt) (apply_config ops env meta spec err vars) HeldNow SafeNow
  unfolding apply_config
  apply_config-Held (some e) vars = record { at = λ s h. h.0 }
  apply_config-Held none vars = record {
    at = λ s h. ground (arith, eq_refl spec.application_credential_secret);
  }

  -- The AC secret gets its consumer finalizer, and the transport secret keeps its own.
  pub configure-Held :
      (vars : GoMap String) (mc : Memcached) (t : String) (n : Option String)
      → Triple (LinkedNow tt) (configure ops env meta spec vars mc t n) HeldNow SafeNow
  unfolding configure
  configure-Held vars mc t n =
      Triple-bind (Triple-call (generate-Linked vars mc t (value n)))
        (λ r. apply_config-Held r.0 r.1)

  reconcile_init-Held : Triple (HeldNow tt) (reconcile_init ops env meta spec) HeldNow HeldNow
  unfolding reconcile_init
  reconcile_init-Held = record { at = λ s h. ground arith }

  db_purge-Held : Triple (HeldNow tt) (setup_db_purge ops env meta spec) HeldNow SafeNow
  unfolding setup_db_purge
  db_purge-Held = record { at = λ s h. ground arith }

  stack_domain-Held : Triple (HeldNow tt) (setup_stack_domain ops env meta spec) HeldNow SafeNow
  unfolding setup_stack_domain stack_domain_from stack_domain_done ensure_stack_domain
  stack_domain-Held = record { at = λ s h. ground arith }

  return-Held : (r : Returned) → Triple (HeldNow tt) (return_unless_done r) HeldNow SafeNow
  return-Held (r, some e) = record { at = λ s h. h.0 }
  return-Held (r, none) = record { at = λ s h. ground arith }

  unused_accounts-Held :
      (account : String)
      → Triple (HeldNow tt) (delete_unused_accounts ops env meta spec account) HeldNow SafeNow
  unfolding delete_unused_accounts
  unused_accounts-Held account = record { at = λ s h. ground arith }

  pub initialise-Held : Triple (HeldNow tt) (initialise ops env meta spec) HeldNow SafeNow
  unfolding initialise reconcile_update reconcile_upgrade
  initialise-Held = Triple-bind (Triple-call reconcile_init-Held) (λ r.
      Triple-bind (return-Held r) (λ _.
        Triple-bind (unused_accounts-Held spec.database_account)
          (λ _. Triple-bind db_purge-Held (λ _. stack_domain-Held))))
