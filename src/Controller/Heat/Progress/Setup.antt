-- ===== src/Controller/Heat/Progress/Setup.antt =====
-- The conditions after the configuration and the initialisation of the services.
use heat_operator.Base.{
  String, Bool, false, ◌||◌, Option, none, some, is_some, List, [], ◌∷◌, GoMap, ◌≡◌, refl, arith,
}
use heat_operator.Api.Types.{HeatSpec, ObjectMeta}
use heat_operator.Api.Route.{value}
use heat_operator.Controller.Conditions.{
  CondOps, CondLaws, CondType, Err, same_type, service_config_ready, db_sync_ready, cron_job_ready,
  heat_stack_domain_ready,
}
use heat_operator.Controller.Exec.{Returned, return_unless_done, is_pending}
use heat_operator.Controller.Exec.Rules.{Post, Triple, Triple-bind, Triple-call}
use heat_operator.Controller.Heat.Env.{
  Env, State, Memcached, Database, Fetched, found, failed, get_secret, ask,
}
use heat_operator.Controller.Heat.Transport.{add_consumer}
use heat_operator.Controller.Heat.Secrets.{
  Generated, configure, apply_config, generate_service_secrets, custom_secret, custom_secrets,
  gather_inputs, render_config, create_hash_of_input_hashes,
}
use heat_operator.Controller.Heat.Config.{Inputs, concat_data}
use heat_operator.Controller.Heat.Init.{
  initialise, delete_unused_accounts, reconcile_init, reconcile_update, reconcile_upgrade,
  setup_db_purge, setup_stack_domain, stack_domain_from, stack_domain_done, ensure_stack_domain,
}
use heat_operator.Controller.Heat.Progress.{NotDone, Marked}

module _ {C : Type 0} (ops : CondOps C) (laws : CondLaws ops) (t : CondType) (env : Env C)
    (meta : ObjectMeta) (spec : HeatSpec) (b : Bool) where
  abbrev MarkedNow : {A : Type 0} → A → State C → Type 0
  MarkedNow = Marked ops laws t b

  -- what generateServiceSecrets leaves where it returns no error
  abbrev GeneratedMarked : Generated → State C → Type 0
  GeneratedMarked (err, vars) s = is_some err ≡ false → MarkedNow tt s

  custom_secret-Marked :
      (vars : GoMap String) (name : String)
      → Triple (MarkedNow tt) (custom_secret ops env meta spec vars name) MarkedNow GeneratedMarked
  unfolding custom_secret
  custom_secret-Marked vars name = record { at = λ s h. ground arith }

  custom_secrets-Marked :
      (vars : GoMap String) (acc : String) (names : List String)
      → Triple
          (MarkedNow tt)
          (custom_secrets ops env meta spec vars acc names)
          MarkedNow
          GeneratedMarked
  unfolding custom_secrets
  custom_secrets-Marked vars acc [] = record { at = λ s h. h }
  custom_secrets-Marked vars acc (name ∷ names) =
      Triple-bind (custom_secret-Marked vars name)
        (λ secret. custom_secrets-Marked vars (concat_data acc secret) names)

  gather_inputs-Marked :
      (vars : GoMap String) (tr n : String)
      → Triple (MarkedNow tt) (gather_inputs ops env meta spec vars tr n) MarkedNow GeneratedMarked
  unfolding gather_inputs
  gather_inputs-Marked vars tr n = record { at = λ s h. ground arith }

  render_config-Marked :
      (vars : GoMap String) (mc : Memcached) (db : Database) (custom : GoMap String)
      (inputs : Inputs)
      → Triple
          (MarkedNow tt)
          (render_config ops env meta spec vars mc db custom inputs)
          GeneratedMarked
          GeneratedMarked
  unfolding render_config
  render_config-Marked vars mc db custom inputs = record { at = λ s h. ground arith }

  generate-Marked :
      (vars : GoMap String) (mc : Memcached) (tr n : String)
      → Triple
          (MarkedNow tt)
          (generate_service_secrets ops env meta spec vars mc tr n)
          GeneratedMarked
          GeneratedMarked
  unfolding generate_service_secrets
  generate-Marked vars mc tr n = record {
    at = λ s.
        (Triple-bind (custom_secrets-Marked vars "" spec.base.custom_service_config_secrets)
            (λ extra.
              Triple-bind (gather_inputs-Marked vars tr n)
                (λ inputs. render_config-Marked vars mc (env.database s.log) _ inputs))).at
          s;
  }

  apply_config-Marked :
      (err : Option Err) (vars : GoMap String)
      → Triple
          (GeneratedMarked (err, vars))
          (apply_config ops env meta spec err vars)
          (Marked ops laws t (b || same_type t service_config_ready))
          NotDone
  unfolding apply_config create_hash_of_input_hashes add_consumer
  apply_config-Marked (some e) vars = record { at = λ s h. refl }
  apply_config-Marked none vars = record { at = λ s h. config_applied s (h refl) }
    where
      config_applied :
          (s : State C)
          → MarkedNow tt s
          → Post
              (Marked ops laws t (b || same_type t service_config_ready))
              NotDone
              (apply_config ops env meta spec none vars s)
      config_applied s h = grind (arith, laws.get-mark_true)

  pub configure-Marked :
      (vars : GoMap String) (mc : Memcached) (tr : String) (n : Option String)
      → Triple
          (MarkedNow tt)
          (configure ops env meta spec vars mc tr n)
          (Marked ops laws t (b || same_type t service_config_ready))
          NotDone
  unfolding configure
  configure-Marked vars mc tr n =
      Triple-bind (Triple-call (generate-Marked vars mc tr (value n)))
        (λ r. apply_config-Marked r.0 r.1)

  -- what reconcileInit has marked where it returns a result that is done
  abbrev Synced : Returned → State C → Type 0
  Synced (result, err) s =
      (is_some err || is_pending result ≡ false)
      → Marked ops laws t (b || same_type t db_sync_ready) tt s

  reconcile_init-Marked : Triple (MarkedNow tt) (reconcile_init ops env meta spec) Synced Synced
  unfolding reconcile_init
  reconcile_init-Marked = record { at = λ s h. grind (arith, laws.get-mark_true) }

  return-Marked :
      (r : Returned)
      → Triple
          (Synced r)
          (return_unless_done r)
          (λ _. Marked ops laws t (b || same_type t db_sync_ready) tt)
          NotDone
  return-Marked (r, some e) = record { at = λ s h. refl }
  return-Marked (r, none) = record { at = λ s h. ground (arith, h) }

  unused_accounts-Marked :
      (account : String)
      → Triple (MarkedNow tt) (delete_unused_accounts ops env meta spec account) MarkedNow NotDone
  unfolding delete_unused_accounts
  unused_accounts-Marked account = record { at = λ s h. ground arith }

  db_purge-Marked :
      Triple
        (MarkedNow tt)
        (setup_db_purge ops env meta spec)
        (Marked ops laws t (b || same_type t cron_job_ready))
        NotDone
  unfolding setup_db_purge
  db_purge-Marked = record { at = λ s h. grind (arith, laws.get-mark_true) }

  ensured-Marked :
      (secret : GoMap String)
      → Triple (MarkedNow tt) (ensure_stack_domain ops env meta spec secret) MarkedNow MarkedNow
  unfolding ensure_stack_domain
  ensured-Marked secret = record { at = λ s h. ground arith }

  domain_done-Marked :
      (r : Returned)
      → Triple
          (MarkedNow tt)
          (stack_domain_done ops env meta spec r)
          (Marked ops laws t (b || same_type t heat_stack_domain_ready))
          NotDone
  unfolding stack_domain_done
  domain_done-Marked (result, some e) = record { at = λ s h. refl }
  domain_done-Marked (result, none) = record { at = λ s h. grind (arith, laws.get-mark_true) }

  stack_domain-Marked :
      Triple
        (MarkedNow tt)
        (setup_stack_domain ops env meta spec)
        (Marked ops laws t (b || same_type t heat_stack_domain_ready))
        NotDone
  unfolding setup_stack_domain stack_domain_from
  stack_domain-Marked = Triple-bind asked from-Marked
    where
      asked :
          Triple {R = Returned}
            (MarkedNow tt)
            (ask (λ _. get_secret spec.secret) (env.get_secret spec.secret))
            MarkedNow
            NotDone
      asked = record { at = λ s h. h }

      from-Marked :
          (reply : Fetched (GoMap String))
          → Triple
              (MarkedNow tt)
              (stack_domain_from ops env meta spec reply)
              (Marked ops laws t (b || same_type t heat_stack_domain_ready))
              NotDone
      from-Marked (failed e) = record { at = λ s h. refl }
      from-Marked (found secret) =
          Triple-bind (Triple-call (ensured-Marked secret)) domain_done-Marked

module _ {C : Type 0} (ops : CondOps C) (laws : CondLaws ops) (t : CondType) (env : Env C)
    (meta : ObjectMeta) (spec : HeatSpec) (b : Bool) where
  abbrev synced : Bool
  synced = b || same_type t db_sync_ready

  abbrev purged : Bool
  purged = synced || same_type t cron_job_ready

  pub initialise-Marked :
      Triple
        (Marked ops laws t b tt)
        (initialise ops env meta spec)
        (Marked ops laws t (purged || same_type t heat_stack_domain_ready))
        NotDone
  unfolding initialise reconcile_update reconcile_upgrade
  initialise-Marked =
      Triple-bind (Triple-call (reconcile_init-Marked ops laws t env meta spec b)) (λ r.
        Triple-bind (return-Marked ops laws t env meta spec b r) (λ _.
          Triple-bind (unused_accounts-Marked ops laws t env meta spec synced spec.database_account)
            (λ _.
              Triple-bind (db_purge-Marked ops laws t env meta spec synced)
                (λ _. stack_domain-Marked ops laws t env meta spec purged))))
