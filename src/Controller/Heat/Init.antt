-- ===== src/Controller/Heat/Init.antt =====
-- reconcileInit, ensureDBPurgeJob and ensureStackDomain of internal/controller/heat_controller.go,
-- with what reconcileNormal does with their results. reconcileUpdate and reconcileUpgrade only log.
use heat_operator.Base.{String, none, some, [], ◌∷◌, GoMap, lookup, insert, if◌then◌else◌, ◌<>◌}
use heat_operator.Api.Types.{HeatSpec, ObjectMeta, PasswordSelector}
use heat_operator.Api.Route.{value}
use heat_operator.Heat.Names.{service_name, stack_user_role, stack_domain_admin_username}
use heat_operator.Heat.Jobs.{heat_manage, db_sync_job, db_purge_job}
use heat_operator.Controller.Conditions.{
  CondOps, false_condition, db_sync_ready, cron_job_ready, heat_stack_domain_ready, error_reason,
  requested_reason, warning, info, password_selector_not_found, ready_message, running_message,
  error_message,
}
use heat_operator.Controller.Exec.{
  Exec, Returned, empty_result, is_pending, next, pure, return, when, call, return_unless_done,
  ◌>>=◌, ◌>>◌,
}
use heat_operator.Controller.Heat.Env.{
  Env, State, Fetched, found, failed, do_job, apply_cron_job, delete_unused_account_finalizers,
  get_secret, get_admin_client, create_domain, create_role, create_user, assign_user_domain_role,
  ask, update_conditions, modify_status, get_status,
}
use heat_operator.Controller.Heat.Inputs.{set_and_return}
use heat_operator.Controller.Heat.Transport.{return_if_err}
use heat_operator.Controller.Heat.Text.{trim_newline}

abbrev pub db_sync_hash : String
db_sync_hash = "dbsync"

-- the stack domain admin's own password if the secret has one, and the service password if not
unfoldable pub domain_admin_password : PasswordSelector → GoMap String → String → String
domain_admin_password selectors secret password =
    elim (lookup selectors.stack_domain_admin_password secret) [
      | none ↦ password
      | some val ↦ trim_newline val
    ]

module _ {C : Type 0} (ops : CondOps C) (env : Env C) (meta : ObjectMeta) (spec : HeatSpec) where
  -- `{common.AppSelector: heat.ServiceName}`
  abbrev service_labels : GoMap String
  service_labels = (env.app_selector, service_name) ∷ []

  -- An unfinished job is reported before an error is looked at.
  unfoldable pub reconcile_init : Exec Returned (State C) Returned
  reconcile_init = do
    status ← get_status
    let job = db_sync_job env.volume_ops meta spec service_labels
    let old_hash = value (lookup db_sync_hash status.hash)
    ((result, err), changed, hash) ← ask (λ _. do_job job) (env.do_job job old_hash)
    if is_pending result
        then set_and_return ops
            (false_condition db_sync_ready requested_reason info (running_message db_sync_ready))
            (result, none)
        else elim err [
          | some e ↦
              set_and_return ops
                (false_condition db_sync_ready error_reason warning (error_message db_sync_ready e))
                (empty_result, some e)
          | none ↦ (do
            when changed
                (modify_status (λ st. record st { hash = insert db_sync_hash hash st.hash }))
            update_conditions (ops.mark_true db_sync_ready (ready_message db_sync_ready))
            pure (empty_result, none))
        ]

  -- ensureDBPurgeJob: the result of CreateOrPatch is returned, and reconcileNormal looks only at
  -- the error
  unfoldable pub setup_db_purge : Exec Returned (State C) (Unit {0})
  setup_db_purge = do
    let job = db_purge_job env.volume_ops meta spec (record {
      name = meta.name <> "-db-purge";
      schedule = spec.db_purge.schedule;
      command = heat_manage;
      labels = service_labels;
      annotations = [];
    })
    (result, err) ← ask (λ _. apply_cron_job job) (env.apply_cron_job job)
    elim err [
      | some e ↦
          set_and_return ops
            (false_condition cron_job_ready error_reason warning (error_message cron_job_ready e))
            (result, some e)
      | none ↦ update_conditions (ops.mark_true cron_job_ready (ready_message cron_job_ready))
    ]

  -- ensureStackDomain
  unfoldable pub ensure_stack_domain : GoMap String → Exec Returned (State C) Returned
  ensure_stack_domain secret = elim (lookup spec.password_selectors.service secret) [
    | none ↦ return (empty_result, some password_selector_not_found)
    | some val ↦ (do
      let password = trim_newline val
      let admin_password = domain_admin_password spec.password_selectors secret password
      keystone ← (λ s. (next s.keystone_api, s))
      client ← ask (λ _. get_admin_client) (env.get_admin_client keystone)
      return_unless_done client
      (domain, err₁) ← ask (λ _. create_domain) env.create_domain
      return_if_err err₁
      err₂ ← ask (λ _. create_role) (env.create_role stack_user_role)
      return_if_err err₂
      (user, err₃) ←
          ask (λ _. create_user admin_password domain)
            (env.create_user stack_domain_admin_username admin_password domain)
      return_if_err err₃
      err₄ ←
          ask (λ _. assign_user_domain_role user domain)
            (env.assign_user_domain_role "admin" user domain)
      pure (empty_result, err₄))
  ]

  -- what reconcileNormal does with the result of ensureStackDomain
  unfoldable pub stack_domain_done : Returned → Exec Returned (State C) (Unit {0})
  stack_domain_done (result, some e) =
      set_and_return ops
        (false_condition heat_stack_domain_ready error_reason warning
          (error_message heat_stack_domain_ready e))
        (empty_result, some e)
  stack_domain_done (result, none) =
      if is_pending result
      then set_and_return ops
          (false_condition heat_stack_domain_ready requested_reason info
            (running_message heat_stack_domain_ready))
          (result, none)
      else update_conditions
          (ops.mark_true heat_stack_domain_ready (ready_message heat_stack_domain_ready))

  unfoldable pub stack_domain_from : Fetched (GoMap String) → Exec Returned (State C) (Unit {0})
  unfolding ensure_stack_domain stack_domain_done
  stack_domain_from (failed e) = return (empty_result, some e)
  stack_domain_from (found secret) = do r ← call (ensure_stack_domain secret); stack_domain_done r

  unfoldable pub setup_stack_domain : Exec Returned (State C) (Unit {0})
  unfolding stack_domain_from
  setup_stack_domain = do
    reply ← ask (λ _. get_secret spec.secret) (env.get_secret spec.secret)
    stack_domain_from reply

  -- mariadbv1.DeleteUnusedMariaDBAccountFinalizers and the test of its error
  unfoldable pub delete_unused_accounts : String → Exec Returned (State C) (Unit {0})
  delete_unused_accounts account = do
    err ←
        ask (λ _. delete_unused_account_finalizers account)
          (env.delete_unused_account_finalizers account)
    return_if_err err

  -- reconcileUpdate, which only logs
  unfoldable pub reconcile_update : Exec Returned (State C) Returned
  reconcile_update = pure (empty_result, none)

  -- reconcileUpgrade, which only logs
  unfoldable pub reconcile_upgrade : Exec Returned (State C) Returned
  reconcile_upgrade = pure (empty_result, none)

  -- From reconcileInit to the stack domain.
  unfoldable pub initialise : Exec Returned (State C) (Unit {0})
  unfolding reconcile_init reconcile_update reconcile_upgrade delete_unused_accounts setup_db_purge
      setup_stack_domain
  initialise = do
    init ← call reconcile_init
    return_unless_done init
    updated ← call reconcile_update
    return_unless_done updated
    upgraded ← call reconcile_upgrade
    return_unless_done upgraded
    delete_unused_accounts spec.database_account
    setup_db_purge
    setup_stack_domain
