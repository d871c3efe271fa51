-- ===== src/Controller/Heat/Inputs.antt =====
-- The first part of reconcileNormal in internal/controller/heat_controller.go: RBAC, the password
-- secret, the application credential and Memcached.
use heat_operator.Base.{
  String, Option, none, some, List, [], ◌∷◌, GoMap, insert, ◌==◌, nonempty, if◌then◌else◌, not,
}
use heat_operator.Api.Types.{HeatSpec}
use heat_operator.Controller.Conditions.{
  CondOps, Err, Condition, false_condition, input_ready, memcached_ready, error_reason,
  requested_reason, warning, info, is_not_found, ready_message, waiting_message, error_message,
  missing_keys_message,
}
use heat_operator.Controller.Exec.{
  Exec, Returned, CtrlResult, empty_result, after_seconds, is_pending, pure, return,
  return_unless_done, ◌>>=◌, ◌>>◌,
}
use heat_operator.Controller.Heat.Env.{
  Env, State, Memcached, found, failed, password_validator, reconcile_rbac, verify_secret_fields,
  verify_secret, get_memcached, ask, update_conditions, get_status,
}

-- `Conditions.Set(condition); return result, err`
abbrev pub set_and_return :
    {C A : Type 0} → CondOps C → Condition → Returned → Exec Returned (State C) A
set_and_return ops k r = do update_conditions (ops.set k); return r

-- The two tests behind each call of VerifySecretFields: the condition for an error, the one for a
-- secret that is not there yet, and otherwise the hash.
abbrev pub verified :
    {C : Type 0}
    → CondOps C
    → (Err → Condition)
    → Condition
    → String × CtrlResult × Option Err
    → Exec Returned (State C) String
verified ops on_error on_wait (hash, result, some e) =
    set_and_return ops (on_error e) (result, some e)
verified ops on_error on_wait (hash, result, none) =
    if is_pending result then set_and_return ops on_wait (result, none) else pure hash

module _ {C : Type 0} (ops : CondOps C) (env : Env C) (spec : HeatSpec) where
  -- Service account, role, binding
  unfoldable pub check_rbac : Exec Returned (State C) (Unit {0})
  check_rbac = do
    status ← get_status
    (conditions, result, err) ← ask (λ _. reconcile_rbac) (env.reconcile_rbac status.conditions)
    update_conditions (λ _. conditions)
    return_unless_done (result, err)

  -- the OpenStack secret with the service password
  unfoldable pub check_password_secret : Exec Returned (State C) (GoMap String)
  check_password_secret = do
    let fields = (spec.password_selectors.service, password_validator) ∷ []
    reply ←
        ask (λ _. verify_secret_fields spec.secret fields)
          (env.verify_secret_fields spec.secret fields 10)
    hash ←
        verified ops
          (λ e. false_condition input_ready error_reason warning (error_message input_ready e))
          (false_condition input_ready error_reason warning (waiting_message input_ready)) reply
    pure (insert spec.secret hash [])

  unfoldable pub check_application_credential :
      GoMap String → Exec Returned (State C) (GoMap String)
  check_application_credential secret_vars =
      let name = spec.application_credential_secret in
      let keys : List String = "AC_ID" ∷ "AC_SECRET" ∷ [] in
      if nonempty name
      then (do
        (ac_hash, err) ← ask (λ _. verify_secret name keys) (env.verify_secret name keys)
        elim err [
          | some e ↦
              set_and_return ops
                (false_condition input_ready requested_reason info (waiting_message input_ready))
                (after_seconds 10, none)
          | none ↦
              if ac_hash == ""
              then set_and_return ops
                  (false_condition input_ready error_reason warning (missing_keys_message name))
                  (after_seconds 10, none)
              else pure (insert name ac_hash secret_vars)
        ])
      else pure secret_vars

  unfoldable pub check_memcached : Exec Returned (State C) Memcached
  check_memcached = do
    let name = spec.memcached_instance
    reply ← ask (λ _. get_memcached name) (env.get_memcached name)
    elim reply [
      | failed e ↦
          if is_not_found e
          then set_and_return ops
              (false_condition memcached_ready error_reason warning
                (waiting_message memcached_ready))
              (after_seconds 10, none)
          else set_and_return ops
              (false_condition memcached_ready error_reason warning
                (error_message memcached_ready e))
              (empty_result, some e)
      | found memcached ↦
          if not memcached.is_ready
          then set_and_return ops
              (false_condition memcached_ready requested_reason info
                (waiting_message memcached_ready))
              (after_seconds 10, none)
          else (do
            update_conditions (ops.mark_true memcached_ready (ready_message memcached_ready))
            pure memcached)
    ]

  -- The inputs in the order of the code, up to the end of the memcached check.
  unfoldable pub check_inputs : Exec Returned (State C) (GoMap String × Memcached)
  check_inputs = do
    check_rbac
    secret_vars ← check_password_secret
    secret_vars' ← check_application_credential secret_vars
    update_conditions (ops.mark_true input_ready (ready_message input_ready))
    memcached ← check_memcached
    pure (secret_vars', memcached)
