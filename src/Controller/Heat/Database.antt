-- ===== src/Controller/Heat/Database.antt =====
-- ensureDB of internal/controller/heat_controller.go, and what reconcileNormal does with its
-- result.
use heat_operator.Base.{none, some, if◌then◌else◌}
use heat_operator.Api.Types.{HeatSpec}
use heat_operator.Controller.Conditions.{
  CondOps, false_condition, mariadb_account_ready, db_ready, error_reason, requested_reason,
  warning, info, ready_message, running_message, error_message,
}
use heat_operator.Controller.Exec.{
  Exec, Returned, CtrlResult, empty_result, is_pending, next, pure, return, when, call, ◌>>=◌, ◌>>◌,
}
use heat_operator.Controller.Heat.Env.{
  Env, State, ensure_account, apply_database, wait_for_database, ask, update_conditions,
  modify_status,
}
use heat_operator.Controller.Heat.Inputs.{set_and_return}
use heat_operator.Controller.Heat.Transport.{return_if_err}

module _ {C : Type 0} (ops : CondOps C) (env : Env C) (spec : HeatSpec) where
  -- The tests behind CreateOrPatchAll and WaitForDBCreated: the first returns an empty result
  -- beside an error, the second its own.
  abbrev db_done : CtrlResult → Returned → Exec Returned (State C) (Unit {0})
  db_done on_error (result, some e) =
      set_and_return ops (false_condition db_ready error_reason warning (error_message db_ready e))
        (on_error, some e)
  db_done on_error (result, none) =
      if is_pending result
      then set_and_return ops
          (false_condition db_ready requested_reason info (running_message db_ready)) (result, none)
      else pure tt

  unfoldable pub ensure_db : Exec Returned (State C) Returned
  ensure_db = do
    let account = spec.database_account
    err ← ask (λ _. ensure_account account) (env.ensure_account account)
    elim err [
      | some e ↦
          set_and_return ops
            (false_condition mariadb_account_ready error_reason warning
              (error_message mariadb_account_ready e))
            (empty_result, some e)
      | none ↦ (do
        update_conditions
            (ops.mark_true mariadb_account_ready (ready_message mariadb_account_ready))
        applied ← ask (λ _. apply_database) env.apply_database
        db_done empty_result applied
        waited ← ask (λ _. wait_for_database) env.wait_for_database
        db_done waited.0 waited
        hostname ← (λ s. (next (env.database_hostname s.log), s))
        modify_status (λ status. record status { database_hostname = hostname })
        update_conditions (ops.mark_true db_ready (ready_message db_ready))
        pure waited)
    ]

  -- `db, result, err := r.ensureDB(...)` and the two tests behind it
  unfoldable pub setup_database : Exec Returned (State C) (Unit {0})
  unfolding ensure_db
  setup_database = do
    (result, err) ← call ensure_db
    return_if_err err
    when (is_pending result) (return (result, none))
