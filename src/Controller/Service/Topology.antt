-- ===== src/Controller/Service/Topology.antt =====
-- ensureTopology of internal/controller/heat_controller.go, and what the reconcilers of the services
-- do with its result.
use heat_operator.Base.{Option, some, is_some}
use heat_operator.Api.Types.{Opaque}
use heat_operator.Controller.Conditions.{
  CondOps, Condition, Err, waiting_for_topology, false_condition, topology_ready, error_reason,
  warning, ready_message, error_message,
}
use heat_operator.Controller.Exec.{Exec, Returned, empty_result, pure, when, call, ◌>>=◌, ◌>>◌}
use heat_operator.Controller.Heat.Env.{Fetched, found, failed}
use heat_operator.Controller.Service.Env.{
  Env, State, Service, topology_ensured, ask, modify_status, get_status, update_conditions,
  set_and_return,
}

module _ {C : Type 0} (ops : CondOps C) (env : Env C) (svc : Service) where
  open svc use {meta, spec}

  abbrev topology_error : Err → Condition
  topology_error e =
      false_condition topology_ready error_reason warning (error_message topology_ready e)

  unfoldable pub ensure_topology :
      Exec (Fetched (Option Opaque)) (State C) (Fetched (Option Opaque))
  ensure_topology = do
    status ← get_status
    let wanted = spec.template.topology_ref
    let last = status.last_applied_topology
    reply ← ask (λ _. topology_ensured wanted last) (env.ensure_topology wanted last meta.name)
    elim reply [
      | failed e ↦ set_and_return ops (topology_error e) (failed (waiting_for_topology e))
      | found topology ↦ (do
        modify_status (λ st. record st { last_applied_topology = wanted })
        when (is_some wanted)
            (update_conditions (ops.mark_true topology_ready (ready_message topology_ready)))
        pure (found topology))
    ]

  -- The error is wrapped once more, and the condition is set again.
  unfoldable pub topology_done : Fetched (Option Opaque) → Exec Returned (State C) (Option Opaque)
  topology_done (failed e) =
      set_and_return ops (topology_error e) (empty_result, some (waiting_for_topology e))
  topology_done (found topology) = pure topology

  unfoldable pub handle_topology : Exec Returned (State C) (Option Opaque)
  unfolding ensure_topology topology_done
  handle_topology = do reply ← call ensure_topology; topology_done reply
