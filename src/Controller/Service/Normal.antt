-- ===== src/Controller/Service/Normal.antt =====
-- reconcileNormal of a service, composed of its parts. reconcileUpdate and reconcileUpgrade only log.
use heat_operator.Controller.Conditions.{CondOps, ready, ready_message}
use heat_operator.Controller.Exec.{Exec, Returned, empty_result, pure, ◌>>=◌, ◌>>◌}
use heat_operator.Controller.Service.Env.{Env, State, Service, update_conditions}
use heat_operator.Controller.Service.Inputs.{check_inputs, check_tls}
use heat_operator.Controller.Service.Config.{configure}
use heat_operator.Controller.Service.Endpoints.{initialise}
use heat_operator.Controller.Service.Topology.{handle_topology}
use heat_operator.Controller.Service.Rollout.{service_labels, find_memcached, roll_out}
use heat_operator.Base.{none, if◌then◌else◌}

module _ {C : Type 0} (ops : CondOps C) (env : Env C) (svc : Service) where
  -- `if AllSubConditionIsTrue() { MarkTrue(ReadyCondition) }`, and the end
  unfoldable pub finish : Exec Returned (State C) Returned
  finish = do
    update_conditions (λ c.
        if ops.all_sub_condition_is_true c then ops.mark_true ready (ready_message ready) c else c)
    pure (empty_result, none)

  unfoldable pub reconcile_normal : Exec Returned (State C) Returned
  unfolding finish
  reconcile_normal = do
    vars ← check_inputs ops env svc
    vars' ← check_tls ops env svc vars
    hash ← configure ops env svc vars'
    initialise ops env svc (service_labels ops env svc)
    topology ← handle_topology ops env svc
    memcached ← find_memcached ops env svc
    roll_out ops env svc hash topology memcached
    finish
