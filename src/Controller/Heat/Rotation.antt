-- ===== src/Controller/Heat/Rotation.antt =====
-- The end of reconcileNormal in internal/controller/heat_controller.go: the Ready condition, the
-- rotation of the secrets, the teardown of a disabled notifications bus and the pruning of
-- stranded consumer finalizers.
use heat_operator.Base.{
  String, Bool, ◌&&◌, Option, none, some, List, [], ◌∷◌, nonempty, if◌then◌else◌,
}
use heat_operator.Api.Types.{HeatSpec, ObjectMeta}
use heat_operator.Api.Route.{value}
use heat_operator.Heat.Names.{ac_consumer_finalizer, transport_consumer_finalizer}
use heat_operator.Controller.Conditions.{CondOps, ready, ready_message}
use heat_operator.Controller.Exec.{Exec, Returned, empty_result, pure, when, ◌>>=◌, ◌>>◌}
use heat_operator.Controller.Heat.Env.{
  Env, State, rotation_finalized, consumer_removed, consumers_pruned, ask, update_conditions,
  modify_status, get_status,
}
use heat_operator.Controller.Heat.Transport.{
  return_if_err, notifications_transport_url_name, delete_transport_url,
}

module _ {C : Type 0} (ops : CondOps C) (env : Env C) (meta : ObjectMeta) (spec : HeatSpec) where
  -- object.FinalizeSecretRotation and the test of its error: the secret to keep in the status
  unfoldable pub finalize_rotation :
      String → String → String → Bool → Exec Returned (State C) String
  finalize_rotation old current finalizer services_ready = do
    (name, err) ←
        ask (λ _. rotation_finalized old current finalizer services_ready)
          (env.finalize_rotation old current finalizer services_ready)
    return_if_err err
    pure name

  -- object.RemoveSecretConsumerFinalizer
  unfoldable pub remove_consumer : String → String → Exec Returned (State C) (Unit {0})
  remove_consumer secret finalizer = do
    err ← ask (consumer_removed secret finalizer) (env.remove_consumer secret finalizer)
    return_if_err err

  -- object.PruneSecretConsumerFinalizers
  unfoldable pub prune_consumers : String → List String → Exec Returned (State C) (Unit {0})
  prune_consumers finalizer keep = do
    err ← ask (consumers_pruned finalizer keep) (env.prune_consumers finalizer keep)
    return_if_err err

  unfoldable pub rotate_application_credential : Bool → Exec Returned (State C) (Unit {0})
  unfolding finalize_rotation
  rotate_application_credential services_ready = do
    status ← get_status
    name ←
        finalize_rotation status.application_credential_secret spec.application_credential_secret
          ac_consumer_finalizer services_ready
    modify_status (λ st. record st { application_credential_secret = name })

  -- `if AllSubConditionIsTrue() { MarkTrue(ReadyCondition) }`
  unfoldable pub update_ready : Exec Returned (State C) (Unit {0})
  update_ready = update_conditions (λ c.
      if ops.all_sub_condition_is_true c then ops.mark_true ready (ready_message ready) c else c)

  unfoldable pub rotate_transport : String → Bool → Exec Returned (State C) (Unit {0})
  unfolding finalize_rotation
  rotate_transport transport services_ready = do
    status ← get_status
    name ←
        finalize_rotation status.transport_url_secret transport transport_consumer_finalizer
          services_ready
    modify_status (λ st. record st { transport_url_secret = name })

  -- The notifications bus: rotated while it is enabled, and torn down once every service is ready
  -- without it.
  unfoldable pub rotate_notifications : Option String → Bool → Exec Returned (State C) (Unit {0})
  unfolding finalize_rotation remove_consumer delete_transport_url
  rotate_notifications (some notifications) services_ready = do
    status ← get_status
    name ←
        finalize_rotation status.notifications_transport_url_secret notifications
          transport_consumer_finalizer services_ready
    modify_status (λ st. record st { notifications_transport_url_secret = name })
  rotate_notifications none services_ready = do
    status ← get_status
    let held = status.notifications_transport_url_secret
    when (nonempty held && services_ready) (do
      remove_consumer held transport_consumer_finalizer
      err ← delete_transport_url ops env meta (notifications_transport_url_name meta.name)
      return_if_err err
      modify_status (λ st. record st { notifications_transport_url_secret = "" }))

  unfoldable pub prune_stranded : String → Option String → Bool → Exec Returned (State C) (Unit {0})
  unfolding prune_consumers
  prune_stranded transport notifications services_ready = when services_ready (do
    status ← get_status
    prune_consumers transport_consumer_finalizer (
        status.transport_url_secret
        ∷ transport
        ∷ status.notifications_transport_url_secret
        ∷ value notifications
        ∷ [])
    prune_consumers ac_consumer_finalizer
        (status.application_credential_secret ∷ spec.application_credential_secret ∷ []))

  unfoldable pub finish_rotation : String → Option String → Bool → Exec Returned (State C) Returned
  unfolding rotate_application_credential update_ready rotate_transport rotate_notifications
      prune_stranded
  finish_rotation transport notifications services_ready = do
    rotate_application_credential services_ready
    update_ready
    rotate_transport transport services_ready
    rotate_notifications notifications services_ready
    prune_stranded transport notifications services_ready
    pure (empty_result, none)
