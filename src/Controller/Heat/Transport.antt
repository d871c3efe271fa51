-- ===== src/Controller/Heat/Transport.antt =====
-- The second part of reconcileNormal in internal/controller/heat_controller.go: the TransportURLs
-- of the messaging bus and of the notifications bus, their consumer finalizers and their secrets,
-- with the functions that create and delete a TransportURL.
use heat_operator.Base.{
  String, Option, none, some, [], ◌∷◌, GoMap, insert, ◌==◌, nonempty, if◌then◌else◌, ◌<>◌,
}
use heat_operator.Api.Types.{HeatSpec, HeatStatus, ObjectMeta, RabbitMqConfig}
use heat_operator.Heat.Names.{transport_consumer_finalizer}
use heat_operator.Controller.Conditions.{
  CondOps, CondType, Err, false_condition, rabbit_mq_transport_url_ready,
  notification_bus_instance_ready, error_reason, requested_reason, warning, info, is_not_found,
  ready_message, running_message, error_message,
}
use heat_operator.Controller.Exec.{
  Exec, Returned, empty_result, after_seconds, pure, return, ◌>>=◌, ◌>>◌,
}
use heat_operator.Controller.Heat.Env.{
  Env, State, no_op_validator, transport_url_applied, consumer_added, verify_secret_fields,
  transport_url_deleted, ask, update_conditions, modify_status,
}
use heat_operator.Controller.Heat.Inputs.{set_and_return, verified}

abbrev pub transport_url_name : String → String
transport_url_name name = name <> "-heat-transport"

abbrev pub notifications_transport_url_name : String → String
notifications_transport_url_name name = name <> "-heat-notifications-transport"

-- `if err != nil { return ctrl.Result{}, err }`
abbrev pub return_if_err : {S : Type 0} → Option Err → Exec Returned S (Unit {0})
return_if_err none = pure tt
return_if_err (some e) = return (empty_result, some e)

-- The status field that holds the secret of a bus is set early, but only the first time.
abbrev pub first_transport_secret : {C : Type 0} → String → HeatStatus C → HeatStatus C
first_transport_secret secret status = record status {
  transport_url_secret =
      if status.transport_url_secret == "" then secret else status.transport_url_secret;
}

abbrev pub first_notifications_secret : {C : Type 0} → String → HeatStatus C → HeatStatus C
first_notifications_secret secret status = record status {
  notifications_transport_url_secret =
      if status.notifications_transport_url_secret == ""
      then secret
      else status.notifications_transport_url_secret;
}

-- `instance.Spec.NotificationsBus != nil && instance.Spec.NotificationsBus.Cluster != ""`
abbrev pub notifications_bus : HeatSpec → Option RabbitMqConfig
notifications_bus spec = elim spec.notifications_bus [
  | none ↦ none
  | some bus ↦ if nonempty bus.cluster then some bus else none
]

module _ {C : Type 0} (ops : CondOps C) (env : Env C) (meta : ObjectMeta) where
  -- transportURLCreateOrUpdate and notificationsTransportURLCreateOrUpdate: the name of the secret
  -- in the TransportURL's status
  unfoldable pub transport_url_create_or_update :
      String → RabbitMqConfig → Exec Returned (State C) (String × Option Err)
  transport_url_create_or_update name bus =
      ask (λ (secret, err). transport_url_applied name bus secret err)
        (env.apply_transport_url name bus)

  -- transportURLDeleted: an object that is not there counts as deleted
  unfoldable pub delete_transport_url : String → Exec Returned (State C) (Option Err)
  delete_transport_url name = do
    err ← ask (λ _. transport_url_deleted name) (env.delete_transport_url name)
    pure (elim err [ none ↦ none | some e ↦ if is_not_found e then none else some e ])

  -- object.ManageSecretConsumerFinalizer
  unfoldable pub add_consumer : String → String → Exec Returned (State C) (Option Err)
  add_consumer secret finalizer =
      ask (λ err. consumer_added secret finalizer err) (env.add_consumer secret finalizer)

  -- A secret that is there gets the consumer finalizer before it is verified.
  unfoldable pub hold_transport :
      CondType → GoMap String → String → Exec Returned (State C) (String × GoMap String)
  unfolding add_consumer
  hold_transport t secret_vars secret = do
    added ← add_consumer secret transport_consumer_finalizer
    return_if_err added
    let fields = ("transport_url", no_op_validator) ∷ []
    reply ←
        ask (λ _. verify_secret_fields secret fields) (env.verify_secret_fields secret fields 10)
    hash ←
        verified ops (λ e. false_condition t error_reason warning (error_message t e))
          (false_condition t requested_reason info (running_message t)) reply
    update_conditions (ops.mark_true t (ready_message t))
    pure (secret, insert secret hash secret_vars)

  unfoldable pub await_transport :
      CondType
      → (first : String → HeatStatus C → HeatStatus C) → GoMap String
      → String × Option Err
      → Exec Returned (State C) (String × GoMap String)
  unfolding hold_transport
  await_transport t first secret_vars (secret, some e) =
      set_and_return ops (false_condition t error_reason warning (error_message t e))
        (empty_result, some e)
  await_transport t first secret_vars (secret, none) =
      if secret == ""
      then set_and_return ops (false_condition t requested_reason info (running_message t))
          (after_seconds 10, none)
      else (do modify_status (first secret); hold_transport t secret_vars secret)

  -- What the code does for either bus: apply the TransportURL, wait for its secret, note the secret
  -- in the status the first time, add the consumer finalizer, verify the secret.
  unfoldable pub ensure_transport_url :
      CondType
      → String
      → RabbitMqConfig
      → (String → HeatStatus C → HeatStatus C)
      → GoMap String
      → Exec Returned (State C) (String × GoMap String)
  unfolding transport_url_create_or_update await_transport
  ensure_transport_url t name bus first secret_vars = do
    reply ← transport_url_create_or_update name bus
    await_transport t first secret_vars reply

  -- The notifications bus if it is configured. Its teardown is left to the end of the reconcile.
  unfoldable pub ensure_notifications :
      String
      → GoMap String
      → Option RabbitMqConfig
      → Exec Returned (State C) (String × Option String × GoMap String)
  unfolding ensure_transport_url
  ensure_notifications secret secret_vars (some bus) = do
    (notifications, secret_vars') ←
        ensure_transport_url notification_bus_instance_ready
          (notifications_transport_url_name meta.name) bus first_notifications_secret secret_vars
    pure (secret, some notifications, secret_vars')
  ensure_notifications secret secret_vars none = do
    update_conditions (ops.remove notification_bus_instance_ready)
    pure (secret, none, secret_vars)

  -- The secret of the messaging bus, of the notifications bus if there is one, and the hashes.
  unfoldable pub ensure_transport_urls :
      HeatSpec → GoMap String → Exec Returned (State C) (String × Option String × GoMap String)
  unfolding ensure_transport_url ensure_notifications
  ensure_transport_urls spec secret_vars = do
    (secret, secret_vars') ←
        ensure_transport_url rabbit_mq_transport_url_ready (transport_url_name meta.name)
          spec.messaging_bus first_transport_secret secret_vars
    ensure_notifications secret secret_vars' (notifications_bus spec)
