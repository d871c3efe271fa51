-- ===== src/Controller/Heat/Safety/Phases.antt =====
-- The parts of reconcileNormal before the children are applied, one by one: their calls are safe,
-- and they leave the finalizers that the children rely on.
use heat_operator.Base.{String, Option, none, some, GoMap, eq_refl, arith}
use heat_operator.Api.Types.{HeatSpec, ObjectMeta, RabbitMqConfig, HeatStatus}
use heat_operator.Controller.Conditions.{
  CondOps, CondType, rabbit_mq_transport_url_ready, notification_bus_instance_ready,
}
use heat_operator.Controller.Exec.Rules.{Triple, Triple-bind}
use heat_operator.Controller.Heat.Env.{Env, State}
use heat_operator.Controller.Heat.Safety.{IsSafe, HasTransport, HasSecrets}
use heat_operator.Controller.Heat.Inputs.{
  check_inputs, check_rbac, check_password_secret, check_application_credential, check_memcached,
}
use heat_operator.Controller.Heat.Transport.{
  ensure_transport_urls, ensure_transport_url, await_transport, hold_transport,
  ensure_notifications, notifications_bus, transport_url_name, notifications_transport_url_name,
  first_transport_secret, first_notifications_secret,
}
use heat_operator.Controller.Heat.Database.{setup_database}

module _ {C : Type 0} (ops : CondOps C) (env : Env C) (meta : ObjectMeta) (spec : HeatSpec) where
  abbrev pub ac : String
  ac = spec.application_credential_secret

  -- where a body has returned, its calls were safe
  abbrev pub Safe : {A : Type 0} → A → State C → Type 0
  Safe _ s = IsSafe ac s.log

  abbrev pub Linked : {A : Type 0} → String → A → State C → Type 0
  Linked transport _ s = HasTransport ac transport s.log

  abbrev pub Held : {A : Type 0} → String → A → State C → Type 0
  Held transport _ s = HasSecrets ac transport s.log

  pub inputs-Safe : Triple (Safe tt) (check_inputs ops env spec) Safe Safe
  unfolding check_inputs check_rbac check_password_secret check_application_credential
      check_memcached
  inputs-Safe = record { at = λ s h. ground arith }

  transport_url-Safe :
      (t : CondType) (name : String) (bus : RabbitMqConfig)
      (first : String → HeatStatus C → HeatStatus C) (vars : GoMap String)
      → Triple
          (Safe tt)
          (ensure_transport_url ops env meta t name bus first vars)
          (λ r. Linked r.0 r)
          Safe
  unfolding ensure_transport_url await_transport hold_transport
  transport_url-Safe t name bus first vars = record {
    at = λ s h. ground (arith, eq_refl (env.apply_transport_url name bus s.log).0);
  }

  -- a second bus does not take back what the first was given
  transport_url-Linked :
      (t : CondType) (name : String) (bus : RabbitMqConfig)
      (first : String → HeatStatus C → HeatStatus C) (vars : GoMap String) (transport : String)
      → Triple
          (Linked transport tt)
          (ensure_transport_url ops env meta t name bus first vars)
          (Linked transport)
          Safe
  unfolding ensure_transport_url await_transport hold_transport
  transport_url-Linked t name bus first vars transport = record { at = λ s h. ground arith }

  notifications-Safe :
      (transport : String) (vars : GoMap String) (bus : Option RabbitMqConfig)
      → Triple
          (Linked transport tt)
          (ensure_notifications ops env meta transport vars bus)
          (λ r. Linked r.0 r)
          Safe
  unfolding ensure_notifications
  notifications-Safe transport vars none = record { at = λ s h. ground arith }
  notifications-Safe transport vars (some bus) =
      Triple-bind
        (transport_url-Linked notification_bus_instance_ready
          (notifications_transport_url_name meta.name) bus first_notifications_secret vars
          transport)
        (λ r. record { at = λ s h. h })

  pub transport_urls-Safe :
      (vars : GoMap String)
      → Triple (Safe tt) (ensure_transport_urls ops env meta spec vars) (λ r. Linked r.0 r) Safe
  unfolding ensure_transport_urls
  transport_urls-Safe vars =
      Triple-bind
        (transport_url-Safe rabbit_mq_transport_url_ready (transport_url_name meta.name)
          spec.messaging_bus first_transport_secret vars)
        (λ r. notifications-Safe r.0 r.1 (notifications_bus spec))

  pub database-Safe :
      (transport : String)
      → Triple (Linked transport tt) (setup_database ops env spec) (Linked transport) Safe
  unfolding setup_database
  database-Safe transport = record { at = λ s h. ground arith }
