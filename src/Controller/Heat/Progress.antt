-- ===== src/Controller/Heat/Progress.antt =====
-- What a reconcileNormal that is through has done to the conditions.
pub mod Setup
pub mod Clean
use heat_operator.Base.{
  String, Bool, true, false, ◌&&◌, ◌||◌, Option, none, some, is_some, List, [], ◌∷◌, GoMap, ◌≡◌,
  refl, sym, ◌∙◌, arith, if◌then◌else◌,
}
use heat_operator.Api.Types.{HeatSpec, HeatStatus, ObjectMeta, RabbitMqConfig}
use heat_operator.Controller.Conditions.{
  CondOps, CondLaws, ready_message, CondType, Err, same_type, is_true, input_ready, memcached_ready,
  rabbit_mq_transport_url_ready, notification_bus_instance_ready, mariadb_account_ready, db_ready,
}
use heat_operator.Controller.Exec.{Exit, Returned, is_pending, ◌>>=◌, ◌>>◌}
use heat_operator.Controller.Exec.Rules.{Post, Triple, Triple-bind, Triple-call}
use heat_operator.Controller.Heat.Env.{Env, State, modify_status, Memcached}
use heat_operator.Controller.Heat.Inputs.{
  check_inputs, check_rbac, check_password_secret, check_application_credential, check_memcached,
}
use heat_operator.Controller.Heat.Transport.{
  ensure_transport_urls, ensure_notifications, first_transport_secret, first_notifications_secret,
  notifications_bus, transport_url_name, notifications_transport_url_name, ensure_transport_url,
  hold_transport, await_transport, transport_url_create_or_update,
}
use heat_operator.Controller.Heat.Database.{setup_database, ensure_db}

-- an early return with an error or a wait
abbrev pub NotDone : {S : Type 0} → Returned → S → Type 0
NotDone (result, err) s = is_some err || is_pending result ≡ true

-- the condition of either bus
abbrev pub bus_type : (messaging : Bool) → CondType
bus_type true = rabbit_mq_transport_url_ready
bus_type false = notification_bus_instance_ready

module _ {C : Type 0} (ops : CondOps C) (laws : CondLaws ops) (t : CondType) where
  -- the condition is true if it is among those marked so far
  abbrev Marked : {A : Type 0} → Bool → A → State C → Type 0
  Marked b _ s = b ≡ true → ops.get t s.conditions ≡ some is_true

  module _ (env : Env C) (meta : ObjectMeta) (spec : HeatSpec) where
    memcached-Marked :
        (b : Bool)
        → Triple
            (Marked b tt)
            (check_memcached ops env spec)
            (Marked (b || same_type t memcached_ready))
            NotDone
    unfolding check_memcached
    memcached-Marked b = record { at = λ s h. grind (arith, laws.get-mark_true) }

    pub inputs-Marked :
        Triple
          (Marked false tt)
          (check_inputs ops env spec)
          (Marked (same_type t input_ready || same_type t memcached_ready))
          NotDone
    unfolding check_inputs check_rbac check_password_secret check_application_credential
        check_memcached
    inputs-Marked = record { at = λ s h. grind (arith, laws.get-mark_true) }

    hold-Marked :
        (b messaging : Bool) (vars : GoMap String) (secret : String)
        → Triple
            (Marked b tt)
            (hold_transport ops env meta (bus_type messaging) vars secret)
            (Marked (b || same_type t (bus_type messaging)))
            NotDone
    unfolding hold_transport
    hold-Marked b true vars secret = record { at = λ s h. grind (arith, laws.get-mark_true) }
    hold-Marked b false vars secret = record { at = λ s h. grind (arith, laws.get-mark_true) }

    module _ (b messaging : Bool) (first : String → HeatStatus C → HeatStatus C)
        (keep : (secret : String) (st : HeatStatus C)
          → (first secret st).conditions ≡ st.conditions)
        (vars : GoMap String) where
      first-Marked :
          (secret : String)
          → Triple {R = Returned} (Marked b tt) (modify_status (first secret)) (Marked b) NotDone
      first-Marked secret = record { at = λ s h p. rw (keep secret s.status) (h p) }

      found-Marked :
          (secret : String)
          → Triple
              (Marked b tt)
              (modify_status (first secret) >>= λ _.
                hold_transport ops env meta (bus_type messaging) vars secret)
              (Marked (b || same_type t (bus_type messaging)))
              NotDone
      found-Marked secret =
          Triple-bind (first-Marked secret) (λ _. hold-Marked b messaging vars secret)

      await-Marked :
          (reply : String × Option Err)
          → Triple
              (Marked b tt)
              (await_transport ops env meta (bus_type messaging) first vars reply)
              (Marked (b || same_type t (bus_type messaging)))
              NotDone
      unfolding await_transport
      await-Marked (secret, some e) = record { at = λ s h. refl }
      await-Marked (secret, none) = record {
        at = λ s h. ground (arith, (found-Marked secret).at s h);
      }

      applied-Marked :
          (name : String) (bus : RabbitMqConfig)
          → Triple
              (Marked b tt)
              (transport_url_create_or_update ops env meta name bus)
              (Marked b)
              NotDone
      unfolding transport_url_create_or_update
      applied-Marked name bus = record { at = λ s h. h }

      transport-Marked :
          (name : String) (bus : RabbitMqConfig)
          → Triple
              (Marked b tt)
              (ensure_transport_url ops env meta (bus_type messaging) name bus first vars)
              (Marked (b || same_type t (bus_type messaging)))
              NotDone
      unfolding ensure_transport_url
      transport-Marked name bus = Triple-bind (applied-Marked name bus) await-Marked

    pub database-Marked :
        (b : Bool)
        → Triple
            (Marked b tt)
            (setup_database ops env spec)
            (Marked (b || (same_type t mariadb_account_ready || same_type t db_ready)))
            NotDone
    unfolding setup_database
    database-Marked b = record { at = λ s h. grind (arith, laws.get-mark_true) }

    notifications-Marked :
        (b : Bool) (transport : String) (vars : GoMap String) (bus : Option RabbitMqConfig)
        → same_type t notification_bus_instance_ready ≡ false
        → Triple
            (Marked b tt)
            (ensure_notifications ops env meta transport vars bus)
            (Marked b)
            NotDone
    unfolding ensure_notifications
    notifications-Marked b transport vars none h = record {
      at = λ s k. ground (arith, laws.get-remove t notification_bus_instance_ready s.conditions);
    }
    notifications-Marked b transport vars (some bus) h =
        Triple-bind
          (transport-Marked b false first_notifications_secret (λ secret st. refl) vars
            (notifications_transport_url_name meta.name) bus)
          (λ r. record { at = λ s k. ground (arith, k) })

    -- After both buses: the condition of the messaging bus is true too.
    pub transports-Marked :
        (b : Bool) (vars : GoMap String)
        → same_type t notification_bus_instance_ready ≡ false
        → Triple
            (Marked b tt)
            (ensure_transport_urls ops env meta spec vars)
            (Marked (b || same_type t rabbit_mq_transport_url_ready))
            NotDone
    unfolding ensure_transport_urls
    transports-Marked b vars h =
        Triple-bind
          (transport-Marked b true first_transport_secret (λ secret st. refl) vars
            (transport_url_name meta.name) spec.messaging_bus)
          (λ r.
            notifications-Marked (b || same_type t rabbit_mq_transport_url_ready) r.0 r.1
              (notifications_bus spec) h)
