-- ===== src/Controller/Heat/Normal.antt =====
-- reconcileNormal of internal/controller/heat_controller.go, composed of its parts.
use heat_operator.Api.Types.{HeatSpec, ObjectMeta}
use heat_operator.Controller.Conditions.{CondOps}
use heat_operator.Controller.Exec.{Exec, Returned, ◌>>=◌, ◌>>◌}
use heat_operator.Controller.Heat.Env.{Env, State}
use heat_operator.Controller.Heat.Inputs.{check_inputs}
use heat_operator.Controller.Heat.Transport.{ensure_transport_urls}
use heat_operator.Controller.Heat.Database.{setup_database}
use heat_operator.Controller.Heat.Secrets.{configure}
use heat_operator.Controller.Heat.Init.{initialise}
use heat_operator.Controller.Heat.Children.{deploy_children}
use heat_operator.Controller.Heat.Rotation.{finish_rotation}

module _ {C : Type 0} (ops : CondOps C) (env : Env C) (meta : ObjectMeta) (spec : HeatSpec) where
  unfoldable pub reconcile_normal : Exec Returned (State C) Returned
  reconcile_normal = do
    (vars, memcached) ← check_inputs ops env spec
    (transport, notifications, vars') ← ensure_transport_urls ops env meta spec vars
    setup_database ops env spec
    configure ops env meta spec vars' memcached transport notifications
    initialise ops env meta spec
    services_ready ← deploy_children ops env meta spec memcached transport notifications
    finish_rotation ops env meta spec transport notifications services_ready
