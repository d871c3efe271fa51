-- ===== src/Examples/Runs.antt =====
-- The Heat reconciler on a concrete resource in a cluster that grants every request.
use heat_operator.Base.{lookup, none, some, [], ◌∷◌, ◌≡◌, ◌⊎◌, refl}
use heat_operator.Controller.Conditions.{is_true, db_ready}
use heat_operator.Controller.Heat.Env.{found}
use heat_operator.Controller.Heat.Inputs.{
  check_inputs, check_rbac, check_password_secret, check_application_credential, check_memcached,
}
use heat_operator.Controller.Heat.Transport.{ensure_transport_urls}
use heat_operator.Controller.Heat.Database.{setup_database}
use heat_operator.Controller.Heat.Secrets.{configure}
use heat_operator.Controller.Heat.Config.{validate_auth_encryption_key}
use heat_operator.Controller.Heat.Text.{trim_newline}
use heat_operator.Controller.Heat.Init.{initialise}
use heat_operator.Controller.Heat.Children.{deploy_children}
use heat_operator.Controller.Heat.Rotation.{finish_rotation}
use heat_operator.Controller.Heat.Normal.{reconcile_normal}
use heat_operator.Controller.Heat.Safety.{IsSafe}
use heat_operator.Controller.Heat.Safety.Release.{reconcile_normal-IsSafe}
use heat_operator.Controller.Heat.Progress.Clean.{reconcile_normal-settled}
use heat_operator.Controller.Heat.Delete.{reconcile_delete}
use heat_operator.Controller.Heat.Delete.Released.{fresh}
use heat_operator.Controller.Heat.Delete.Laws.{Deleted, KeptBack, reconcile_delete-Deleted}
use heat_operator.Controller.Heat.Reconcile.{Instance, reconcile}
use heat_operator.Controller.Heat.Reconcile.Laws.{
  IsPrepared, reconcile-IsPrepared, reconcile-IsSafe,
}
use heat_operator.Examples.Resource.{written, heat_meta}
use heat_operator.Examples.Cluster.{Table, table_ops, table_laws, granting, old_status, first_state}

reconcile_normal-IsSafe_example :
    IsSafe "ac-secret" (reconcile_normal table_ops granting heat_meta written first_state).1.log
reconcile_normal-IsSafe_example =
    reconcile_normal-IsSafe table_ops granting heat_meta written first_state tt

reconcile_normal-settled_example :
    (reconcile_normal table_ops granting heat_meta written first_state).1.conditions db_ready
    ≡ some is_true
unfolding reconcile_normal check_inputs check_rbac check_password_secret
    check_application_credential check_memcached ensure_transport_urls setup_database configure
    validate_auth_encryption_key trim_newline lookup initialise deploy_children finish_rotation
reconcile_normal-settled_example =
    reconcile_normal-settled table_ops table_laws db_ready refl granting heat_meta written
      first_state refl

reconcile_delete-Deleted_example :
    Deleted table_ops granting heat_meta written
      (fresh old_status none)
      ("openstack.org/heat" ∷ [])
      (reconcile_delete table_ops granting heat_meta written
        ("openstack.org/heat" ∷ [], fresh old_status none))
    ⊎ KeptBack table_ops granting heat_meta written ("openstack.org/heat" ∷ []) (
        reconcile_delete table_ops granting heat_meta written
          ("openstack.org/heat" ∷ [], fresh old_status none))
reconcile_delete-Deleted_example =
    reconcile_delete-Deleted table_ops granting heat_meta written old_status none
      ("openstack.org/heat" ∷ [])

abbrev heat_instance : Instance Table
heat_instance = record { meta = heat_meta; spec = written; status = old_status }

reconcile-IsPrepared_example : IsPrepared table_ops granting heat_instance
unfolding reconcile reconcile_normal check_inputs check_rbac check_password_secret
    check_application_credential check_memcached ensure_transport_urls setup_database configure
    validate_auth_encryption_key trim_newline lookup initialise deploy_children finish_rotation
reconcile-IsPrepared_example =
    reconcile-IsPrepared table_ops granting (λ t. none) (λ instance log. none) none heat_instance
      refl

reconcile-IsSafe_example :
    IsSafe "ac-secret"
      (reconcile table_ops granting
        (λ t. none)
        (λ instance log. none)
        none
        none
        (found heat_instance)).log
reconcile-IsSafe_example =
    reconcile-IsSafe table_ops granting (λ t. none) (λ instance log. none) none none heat_instance
      refl
