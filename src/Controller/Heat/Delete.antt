-- ===== src/Controller/Heat/Delete.antt =====
-- reconcileDelete of internal/controller/heat_controller.go. Its state has the finalizers of the
-- Heat resource beside the state of the reconciler.
pub mod Released
pub mod Laws
use heat_operator.Base.{String, Bool, Option, none, some, List, [], ◌∷◌, ◌++◌, if◌then◌else◌}
use heat_operator.Api.Types.{HeatSpec, ObjectMeta}
use heat_operator.Heat.Names.{ac_consumer_finalizer, transport_consumer_finalizer}
use heat_operator.Controller.Conditions.{CondOps, Err, is_not_found}
use heat_operator.Controller.Exec.{
  Exec, Exit, next, stop, Returned, empty_result, pure, return, ◌>>=◌, ◌>>◌,
}
use heat_operator.Controller.Heat.Env.{
  Env, State, Fetched, found, failed, get_database, delete_db_finalizer, get_transport_url, ask,
  get_status,
}
use heat_operator.Controller.Heat.Transport.{
  return_if_err, transport_url_name, notifications_transport_url_name,
}
use heat_operator.Controller.Heat.Rotation.{remove_consumer, prune_consumers}

module _ {C : Type 0} (ops : CondOps C) (env : Env C) (meta : ObjectMeta) (spec : HeatSpec) where
  -- The finalizer of the database, if there is a database.
  unfoldable pub release_database : Exec Returned (State C) (Unit {0})
  release_database = do
    err ← ask get_database (env.get_database spec.database_account)
    elim err [
      | none ↦ (do deleted ← ask delete_db_finalizer env.delete_db_finalizer; return_if_err deleted)
      | some e ↦ if is_not_found e then pure tt else return (empty_result, some e)
    ]

  -- `for _, secretName := range names { RemoveSecretConsumerFinalizer(...) }`
  unfoldable pub release_all : String → List String → Exec Returned (State C) (Unit {0})
  unfolding remove_consumer
  release_all finalizer [] = pure tt
  release_all finalizer (name ∷ names) = do
    remove_consumer ops env meta spec name finalizer
    release_all finalizer names

  -- The secret in the status of a TransportURL, appended to the names so far.
  unfoldable pub append_reply : Fetched String → List String → Exec Returned (State C) (List String)
  append_reply (found secret) names = pure (names ++ secret ∷ [])
  append_reply (failed e) names =
      if is_not_found e then pure names else return (empty_result, some e)

  unfoldable pub append_secret : String → List String → Exec Returned (State C) (List String)
  unfolding append_reply
  append_secret tu_name names = do
    reply ← ask (get_transport_url tu_name) (env.get_transport_url tu_name)
    append_reply reply names

  unfoldable pub release_application_credentials : Exec Returned (State C) (Unit {0})
  unfolding release_all
  release_application_credentials = do
    status ← get_status
    release_all ac_consumer_finalizer
        (status.application_credential_secret ∷ spec.application_credential_secret ∷ [])

  unfoldable pub release_transports : Exec Returned (State C) (Unit {0})
  unfolding append_secret release_all
  release_transports = do
    status ← get_status
    let known = status.transport_url_secret ∷ status.notifications_transport_url_secret ∷ []
    names ← append_secret (transport_url_name meta.name) known
    names' ← append_secret (notifications_transport_url_name meta.name) names
    release_all transport_consumer_finalizer names'

  unfoldable pub release_stranded : Exec Returned (State C) (Unit {0})
  unfolding prune_consumers
  release_stranded = do
    prune_consumers ops env meta spec transport_consumer_finalizer []
    prune_consumers ops env meta spec ac_consumer_finalizer []

  unfoldable pub release_everything : Exec Returned (State C) Returned
  unfolding release_database release_application_credentials release_transports release_stranded
  release_everything = do
    release_database
    release_application_credentials
    release_transports
    release_stranded
    pure (empty_result, none)

  -- The operator's own finalizer goes last, and only where nothing has returned before.
  abbrev pub drop_finalizer : Exit Returned Returned → List String → List String
  drop_finalizer (next r) finalizers = env.remove_finalizer env.finalizer finalizers
  drop_finalizer (stop r) finalizers = finalizers

  unfoldable pub reconcile_delete : Exec Returned (List String × State C) Returned
  unfolding release_everything
  reconcile_delete (finalizers, s) =
      let (x, s') = release_everything s in (x, (drop_finalizer x finalizers, s'))
