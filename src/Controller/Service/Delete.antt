-- ===== src/Controller/Service/Delete.antt =====
-- reconcileDelete of the services. The state has the finalizers of the instance beside the state of
-- the reconciler. HeatEngine has nothing with Keystone.
pub mod Laws
use heat_operator.Base.{String, Bool, Option, none, some, List, if◌then◌else◌}
use heat_operator.Api.Types.{ObjectMeta}
use heat_operator.Heat.Names.{Component, engine, api, cfnapi}
use heat_operator.Controller.Conditions.{CondOps, Err, is_not_found}
use heat_operator.Controller.Exec.{
  Exec, Exit, next, stop, Returned, empty_result, pure, return, when, ◌>>=◌, ◌>>◌,
}
use heat_operator.Controller.Service.Env.{
  Env, State, Service, Call, Log, keystone_endpoint_read, keystone_endpoint_updated,
  keystone_service_read, keystone_service_updated, topology_released, ask, get_status,
}
use heat_operator.Controller.Service.Endpoints.{api_kind, cfnapi_kind}

-- `if err != nil && !IsNotFound(err) { return ctrl.Result{}, err }`
abbrev pub return_unless_found : {C : Type 0} → Option Err → Exec Returned (State C) (Unit {0})
return_unless_found none = pure tt
return_unless_found (some e) = if is_not_found e then pure tt else return (empty_result, some e)

module _ {C : Type 0} (ops : CondOps C) (env : Env C) (svc : Service) where
  open svc use {meta, spec}

  -- The finalizer of an object that was read with this error: taken off, and the object updated, if
  -- the object is there and has it.
  unfoldable pub drop_from :
      Option Err
      → (has_finalizer : Log → Bool) → (Option Err → Call)
      → (Log → Option Err)
      → Exec Returned (State C) (Unit {0})
  drop_from (some e) has_finalizer entry update = pure tt
  drop_from none has_finalizer entry update = do
    has ← (λ s. (next (has_finalizer s.log), s))
    when has (do err ← ask entry update; return_unless_found err)

  unfoldable pub release_endpoint : String → Exec Returned (State C) (Unit {0})
  unfolding drop_from
  release_endpoint name = do
    err ← ask (keystone_endpoint_read name) (env.get_keystone_endpoint name)
    return_unless_found err
    drop_from err (env.endpoint_has_finalizer name) (keystone_endpoint_updated name)
        (env.update_keystone_endpoint name)

  unfoldable pub release_service : String → Exec Returned (State C) (Unit {0})
  unfolding drop_from
  release_service name = do
    err ← ask (keystone_service_read name) (env.get_keystone_service name)
    return_unless_found err
    drop_from err (env.service_has_finalizer name) (keystone_service_updated name)
        (env.update_keystone_service name)

  -- The loop over keystoneServices, which has one entry.
  unfoldable pub release_keystone : String → Exec Returned (State C) (Unit {0})
  unfolding release_endpoint release_service
  release_keystone name = do release_endpoint name; release_service name

  abbrev pub release_keystone_of : Component → Exec Returned (State C) (Unit {0})
  release_keystone_of engine = pure tt
  release_keystone_of api = release_keystone api_kind.keystone_name
  release_keystone_of cfnapi = release_keystone cfnapi_kind.keystone_name

  -- topologyv1.EnsureDeletedTopologyRef: only its error is looked at
  unfoldable pub release_topology : Exec Returned (State C) (Unit {0})
  release_topology = do
    status ← get_status
    let last = status.last_applied_topology
    (result, err) ←
        ask (λ (result, err). topology_released last err) (env.delete_topology_ref last meta.name)
    elim err [ none ↦ pure tt | some e ↦ return (result, some e) ]

  unfoldable pub release_everything : Exec Returned (State C) Returned
  unfolding release_keystone release_topology
  release_everything = do
    release_keystone_of svc.component
    release_topology
    pure (empty_result, none)

  -- The operator's own finalizer goes last, and only where nothing has returned before.
  abbrev pub drop_finalizer : Exit Returned Returned → List String → List String
  drop_finalizer (next r) finalizers = env.remove_finalizer env.finalizer finalizers
  drop_finalizer (stop r) finalizers = finalizers

  unfoldable pub reconcile_delete : Exec Returned (List String × State C) Returned
  unfolding release_everything
  reconcile_delete (finalizers, s) =
      let (x, s') = release_everything s in (x, (drop_finalizer x finalizers, s'))
