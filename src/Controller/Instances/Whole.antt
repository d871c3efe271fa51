-- ===== src/Controller/Instances/Whole.antt =====
-- Reconcile of the three services, each in the order of its own file, is the shared model at its
-- component.
use heat_operator.Base.{String, Bool, true, false, Option, none, some, List, [], ◌≡◌, refl, ap, sym}
use mathlib.Core.Path.{subst}
use heat_operator.Api.Types.{ObjectMeta}
use heat_operator.Heat.Names.{Component, engine, api, cfnapi}
use heat_operator.Heat.ChildSpec.{ChildSpec}
use heat_operator.Controller.Conditions.{CondOps, Err}
use heat_operator.Controller.Exec.{Exec, Exit, Returned}
use heat_operator.Controller.Heat.Env.{Fetched, found, failed}
use heat_operator.Controller.Service.Env.{Env, State, ServiceStatus, Log}
use heat_operator.Controller.Service.Reconcile.{
  Instance, Outcome, dispatch, reconcile_body, patch_and_return, reconcile,
}
use heat_operator.Controller.Service.Reconcile.Laws.{ReportsOnly, reconcile-ReportsOnly}
use heat_operator.Controller.Instances.{service_of, normal_lem, delete_lem}
use heat_operator.Controller.Engine.Reconcile.{
  engine_dispatch, engine_reconcile_body, engine_reconcile,
}
use heat_operator.Controller.HeatApi.{api_dispatch, api_reconcile_body, api_reconcile}
use heat_operator.Controller.CfnApi.{cfnapi_dispatch, cfnapi_reconcile_body, cfnapi_reconcile}

module _ {C : Type 0} (ops : CondOps C) (env : Env C) where
  abbrev dispatch_of :
      Component
      → ObjectMeta
      → ChildSpec
      → (initialised deleting : Bool) → Exec Returned (List String × State C) Returned
  dispatch_of engine = engine_dispatch ops env
  dispatch_of api = api_dispatch ops env
  dispatch_of cfnapi = cfnapi_dispatch ops env

  abbrev body_of :
      Component
      → ObjectMeta
      → ChildSpec
      → (is_new : Bool) → Exec Returned (List String × State C) Returned
  body_of engine = engine_reconcile_body ops env
  body_of api = api_reconcile_body ops env
  body_of cfnapi = cfnapi_reconcile_body ops env

  -- Reconcile, by the type of the resource
  abbrev pub reconcile_of :
      Component
      → (empty : C) → (patch : Instance C → Log → Option Err) → (new_helper : Option Err)
      → Fetched (ObjectMeta × ChildSpec × ServiceStatus C)
      → Outcome C
  reconcile_of engine = engine_reconcile ops env
  reconcile_of api = api_reconcile ops env
  reconcile_of cfnapi = cfnapi_reconcile ops env

  abbrev pub instance_of :
      Component → Fetched (ObjectMeta × ChildSpec × ServiceStatus C) → Fetched (Instance C)
  instance_of c (failed e) = failed e
  instance_of c (found (meta, spec, status)) =
      found (record { service = service_of ops env c meta spec; status = status })

  abbrev keeping :
      List String
      → Exit Returned Returned × State C
      → Exit Returned Returned × (List String × State C)
  keeping finalizers x = (x.0, (finalizers, x.1))

  dispatch_lem :
      (c : Component) (meta : ObjectMeta) (spec : ChildSpec) (initialised deleting : Bool)
      (finalizers : List String) (s : State C)
      → dispatch_of c meta spec initialised deleting (finalizers, s)
        ≡ dispatch ops env (service_of ops env c meta spec) initialised deleting (finalizers, s)
  unfolding dispatch engine_dispatch api_dispatch cfnapi_dispatch
  dispatch_lem engine meta spec true deleting finalizers s = refl
  dispatch_lem api meta spec true deleting finalizers s = refl
  dispatch_lem cfnapi meta spec true deleting finalizers s = refl
  dispatch_lem engine meta spec false true finalizers s =
      delete_lem ops env engine meta spec finalizers s
  dispatch_lem api meta spec false true finalizers s = delete_lem ops env api meta spec finalizers s
  dispatch_lem cfnapi meta spec false true finalizers s =
      delete_lem ops env cfnapi meta spec finalizers s
  dispatch_lem engine meta spec false false finalizers s =
      ap (keeping finalizers) (normal_lem ops env engine meta spec s)
  dispatch_lem api meta spec false false finalizers s =
      ap (keeping finalizers) (normal_lem ops env api meta spec s)
  dispatch_lem cfnapi meta spec false false finalizers s =
      ap (keeping finalizers) (normal_lem ops env cfnapi meta spec s)

  body_lem :
      (c : Component) (meta : ObjectMeta) (spec : ChildSpec) (is_new : Bool)
      (finalizers : List String) (s : State C)
      → body_of c meta spec is_new (finalizers, s)
        ≡ reconcile_body ops env (service_of ops env c meta spec) is_new (finalizers, s)
  unfolding reconcile_body engine_reconcile_body api_reconcile_body cfnapi_reconcile_body
  body_lem engine meta spec is_new finalizers s = dispatch_lem engine meta spec _ _ _ _
  body_lem api meta spec is_new finalizers s = dispatch_lem api meta spec _ _ _ _
  body_lem cfnapi meta spec is_new finalizers s = dispatch_lem cfnapi meta spec _ _ _ _

  -- Reconcile of each of the three services, written out in the order of its own file, is the shared
  -- model at its component: whatever the Get of the instance and the cluster reply, it returns the
  -- same, patches the same instance and makes the same calls.
  reconcile_agrees :
      (c : Component) (empty : C) (patch : Instance C → Log → Option Err) (new_helper : Option Err)
      (got : Fetched (ObjectMeta × ChildSpec × ServiceStatus C))
      → reconcile_of c empty patch new_helper got
        ≡ reconcile ops env empty patch new_helper (instance_of c got)
  unfolding reconcile engine_reconcile api_reconcile cfnapi_reconcile
  reconcile_agrees engine empty patch new_helper (failed e) = refl
  reconcile_agrees engine empty patch (some e) (found (meta, spec, status)) = refl
  reconcile_agrees engine empty patch none (found (meta, spec, status)) =
      ap (patch_and_return ops env patch (service_of ops env engine meta spec) _) (
        body_lem engine meta spec (ops.is_nil status.conditions) meta.finalizers
          (record { status = status; log = [] }))
  reconcile_agrees api empty patch new_helper (failed e) = refl
  reconcile_agrees api empty patch (some e) (found (meta, spec, status)) = refl
  reconcile_agrees api empty patch none (found (meta, spec, status)) =
      ap (patch_and_return ops env patch (service_of ops env api meta spec) _) (
        body_lem api meta spec (ops.is_nil status.conditions) meta.finalizers
          (record { status = status; log = [] }))
  reconcile_agrees cfnapi empty patch new_helper (failed e) = refl
  reconcile_agrees cfnapi empty patch (some e) (found (meta, spec, status)) = refl
  reconcile_agrees cfnapi empty patch none (found (meta, spec, status)) =
      ap (patch_and_return ops env patch (service_of ops env cfnapi meta spec) _) (
        body_lem cfnapi meta spec (ops.is_nil status.conditions) meta.finalizers
          (record { status = status; log = [] }))

  -- A whole Reconcile of a HeatEngine, a HeatAPI or a HeatCfnAPI as its own file writes it, also of
  -- one that is being deleted: its calls are in the order that `reconcile_normal-IsConfirmed`
  -- describes, and the instance that is patched has the AppliedInputSecretHash that it had before,
  -- or the hash that the parent wrote on it, and then the last call found the pods running with
  -- their inputs.
  pub instances-ReportsOnly :
      (c : Component) (empty : C) (patch : Instance C → Log → Option Err) (new_helper : Option Err)
      (meta : ObjectMeta) (spec : ChildSpec) (status : ServiceStatus C)
      → ReportsOnly ops env empty patch
          (record { service = service_of ops env c meta spec; status = status })
          (reconcile_of c empty patch new_helper (found (meta, spec, status)))
  instances-ReportsOnly c empty patch new_helper meta spec status =
      let instance : Instance C = record {
        service = service_of ops env c meta spec;
        status = status;
      } in
      subst (ReportsOnly ops env empty patch instance)
        (sym (reconcile_agrees c empty patch new_helper (found (meta, spec, status))))
        (reconcile-ReportsOnly ops env empty patch new_helper instance)
