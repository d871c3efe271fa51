-- ===== src/Controller/Heat/Reconcile/Laws.antt =====
-- The first passes of a Heat resource, and the rotation's safety for a whole reconcile.
use heat_operator.Base.{
  String, Bool, true, false, ◌||◌, Option, none, some, List, [], ◌∷◌, ◌≡◌, refl, sym, ◌∙◌, arith,
}
use heat_operator.Api.Types.{HeatSpec, ObjectMeta, Opaque}
use heat_operator.Controller.Conditions.{CondOps, Err}
use heat_operator.Controller.Heat.Env.{Env, State, Log, found}
use heat_operator.Controller.Heat.Safety.{IsSafe}
use heat_operator.Controller.Heat.Safety.Release.{reconcile_normal-IsSafe}
use heat_operator.Controller.Heat.Reconcile.{
  Instance, ensure_finalizer, verify_status_conditions, init_status, reconcile_body, dispatch,
  patch_and_return, reconcile,
}

module _ {C : Type 0} (ops : CondOps C) (env : Env C) where
  -- Before the calls to the cluster the resource has its conditions and the operator's finalizer.
  abbrev pub IsPrepared : Instance C → Type 0
  IsPrepared instance =
      (ops.is_nil instance.status.conditions ≡ false)
      × (instance.meta.deleting ≡ false
          → (env.add_finalizer env.finalizer instance.meta.finalizers).0 ≡ false)

  abbrev pub has_calls : Log C → Bool
  has_calls [] = false
  has_calls (call ∷ log) = true

  module _ (meta : ObjectMeta) (spec : HeatSpec) (finalizers : List String) (s : State C) where
    dispatch-silent :
        (initialised deleting : Bool)
        → has_calls s.log ≡ false
        → has_calls (dispatch ops env meta spec initialised deleting (finalizers, s)).1.1.log ≡ true
        → initialised ≡ false
    unfolding dispatch
    dispatch-silent true deleting h k = sym k ∙ h
    dispatch-silent false deleting h k = refl

    dispatch-IsSafe :
        (initialised deleting : Bool)
        → deleting ≡ false
        → IsSafe spec.application_credential_secret s.log
        → IsSafe spec.application_credential_secret
            (dispatch ops env meta spec initialised deleting (finalizers, s)).1.1.log
    unfolding dispatch
    dispatch-IsSafe true deleting h safe = safe
    dispatch-IsSafe false true h safe = ground arith
    dispatch-IsSafe false false h safe = reconcile_normal-IsSafe ops env meta spec s safe

  module _ (empty : C) (patch : Instance C → Log C → Option Err) (keystone : Option Opaque) where
    abbrev started : Instance C → State C
    started instance =
        init_status ops env instance.meta
          (record { status = instance.status; keystone_api = keystone; log = [] })

    -- A reconcile that makes any call to the cluster works on a resource that has conditions
    -- already and, unless it is being deleted, needs no finalizer: a new resource is only
    -- initialised and patched.
    pub reconcile-IsPrepared :
        (instance : Instance C)
        → has_calls (reconcile ops env empty patch keystone none (found instance)).log ≡ true
        → IsPrepared instance
    unfolding reconcile verify_status_conditions reconcile_body patch_and_return
    reconcile-IsPrepared instance h = prepared (
        dispatch-silent instance.meta instance.spec
          (ensure_finalizer ops env instance.meta instance.meta.finalizers).1 (started instance)
          ((ensure_finalizer ops env instance.meta instance.meta.finalizers).0
            || (verify_status_conditions ops env empty instance.status.conditions).0)
          instance.meta.deleting refl h)
      where
        prepared :
            (ensure_finalizer ops env instance.meta instance.meta.finalizers).0
                || (verify_status_conditions ops env empty instance.status.conditions).0
              ≡ false
            → IsPrepared instance
        prepared h = ground arith

    -- A reconcile of a resource that is not being deleted is safe in the sense of
    -- `reconcile_normal-IsSafe`, whatever the resource is.
    pub reconcile-IsSafe :
        (new_helper : Option Err) (instance : Instance C)
        → instance.meta.deleting ≡ false
        → IsSafe instance.spec.application_credential_secret
            (reconcile ops env empty patch keystone new_helper (found instance)).log
    unfolding reconcile verify_status_conditions reconcile_body patch_and_return
    reconcile-IsSafe (some e) instance h = tt
    reconcile-IsSafe none instance h =
        dispatch-IsSafe instance.meta instance.spec
          (ensure_finalizer ops env instance.meta instance.meta.finalizers).1 (started instance)
          ((ensure_finalizer ops env instance.meta instance.meta.finalizers).0
            || (verify_status_conditions ops env empty instance.status.conditions).0)
          instance.meta.deleting h tt
