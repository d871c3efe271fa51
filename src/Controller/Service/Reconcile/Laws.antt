-- ===== src/Controller/Service/Reconcile/Laws.antt =====
-- The first passes of a service's instance, and what a whole reconcile reports to the parent.
use heat_operator.Base.{
  ◌⊎◌, inl, String, Bool, true, false, ◌||◌, Option, none, some, List, [], ◌∷◌, ◌≡◌, refl, sym, ◌∙◌,
  inl, arith,
}
use heat_operator.Heat.Names.{Component, engine, api, cfnapi}
use heat_operator.Controller.Conditions.{CondOps, Err}
use heat_operator.Controller.Exec.{Returned}
use heat_operator.Controller.Exec.Rules.{Post-end, Triple, Triple-bind}
use heat_operator.Controller.Heat.Env.{found}
use heat_operator.Controller.Service.Env.{Env, State, Service, Log}
use heat_operator.Controller.Service.Delete.{
  drop_from, release_endpoint, release_service, release_keystone, release_keystone_of,
  release_topology, release_everything, reconcile_delete,
}
use heat_operator.Controller.Service.Safety.{IsSafe, IsConfirmed}
use heat_operator.Controller.Service.Safety.Normal.{reconcile_normal-IsConfirmed}
use heat_operator.Controller.Service.Reconcile.{
  Instance, Outcome, ensure_finalizer, init_status, reconcile_body, dispatch, patch_and_return,
  reconcile,
}

module _ {C : Type 0} (ops : CondOps C) (env : Env C) where
  -- The instance has its conditions and the operator's finalizer.
  abbrev pub StartsPrepared : Instance C → Type 0
  StartsPrepared instance =
      (ops.is_nil instance.status.conditions ≡ false)
      × ((instance.service.meta.deleting ≡ true)
          ⊎ ((env.add_finalizer env.finalizer instance.service.meta.finalizers).0 ≡ false))

  abbrev pub has_calls : Log → Bool
  has_calls [] = false
  has_calls (call ∷ log) = true

  module _ (svc : Service) (before : String) where
    abbrev Quiet : {A : Type 0} → A → State C → Type 0
    Quiet _ s = IsSafe svc s.log × (s.applied_input_secret_hash ≡ before)

    keystone-Quiet :
        (c : Component) → Triple (Quiet tt) (release_keystone_of ops env svc c) Quiet Quiet
    unfolding release_keystone release_endpoint release_service drop_from
    keystone-Quiet engine = record { at = λ s h. h }
    keystone-Quiet api = record { at = λ s h. ground arith }
    keystone-Quiet cfnapi = record { at = λ s h. ground arith }

    topology-Quiet : Triple (Quiet tt) (release_topology ops env svc) Quiet Quiet
    unfolding release_topology
    topology-Quiet = record { at = λ s h. ground arith }

    everything-Quiet : Triple (Quiet tt) (release_everything ops env svc) Quiet Quiet
    unfolding release_everything
    everything-Quiet =
        Triple-bind (keystone-Quiet svc.component)
          (λ _. Triple-bind topology-Quiet (λ _. record { at = λ s h. h }))

  abbrev Reported : Service → String → State C → Type 0
  Reported svc before s = IsSafe svc s.log × IsConfirmed svc before s

  module _ (svc : Service) (finalizers : List String) (s : State C) where
    dispatch-Silent :
        (initialised deleting : Bool)
        → has_calls s.log ≡ false
        → has_calls (dispatch ops env svc initialised deleting (finalizers, s)).1.1.log ≡ true
        → initialised ≡ false
    unfolding dispatch
    dispatch-Silent true deleting h k = sym k ∙ h
    dispatch-Silent false deleting h k = refl

    dispatch-Reported :
        (initialised deleting : Bool)
        → IsSafe svc s.log
        → Reported svc s.applied_input_secret_hash
            (dispatch ops env svc initialised deleting (finalizers, s)).1.1
    unfolding dispatch reconcile_delete
    dispatch-Reported true deleting h = (h, inl refl)
    dispatch-Reported false true h =
        let q : Quiet svc s.applied_input_secret_hash tt (release_everything ops env svc s).1 =
          Post-end (Quiet svc s.applied_input_secret_hash {A = Returned})
            (release_everything ops env svc s)
            ((everything-Quiet svc s.applied_input_secret_hash).at s (h, refl)) in
        (q.0, inl q.1)
    dispatch-Reported false false h = reconcile_normal-IsConfirmed ops env svc s h

  module _ (empty : C) (patch : Instance C → Log → Option Err) where
    abbrev started : Instance C → State C
    started instance =
        init_status ops env instance.service (record { status = instance.status; log = [] })

    abbrev skips : Instance C → Bool
    skips instance =
        (ensure_finalizer ops env instance.service.meta instance.service.meta.finalizers).0
        || ops.is_nil instance.status.conditions

    -- A reconcile of a service's instance that makes any call to the cluster works on an instance
    -- that has conditions already and, unless it is being deleted, needs no finalizer: a new
    -- instance is only initialised and patched.
    pub reconcile-StartsPrepared :
        (instance : Instance C)
        → has_calls (reconcile ops env empty patch none (found instance)).log ≡ true
        → StartsPrepared instance
    unfolding reconcile reconcile_body patch_and_return
    reconcile-StartsPrepared instance h = prepared (
        dispatch-Silent instance.service
          (ensure_finalizer ops env instance.service.meta instance.service.meta.finalizers).1
          (started instance) (skips instance) instance.service.meta.deleting refl h)
      where
        prepared : skips instance ≡ false → StartsPrepared instance
        prepared h = ground arith

    abbrev pub ReportsPatched : Instance C → Option (Instance C) → Log → Type 0
    ReportsPatched instance none log = Unit {0}
    ReportsPatched instance (some instance') log =
        Reported instance.service instance.status.applied_input_secret_hash
          (record { status = instance'.status; log = log })

    abbrev pub ReportsOnly : Instance C → Outcome C → Type 0
    ReportsOnly instance outcome = ReportsPatched instance outcome.patched outcome.log

    -- A whole reconcile of a service's instance, also one that is being deleted: its calls are safe
    -- in the sense of `reconcile_normal-IsConfirmed`, and the instance that is patched has the
    -- AppliedInputSecretHash that it had before, or the hash that the parent wrote on it, and then
    -- the last call found the pods running with their inputs.
    pub reconcile-ReportsOnly :
        (new_helper : Option Err) (instance : Instance C)
        → ReportsOnly instance (reconcile ops env empty patch new_helper (found instance))
    unfolding reconcile reconcile_body patch_and_return
    reconcile-ReportsOnly (some e) instance = tt
    reconcile-ReportsOnly none instance =
        dispatch-Reported instance.service
          (ensure_finalizer ops env instance.service.meta instance.service.meta.finalizers).1
          (started instance) (skips instance) instance.service.meta.deleting tt
