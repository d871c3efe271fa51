-- ===== src/Controller/Heat/Reconcile.antt =====
-- Reconcile of internal/controller/heat_controller.go, with verifyStatusConditions and
-- StatusConditionsList of api/v1beta1/heat_types.go: the initial conditions, the finalizer, the
-- dispatch, and what the deferred function does with the status. Panics are not modelled.
pub mod Laws
use heat_operator.Base.{
  String, Bool, true, false, ◌&&◌, ◌||◌, Option, none, some, List, [], ◌∷◌, map, if◌then◌else◌,
}
use heat_operator.Api.Types.{HeatSpec, HeatStatus, ObjectMeta, Opaque}
use heat_operator.Controller.Conditions.{
  CondOps, CondType, Condition, Err, unknown_condition, init_reason, init_message, is_not_found,
  ready, db_ready, db_sync_ready, memcached_ready, rabbit_mq_transport_url_ready,
  notification_bus_instance_ready, input_ready, service_config_ready, heat_stack_domain_ready,
  heat_api_ready, heat_cfn_api_ready, heat_engine_ready, cron_job_ready, service_account_ready,
  role_ready, role_binding_ready,
}
use heat_operator.Controller.Exec.{
  Exec, Exit, Returned, returned, empty_result, return, when, ◌>>=◌, ◌>>◌,
}
use heat_operator.Controller.Heat.Env.{Env, State, Log, Fetched, found, failed}
use heat_operator.Controller.Heat.Delete.{reconcile_delete}
use heat_operator.Controller.Heat.Normal.{reconcile_normal}

abbrev pub status_conditions_list : List Condition
status_conditions_list =
    map (λ t. unknown_condition t init_reason (init_message t))
      (ready ∷ db_ready ∷ db_sync_ready ∷ memcached_ready ∷ rabbit_mq_transport_url_ready
        ∷ notification_bus_instance_ready ∷ input_ready ∷ service_config_ready
        ∷ heat_stack_domain_ready ∷ heat_api_ready ∷ heat_cfn_api_ready ∷ heat_engine_ready
        ∷ cron_job_ready ∷ service_account_ready ∷ role_ready ∷ role_binding_ready ∷ [])

-- A Heat resource.
pub record Instance (C : Type 0) : Type 0 where
  pub meta : ObjectMeta
  pub spec : HeatSpec
  pub status : HeatStatus C

-- What a reconcile leaves: its result, the instance that it patched if it came so far, and the
-- package variable and the calls.
pub record Outcome (C : Type 0) : Type 0 where
  pub result : Returned
  pub patched : Option (Instance C)
  pub keystone_api : Option Opaque
  pub log : Log C

module _ {C : Type 0} where
  -- a body that leaves the finalizers alone
  abbrev pub with_finalizers :
      {R A : Type 0} → Exec R (State C) A → Exec R (List String × State C) A
  with_finalizers m (finalizers, s) = let (x, s') = m s in (x, (finalizers, s'))

module _ {C : Type 0} (ops : CondOps C) (env : Env C) where
  -- (isNewInstance, savedConditions); `empty` is condition.Conditions{}
  unfoldable pub verify_status_conditions : (empty conditions : C) → Bool × C
  verify_status_conditions empty conditions =
      if ops.is_nil conditions then (true, empty) else (false, conditions)

  -- `DeletionTimestamp.IsZero() && AddFinalizer(...)`: whether it was added, and the finalizers
  abbrev pub ensure_finalizer : ObjectMeta → List String → Bool × List String
  ensure_finalizer meta finalizers =
      if meta.deleting then (false, finalizers) else env.add_finalizer env.finalizer finalizers

  abbrev pub init_status : ObjectMeta → State C → State C
  init_status meta s = record s {
    status = record (s.status) {
      conditions = ops.init status_conditions_list s.conditions;
      observed_generation = meta.generation;
    };
  }

  -- A resource that was only initialised is left for the next reconcile; others are deleted or
  -- reconciled.
  unfoldable pub dispatch :
      ObjectMeta
      → HeatSpec
      → (initialised deleting : Bool) → Exec Returned (List String × State C) Returned
  dispatch meta spec true deleting = return (empty_result, none)
  dispatch meta spec false true = reconcile_delete ops env meta spec
  dispatch meta spec false false = with_finalizers (reconcile_normal ops env meta spec)

  -- What follows the deferred function: an empty hash map is not told from nil.
  unfoldable pub reconcile_body :
      ObjectMeta → HeatSpec → (is_new : Bool) → Exec Returned (List String × State C) Returned
  unfolding dispatch
  reconcile_body meta spec is_new (finalizers, s) =
      let (added, finalizers') = ensure_finalizer meta finalizers in
      dispatch meta spec (added || is_new) meta.deleting (finalizers', init_status meta s)

  -- the conditions that the deferred function leaves
  unfoldable pub deferred_conditions : (saved conditions : C) → C
  deferred_conditions saved conditions =
      let restored = ops.restore_last_transition_times conditions saved in
      if ops.is_unknown ready restored
      then ops.set_pointer (ops.mirror ready restored) restored
      else restored

  -- The deferred function: the patch's error takes the place of the reconcile's.
  unfoldable pub patch_and_return :
      (patch : Instance C → Log C → Option Err)
      → Instance C
      → (saved : C) → Exit Returned Returned × (List String × State C)
      → Outcome C
  unfolding deferred_conditions
  patch_and_return patch instance saved (x, (finalizers, s)) =
      let (result, err) = returned x in
      let instance' : Instance C = record {
        meta = record (instance.meta) { finalizers = finalizers };
        spec = instance.spec;
        status = record (s.status) { conditions = deferred_conditions saved s.conditions };
      } in
      record {
        result = (result, elim (patch instance' s.log) [ none ↦ err | some e ↦ some e ]);
        patched = some instance';
        keystone_api = s.keystone_api;
        log = s.log;
      }

  abbrev pub not_started : Option Opaque → Option Err → Outcome C
  not_started keystone err = record {
    result = (empty_result, err);
    patched = none;
    keystone_api = keystone;
    log = [];
  }

  unfoldable pub reconcile :
      (empty : C)
      → (patch : Instance C → Log C → Option Err) → (keystone : Option Opaque)
      → (new_helper : Option Err) → Fetched (Instance C)
      → Outcome C
  unfolding verify_status_conditions reconcile_body patch_and_return
  reconcile empty patch keystone new_helper (failed e) =
      not_started keystone (if is_not_found e then none else some e)
  reconcile empty patch keystone (some e) (found instance) = not_started keystone (some e)
  reconcile empty patch keystone none (found instance) =
      let (is_new, saved) = verify_status_conditions empty instance.status.conditions in
      patch_and_return patch instance saved (
        reconcile_body instance.meta instance.spec is_new (
          instance.meta.finalizers,
          record { status = instance.status; keystone_api = keystone; log = [] },
        ))
