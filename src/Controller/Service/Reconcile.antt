-- ===== src/Controller/Service/Reconcile.antt =====
-- Reconcile of the services, with StatusConditionsList of the three types: the initial conditions,
-- the finalizer, the dispatch and the deferred function, as in Controller.Heat.Reconcile. The
-- condition for a Topology is set on a list that was copied into the status before, so that it has
-- no effect and is left out.
pub mod Laws
use heat_operator.Base.{
  String, Bool, true, false, ◌||◌, Option, none, some, List, [], ◌∷◌, map, if◌then◌else◌,
}
use heat_operator.Api.Types.{ObjectMeta}
use heat_operator.Heat.Names.{Component, engine, api, cfnapi}
use heat_operator.Controller.Conditions.{
  CondOps, CondType, Condition, Err, unknown_condition, init_reason, init_message,
  input_ready_init_message, no_message, is_not_found, ready, input_ready, service_config_ready,
  deployment_ready, tls_input_ready, create_service_ready, keystone_service_ready,
  keystone_endpoint_ready,
}
use heat_operator.Controller.Exec.{
  Exec, Exit, Returned, returned, empty_result, return, ◌>>=◌, ◌>>◌,
}
use heat_operator.Controller.Heat.Env.{Fetched, found, failed}
use heat_operator.Controller.Service.Env.{Env, State, Service, ServiceStatus, Log}
use heat_operator.Controller.Service.Delete.{reconcile_delete}
use heat_operator.Controller.Service.Normal.{reconcile_normal}

abbrev pub initial : CondType → Condition
initial t = unknown_condition t init_reason (init_message t)

-- StatusConditionsList of HeatEngine
abbrev pub engine_conditions_list : List Condition
engine_conditions_list =
    initial ready
    ∷ initial input_ready
    ∷ initial service_config_ready
    ∷ initial deployment_ready
    ∷ unknown_condition tls_input_ready init_reason input_ready_init_message
    ∷ []

-- StatusConditionsList of HeatAPI and HeatCfnAPI
abbrev pub api_conditions_list : List Condition
api_conditions_list =
    initial ready
    ∷ initial create_service_ready
    ∷ initial input_ready
    ∷ initial service_config_ready
    ∷ initial deployment_ready
    ∷ unknown_condition keystone_service_ready init_reason no_message
    ∷ unknown_condition keystone_endpoint_ready init_reason no_message
    ∷ unknown_condition tls_input_ready init_reason input_ready_init_message
    ∷ []

abbrev pub conditions_list_of : Component → List Condition
conditions_list_of engine = engine_conditions_list
conditions_list_of api = api_conditions_list
conditions_list_of cfnapi = api_conditions_list

-- A HeatEngine, HeatAPI or HeatCfnAPI.
pub record Instance (C : Type 0) : Type 0 where
  pub service : Service
  pub status : ServiceStatus C

-- What a reconcile leaves: its result, the instance that it patched if it came so far, and the calls.
pub record Outcome (C : Type 0) : Type 0 where
  pub result : Returned
  pub patched : Option (Instance C)
  pub log : Log

module _ {C : Type 0} where
  -- a body that leaves the finalizers alone
  abbrev pub with_finalizers :
      {R A : Type 0} → Exec R (State C) A → Exec R (List String × State C) A
  with_finalizers m (finalizers, s) = let (x, s') = m s in (x, (finalizers, s'))

module _ {C : Type 0} (ops : CondOps C) (env : Env C) where
  abbrev pub ensure_finalizer : ObjectMeta → List String → Bool × List String
  ensure_finalizer meta finalizers =
      if meta.deleting then (false, finalizers) else env.add_finalizer env.finalizer finalizers

  abbrev init_status : Service → State C → State C
  init_status svc s = record s {
    status = record (s.status) {
      conditions = ops.init (conditions_list_of svc.component) s.conditions;
      observed_generation = svc.meta.generation;
    };
  }

  unfoldable pub dispatch :
      Service → (initialised deleting : Bool) → Exec Returned (List String × State C) Returned
  dispatch svc true deleting = return (empty_result, none)
  dispatch svc false true = reconcile_delete ops env svc
  dispatch svc false false = with_finalizers (reconcile_normal ops env svc)

  unfoldable pub reconcile_body :
      Service → (is_new : Bool) → Exec Returned (List String × State C) Returned
  unfolding dispatch
  reconcile_body svc is_new (finalizers, s) =
      let (added, finalizers') = ensure_finalizer svc.meta finalizers in
      dispatch svc (added || is_new) svc.meta.deleting (finalizers', init_status svc s)

  -- the conditions that the deferred function leaves
  unfoldable pub deferred_conditions : (saved conditions : C) → C
  deferred_conditions saved conditions =
      let restored = ops.restore_last_transition_times conditions saved in
      if ops.is_unknown ready restored
      then ops.set_pointer (ops.mirror ready restored) restored
      else restored

  unfoldable pub patch_and_return :
      (patch : Instance C → Log → Option Err)
      → Service
      → (saved : C) → Exit Returned Returned × (List String × State C)
      → Outcome C
  unfolding deferred_conditions
  patch_and_return patch svc saved (x, (finalizers, s)) =
      let (result, err) = returned x in
      let instance' : Instance C = record {
        service = record svc { meta = record (svc.meta) { finalizers = finalizers } };
        status = record (s.status) { conditions = deferred_conditions saved s.conditions };
      } in
      record {
        result = (result, elim (patch instance' s.log) [ none ↦ err | some e ↦ some e ]);
        patched = some instance';
        log = s.log;
      }

  abbrev pub not_started : Option Err → Outcome C
  not_started err = record { result = (empty_result, err); patched = none; log = [] }

  unfoldable pub reconcile :
      (empty : C)
      → (patch : Instance C → Log → Option Err) → (new_helper : Option Err) → Fetched (Instance C)
      → Outcome C
  unfolding reconcile_body patch_and_return
  reconcile empty patch new_helper (failed e) =
      not_started (if is_not_found e then none else some e)
  reconcile empty patch (some e) (found instance) = not_started (some e)
  reconcile empty patch none (found instance) =
      let conditions = instance.status.conditions in
      let is_new = ops.is_nil conditions in
      patch_and_return patch instance.service (if is_new then empty else conditions) (
        reconcile_body instance.service is_new
          (instance.service.meta.finalizers, record { status = instance.status; log = [] }))
