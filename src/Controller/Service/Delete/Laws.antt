-- ===== src/Controller/Service/Delete/Laws.antt =====
-- What a finished deletion of a service has released, and that a failed one keeps the finalizer.
use heat_operator.Base.{
  String, Bool, true, false, not, ◌||◌, ◌&&◌, ◌==◌, Option, none, some, is_some, List, [], ◌∷◌,
  eq_refl, ◌≡◌, refl, ◌⊎◌, inl, inr, arith,
}
use heat_operator.Api.Types.{TopoRef}
use heat_operator.Heat.Names.{Component, engine, api, cfnapi}
use heat_operator.Controller.Conditions.{CondOps, Err, is_not_found}
use heat_operator.Controller.Exec.{Exit, next, stop, returned, Returned, empty_result}
use heat_operator.Controller.Exec.Rules.{Post, Triple, Triple-bind}
use heat_operator.Controller.Service.Env.{
  Env, State, Service, Call, Log, keystone_endpoint_read, keystone_endpoint_updated,
  keystone_service_read, keystone_service_updated, topology_released,
}
use heat_operator.Controller.Service.Endpoints.{api_kind, cfnapi_kind}
use heat_operator.Controller.Service.Delete.{
  drop_from, release_endpoint, release_service, release_keystone, release_keystone_of,
  release_topology, release_everything, drop_finalizer, reconcile_delete,
}

abbrev is_gone : Option Err → Bool
is_gone none = true
is_gone (some e) = is_not_found e

-- absent, or there without a finalizer of the operator
abbrev needs_nothing : Option Err → (has_finalizer : Bool) → Bool
needs_nothing none has_finalizer = not has_finalizer
needs_nothing (some e) has_finalizer = is_not_found e

abbrev pub same_ref : Option TopoRef → Option TopoRef → Bool
same_ref none none = true
same_ref (some r) (some r') = r.name == r'.name && r.namespace == r'.namespace
same_ref _ _ = false

same_ref_refl : (r : Option TopoRef) → same_ref r r ≡ true
same_ref_refl none = refl
same_ref_refl (some r) = ground (arith, eq_refl r.name, eq_refl r.namespace)

abbrev settles_topology : Option TopoRef → Call → Bool
settles_topology last (topology_released r none) = same_ref r last
settles_topology last _ = false

-- This Topology, and no other, is released.
abbrev pub topology_settled : Option TopoRef → Log → Bool
topology_settled last [] = false
topology_settled last (call ∷ log) = settles_topology last call || topology_settled last log

module _ {C : Type 0} (ops : CondOps C) (env : Env C) (svc : Service) where
  abbrev settles_endpoint : String → Call → Log → Bool
  settles_endpoint name (keystone_endpoint_read n err) log =
      n == name
      && needs_nothing err (env.endpoint_has_finalizer name (keystone_endpoint_read n err ∷ log))
  settles_endpoint name (keystone_endpoint_updated n err) log = n == name && is_gone err
  settles_endpoint name _ log = false

  -- The KeystoneEndpoint is gone, or has no finalizer of the operator.
  abbrev pub endpoint_settled : String → Log → Bool
  endpoint_settled name [] = false
  endpoint_settled name (call ∷ log) = settles_endpoint name call log || endpoint_settled name log

  abbrev settles_service : String → Call → Log → Bool
  settles_service name (keystone_service_read n err) log =
      n == name
      && needs_nothing err (env.service_has_finalizer name (keystone_service_read n err ∷ log))
  settles_service name (keystone_service_updated n err) log = n == name && is_gone err
  settles_service name _ log = false

  -- The KeystoneService is gone, or has no finalizer of the operator.
  abbrev pub service_settled : String → Log → Bool
  service_settled name [] = false
  service_settled name (call ∷ log) = settles_service name call log || service_settled name log

  abbrev KeystoneSettled : Component → Log → Type 0
  KeystoneSettled engine log = Unit {0}
  KeystoneSettled api log =
      (endpoint_settled api_kind.keystone_name log ≡ true)
      × (service_settled api_kind.keystone_name log ≡ true)
  KeystoneSettled cfnapi log =
      (endpoint_settled cfnapi_kind.keystone_name log ≡ true)
      × (service_settled cfnapi_kind.keystone_name log ≡ true)

  abbrev Fails : Returned → State C → Type 0
  Fails (result, err) s = is_some err ≡ true

  -- Nothing before the release of the Topology changes which one was applied last.
  module _ (last : Option TopoRef) where
    abbrev Applied : State C → Type 0
    Applied s = s.status.last_applied_topology ≡ last

    endpoint-Settled :
        (name : String)
        → Triple Applied
            (release_endpoint ops env svc name)
            (λ _ s. Applied s × (endpoint_settled name s.log ≡ true))
            Fails
    unfolding release_endpoint drop_from
    endpoint-Settled name = record { at = λ s h. ground (arith, h, eq_refl name) }

    service-Settled :
        (name : String)
        → Triple
            (λ s. Applied s × (endpoint_settled name s.log ≡ true))
            (release_service ops env svc name)
            (λ _ s.
              Applied s
              × ((endpoint_settled name s.log ≡ true) × (service_settled name s.log ≡ true)))
            Fails
    unfolding release_service drop_from
    service-Settled name = record { at = λ s h. ground (arith, h.0, h.1, eq_refl name) }

    keystone-Settled :
        (c : Component)
        → Triple Applied
            (release_keystone_of ops env svc c)
            (λ _ s. Applied s × KeystoneSettled c s.log)
            Fails
    unfolding release_keystone
    keystone-Settled engine = record { at = λ s h. (h, tt) }
    keystone-Settled api =
        Triple-bind (endpoint-Settled api_kind.keystone_name)
          (λ _. service-Settled api_kind.keystone_name)
    keystone-Settled cfnapi =
        Triple-bind (endpoint-Settled cfnapi_kind.keystone_name)
          (λ _. service-Settled cfnapi_kind.keystone_name)

    topology-Settled :
        (c : Component)
        → Triple
            (λ s. Applied s × KeystoneSettled c s.log)
            (release_topology ops env svc)
            (λ _ s. KeystoneSettled c s.log × (topology_settled last s.log ≡ true))
            Fails
    unfolding release_topology
    topology-Settled engine = record { at = λ s h. ground (arith, h.0, same_ref_refl last) }
    topology-Settled api = record { at = λ s h. ground (arith, h.0, same_ref_refl last) }
    topology-Settled cfnapi = record { at = λ s h. ground (arith, h.0, same_ref_refl last) }

    -- a successful end, with everything released
    abbrev Released : Returned → State C → Type 0
    Released r s =
        (r ≡ (empty_result, none))
        × KeystoneSettled svc.component s.log
        × (topology_settled last s.log ≡ true)

    everything-Released : Triple Applied (release_everything ops env svc) Released Fails
    unfolding release_everything
    everything-Released = Triple-bind (keystone-Settled svc.component) (λ _.
        Triple-bind (topology-Settled svc.component) (λ _. record { at = λ s h. (refl, h.0, h.1) }))

    -- Everything is released and the operator's own finalizer is gone, or there is an error and
    -- the finalizers are as they were.
    abbrev pub Finished : List String → Exit Returned Returned × (List String × State C) → Type 0
    Finished finalizers (x, (finalizers', s)) =
        (Released (returned x) s × (finalizers' ≡ env.remove_finalizer env.finalizer finalizers))
        ⊎ (Fails (returned x) s × (finalizers' ≡ finalizers))

    finished :
        (finalizers : List String) (x : Exit Returned Returned × State C)
        → Post Released Fails x
        → Finished finalizers (x.0, (drop_finalizer ops env svc x.0 finalizers, x.1))
    finished finalizers (next r, s) h = inl (h, refl)
    finished finalizers (stop r, s) h = inr (h, refl)

  -- reconcileDelete of a service, whatever the cluster replies: either it ends without an error, the
  -- Topology that the status names as the last applied is released, for the two APIs the
  -- KeystoneEndpoint and the KeystoneService are gone or have no finalizer of the operator, and then
  -- the operator's finalizer is removed from the instance; or it returns an error, and the
  -- finalizers are left as they were.
  pub reconcile_delete-Finished :
      (finalizers : List String) (s : State C)
      → Finished s.status.last_applied_topology finalizers
          (reconcile_delete ops env svc (finalizers, s))
  unfolding reconcile_delete
  reconcile_delete-Finished finalizers s =
      let last = s.status.last_applied_topology in
      finished last finalizers (release_everything ops env svc s)
        ((everything-Released last).at s refl)
