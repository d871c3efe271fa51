-- ===== src/Controller/Service/Safety/Init.antt =====
-- reconcileInit, ensureTopology and the lookup of Memcached keep the inputs of the service.
use heat_operator.Base.{String, [], GoMap, arith, if◌then◌else◌}
use heat_operator.Heat.Names.{Component, engine, api, cfnapi}
use heat_operator.Heat.Volumes.{internal, public}
use heat_operator.Controller.Conditions.{CondOps}
use heat_operator.Controller.Exec.Rules.{
  Triple, Triple-bind, Triple-call, Triple-return_unless_done,
}
use heat_operator.Controller.Service.Env.{Env, State, Service}
use heat_operator.Controller.Service.Endpoints.{
  ApiKind, api_kind, cfnapi_kind, exposed, range_order, expose_all, reconcile_init,
  reconcile_init_of, initialise,
}
use heat_operator.Controller.Service.Topology.{ensure_topology, topology_done, handle_topology}
use heat_operator.Controller.Service.Rollout.{find_memcached}
use heat_operator.Controller.Service.Safety.Phases.{
  Safe, Provided, expose-Provided, register-Provided,
}

module _ {C : Type 0} (ops : CondOps C) (env : Env C) (svc : Service) (before : String) where
  abbrev Kept : {A : Type 0} → A → State C → Type 0
  Kept a s = Provided ops env svc before a s

  abbrev Left : {A : Type 0} → A → State C → Type 0
  Left a s = Safe ops env svc before a s

  order-Kept : (kind : ApiKind) → Triple (Kept tt) (range_order ops env svc kind) Kept Kept
  unfolding range_order
  order-Kept kind = record { at = λ s h. h }

  exposed-Kept :
      (kind : ApiKind) (urls : GoMap String)
      → Triple (Kept tt) (exposed ops env svc kind urls) Kept Kept
  unfolding exposed
  exposed-Kept kind urls = record { at = λ s h. h }

  expose_all-Kept :
      (kind : ApiKind) (labels : GoMap String)
      → Triple (Kept tt) (expose_all ops env svc kind labels) Kept Kept
  unfolding expose_all
  expose_all-Kept kind labels = Triple-bind (order-Kept kind) (λ first.
      Triple-bind
        (expose-Provided ops env svc before kind labels (if first then public else internal) [])
        (λ urls.
          Triple-bind
            (expose-Provided ops env svc before kind labels (if first then internal else public)
              urls)
            (λ urls'. exposed-Kept kind urls')))

  init-Kept :
      (kind : ApiKind) (labels : GoMap String)
      → Triple (Kept tt) (reconcile_init ops env svc kind labels) Kept Kept
  unfolding reconcile_init
  init-Kept kind labels =
      Triple-bind (expose_all-Kept kind labels)
        (λ urls. register-Provided ops env svc before kind urls)

  init_of-Kept :
      (c : Component) (labels : GoMap String)
      → Triple (Kept tt) (reconcile_init_of ops env svc c labels) Kept Kept
  init_of-Kept engine labels = record { at = λ s h. h }
  init_of-Kept api labels = init-Kept api_kind labels
  init_of-Kept cfnapi labels = init-Kept cfnapi_kind labels

  pub initialise-Kept :
      (labels : GoMap String) → Triple (Kept tt) (initialise ops env svc labels) Kept Left
  unfolding initialise
  initialise-Kept labels =
      Triple-bind (Triple-call (init_of-Kept svc.component labels))
        (λ r. Triple-return_unless_done r (λ s h. h.0) (λ s h. h))

  pub topology-Kept : Triple (Kept tt) (handle_topology ops env svc) Kept Left
  unfolding handle_topology ensure_topology topology_done
  topology-Kept = record { at = λ s h. ground arith }

  pub memcached-Kept : Triple (Kept tt) (find_memcached ops env svc) Kept Left
  unfolding find_memcached
  memcached-Kept = record { at = λ s h. ground arith }
