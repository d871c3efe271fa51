-- ===== src/Controller/Service/Watched/Normal.antt =====
-- Every phase of a service's reconcileNormal reads only what is watched.
use heat_operator.Base.{
  String, true, ◌⊎◌, inl, inr, Option, [], nonempty, GoMap, ◌≡◌, refl, arith, if◌then◌else◌,
}
use heat_operator.Api.Types.{Opaque}
use heat_operator.Heat.Names.{Component, engine, api, cfnapi}
use heat_operator.Heat.Volumes.{Endpoint, internal, public}
use heat_operator.Heat.Deployments.{Deployment}
use heat_operator.Controller.Conditions.{CondOps, Err}
use heat_operator.Controller.Exec.{Returned}
use heat_operator.Controller.Exec.Rules.{
  Triple, Triple-bind, Triple-call, Post-end, Triple-return_unless_done,
}
use heat_operator.Controller.Heat.Env.{Memcached}
use heat_operator.Controller.Service.Env.{Env, State, Service, Deployed}
use heat_operator.Controller.Service.Endpoints.{
  ApiKind, api_kind, cfnapi_kind, expose, exposed, range_order, expose_all, register,
  reconcile_init, reconcile_init_of, initialise,
}
use heat_operator.Controller.Service.Topology.{ensure_topology, topology_done, handle_topology}
use heat_operator.Controller.Service.Rollout.{
  service_labels, find_memcached, apply_deployment, observe, check_ready, count_ready, report_ready,
  roll_out,
}
use heat_operator.Controller.Service.Normal.{finish, reconcile_normal}
use heat_operator.Controller.Service.Watched.{AreCovered, topology_covered}
use heat_operator.Controller.Service.Watched.Phases.{inputs-Kept, tls-Kept, configure-Kept}

module _ {C : Type 0} (ops : CondOps C) (env : Env C) (svc : Service) where
  open svc use {meta, spec, component}

  abbrev Kept : {A : Type 0} → A → State C → Type 0
  Kept _ s = AreCovered svc s.log

  expose-Kept :
      (kind : ApiKind) (labels : GoMap String) (endpt : Endpoint) (urls : GoMap String)
      → Triple (Kept tt) (expose ops env svc kind labels endpt urls) Kept Kept
  unfolding expose
  expose-Kept kind labels endpt urls = record { at = λ s k. ground arith }

  register-Kept :
      (kind : ApiKind) (urls : GoMap String)
      → Triple (Kept tt) (register ops env svc kind urls) Kept Kept
  unfolding register
  register-Kept kind urls = record { at = λ s k. ground arith }

  order-Kept : (kind : ApiKind) → Triple (Kept tt) (range_order ops env svc kind) Kept Kept
  unfolding range_order
  order-Kept kind = record { at = λ s k. k }

  exposed-Kept :
      (kind : ApiKind) (urls : GoMap String)
      → Triple (Kept tt) (exposed ops env svc kind urls) Kept Kept
  unfolding exposed
  exposed-Kept kind urls = record { at = λ s k. k }

  init-Kept :
      (kind : ApiKind) (labels : GoMap String)
      → Triple (Kept tt) (reconcile_init ops env svc kind labels) Kept Kept
  unfolding reconcile_init expose_all
  init-Kept kind labels =
      Triple-bind
        (Triple-bind (order-Kept kind) (λ first.
          Triple-bind (expose-Kept kind labels (if first then public else internal) []) (λ urls.
            Triple-bind (expose-Kept kind labels (if first then internal else public) urls)
              (λ urls'. exposed-Kept kind urls'))))
        (λ urls. register-Kept kind urls)

  init_of-Kept :
      (c : Component) (labels : GoMap String)
      → Triple (Kept tt) (reconcile_init_of ops env svc c labels) Kept Kept
  init_of-Kept engine labels = record { at = λ s k. k }
  init_of-Kept api labels = init-Kept api_kind labels
  init_of-Kept cfnapi labels = init-Kept cfnapi_kind labels

  initialise-Kept :
      (labels : GoMap String) → Triple (Kept tt) (initialise ops env svc labels) Kept Kept
  unfolding initialise
  initialise-Kept labels =
      Triple-bind (Triple-call (init_of-Kept component labels))
        (λ r. Triple-return_unless_done r (λ s k. k) (λ s k. k))

  topology-Kept : Triple (Kept tt) (handle_topology ops env svc) Kept Kept
  unfolding handle_topology ensure_topology topology_done
  topology-Kept = record {
    at = λ s k. ground (arith, topology_covered svc spec.template.topology_ref refl);
  }

  memcached-Kept : Triple (Kept tt) (find_memcached ops env svc) Kept Kept
  unfolding find_memcached
  memcached-Kept = record { at = λ s k. ground arith }

  apply-Kept : (r : Err ⊎ Deployment) → Triple (Kept tt) (apply_deployment ops env svc r) Kept Kept
  unfolding apply_deployment
  apply-Kept (inl e) = record { at = λ s k. k }
  apply-Kept (inr d) = record { at = λ s k. ground arith }

  observe-Kept :
      (deployed : Deployed) (name hash : String)
      → Triple (Kept tt) (observe ops env svc deployed name hash) Kept Kept
  unfolding observe count_ready check_ready report_ready
  observe-Kept deployed name hash = record { at = λ s k. ground arith }

  roll_out-Kept :
      (hash : String) (topology : Option Opaque) (mc : Memcached)
      → Triple (Kept tt) (roll_out ops env svc hash topology mc) Kept Kept
  unfolding roll_out
  roll_out-Kept hash topology mc =
      Triple-bind (apply-Kept _) (λ (deployed, d). observe-Kept deployed d.name hash)

  finish-Kept : Triple (Kept tt) (finish ops env svc) Kept Kept
  unfolding finish
  finish-Kept = record { at = λ s k. k }

  normal-Kept :
      nonempty spec.heat_template.secret ≡ true
      → Triple (Kept tt) (reconcile_normal ops env svc) Kept Kept
  unfolding reconcile_normal
  normal-Kept required = Triple-bind (inputs-Kept ops env svc required) (λ vars.
      Triple-bind (tls-Kept ops env svc vars) (λ vars'.
        Triple-bind (configure-Kept ops env svc vars') (λ hash.
          Triple-bind (initialise-Kept (service_labels ops env svc)) (λ _.
            Triple-bind topology-Kept (λ topology.
              Triple-bind memcached-Kept
                (λ mc. Triple-bind (roll_out-Kept hash topology mc) (λ _. finish-Kept)))))))

  -- For a service whose spec names the secret of OpenStack: every Secret that its reconcileNormal
  -- reads or validates, and the Topology that it asks for, is named by a field that its controller
  -- watches, except the Secret of the parent Heat, which is found by its label.
  pub reconcile_normal-AreCovered :
      nonempty spec.heat_template.secret ≡ true
      → (s : State C) → AreCovered svc s.log
      → AreCovered svc (reconcile_normal ops env svc s).1.log
  reconcile_normal-AreCovered required s h =
      Post-end (Kept {A = Returned}) (reconcile_normal ops env svc s)
        ((normal-Kept required).at s h)
