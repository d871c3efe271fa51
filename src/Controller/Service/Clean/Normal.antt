-- ===== src/Controller/Service/Clean/Normal.antt =====
-- The conditions that a finished reconcileNormal of a service leaves.
use heat_operator.Base.{
  eqb, String, Bool, true, false, ◌||◌, ◌&&◌, Option, none, some, is_some, [], GoMap, ◌≡◌, refl,
  sym, ap, ◌∙◌, ◌⊎◌, inl, inr, arith, if◌then◌else◌,
}
use heat_operator.Api.Types.{Opaque}
use heat_operator.Heat.Names.{Component, engine, api, cfnapi}
use heat_operator.Heat.Volumes.{internal, public}
use heat_operator.Heat.Deployments.{Deployment}
use heat_operator.Controller.Conditions.{
  CondOps, CondLaws, CondType, Err, same_type, is_true, is_false, input_ready, tls_input_ready,
  service_config_ready, create_service_ready, deployment_ready,
}
use heat_operator.Controller.Exec.{
  Exit, next, stop, returned, Returned, empty_result, is_pending, return_unless_done,
}
use heat_operator.Controller.Exec.Rules.{Post, Triple, Triple-bind, Triple-call, Triple-when}
use heat_operator.Controller.Heat.Env.{Memcached}
use heat_operator.Controller.Service.Env.{Env, State, Service, Deployed}
use heat_operator.Base.{not}
use heat_operator.Controller.Service.Endpoints.{
  ApiKind, api_kind, cfnapi_kind, expose_all, reconcile_init, reconcile_init_of, initialise,
}
use heat_operator.Controller.Service.Topology.{ensure_topology, topology_done, handle_topology}
use heat_operator.Controller.Service.Rollout.{
  service_labels, find_memcached, apply_deployment, observe, check_ready, count_ready, report_ready,
  roll_out,
}
use heat_operator.Controller.Service.Normal.{finish, reconcile_normal}
use heat_operator.Controller.Service.Clean.{inputs-Marked, tls-Marked}
use heat_operator.Controller.Service.Clean.Setup.{
  Now, Early, Through, is_mirrored, order-Now, exposed-Now, expose-Now, register-Now, configure-Now,
}

module _ {C : Type 0} (ops : CondOps C) (laws : CondLaws ops) (env : Env C) (svc : Service)
    (t : CondType) where
  abbrev Holds : {A : Type 0} → Bool → A → State C → Type 0
  Holds b a s = Now ops laws env svc t b a s

  abbrev Ends : Returned → State C → Type 0
  Ends r s = Early ops laws env svc t r s

  abbrev mirrored : Bool
  mirrored = is_mirrored ops laws env svc t

  abbrev Reached : Bool → Returned → State C → Type 0
  Reached b r s = Through ops laws env svc t b r s

  abbrev after_services : Bool → Bool
  after_services b = (b || same_type t create_service_ready) && not mirrored

  abbrev after_init : Component → Bool → Bool
  after_init engine b = b
  after_init api b = after_services b
  after_init cfnapi b = after_services b

  init-Reached :
      (b : Bool) (kind : ApiKind) (labels : GoMap String)
      → Triple
          (Holds b tt)
          (reconcile_init ops env svc kind labels)
          (Reached (after_services b))
          (Reached (after_services b))
  unfolding reconcile_init expose_all
  init-Reached b kind labels =
      Triple-bind
        (Triple-bind (order-Now ops laws env svc t b (after_services b) kind) (λ first.
          Triple-bind
            (expose-Now ops laws env svc t b (after_services b) kind labels
              (if first then public else internal) [])
            (λ urls.
              Triple-bind
                (expose-Now ops laws env svc t b (after_services b) kind labels
                  (if first then internal else public) urls)
                (λ urls'. exposed-Now ops laws env svc t b (after_services b) kind urls'))))
        (λ urls. register-Now ops laws env svc t (b || same_type t create_service_ready) kind urls)

  init_of-Reached :
      (c : Component) (b : Bool) (labels : GoMap String)
      → Triple
          (Holds b tt)
          (reconcile_init_of ops env svc c labels)
          (Reached (after_init c b))
          (Reached (after_init c b))
  init_of-Reached engine b labels = record { at = λ s h. inr h }
  init_of-Reached api b labels = init-Reached b api_kind labels
  init_of-Reached cfnapi b labels = init-Reached b cfnapi_kind labels

  return-Holds :
      (b : Bool) (r : Returned) → Triple (Reached b r) (return_unless_done r) (λ _. Holds b tt) Ends
  return-Holds b (result, some e) = record { at = λ s h. inl refl }
  return-Holds b (result, none) = record { at = λ s h. ground arith }

  initialise-Holds :
      (b : Bool) (labels : GoMap String)
      → Triple
          (Holds b tt)
          (initialise ops env svc labels)
          (Holds (after_init svc.component b))
          Ends
  unfolding initialise
  initialise-Holds b labels =
      Triple-bind (Triple-call (init_of-Reached svc.component b labels))
        (λ r. return-Holds (after_init svc.component b) r)

  topology-Holds : (b : Bool) → Triple (Holds b tt) (handle_topology ops env svc) (Holds b) Ends
  unfolding handle_topology ensure_topology topology_done
  topology-Holds b = record { at = λ s h. grind (arith, laws.get-mark_true) }

  memcached-Holds : (b : Bool) → Triple (Holds b tt) (find_memcached ops env svc) (Holds b) Ends
  unfolding find_memcached
  memcached-Holds b = record { at = λ s h. ground arith }

  apply-Holds :
      (b : Bool) (r : Err ⊎ Deployment)
      → Triple (Holds b tt) (apply_deployment ops env svc r) (Holds b) Ends
  unfolding apply_deployment
  apply-Holds b (inl e) = record { at = λ s h. inl refl }
  apply-Holds b (inr d) = record { at = λ s h. ground arith }

  abbrev rolled : Bool → Bool
  rolled b = b && not (same_type t deployment_ready)

  count-Holds :
      (b : Bool) (deployed : Deployed)
      → Triple (Holds b tt) (count_ready ops env svc deployed) (Holds b) Ends
  unfolding count_ready
  count-Holds b deployed = record { at = λ s h. h }

  check-Holds :
      (b : Bool) (deployed : Deployed) (name hash : String)
      → Triple (Holds b tt) (check_ready ops env svc deployed name hash) (Holds b) Ends
  unfolding check_ready
  check-Holds b deployed name hash = record { at = λ s h. ground arith }

  report-Holds :
      (b ready : Bool)
      → Triple (Holds b tt) (report_ready ops env svc ready) (Holds (rolled b)) Ends
  unfolding report_ready
  report-Holds b true = record { at = λ s h. grind (arith, laws.get-mark_true) }
  report-Holds b false = record { at = λ s h. grind (arith, laws.get-set) }

  observe-Holds :
      (b : Bool) (deployed : Deployed) (name hash : String)
      → Triple (Holds b tt) (observe ops env svc deployed name hash) (Holds (rolled b)) Ends
  unfolding observe
  observe-Holds b deployed name hash =
      Triple-when (eqb deployed.generation deployed.observed_generation)
        (Triple-bind (count-Holds b deployed)
          (λ _. Triple-bind (check-Holds b deployed name hash) (λ r. report-Holds b r)))
        (λ s h k. h (ground arith))

  roll_out-Holds :
      (b : Bool) (hash : String) (topology : Option Opaque) (mc : Memcached)
      → Triple (Holds b tt) (roll_out ops env svc hash topology mc) (Holds (rolled b)) Ends
  unfolding roll_out
  roll_out-Holds b hash topology mc =
      Triple-bind (apply-Holds b _) (λ (deployed, d). observe-Holds b deployed d.name hash)

  finish-Holds : (b : Bool) → Triple (Holds b tt) (finish ops env svc) (Holds b) Ends
  unfolding finish
  finish-Holds b = record { at = λ s h. grind (arith, laws.get-mark_true) }

  -- the conditions of the steps that every reconcile runs through: the inputs, the TLS inputs, the
  -- configuration and, for the two APIs, the Services
  abbrev pub is_settled : Bool
  is_settled = rolled (
      after_init svc.component (
        (same_type t input_ready || same_type t tls_input_ready)
        || same_type t service_config_ready))

  normal-Holds : Triple (Holds false tt) (reconcile_normal ops env svc) (Holds is_settled) Ends
  unfolding reconcile_normal
  normal-Holds =
      let inputs = same_type t input_ready in
      let tls = inputs || same_type t tls_input_ready in
      let config = tls || same_type t service_config_ready in
      let init = after_init svc.component config in
      Triple-bind (inputs-Marked ops laws env svc t) (λ vars.
        Triple-bind (tls-Marked ops laws env svc t inputs vars) (λ vars'.
          Triple-bind (configure-Now ops laws env svc t tls vars') (λ hash.
            Triple-bind (initialise-Holds config (service_labels ops env svc)) (λ _.
              Triple-bind (topology-Holds init) (λ topology.
                Triple-bind (memcached-Holds init) (λ mc.
                  Triple-bind (roll_out-Holds init hash topology mc)
                    (λ _. finish-Holds (rolled init))))))))

  settled :
      (x : Exit Returned Returned × State C)
      → Post (Holds is_settled) Ends x
      → is_settled ≡ true
      → returned x.0 ≡ (empty_result, none)
      → (ops.get tls_input_ready x.1.conditions ≡ some is_false)
        ⊎ (ops.get t x.1.conditions ≡ some is_true)
  settled (next r, s) h k e = inr (h k)
  settled (stop r, s) (inr h) k e = inl h
  settled (stop r, s) (inl h) k e =
      let waiting = λ (q : Returned). is_some q.1 || is_pending q.0 in
      let contradiction : true ≡ false = sym h ∙ ap waiting e in ground arith

  -- If a service's reconcileNormal returns no error and nothing to wait for, then TLSInputReady is
  -- false, as where it stops at a TLS secret that is not there, or each of these four conditions is
  -- true: InputReady, TLSInputReady, ServiceConfigReady and, for the two APIs, CreateServiceReady.
  -- Of the other conditions nothing is claimed: DeploymentReady may be false. Conditions are assumed
  -- to be read back as they were written, one for each type.
  pub reconcile_normal-settled_or_tls :
      is_settled ≡ true
      → (s : State C) → returned (reconcile_normal ops env svc s).0 ≡ (empty_result, none)
      → (ops.get tls_input_ready (reconcile_normal ops env svc s).1.conditions ≡ some is_false)
        ⊎ (ops.get t (reconcile_normal ops env svc s).1.conditions ≡ some is_true)
  reconcile_normal-settled_or_tls k s e =
      settled (reconcile_normal ops env svc s) (normal-Holds.at s (λ p. ground arith)) k e
