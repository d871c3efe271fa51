-- ===== src/Controller/Service/Clean/Setup.antt =====
-- The configuration and the endpoints of a service, and the conditions that they make true.
use heat_operator.Base.{
  String, Bool, true, false, ◌||◌, ◌&&◌, Option, none, some, is_some, List, [], ◌∷◌, GoMap, ◌≡◌,
  refl, ◌⊎◌, arith,
}
use heat_operator.Heat.Volumes.{Endpoint}
use heat_operator.Controller.Conditions.{
  CondOps, CondLaws, CondType, Err, same_type, service_config_ready, create_service_ready,
}
use heat_operator.Controller.Exec.{Returned, is_pending, pure, ◌>>=◌}
use heat_operator.Controller.Exec.Rules.{Triple, Triple-bind, Triple-call}
use heat_operator.Controller.Service.Env.{Env, State, Service}
use heat_operator.Controller.Heat.Children.{set_mirror}
use heat_operator.Controller.Conditions.{Condition, keystone_service_ready, keystone_endpoint_ready}
use heat_operator.Controller.Heat.Config.{concat_data}
use heat_operator.Base.{not}
use heat_operator.Controller.Service.Env.{ask, secrets_ensured}
use heat_operator.Controller.Service.Inputs.{parent_secret}
use heat_operator.Controller.Service.Config.{
  Generated, config_template, read_secret, custom_secrets, generate_service_secrets,
  create_hash_of_input_hashes, hash_inputs, configure,
}
use heat_operator.Controller.Service.Endpoints.{ApiKind, expose, exposed, range_order, register}
use heat_operator.Controller.Service.Clean.{NotDone, Marked}

module _ {C : Type 0} (ops : CondOps C) (laws : CondLaws ops) (env : Env C) (svc : Service)
    (t : CondType) where
  abbrev pub Now : {A : Type 0} → Bool → A → State C → Type 0
  Now b a s = Marked ops laws env svc t b a s

  abbrev pub Early : Returned → State C → Type 0
  Early r s = NotDone ops laws r s

  read-Now :
      (b : Bool) (vars : GoMap String) (name : String)
      → Triple (Now b tt) (read_secret ops env svc vars name) (Now b) (Now b)
  read-Now b vars name = record { at = λ s h. ground arith }

  custom-Now :
      (b : Bool) (vars : GoMap String) (acc : String) (names : List String)
      → Triple (Now b tt) (custom_secrets ops env svc vars acc names) (Now b) (Now b)
  unfolding custom_secrets
  custom-Now b vars acc [] = record { at = λ s h. h }
  custom-Now b vars acc (name ∷ names) =
      Triple-bind (read-Now b vars name)
        (λ secret. custom-Now b vars (concat_data acc secret) names)

  ensured-Now :
      (b : Bool) (heat_secret : GoMap String) (custom : String) (vars : GoMap String)
      → Triple {R = Generated} {A = Generated}
          (Now b tt)
          (do
            (vars', err) ←
                ask
                  (λ (vs, err).
                    secrets_ensured (config_template ops env svc heat_secret custom) err)
                  (env.ensure_secrets (config_template ops env svc heat_secret custom) vars)
            pure (err, vars'))
          (Now b)
          (Now b)
  ensured-Now b heat_secret custom vars = record { at = λ s h. ground arith }

  hash-Now :
      (b : Bool) (err : Option Err) (vars : GoMap String)
      → Triple
          (Now b tt)
          (hash_inputs ops env svc err vars)
          (Now (b || same_type t service_config_ready))
          Early
  unfolding hash_inputs create_hash_of_input_hashes
  hash-Now b none vars = record { at = λ s h. grind (arith, laws.get-mark_true) }
  hash-Now b (some e) vars = record { at = λ s h. ground arith }

  pub configure-Now :
      (b : Bool) (vars : GoMap String)
      → Triple
          (Now b tt)
          (configure ops env svc vars)
          (Now (b || same_type t service_config_ready))
          Early
  unfolding configure generate_service_secrets
  configure-Now b vars =
      Triple-bind
        (Triple-call (
          Triple-bind (read-Now b vars (parent_secret svc.meta)) (λ heat_secret.
            Triple-bind (custom-Now b vars "" svc.spec.template.custom_service_config_secrets)
              (λ custom. ensured-Now b heat_secret custom vars))))
        (λ g. hash-Now b g.0 g.1)

  -- reconcileInit is not through, or the condition is true.
  abbrev pub Through : Bool → Returned → State C → Type 0
  Through b (result, err) s = (is_some err || is_pending result ≡ true) ⊎ Now b tt s

  pub order-Now :
      (b b' : Bool) (kind : ApiKind)
      → Triple (Now b tt) (range_order ops env svc kind) (Now b) (Through b')
  unfolding range_order
  order-Now b b' kind = record { at = λ s h. h }

  pub exposed-Now :
      (b b' : Bool) (kind : ApiKind) (urls : GoMap String)
      → Triple
          (Now b tt)
          (exposed ops env svc kind urls)
          (Now (b || same_type t create_service_ready))
          (Through b')
  unfolding exposed
  exposed-Now b b' kind urls = record { at = λ s h. grind (arith, laws.get-mark_true) }

  pub expose-Now :
      (b b' : Bool) (kind : ApiKind) (labels : GoMap String) (endpt : Endpoint)
      (urls : GoMap String)
      → Triple (Now b tt) (expose ops env svc kind labels endpt urls) (Now b) (Through b')
  unfolding expose
  expose-Now b b' kind labels endpt urls = record { at = λ s h. ground arith }

  -- the conditions that Keystone's are mirrored into
  abbrev pub is_mirrored : Bool
  is_mirrored = same_type t keystone_service_ready || same_type t keystone_endpoint_ready

  mirror_of :
      (u : CondType) (k : Option Condition) (c c' : C)
      → ops.mirror u c ≡ k
      → same_type t u ≡ false
      → ops.get t (set_mirror ops k c') ≡ ops.get t c'
  mirror_of u none c c' e h = refl
  mirror_of u (some k) c c' e h = ground (arith, laws.get-set t k c', laws.type_of-mirror u c k)

  mirror_kept :
      (u : CondType) (c c' : C)
      → same_type t u ≡ false
      → ops.get t (set_mirror ops (ops.mirror u c) c') ≡ ops.get t c'
  mirror_kept u c c' h = mirror_of u (ops.mirror u c) c c' refl h

  pub register-Now :
      (b : Bool) (kind : ApiKind) (urls : GoMap String)
      → Triple
          (Now b tt)
          (register ops env svc kind urls)
          (Through (b && not is_mirrored))
          (Through (b && not is_mirrored))
  unfolding register
  register-Now b kind urls = record { at = λ s h. grind (arith, mirror_kept) }
