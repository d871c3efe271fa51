-- ===== src/Controller/Heat/Safety/Release.antt =====
-- The children and the end of the reconcile, and the theorem about reconcileNormal: nothing is
-- deployed before its secrets are held, and nothing is released before everything is rolled out.
use heat_operator.Base.{String, Bool, true, false, ◌&&◌, Option, none, some, eq_refl, ◌≡◌, arith}
use heat_operator.Api.Types.{HeatSpec, ObjectMeta}
use heat_operator.Heat.Names.{engine, api, cfnapi}
use heat_operator.Controller.Conditions.{CondOps}
use heat_operator.Controller.Exec.{Exec, Returned, empty_result, pure, ◌>>=◌, ◌>>◌}
use heat_operator.Controller.Exec.Rules.{Post, Triple, Triple-bind}
use heat_operator.Controller.Heat.Env.{Env, State, Memcached, Fetched, found, failed}
use heat_operator.Controller.Heat.Safety.{IsSafe, AllRolledOut, rolled_out}
use heat_operator.Controller.Heat.Safety.Phases.{
  Safe, Held, inputs-Safe, transport_urls-Safe, database-Safe,
}
use heat_operator.Controller.Heat.Safety.Setup.{configure-Held, initialise-Held}
use heat_operator.Controller.Heat.Children.{
  is_rolled_out, deploy_child, deploy_all, deploy_hashed, deploy_children,
}
use heat_operator.Controller.Heat.Rotation.{
  rotate_application_credential, update_ready, rotate_transport, rotate_notifications,
  prune_stranded, finish_rotation,
}
use heat_operator.Controller.Heat.Normal.{reconcile_normal}

module _ {C : Type 0} (ops : CondOps C) (env : Env C) (meta : ObjectMeta) (spec : HeatSpec) where
  abbrev SafeNow : {A : Type 0} → A → State C → Type 0
  SafeNow = Safe ops env meta spec

  -- What is known while the children are applied: which of them are rolled out.
  abbrev Shown : {A : Type 0} → (transport hash : String) → (e a c : Bool) → A → State C → Type 0
  Shown transport hash e a c _ s =
      Held ops env meta spec transport tt s
      × (e ≡ true → rolled_out engine hash s.log ≡ true)
      × (a ≡ true → rolled_out api hash s.log ≡ true)
      × (c ≡ true → rolled_out cfnapi hash s.log ≡ true)

  -- If the services are ready, the log shows it.
  abbrev Justified : {A : Type 0} → Bool → A → State C → Type 0
  Justified services_ready _ s =
      IsSafe spec.application_credential_secret s.log × (services_ready ≡ true → AllRolledOut s.log)

  module _ (transport hash : String) (e a c : Bool) where
    all-Shown :
        Triple {R = Returned}
          (Shown transport hash e a c tt)
          (pure (e && (a && c)))
          (λ b. Justified b tt)
          SafeNow
    all-Shown = record {
      at = λ s h. (h.0.0, λ p. (hash, ground arith, ground arith, ground arith));
    }

  module _ (mc : Memcached) (transport hash : String) (e a c : Bool) where
    engine-Shown :
        Triple
          (Shown transport hash e a c tt)
          (deploy_child ops env meta spec mc transport hash engine)
          (λ child. Shown transport hash (is_rolled_out hash child) a c child)
          SafeNow
    unfolding deploy_child
    engine-Shown = record { at = λ s h. ground (arith, eq_refl hash) }

    api-Shown :
        Triple
          (Shown transport hash e a c tt)
          (deploy_child ops env meta spec mc transport hash api)
          (λ child. Shown transport hash e (is_rolled_out hash child) c child)
          SafeNow
    unfolding deploy_child
    api-Shown = record { at = λ s h. ground (arith, eq_refl hash) }

    cfnapi-Shown :
        Triple
          (Shown transport hash e a c tt)
          (deploy_child ops env meta spec mc transport hash cfnapi)
          (λ child. Shown transport hash e a (is_rolled_out hash child) child)
          SafeNow
    unfolding deploy_child
    cfnapi-Shown = record { at = λ s h. ground (arith, eq_refl hash) }

  deploy_all-Justified :
      (mc : Memcached) (transport hash : String)
      → Triple
          (Held ops env meta spec transport tt)
          (deploy_all ops env meta spec mc transport hash)
          (λ b. Justified b tt)
          SafeNow
  unfolding deploy_all
  deploy_all-Justified mc transport hash = record {
    at = λ s h.
        (Triple-bind (engine-Shown mc transport hash false false false) (λ e.
            Triple-bind (api-Shown mc transport hash (is_rolled_out hash e) false false) (λ a.
              Triple-bind
                (cfnapi-Shown mc transport hash (is_rolled_out hash e) (is_rolled_out hash a) false)
                (λ c.
                  all-Shown transport hash (is_rolled_out hash e) (is_rolled_out hash a)
                    (is_rolled_out hash c))))).at
          s (h, (λ p. cc), (λ p. cc), (λ p. cc));
  }

  deploy_hashed-Justified :
      (mc : Memcached) (transport : String) (hash : Fetched String)
      → Triple
          (Held ops env meta spec transport tt)
          (deploy_hashed ops env meta spec mc transport hash)
          (λ b. Justified b tt)
          SafeNow
  unfolding deploy_hashed
  deploy_hashed-Justified mc transport (failed e) = record { at = λ s h. h.0 }
  deploy_hashed-Justified mc transport (found hash) = deploy_all-Justified mc transport hash

  deploy_children-Justified :
      (mc : Memcached) (transport : String) (n : Option String)
      → Triple
          (Held ops env meta spec transport tt)
          (deploy_children ops env meta spec mc transport n)
          (λ b. Justified b tt)
          SafeNow
  unfolding deploy_children
  deploy_children-Justified mc transport n = deploy_hashed-Justified mc transport _

  module _ (b : Bool) where
    ac-Justified :
        Triple
          (Justified b tt)
          (rotate_application_credential ops env meta spec b)
          (Justified b)
          SafeNow
    unfolding rotate_application_credential
    ac-Justified = record { at = λ s h. ground arith }

    ready-Justified : Triple (Justified b tt) (update_ready ops env meta spec) (Justified b) SafeNow
    unfolding update_ready
    ready-Justified = record { at = λ s h. ground arith }

    transport-Justified :
        (transport : String)
        → Triple
            (Justified b tt)
            (rotate_transport ops env meta spec transport b)
            (Justified b)
            SafeNow
    unfolding rotate_transport
    transport-Justified transport = record { at = λ s h. ground arith }

    notifications-Justified :
        (n : Option String)
        → Triple (Justified b tt) (rotate_notifications ops env meta spec n b) (Justified b) SafeNow
    unfolding rotate_notifications
    notifications-Justified none = record { at = λ s h. ground arith }
    notifications-Justified (some n) = record { at = λ s h. ground arith }

    prune-Justified :
        (transport : String) (n : Option String)
        → Triple (Justified b tt) (prune_stranded ops env meta spec transport n b) SafeNow SafeNow
    unfolding prune_stranded
    prune-Justified transport n = record { at = λ s h. ground arith }

    end-Safe :
        Triple {R = Returned} {A = Returned}
          (SafeNow tt)
          (pure (empty_result, none))
          SafeNow
          SafeNow
    end-Safe = record { at = λ s h. h }

    finish-Safe :
        (transport : String) (n : Option String)
        → Triple (Justified b tt) (finish_rotation ops env meta spec transport n b) SafeNow SafeNow
    unfolding finish_rotation
    finish-Safe transport n = Triple-bind ac-Justified (λ _. Triple-bind ready-Justified (λ _.
        Triple-bind (transport-Justified transport) (λ _.
          Triple-bind (notifications-Justified n)
            (λ _. Triple-bind (prune-Justified transport n) (λ _. end-Safe)))))

  reconcile-Safe : Triple (SafeNow tt) (reconcile_normal ops env meta spec) SafeNow SafeNow
  unfolding reconcile_normal
  reconcile-Safe = Triple-bind (inputs-Safe ops env meta spec) (λ i.
      Triple-bind (transport_urls-Safe ops env meta spec i.0) (λ t.
        Triple-bind (database-Safe ops env meta spec t.0) (λ _.
          Triple-bind (configure-Held ops env meta spec t.0 t.2 i.1 t.0 t.1) (λ _.
            Triple-bind (initialise-Held ops env meta spec t.0) (λ _.
              Triple-bind (deploy_children-Justified i.1 t.0 t.1) (λ b. finish-Safe b t.0 t.1))))))

  ends-Safe :
      (x : heat_operator.Controller.Exec.Exit Returned Returned × State C)
      → Post {R = Returned} SafeNow SafeNow x
      → IsSafe spec.application_credential_secret x.1.log
  ends-Safe (heat_operator.Controller.Exec.next a, s) h = h
  ends-Safe (heat_operator.Controller.Exec.stop a, s) h = h

  -- Every call of a reconcile is safe: a child is applied only after the transport secret that it
  -- is given, and the application credential secret of the spec if there is one, got their
  -- consumer finalizers; and a consumer finalizer is removed or pruned, a TransportURL deleted or a
  -- rotation finalized as ready only after HeatEngine, HeatAPI and HeatCfnAPI were all seen rolled
  -- out with one hash of the secrets. The calls before the reconcile are assumed to be safe too.
  pub reconcile_normal-IsSafe :
      (s : State C)
      → IsSafe spec.application_credential_secret s.log
      → IsSafe spec.application_credential_secret (reconcile_normal ops env meta spec s).1.log
  reconcile_normal-IsSafe s h =
      ends-Safe (reconcile_normal ops env meta spec s) (reconcile-Safe.at s h)
