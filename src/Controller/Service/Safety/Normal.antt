-- ===== src/Controller/Service/Safety/Normal.antt =====
-- What a service's reconcileNormal does, in which order, and what it reports to the parent Heat.
use heat_operator.Base.{String, refl, inl}
use heat_operator.Controller.Conditions.{CondOps}
use heat_operator.Controller.Exec.{Exec, Returned}
use heat_operator.Controller.Exec.Rules.{Post-end, Triple, Triple-bind, Triple-exit}
use heat_operator.Controller.Service.Env.{Env, State, Service}
use heat_operator.Controller.Service.Normal.{finish, reconcile_normal}
use heat_operator.Controller.Service.Rollout.{service_labels}
use heat_operator.Controller.Service.Safety.{IsSafe, IsConfirmed}
use heat_operator.Controller.Service.Safety.Phases.{
  Safe, inputs-Verified, tls-Verified, configure-Provided,
}
use heat_operator.Controller.Service.Safety.Init.{initialise-Kept, topology-Kept, memcached-Kept}
use heat_operator.Controller.Service.Safety.Rollout.{Told, roll_out-Told}

module _ {C : Type 0} (ops : CondOps C) (env : Env C) (svc : Service) where
  module _ (before : String) where
    abbrev Ended : {A : Type 0} → A → State C → Type 0
    Ended a s = Told ops env svc before a s

    early :
        {A : Type 0} {P : State C → Type 0} {Q : A → State C → Type 0}
        {m : Exec Returned (State C) A}
        → Triple P m Q (Safe ops env svc before)
        → Triple P m Q Ended
    early t = Triple-exit (λ r s h. (h.0, inl h.1)) t

    finish-Ended : Triple (Ended tt) (finish ops env svc) Ended Ended
    unfolding finish
    finish-Ended = record { at = λ s h. h }

    normal-Ended : Triple (Safe ops env svc before tt) (reconcile_normal ops env svc) Ended Ended
    unfolding reconcile_normal
    normal-Ended = Triple-bind (early (inputs-Verified ops env svc before)) (λ vars.
        Triple-bind (early (tls-Verified ops env svc before vars)) (λ vars'.
          Triple-bind (early (configure-Provided ops env svc before vars')) (λ hash.
            Triple-bind (early (initialise-Kept ops env svc before (service_labels ops env svc)))
              (λ _. Triple-bind (early (topology-Kept ops env svc before)) (λ topology.
                Triple-bind (early (memcached-Kept ops env svc before)) (λ mc.
                  Triple-bind (roll_out-Told ops env svc before hash topology mc)
                    (λ _. finish-Ended)))))))

  -- In a service's reconcileNormal, whatever the cluster replies and wherever it returns: the
  -- Services, the registrations with Keystone and the Deployment are applied only after the secret
  -- of OpenStack and the secret of the TransportURL were verified and the configuration Secret was
  -- written; the pods are asked about only right after the Deployment was applied, under its name
  -- and with the CONFIG_HASH that it was given; and AppliedInputSecretHash stays as it was, or
  -- becomes the hash that the parent wrote on the instance, and then the last call found the pods
  -- running with their inputs.
  pub reconcile_normal-IsConfirmed :
      (s : State C)
      → IsSafe svc s.log
      → let (x, s') = reconcile_normal ops env svc s in
        IsSafe svc s'.log × IsConfirmed svc s.applied_input_secret_hash s'
  reconcile_normal-IsConfirmed s safe =
      Post-end (Ended s.applied_input_secret_hash) (reconcile_normal ops env svc s)
        ((normal-Ended s.applied_input_secret_hash).at s (safe, refl))
