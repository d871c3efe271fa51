-- ===== src/Controller/Instances.antt =====
-- The reconcilers of the three services, each in the order of its own file, are the shared model of
-- Controller.Service at their component, so that what is proved there holds of each.
pub mod Whole
use heat_operator.Base.{String, List, ◌≡◌, refl, sym, ◌∙◌}
use heat_operator.Api.Types.{ObjectMeta}
use heat_operator.Heat.Names.{Component, engine, api, cfnapi}
use heat_operator.Heat.ChildSpec.{ChildSpec}
use heat_operator.Controller.Conditions.{CondOps}
use heat_operator.Controller.Exec.{Exec, Returned, call, return_unless_done, ◌>>=◌, ◌>>◌}
use heat_operator.Controller.Exec.Rules.{bind_congr, bind_assoc}
use heat_operator.Controller.Service.Env.{Env, State, Service}
use heat_operator.Controller.Service.Inputs.{check_inputs, check_tls}
use heat_operator.Controller.Service.Config.{generate_service_secrets, hash_inputs, configure}
use heat_operator.Controller.Service.Endpoints.{reconcile_init, reconcile_init_of, initialise}
use heat_operator.Controller.Service.Topology.{handle_topology}
use heat_operator.Controller.Service.Rollout.{service_labels, find_memcached, roll_out}
use heat_operator.Controller.Service.Normal.{finish, reconcile_normal}
use heat_operator.Controller.Service.Delete.{release_everything, reconcile_delete}
use heat_operator.Controller.Engine.Reconcile.{
  engine_check_inputs, engine_check_tls, engine_generate_service_secrets, engine_hash_inputs,
  engine_reconcile_init, engine_reconcile_update, engine_reconcile_upgrade, engine_roll_out,
  engine_reconcile_normal, engine_release, engine_reconcile_delete,
}
use heat_operator.Controller.HeatApi.{
  api_check_inputs, api_check_tls, api_generate_service_secrets, api_hash_inputs, api_expose_all,
  api_register, api_reconcile_update, api_reconcile_upgrade, api_reconcile_init, api_roll_out,
  api_reconcile_normal, api_release, api_reconcile_delete,
}
use heat_operator.Controller.CfnApi.{
  cfnapi_check_inputs, cfnapi_check_tls, cfnapi_generate_service_secrets, cfnapi_hash_inputs,
  cfnapi_reconcile_update, cfnapi_reconcile_upgrade, cfnapi_expose_all, cfnapi_register,
  cfnapi_reconcile_init, cfnapi_roll_out, cfnapi_reconcile_normal, cfnapi_release,
  cfnapi_reconcile_delete,
}

module _ {C : Type 0} (ops : CondOps C) (env : Env C) where
  module _ (svc : Service) where
    abbrev deployed_last : String → Exec Returned (State C) Returned
    deployed_last hash = do
      topology ← handle_topology ops env svc
      memcached ← find_memcached ops env svc
      roll_out ops env svc hash topology memcached
      finish ops env svc

    abbrev rolled_out : String → Exec Returned (State C) (Unit {0})
    rolled_out hash = do
      topology ← handle_topology ops env svc
      memcached ← find_memcached ops env svc
      roll_out ops env svc hash topology memcached

    abbrev initialised : Exec Returned (State C) Returned
    initialised = call (reconcile_init_of ops env svc svc.component (service_labels ops env svc))

    -- the order of reconcileNormal with nothing grouped
    abbrev in_order : Exec Returned (State C) Returned
    in_order = do
      vars ← check_inputs ops env svc
      vars' ← check_tls ops env svc vars
      (err, vars'') ← call (generate_service_secrets ops env svc vars')
      hash ← hash_inputs ops env svc err vars''
      r ← initialised
      return_unless_done r
      rolled_out hash
      finish ops env svc

    rolled_out_lem :
        (hash : String) (s : State C)
        → (rolled_out hash >> finish ops env svc) s ≡ deployed_last hash s
    rolled_out_lem hash s =
        bind_assoc (handle_topology ops env svc) _ (λ _. finish ops env svc) s
        ∙ bind_congr (handle_topology ops env svc)
            (λ topology s'. bind_assoc (find_memcached ops env svc) _ (λ _. finish ops env svc) s')
            s

    initialised_lem :
        (hash : String) (s : State C)
        → (initialised >>= λ r. return_unless_done r >> (rolled_out hash >> finish ops env svc)) s
          ≡ ((initialised >>= λ r. return_unless_done r) >> deployed_last hash) s
    initialised_lem hash s =
        bind_congr initialised
          (λ r s'. bind_congr (return_unless_done r) (λ _ s''. rolled_out_lem hash s'') s') s
        ∙ sym (bind_assoc initialised (λ r. return_unless_done r) (λ _. deployed_last hash) s)

    in_order_lem : (s : State C) → in_order s ≡ reconcile_normal ops env svc s
    unfolding reconcile_normal configure initialise
    in_order_lem s =
        bind_congr (check_inputs ops env svc)
          (λ vars s1.
            bind_congr (check_tls ops env svc vars)
              (λ vars' s2.
                bind_congr (call (generate_service_secrets ops env svc vars'))
                  (λ g s3.
                    bind_congr (hash_inputs ops env svc g.0 g.1)
                      (λ hash s4. initialised_lem hash s4) s3)
                  s2
                ∙ sym (
                    bind_assoc (call (generate_service_secrets ops env svc vars'))
                      (λ g. hash_inputs ops env svc g.0 g.1)
                      (λ hash. (initialised >>= λ r. return_unless_done r) >> deployed_last hash)
                      s2))
              s1)
          s

  abbrev pub service_of : Component → ObjectMeta → ChildSpec → Service
  service_of c meta spec = record { component = c; meta = meta; spec = spec }

  abbrev pub normal_of : Component → ObjectMeta → ChildSpec → Exec Returned (State C) Returned
  normal_of engine meta spec = engine_reconcile_normal ops env meta spec
  normal_of api meta spec = api_reconcile_normal ops env meta spec
  normal_of cfnapi meta spec = cfnapi_reconcile_normal ops env meta spec

  abbrev pub delete_of :
      Component → ObjectMeta → ChildSpec → Exec Returned (List String × State C) Returned
  delete_of engine meta spec = engine_reconcile_delete ops env meta spec
  delete_of api meta spec = api_reconcile_delete ops env meta spec
  delete_of cfnapi meta spec = cfnapi_reconcile_delete ops env meta spec

  pub normal_lem :
      (c : Component) (meta : ObjectMeta) (spec : ChildSpec) (s : State C)
      → normal_of c meta spec s ≡ reconcile_normal ops env (service_of c meta spec) s
  unfolding engine_reconcile_normal api_reconcile_normal cfnapi_reconcile_normal check_tls
      reconcile_init engine_reconcile_update engine_reconcile_upgrade api_reconcile_update
      api_reconcile_upgrade cfnapi_reconcile_update cfnapi_reconcile_upgrade engine_check_inputs
      engine_check_tls engine_generate_service_secrets engine_hash_inputs engine_reconcile_init
      engine_roll_out api_check_inputs api_check_tls api_generate_service_secrets api_hash_inputs
      api_expose_all api_register api_reconcile_init api_roll_out cfnapi_check_inputs
      cfnapi_check_tls cfnapi_generate_service_secrets cfnapi_hash_inputs cfnapi_expose_all
      cfnapi_register cfnapi_reconcile_init cfnapi_roll_out
  normal_lem engine meta spec s = in_order_lem (service_of engine meta spec) s
  normal_lem api meta spec s = in_order_lem (service_of api meta spec) s
  normal_lem cfnapi meta spec s = in_order_lem (service_of cfnapi meta spec) s

  pub delete_lem :
      (c : Component) (meta : ObjectMeta) (spec : ChildSpec) (finalizers : List String)
      (s : State C)
      → delete_of c meta spec (finalizers, s)
        ≡ reconcile_delete ops env (service_of c meta spec) (finalizers, s)
  unfolding reconcile_delete release_everything engine_reconcile_delete engine_release
      api_reconcile_delete api_release cfnapi_reconcile_delete cfnapi_release
  delete_lem engine meta spec finalizers s = refl
  delete_lem api meta spec finalizers s = refl
  delete_lem cfnapi meta spec finalizers s = refl

  -- Each of the three reconcilers, written out in the order of its own file, is the shared model at
  -- its component: reconcileNormal and reconcileDelete return the same, and leave the same status,
  -- finalizers and calls, from every state and whatever the cluster replies.
  pub instances_agree :
      (c : Component) (meta : ObjectMeta) (spec : ChildSpec) (finalizers : List String)
      (s : State C)
      → (normal_of c meta spec s ≡ reconcile_normal ops env (service_of c meta spec) s)
        × (delete_of c meta spec (finalizers, s)
            ≡ reconcile_delete ops env (service_of c meta spec) (finalizers, s))
  instances_agree c meta spec finalizers s =
      (normal_lem c meta spec s, delete_lem c meta spec finalizers s)
