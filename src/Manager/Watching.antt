-- ===== src/Manager/Watching.antt =====
-- From the start of the operator to the request of a reconcile: the index functions that the
-- controllers registered are those by which the manager's client finds the resources, and the watches
-- that they registered call the map functions that do.
use mathlib.Core.Path.{subst}
use heat_operator.Base.{
  ℕ, String, true, false, Option, some, List, [], ◌∷◌, select, any, ◌==◌, ◌&&◌, nonempty, GoMap,
  ◌⊎◌, inl, inr, ◌≡◌, ◌≢◌, Bool, lookup, refl, sym,
}
use heat_operator.Api.Defaults.{heat_api_container_image, heat_engine_container_image}
use heat_operator.Heat.Names.{Component, get_owning_heat_name}
use heat_operator.Heat.ChildSpec.{ChildSpec}
use heat_operator.Controller.Conditions.{CondOps}
use heat_operator.Controller.Heat.Env.{Fetched, found}
use heat_operator.Controller.Service.Env.{Service, Env as ServiceEnv, State as ServiceState, Log}
use heat_operator.Controller.Service.Inputs.{parent_secret}
use heat_operator.Controller.Service.Normal.{reconcile_normal}
use heat_operator.Controller.Service.Watched.{AllRead, AreCovered}
use heat_operator.Controller.Service.Watched.Normal.{reconcile_normal-AreCovered}
use heat_operator.Controller.Setup.{
  Index, Extract, of_service, Builder, k8s_secret, k8s_topology, any_change,
  resource_version_changed, generation_changed,
}
use heat_operator.Controller.Setup.Requests.{
  Update, update_requests, all_controllers, list_all_of, secret_fn_of, by_owner, by_secret,
  by_topology, by_controller, owner-requested,
}
use heat_operator.Controller.Setup.Laws.{lookup_index, AreIndexed, service_extract, kind_of}
use heat_operator.Controller.Watches.{
  Field, Resource, Source, Request, service_index, watch_fields_of,
}
use heat_operator.Controller.Watches.Laws.{Lists, ListsAll, is_requested, is_for}
use heat_operator.Controller.Watches.Reconcilers.{Client, list_of}
use heat_operator.Controller.Watches.Reconcilers.Requested.{
  IsRequested, lists_own, store, object_named, AllRead-map, covered-IsRequested,
}
use heat_operator.Manager.Env.{Env, Flags, State, initial_state}
use heat_operator.Manager.Main.{main}
use heat_operator.Manager.Ready.{KeepsServers, IsOutcome}
use heat_operator.Manager.Ready.Started.{main-IsOutcome}

-- The client answers a List by a field with the index function that was registered for it.
abbrev pub Answers :
    Option Extract
    → List (Resource ChildSpec)
    → ((name namespace : String) → Fetched (List (Resource ChildSpec)))
    → Type 0
Answers (some (of_service f)) resources list =
    (name namespace : String)
    → list name namespace
      ≡ found (
          select (λ cr. cr.meta.namespace == namespace && any (λ v. v == name) (f cr.spec))
            resources)
Answers _ resources list = Unit {0}

-- The client of a manager with these indexes, on the resources of one type.
abbrev pub IsCached : List Index → Component → List (Resource ChildSpec) → Client → Type 0
IsCached indexes c resources client =
    (field : Field)
    → Answers (lookup_index (kind_of c) field indexes) resources (list_of client c field)

module _ (indexes : List Index) (c : Component) (resources : List (Resource ChildSpec))
    (client : Client) (cached : IsCached indexes c resources client) where
  cached-Lists :
      (fields : List Field)
      → AreIndexed (kind_of c) (service_extract c) fields indexes
      → Lists (service_index c) resources (list_of client c) fields
  cached-Lists [] h = tt
  cached-Lists (field ∷ fields) h = (
    subst (λ extract. Answers extract resources (list_of client c field)) h.0 (cached field),
    cached-Lists fields h.1,
  )

-- Updates of a Secret and of a Topology, with the labels that an object of each name has.
pub record Updates (owner_label : String) (svc : Service) : Type 0 where
  pub labels : (name : String) → GoMap String
  pub secret : Update
  pub topology : Update
  -- The parent's Secret names the parent.
  pub from_parent :
      lookup owner_label (labels (parent_secret svc.meta))
      ≡ some (get_owning_heat_name svc.meta.owner_references)
  pub is_update : secret any_change ≡ true
  pub new_version : secret resource_version_changed ≡ true
  pub new_generation : topology generation_changed ≡ true

module _ (client : Client) (owner_label : String) (svc : Service)
    (updates : Updates owner_label svc) where
  open svc use {meta, component}

  abbrev changed : String → Source
  changed name = object_named meta.namespace (updates.labels name) name

  -- The controllers request the service when the Secret of that name is updated, and when the
  -- Topology of that name is, unless it is called like the parent's Secret.
  abbrev pub IsAnswered : List Builder → (name : String) → Type 0
  IsAnswered controllers name =
      (is_requested meta.namespace meta.name (
          update_requests client owner_label component k8s_secret updates.secret (changed name)
            controllers)
        ≡ true)
      × ((parent_secret meta ≡ name)
          ⊎ (is_requested meta.namespace meta.name (
                update_requests client owner_label component k8s_topology updates.topology
                  (changed name) controllers)
              ≡ true))

  module _ (before after : List (Resource ChildSpec))
      (all : ListsAll (store client svc [] before after) (list_all_of client component)) where
    abbrev asked_for : Request → Bool
    asked_for = is_for meta.namespace meta.name

    parent-requested :
        (name : String)
        → parent_secret meta ≡ name
        → is_requested meta.namespace meta.name
            (secret_fn_of client owner_label component (changed name))
          ≡ true
    parent-requested name e =
        subst
          (λ n.
            is_requested meta.namespace meta.name
              (secret_fn_of client owner_label component (changed n))
            ≡ true)
          e
          (owner-requested client owner_label svc before after component
            (changed (parent_secret meta)) refl updates.from_parent all)

    requested-IsAnswered :
        (name : String)
        → IsRequested client svc (updates.labels name) name
        → IsAnswered all_controllers name
    requested-IsAnswered name (inl e) = (
      by_controller client owner_label (changed name) asked_for component k8s_secret updates.secret
          (by_owner client owner_label (changed name) asked_for component updates.secret
            updates.is_update (parent-requested name e)),
      inl e,
    )
    requested-IsAnswered name (inr h) = (
      by_controller client owner_label (changed name) asked_for component k8s_secret updates.secret
          (by_secret client owner_label (changed name) asked_for component updates.secret
            updates.new_version h),
      inr (
          by_controller client owner_label (changed name) asked_for component k8s_topology
            updates.topology
            (by_topology client owner_label (changed name) asked_for component updates.topology
              updates.new_generation h)),
    )

module _ (env : Env) (flags : Flags) (keeps : KeepsServers env)
    (api_image : env.get_env_var "RELATED_IMAGE_HEAT_API_IMAGE_URL_DEFAULT" heat_api_container_image
      ≢ "")
    (engine_image : env.get_env_var "RELATED_IMAGE_HEAT_ENGINE_IMAGE_URL_DEFAULT"
        heat_engine_container_image
      ≢ "") where
  abbrev final_state : State
  final_state = (main env flags initial_state).1

  -- Where operator.SetManagerOptions leaves the servers alone and no image is empty, for a
  -- HeatEngine or a HeatAPI that is in the store and whose spec names the secret of OpenStack: if
  -- main started the manager, its client answers a List by a field with the index function that
  -- main registered for it, and the List of a namespace with the resources in it, then for the name
  -- of every Secret that the service's reconcileNormal reads or validates, and of the Topology that
  -- it asks for: an update of the Secret of that name in the service's namespace makes the watches
  -- of the controllers that main set up request the service, and so does an update of the Topology
  -- of that name, unless it is also the name of the parent's Secret. The update of the Secret is one
  -- that a watch without a predicate and ResourceVersionChangedPredicate let through, that of the
  -- Topology one that GenerationChangedPredicate lets through, and the parent's Secret has the
  -- label that names the parent.
  pub main-AreRequested :
      (client : Client) (owner_label : String) (svc : Service) (updates : Updates owner_label svc)
      (before after : List (Resource ChildSpec))
      → lists_own svc.component ≡ true
      → IsCached
          (main env flags initial_state).1.mgr.indexes
          svc.component
          (store client svc [] before after)
          client
      → ListsAll (store client svc [] before after) (list_all_of client svc.component)
      → {C : Type 0} (ops : CondOps C) (cluster : ServiceEnv C)
      → nonempty svc.spec.heat_template.secret ≡ true
      → (s : ServiceState C) → AreCovered svc s.log
      → ((main env flags initial_state).1.is_started ≡ false)
        ⊎ AllRead
            (IsAnswered client owner_label svc updates
              (main env flags initial_state).1.mgr.controllers)
            (reconcile_normal ops cluster svc s).1.log
  main-AreRequested client owner_label svc updates before after own cached all ops cluster required
        s h =
      from_outcome (main-IsOutcome env flags keeps api_image engine_image)
    where
      log : Log
      log = (reconcile_normal ops cluster svc s).1.log

      answered :
          Lists
            (service_index svc.component)
            (store client svc [] before after)
            (list_of client svc.component)
            (watch_fields_of svc.component)
          → AllRead (IsAnswered client owner_label svc updates all_controllers) log
      answered lists =
          AllRead-map
            (λ name covered.
              requested-IsAnswered client owner_label svc updates before after all name (
                covered-IsRequested client svc (updates.labels name) before after own lists name
                  covered))
            log (reconcile_normal-AreCovered ops cluster svc required s h)

      from_outcome :
          {r : ℕ}
          → IsOutcome env flags env.start r final_state
          → (final_state.is_started ≡ false)
            ⊎ AllRead (IsAnswered client owner_label svc updates final_state.mgr.controllers) log
      from_outcome (inl (_, idle)) = inl idle
      from_outcome (inr (_, ready, _)) = inr (
          subst (λ controllers. AllRead (IsAnswered client owner_label svc updates controllers) log)
            (sym ready.controllers)
            (answered (
              cached-Lists final_state.mgr.indexes svc.component (store client svc [] before after)
                client cached (watch_fields_of svc.component)
                (ready.service_fields svc.component))))
