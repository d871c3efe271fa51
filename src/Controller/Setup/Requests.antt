-- ===== src/Controller/Setup/Requests.antt =====
-- The requests that the watches of a service's controller make when a Secret or a Topology is
-- updated: the map function of each watch whose predicate lets the update through.
use heat_operator.Base.{
  String, Bool, true, false, some, lookup, List, [], ◌∷◌, ◌++◌, any, any-append, ◌&&◌,
  if◌then◌else◌, eq_refl, ◌≡◌, ap, ◌∙◌, arith,
}
use heat_operator.Heat.Names.{Component, engine, api, cfnapi, get_owning_heat_name}
use heat_operator.Heat.ChildSpec.{ChildSpec}
use heat_operator.Controller.Service.Env.{Service}
use heat_operator.Controller.Setup.{
  Kind, Handler, Predicate, Watch, Builder, k8s_secret, k8s_topology, by_find_objects_for_src,
  by_secret_fn, any_change, resource_version_changed, generation_changed,
}
use heat_operator.Controller.Setup.Controllers.{
  heat_builder, heat_api_builder, heat_cfn_api_builder, heat_engine_builder,
}
use heat_operator.Controller.Setup.Laws.{same_kind, kind_of}
use heat_operator.Controller.Watches.{Resource, Source, Request, secret_fn}
use heat_operator.Controller.Watches.Laws.{ListsAll, is_requested, is_owned_by, secret_fn-owned}
use heat_operator.Controller.Watches.Reconcilers.{
  Client, ListIn, find_objects_of, engine_secret_fn, api_secret_fn, cfnapi_secret_fn,
}
use heat_operator.Controller.Watches.Reconcilers.Requested.{store, any-in}

-- An update of an object: whether each predicate lets it through.
abbrev pub Update : Type 0
Update = Predicate → Bool

-- whether a watch is on the updated type
abbrev pub same_object : Kind → Kind → Bool
same_object k8s_secret k8s_secret = true
same_object k8s_topology k8s_topology = true
same_object _ _ = false

module _ (client : Client) (owner_label : String) where
  abbrev pub secret_fn_of : Component → Source → List Request
  secret_fn_of engine = engine_secret_fn client owner_label
  secret_fn_of api = api_secret_fn client owner_label
  secret_fn_of cfnapi = cfnapi_secret_fn client owner_label

module _ (client : Client) (owner_label : String) (c : Component) where
  -- The services have no other map function.
  abbrev handle : Handler → Source → List Request
  handle by_find_objects_for_src src = find_objects_of client c src
  handle by_secret_fn src = secret_fn_of client owner_label c src
  handle _ src = []

  module _ (kind : Kind) (update : Update) (src : Source) where
    abbrev watch_requests : List Watch → List Request
    watch_requests [] = []
    watch_requests (w ∷ watches) =
        (if same_object kind w.kind && update w.predicate then handle w.handler src else [])
        ++ watch_requests watches

    -- what the controllers of the service's type request
    abbrev pub update_requests : List Builder → List Request
    update_requests [] = []
    update_requests (b ∷ builders) =
        (if same_kind (kind_of c) b.reconciled then watch_requests b.watched else [])
        ++ update_requests builders

-- the four controllers, as main leaves them
abbrev pub all_controllers : List Builder
all_controllers = heat_engine_builder ∷ heat_cfn_api_builder ∷ heat_api_builder ∷ heat_builder ∷ []

abbrev pub list_all_of : Client → Component → ListIn ChildSpec
list_all_of client engine = client.all_heat_engines
list_all_of client api = client.all_heat_apis
list_all_of client cfnapi = client.all_heat_cfn_apis

any-first : {A : Type 0} (p : A → Bool) (xs ys : List A) → any p xs ≡ true → any p (xs ++ ys) ≡ true
any-first p xs ys h = ground (arith, any-append p xs ys)

any-second :
    {A : Type 0} (p : A → Bool) (xs ys : List A) → any p ys ≡ true → any p (xs ++ ys) ≡ true
any-second p xs ys h = ground (arith, any-append p xs ys)

any-chosen :
    {A : Type 0} (p : A → Bool) (b : Bool) (xs : List A)
    → b ≡ true
    → any p xs ≡ true
    → any p (if b then xs else []) ≡ true
any-chosen p true xs e h = h
any-chosen p false xs e h = ground arith

module _ (client : Client) (owner_label : String) (src : Source) (p : Request → Bool) where
  -- the requests of the three watches of a service's builder
  pub by_owner :
      (c : Component) (update : Update)
      → update any_change ≡ true
      → any p (secret_fn_of client owner_label c src) ≡ true
      → any p (watch_requests client owner_label c k8s_secret update src heat_api_builder.watched)
        ≡ true
  by_owner c update e h = any-first p _ _ (any-chosen p (update any_change) _ e h)

  pub by_secret :
      (c : Component) (update : Update)
      → update resource_version_changed ≡ true
      → any p (find_objects_of client c src) ≡ true
      → any p (watch_requests client owner_label c k8s_secret update src heat_api_builder.watched)
        ≡ true
  by_secret c update e h =
      any-second p (if update any_change then secret_fn_of client owner_label c src else []) _
        (any-first p _ _ (any-chosen p (update resource_version_changed) _ e h))

  pub by_topology :
      (c : Component) (update : Update)
      → update generation_changed ≡ true
      → any p (find_objects_of client c src) ≡ true
      → any p (watch_requests client owner_label c k8s_topology update src heat_api_builder.watched)
        ≡ true
  by_topology c update e h = any-first p _ _ (any-chosen p (update generation_changed) _ e h)

  -- The controller of the service is one of the four, and has the three watches.
  pub by_controller :
      (c : Component) (kind : Kind) (update : Update)
      → any p (watch_requests client owner_label c kind update src heat_api_builder.watched) ≡ true
      → any p (update_requests client owner_label c kind update src all_controllers) ≡ true
  by_controller engine kind update h = any-first p _ _ h
  by_controller cfnapi kind update h = any-first p _ _ h
  by_controller api kind update h = any-first p _ _ h

module _ (client : Client) (owner_label : String) (svc : Service)
    (before after : List (Resource ChildSpec)) where
  open svc use {meta, spec, component}

  abbrev owner : String
  owner = get_owning_heat_name meta.owner_references

  -- A Secret with the name of the parent on its label makes the service reconcile.
  owned_lem :
      (src : Source)
      → src.namespace ≡ meta.namespace
      → lookup owner_label src.labels ≡ some owner
      → (list : ListIn ChildSpec) → ListsAll (store client svc [] before after) list
      → is_requested meta.namespace meta.name (secret_fn owner_label list src) ≡ true
  owned_lem src here labelled list all =
      secret_fn-owned (store client svc [] before after) owner_label list all src meta.namespace
        meta.name
      ∙ ap (λ l. is_owned_by (store client svc [] before after) src l meta.namespace meta.name)
          labelled
      ∙ any-in _ before (record { meta = meta; spec = spec }) after
          (ground (arith, here, eq_refl meta.namespace, eq_refl owner, eq_refl meta.name))

  pub owner-requested :
      (c : Component) (src : Source)
      → src.namespace ≡ meta.namespace
      → lookup owner_label src.labels ≡ some owner
      → ListsAll (store client svc [] before after) (list_all_of client c)
      → is_requested meta.namespace meta.name (secret_fn_of client owner_label c src) ≡ true
  unfolding engine_secret_fn api_secret_fn cfnapi_secret_fn
  owner-requested engine src here labelled all = owned_lem src here labelled _ all
  owner-requested api src here labelled all = owned_lem src here labelled _ all
  owner-requested cfnapi src here labelled all = owned_lem src here labelled _ all
