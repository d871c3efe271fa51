-- ===== src/Controller/Watches/Reconcilers.antt =====
-- findObjectsForSrc and the map functions of each of the four reconcilers, by the client's List on
-- the type that its file names. That of HeatCfnAPI lists the HeatAPIs.
pub mod Requested
use heat_operator.Base.{String, List}
use heat_operator.Api.Types.{HeatSpec}
use heat_operator.Heat.Names.{Component, engine, api, cfnapi}
use heat_operator.Heat.ChildSpec.{ChildSpec}
use heat_operator.Controller.Heat.Env.{Fetched}
use heat_operator.Controller.Watches.{
  Field, Resource, Source, Request, heat_watch_fields, heat_api_watch_fields, heat_cfn_watch_fields,
  heat_engine_watch_fields, find_objects_for_src, find_object_for_src, memcached_fn, secret_fn,
}

-- List by an indexed field and a namespace
abbrev pub ListBy : Type 0 → Type 0
ListBy Spec = Field → (name namespace : String) → Fetched (List (Resource Spec))

-- List of a namespace
abbrev pub ListIn : Type 0 → Type 0
ListIn Spec = (namespace : String) → Fetched (List (Resource Spec))

-- client.List, by the type of the list
pub record Client : Type 0 where
  pub heats : ListBy HeatSpec
  pub heat_apis : ListBy ChildSpec
  pub heat_cfn_apis : ListBy ChildSpec
  pub heat_engines : ListBy ChildSpec
  pub all_heats : ListIn HeatSpec
  pub all_heat_apis : ListIn ChildSpec
  pub all_heat_cfn_apis : ListIn ChildSpec
  pub all_heat_engines : ListIn ChildSpec

module _ (client : Client) where
  -- findObjectsForSrc
  unfoldable pub heat_find_objects_for_src : Source → List Request
  heat_find_objects_for_src = find_objects_for_src client.heats heat_watch_fields

  unfoldable pub api_find_objects_for_src : Source → List Request
  api_find_objects_for_src = find_objects_for_src client.heat_apis heat_api_watch_fields

  unfoldable pub cfnapi_find_objects_for_src : Source → List Request
  cfnapi_find_objects_for_src = find_objects_for_src client.heat_apis heat_cfn_watch_fields

  unfoldable pub engine_find_objects_for_src : Source → List Request
  engine_find_objects_for_src = find_objects_for_src client.heat_engines heat_engine_watch_fields

  -- findObjectForSrc
  unfoldable pub heat_find_object_for_src : Source → List Request
  heat_find_object_for_src = find_object_for_src client.all_heats

  -- memcachedFn
  unfoldable pub heat_memcached_fn : Source → List Request
  heat_memcached_fn = memcached_fn client.all_heats

  -- secretFn
  unfoldable pub api_secret_fn : (owner_label : String) → Source → List Request
  api_secret_fn owner_label = secret_fn owner_label client.all_heat_apis

  unfoldable pub cfnapi_secret_fn : (owner_label : String) → Source → List Request
  cfnapi_secret_fn owner_label = secret_fn owner_label client.all_heat_cfn_apis

  unfoldable pub engine_secret_fn : (owner_label : String) → Source → List Request
  engine_secret_fn owner_label = secret_fn owner_label client.all_heat_engines

  abbrev pub find_objects_of : Component → Source → List Request
  find_objects_of engine = engine_find_objects_for_src
  find_objects_of api = api_find_objects_for_src
  find_objects_of cfnapi = cfnapi_find_objects_for_src

  -- the List of the controller's own resources
  abbrev pub list_of : Component → ListBy ChildSpec
  list_of engine = client.heat_engines
  list_of api = client.heat_apis
  list_of cfnapi = client.heat_cfn_apis
