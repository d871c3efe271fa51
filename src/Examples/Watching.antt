-- ===== src/Examples/Watching.antt =====
-- A Secret that changes, and a HeatAPI that uses it.
use heat_operator.Base.{
  String, false, arith, eq_iff, lookup, select, [], ◌∷◌, List, refl, ◌≡◌, ◌==◌, ◌&&◌,
}
use heat_operator.Heat.ChildSpec.{ChildSpec}
use heat_operator.Controller.Heat.Env.{Fetched, found}
use heat_operator.Controller.Watches.{
  Field, Resource, Source, heat_api_watch_fields, heat_api_index, find_objects_for_src, secret_fn,
}
use heat_operator.Controller.Watches.Laws.{
  Lists, is_requested, is_watched, find_objects_for_src-watched, has_value, is_owned_by,
  secret_fn-owned,
}
use heat_operator.Controller.Watches.Reconcilers.{Client, cfnapi_find_objects_for_src}
use heat_operator.Controller.Watches.Reconcilers.Requested.{cfnapi_unrequested}
use heat_operator.Examples.Services.{api_spec, service_meta}

abbrev pub api_resource : Resource ChildSpec
api_resource = record { meta = service_meta; spec = api_spec }

abbrev cert_secret : Source
cert_secret = record { name = "cert"; namespace = "openstack"; labels = [] }

abbrev pub list_store : Field → (name namespace : String) → Fetched (List (Resource ChildSpec))
list_store field name namespace = found (
    select
      (λ cr.
        cr.meta.namespace == namespace
        && has_value heat_api_index (api_resource ∷ []) field name cr)
      (api_resource ∷ []))

by_field : (fields : List Field) → Lists heat_api_index (api_resource ∷ []) list_store fields
by_field [] = tt
by_field (field ∷ fields) = (λ name namespace. refl, by_field fields)

find_objects_for_src-watched_example :
    is_requested "openstack" "heat-api"
      (find_objects_for_src list_store heat_api_watch_fields cert_secret)
    ≡ is_watched heat_api_index
        (api_resource ∷ [])
        heat_api_watch_fields
        cert_secret
        "openstack"
        "heat-api"
find_objects_for_src-watched_example =
    find_objects_for_src-watched heat_api_index (api_resource ∷ []) list_store heat_api_watch_fields
      (by_field heat_api_watch_fields) cert_secret "openstack" "heat-api"

abbrev parent_source : Source
parent_source = record {
  name = "heat-config-data";
  namespace = "openstack";
  labels = ("owner", "heat") ∷ [];
}

abbrev pub list_all : (namespace : String) → Fetched (List (Resource ChildSpec))
list_all namespace = found (select (λ cr. cr.meta.namespace == namespace) (api_resource ∷ []))

secret_fn-owned_example :
    is_requested "openstack" "heat-api" (secret_fn "owner" list_all parent_source)
    ≡ is_owned_by
        (api_resource ∷ [])
        parent_source
        (lookup "owner" parent_source.labels)
        "openstack"
        "heat-api"
secret_fn-owned_example =
    secret_fn-owned (api_resource ∷ []) "owner" list_all (λ namespace. refl) parent_source
      "openstack" "heat-api"

-- A client that finds the one HeatAPI, and no other resource.
abbrev pub client : Client
client = record {
  heats = λ field name namespace. found [];
  heat_apis = list_store;
  heat_cfn_apis = λ field name namespace. found [];
  heat_engines = λ field name namespace. found [];
  all_heats = λ namespace. found [];
  all_heat_apis = list_all;
  all_heat_cfn_apis = λ namespace. found [];
  all_heat_engines = λ namespace. found [];
}

cfnapi_unrequested_example :
    is_requested "openstack" "heat-cfnapi" (cfnapi_find_objects_for_src client cert_secret) ≡ false
cfnapi_unrequested_example =
    cfnapi_unrequested client (api_resource ∷ []) (by_field heat_api_watch_fields) cert_secret
      "openstack" "heat-cfnapi" (ground (arith, eq_iff "heat-api" "heat-cfnapi"))
