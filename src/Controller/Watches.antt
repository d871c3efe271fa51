-- ===== src/Controller/Watches.antt =====
-- What makes the four controllers reconcile again: the fields that SetupWithManager indexes,
-- findObjectsForSrc and findObjectForSrc, and the map functions memcachedFn and secretFn. The
-- client's List is a parameter: by an indexed field, or of a whole namespace.
pub mod Laws
pub mod Reconcilers
use heat_operator.Base.{
  String, Bool, Option, none, some, List, [], ◌∷◌, ◌++◌, map, GoMap, lookup, select, nonempty, any,
  ◌==◌, ◌&&◌, ◌||◌, if◌then◌else◌,
}
use heat_operator.Api.Types.{ObjectMeta, HeatSpec, TopoRef}
use heat_operator.Heat.Names.{Component, engine, api, cfnapi, get_owning_heat_name}
use heat_operator.Heat.ChildSpec.{ChildSpec}
use heat_operator.Controller.Conditions.{Err}
use heat_operator.Controller.Heat.Env.{Fetched, found, failed}

-- the indexed fields, `passwordSecretField` and so on
pub data Field : Type 0 where
  password_secret transport_url_secret ca_bundle_secret_name tls_api_internal : Field
  tls_api_public custom_service_config topology auth_app_cred_secret : Field

abbrev pub heat_watch_fields : List Field
heat_watch_fields = password_secret ∷ custom_service_config ∷ auth_app_cred_secret ∷ []

abbrev pub heat_api_watch_fields : List Field
heat_api_watch_fields =
    password_secret ∷ transport_url_secret ∷ ca_bundle_secret_name ∷ tls_api_internal
    ∷ tls_api_public ∷ custom_service_config ∷ topology ∷ []

abbrev pub heat_cfn_watch_fields : List Field
heat_cfn_watch_fields =
    password_secret ∷ transport_url_secret ∷ ca_bundle_secret_name ∷ tls_api_internal
    ∷ tls_api_public ∷ custom_service_config ∷ topology ∷ []

abbrev pub heat_engine_watch_fields : List Field
heat_engine_watch_fields =
    password_secret ∷ transport_url_secret ∷ ca_bundle_secret_name ∷ custom_service_config
    ∷ topology ∷ []

abbrev pub watch_fields_of : Component → List Field
watch_fields_of engine = heat_engine_watch_fields
watch_fields_of api = heat_api_watch_fields
watch_fields_of cfnapi = heat_cfn_watch_fields

-- `if s == "" { return nil }; return []string{s}`
abbrev unless_empty : String → List String
unless_empty s = if nonempty s then s ∷ [] else []

abbrev unless_nil : Option String → List String
unless_nil none = []
unless_nil (some s) = s ∷ []

abbrev topology_name : Option TopoRef → List String
topology_name none = []
topology_name (some ref) = ref.name ∷ []

-- the index functions of the Heat controller
unfoldable pub heat_index : HeatSpec → Field → List String
heat_index spec password_secret = unless_empty spec.secret
heat_index spec custom_service_config = spec.custom_service_config_secrets
heat_index spec auth_app_cred_secret = unless_empty spec.application_credential_secret
heat_index spec _ = []

-- The index functions of the services' controllers, which are written alike. That of the
-- TransportURL's secret tests Spec.Secret.
abbrev transport_index : ChildSpec → List String
transport_index spec =
    if nonempty spec.heat_template.secret then spec.transport_url_secret ∷ [] else []

-- the index functions of the HeatAPI controller
unfoldable pub heat_api_index : ChildSpec → Field → List String
heat_api_index spec password_secret = unless_empty spec.heat_template.secret
heat_api_index spec transport_url_secret = transport_index spec
heat_api_index spec ca_bundle_secret_name = unless_empty spec.tls.ca_bundle_secret_name
heat_api_index spec tls_api_internal = unless_nil spec.tls.internal_secret_name
heat_api_index spec tls_api_public = unless_nil spec.tls.public_secret_name
heat_api_index spec custom_service_config = spec.template.custom_service_config_secrets
heat_api_index spec topology = topology_name spec.template.topology_ref
heat_api_index spec auth_app_cred_secret = []

-- the index functions of the HeatCfnAPI controller
unfoldable pub heat_cfn_api_index : ChildSpec → Field → List String
heat_cfn_api_index spec password_secret = unless_empty spec.heat_template.secret
heat_cfn_api_index spec transport_url_secret = transport_index spec
heat_cfn_api_index spec ca_bundle_secret_name = unless_empty spec.tls.ca_bundle_secret_name
heat_cfn_api_index spec tls_api_internal = unless_nil spec.tls.internal_secret_name
heat_cfn_api_index spec tls_api_public = unless_nil spec.tls.public_secret_name
heat_cfn_api_index spec custom_service_config = spec.template.custom_service_config_secrets
heat_cfn_api_index spec topology = topology_name spec.template.topology_ref
heat_cfn_api_index spec auth_app_cred_secret = []

-- the index functions of the HeatEngine controller, which has none for the endpoints' certificates
unfoldable pub heat_engine_index : ChildSpec → Field → List String
heat_engine_index spec password_secret = unless_empty spec.heat_template.secret
heat_engine_index spec transport_url_secret = transport_index spec
heat_engine_index spec ca_bundle_secret_name = unless_empty spec.tls.ca_bundle_secret_name
heat_engine_index spec custom_service_config = spec.template.custom_service_config_secrets
heat_engine_index spec topology = topology_name spec.template.topology_ref
heat_engine_index spec _ = []

abbrev pub service_index : Component → ChildSpec → Field → List String
service_index engine = heat_engine_index
service_index api = heat_api_index
service_index cfnapi = heat_cfn_api_index

-- A custom resource, as far as the functions read it.
pub record Resource (Spec : Type 0) : Type 0 where
  pub meta : ObjectMeta
  pub spec : Spec

-- the object that changed
pub record Source : Type 0 where
  pub name : String
  pub namespace : String
  pub labels : GoMap String

pub record Request : Type 0 where
  pub namespace : String
  pub name : String

module _ {Spec : Type 0} where
  abbrev pub request_of : Resource Spec → Request
  request_of cr = record { namespace = cr.meta.namespace; name = cr.meta.name }

  -- The loop of findObjectsForSrc. A List that fails ends it with the requests found so far.
  unfoldable pub find_objects :
      (list : Field → (name namespace : String) → Fetched (List (Resource Spec)))
      → List Field
      → Source
      → List Request
      → List Request
  find_objects list [] src requests = requests
  find_objects list (field ∷ fields) src requests = elim (list field src.name src.namespace) [
    | failed e ↦ requests
    | found items ↦ find_objects list fields src (requests ++ map request_of items)
  ]

  -- findObjectsForSrc
  unfoldable pub find_objects_for_src :
      (list : Field → (name namespace : String) → Fetched (List (Resource Spec)))
      → List Field
      → Source
      → List Request
  unfolding find_objects
  find_objects_for_src list fields src = find_objects list fields src []

  -- findObjectForSrc: every resource of the namespace
  unfoldable pub find_object_for_src :
      (list : (namespace : String) → Fetched (List (Resource Spec))) → Source → List Request
  find_object_for_src list src = elim (list src.namespace) [
    | failed e ↦ []
    | found items ↦ map request_of items
  ]

  abbrev pub in_namespace : String → Resource Spec → Request
  in_namespace namespace cr = record { namespace = namespace; name = cr.meta.name }

-- memcachedFn of the Heat controller
unfoldable pub memcached_fn :
    (list : (namespace : String) → Fetched (List (Resource HeatSpec))) → Source → List Request
memcached_fn list src = elim (list src.namespace) [
  | failed e ↦ []
  | found items ↦
      map (in_namespace src.namespace) (select (λ cr. src.name == cr.spec.memcached_instance) items)
]

-- secretFn of the services: the Secrets that are labelled with the name of the parent Heat.
-- `owner_label` is labels.GetOwnerNameLabelSelector of the group label.
unfoldable pub secret_fn :
    (owner_label : String)
    → (list : (namespace : String) → Fetched (List (Resource ChildSpec))) → Source
    → List Request
secret_fn owner_label list src = elim (list src.namespace) [
  | failed e ↦ []
  | found items ↦ elim (lookup owner_label src.labels) [
    | none ↦ []
    | some l ↦
        map (in_namespace src.namespace)
          (select (λ cr. l == get_owning_heat_name cr.meta.owner_references) items)
  ]
]
