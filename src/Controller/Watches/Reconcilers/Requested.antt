-- ===== src/Controller/Watches/Reconcilers/Requested.antt =====
-- What a change of a Secret or of a Topology makes reconcile.
use heat_operator.Base.{
  String, Bool-cases, Bool, true, false, ◌⊎◌, inl, inr, ◌&&◌, ◌==◌, Option, none, some, List, [],
  ◌∷◌, ◌++◌, any, GoMap, eq_refl, eq_iff, ◌≡◌, refl, ◌∙◌, arith,
}
use heat_operator.Api.Types.{TopoRef}
use heat_operator.Heat.Names.{Component, engine, api, cfnapi}
use heat_operator.Heat.ChildSpec.{ChildSpec}
use heat_operator.Controller.Watches.{
  Field, Resource, Source, heat_cfn_watch_fields, heat_api_index, watch_fields_of, service_index,
  request_of,
}
use heat_operator.Controller.Watches.Laws.{
  Lists, is_requested, is_watched, is_for, has_value, find_objects_for_src-watched,
}
use heat_operator.Controller.Watches.Reconcilers.{
  Client, find_objects_of, list_of, api_find_objects_for_src, cfnapi_find_objects_for_src,
  engine_find_objects_for_src,
}
use heat_operator.Controller.Service.Env.{
  Service, Call, Log, secret_verified, secret_read, ca_cert_validated, certs_validated,
  topology_ensured,
}
use heat_operator.Controller.Service.Inputs.{parent_secret}
use heat_operator.Controller.Service.Watched.{NilOr, TopologyIs, Reads, AllRead, IsCovered}

module _ {P Q : String → Type 0} (f : (name : String) → P name → Q name) where
  NilOr-map : (r : Option String) → NilOr P r → NilOr Q r
  NilOr-map none h = h
  NilOr-map (some name) h = f name h

  TopologyIs-map : (r : Option TopoRef) → TopologyIs P r → TopologyIs Q r
  TopologyIs-map none h = h
  TopologyIs-map (some ref) h = f ref.name h

  Reads-map : (call : Call) → Reads P call → Reads Q call
  Reads-map (secret_verified name fields verified) h = f name h
  Reads-map (secret_read name) h = f name h
  Reads-map (ca_cert_validated name) h = f name h
  Reads-map (certs_validated tls) h =
      (NilOr-map tls.internal_secret_name h.0, NilOr-map tls.public_secret_name h.1)
  Reads-map (topology_ensured wanted last) h = TopologyIs-map wanted h
  Reads-map _ h = tt

  pub AllRead-map : (log : Log) → AllRead P log → AllRead Q log
  AllRead-map [] h = h
  AllRead-map (call ∷ log) h = (Reads-map call h.0, AllRead-map log h.1)

-- The controllers whose findObjectsForSrc lists the resources that they reconcile.
abbrev pub lists_own : Component → Bool
lists_own engine = true
lists_own api = true
lists_own cfnapi = false

-- the Secret or Topology of a name, which carries any labels
abbrev pub object_named : (namespace : String) → GoMap String → (name : String) → Source
object_named namespace labels name = record { name = name; namespace = namespace; labels = labels }

-- A change of the object makes the service reconcile, or the object is the parent's Secret.
abbrev pub IsRequested : Client → Service → GoMap String → (name : String) → Type 0
IsRequested client svc labels name =
    (parent_secret svc.meta ≡ name)
    ⊎ (is_requested svc.meta.namespace svc.meta.name
          (find_objects_of client svc.component (object_named svc.meta.namespace labels name))
        ≡ true)

pub any-in :
    {A : Type 0} (p : A → Bool) (xs : List A) (x : A) (ys : List A)
    → p x ≡ true
    → any p (xs ++ x ∷ ys) ≡ true
any-in p [] x ys h = ground arith
any-in p (y ∷ xs) x ys h = ground (arith, any-in p xs x ys h)

module _ (client : Client) (svc : Service) (labels : GoMap String)
    (before after : List (Resource ChildSpec)) where
  open svc use {meta, spec, component}

  abbrev own : Resource ChildSpec
  own = record { meta = meta; spec = spec }

  abbrev pub store : List (Resource ChildSpec)
  store = before ++ own ∷ after

  watched_lem :
      (fields : List Field) (index : ChildSpec → Field → List String) (name : String)
      → any (λ field. any (λ v. v == name) (index spec field)) fields ≡ true
      → is_watched index store fields
          (object_named meta.namespace labels name)
          meta.namespace
          meta.name
        ≡ true
  watched_lem fields index name h =
      any-in _ before own after (ground (arith, h, eq_refl meta.namespace, eq_refl meta.name))

  requested_lem :
      (c : Component)
      → lists_own c ≡ true
      → Lists (service_index c) store (list_of client c) (watch_fields_of c)
      → (name : String)
      → any (λ field. any (λ v. v == name) (service_index c spec field)) (watch_fields_of c) ≡ true
      → is_requested meta.namespace meta.name
          (find_objects_of client c (object_named meta.namespace labels name))
        ≡ true
  unfolding engine_find_objects_for_src api_find_objects_for_src
  requested_lem engine h lists name given =
      find_objects_for_src-watched (service_index engine) store client.heat_engines
        (watch_fields_of engine) lists (object_named meta.namespace labels name) meta.namespace
        meta.name
      ∙ watched_lem (watch_fields_of engine) (service_index engine) name given
  requested_lem api h lists name given =
      find_objects_for_src-watched (service_index api) store client.heat_apis (watch_fields_of api)
        lists (object_named meta.namespace labels name) meta.namespace meta.name
      ∙ watched_lem (watch_fields_of api) (service_index api) name given
  requested_lem cfnapi h lists name given = ground arith

  module _ (own_list : lists_own component ≡ true)
      (lists : Lists
        (service_index component)
        store
        (list_of client component)
        (watch_fields_of component)) where
    pub covered-IsRequested :
        (name : String) → IsCovered svc name → IsRequested client svc labels name
    covered-IsRequested name h = elim (Bool-cases (parent_secret meta == name)) [
      | inl e ↦ inl (ground (arith, e, eq_iff (parent_secret meta) name))
      | inr e ↦ inr (requested_lem component own_list lists name (ground (arith, h, e)))
    ]

any-and :
    {A : Type 0} (p q r : A → Bool) (xs : List A)
    → any r xs ≡ false
    → any (λ x. p x && q x && r x) xs ≡ false
any-and p q r [] h = refl
any-and p q r (x ∷ xs) h = ground (arith, any-and p q r xs (ground arith))

-- findObjectsForSrc of HeatCfnAPI requests only names of HeatAPIs: whatever object changes, where
-- the client's List finds the HeatAPIs of the namespace by the index function, a name that no
-- HeatAPI of the namespace has is not requested.
pub cfnapi_unrequested :
    (client : Client) (heat_apis : List (Resource ChildSpec))
    (lists : Lists heat_api_index heat_apis client.heat_apis heat_cfn_watch_fields) (src : Source)
    (namespace name : String)
    → any (λ cr. is_for namespace name (request_of cr)) heat_apis ≡ false
    → is_requested namespace name (cfnapi_find_objects_for_src client src) ≡ false
unfolding cfnapi_find_objects_for_src
cfnapi_unrequested client heat_apis lists src namespace name absent =
    find_objects_for_src-watched heat_api_index heat_apis client.heat_apis heat_cfn_watch_fields
      lists src namespace name
    ∙ any-and
        (λ cr.
          any (λ field. has_value heat_api_index heat_apis field src.name cr) heat_cfn_watch_fields)
        (λ cr. cr.meta.namespace == src.namespace) (λ cr. is_for namespace name (request_of cr))
        heat_apis absent
