-- ===== src/Controller/Watches/Laws.antt =====
-- A change of an object requests exactly the listed resources that name it in a watched field.
use heat_operator.Base.{
  String, Bool, false, Option, none, some, lookup, List, [], ◌∷◌, ◌++◌, map, select, any,
  any-append, any-map, any-select, any_none, ◌==◌, ◌&&◌, ◌||◌, ◌≡◌, refl, ap, ◌∙◌, arith,
}
use heat_operator.Heat.Names.{get_owning_heat_name}
use heat_operator.Heat.ChildSpec.{ChildSpec}
use heat_operator.Controller.Heat.Env.{Fetched, found, failed}
use heat_operator.Controller.Watches.{
  Field, Resource, Source, Request, request_of, find_objects, find_objects_for_src, secret_fn,
  in_namespace,
}

abbrev pub is_for : (namespace name : String) → Request → Bool
is_for namespace name r = r.namespace == namespace && r.name == name

abbrev pub is_requested : (namespace name : String) → List Request → Bool
is_requested namespace name = any (is_for namespace name)

module _ {Spec : Type 0} (index : Spec → Field → List String) (store : List (Resource Spec)) where
  abbrev pub has_value : Field → String → Resource Spec → Bool
  has_value field value cr = any (λ v. v == value) (index cr.spec field)

  -- List by the field: the resources of the namespace for which the index function gives the value.
  abbrev pub ListsField :
      (Field → (name namespace : String) → Fetched (List (Resource Spec))) → Field → Type 0
  ListsField list field =
      (name namespace : String)
      → list field name namespace
        ≡ found (select (λ cr. cr.meta.namespace == namespace && has_value field name cr) store)

  -- the same of each of the fields
  abbrev pub Lists :
      (Field → (name namespace : String) → Fetched (List (Resource Spec))) → List Field → Type 0
  Lists list [] = Unit {0}
  Lists list (field ∷ fields) = ListsField list field × Lists list fields

  -- The resource is named so, it is in the namespace of the source, and one of the fields gives
  -- the name of the source.
  abbrev watches : List Field → Source → (namespace name : String) → Resource Spec → Bool
  watches fields src namespace name cr =
      any (λ field. has_value field src.name cr) fields
      && cr.meta.namespace == src.namespace
      && is_for namespace name (request_of cr)

  abbrev pub is_watched : List Field → Source → (namespace name : String) → Bool
  is_watched fields src namespace name = any (watches fields src namespace name) store

  abbrev listed : Field → Source → Resource Spec → Bool
  listed field src cr = cr.meta.namespace == src.namespace && has_value field src.name cr

  first_field :
      (field : Field) (fields : List Field) (src : Source) (namespace name : String)
      (crs : List (Resource Spec))
      → any (watches (field ∷ fields) src namespace name) crs ≡ (
          any (λ cr. listed field src cr && is_for namespace name (request_of cr)) crs
          || any (watches fields src namespace name) crs)
  first_field field fields src namespace name [] = refl
  first_field field fields src namespace name (cr ∷ crs) =
      ground (arith, first_field field fields src namespace name crs)

  -- what one round of the loop adds
  added_requests :
      (field : Field) (src : Source) (requests : List Request) (namespace name : String)
      → is_requested namespace name (requests ++ map request_of (select (listed field src) store))
        ≡ (is_requested namespace name requests
            || any (λ cr. listed field src cr && is_for namespace name (request_of cr)) store)
  added_requests field src requests namespace name =
      any-append (is_for namespace name) requests (map request_of (select (listed field src) store))
      ∙ ap (λ b. is_requested namespace name requests || b)
          (any-map (is_for namespace name) request_of (select (listed field src) store)
            ∙ any-select (λ cr. is_for namespace name (request_of cr)) (listed field src) store)

  module _ (list : Field → (name namespace : String) → Fetched (List (Resource Spec))) where
    find_objects_lem :
        (fields : List Field)
        → Lists list fields
        → (src : Source) (requests : List Request) (namespace name : String)
        → is_requested namespace name (find_objects list fields src requests)
          ≡ (is_requested namespace name requests || is_watched fields src namespace name)
    unfolding find_objects
    find_objects_lem [] lists src requests namespace name = ground (arith, any_none store)
    find_objects_lem (field ∷ fields) (listed_so, lists) src requests namespace name =
        ap (λ reply. is_requested namespace name (loop fields src requests reply))
          (listed_so src.name src.namespace)
        ∙ find_objects_lem fields lists src
            (requests ++ map request_of (select (listed field src) store)) namespace name
        ∙ ground (
          arith,
          added_requests field src requests namespace name,
          first_field field fields src namespace name store,
        )
      where
        loop : List Field → Source → List Request → Fetched (List (Resource Spec)) → List Request
        loop fields src requests reply = elim reply [
          | failed e ↦ requests
          | found items ↦ find_objects list fields src (requests ++ map request_of items)
        ]

  -- Where the client's List by each of the watched fields finds exactly the resources of the namespace whose
  -- index function gives the name, findObjectsForSrc asks for the reconcile of a resource exactly
  -- if the store has one of that name in the namespace of the changed object and one of the
  -- watched fields of its spec names the object.
  pub find_objects_for_src-watched :
      (list : Field → (name namespace : String) → Fetched (List (Resource Spec)))
      (fields : List Field) (lists : Lists list fields) (src : Source) (namespace name : String)
      → is_requested namespace name (find_objects_for_src list fields src)
        ≡ is_watched fields src namespace name
  unfolding find_objects_for_src
  find_objects_for_src-watched list fields lists src namespace name =
      find_objects_lem list fields lists src [] namespace name

module _ {Spec : Type 0} (store : List (Resource Spec)) where
  abbrev in_space : String → Resource Spec → Bool
  in_space namespace cr = cr.meta.namespace == namespace

  -- List of a whole namespace
  abbrev pub ListsAll : ((namespace : String) → Fetched (List (Resource Spec))) → Type 0
  ListsAll list = (namespace : String) → list namespace ≡ found (select (in_space namespace) store)

  selected_requests :
      (namespace name : String) (space : String) (p : Resource Spec → Bool)
      (to_request : Resource Spec → Request)
      → is_requested namespace name (map to_request (select p (select (in_space space) store)))
        ≡ any (λ cr. in_space space cr && (p cr && is_for namespace name (to_request cr))) store
  selected_requests namespace name space p to_request =
      any-map (is_for namespace name) to_request (select p (select (in_space space) store))
      ∙ any-select (λ cr. is_for namespace name (to_request cr)) p (select (in_space space) store)
      ∙ any-select (λ cr. p cr && is_for namespace name (to_request cr)) (in_space space) store

-- the services of the namespace whose owner of kind Heat has the name
abbrev pub is_owned : List (Resource ChildSpec) → Source → (owner namespace name : String) → Bool
is_owned store src owner namespace name =
    any
      (λ cr.
        cr.meta.namespace == src.namespace
        && (owner == get_owning_heat_name cr.meta.owner_references
            && is_for namespace name (in_namespace src.namespace cr)))
      store

abbrev pub is_owned_by :
    List (Resource ChildSpec) → Source → (label : Option String) → (namespace name : String) → Bool
is_owned_by store src none namespace name = false
is_owned_by store src (some owner) namespace name = is_owned store src owner namespace name

-- Where the client's List finds the resources of the namespace: a Secret that is labelled with the
-- name of a Heat makes exactly the services of its namespace reconcile that this Heat owns, and a
-- Secret without the label makes none.
pub secret_fn-owned :
    (store : List (Resource ChildSpec)) (owner_label : String)
    (list : (namespace : String) → Fetched (List (Resource ChildSpec)))
    (lists : ListsAll store list) (src : Source) (namespace name : String)
    → is_requested namespace name (secret_fn owner_label list src)
      ≡ is_owned_by store src (lookup owner_label src.labels) namespace name
unfolding secret_fn
secret_fn-owned store owner_label list lists src namespace name =
    ap (λ reply. is_requested namespace name (answered reply (lookup owner_label src.labels)))
      (lists src.namespace)
    ∙ by_label (lookup owner_label src.labels)
  where
    answered : Fetched (List (Resource ChildSpec)) → Option String → List Request
    answered reply label = elim reply [
      | failed e ↦ []
      | found items ↦ elim label [
        | none ↦ []
        | some l ↦
            map (in_namespace src.namespace)
              (select (λ cr. l == get_owning_heat_name cr.meta.owner_references) items)
      ]
    ]

    by_label :
        (label : Option String)
        → is_requested namespace name
            (answered (found (select (in_space store src.namespace) store)) label)
          ≡ is_owned_by store src label namespace name
    by_label none = refl
    by_label (some l) =
        selected_requests store namespace name src.namespace
          (λ cr. l == get_owning_heat_name cr.meta.owner_references) (in_namespace src.namespace)
