-- ===== src/Api/Admission/Laws.antt =====
-- What the webhook lets through.
use heat_operator.Base.{
  String, true, Option, none, some, List, [], ◌∷◌, ◌++◌, GoMap, lookup, eq_iff, is_some, ◌≡◌, ◌↔◌,
  ◌⊎◌, refl, arith, ◌∙◌, if◌then◌else◌,
}
use heat_operator.Api.Types.{HeatSpec, HeatSpecCore, ObjectMeta, TopoRef}
use heat_operator.Api.Defaults.{HeatDefaults, default_spec, default_core}
use heat_operator.Api.Validation.{
  FieldPath, FieldError, append_if_err, overrides, new_path, child, Validators, validate_topology,
  heat_topology, database_change, deprecated_update, spec_validate_create, core_validate_create,
  spec_validate_update, core_validate_update, migration_annotation,
}
use heat_operator.Api.Admission.{
  heat, to_verdict, heat_validate_create, heat_validate_update, custom_validate_create,
}

-- The core of a spec: what is left without the container images.
pub to_core : HeatSpec → HeatSpecCore
to_core spec = record {
  base = spec.base;
  heat_api = spec.heat_api.core;
  heat_cfn_api = spec.heat_cfn_api.core;
  heat_engine = spec.heat_engine.template;
}

-- Where the resource has no database migration annotation: validating the core of a spec on creation
-- and on update, as openstack-operator does, gives the warnings and errors that validating the whole
-- spec gives; and defaulting the core is the core of the defaulted spec. With the annotation only
-- the whole spec may change its database, so that nothing is claimed for it.
pub core_agrees :
    (v : Validators) (d : HeatDefaults) (spec old : HeatSpec) (path : FieldPath)
    (annotations : GoMap String) (namespace : String)
    → lookup migration_annotation annotations ≡ none
    → (core_validate_create v (to_core spec) path namespace
        ≡ spec_validate_create v spec path namespace)
      × (core_validate_update v (to_core spec) (to_core old) path namespace
          ≡ spec_validate_update v spec old path annotations namespace)
      × (default_core d (to_core spec) ≡ to_core (default_spec d spec))
unfolding to_core core_validate_create spec_validate_create core_validate_update
    spec_validate_update default_core default_spec
core_agrees v d spec old path annotations namespace h = (refl, rw h, refl)

append-eq-nil {ℓ} : {A : Type ℓ} (xs ys : List A) → (xs ++ ys ≡ []) ↔ ((xs ≡ []) × (ys ≡ []))
append-eq-nil [] ys = ground arith
append-eq-nil (x ∷ xs) ys = ((λ e. cc), (λ e. cc (e.0)))

-- The errors of a check that may return a nil list.
abbrev pub errors : List String × Option (List FieldError) → List FieldError
errors (warns, none) = []
errors (warns, some errs) = errs

-- The error lists of the four topology references, in the order of the code.
abbrev pub refs : HeatSpec → List (Option TopoRef)
refs spec =
    spec.topology_ref ∷ spec.heat_api.topology_ref ∷ spec.heat_cfn_api.topology_ref
    ∷ spec.heat_engine.topology_ref ∷ []

-- The database of an existing deployment stays, or its owner vouched for the new one.
abbrev pub MayMigrate : GoMap String → HeatSpec → HeatSpec → Type 0
MayMigrate annotations old spec =
    (is_some (lookup migration_annotation annotations) ≡ true)
    ⊎ (old.database_instance ≡ "")
    ⊎ (spec.database_instance ≡ old.database_instance)

to_verdict-eq-none :
    (name : String) (r : List String × List FieldError)
    → ((to_verdict name r).1 ≡ none) ↔ (r.1 ≡ [])
to_verdict-eq-none name (warns, []) = ((λ e. refl), (λ e. refl))
to_verdict-eq-none name (warns, e ∷ errs) = ((λ p. cc), (λ p. cc))

append_if_err-errors :
    (r : List String × Option (List FieldError)) → (append_if_err r ([], [])).1 ≡ errors r
append_if_err-errors (warns, none) = refl
append_if_err-errors (warns, some errs) = refl

database_gate :
    (annotations : GoMap String) (old spec : HeatSpec)
    → ((if is_some (lookup migration_annotation annotations)
          then []
          else database_change old.base spec.base)
        ≡ [])
      ↔ MayMigrate annotations old spec
unfolding database_change
database_gate annotations old spec =
    ground
      (arith, eq_iff old.database_instance "", eq_iff spec.database_instance old.database_instance)

append₃-eq-nil {ℓ} :
    {A : Type ℓ} (a b c d e : List A)
    → (a ++ (b ++ ((c ++ d) ++ e)) ≡ []) ↔ ((a ≡ []) × (b ≡ []) × (c ≡ []) × (d ≡ []) × (e ≡ []))
append₃-eq-nil a b c d e = ground (
  arith,
  append-eq-nil a (b ++ ((c ++ d) ++ e)),
  append-eq-nil b ((c ++ d) ++ e),
  append-eq-nil (c ++ d) e,
  append-eq-nil c d,
)

module _ (v : Validators) (meta old_meta : ObjectMeta) (spec old : HeatSpec) where
  abbrev root : FieldPath
  root = new_path "spec"

  -- ValidateUpdate admits a spec exactly when no deprecated field is changed, the database instance
  -- stays or may migrate, the overrides of both APIs are valid and so are the topology references.
  pub heat_validate_update_iff :
      ((heat_validate_update v meta spec (heat old_meta old)).1 ≡ none) ↔ (
        (errors (deprecated_update v spec.base old.base root) ≡ [])
        × MayMigrate meta.annotations old spec
        × (v.validate_routed_overrides
              (child (child (child root "heatAPI") "override") "service")
              spec.heat_api.override
            ≡ [])
        × (v.validate_routed_overrides
              (child (child (child root "heatCfnAPI") "override") "service")
              spec.heat_cfn_api.override
            ≡ [])
        × (heat_topology v spec root meta.namespace ≡ []))
  unfolding heat_validate_update spec_validate_update
  heat_validate_update_iff =
      let service = λ (api : String). child (child (child root api) "override") "service" in
      let found = append_if_err-errors (deprecated_update v spec.base old.base root) in
      let (to, from) =
        to_verdict-eq-none meta.name
          (spec_validate_update v spec old root meta.annotations meta.namespace) in
      let (gate_to, gate_from) = database_gate meta.annotations old spec in
      let (split, join) =
        append₃-eq-nil (errors (deprecated_update v spec.base old.base root))
          (if is_some (lookup migration_annotation meta.annotations)
            then []
            else database_change old.base spec.base)
          (v.validate_routed_overrides (service "heatAPI") spec.heat_api.override)
          (v.validate_routed_overrides (service "heatCfnAPI") spec.heat_cfn_api.override)
          (heat_topology v spec root meta.namespace) in
      (
        (λ h. let e = split (rw found at (to h)) in (e.0, gate_to e.1, e.2, e.3, e.4)),
        (λ h. from (rw found (join (h.0, gate_from h.1, h.2, h.3, h.4)))),
      )

-- A reference to a Topology of the resource's own namespace, named or left out.
abbrev pub IsLocal : String → Option TopoRef → Type 0
IsLocal namespace none = Unit {0}
IsLocal namespace (some ref) = (ref.namespace ≡ "") ⊎ (ref.namespace ≡ namespace)

accepted_topology :
    (v : Validators) (spec : HeatSpec) (path : FieldPath) (namespace : String)
    → ((r : Option TopoRef) (p : FieldPath)
        → v.validate_topology_ref r p namespace ≡ []
        → IsLocal namespace r)
    → heat_topology v spec path namespace ≡ []
    → IsLocal namespace spec.topology_ref
      × IsLocal namespace spec.heat_api.topology_ref
      × IsLocal namespace spec.heat_cfn_api.topology_ref
      × IsLocal namespace spec.heat_engine.topology_ref
unfolding heat_topology validate_topology
accepted_topology v spec path namespace local none_found =
    let f = λ (r : Option TopoRef) (p : FieldPath). v.validate_topology_ref r p namespace in
    let e₁ = (append-eq-nil (f spec.topology_ref (child path "topologyRef")) _).0 none_found in
    let e₂ =
      (append-eq-nil (f spec.heat_api.topology_ref (child (child path "heatAPI") "topologyRef"))
          _).0
        e₁.1 in
    let e₃ =
      (append-eq-nil
          (f spec.heat_cfn_api.topology_ref (child (child path "heatCfnAPI") "topologyRef")) _).0
        e₂.1 in
    (local _ _ e₁.0, local _ _ e₂.0, local _ _ e₃.0, local _ _ e₃.1)

-- If ValidateTopologyRef reports a reference to a foreign namespace, then a Heat that passes the
-- webhook on creation refers only to topologies of its own namespace, in all four places.
pub created_refs-IsLocal :
    (v : Validators) (meta : ObjectMeta) (spec : HeatSpec)
    → ((r : Option TopoRef) (p : FieldPath)
        → v.validate_topology_ref r p meta.namespace ≡ []
        → IsLocal meta.namespace r)
    → (custom_validate_create v (heat meta spec)).1 ≡ none
    → IsLocal meta.namespace spec.topology_ref
      × IsLocal meta.namespace spec.heat_api.topology_ref
      × IsLocal meta.namespace spec.heat_cfn_api.topology_ref
      × IsLocal meta.namespace spec.heat_engine.topology_ref
unfolding custom_validate_create spec_validate_create
created_refs-IsLocal v meta spec local accepted =
    let root = new_path "spec" in
    let no_errors =
      (to_verdict-eq-none meta.name (spec_validate_create v spec root meta.namespace)).0 accepted in
    let overridden = overrides v root spec.heat_api.override spec.heat_cfn_api.override in
    accepted_topology v spec root meta.namespace local
      ((append-eq-nil overridden (heat_topology v spec root meta.namespace)).0 no_errors).1

-- What is left of a check's warnings: they are appended only beside an error list.
abbrev pub shown : List String × Option (List FieldError) → List String
shown (warns, none) = []
shown (warns, some errs) = warns

to_verdict-warnings :
    (name : String) (r : List String × List FieldError) → (to_verdict name r).0 ≡ r.0
to_verdict-warnings name (warns, []) = refl
to_verdict-warnings name (warns, e ∷ errs) = refl

append_if_err-shown :
    (r : List String × Option (List FieldError)) → (append_if_err r ([], [])).0 ≡ shown r
append_if_err-shown (warns, none) = refl
append_if_err-shown (warns, some errs) = refl

-- The warnings about deprecated fields reach the user only beside errors about them: a creation
-- never returns one, and an update returns them exactly if the check's error list is not nil.
pub deprecation_warnings :
    (v : Validators) (meta old_meta : ObjectMeta) (spec old : HeatSpec)
    → ((heat_validate_create v meta spec).0 ≡ [])
      × ((heat_validate_update v meta spec (heat old_meta old)).0
          ≡ shown (deprecated_update v spec.base old.base (new_path "spec")))
unfolding heat_validate_create heat_validate_update spec_validate_create spec_validate_update
deprecation_warnings v meta old_meta spec old =
    let root = new_path "spec" in
    (
      to_verdict-warnings meta.name (spec_validate_create v spec root meta.namespace),
      to_verdict-warnings meta.name
            (spec_validate_update v spec old root meta.annotations meta.namespace)
          ∙ append_if_err-shown (deprecated_update v spec.base old.base root),
    )
