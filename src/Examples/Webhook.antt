-- ===== src/Examples/Webhook.antt =====
-- The webhook on a concrete Heat resource, with validators that report a foreign namespace.
use heat_operator.Base.{
  String, Option, none, some, List, [], ◌∷◌, ◌==◌, eq_iff, nonempty, lookup, ◌&&◌, not,
  if◌then◌else◌, ◌≡◌, ◌↔◌, inl, refl, arith,
}
use heat_operator.Api.Types.{HeatSpec, TopoRef}
use heat_operator.Api.Defaults.{HeatDefaults, default_spec, default_core}
use heat_operator.Api.Defaults.Laws.{IsFilled, default_spec-IsComplete, default_spec-of_IsComplete}
use heat_operator.Api.Validation.{
  Validators, FieldPath, FieldError, new_path, child, foreign, deprecated_update,
  core_validate_create, spec_validate_create, core_validate_update, spec_validate_update,
  heat_topology,
}
use heat_operator.Api.Admission.{
  heat, custom_validate_create, heat_validate_create, heat_validate_update,
}
use heat_operator.Api.Admission.Laws.{
  to_core, core_agrees, heat_validate_update_iff, created_refs-IsLocal, deprecation_warnings,
  IsLocal, MayMigrate, errors, shown,
}
use heat_operator.Api.Route.{ha_proxy_anno, heat_anno, timeout_text, set_default_route_annotations}
use heat_operator.Api.Route.Laws.{
  IsManual, IsManaged, set_default_route_annotations-IsManual,
  set_default_route_annotations-IsManaged, other_annotations_kept,
}
use heat_operator.Examples.Resource.{some_opaque, written, heat_meta}

abbrev operator_defaults : HeatDefaults
operator_defaults = record {
  api_container_image_url = "api:1";
  cfn_api_container_image_url = "api:1";
  engine_container_image_url = "engine:1";
  db_purge_age = 30;
  db_purge_schedule = "1 0 * * *";
}

operator_defaults-IsFilled : IsFilled operator_defaults
operator_defaults-IsFilled = record {
  api = λ e. ground (arith, eq_iff "api:1" "");
  cfn = λ e. ground (arith, eq_iff "api:1" "");
  engine = λ e. ground (arith, eq_iff "engine:1" "");
  age = ground arith;
  schedule = λ e. ground (arith, eq_iff "1 0 * * *" "");
}

abbrev defaulted : HeatSpec
unfolding default_spec
defaulted = default_spec operator_defaults written

default_spec-of_IsComplete_example :
    default_spec operator_defaults (default_spec operator_defaults written)
    ≡ default_spec operator_defaults written
default_spec-of_IsComplete_example =
    default_spec-of_IsComplete operator_defaults (default_spec operator_defaults written)
      (default_spec-IsComplete operator_defaults written operator_defaults-IsFilled)

abbrev topology_errors : Option TopoRef → String → List FieldError
topology_errors none namespace = []
topology_errors (some ref) namespace =
    if nonempty ref.namespace && not (ref.namespace == namespace)
    then foreign some_opaque ∷ []
    else []

abbrev validators : Validators
validators = record {
  validate_routed_overrides = λ path override. [];
  validate_topology_ref = λ ref path namespace. topology_errors ref namespace;
  validate_deprecated_fields_create = λ fields path. "rabbitMqClusterName is deprecated" ∷ [];
  validate_deprecated_fields_update =
      λ fields path. ("rabbitMqClusterName is deprecated" ∷ [], none);
}

validators-IsLocal :
    (r : Option TopoRef) (p : FieldPath)
    → validators.validate_topology_ref r p "openstack" ≡ []
    → IsLocal "openstack" r
validators-IsLocal none p h = tt
validators-IsLocal (some ref) p h =
    ground (arith, eq_iff ref.namespace "", eq_iff ref.namespace "openstack")

core_agrees_example :
    (core_validate_create validators (to_core written) (new_path "spec") "openstack"
      ≡ spec_validate_create validators written (new_path "spec") "openstack")
    × (core_validate_update validators
          (to_core written)
          (to_core defaulted)
          (new_path "spec")
          "openstack"
        ≡ spec_validate_update validators written defaulted (new_path "spec") [] "openstack")
    × (default_core operator_defaults (to_core written)
        ≡ to_core (default_spec operator_defaults written))
unfolding lookup
core_agrees_example =
    core_agrees validators operator_defaults written defaulted (new_path "spec") [] "openstack" refl

abbrev spec_path : FieldPath
spec_path = new_path "spec"

heat_validate_update_iff_example :
    ((heat_validate_update validators heat_meta written (heat heat_meta written)).1 ≡ none) ↔ (
      (errors (deprecated_update validators written.base written.base spec_path) ≡ [])
      × MayMigrate heat_meta.annotations written written
      × (validators.validate_routed_overrides
            (child (child (child spec_path "heatAPI") "override") "service")
            written.heat_api.override
          ≡ [])
      × (validators.validate_routed_overrides
            (child (child (child spec_path "heatCfnAPI") "override") "service")
            written.heat_cfn_api.override
          ≡ [])
      × (heat_topology validators written spec_path heat_meta.namespace ≡ []))
heat_validate_update_iff_example =
    heat_validate_update_iff validators heat_meta heat_meta written written

created_refs-IsLocal_example :
    IsLocal "openstack" written.topology_ref
    × IsLocal "openstack" written.heat_api.topology_ref
    × IsLocal "openstack" written.heat_cfn_api.topology_ref
    × IsLocal "openstack" written.heat_engine.topology_ref
unfolding custom_validate_create heat_validate_create spec_validate_create heat_topology
created_refs-IsLocal_example =
    created_refs-IsLocal validators heat_meta written validators-IsLocal refl

deprecation_warnings_example :
    ((heat_validate_create validators heat_meta written).0 ≡ [])
    × ((heat_validate_update validators heat_meta written (heat heat_meta written)).0
        ≡ shown (deprecated_update validators written.base written.base (new_path "spec")))
deprecation_warnings_example = deprecation_warnings validators heat_meta heat_meta written written

set_default_route_annotations-IsManual_example :
    IsManual
      (set_default_route_annotations 600 ((ha_proxy_anno, "90s") ∷ (heat_anno, "60s") ∷ []))
      "90s"
unfolding lookup
set_default_route_annotations-IsManual_example =
    set_default_route_annotations-IsManual 600 ((ha_proxy_anno, "90s") ∷ (heat_anno, "60s") ∷ [])
      "90s" refl (λ e. ground (arith, eq_iff "60s" "90s"))

set_default_route_annotations-IsManaged_example :
    IsManaged (set_default_route_annotations 600 []) (timeout_text 600)
unfolding lookup
set_default_route_annotations-IsManaged_example =
    set_default_route_annotations-IsManaged 600 [] (inl refl)

other_annotations_kept_example :
    lookup "team" (set_default_route_annotations 600 (("team", "cloud") ∷ []))
    ≡ lookup "team" (("team", "cloud") ∷ [])
other_annotations_kept_example =
    other_annotations_kept 600 (("team", "cloud") ∷ []) "team"
      (λ e. ground (arith, eq_iff heat_anno "team"))
      (λ e. ground (arith, eq_iff ha_proxy_anno "team"))
