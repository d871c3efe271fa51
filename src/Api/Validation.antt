-- ===== src/Api/Validation.antt =====
-- The validating half of api/v1beta1/heat_webhook.go, ValidateTopology of common_types.go, and
-- the adapters of internal/webhook/v1beta1/heat_webhook.go. The validators of lib-common and
-- infra-operator are the record `Validators`.
use heat_operator.Base.{
  String, not, ◌&&◌, Option, none, some, List, [], ◌∷◌, ◌++◌, GoMap, lookup, ◌==◌, nonempty,
  is_some, if◌then◌else◌, map,
}
use heat_operator.Api.Types.{
  Opaque, TopoRef, HeatServiceTemplate, HeatSpecBase, HeatSpec, HeatSpecCore,
}

-- field.Path, built by NewPath and Child
pub data FieldPath : Type 0 where
  new_path : String → FieldPath
  child : FieldPath → String → FieldPath

-- field.Error: made here by field.Forbidden, or by one of the validators
pub data FieldError : Type 0 where
  forbidden : FieldPath → String → FieldError
  foreign : Opaque → FieldError

-- common_webhook.DeprecatedFieldUpdate; DeprecatedField leaves the old value out
pub record DeprecatedFieldUpdate : Type 0 where
  pub deprecated_field_name : String
  pub new_field_path : List String
  pub new_deprecated_value : String
  pub old_deprecated_value : Option String
  pub new_value : String

pub record DeprecatedField : Type 0 where
  pub deprecated_field_name : String
  pub new_field_path : List String
  pub deprecated_value : String
  pub new_value : String

-- An error list that may be nil is an `Option`.
pub record Validators : Type 0 where
  pub validate_routed_overrides : FieldPath → GoMap Opaque → List FieldError
  pub validate_topology_ref : Option TopoRef → FieldPath → String → List FieldError
  pub validate_deprecated_fields_create : List DeprecatedField → FieldPath → List String
  pub validate_deprecated_fields_update :
      List DeprecatedFieldUpdate → FieldPath → List String × Option (List FieldError)

unfoldable pub get_deprecated_fields :
    HeatSpecBase → Option HeatSpecBase → List DeprecatedFieldUpdate
get_deprecated_fields spec old =
    record {
      deprecated_field_name = "rabbitMqClusterName";
      new_field_path = "messagingBus" ∷ "cluster" ∷ [];
      new_deprecated_value = spec.rabbit_mq_cluster_name;
      old_deprecated_value = elim old [ none ↦ none | some o ↦ some o.rabbit_mq_cluster_name ];
      new_value = spec.messaging_bus.cluster;
    }
    ∷ []

abbrev pub to_deprecated_field : DeprecatedFieldUpdate → DeprecatedField
to_deprecated_field df = record {
  deprecated_field_name = df.deprecated_field_name;
  new_field_path = df.new_field_path;
  deprecated_value = df.new_deprecated_value;
  new_value = df.new_value;
}

abbrev pub migration_annotation : String
migration_annotation = "heat.openstack.org/database-migration"

-- What every validation appends: the warnings and errors of a check whose error list is not nil.
abbrev pub append_if_err :
    List String × Option (List FieldError)
    → List String × List FieldError
    → List String × List FieldError
append_if_err (warns, none) (all_warns, all_errs) = (all_warns, all_errs)
append_if_err (warns, some err) (all_warns, all_errs) = (all_warns ++ warns, all_errs ++ err)

-- The guard on databaseInstance that both updates share.
unfoldable pub database_change : HeatSpecBase → HeatSpecBase → List FieldError
database_change old r =
    if nonempty old.database_instance && not (r.database_instance == old.database_instance)
    then forbidden (new_path "spec.databaseInstance")
        "Changing the DatabaseInstance is not supported for existing deployments"
      ∷ []
    else []

module _ (v : Validators) where
  open v use {
    validate_routed_overrides, validate_topology_ref, validate_deprecated_fields_create,
    validate_deprecated_fields_update,
  }

  -- the second result is the nil of the source
  unfoldable pub deprecated_create :
      HeatSpecBase → FieldPath → List String × Option (List FieldError)
  unfolding get_deprecated_fields
  deprecated_create spec base_path = (
    validate_deprecated_fields_create (map to_deprecated_field (get_deprecated_fields spec none))
        base_path,
    none,
  )

  unfoldable pub deprecated_update :
      HeatSpecBase → HeatSpecBase → FieldPath → List String × Option (List FieldError)
  unfolding get_deprecated_fields
  deprecated_update spec old base_path =
      validate_deprecated_fields_update (get_deprecated_fields spec (some old)) base_path

  -- (instance *HeatServiceTemplate) ValidateTopology
  unfoldable pub validate_topology : HeatServiceTemplate → FieldPath → String → List FieldError
  validate_topology t base_path namespace =
      validate_topology_ref t.topology_ref (child base_path "topologyRef") namespace

  -- (spec *HeatSpec) ValidateHeatTopology
  unfoldable pub heat_topology : HeatSpec → FieldPath → String → List FieldError
  unfolding validate_topology
  heat_topology spec base_path namespace =
      validate_topology_ref spec.topology_ref (child base_path "topologyRef") namespace
      ++ (validate_topology spec.heat_api.template (child base_path "heatAPI") namespace
          ++ (validate_topology spec.heat_cfn_api.template (child base_path "heatCfnAPI") namespace
              ++ validate_topology spec.heat_engine.template (child base_path "heatEngine")
                  namespace))

  -- (spec *HeatSpecCore) ValidateHeatTopology
  unfoldable pub heat_topology_core : HeatSpecCore → FieldPath → String → List FieldError
  unfolding validate_topology
  heat_topology_core spec base_path namespace =
      validate_topology_ref spec.topology_ref (child base_path "topologyRef") namespace
      ++ (validate_topology spec.heat_api.template (child base_path "heatAPI") namespace
          ++ (validate_topology spec.heat_cfn_api.template (child base_path "heatCfnAPI") namespace
              ++ validate_topology spec.heat_engine (child base_path "heatEngine") namespace))

  abbrev pub service_path : FieldPath → String → FieldPath
  service_path base_path api = child (child (child base_path api) "override") "service"

  abbrev pub overrides : FieldPath → GoMap Opaque → GoMap Opaque → List FieldError
  overrides base_path api cfn =
      validate_routed_overrides (service_path base_path "heatAPI") api
      ++ validate_routed_overrides (service_path base_path "heatCfnAPI") cfn

  -- (r *HeatSpec) ValidateCreate
  unfoldable pub spec_validate_create :
      HeatSpec → FieldPath → String → List String × List FieldError
  unfolding deprecated_create heat_topology
  spec_validate_create r base_path namespace =
      let (warns, errs) = append_if_err (deprecated_create r.base base_path) ([], []) in
      (
        warns,
        errs
            ++ (overrides base_path r.heat_api.override r.heat_cfn_api.override
                ++ heat_topology r base_path namespace),
      )

  -- (r *HeatSpecCore) ValidateCreate
  unfoldable pub core_validate_create :
      HeatSpecCore → FieldPath → String → List String × List FieldError
  unfolding deprecated_create heat_topology_core
  core_validate_create r base_path namespace =
      let (warns, errs) = append_if_err (deprecated_create r.base base_path) ([], []) in
      (
        warns,
        errs
            ++ (overrides base_path r.heat_api.override r.heat_cfn_api.override
                ++ heat_topology_core r base_path namespace),
      )

  -- (r *HeatSpec) ValidateUpdate
  unfoldable pub spec_validate_update :
      HeatSpec → HeatSpec → FieldPath → GoMap String → String → List String × List FieldError
  unfolding deprecated_update heat_topology database_change
  spec_validate_update r old base_path annotations namespace =
      let (warns, errs) = append_if_err (deprecated_update r.base old.base base_path) ([], []) in
      (
        warns,
        errs
            ++ ((if is_some (lookup migration_annotation annotations)
                  then []
                  else database_change old.base r.base)
                ++ (overrides base_path r.heat_api.override r.heat_cfn_api.override
                    ++ heat_topology r base_path namespace)),
      )

  -- (r *HeatSpecCore) ValidateUpdate
  unfoldable pub core_validate_update :
      HeatSpecCore → HeatSpecCore → FieldPath → String → List String × List FieldError
  unfolding deprecated_update heat_topology_core database_change
  core_validate_update r old base_path namespace =
      let (warns, errs) = append_if_err (deprecated_update r.base old.base base_path) ([], []) in
      (
        warns,
        errs
            ++ (database_change old.base r.base
                ++ (overrides base_path r.heat_api.override r.heat_cfn_api.override
                    ++ heat_topology_core r base_path namespace)),
      )
