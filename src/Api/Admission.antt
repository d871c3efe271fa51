-- ===== src/Api/Admission.antt =====
-- The webhook's entry points: Default, ValidateCreate, ValidateUpdate and ValidateDelete of Heat
-- (api/v1beta1/heat_webhook.go), and HeatCustomDefaulter and HeatCustomValidator over them
-- (internal/webhook/v1beta1/heat_webhook.go).
pub mod Laws
use heat_operator.Base.{String, Option, none, some, List, [], ◌∷◌}
use heat_operator.Api.Types.{HeatSpec, ObjectMeta}
use heat_operator.Api.Defaults.{HeatDefaults, default_spec}
use heat_operator.Api.Validation.{
  FieldError, new_path, Validators, spec_validate_create, spec_validate_update,
}

-- runtime.Object, as far as a type assertion to *Heat tells objects apart
pub data Object : Type 0 where
  heat : ObjectMeta → HeatSpec → Object
  foreign_object : Object

pub data AdmissionError : Type 0 where
  invalid : String → List FieldError → AdmissionError  -- apierrors.NewInvalid
  internal : AdmissionError  -- apierrors.NewInternalError
  invalid_object_type : AdmissionError  -- ErrInvalidObjectType

abbrev pub Verdict : Type 0
Verdict = List String × Option AdmissionError

-- `if len(allErrs) != 0 { return allWarns, NewInvalid(...) }; return allWarns, nil`
abbrev pub to_verdict : String → List String × List FieldError → Verdict
to_verdict name (warns, []) = (warns, none)
to_verdict name (warns, e ∷ errs) = (warns, some (invalid name (e ∷ errs)))

-- (d *HeatCustomDefaulter) Default
unfoldable pub custom_default : HeatDefaults → Object → Object × Option AdmissionError
custom_default d (heat meta spec) = (heat meta (default_spec d spec), none)
custom_default d foreign_object = (foreign_object, some invalid_object_type)

module _ (v : Validators) where
  -- (r *Heat) ValidateCreate
  unfoldable pub heat_validate_create : ObjectMeta → HeatSpec → Verdict
  heat_validate_create meta spec =
      to_verdict meta.name (spec_validate_create v spec (new_path "spec") meta.namespace)

  -- (r *Heat) ValidateUpdate
  unfoldable pub heat_validate_update : ObjectMeta → HeatSpec → Object → Verdict
  heat_validate_update meta spec foreign_object = ([], some internal)
  heat_validate_update meta spec (heat old_meta old_spec) =
      to_verdict meta.name
        (spec_validate_update v spec old_spec (new_path "spec") meta.annotations meta.namespace)

  -- (v *HeatCustomValidator) ValidateCreate
  unfoldable pub custom_validate_create : Object → Verdict
  unfolding heat_validate_create
  custom_validate_create (heat meta spec) = heat_validate_create meta spec
  custom_validate_create foreign_object = ([], some invalid_object_type)

  -- (v *HeatCustomValidator) ValidateUpdate
  unfoldable pub custom_validate_update : Object → Object → Verdict
  unfolding heat_validate_update
  custom_validate_update old_obj (heat meta spec) = heat_validate_update meta spec old_obj
  custom_validate_update old_obj foreign_object = ([], some invalid_object_type)

-- (v *HeatCustomValidator) ValidateDelete
unfoldable pub custom_validate_delete : Object → Verdict
custom_validate_delete (heat meta spec) = ([], none)
custom_validate_delete foreign_object = ([], some invalid_object_type)
