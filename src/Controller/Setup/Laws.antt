-- ===== src/Controller/Setup/Laws.antt =====
-- A controller that is set up has, for every field that it watches, the index function of the field.
use heat_operator.Base.{
  ℕ, Bool, true, false, Option, none, some, is_some, List, [], ◌∷◌, eqb, ◌&&◌, if◌then◌else◌, ◌≡◌,
  refl, arith,
}
use heat_operator.Heat.Names.{Component, engine, api, cfnapi}
use heat_operator.Controller.Conditions.{Err}
use heat_operator.Controller.Exec.{Exec, pure, ◌>>◌}
use heat_operator.Controller.Exec.Rules.{Triple, Triple-bind}
use heat_operator.Controller.Watches.{
  Field, heat_watch_fields, watch_fields_of, service_index, heat_index, password_secret,
  transport_url_secret, ca_bundle_secret_name, tls_api_internal, tls_api_public,
  custom_service_config, topology, auth_app_cred_secret,
}
use heat_operator.Controller.Setup.{
  Index, Builder, SetupOps, Mgr, Kind, Extract, empty_mgr, of_heat, of_service, heat, heat_api,
  heat_cfn_api, heat_engine, index_field, complete,
}
use heat_operator.Controller.Setup.Controllers.{
  heat_field, heat_api_field, heat_cfn_api_field, heat_engine_field, heat_builder, heat_api_builder,
  heat_cfn_api_builder, heat_engine_builder, setup_heat, setup_heat_api, setup_heat_cfn_api,
  setup_heat_engine,
}

-- the manager after a registration
abbrev pub with_index : Index → Mgr → Mgr
with_index index mgr = record mgr { indexes = index ∷ mgr.indexes }

abbrev pub with_controller : Builder → Mgr → Mgr
with_controller builder mgr = record mgr { controllers = builder ∷ mgr.controllers }

-- what the four functions register
abbrev pub with_heat : Mgr → Mgr
with_heat mgr = with_controller heat_builder (
    with_index (heat_field auth_app_cred_secret)
      (with_index (heat_field custom_service_config) (with_index (heat_field password_secret) mgr)))

abbrev with_fields : (Field → Index) → Mgr → Mgr
with_fields field mgr = with_index (field topology) (
    with_index (field custom_service_config) (
      with_index (field tls_api_public) (
        with_index (field tls_api_internal) (
          with_index (field ca_bundle_secret_name)
            (with_index (field transport_url_secret) (with_index (field password_secret) mgr))))))

abbrev pub with_heat_api : Mgr → Mgr
with_heat_api mgr = with_controller heat_api_builder (with_fields heat_api_field mgr)

abbrev pub with_heat_cfn_api : Mgr → Mgr
with_heat_cfn_api mgr = with_controller heat_cfn_api_builder (with_fields heat_cfn_api_field mgr)

abbrev pub with_heat_engine : Mgr → Mgr
with_heat_engine mgr = with_controller heat_engine_builder (
    with_index (heat_engine_field topology) (
      with_index (heat_engine_field custom_service_config) (
        with_index (heat_engine_field ca_bundle_secret_name) (
          with_index (heat_engine_field transport_url_secret)
            (with_index (heat_engine_field password_secret) mgr)))))

-- The manager is as it was planned, or a registration was refused.
abbrev pub Is : {A : Type 0} → Mgr → A → Mgr → Type 0
Is planned _ mgr = mgr ≡ planned

abbrev pub Refused : Option Err → Mgr → Type 0
Refused r mgr = is_some r ≡ true

-- The end of a function, which returns nil.
abbrev pub Done : Mgr → Option Err → Mgr → Type 0
Done planned r mgr = (r ≡ none) × (mgr ≡ planned)

module _ (ops : SetupOps) where
  index_field_lem :
      (index : Index) (mgr : Mgr)
      → Triple (Is mgr tt) (index_field ops index) (Is (with_index index mgr)) Refused
  unfolding index_field
  index_field_lem index mgr = record { at = λ s h. ground arith }

  complete_lem :
      (builder : Builder) (mgr : Mgr)
      → Triple (Is mgr tt) (complete ops builder) (Is (with_controller builder mgr)) Refused
  unfolding complete
  complete_lem builder mgr = record { at = λ s h. ground arith }

  -- an index, then the rest of the function
  indexed :
      {index : Index} {mgr planned : Mgr} {rest : Exec (Option Err) Mgr (Option Err)}
      → Triple (Is (with_index index mgr) tt) rest (Done planned) Refused
      → Triple (Is mgr tt) (index_field ops index >> rest) (Done planned) Refused
  indexed t = Triple-bind (index_field_lem _ _) (λ _. t)

  built :
      {builder : Builder} {mgr : Mgr}
      → Triple
          (Is mgr tt)
          (complete ops builder >> pure none)
          (Done (with_controller builder mgr))
          Refused
  built = Triple-bind (complete_lem _ _) (λ _. record { at = λ s h. (refl, h) })

  pub setup_heat_lem :
      (mgr : Mgr) → Triple (Is mgr tt) (setup_heat ops) (Done (with_heat mgr)) Refused
  unfolding setup_heat
  setup_heat_lem mgr = indexed (indexed (indexed built))

  pub setup_heat_api_lem :
      (mgr : Mgr) → Triple (Is mgr tt) (setup_heat_api ops) (Done (with_heat_api mgr)) Refused
  unfolding setup_heat_api
  setup_heat_api_lem mgr = indexed (indexed (indexed (indexed (indexed (indexed (indexed built))))))

  pub setup_heat_cfn_api_lem :
      (mgr : Mgr)
      → Triple (Is mgr tt) (setup_heat_cfn_api ops) (Done (with_heat_cfn_api mgr)) Refused
  unfolding setup_heat_cfn_api
  setup_heat_cfn_api_lem mgr =
      indexed (indexed (indexed (indexed (indexed (indexed (indexed built))))))

  pub setup_heat_engine_lem :
      (mgr : Mgr) → Triple (Is mgr tt) (setup_heat_engine ops) (Done (with_heat_engine mgr)) Refused
  unfolding setup_heat_engine
  setup_heat_engine_lem mgr = indexed (indexed (indexed (indexed (indexed built))))

-- Two kinds of resources that the controllers reconcile.
abbrev pub same_kind : Kind → Kind → Bool
same_kind heat heat = true
same_kind heat_api heat_api = true
same_kind heat_cfn_api heat_cfn_api = true
same_kind heat_engine heat_engine = true
same_kind _ _ = false

abbrev number : Field → ℕ
number password_secret = 0
number transport_url_secret = 1
number ca_bundle_secret_name = 2
number tls_api_internal = 3
number tls_api_public = 4
number custom_service_config = 5
number topology = 6
number auth_app_cred_secret = 7

abbrev pub lookup_index : Kind → Field → List Index → Option Extract
lookup_index k f [] = none
lookup_index k f (index ∷ indexes) =
    if same_kind k index.kind && eqb (number f) (number index.field)
    then some index.extract
    else lookup_index k f indexes

-- Each of the fields has its index function.
abbrev pub AreIndexed : Kind → (Field → Extract) → List Field → List Index → Type 0
AreIndexed k extract [] indexes = Unit {0}
AreIndexed k extract (f ∷ fields) indexes =
    (lookup_index k f indexes ≡ some (extract f)) × AreIndexed k extract fields indexes

abbrev pub kind_of : Component → Kind
kind_of engine = heat_engine
kind_of api = heat_api
kind_of cfnapi = heat_cfn_api

abbrev pub service_extract : Component → Field → Extract
service_extract c f = of_service (λ spec. service_index c spec f)

abbrev pub heat_extract : Field → Extract
heat_extract f = of_heat (λ spec. heat_index spec f)

-- the manager with the four controllers
abbrev pub full_mgr : Mgr
full_mgr = with_heat_engine (with_heat_cfn_api (with_heat_api (with_heat empty_mgr)))

pub heat_indexed : AreIndexed heat heat_extract heat_watch_fields full_mgr.indexes
heat_indexed = (refl, (refl, (refl, tt)))

pub service_indexed :
    (c : Component)
    → AreIndexed (kind_of c) (service_extract c) (watch_fields_of c) full_mgr.indexes
service_indexed engine = (refl, (refl, (refl, (refl, (refl, tt)))))
service_indexed api = (refl, (refl, (refl, (refl, (refl, (refl, (refl, tt)))))))
service_indexed cfnapi = (refl, (refl, (refl, (refl, (refl, (refl, (refl, tt)))))))
