-- ===== src/Controller/Service/Watched.antt =====
-- The Secrets and the Topology that a service's reconcileNormal reads are named by the fields that
-- its controller watches.
pub mod Phases
pub mod Normal
use heat_operator.Base.{
  String, Bool, true, false, ◌||◌, ◌==◌, Option, none, some, List, [], ◌∷◌, any, nonempty, eq_refl,
  GoMap, ◌≡◌, refl, arith, if◌then◌else◌,
}
use heat_operator.Api.Types.{Tls, TopoRef, Opaque}
use heat_operator.Heat.Names.{Component, engine, api, cfnapi}
use heat_operator.Heat.Volumes.{Endpoint, internal, public}
use heat_operator.Heat.Deployments.{Deployment}
use heat_operator.Controller.Conditions.{
  CondOps, Err, Reason, Severity, error_reason, requested_reason, warning, info,
}
use heat_operator.Controller.Exec.{Exec, Returned, pure, return_unless_done, ◌>>=◌, ◌>>◌}
use heat_operator.Controller.Exec.Rules.{Triple, Triple-bind, Triple-call, Post-end}
use heat_operator.Controller.Watches.{
  watch_fields_of, service_index, heat_engine_index, heat_api_index, heat_cfn_api_index,
}
use heat_operator.Controller.Heat.Env.{Validator, Memcached}
use heat_operator.Controller.Heat.Config.{concat_data}
use heat_operator.Controller.Service.Env.{
  Env, State, Service, Call, Log, Deployed, secret_verified, secret_read, ca_cert_validated,
  certs_validated, topology_ensured, ask, secrets_ensured,
}
use heat_operator.Controller.Service.Inputs.{
  verify_secret, get_secret, parent_secret, check_parent, check_inputs, check_ca_bundle,
  check_certs, check_certs_of, check_tls,
}
use heat_operator.Controller.Service.Config.{
  Generated, config_template, read_secret, custom_secrets, generate_service_secrets, hash_inputs,
  configure,
}
use heat_operator.Controller.Service.Endpoints.{
  ApiKind, api_kind, cfnapi_kind, expose, exposed, range_order, expose_all, register,
  reconcile_init, reconcile_init_of, initialise,
}
use heat_operator.Controller.Service.Topology.{ensure_topology, topology_done, handle_topology}
use heat_operator.Controller.Service.Rollout.{
  service_labels, find_memcached, apply_deployment, observe, check_ready, count_ready, report_ready,
  roll_out,
}
use heat_operator.Controller.Service.Normal.{finish, reconcile_normal}

module _ (P : String → Type 0) where
  abbrev pub NilOr : Option String → Type 0
  NilOr none = Unit {0}
  NilOr (some name) = P name

  abbrev pub TopologyIs : Option TopoRef → Type 0
  TopologyIs none = Unit {0}
  TopologyIs (some ref) = P ref.name

  -- Every name that the call reads is one of `P`.
  abbrev pub Reads : Call → Type 0
  Reads (secret_verified name fields verified) = P name
  Reads (secret_read name) = P name
  Reads (ca_cert_validated name) = P name
  Reads (certs_validated tls) = NilOr tls.internal_secret_name × NilOr tls.public_secret_name
  Reads (topology_ensured wanted last) = TopologyIs wanted
  Reads _ = Unit {0}

  abbrev pub AllRead : Log → Type 0
  AllRead [] = Unit {0}
  AllRead (call ∷ log) = Reads call × AllRead log

module _ (svc : Service) where
  open svc use {meta, spec, component}

  -- One of the fields that the service's controller watches gives the name, or it is the name of
  -- the parent's Secret, whose label names the parent.
  abbrev pub is_covered : String → Bool
  is_covered name =
      parent_secret meta == name
      || any (λ field. any (λ v. v == name) (service_index component spec field))
          (watch_fields_of component)

  abbrev pub IsCovered : String → Type 0
  IsCovered name = is_covered name ≡ true

  abbrev pub NilOrCovered : Option String → Type 0
  NilOrCovered = NilOr IsCovered

  abbrev pub TopologyCovered : Option TopoRef → Type 0
  TopologyCovered = TopologyIs IsCovered

  abbrev pub AreCovered : Log → Type 0
  AreCovered = AllRead IsCovered

  pub parent_covered : is_covered (parent_secret meta) ≡ true
  parent_covered = ground (arith, eq_refl (parent_secret meta))

  abbrev pub Gives : String → Component → Type 0
  Gives name c =
      any (λ field. any (λ v. v == name) (service_index c spec field)) (watch_fields_of c) ≡ true

  module _ (required : nonempty spec.heat_template.secret ≡ true) where
    pub secret_given : (c : Component) → Gives spec.heat_template.secret c
    unfolding heat_engine_index heat_api_index heat_cfn_api_index
    secret_given engine = ground (arith, eq_refl spec.heat_template.secret)
    secret_given api = ground (arith, eq_refl spec.heat_template.secret)
    secret_given cfnapi = ground (arith, eq_refl spec.heat_template.secret)

    pub transport_given : (c : Component) → Gives spec.transport_url_secret c
    unfolding heat_engine_index heat_api_index heat_cfn_api_index
    transport_given engine = ground (arith, eq_refl spec.transport_url_secret)
    transport_given api = ground (arith, eq_refl spec.transport_url_secret)
    transport_given cfnapi = ground (arith, eq_refl spec.transport_url_secret)

  pub ca_given :
      (c : Component)
      → nonempty spec.tls.ca_bundle_secret_name ≡ true
      → Gives spec.tls.ca_bundle_secret_name c
  unfolding heat_engine_index heat_api_index heat_cfn_api_index
  ca_given engine h = ground (arith, eq_refl spec.tls.ca_bundle_secret_name)
  ca_given api h = ground (arith, eq_refl spec.tls.ca_bundle_secret_name)
  ca_given cfnapi h = ground (arith, eq_refl spec.tls.ca_bundle_secret_name)

  pub custom_given :
      (c : Component) (name : String)
      → any (λ v. v == name) spec.template.custom_service_config_secrets ≡ true
      → Gives name c
  unfolding heat_engine_index heat_api_index heat_cfn_api_index
  custom_given engine name h = ground arith
  custom_given api name h = ground arith
  custom_given cfnapi name h = ground arith

  topology_given :
      (c : Component) (ref : TopoRef) → spec.template.topology_ref ≡ some ref → Gives ref.name c
  unfolding heat_engine_index heat_api_index heat_cfn_api_index
  topology_given engine ref h = ground (arith, eq_refl ref.name)
  topology_given api ref h = ground (arith, eq_refl ref.name)
  topology_given cfnapi ref h = ground (arith, eq_refl ref.name)

  pub topology_covered : (r : Option TopoRef) → spec.template.topology_ref ≡ r → TopologyCovered r
  topology_covered none h = tt
  topology_covered (some ref) h = ground (arith, topology_given component ref h)

  covered_from :
      (c : Component) (name : String) → component ≡ c → Gives name c → is_covered name ≡ true
  covered_from c name e h = ground (arith, h, e)

  abbrev has_certs : Component → Bool
  has_certs engine = false
  has_certs api = true
  has_certs cfnapi = true

  internal_covered :
      (c : Component) (r : Option String)
      → component ≡ c
      → has_certs c ≡ true
      → spec.tls.internal_secret_name ≡ r
      → NilOrCovered r
  unfolding heat_engine_index heat_api_index heat_cfn_api_index
  internal_covered c none e h k = tt
  internal_covered engine (some name) e h k = ground arith
  internal_covered api (some name) e h k = covered_from api name e (ground (arith, eq_refl name))
  internal_covered cfnapi (some name) e h k =
      covered_from cfnapi name e (ground (arith, eq_refl name))

  public_covered :
      (c : Component) (r : Option String)
      → component ≡ c
      → has_certs c ≡ true
      → spec.tls.public_secret_name ≡ r
      → NilOrCovered r
  unfolding heat_engine_index heat_api_index heat_cfn_api_index
  public_covered c none e h k = tt
  public_covered engine (some name) e h k = ground arith
  public_covered api (some name) e h k = covered_from api name e (ground (arith, eq_refl name))
  public_covered cfnapi (some name) e h k =
      covered_from cfnapi name e (ground (arith, eq_refl name))

  pub certs_covered :
      (c : Component)
      → component ≡ c
      → has_certs c ≡ true
      → NilOrCovered spec.tls.internal_secret_name × NilOrCovered spec.tls.public_secret_name
  certs_covered c e h = (
    internal_covered c spec.tls.internal_secret_name e h refl,
    public_covered c spec.tls.public_secret_name e h refl,
  )
