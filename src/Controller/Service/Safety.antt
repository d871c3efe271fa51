-- ===== src/Controller/Service/Safety.antt =====
-- What the calls of a service's reconcile may stand behind, and what its parent is told.
pub mod Phases
pub mod Init
pub mod Rollout
pub mod Normal
use heat_operator.Base.{
  String, Bool, true, false, ◌||◌, ◌&&◌, ◌==◌, Option, none, some, List, [], ◌∷◌, lookup, ◌≡◌, ◌⊎◌,
}
use heat_operator.Api.Route.{value}
use heat_operator.Heat.Names.{config_data_name}
use heat_operator.Heat.Deployments.{Deployment}
use heat_operator.Controller.Service.Env.{
  Service, State, Call, Log, secret_verified, secrets_ensured, service_applied,
  keystone_service_applied, keystone_endpoint_applied, deployment_applied, ready_for_input,
}
use heat_operator.Controller.Service.Rollout.{input_secret_hash}

abbrev verifies : String → Call → Bool
verifies name (secret_verified n fields true) = n == name
verifies name _ = false

-- The secret was found with the fields that the service needs.
abbrev pub verified : String → Log → Bool
verified name [] = false
verified name (call ∷ log) = verifies name call || verified name log

abbrev ensures : String → Call → Bool
ensures name (secrets_ensured template none) = template.name == name
ensures name _ = false

-- The configuration Secret was written.
abbrev pub configured : String → Log → Bool
configured name [] = false
configured name (call ∷ log) = ensures name call || configured name log

abbrev pub config_hash : Deployment → String
config_hash d = value (lookup "CONFIG_HASH" d.env)

-- The last call created or patched the Deployment of this name with this hash.
abbrev pub just_applied : (name hash : String) → Log → Bool
just_applied name hash (deployment_applied d ∷ log) = d.name == name && config_hash d == hash
just_applied name hash _ = false

-- The last call found every pod of the Deployment running with its inputs.
abbrev pub just_confirmed : Log → Bool
just_confirmed (ready_for_input name hash true ∷ log) = true
just_confirmed _ = false

module _ (svc : Service) where
  open svc use {meta, spec}

  -- The inputs are there: both secrets are verified, and the configuration is written.
  abbrev pub HasInputs : Log → Type 0
  HasInputs log =
      (verified spec.heat_template.secret log ≡ true)
      × (verified spec.transport_url_secret log ≡ true)
      × (configured (config_data_name meta.name) log ≡ true)

  -- What a call may follow.
  abbrev pub Allowed : Call → Log → Type 0
  Allowed (service_applied endpt object) log = HasInputs log
  Allowed (keystone_service_applied k) log = HasInputs log
  Allowed (keystone_endpoint_applied name urls) log = HasInputs log
  Allowed (deployment_applied d) log = HasInputs log
  Allowed (ready_for_input name hash ready) log = just_applied name hash log ≡ true
  Allowed _ log = Unit {0}

  -- Every call of the log was allowed when it was made.
  abbrev pub IsSafe : Log → Type 0
  IsSafe [] = Unit {0}
  IsSafe (call ∷ log) = Allowed call log × IsSafe log

  -- The hash reported to the parent is the one before, or the parent's own, just confirmed.
  abbrev pub IsConfirmed : {C : Type 0} → (before : String) → State C → Type 0
  IsConfirmed before s =
      (s.applied_input_secret_hash ≡ before)
      ⊎ ((s.applied_input_secret_hash ≡ value (lookup input_secret_hash meta.annotations))
          × (just_confirmed s.log ≡ true))
