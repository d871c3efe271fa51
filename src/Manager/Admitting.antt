-- ===== src/Manager/Admitting.antt =====
-- From the start of the operator to its webhook: the defaults that main installs fill in a spec.
use heat_operator.Base.{ℕ, true, false, ◌⊎◌, inl, inr, ◌≡◌, ◌≢◌}
use heat_operator.Api.Types.{ObjectMeta, HeatSpec}
use heat_operator.Api.Defaults.{default_spec, heat_api_container_image, heat_engine_container_image}
use heat_operator.Api.Defaults.Laws.{IsComplete, default_spec-IsComplete}
use heat_operator.Api.Admission.{Object, heat, foreign_object, custom_default}
use heat_operator.Manager.Env.{Env, Flags, State, initial_state}
use heat_operator.Manager.Main.{main}
use heat_operator.Manager.Ready.{KeepsServers, IsOutcome}
use heat_operator.Manager.Ready.Started.{main-IsOutcome}

-- a Heat resource with a complete spec
abbrev pub IsDefaulted : Object → Type 0
IsDefaulted (heat meta spec) = IsComplete spec
IsDefaulted foreign_object = false ≡ true

module _ (env : Env) (flags : Flags) (keeps : KeepsServers env)
    (api_image : env.get_env_var "RELATED_IMAGE_HEAT_API_IMAGE_URL_DEFAULT" heat_api_container_image
      ≢ "")
    (engine_image : env.get_env_var "RELATED_IMAGE_HEAT_ENGINE_IMAGE_URL_DEFAULT"
        heat_engine_container_image
      ≢ "") where
  abbrev final_state : State
  final_state = (main env flags initial_state).1

  -- Where operator.SetManagerOptions leaves the servers alone and the environment gives the two
  -- images no empty name: if main started the manager, then its webhook, with the defaults that main
  -- installed, returns every Heat resource with no image, cluster or purge setting empty.
  pub main-IsDefaulted :
      (meta : ObjectMeta) (spec : HeatSpec)
      → ((main env flags initial_state).1.is_started ≡ false)
        ⊎ IsDefaulted (custom_default (main env flags initial_state).1.defaults (heat meta spec)).0
  unfolding custom_default
  main-IsDefaulted meta spec = from_outcome (main-IsOutcome env flags keeps api_image engine_image)
    where
      from_outcome :
          {r : ℕ}
          → IsOutcome env flags env.start r final_state
          → (final_state.is_started ≡ false) ⊎ IsComplete (default_spec final_state.defaults spec)
      from_outcome (inl (_, idle)) = inl idle
      from_outcome (inr (_, ready, _)) =
          inr (default_spec-IsComplete final_state.defaults spec ready.defaults)
