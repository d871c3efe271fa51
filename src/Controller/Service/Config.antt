-- ===== src/Controller/Service/Config.antt =====
-- generateServiceSecrets and createHashOfInputHashes of a service, and what its reconcileNormal does
-- with their results.
use heat_operator.Base.{not, is_some, String, Option, none, some, List, [], ◌∷◌, GoMap}
use heat_operator.Heat.Names.{config_data_name}
use heat_operator.Controller.Conditions.{
  CondOps, Err, false_condition, service_config_ready, error_reason, warning, ready_message,
  error_message,
}
use heat_operator.Controller.Exec.{
  Exec, Returned, empty_result, pure, return, call, when, ◌>>=◌, ◌>>◌,
}
use heat_operator.Controller.Heat.Env.{Template, found, failed}
use heat_operator.Controller.Heat.Config.{concat_data}
use heat_operator.Controller.Engine.Config.{engine_custom_data}
use heat_operator.Controller.Service.Env.{
  Env, State, Service, secret_read, secrets_ensured, ask, modify_status, update_conditions,
  set_and_return,
}
use heat_operator.Controller.Service.Inputs.{parent_secret}

-- What generateServiceSecrets returns, with the hashes that its pointer argument is left with.
abbrev pub Generated : Type 0
Generated = Option Err × GoMap String

module _ {C : Type 0} (ops : CondOps C) (env : Env C) (svc : Service) where
  open svc use {meta, spec}

  abbrev pub read_secret : GoMap String → String → Exec Generated (State C) (GoMap String)
  read_secret vars name = do
    reply ← ask (λ _. secret_read name) (env.get_secret name)
    elim reply [ failed e ↦ return (some e, vars) | found (secret, hash) ↦ pure secret ]

  -- the loop over CustomServiceConfigSecrets
  unfoldable pub custom_secrets :
      GoMap String → String → List String → Exec Generated (State C) String
  custom_secrets vars acc [] = pure acc
  custom_secrets vars acc (name ∷ names) = do
    secret ← read_secret vars name
    custom_secrets vars (concat_data acc secret) names

  abbrev pub config_template : GoMap String → String → Template
  config_template heat_secret custom = record {
    name = config_data_name meta.name;
    namespace = meta.namespace;
    custom_data = engine_custom_data spec.template heat_secret custom;
    config_options = [];
    api_vhosts = [];
    cfn_api_vhosts = [];
  }

  unfoldable pub generate_service_secrets : GoMap String → Exec Generated (State C) Generated
  unfolding custom_secrets
  generate_service_secrets vars = do
    heat_secret ← read_secret vars (parent_secret meta)
    custom ← custom_secrets vars "" spec.template.custom_service_config_secrets
    let template = config_template heat_secret custom
    (vars', err) ←
        ask (λ (vs, err). secrets_ensured template err) (env.ensure_secrets template vars)
    pure (err, vars')

  abbrev config_error : {A : Type 0} → Err → Exec Returned (State C) A
  config_error e =
      set_and_return ops
        (false_condition service_config_ready error_reason warning
          (error_message service_config_ready e))
        (empty_result, some e)

  -- createHashOfInputHashes
  unfoldable pub create_hash_of_input_hashes :
      GoMap String → Exec Returned (State C) (String × Option Err)
  create_hash_of_input_hashes vars = do
    let (hash, err) = env.hash_env vars
    when (not (is_some err))
        (modify_status (λ st. record st { hash = env.set_hash st.hash env.input_hash_name hash }))
    pure (hash, err)

  -- the errors of generateServiceSecrets and createHashOfInputHashes, and ServiceConfigReady
  unfoldable pub hash_inputs : Option Err → GoMap String → Exec Returned (State C) String
  unfolding create_hash_of_input_hashes
  hash_inputs (some e) vars = config_error e
  hash_inputs none vars = do
    (hash, err) ← create_hash_of_input_hashes vars
    elim err [
      | some e ↦ config_error e
      | none ↦ (do
        update_conditions (ops.mark_true service_config_ready (ready_message service_config_ready))
        pure hash)
    ]

  unfoldable pub configure : GoMap String → Exec Returned (State C) String
  unfolding generate_service_secrets hash_inputs
  configure vars = do (err, vars') ← call (generate_service_secrets vars); hash_inputs err vars'
