-- ===== src/Controller/Heat/Secrets.antt =====
-- generateServiceSecrets and createHashOfInputHashes of internal/controller/heat_controller.go,
-- and what reconcileNormal does around them. `Config` has what they render.
use heat_operator.Base.{
  String, Bool, ◌&&◌, Option, none, some, List, [], ◌∷◌, GoMap, lookup, insert, ◌==◌, nonempty,
  if◌then◌else◌,
}
use heat_operator.Api.Types.{Opaque, HeatSpec, ObjectMeta}
use heat_operator.Api.Route.{value}
use heat_operator.Heat.Names.{
  config_data_name, custom_config_secrets_file_name, ac_consumer_finalizer,
}
use heat_operator.Heat.Volumes.{Endpoint, internal, public, endpoint_name}
use heat_operator.Controller.Conditions.{
  CondOps, Err, false_condition, input_ready, service_config_ready, error_reason, warning,
  ac_secret_missing_keys, ready_message, error_message,
}
use heat_operator.Controller.Exec.{
  Exec, Returned, empty_result, next, pure, return, call, ◌>>=◌, ◌>>◌,
}
use heat_operator.Controller.Heat.Env.{
  Env, State, Memcached, Database, Param, text, Template, Fetched, found, failed, get_secret,
  get_keystone_api, get_endpoint, ensure_secrets, ask, update_conditions, modify_status, get_status,
}
use heat_operator.Controller.Heat.Text.{trim_newline}
use heat_operator.Controller.Heat.Inputs.{set_and_return}
use heat_operator.Controller.Heat.Transport.{add_consumer}
use heat_operator.Controller.Heat.Init.{domain_admin_password}
use heat_operator.Controller.Heat.Config.{
  Inputs, generate_custom_data, concat_data, validate_auth_encryption_key, render_vhost,
  init_template_parameters,
}

-- What generateServiceSecrets returns, with the hashes that its pointer argument is left with.
abbrev pub Generated : Type 0
Generated = Option Err × GoMap String

module _ {C : Type 0} (ops : CondOps C) (env : Env C) (meta : ObjectMeta) (spec : HeatSpec) where
  -- `v, err := f(...); if err != nil { return err }`
  abbrev or_return : {A : Type 0} → GoMap String → Fetched A → Exec Generated (State C) A
  or_return vars (found a) = pure a
  or_return vars (failed e) = return (some e, vars)

  abbrev fetch_secret : GoMap String → String → Exec Generated (State C) (GoMap String)
  fetch_secret vars name = do
    reply ← ask (λ _. get_secret name) (env.get_secret name)
    or_return vars reply

  -- one secret of CustomServiceConfigSecrets; an error is noted in InputReady
  unfoldable pub custom_secret : GoMap String → String → Exec Generated (State C) (GoMap String)
  custom_secret vars name = do
    reply ← ask (λ _. get_secret name) (env.get_secret name)
    elim reply [
      | failed e ↦ (do
        update_conditions (
            ops.set
              (false_condition input_ready error_reason warning (error_message input_ready e)))
        return (some e, vars))
      | found secret ↦ pure secret
    ]

  -- the loop over CustomServiceConfigSecrets
  unfoldable pub custom_secrets :
      GoMap String → String → List String → Exec Generated (State C) String
  unfolding custom_secret
  custom_secrets vars acc [] = pure acc
  custom_secrets vars acc (name ∷ names) = do
    secret ← custom_secret vars name
    custom_secrets vars (concat_data acc secret) names

  -- ConfigOptions for mTLS to Memcached
  abbrev with_mtls : Memcached → GoMap Param → GoMap Param
  with_mtls mc params =
      if nonempty mc.mtls_secret
      then insert "MemcachedAuthCa" (text env.ca_mount_path) (
          insert "MemcachedAuthKey" (text env.key_mount_path)
            (insert "MemcachedAuthCert" (text env.cert_mount_path) params))
      else params

  -- ConfigOptions from the application credential, whose two keys must be there and not empty
  unfoldable pub with_application_credential :
      GoMap String → GoMap Param → Exec Generated (State C) (GoMap Param)
  with_application_credential vars params =
      if nonempty spec.application_credential_secret
      then (do
        secret ← fetch_secret vars spec.application_credential_secret
        let ident = lookup "AC_ID" secret
        let data_value = lookup "AC_SECRET" secret
        if nonempty (value ident) && nonempty (value data_value)
            then pure (
                insert "ApplicationCredentialSecret" (text (value data_value))
                  (insert "ApplicationCredentialID" (text (value ident)) params))
            else return (some ac_secret_missing_keys, vars))
      else pure params

  -- the notifications transport URL, or the empty text where there is none
  unfoldable pub notifications_url : GoMap String → String → Exec Generated (State C) String
  notifications_url vars name =
      if nonempty name
      then (do
        secret ← fetch_secret vars name
        pure (trim_newline (value (lookup "transport_url" secret))))
      else pure ""

  -- Keystone's internal endpoint; the package variable `keystoneAPI` is set on the way
  unfoldable pub keystone_endpoint : GoMap String → Exec Generated (State C) (Opaque × String)
  keystone_endpoint vars = do
    reply ← ask (λ _. get_keystone_api) env.get_keystone_api
    keystone ← or_return vars reply
    (λ s. (next tt, record s { keystone_api = some keystone }))
    endpoint ← ask (λ _. get_endpoint) (env.get_endpoint keystone)
    auth_url ← or_return vars endpoint
    pure (keystone, auth_url)

  -- what the configuration is rendered from
  unfoldable pub gather_inputs : GoMap String → String → String → Exec Generated (State C) Inputs
  unfolding keystone_endpoint notifications_url
  gather_inputs vars transport notifications = do
    (keystone, auth_url) ← keystone_endpoint vars
    secret ← fetch_secret vars spec.secret
    let selectors = spec.password_selectors
    let password = trim_newline (value (lookup selectors.service secret))
    key ← or_return vars (validate_auth_encryption_key selectors secret)
    transport_secret ← fetch_secret vars transport
    notifications_transport_url ← notifications_url vars notifications
    pure (record {
      auth_url = auth_url;
      password = password;
      domain_admin_password = domain_admin_password selectors secret password;
      auth_encryption_key = key;
      transport_url = trim_newline (value (lookup "transport_url" transport_secret));
      notifications_transport_url = notifications_transport_url;
      quorum_queues = trim_newline (value (lookup "quorumqueues" transport_secret)) == "true";
      region = env.get_region keystone;
    })

  -- one entry for each endpoint of an API
  abbrev vhosts : String → (Endpoint → Bool) → GoMap (GoMap Param)
  vhosts name enabled =
      (endpoint_name internal, render_vhost name meta internal (enabled internal))
      ∷ (endpoint_name public, render_vhost name meta public (enabled public))
      ∷ []

  -- createSecretTemplates: the one Secret of the configuration
  abbrev pub create_secret_templates : (custom : GoMap String) → GoMap Param → Template
  create_secret_templates custom options =
      let enabled = env.volume_ops.tls_enabled in
      record {
        name = config_data_name meta.name;
        namespace = meta.namespace;
        custom_data = custom;
        config_options = options;
        api_vhosts = vhosts "heat-api" (enabled spec.heat_api.tls);
        cfn_api_vhosts = vhosts "heat-cfnapi" (enabled spec.heat_cfn_api.tls);
      }

  -- The Secret with the configuration; `custom` is its CustomData.
  unfoldable pub render_config :
      GoMap String
      → Memcached
      → Database
      → GoMap String
      → Inputs
      → Exec Generated (State C) Generated
  unfolding with_application_credential
  render_config vars mc db custom inputs = do
    status ← get_status
    let params = init_template_parameters spec status.database_hostname inputs mc db
    options ← with_application_credential vars (with_mtls mc params)
    let template = create_secret_templates custom options
    (vars', err) ← ask (λ _. ensure_secrets template) (env.ensure_secrets template vars)
    pure (err, vars')

  unfoldable pub generate_service_secrets :
      GoMap String → Memcached → String → String → Exec Generated (State C) Generated
  unfolding custom_secrets gather_inputs render_config
  generate_service_secrets vars mc transport notifications = do
    db ← (λ s. (next (env.database s.log), s))
    let custom = generate_custom_data spec (nonempty spec.heat_api.tls.ca_bundle_secret_name) db
    extra ← custom_secrets vars "" spec.base.custom_service_config_secrets
    inputs ← gather_inputs vars transport notifications
    render_config vars mc db (insert custom_config_secrets_file_name extra custom) inputs

  abbrev config_error : {A : Type 0} → Err → Exec Returned (State C) A
  config_error e =
      set_and_return ops
        (false_condition service_config_ready error_reason warning
          (error_message service_config_ready e))
        (empty_result, some e)

  -- createHashOfInputHashes
  unfoldable pub create_hash_of_input_hashes : GoMap String → Exec Returned (State C) (Option Err)
  create_hash_of_input_hashes vars = elim (env.hash_env vars) [
    | failed e ↦ pure (some e)
    | found hash ↦ (do
      modify_status (λ st. record st { hash = env.set_hash st.hash env.input_hash_name hash })
      pure none)
  ]

  -- What follows the generated Secret: the hash of the inputs, and the consumer finalizer of the
  -- application credential, which is added before anything is deployed.
  unfoldable pub apply_config : Option Err → GoMap String → Exec Returned (State C) (Unit {0})
  unfolding create_hash_of_input_hashes add_consumer
  apply_config (some e) vars = config_error e
  apply_config none vars = do
    hash_err ← create_hash_of_input_hashes vars
    elim hash_err [
      | some e ↦ config_error e
      | none ↦ (do
        let name = spec.application_credential_secret
        added ←
            (if nonempty name
              then add_consumer ops env meta name ac_consumer_finalizer
              else pure none)
        elim added [
          | some e ↦ config_error e
          | none ↦
              update_conditions
                (ops.mark_true service_config_ready (ready_message service_config_ready))
        ])
    ]

  -- From generateServiceSecrets to the consumer finalizer of the application credential.
  unfoldable pub configure :
      GoMap String → Memcached → String → Option String → Exec Returned (State C) (Unit {0})
  unfolding generate_service_secrets apply_config
  configure vars mc transport notifications = do
    (err, vars') ← call (generate_service_secrets vars mc transport (value notifications))
    apply_config err vars'
