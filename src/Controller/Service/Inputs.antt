-- ===== src/Controller/Service/Inputs.antt =====
-- The first part of reconcileNormal of a service: the secrets of OpenStack, of the TransportURL and
-- of the parent Heat, and the validation of the TLS secrets, with getSecret.
use heat_operator.Base.{
  String, Bool, Option, none, some, List, [], ◌∷◌, GoMap, insert, nonempty, if◌then◌else◌, ◌&&◌,
  not, is_some,
}
use heat_operator.Api.Types.{ObjectMeta}
use heat_operator.Heat.Names.{
  Component, engine, api, cfnapi, get_owning_heat_name, config_data_name,
}
use heat_operator.Controller.Conditions.{
  CondOps, Err, Reason, Severity, Condition, false_condition, input_ready, tls_input_ready,
  error_reason, requested_reason, warning, info, is_not_found, ready_message, waiting_message,
  error_message, waiting_for, waiting_for_error, input_ready_message,
}
use heat_operator.Controller.Exec.{
  Exec, Returned, CtrlResult, empty_result, after_seconds, is_pending, pure, return, call, ◌>>=◌,
  ◌>>◌,
}
use heat_operator.Controller.Heat.Env.{
  Validator, password_validator, no_op_validator, found, failed,
}
use heat_operator.Controller.Service.Env.{
  Env, State, Service, secret_verified, secret_read, ca_cert_validated, certs_validated, ask,
  update_conditions, set_and_return,
}

abbrev pub is_verified : String × CtrlResult × Option Err → Bool
is_verified (hash, result, err) = not (is_some err) && not (is_pending result)

-- the name of the parent's Secret
abbrev pub parent_secret : ObjectMeta → String
parent_secret meta = config_data_name (get_owning_heat_name meta.owner_references)

module _ {C : Type 0} (ops : CondOps C) (env : Env C) (svc : Service) where
  open svc use {meta, spec}

  abbrev input_error : Reason → Severity → Condition
  input_error r s = false_condition input_ready r s (waiting_message input_ready)

  -- VerifySecretFields and the two tests behind it; `r` and `s` belong to the wait.
  unfoldable pub verify_secret :
      Reason
      → Severity
      → String
      → List (String × Validator)
      → GoMap String
      → Exec Returned (State C) (GoMap String)
  verify_secret r s name fields vars = do
    (hash, result, err) ←
        ask (λ reply. secret_verified name fields (is_verified reply))
          (env.verify_secret_fields name fields 10)
    elim err [
      | some e ↦
          set_and_return ops
            (false_condition input_ready error_reason warning (error_message input_ready e))
            (result, some e)
      | none ↦
          if is_pending result
          then set_and_return ops (input_error r s) (result, none)
          else pure (insert name hash vars)
    ]

  -- getSecret: the result, and the hashes that its pointer argument is left with
  unfoldable pub get_secret :
      String → GoMap String → Exec (Returned × GoMap String) (State C) (Returned × GoMap String)
  get_secret name vars = do
    reply ← ask (λ _. secret_read name) (env.get_secret name)
    elim reply [
      | failed e ↦
          if is_not_found e
          then set_and_return ops (input_error error_reason warning)
              ((after_seconds 10, none), vars)
          else set_and_return ops
              (false_condition input_ready error_reason warning (error_message input_ready e))
              ((empty_result, some e), vars)
      | found (secret, hash) ↦ pure ((empty_result, none), insert name hash vars)
    ]

  -- The hash of the parent's Secret. Only the error of getSecret is looked at.
  unfoldable pub check_parent : GoMap String → Exec Returned (State C) (GoMap String)
  unfolding get_secret
  check_parent vars = do
    ((result, err), vars') ← call (get_secret (parent_secret meta) vars)
    elim err [
      | some e ↦ return (result, some e)
      | none ↦ (do
        update_conditions (ops.mark_true input_ready (ready_message input_ready))
        pure vars')
    ]

  unfoldable pub check_inputs : Exec Returned (State C) (GoMap String)
  unfolding verify_secret check_parent
  check_inputs = do
    vars ←
        verify_secret error_reason warning spec.heat_template.secret
          ((spec.heat_template.password_selectors.service, password_validator) ∷ []) []
    vars' ←
        verify_secret requested_reason info spec.transport_url_secret
          (("transport_url", no_op_validator) ∷ []) vars
    check_parent vars'

  abbrev tls_error : Err → Condition
  tls_error e =
      false_condition tls_input_ready error_reason warning (error_message tls_input_ready e)

  -- The CA bundle. A secret that is not there yet ends the reconcile without an error.
  unfoldable pub check_ca_bundle : GoMap String → Exec Returned (State C) (GoMap String)
  check_ca_bundle vars =
      let name = spec.tls.ca_bundle_secret_name in
      if nonempty name
      then (do
        reply ← ask (λ _. ca_cert_validated name) (env.validate_ca_cert name)
        elim reply [
          | failed e ↦
              if is_not_found e
              then set_and_return ops
                  (false_condition tls_input_ready error_reason warning
                    (waiting_for tls_input_ready name))
                  (empty_result, none)
              else set_and_return ops (tls_error e) (empty_result, some e)
          | found hash ↦ pure (if nonempty hash then insert env.ca_bundle_key hash vars else vars)
        ])
      else pure vars

  -- The certificates of the two endpoints, which only the APIs have.
  unfoldable pub check_certs : GoMap String → Exec Returned (State C) (GoMap String)
  check_certs vars = do
    reply ← ask (λ _. certs_validated spec.tls) (env.validate_certs spec.tls)
    elim reply [
      | failed e ↦
          if is_not_found e
          then set_and_return ops
              (false_condition tls_input_ready requested_reason info
                (waiting_for_error tls_input_ready e))
              (empty_result, none)
          else set_and_return ops (tls_error e) (empty_result, some e)
      | found hash ↦ pure (insert env.tls_hash_name hash vars)
    ]

  abbrev pub check_certs_of : Component → GoMap String → Exec Returned (State C) (GoMap String)
  check_certs_of engine vars = pure vars
  check_certs_of api vars = check_certs vars
  check_certs_of cfnapi vars = check_certs vars

  unfoldable pub check_tls : GoMap String → Exec Returned (State C) (GoMap String)
  unfolding check_ca_bundle check_certs
  check_tls vars = do
    vars' ← check_ca_bundle vars
    vars'' ← check_certs_of svc.component vars'
    update_conditions (ops.mark_true tls_input_ready input_ready_message)
    pure vars''
