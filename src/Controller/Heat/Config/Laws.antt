-- ===== src/Controller/Heat/Config/Laws.antt =====
-- What ends up in the configuration of the services.
use Prim.Native.String.{len}
use heat_operator.Base.{
  String, Bool, none, [], ◌∷◌, GoMap, lookup, insert, copy_into, lookup-insert, ◌≡◌, ◌≤◌, ◌↔◌, refl,
  arith,
}
use heat_operator.Api.Types.{HeatSpec, PasswordSelector}
use heat_operator.Api.Route.{value}
use heat_operator.Heat.Names.{custom_config_file_name}
use heat_operator.Controller.Heat.Env.{Database, found}
use heat_operator.Controller.Heat.Text.{trim_newline}
use heat_operator.Controller.Heat.Config.{generate_custom_data, validate_auth_encryption_key}

-- The key that the services get is the secret's, without a newline at its end, and it is accepted
-- exactly if it has at least 32 bytes.
pub validate_auth_encryption_key_iff :
    (selectors : PasswordSelector) (secret : GoMap String) (key : String)
    → (validate_auth_encryption_key selectors secret ≡ found key) ↔ (
        (trim_newline (value (lookup selectors.auth_encryption_key secret)) ≡ key) × (32 ≤ len key))
unfolding validate_auth_encryption_key
validate_auth_encryption_key_iff selectors secret key = ground arith

module _ {ℓ} {V : Type ℓ} where
  lookup-copy_into :
      (k : String) (dst src : GoMap V)
      → lookup k src ≡ none
      → lookup k (copy_into dst src) ≡ lookup k dst
  unfolding lookup copy_into
  lookup-copy_into k dst [] h = refl
  lookup-copy_into k dst ((j, v) ∷ src) h =
      ground (arith, lookup-copy_into k (insert j v dst) src, lookup-insert k j v dst)

-- A file that DefaultConfigOverwrite does not name is the user's configuration, the client
-- configuration of the database, or not there.
pub lookup-generate_custom_data :
    (spec : HeatSpec) (tls : Bool) (db : Database) (name : String)
    → lookup name spec.default_config_overwrite ≡ none
    → lookup name (generate_custom_data spec tls db)
      ≡ lookup name (
          (custom_config_file_name, spec.custom_service_config)
          ∷ ("my.cnf", db.client_config tls)
          ∷ [])
unfolding generate_custom_data insert
lookup-generate_custom_data spec tls db name h =
    lookup-copy_into name
      (insert "my.cnf" (db.client_config tls)
        (insert custom_config_file_name spec.custom_service_config []))
      spec.default_config_overwrite h
