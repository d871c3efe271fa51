-- ===== src/Controller/Heat/Config.antt =====
-- generateServiceSecrets, generateCustomData, initTemplateParameters, renderVhost,
-- createSecretTemplates, validateAuthEncryptionKey and createHashOfInputHashes of
-- internal/controller/heat_controller.go.
pub mod Laws
use Prim.Native.String.{len}
use heat_operator.Base.{
  String, Bool, [], ◌∷◌, GoMap, lookup, insert, copy_into, nonempty, ltb, if◌then◌else◌, ◌<>◌,
}
use heat_operator.Api.Types.{HeatSpec, ObjectMeta, PasswordSelector}
use heat_operator.Api.Route.{value}
use heat_operator.Heat.Names.{
  database_name, stack_domain_admin_username, stack_domain_name, custom_config_file_name,
}
use heat_operator.Heat.Volumes.{Endpoint, endpoint_name}
use heat_operator.Controller.Conditions.{auth_encryption_key_too_short}
use heat_operator.Controller.Heat.Env.{
  Memcached, Database, Param, text, flag, number, Fetched, found, failed,
}
use heat_operator.Controller.Heat.Text.{trim_newline}

-- generateCustomData
unfoldable pub generate_custom_data : HeatSpec → Bool → Database → GoMap String
generate_custom_data spec tls_cfg db =
    copy_into
      (insert "my.cnf" (db.client_config tls_cfg)
        (insert custom_config_file_name spec.custom_service_config []))
      spec.default_config_overwrite

-- `customSecrets += string(data) + "\n"` over one secret's data
abbrev pub concat_data : String → GoMap String → String
concat_data acc [] = acc
concat_data acc ((k, v) ∷ data_map) = concat_data (acc <> v <> "\n") data_map

-- validateAuthEncryptionKey
unfoldable pub validate_auth_encryption_key : PasswordSelector → GoMap String → Fetched String
validate_auth_encryption_key selectors secret =
    let key = trim_newline (value (lookup selectors.auth_encryption_key secret)) in
    if ltb (len key) 32 then failed auth_encryption_key_too_short else found key

-- renderVhost: the entry of one endpoint
unfoldable pub render_vhost : String → ObjectMeta → Endpoint → Bool → GoMap Param
render_vhost service_name meta endpt tls_enabled =
    let name = endpoint_name endpt in
    let config = insert "TLS" (flag tls_enabled) (
      insert "ServerName" (text (service_name <> "-" <> name <> "." <> meta.namespace <> ".svc"))
        []) in
    if tls_enabled
    then insert "SSLCertificateKeyFile" (text ("/etc/pki/tls/private/" <> name <> ".key"))
        (insert "SSLCertificateFile" (text ("/etc/pki/tls/certs/" <> name <> ".crt")) config)
    else config

-- the arguments of initTemplateParameters
pub record Inputs : Type 0 where
  pub auth_url : String
  pub password : String
  pub domain_admin_password : String
  pub auth_encryption_key : String
  pub transport_url : String
  pub notifications_transport_url : String
  pub quorum_queues : Bool
  pub region : String  -- keystoneAPI.GetRegion()

-- initTemplateParameters
unfoldable pub init_template_parameters :
    HeatSpec → (database_hostname : String) → Inputs → Memcached → Database → GoMap Param
init_template_parameters spec hostname inputs mc db =
    let connection =
      "mysql+pymysql://" <> db.user_name <> ":" <> db.password <> "@" <> hostname <> "/"
      <> database_name <> "?read_default_file=/etc/my.cnf" in
    let params : GoMap Param =
      ("KeystoneInternalURL", text inputs.auth_url)
      ∷ ("ServiceUser", text spec.service_user)
      ∷ ("ServicePassword", text inputs.password)
      ∷ ("StackDomainAdminUsername", text stack_domain_admin_username)
      ∷ ("StackDomainName", text stack_domain_name)
      ∷ ("StackDomainAdminPassword", text inputs.domain_admin_password)
      ∷ ("AuthEncryptionKey", text inputs.auth_encryption_key)
      ∷ ("TransportURL", text inputs.transport_url)
      ∷ ("MemcachedServers", text mc.server_list)
      ∷ ("MemcachedServersWithInet", text mc.server_list_with_inet)
      ∷ ("MemcachedTLS", flag mc.tls_support)
      ∷ ("DatabaseConnection", text connection)
      ∷ ("Timeout", number spec.api_timeout)
      ∷ ("QuorumQueues", flag inputs.quorum_queues)
      ∷ [] in
    let with_region =
      if nonempty inputs.region then insert "Region" (text inputs.region) params else params in
    if nonempty inputs.notifications_transport_url
    then insert "NotificationsTransportURL" (text inputs.notifications_transport_url) with_region
    else with_region
