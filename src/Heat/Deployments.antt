-- ===== src/Heat/Deployments.antt =====
-- internal/heatengine/deployment.go, internal/heatapi/deployment.go and
-- internal/heatcfnapi/deployment.go, with FormatProbes of internal/heat/funcs.go. Security contexts
-- are left out. The two API packages differ in names, the port and the WSGI script.
pub mod Mounts
use heat_operator.Base.{
  ℕ, String, Bool, true, Option, none, some, List, [], ◌∷◌, ◌++◌, GoMap, ◌⊎◌, inl, inr, nonempty,
  if◌then◌else◌, ◌<>◌,
}
use heat_operator.Api.Types.{Opaque, Tls}
use heat_operator.Heat.Names.{service_name}
use heat_operator.Heat.ChildSpec.{ChildSpec}
use heat_operator.Heat.Jobs.{or_empty}
use heat_operator.Heat.Volumes.{
  Volume, VolumeMount, VolumeOps, Endpoint, internal, public, endpoint_name, mount, get_volumes,
  get_volume_mounts,
}
use heat_operator.Controller.Conditions.{Err}

pub data Handler : Type 0 where
  http_get : (path : String) → (port : ℕ) → (https : Bool) → Handler
  exec : List String → Handler

-- corev1.Probe
pub record Probe : Type 0 where
  pub timeout_seconds : ℕ
  pub period_seconds : ℕ
  pub initial_delay_seconds : ℕ
  pub handler : Handler

-- How the pods are placed: by Topology.ApplyTo, or by affinity.DistributePods on the host name.
pub data Placement : Type 0 where
  by_topology : Opaque → Placement
  distributed : (selector : String) → List String → Placement

-- appsv1.Deployment
pub record Deployment : Type 0 where
  pub name : String
  pub namespace : String
  pub labels : GoMap String  -- of the selector and of the pods
  pub replicas : Option ℕ
  pub service_account : String
  pub container_name : String
  pub command : List String
  pub args : List String
  pub image : String
  pub env : GoMap String
  pub volume_mounts : List VolumeMount
  pub resources : Opaque
  pub readiness_probe : Probe
  pub liveness_probe : Probe
  pub termination_grace_period_seconds : ℕ
  pub volumes : List Volume
  pub node_selector : GoMap String
  pub placement : Placement

-- FormatProbes
unfoldable pub format_probes : ℕ → (https : Bool) → Probe
format_probes port https = record {
  timeout_seconds = 10;
  period_seconds = 5;
  initial_delay_seconds = 5;
  handler = http_get "/healthcheck" port https;
}

-- formatProbes of package heatengine
unfoldable pub engine_probes : Probe
engine_probes = record {
  timeout_seconds = 5;
  period_seconds = 10;
  initial_delay_seconds = 10;
  handler = exec ("/usr/bin/pgrep" ∷ "-r" ∷ "DRST" ∷ "heat-engine" ∷ []);
}

-- What Deployment is given beside the instance.
pub record Rollout : Type 0 where
  pub namespace : String
  pub name : String  -- of the instance
  pub config_hash : String
  pub labels : GoMap String
  pub topology : Option Opaque
  pub mtls_secret : String  -- memcached.GetMemcachedMTLSSecret()
  pub app_selector : String

abbrev pub Mounted : Type 0
Mounted = List Volume × List VolumeMount

abbrev pub placement_of : String → Option Opaque → Placement
placement_of selector none = distributed selector (service_name ∷ [])
placement_of selector (some t) = by_topology t

module _ (ops : VolumeOps) where
  -- `if b { append }` on the volumes and the mounts
  abbrev pub append_if : Bool → Mounted → Mounted → Mounted
  append_if b (vs, ms) (vs', ms') = if b then (vs ++ vs', ms ++ ms') else (vs, ms)

  -- the volumes and mounts that GetVolumes, GetVolumeMounts and ConfigSecretVolumes give
  abbrev pub base_volumes : ChildSpec → String → List String → Mounted
  base_volumes spec name svc =
      let secrets = ops.config_secret_volumes spec.template.custom_service_config_secrets in
      (
        get_volumes ops service_name name spec.heat_template.extra_mounts svc ++ secrets.0,
        get_volume_mounts ops spec.heat_template.extra_mounts svc ++ secrets.1,
      )

  abbrev pub with_ca_bundle : Tls → Mounted → Mounted
  with_ca_bundle tls m =
      append_if (nonempty tls.ca_bundle_secret_name) m
        (ops.ca_volume tls ∷ [], ops.ca_volume_mounts tls)

  abbrev pub with_mtls_certs : String → Mounted → Mounted
  with_mtls_certs mtls_secret m =
      append_if (nonempty mtls_secret) m (ops.mtls_volume ∷ [], ops.mtls_volume_mounts)

  abbrev secret_of : Tls → Endpoint → Option String
  secret_of tls internal = tls.internal_secret_name
  secret_of tls public = tls.public_secret_name

  abbrev service_certs : Endpoint → Mounted → Err ⊎ String → Err ⊎ Mounted
  service_certs endpt m (inl e) = inl e
  service_certs endpt (vs, ms) (inr secret) =
      let name = endpoint_name endpt in
      inr (
        vs ++ ops.service_volume secret name ∷ [],
        ms
            ++ ops.service_volume_mounts secret name ("/etc/pki/tls/certs/" <> name <> ".crt")
                ("/etc/pki/tls/private/" <> name <> ".key"),
      )

  -- one round of the loop of formatTLS
  unfoldable pub endpoint_certs : Tls → Endpoint → Mounted → Err ⊎ Mounted
  endpoint_certs tls endpt m =
      if ops.tls_enabled tls endpt
      then service_certs endpt m (ops.to_service (secret_of tls endpt))
      else inr m

  abbrev and_then : Err ⊎ Mounted → (Mounted → Err ⊎ Mounted) → Err ⊎ Mounted
  and_then (inl e) f = inl e
  and_then (inr m) f = f m

  -- formatTLS
  unfoldable pub format_tls : Tls → (mtls_secret : String) → Mounted → Err ⊎ Mounted
  unfolding endpoint_certs
  format_tls tls mtls_secret m =
      and_then (endpoint_certs tls internal (with_mtls_certs mtls_secret (with_ca_bundle tls m)))
        (endpoint_certs tls public)

  -- The parts of a Deployment that the three packages write alike.
  abbrev pub deployment_of :
      ChildSpec → Rollout → (name : String) → (args : List String) → Probe → Mounted → Deployment
  deployment_of spec r name args probe (vs, ms) = record {
    name = name;
    namespace = r.namespace;
    labels = r.labels;
    replicas = spec.template.replicas;
    service_account = spec.service_account;
    container_name = name;
    command = "/usr/bin/dumb-init" ∷ [];
    args = "--single-child" ∷ "--" ∷ args;
    image = spec.container_image;
    env = ("CONFIG_HASH", r.config_hash) ∷ [];
    volume_mounts = ms;
    resources = spec.template.resources;
    readiness_probe = probe;
    liveness_probe = probe;
    termination_grace_period_seconds = 60;
    volumes = vs;
    node_selector = or_empty spec.template.node_selector;
    placement = placement_of r.app_selector r.topology;
  }

  -- Deployment of package heatengine, which cannot fail
  unfoldable pub engine_deployment : ChildSpec → Rollout → Deployment
  unfolding engine_probes
  engine_deployment spec r =
      deployment_of spec r "heat-engine"
        ("/usr/bin/heat-engine" ∷ "--config-dir" ∷ "/etc/heat/heat.conf.d" ∷ []) engine_probes
        (with_mtls_certs r.mtls_secret
          (with_ca_bundle spec.tls (base_volumes spec r.name ("Heat" ∷ "HeatEngine" ∷ []))))

  -- the volume and the mounts of httpd
  abbrev pub with_httpd : (name wsgi : String) → Mounted → Mounted
  with_httpd name wsgi (vs, ms) = (
    vs ++ ops.writable_dir_volume ops.run_httpd_name ∷ [],
    ms
        ++ mount "config-data" "/etc/httpd/conf/httpd.conf" (name <> "-httpd.conf") true
          ∷ mount "config-data" "/etc/httpd/conf.d/ssl.conf" "ssl.conf" true
          ∷ mount "config-data" ("/opt/heat/" <> wsgi) wsgi true
          ∷ ops.writable_dir_volume_mount ops.run_httpd_name ops.run_httpd_path
          ∷ [],
  )

  abbrev pub httpd_result : ChildSpec → Rollout → String → ℕ → Err ⊎ Mounted → Err ⊎ Deployment
  httpd_result spec r name port (inl e) = inl e
  httpd_result spec r name port (inr m) = inr (
      deployment_of spec r name ("/usr/sbin/httpd" ∷ "-DFOREGROUND" ∷ [])
        (format_probes port (ops.tls_enabled spec.tls public)) m)

  unfoldable pub httpd_deployment :
      (name wsgi : String) → (port : ℕ) → ChildSpec → Rollout → Err ⊎ Deployment
  unfolding format_tls format_probes
  httpd_deployment name wsgi port spec r = httpd_result spec r name port (
      format_tls spec.tls r.mtls_secret
        (with_httpd name wsgi (base_volumes spec r.name ("Heat" ∷ "HeatAPI" ∷ []))))

  -- Deployment of package heatapi
  unfoldable pub api_deployment : ChildSpec → Rollout → Err ⊎ Deployment
  unfolding httpd_deployment
  api_deployment = httpd_deployment "heat-api" "heat-api.wsgi" 8004

  -- Deployment of package heatcfnapi
  unfoldable pub cfnapi_deployment : ChildSpec → Rollout → Err ⊎ Deployment
  unfolding httpd_deployment
  cfnapi_deployment = httpd_deployment "heat-cfnapi" "heat-cfnapi.wsgi" 8000
