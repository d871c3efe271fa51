-- ===== src/Heat/Deployments/Mounts.antt =====
-- The volume mounts of the three Deployments name volumes of their pods, apart from the mounts of the
-- spec's extraMounts.
use heat_operator.Base.{
  ℕ, String, Bool, true, false, List, [], ◌∷◌, ◌==◌, ◌<>◌, any, any-append, nonempty, ◌≡◌, ◌⊎◌, inl,
  inr, arith, if◌then◌else◌,
}
use heat_operator.Api.Types.{Tls}
use heat_operator.Heat.Names.{service_name}
use heat_operator.Heat.ChildSpec.{ChildSpec}
use heat_operator.Heat.Volumes.{
  VolumeOps, VolumeMount, Endpoint, internal, public, mount, get_volumes, get_volume_mounts,
  endpoint_name, extra_mounts,
}
use heat_operator.Heat.Jobs.Mounts.{AreDeclared, AreDeclaredBut, VolumeLaws, AreDeclaredBut-append}
use heat_operator.Heat.Deployments.{
  Deployment, Rollout, Mounted, append_if, base_volumes, with_ca_bundle, with_mtls_certs,
  endpoint_certs, service_certs, and_then, secret_of, format_tls, with_httpd, httpd_result,
  engine_deployment, httpd_deployment, api_deployment, cfnapi_deployment,
}
use heat_operator.Controller.Conditions.{Err}

-- What lib-common makes together for a Deployment fits together.
pub record DeploymentLaws (ops : VolumeOps) : Type 0 where
  pub base : VolumeLaws ops
  pub open base use *
  pub mtls : AreDeclared ops.mtls_volume_mounts (ops.mtls_volume ∷ [])
  pub writable :
      (name path : String)
      → AreDeclared
          (ops.writable_dir_volume_mount name path ∷ [])
          (ops.writable_dir_volume name ∷ [])
  pub service :
      (secret endpt cert key : String)
      → AreDeclared
          (ops.service_volume_mounts secret endpt cert key)
          (ops.service_volume secret endpt ∷ [])

-- The mounts that a spec's extraMounts give a Deployment.
abbrev pub given_mounts : VolumeOps → ChildSpec → List String → List VolumeMount
given_mounts ops spec svc = extra_mounts ops spec.heat_template.extra_mounts svc

abbrev pub engine_services : List String
engine_services = "Heat" ∷ "HeatEngine" ∷ []

abbrev pub api_services : List String
api_services = "Heat" ∷ "HeatAPI" ∷ []

-- Where the Deployment is built, its mounts name volumes of its pod, or are the given ones.
abbrev pub DeploymentFits : (given : List VolumeMount) → Err ⊎ Deployment → Type 0
DeploymentFits given (inl e) = Unit {0}
DeploymentFits given (inr d) = AreDeclaredBut given d.volume_mounts d.volumes

base-Fits :
    (ops : VolumeOps) (laws : VolumeLaws ops) (spec : ChildSpec) (name : String) (svc : List String)
    → AreDeclaredBut
        (given_mounts ops spec svc)
        (base_volumes ops spec name svc).1
        (base_volumes ops spec name svc).0
unfolding get_volumes get_volume_mounts
base-Fits ops laws spec name svc =
    let secrets = spec.template.custom_service_config_secrets in
    let extra = spec.heat_template.extra_mounts in
    AreDeclaredBut-append (given_mounts ops spec svc) (get_volume_mounts ops extra svc)
      (ops.config_secret_volumes secrets).1 (get_volumes ops service_name name extra svc)
      (ops.config_secret_volumes secrets).0 (λ n e. ground arith) (laws.secrets secrets)

module _ (ops : VolumeOps) (laws : DeploymentLaws ops) (given : List VolumeMount) where
  abbrev Fit : Mounted → Type 0
  Fit m = AreDeclaredBut given m.1 m.0

  abbrev FitOrFail : Err ⊎ Mounted → Type 0
  FitOrFail (inl e) = Unit {0}
  FitOrFail (inr m) = Fit m

  append_if-Fit :
      (b : Bool) (m n : Mounted) → Fit m → AreDeclared n.1 n.0 → Fit (append_if ops b m n)
  append_if-Fit true (vs, ms) (vs', ms') h k = AreDeclaredBut-append given ms ms' vs vs' h k
  append_if-Fit false (vs, ms) (vs', ms') h k = h

  ca-Fit : (tls : Tls) (m : Mounted) → Fit m → Fit (with_ca_bundle ops tls m)
  ca-Fit tls m h = append_if-Fit (nonempty tls.ca_bundle_secret_name) m _ h (laws.ca tls)

  mtls-Fit : (secret : String) (m : Mounted) → Fit m → Fit (with_mtls_certs ops secret m)
  mtls-Fit secret m h = append_if-Fit (nonempty secret) m _ h laws.mtls

  service-FitOrFail :
      (endpt : Endpoint) (m : Mounted) (secret : Err ⊎ String)
      → Fit m
      → FitOrFail (service_certs ops endpt m secret)
  service-FitOrFail endpt m (inl e) h = tt
  service-FitOrFail endpt (vs, ms) (inr secret) h =
      AreDeclaredBut-append given ms _ vs _ h (laws.service secret (endpoint_name endpt) _ _)

  certs-FitOrFail :
      (tls : Tls) (endpt : Endpoint) (m : Mounted)
      → Fit m
      → FitOrFail (endpoint_certs ops tls endpt m)
  unfolding endpoint_certs
  certs-FitOrFail tls endpt m h = chosen (ops.tls_enabled tls endpt)
    where
      chosen :
          (b : Bool)
          → FitOrFail (
              if b
              then service_certs ops endpt m (ops.to_service (secret_of ops tls endpt))
              else inr m)
      chosen true = service-FitOrFail endpt m (ops.to_service (secret_of ops tls endpt)) h
      chosen false = h

  then-FitOrFail :
      (r : Err ⊎ Mounted) (f : Mounted → Err ⊎ Mounted)
      → FitOrFail r
      → ((m : Mounted) → Fit m → FitOrFail (f m))
      → FitOrFail (and_then ops r f)
  then-FitOrFail (inl e) f h k = tt
  then-FitOrFail (inr m) f h k = k m h

  tls-FitOrFail :
      (tls : Tls) (secret : String) (m : Mounted) → Fit m → FitOrFail (format_tls ops tls secret m)
  unfolding format_tls
  tls-FitOrFail tls secret m h =
      let m' = with_mtls_certs ops secret (with_ca_bundle ops tls m) in
      then-FitOrFail (endpoint_certs ops tls internal m') (endpoint_certs ops tls public)
        (certs-FitOrFail tls internal m'
          (mtls-Fit secret (with_ca_bundle ops tls m) (ca-Fit tls m h)))
        (λ n k. certs-FitOrFail tls public n k)

  -- The mounts of httpd's own files name the configuration volume, which is there.
  files-Declared :
      (spec : ChildSpec) (name : String) (svc : List String) (n : String)
      → "config-data" == n ≡ true
      → any (λ v. v.name == n) (base_volumes ops spec name svc).0 ≡ true
  unfolding get_volumes
  files-Declared spec name svc n h = ground arith

  httpd-Fit :
      (spec : ChildSpec) (name : String) (svc : List String) (file wsgi : String)
      → Fit (base_volumes ops spec name svc)
      → Fit (with_httpd ops file wsgi (base_volumes ops spec name svc))
  httpd-Fit spec name svc file wsgi base n e =
      let m = base_volumes ops spec name svc in
      ground (
        arith,
        any-append (λ v. v.name == n) m.0 (ops.writable_dir_volume ops.run_httpd_name ∷ []),
        any-append (λ v. v.name == n) m.1
            (mount "config-data" "/etc/httpd/conf/httpd.conf" (file <> "-httpd.conf") true
              ∷ mount "config-data" "/etc/httpd/conf.d/ssl.conf" "ssl.conf" true
              ∷ mount "config-data" ("/opt/heat/" <> wsgi) wsgi true
              ∷ ops.writable_dir_volume_mount ops.run_httpd_name ops.run_httpd_path
              ∷ []),
        base n,
        laws.writable ops.run_httpd_name ops.run_httpd_path n,
        files-Declared spec name svc n,
      )

  result-Fits :
      (spec : ChildSpec) (r : Rollout) (name : String) (port : ℕ) (m : Err ⊎ Mounted)
      → FitOrFail m
      → DeploymentFits given (httpd_result ops spec r name port m)
  result-Fits spec r name port (inl e) h = tt
  result-Fits spec r name port (inr m) h = h

module _ (ops : VolumeOps) (laws : DeploymentLaws ops) where
  httpd-Fits :
      (name wsgi : String) (port : ℕ) (spec : ChildSpec) (r : Rollout)
      → DeploymentFits
          (given_mounts ops spec api_services)
          (httpd_deployment ops name wsgi port spec r)
  unfolding httpd_deployment
  httpd-Fits name wsgi port spec r =
      let given = given_mounts ops spec api_services in
      let m = with_httpd ops name wsgi (base_volumes ops spec r.name api_services) in
      result-Fits ops laws given spec r name port (format_tls ops spec.tls r.mtls_secret m) (
        tls-FitOrFail ops laws given spec.tls r.mtls_secret m (
          httpd-Fit ops laws given spec r.name api_services name wsgi
            (base-Fits ops laws.base spec r.name api_services)))

  -- Every volume mount of the Deployment of a HeatEngine, and of that of a HeatAPI or a HeatCfnAPI
  -- where it is built without an error, names a volume of its pod, or has the name of one of the
  -- mounts that the spec's extraMounts give that service, if the mounts that lib-common makes for
  -- configuration secrets, certificates, CA bundles, mTLS and writable directories name the volumes
  -- that it makes with them.
  pub deployments-AreDeclaredBut :
      (spec : ChildSpec) (r : Rollout)
      → AreDeclaredBut
          (given_mounts ops spec engine_services)
          (engine_deployment ops spec r).volume_mounts
          (engine_deployment ops spec r).volumes
        × DeploymentFits (given_mounts ops spec api_services) (api_deployment ops spec r)
        × DeploymentFits (given_mounts ops spec api_services) (cfnapi_deployment ops spec r)
  unfolding engine_deployment api_deployment cfnapi_deployment
  deployments-AreDeclaredBut spec r = (
    mtls-Fit ops laws (given_mounts ops spec engine_services) r.mtls_secret _ (
        ca-Fit ops laws (given_mounts ops spec engine_services) spec.tls _
          (base-Fits ops laws.base spec r.name engine_services)),
    httpd-Fits "heat-api" "heat-api.wsgi" 8004 spec r,
    httpd-Fits "heat-cfnapi" "heat-cfnapi.wsgi" 8000 spec r,
  )
