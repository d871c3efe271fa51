-- ===== src/Heat/Jobs/Mounts.antt =====
-- The mounts of both jobs (internal/heat/dbsync.go, cronjob.go and volumes.go) name volumes that
-- the same pod declares. The mounts of the spec's extraMounts are the user's: nothing checks that
-- they name a volume.
use heat_operator.Base.{
  any-append, String, Bool, true, false, List, [], ◌∷◌, ◌++◌, GoMap, ◌==◌, nonempty, any,
  if◌then◌else◌, ◌||◌, ◌≡◌, arith,
}
use heat_operator.Api.Types.{HeatExtraVolMounts, HeatSpec, ObjectMeta, Tls}
use heat_operator.Heat.Volumes.{
  Volume, VolumeMount, VolumeOps, extra_mounts, get_volumes, get_db_sync_volume_mounts, mount,
  config_volume, config_mode, secret_source,
}
use heat_operator.Heat.Names.{service_name, config_data_name, defaults_config_file_name}
use heat_operator.Heat.Jobs.{with_ca, with_ca_mounts, CronJobSpec, db_sync_job, db_purge_job}

abbrev declares : String → List Volume → Bool
declares name = any (λ v. v.name == name)

abbrev names : String → List VolumeMount → Bool
names name = any (λ m. m.name == name)

-- Every mount names a volume.
abbrev pub AreDeclared : List VolumeMount → List Volume → Type 0
AreDeclared mounts volumes =
    (name : String) → names name mounts ≡ true → declares name volumes ≡ true

-- Every mount names a volume, or has the name of one of the `given` mounts.
abbrev pub AreDeclaredBut : (given : List VolumeMount) → List VolumeMount → List Volume → Type 0
AreDeclaredBut given mounts volumes =
    (name : String) → names name mounts ≡ true → (declares name volumes || names name given) ≡ true

-- The mounts that lib-common makes for a CA bundle name its volume.
abbrev pub CaLaw : VolumeOps → Type 0
CaLaw ops = (tls : Tls) → AreDeclared (ops.ca_volume_mounts tls) (ops.ca_volume tls ∷ [])

-- What lib-common makes together fits together.
pub record VolumeLaws (ops : VolumeOps) : Type 0 where
  pub secrets :
      (secrets : List String)
      → AreDeclared (ops.config_secret_volumes secrets).1 (ops.config_secret_volumes secrets).0
  pub ca : CaLaw ops

AreDeclared-append :
    (ms ns : List VolumeMount) (vs ws : List Volume)
    → AreDeclared ms vs
    → AreDeclared ns ws
    → AreDeclared (ms ++ ns) (vs ++ ws)
AreDeclared-append ms ns vs ws h k name e = ground (
  arith,
  any-append (λ m. m.name == name) ms ns,
  any-append (λ v. v.name == name) vs ws,
  h name,
  k name,
)

-- What is added declares its own mounts.
pub AreDeclaredBut-append :
    (given ms ns : List VolumeMount) (vs ws : List Volume)
    → AreDeclaredBut given ms vs
    → AreDeclared ns ws
    → AreDeclaredBut given (ms ++ ns) (vs ++ ws)
AreDeclaredBut-append given ms ns vs ws h k name e = ground (
  arith,
  any-append (λ m. m.name == name) ms ns,
  any-append (λ v. v.name == name) vs ws,
  h name,
  k name,
)

module _ (ops : VolumeOps) where
  get_volumes-AreDeclaredBut :
      (parent name : String) (extra : List HeatExtraVolMounts) (svc : List String)
      → AreDeclaredBut
          (extra_mounts ops extra svc)
          (get_db_sync_volume_mounts ops extra svc)
          (get_volumes ops parent name extra svc)
  unfolding get_db_sync_volume_mounts get_volumes
  get_volumes-AreDeclaredBut parent name extra svc n e = ground arith

  module _ (ca : CaLaw ops) (meta : ObjectMeta) (spec : HeatSpec) where
    abbrev tls : Tls
    tls = spec.heat_api.tls

    with_ca-AreDeclared :
        (ms : List VolumeMount) (vs : List Volume)
        → AreDeclared ms vs
        → AreDeclared (with_ca_mounts ops meta spec ms) (with_ca ops meta spec vs)
    with_ca-AreDeclared ms vs h = added (nonempty tls.ca_bundle_secret_name)
      where
        added :
            (b : Bool)
            → AreDeclared
                (if b then ms ++ ops.ca_volume_mounts tls else ms)
                (if b then vs ++ ops.ca_volume tls ∷ [] else vs)
        added true =
            AreDeclared-append ms (ops.ca_volume_mounts tls) vs (ops.ca_volume tls ∷ []) h (ca tls)
        added false = h

    with_ca-AreDeclaredBut :
        (given ms : List VolumeMount) (vs : List Volume)
        → AreDeclaredBut given ms vs
        → AreDeclaredBut given (with_ca_mounts ops meta spec ms) (with_ca ops meta spec vs)
    with_ca-AreDeclaredBut given ms vs h = added (nonempty tls.ca_bundle_secret_name)
      where
        added :
            (b : Bool)
            → AreDeclaredBut given
                (if b then ms ++ ops.ca_volume_mounts tls else ms)
                (if b then vs ++ ops.ca_volume tls ∷ [] else vs)
        added true =
            AreDeclaredBut-append given ms (ops.ca_volume_mounts tls) vs (ops.ca_volume tls ∷ []) h
              (ca tls)
        added false = h

  -- Every volume mount of the job that creates the schema names a volume of its pod, or has the
  -- name of one of the mounts that the spec's extraMounts give the job, if the mounts that
  -- lib-common makes for the configuration secrets and for a CA bundle name the volumes that it
  -- makes with them.
  pub db_sync_job-AreDeclaredBut :
      (laws : VolumeLaws ops) (meta : ObjectMeta) (spec : HeatSpec) (labels : GoMap String)
      → AreDeclaredBut
          (extra_mounts ops spec.extra_mounts (ops.db_sync ∷ []))
          (db_sync_job ops meta spec labels).volume_mounts
          (db_sync_job ops meta spec labels).volumes
  unfolding db_sync_job
  db_sync_job-AreDeclaredBut laws meta spec labels =
      let svc = ops.db_sync ∷ [] in
      let secrets = ops.config_secret_volumes spec.custom_service_config_secrets in
      with_ca-AreDeclaredBut laws.ca meta spec (extra_mounts ops spec.extra_mounts svc)
        (get_db_sync_volume_mounts ops spec.extra_mounts svc ++ secrets.1)
        (get_volumes ops service_name meta.name spec.extra_mounts svc ++ secrets.0)
        (AreDeclaredBut-append (extra_mounts ops spec.extra_mounts svc)
          (get_db_sync_volume_mounts ops spec.extra_mounts svc) secrets.1
          (get_volumes ops service_name meta.name spec.extra_mounts svc) secrets.0
          (get_volumes-AreDeclaredBut service_name meta.name spec.extra_mounts svc)
          (laws.secrets spec.custom_service_config_secrets))

  -- Every volume mount of the job that purges deleted records names a volume of its pod, if the
  -- mounts that lib-common makes for a CA bundle name the volume that it makes for it. The job has
  -- none of the spec's extraMounts.
  pub db_purge_job-AreDeclared :
      (ca : CaLaw ops) (meta : ObjectMeta) (spec : HeatSpec) (cron_spec : CronJobSpec)
      → AreDeclared
          (db_purge_job ops meta spec cron_spec).job.volume_mounts
          (db_purge_job ops meta spec cron_spec).job.volumes
  unfolding db_purge_job
  db_purge_job-AreDeclared ca meta spec cron_spec =
      with_ca-AreDeclared ca meta spec
        (mount "db-purge-config-data" "/etc/heat/heat.conf.d" "" true
          ∷ mount "config-data" "/etc/my.cnf" "my.cnf" true
          ∷ [])
        (record {
          name = "db-purge-config-data";
          source =
              secret_source config_mode (config_data_name meta.name)
                (defaults_config_file_name ∷ []);
        }
          ∷ config_volume "config-data" (config_data_name meta.name)
          ∷ [])
        (λ name e. ground arith)
