-- ===== src/Heat/Jobs.antt =====
-- internal/heat/dbsync.go and cronjob.go: the job that creates the database schema, and the cron
-- job that purges deleted records. Security contexts are left out.
pub mod Mounts
use heat_operator.Base.{
  ℕ, String, true, Option, none, some, List, [], ◌∷◌, ◌++◌, GoMap, nonempty, if◌then◌else◌, ◌<>◌,
}
use heat_operator.Api.Types.{HeatSpec, ObjectMeta}
use heat_operator.Api.Route.{decimal}
use heat_operator.Heat.Names.{
  service_name, rbac_resource_name, config_data_name, defaults_config_file_name,
}
use heat_operator.Heat.Volumes.{
  Volume, VolumeMount, VolumeOps, secret_source, config_mode, config_volume, mount, get_volumes,
  get_db_sync_volume_mounts,
}

pub record Job : Type 0 where
  pub name : String
  pub namespace : String
  pub labels : GoMap String
  pub restart_policy : String
  pub service_account_name : String
  pub container_name : String
  pub command : List String
  pub args : List String
  pub image : String
  pub volumes : List Volume
  pub volume_mounts : List VolumeMount
  pub node_selector : GoMap String

pub record CronJobSpec : Type 0 where
  pub name : String
  pub schedule : String
  pub command : String
  pub labels : GoMap String
  pub annotations : GoMap String

pub record CronJob : Type 0 where
  pub schedule : String
  pub concurrency_policy : String
  pub successful_jobs_history_limit : ℕ
  pub failed_jobs_history_limit : ℕ
  pub parallelism : ℕ
  pub completions : ℕ
  pub backoff_limit : ℕ
  pub ttl_seconds_after_finished : ℕ
  pub job_annotations : GoMap String
  pub job : Job

-- `*p` if p is not nil, and the nil map otherwise
abbrev pub or_empty : Option (GoMap String) → GoMap String
or_empty none = []
or_empty (some m) = m

abbrev pub db_sync_command : String
db_sync_command = "/usr/bin/heat-manage --config-dir /etc/heat/heat.conf.d db_sync"

abbrev pub heat_manage : String
heat_manage = "/usr/bin/heat-manage"

module _ (ops : VolumeOps) (meta : ObjectMeta) (spec : HeatSpec) where
  -- `if CaBundleSecretName != "" { append }`
  abbrev with_ca : List Volume → List Volume
  with_ca volumes =
      if nonempty spec.heat_api.tls.ca_bundle_secret_name
      then volumes ++ ops.ca_volume spec.heat_api.tls ∷ []
      else volumes

  abbrev with_ca_mounts : List VolumeMount → List VolumeMount
  with_ca_mounts mounts =
      if nonempty spec.heat_api.tls.ca_bundle_secret_name
      then mounts ++ ops.ca_volume_mounts spec.heat_api.tls
      else mounts

  -- DBSyncJob
  unfoldable pub db_sync_job : GoMap String → Job
  db_sync_job labels =
      let secrets = ops.config_secret_volumes spec.custom_service_config_secrets in
      let svc = ops.db_sync ∷ [] in
      record {
        name = service_name <> "-db-sync";
        namespace = meta.namespace;
        labels = labels;
        restart_policy = "OnFailure";
        service_account_name = rbac_resource_name meta.name;
        container_name = service_name <> "-db-sync";
        command = "/bin/bash" ∷ [];
        args = "-c" ∷ db_sync_command ∷ [];
        image = spec.heat_engine.container_image;
        volumes =
            with_ca (get_volumes ops service_name meta.name spec.extra_mounts svc ++ secrets.0);
        volume_mounts =
            with_ca_mounts (get_db_sync_volume_mounts ops spec.extra_mounts svc ++ secrets.1);
        node_selector = or_empty spec.node_selector;
      }

  -- DBPurgeJob
  unfoldable pub db_purge_job : CronJobSpec → CronJob
  db_purge_job cron_spec = record {
    schedule = cron_spec.schedule;
    concurrency_policy = "Forbid";
    successful_jobs_history_limit = 3;
    failed_jobs_history_limit = 1;
    parallelism = 1;
    completions = 1;
    backoff_limit = 3;
    ttl_seconds_after_finished = 86400;
    job_annotations = cron_spec.annotations;
    job = record {
      name = cron_spec.name;
      namespace = meta.namespace;
      labels = cron_spec.labels;
      restart_policy = "Never";
      service_account_name = rbac_resource_name meta.name;
      container_name = service_name <> "-dbpurge";
      command = "/bin/bash" ∷ [];
      args =
          "-c"
          ∷ (cron_spec.command
              <> " --config-dir /etc/heat/heat.conf.d purge_deleted "
              <> decimal spec.db_purge.age)
          ∷ [];
      image = spec.heat_engine.container_image;
      volumes = with_ca (
          (record {
            name = "db-purge-config-data";
            source =
                secret_source config_mode (config_data_name meta.name)
                  (defaults_config_file_name ∷ []);
          })
          ∷ config_volume "config-data" (config_data_name meta.name)
          ∷ []);
      volume_mounts = with_ca_mounts (
          mount "db-purge-config-data" "/etc/heat/heat.conf.d" "" true
          ∷ mount "config-data" "/etc/my.cnf" "my.cnf" true
          ∷ []);
      node_selector = or_empty spec.node_selector;
    };
  }
