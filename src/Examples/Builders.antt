-- ===== src/Examples/Builders.antt =====
-- The jobs, the configuration and the children of a concrete resource.
use Prim.Native.String.{len}
use heat_operator.Base.{true, lookup, [], ◌∷◌, ◌≡◌, ◌≤◌, ◌↔◌, refl, arith}
use heat_operator.Api.Route.{value}
use heat_operator.Heat.Names.{custom_config_file_name}
use heat_operator.Heat.Jobs.{CronJobSpec, db_sync_job, db_purge_job}
use heat_operator.Heat.Volumes.{extra_mounts}
use heat_operator.Heat.Jobs.Mounts.{
  AreDeclared, AreDeclaredBut, VolumeLaws, db_sync_job-AreDeclaredBut, db_purge_job-AreDeclared,
}
use heat_operator.Controller.Heat.Env.{Database, found}
use heat_operator.Controller.Heat.Text.{trim_newline}
use heat_operator.Controller.Heat.Config.{generate_custom_data, validate_auth_encryption_key}
use heat_operator.Controller.Heat.Config.Laws.{
  validate_auth_encryption_key_iff, lookup-generate_custom_data,
}
use heat_operator.Controller.Engine.Config.{engine_custom_data}
use heat_operator.Controller.Engine.Config.Laws.{reserved, lookup-engine_custom_data}
use heat_operator.Examples.Resource.{some_template, written, heat_meta}
use heat_operator.Examples.Cluster.{volume_ops}

pub volume_laws : VolumeLaws volume_ops
volume_laws = record { secrets = λ names name e. ground arith; ca = λ tls name e. ground arith }

abbrev purge_spec : CronJobSpec
purge_spec = record {
  name = "heat-db-purge";
  schedule = "1 0 * * *";
  command = "/usr/bin/heat-manage";
  labels = [];
  annotations = [];
}

db_sync_job-AreDeclaredBut_example :
    AreDeclaredBut
      (extra_mounts volume_ops written.extra_mounts (volume_ops.db_sync ∷ []))
      (db_sync_job volume_ops heat_meta written []).volume_mounts
      (db_sync_job volume_ops heat_meta written []).volumes
db_sync_job-AreDeclaredBut_example =
    db_sync_job-AreDeclaredBut volume_ops volume_laws heat_meta written []

db_purge_job-AreDeclared_example :
    AreDeclared
      (db_purge_job volume_ops heat_meta written purge_spec).job.volume_mounts
      (db_purge_job volume_ops heat_meta written purge_spec).job.volumes
db_purge_job-AreDeclared_example =
    db_purge_job-AreDeclared volume_ops volume_laws.ca heat_meta written purge_spec

validate_auth_encryption_key_iff_example :
    (validate_auth_encryption_key written.password_selectors
        (("HeatAuthEncryptionKey", "short") ∷ [])
      ≡ found "short")
    ↔ ((trim_newline
            (value (lookup "HeatAuthEncryptionKey" (("HeatAuthEncryptionKey", "short") ∷ [])))
          ≡ "short")
        × (32 ≤ len "short"))
validate_auth_encryption_key_iff_example =
    validate_auth_encryption_key_iff written.password_selectors
      (("HeatAuthEncryptionKey", "short") ∷ []) "short"

abbrev some_database : Database
some_database = record { user_name = "heat"; password = "pw"; client_config = λ tls. "[client]" }

lookup-generate_custom_data_example :
    lookup custom_config_file_name (generate_custom_data written true some_database)
    ≡ lookup custom_config_file_name
        ((custom_config_file_name, "[DEFAULT]") ∷ ("my.cnf", "[client]") ∷ [])
unfolding lookup
lookup-generate_custom_data_example =
    lookup-generate_custom_data written true some_database custom_config_file_name refl

lookup-engine_custom_data_example :
    lookup custom_config_file_name
      (engine_custom_data some_template ((custom_config_file_name, "[DEFAULT]") ∷ []) "")
    ≡ lookup custom_config_file_name
        (reserved some_template ((custom_config_file_name, "[DEFAULT]") ∷ []) "")
unfolding lookup
lookup-engine_custom_data_example =
    lookup-engine_custom_data some_template ((custom_config_file_name, "[DEFAULT]") ∷ []) ""
      custom_config_file_name refl
