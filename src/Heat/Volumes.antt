-- ===== src/Heat/Volumes.antt =====
-- internal/heat/volumes.go: the volumes and mounts that the jobs and deployments share. What
-- lib-common makes (secret volumes, certificates, extra storage) is the record `VolumeOps`.
use heat_operator.Controller.Conditions.{Err}
use heat_operator.Base.{Option, ◌⊎◌, ℕ, String, Bool, true, false, List, [], ◌∷◌, ◌++◌, ◌<>◌}
use heat_operator.Api.Types.{Opaque, HeatExtraVolMounts, Tls}
use heat_operator.Heat.Names.{defaults_config_file_name, custom_config_file_name, config_data_name}

pub data VolumeSource : Type 0 where
  -- a Secret volume: its mode, the secret's name and the keys that are projected (all if none)
  secret_source : ℕ → String → List String → VolumeSource
  foreign_source : Opaque → VolumeSource

pub record Volume : Type 0 where
  pub name : String
  pub source : VolumeSource

pub record VolumeMount : Type 0 where
  pub name : String
  pub mount_path : String
  pub sub_path : String
  pub read_only : Bool

pub data Endpoint : Type 0 where
  internal public : Endpoint

-- endpt.String()
abbrev pub endpoint_name : Endpoint → String
endpoint_name internal = "internal"
endpoint_name public = "public"

pub record VolumeOps : Type 0 where
  pub db_sync : String  -- storage.DBSync
  pub propagate : Opaque → List String → List Opaque  -- storage.VolMounts.Propagate
  pub extra_volumes : Opaque → List (String × Opaque)  -- the Volumes of a storage.VolMounts
  pub extra_mounts : Opaque → List VolumeMount  -- its Mounts
  pub to_core_volume_source : Opaque → VolumeSource
  pub config_secret_volumes : List String → List Volume × List VolumeMount
  pub ca_volume : Tls → Volume
  pub ca_volume_mounts : Tls → List VolumeMount
  pub writable_dir_volume : String → Volume
  pub writable_dir_volume_mount : String → String → VolumeMount
  pub run_httpd_name : String  -- volume.RunHttpdVolumeName
  pub run_httpd_path : String  -- volume.RunHttpdMountPath
  pub mtls_volume : Volume
  pub mtls_volume_mounts : List VolumeMount
  pub tls_enabled : Tls → Endpoint → Bool
  pub to_service : Option String → Err ⊎ String  -- ToService of a certificate: its secret
  pub service_volume : String → String → Volume  -- by the secret and the endpoint
  pub service_volume_mounts : (secret endpt cert_mount key_mount : String) → List VolumeMount

-- 0440
abbrev pub config_mode : ℕ
config_mode = 0o440

abbrev pub config_volume : String → String → Volume
config_volume name secret_name = record {
  name = name;
  source = secret_source config_mode secret_name [];
}

abbrev pub mount : String → String → String → Bool → VolumeMount
mount name mount_path sub_path read_only = record {
  name = name;
  mount_path = mount_path;
  sub_path = sub_path;
  read_only = read_only;
}

module _ (ops : VolumeOps) where
  -- (g *HeatExtraVolMounts) Propagate
  unfoldable pub propagate_all : List Opaque → List String → List Opaque
  propagate_all [] svc = []
  propagate_all (gv ∷ gvs) svc = ops.propagate gv svc ++ propagate_all gvs svc

  abbrev pub to_volumes : List (String × Opaque) → List Volume
  to_volumes [] = []
  to_volumes ((name, v) ∷ vs) =
      (record { name = name; source = ops.to_core_volume_source v }) ∷ to_volumes vs

  abbrev pub volumes_of : List Opaque → List Volume
  volumes_of [] = []
  volumes_of (vol ∷ vols) = to_volumes (ops.extra_volumes vol) ++ volumes_of vols

  abbrev pub mounts_of : List Opaque → List VolumeMount
  mounts_of [] = []
  mounts_of (vol ∷ vols) = ops.extra_mounts vol ++ mounts_of vols

  -- the loops over ExtraMounts
  unfoldable pub extra_volumes : List HeatExtraVolMounts → List String → List Volume
  unfolding propagate_all
  extra_volumes [] svc = []
  extra_volumes (exv ∷ rest) svc =
      volumes_of (propagate_all exv.vol_mounts svc) ++ extra_volumes rest svc

  unfoldable pub extra_mounts : List HeatExtraVolMounts → List String → List VolumeMount
  unfolding propagate_all
  extra_mounts [] svc = []
  extra_mounts (exv ∷ rest) svc =
      mounts_of (propagate_all exv.vol_mounts svc) ++ extra_mounts rest svc

  -- GetVolumes
  unfoldable pub get_volumes : String → String → List HeatExtraVolMounts → List String → List Volume
  get_volumes parent_name name extra_vol svc =
      config_volume "config-data-custom" (config_data_name name)
      ∷ config_volume "config-data" (config_data_name parent_name)
      ∷ extra_volumes extra_vol svc

  -- GetVolumeMounts
  unfoldable pub get_volume_mounts : List HeatExtraVolMounts → List String → List VolumeMount
  get_volume_mounts extra_vol svc =
      mount "config-data-custom" "/etc/heat/heat.conf.d" "" true
      ∷ mount "config-data" "/etc/my.cnf" "my.cnf" true
      ∷ extra_mounts extra_vol svc

  -- getDBSyncVolumeMounts
  unfoldable pub get_db_sync_volume_mounts :
      List HeatExtraVolMounts → List String → List VolumeMount
  get_db_sync_volume_mounts extra_vol svc =
      mount "config-data" ("/etc/heat/heat.conf.d/" <> defaults_config_file_name)
        defaults_config_file_name true
      ∷ mount "config-data" ("/etc/heat/heat.conf.d/" <> custom_config_file_name)
          custom_config_file_name false
      ∷ mount "config-data" "/etc/my.cnf" "my.cnf" true
      ∷ extra_mounts extra_vol svc
