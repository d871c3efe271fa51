-- ===== src/Examples/Resource.antt =====
-- A Heat resource named heat, as a user writes it.
use heat_operator.Base.{false, none, some, [], ◌∷◌}
use heat_operator.Api.Types.{
  Opaque, TopoRef, HeatServiceTemplate, HeatApiTemplateCore, HeatSpecBase, HeatSpec, ObjectMeta,
}

abbrev pub some_opaque : Opaque
some_opaque = record { ident = 0 }

abbrev pub own_topology : TopoRef
own_topology = record { name = "zones"; namespace = "openstack" }

abbrev pub foreign_topology : TopoRef
foreign_topology = record { name = "zones"; namespace = "other" }

abbrev pub some_template : HeatServiceTemplate
some_template = record {
  replicas = some 1;
  default_config_overwrite = [];
  node_selector = none;
  custom_service_config = "";
  custom_service_config_secrets = [];
  resources = some_opaque;
  topology_ref = none;
}

abbrev pub some_api : HeatApiTemplateCore
some_api = record {
  override = [];
  tls = record {
    ca_bundle_secret_name = "ca";
    internal_secret_name = none;
    public_secret_name = none;
  };
  template = some_template;
}

abbrev pub written_base : HeatSpecBase
written_base = record {
  database_instance = "openstack";
  memcached_instance = "memcached";
  rabbit_mq_cluster_name = "";
  messaging_bus = record { cluster = ""; user = ""; vhost = "" };
  notifications_bus = none;
  custom_service_config = "[DEFAULT]";
  custom_service_config_secrets = "extra" ∷ [];
  preserve_jobs = false;
  default_config_overwrite = ("policy.yaml", "{}") ∷ [];
  node_selector = some (("zone", "a") ∷ []);
  api_timeout = 600;
  heat_template = record {
    service_user = "heat";
    database_account = "heat";
    secret = "osp-secret";
    password_selectors = record {
      service = "HeatPassword";
      auth_encryption_key = "HeatAuthEncryptionKey";
      stack_domain_admin_password = "HeatStackDomainAdminPassword";
    };
    extra_mounts = [];
    application_credential_secret = "ac-secret";
  };
  topology_ref = some own_topology;
  db_purge = record { age = 0; schedule = "" };
}

abbrev pub written : HeatSpec
written = record {
  base = written_base;
  heat_api = record { container_image = ""; core = some_api };
  heat_cfn_api = record { container_image = "cfn:1"; core = some_api };
  heat_engine = record { container_image = ""; template = some_template };
}

abbrev pub heat_meta : ObjectMeta
heat_meta = record {
  name = "heat";
  namespace = "openstack";
  generation = 2;
  deleting = false;
  finalizers = "openstack.org/heat" ∷ [];
  annotations = [];
  owner_references = [];
}
