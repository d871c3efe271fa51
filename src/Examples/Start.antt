-- ===== src/Examples/Start.antt =====
-- An operator that starts with both certificates and its webhook.
use heat_operator.Base.{
  ℕ, ◌+◌, ◌<>◌, false, ◌⊎◌, ◌≡◌, refl, true, none, some, [], ◌∷◌, arith, eq_iff, ltb, if◌then◌else◌,
}
use heat_operator.Api.Defaults.{heat_api_container_image, heat_engine_container_image}
use heat_operator.Examples.Resource.{some_opaque, heat_meta, written}
use heat_operator.Controller.Exec.{returned}
use heat_operator.Manager.Env.{
  Env, Flags, default_flags, initial_state, min_version_tls13, http1_only, get_certificate,
}
use heat_operator.Manager.Main.{main, webhook_watcher}
use heat_operator.Manager.Ready.{KeepsServers, IsOutcome, webhook_options}
use heat_operator.Manager.Ready.Started.{main-IsOutcome}
use heat_operator.Manager.Admitting.{IsDefaulted, main-IsDefaulted}
use heat_operator.Api.Admission.{heat, custom_default}
use heat_operator.Manager.Progress.{AllSucceed}
use heat_operator.Manager.Progress.Whole.{main-IsStarted}

abbrev pub flags : Flags
flags = record default_flags { metrics_cert_path = "/metrics"; webhook_cert_path = "/webhook" }

-- Go's growth of a short slice: twice the capacity, or what is needed.
abbrev doubled : ℕ → ℕ → ℕ
doubled room needed = if ltb (room + room) needed then needed else room + room

abbrev pub env : Env
env = record {
  grow = doubled;
  no_leases = some_opaque;
  join = λ dir name. dir <> "/" <> name;
  new_cert_watcher = λ cert key. none;
  set_manager_options = λ o. (o, none);
  config_or_die = none;
  new_manager = λ o. none;
  get_config = none;
  new_for_config = none;
  setup = record { index_field = λ index mgr. none; complete = λ builder mgr. none };
  get_env_var = λ name fallback. fallback;
  getenv = λ name. "";
  complete_webhook = none;
  add = λ watcher. none;
  add_healthz_check = λ checker. none;
  add_readyz_check = λ checker. none;
  start = none;
}

pub keeps : KeepsServers env
keeps = record { metrics = λ o. refl; webhook = λ o. refl }

all_succeed : AllSucceed env
all_succeed = record {
  new_cert_watcher = λ cert key. refl;
  set_manager_options = λ o. refl;
  config_or_die = refl;
  new_manager = λ o. refl;
  get_config = refl;
  new_for_config = refl;
  index_field = λ index mgr. refl;
  complete = λ builder mgr. refl;
  complete_webhook = refl;
  add = λ watcher. refl;
  add_healthz_check = λ checker. refl;
  add_readyz_check = λ checker. refl;
  start = refl;
}

-- With this growth each server has its own certificate.
own_certificate :
    webhook_options env flags
    ≡ some min_version_tls13
      ∷ some http1_only
      ∷ some (get_certificate (webhook_watcher env flags))
      ∷ []
own_certificate = refl

main-IsOutcome_example :
    IsOutcome env flags env.start
      (returned (main env flags initial_state).0)
      (main env flags initial_state).1
main-IsOutcome_example =
    main-IsOutcome env flags keeps (λ h. ground (arith, h, eq_iff heat_api_container_image ""))
      (λ h. ground (arith, h, eq_iff heat_engine_container_image ""))

main-IsStarted_example :
    (returned (main env flags initial_state).0 ≡ 0)
    × ((main env flags initial_state).1.is_started ≡ true)
main-IsStarted_example = main-IsStarted env flags all_succeed

main-IsDefaulted_example :
    ((main env flags initial_state).1.is_started ≡ false)
    ⊎ IsDefaulted
        (custom_default (main env flags initial_state).1.defaults (heat heat_meta written)).0
main-IsDefaulted_example =
    main-IsDefaulted env flags keeps (λ h. ground (arith, h, eq_iff heat_api_container_image ""))
      (λ h. ground (arith, h, eq_iff heat_engine_container_image "")) heat_meta written
