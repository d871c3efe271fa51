-- ===== src/Manager/Ready/Created.antt =====
-- Up to the controllers: the manager is created with the two servers, and all is registered.
use heat_operator.Base.{false, Option, none, some, ◌≡◌, refl, ap, ◌∙◌, arith}
use heat_operator.Controller.Conditions.{Err}
use heat_operator.Controller.Exec.{Exec, Exit, next, stop, returned}
use heat_operator.Controller.Exec.Rules.{Post, Triple, Triple-bind}
use heat_operator.Controller.Setup.{Mgr, empty_mgr}
use heat_operator.Controller.Setup.Laws.{
  Is, Done, Refused, full_mgr, setup_heat_lem, setup_heat_api_lem, setup_heat_cfn_api_lem,
  setup_heat_engine_lem,
}
use heat_operator.Manager.Slices.{Slice, elements}
use heat_operator.Manager.Env.{Env, Flags, State, initial_state, CertWatcher, Options}
use heat_operator.Manager.Main.{
  exit_if, webhook_watcher, metrics_watcher, manager_options, create_manager, set_up,
  set_up_controllers,
}
use heat_operator.Manager.Tls.{Exited, exit_if_lem, modify_lem}
use heat_operator.Manager.Tls.Certificates.{Served}
use heat_operator.Manager.Ready.{KeepsServers, HasServers, webhook_cert, metrics_cert}

module _ (env : Env) (flags : Flags) (keeps : KeepsServers env) where
  -- The servers are there, and of the rest, only what was registered.
  abbrev pub Registered : Mgr → State → Type 0
  Registered mgr s =
      HasServers env flags s.options s.heap
      × (s ≡ record initial_state { heap = s.heap; options = s.options; mgr = mgr })

  set_up_lem :
      (m m' : Mgr) (setup : Exec (Option Err) Mgr (Option Err))
      → Triple (Is m tt) setup (Done m') Refused
      → Triple (Registered m) (set_up env flags setup) (λ _. Registered m') Exited
  unfolding set_up
  set_up_lem m m' setup t = record {
    at = λ s (servers, rest).
        exits s servers rest (setup s.mgr) (t.at s.mgr (ap (λ s'. s'.mgr) rest));
  }
    where
      exits :
          (s : State) (servers : HasServers env flags s.options s.heap)
          (rest : s ≡ record initial_state { heap = s.heap; options = s.options; mgr = m })
          (x : Exit (Option Err) (Option Err) × Mgr)
          → Post (Done m') Refused x
          → Post (λ _. Registered m') Exited (exit_if (returned x.0) (record s { mgr = x.1 }))
      exits s servers rest (next none, mgr') (_, e) = (servers, ground (arith, rest, e))
      exits s servers rest (next (some err), mgr') h = ground arith
      exits s servers rest (stop none, mgr') h = ground arith
      exits s servers rest (stop (some err), mgr') h = (refl, ap (λ s'. s'.is_started) rest)

  pub controllers_lem :
      Triple (Registered empty_mgr) (set_up_controllers env flags) (λ _. Registered full_mgr) Exited
  unfolding set_up_controllers
  controllers_lem = Triple-bind (set_up_lem _ _ _ (setup_heat_lem env.setup empty_mgr)) (λ _.
      Triple-bind (set_up_lem _ _ _ (setup_heat_api_lem env.setup _)) (λ _.
        Triple-bind (set_up_lem _ _ _ (setup_heat_cfn_api_lem env.setup _))
          (λ _. set_up_lem _ _ _ (setup_heat_engine_lem env.setup _))))

  abbrev pub Certified : Option CertWatcher → Slice → Option CertWatcher → Slice → State → Type 0
  Certified wc w mc m =
      Served env flags.enable_http2 (webhook_watcher env flags) (metrics_watcher env flags)
        (webhook_cert env flags) (metrics_cert env flags) wc w mc m

  abbrev final_options : (w m : Slice) → Options
  final_options w m = (env.set_manager_options (manager_options env flags w m)).0

  servers_lem :
      (wc : Option CertWatcher) (w : Slice) (mc : Option CertWatcher) (m : Slice) (s : State)
      → Certified wc w mc m s
      → HasServers env flags (some (final_options w m)) s.heap
  unfolding manager_options
  servers_lem wc w mc m s h =
      let o = manager_options env flags w m in
      record {
        options = final_options w m;
        is_created = refl;
        webhook_tls =
            ap (λ server. elements server.tls_opts s.heap) (keeps.webhook o) ∙ h.webhook_elements;
        metrics_tls =
            ap (λ server. elements server.tls_opts s.heap) (keeps.metrics o) ∙ h.metrics_elements;
        is_secure = ap (λ server. server.secure_serving) (keeps.metrics o);
        is_filtered = ap (λ server. server.is_filtered) (keeps.metrics o);
      }

  pub create_lem :
      (wc : Option CertWatcher) (w : Slice) (mc : Option CertWatcher) (m : Slice)
      → Triple
          (Certified wc w mc m)
          (create_manager env flags w m)
          (λ _. Registered empty_mgr)
          Exited
  unfolding create_manager
  create_lem wc w mc m =
      let early : (s : State) → Certified wc w mc m s → s.is_started ≡ false =
        λ s h. ap (λ s'. s'.is_started) h.early in
      let late : (s : State) → Registered empty_mgr s → s.is_started ≡ false =
        λ s h. ap (λ s'. s'.is_started) h.1 in
      let set = env.set_manager_options (manager_options env flags w m) in
      Triple-bind (exit_if_lem set.1 early) (λ _.
        Triple-bind (exit_if_lem env.config_or_die early) (λ _.
          Triple-bind (exit_if_lem (env.new_manager set.0) early) (λ _.
            Triple-bind
              (modify_lem (λ s. record s { options = some (final_options w m) })
                (λ s h. (
                  servers_lem wc w mc m s h,
                  ap {A = State} (λ s'. record s' { options = some (final_options w m) }) h.early,
                )))
              (λ _.
                Triple-bind (exit_if_lem env.get_config late)
                  (λ _. exit_if_lem env.new_for_config late)))))
