-- ===== src/Controller/Heat/Progress/Clean.antt =====
-- The conditions after the children and the end of the reconcile, and what a reconcileNormal that
-- is through has done.
use heat_operator.Base.{
  String, Bool, true, false, ◌||◌, Option, none, some, is_some, ◌≡◌, refl, sym, ap, ◌∙◌, arith,
}
use heat_operator.Api.Types.{HeatSpec, ObjectMeta}
use heat_operator.Heat.Names.{Component, engine, api, cfnapi}
use heat_operator.Controller.Conditions.{
  CondOps, CondLaws, CondType, Condition, same_type, is_true, input_ready, memcached_ready,
  rabbit_mq_transport_url_ready, mariadb_account_ready, db_ready, service_config_ready,
  db_sync_ready, cron_job_ready, heat_stack_domain_ready,
}
use heat_operator.Controller.Exec.{
  Exit, next, stop, returned, Returned, empty_result, is_pending, pure,
}
use heat_operator.Controller.Exec.Rules.{Post, Triple, Triple-bind}
use heat_operator.Controller.Heat.Env.{Env, State, Memcached, Fetched, found, failed}
use heat_operator.Controller.Heat.Children.{
  ready_type, set_mirror, deploy_child, deploy_all, deploy_hashed, deploy_children,
}
use heat_operator.Controller.Heat.Rotation.{
  rotate_application_credential, update_ready, rotate_transport, rotate_notifications,
  prune_stranded, finish_rotation,
}
use heat_operator.Controller.Heat.Normal.{reconcile_normal}
use heat_operator.Controller.Heat.Progress.{
  NotDone, Marked, inputs-Marked, transports-Marked, database-Marked,
}
use heat_operator.Controller.Heat.Progress.Setup.{configure-Marked, initialise-Marked}

-- The conditions that stand for a finished step of reconcileNormal itself.
abbrev pub is_step : CondType → Bool
is_step input_ready = true
is_step memcached_ready = true
is_step rabbit_mq_transport_url_ready = true
is_step mariadb_account_ready = true
is_step db_ready = true
is_step service_config_ready = true
is_step db_sync_ready = true
is_step cron_job_ready = true
is_step heat_stack_domain_ready = true
is_step _ = false

module _ {C : Type 0} (ops : CondOps C) (laws : CondLaws ops) (t : CondType)
    (step : is_step t ≡ true) where
  not_child : (c : Component) → same_type t (ready_type c) ≡ false
  not_child c = ground arith

  mirror_kept :
      (u : CondType) (from c : C) (k : Option Condition)
      → same_type t u ≡ false
      → ops.mirror u from ≡ k
      → ops.get t (set_mirror ops k c) ≡ ops.get t c
  mirror_kept u from c none h e = refl
  mirror_kept u from c (some k) h e =
      ground (arith, laws.get-set t k c, ap (same_type t) (laws.type_of-mirror u from k e))

  abbrev MarkedNow : {A : Type 0} → A → State C → Type 0
  MarkedNow = Marked ops laws t true

  module _ (env : Env C) (meta : ObjectMeta) (spec : HeatSpec) where
    child_kept :
        (mc : Memcached) (transport hash : String) (c : Component)
        → Triple
            (MarkedNow tt)
            (deploy_child ops env meta spec mc transport hash c)
            MarkedNow
            NotDone
    unfolding deploy_child
    child_kept mc transport hash c = record {
      at = λ s h. grind (arith, not_child c, laws.get-set, mirror_kept (ready_type c));
    }

    all_kept :
        (mc : Memcached) (transport hash : String)
        → Triple (MarkedNow tt) (deploy_all ops env meta spec mc transport hash) MarkedNow NotDone
    unfolding deploy_all
    all_kept mc transport hash = Triple-bind (child_kept mc transport hash engine) (λ e.
        Triple-bind (child_kept mc transport hash api)
          (λ a. Triple-bind (child_kept mc transport hash cfnapi) (λ c. record { at = λ s h. h })))

    hashed_kept :
        (mc : Memcached) (transport : String) (hash : Fetched String)
        → Triple
            (MarkedNow tt)
            (deploy_hashed ops env meta spec mc transport hash)
            MarkedNow
            NotDone
    unfolding deploy_hashed
    hashed_kept mc transport (failed e) = record { at = λ s h. refl }
    hashed_kept mc transport (found hash) = all_kept mc transport hash

    children_kept :
        (mc : Memcached) (transport : String) (n : Option String)
        → Triple (MarkedNow tt) (deploy_children ops env meta spec mc transport n) MarkedNow NotDone
    unfolding deploy_children
    children_kept mc transport n = hashed_kept mc transport _

    finish_kept :
        (transport : String) (n : Option String) (b : Bool)
        → Triple (MarkedNow tt) (finish_rotation ops env meta spec transport n b) MarkedNow NotDone
    unfolding finish_rotation rotate_application_credential update_ready rotate_transport
        rotate_notifications prune_stranded
    finish_kept transport n b = Triple-bind ac_kept (λ _. Triple-bind ready_kept (λ _.
        Triple-bind transport_kept
          (λ _. Triple-bind (notifications_kept n) (λ _. Triple-bind prune_kept (λ _. end_kept)))))
      where
        end_kept :
            Triple {R = Returned} {A = Returned}
              (MarkedNow tt)
              (pure (empty_result, none))
              MarkedNow
              NotDone
        end_kept = record { at = λ s h. h }

        ac_kept :
            Triple
              (MarkedNow tt)
              (rotate_application_credential ops env meta spec b)
              MarkedNow
              NotDone
        ac_kept = record { at = λ s h. ground arith }

        ready_kept : Triple (MarkedNow tt) (update_ready ops env meta spec) MarkedNow NotDone
        ready_kept = record { at = λ s h. grind (arith, laws.get-mark_true) }

        transport_kept :
            Triple (MarkedNow tt) (rotate_transport ops env meta spec transport b) MarkedNow NotDone
        transport_kept = record { at = λ s h. ground arith }

        notifications_kept :
            (m : Option String)
            → Triple (MarkedNow tt) (rotate_notifications ops env meta spec m b) MarkedNow NotDone
        notifications_kept none = record { at = λ s h. ground arith }
        notifications_kept (some m) = record { at = λ s h. ground arith }

        prune_kept :
            Triple (MarkedNow tt) (prune_stranded ops env meta spec transport n b) MarkedNow NotDone
        prune_kept = record { at = λ s h. ground arith }

    abbrev inputs_done : Bool
    inputs_done = same_type t input_ready || same_type t memcached_ready

    abbrev buses_done : Bool
    buses_done = inputs_done || same_type t rabbit_mq_transport_url_ready

    abbrev database_done : Bool
    database_done = buses_done || (same_type t mariadb_account_ready || same_type t db_ready)

    abbrev config_done : Bool
    config_done = database_done || same_type t service_config_ready

    abbrev init_done : Bool
    init_done =
        (config_done || same_type t db_sync_ready || same_type t cron_job_ready)
        || same_type t heat_stack_domain_ready

    -- everything that is marked by the time the children are applied
    covered :
        Triple (Marked ops laws t false tt) (reconcile_normal ops env meta spec) MarkedNow NotDone
    unfolding reconcile_normal
    covered = Triple-bind (inputs-Marked ops laws t env meta spec) (λ i.
        Triple-bind (transports-Marked ops laws t env meta spec inputs_done i.0 (ground arith))
          (λ r. Triple-bind (database-Marked ops laws t env meta spec buses_done) (λ _.
            Triple-bind (configure-Marked ops laws t env meta spec database_done r.2 i.1 r.0 r.1)
              (λ _. Triple-bind (initialise-Marked ops laws t env meta spec config_done) (λ _.
                Triple-bind (children_from i.1 r.0 r.1) (λ ready. finish_kept r.0 r.1 ready))))))
      where
        children_from :
            (mc : Memcached) (transport : String) (n : Option String)
            → Triple
                (Marked ops laws t init_done tt)
                (deploy_children ops env meta spec mc transport n)
                MarkedNow
                NotDone
        children_from mc transport n = record {
          at = λ s h. (children_kept mc transport n).at s (λ p. h (ground arith));
        }

  settled :
      (x : Exit Returned Returned × State C)
      → Post {R = Returned} MarkedNow NotDone x
      → returned x.0 ≡ (empty_result, none)
      → ops.get t x.1.conditions ≡ some is_true
  settled (next r, s) h e = h refl
  settled (stop r, s) h e =
      let waiting = λ (q : Returned). is_some q.1 || is_pending q.0 in
      let contradiction : true ≡ false = sym h ∙ ap waiting e in ground arith

  -- If reconcileNormal returns no error and nothing to wait for, then each condition of its own
  -- steps is true: the inputs, Memcached, the messaging bus, the database account and the database,
  -- the configuration, the database sync, the purge job and the stack domain. Conditions are
  -- assumed to be read back as they were written, one for each type.
  pub reconcile_normal-settled :
      (env : Env C) (meta : ObjectMeta) (spec : HeatSpec) (s : State C)
      → returned (reconcile_normal ops env meta spec s).0 ≡ (empty_result, none)
      → ops.get t (reconcile_normal ops env meta spec s).1.conditions ≡ some is_true
  reconcile_normal-settled env meta spec s =
      settled (reconcile_normal ops env meta spec s)
        ((covered env meta spec).at s (λ p. ground arith))
