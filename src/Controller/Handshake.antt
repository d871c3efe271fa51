-- ===== src/Controller/Handshake.antt =====
-- The handshake of the rotation between the Heat reconciler and a service's: the parent writes the
-- hash of the rotating secrets on the child (the mutate functions of apiDeploymentCreateOrUpdate,
-- cfnapiDeploymentCreateOrUpdate and engineDeploymentCreateOrUpdate), the child reports a hash in
-- its status, and the parent compares the two.
pub mod Runs
use heat_operator.Base.{
  if◌then◌else◌, String, Bool, true, false, ◌==◌, Option, none, some, lookup, insert, lookup-insert,
  eq_iff, eq_refl, ◌≡◌, ◌∙◌, ◌⊎◌, inl, inr, arith,
}
use mathlib.Core.Path.{subst}
use mathlib.Core.Option.{some-injective}
use heat_operator.Api.Types.{ObjectMeta, HeatSpec}
use heat_operator.Api.Route.{value}
use heat_operator.Controller.Conditions.{CondOps, Err, Status, is_true, ready}
use heat_operator.Controller.Heat.Env.{Memcached, Child, found}
use heat_operator.Controller.Heat.Children.{child_spec, is_applied}
use heat_operator.Controller.Service.Env.{Env, Log}
use heat_operator.Controller.Service.Rollout.{input_secret_hash}
use heat_operator.Controller.Service.Safety.{IsConfirmed, just_confirmed}
use heat_operator.Controller.Service.Reconcile.{Instance, reconcile}
use heat_operator.Controller.Service.Reconcile.Laws.{ReportsPatched, reconcile-ReportsOnly}

-- `deployment.Annotations["openstack.org/input-secret-hash"] = expectedInputHash`
abbrev annotate : String → ObjectMeta → ObjectMeta
annotate hash meta = record meta { annotations = insert input_secret_hash hash meta.annotations }

abbrev status_true : Option Status → Bool
status_true (some is_true) = true
status_true _ = false

module _ {C : Type 0} where
  -- the mutate function: the spec of the component, and the hash
  unfoldable pub mutate_child :
      ObjectMeta
      → HeatSpec
      → (database_hostname : String) → Memcached
      → (transport_url_secret hash : String) → Instance C
      → Instance C
  mutate_child meta spec hostname mc secret hash child =
      let svc = child.service in
      record child {
        service = record svc {
          meta = annotate hash svc.meta;
          spec = child_spec meta spec hostname mc secret svc.component svc.spec.memcached_instance;
        };
      }

  -- What the parent reads of the child, with IsReady.
  abbrev pub child_of : CondOps C → Instance C → Child C
  child_of ops child = record {
    generation = child.service.meta.generation;
    observed_generation = child.status.observed_generation;
    applied_input_secret_hash = child.status.applied_input_secret_hash;
    ready_count = child.status.ready_count;
    is_ready = status_true (ops.get ready child.status.conditions);
    conditions = child.status.conditions;
  }

module _ {C : Type 0} (ops : CondOps C) where
  -- The parent goes on with a child only where its hash was there before, or was just confirmed.
  abbrev pub Agreed : (hash : String) (before after : Instance C) → Log → Type 0
  Agreed hash before after log =
      ((after.status.applied_input_secret_hash ≡ before.status.applied_input_secret_hash)
        ⊎ ((after.status.applied_input_secret_hash ≡ hash) × (just_confirmed log ≡ true)))
      × ((is_applied hash (child_of ops after) ≡ false)
          ⊎ ((before.status.applied_input_secret_hash ≡ hash) ⊎ (just_confirmed log ≡ true)))

  written_hash :
      (hash : String) (meta : ObjectMeta)
      → value (lookup input_secret_hash (insert input_secret_hash hash meta.annotations)) ≡ hash
  written_hash hash meta = ground (
    arith,
    lookup-insert input_secret_hash input_secret_hash hash meta.annotations,
    eq_refl input_secret_hash,
  )

  module _ (meta : ObjectMeta) (spec : HeatSpec) (hostname : String) (mc : Memcached)
      (secret hash : String) (child : Instance C) where
    abbrev mutated : Instance C
    mutated = mutate_child meta spec hostname mc secret hash child

    confirmed :
        (after : Instance C) (log : Log)
        → IsConfirmed mutated.service mutated.status.applied_input_secret_hash
            (record { status = after.status; log = log })
        → Agreed hash child after log
    unfolding mutate_child
    confirmed after log (inl e) =
        (inl e, ground (arith, eq_iff after.status.applied_input_secret_hash hash))
    confirmed after log (inr (e, c)) =
        (inr (e ∙ written_hash hash child.service.meta, c), inr (inr c))

    from_patched :
        (env : Env C) (empty : C) (patch : Instance C → Log → Option Err) (p : Option (Instance C))
        (log : Log) (after : Instance C)
        → ReportsPatched ops env empty patch mutated p log
        → p ≡ some after
        → Agreed hash child after log
    from_patched env empty patch none log after h e = ground arith
    from_patched env empty patch (some c) log after h e =
        subst (λ a. Agreed hash child a log) (some-injective c after e) (confirmed c log h.1)

    -- The parent writes a hash on a child, and the child reconciles, in whatever cluster. The hash
    -- in the status that the child patches is the one from before, or the one that the parent
    -- wrote, and then the child's last call found its pods running with their inputs. So where the
    -- parent then takes the child to have applied the hash, the child had reported it before or
    -- its pods were just confirmed.
    pub handshake :
        (env : Env C) (empty : C) (patch : Instance C → Log → Option Err) (new_helper : Option Err)
        (after : Instance C)
        → (reconcile ops env empty patch new_helper (found mutated)).patched ≡ some after
        → Agreed hash child after (reconcile ops env empty patch new_helper (found mutated)).log
    handshake env empty patch new_helper after e =
        from_patched env empty patch
          (reconcile ops env empty patch new_helper (found mutated)).patched
          (reconcile ops env empty patch new_helper (found mutated)).log after
          (reconcile-ReportsOnly ops env empty patch new_helper mutated) e
