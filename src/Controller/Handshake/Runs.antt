-- ===== src/Controller/Handshake/Runs.antt =====
-- A child over any sequence of writes of its parent, edits of a user and reconciles of its own.
use mathlib.Core.Path.{subst}
use mathlib.Core.Option.{some-injective}
use heat_operator.Base.{
  String, true, ◌==◌, any, Option, none, some, List, [], ◌∷◌, lookup, eq_iff, ◌≡◌, refl, ◌⊎◌, inl,
  inr, arith, if◌then◌else◌,
}
use heat_operator.Api.Types.{ObjectMeta, HeatSpec}
use heat_operator.Api.Route.{value}
use heat_operator.Controller.Conditions.{CondOps, Err}
use heat_operator.Controller.Heat.Env.{Memcached, found}
use heat_operator.Controller.Service.Env.{Env, Service, Log}
use heat_operator.Controller.Service.Rollout.{input_secret_hash}
use heat_operator.Controller.Service.Safety.{IsConfirmed, just_confirmed}
use heat_operator.Controller.Service.Reconcile.{Instance, reconcile}
use heat_operator.Controller.Service.Reconcile.Laws.{ReportsPatched, reconcile-ReportsOnly}
use heat_operator.Controller.Handshake.{mutate_child}

-- the hash that the child reads
abbrev pub asked : {C : Type 0} → Instance C → String
asked child = value (lookup input_secret_hash child.service.meta.annotations)

-- The child, and the hashes that it read in the reconciles that confirmed its pods, the last first.
pub record World (C : Type 0) : Type 0 where
  pub child : Instance C
  pub confirmed : List String

module _ {C : Type 0} (ops : CondOps C) where
  -- one step: a write of the parent, an edit of the instance by anyone else, a reconcile
  pub data Step : World C → World C → Type 0 where
    parent_writes :
        (w : World C) (meta : ObjectMeta) (spec : HeatSpec) (hostname : String) (mc : Memcached)
        (secret hash : String)
        → Step w (record w { child = mutate_child meta spec hostname mc secret hash w.child })
    user_edits :
        (w : World C) (svc : Service)
        → Step w (record w { child = record (w.child) { service = svc } })
    child_reconciles :
        (w : World C) (env : Env C) (empty : C) (patch : Instance C → Log → Option Err)
        (new_helper : Option Err) (after : Instance C)
        → (reconcile ops env empty patch new_helper (found w.child)).patched ≡ some after
        → Step w (record {
          child = after;
          confirmed =
              if just_confirmed (reconcile ops env empty patch new_helper (found w.child)).log
              then asked w.child ∷ w.confirmed
              else w.confirmed;
        })

  pub data Run : World C → World C → Type 0 where
    start : (w : World C) → Run w w
    followed : {w w' w'' : World C} → Run w w' → Step w' w'' → Run w w''

  -- The reported hash is this one, or was read by a reconcile that confirmed the pods.
  abbrev pub IsKnown : String → World C → Type 0
  IsKnown first w =
      (w.child.status.applied_input_secret_hash ≡ first)
      ⊎ (any (λ h. h == w.child.status.applied_input_secret_hash) w.confirmed ≡ true)

  added-IsKnown :
      (first : String) (w : World C) (after : Instance C) (log : Log)
      → IsConfirmed w.child.service w.child.status.applied_input_secret_hash
          (record { status = after.status; log = log })
      → IsKnown first w
      → IsKnown first (record {
        child = after;
        confirmed = if just_confirmed log then asked w.child ∷ w.confirmed else w.confirmed;
      })
  added-IsKnown first w after log (inl e) h =
      ground (arith, h, e, eq_iff (asked w.child) after.status.applied_input_secret_hash)
  added-IsKnown first w after log (inr (e, c)) h =
      inr (ground (arith, eq_iff (asked w.child) after.status.applied_input_secret_hash))

  patched-IsKnown :
      (first : String) (w : World C) (p : Option (Instance C)) (after : Instance C) (log : Log)
      (env : Env C) (empty : C) (patch : Instance C → Log → Option Err)
      → ReportsPatched ops env empty patch w.child p log
      → p ≡ some after
      → IsKnown first w
      → IsKnown first (record {
        child = after;
        confirmed = if just_confirmed log then asked w.child ∷ w.confirmed else w.confirmed;
      })
  patched-IsKnown first w none after log env empty patch r e h = ground arith
  patched-IsKnown first w (some c) after log env empty patch r e h =
      subst
        (λ a. IsKnown first (record {
          child = a;
          confirmed = if just_confirmed log then asked w.child ∷ w.confirmed else w.confirmed;
        }))
        (some-injective c after e) (added-IsKnown first w c log r.1 h)

  next-IsKnown : (first : String) (w w' : World C) → Step w w' → IsKnown first w → IsKnown first w'
  unfolding mutate_child
  next-IsKnown first w w' (parent_writes _ meta spec hostname mc secret hash) h = h
  next-IsKnown first w w' (user_edits _ svc) h = h
  next-IsKnown first w w' (child_reconciles _ env empty patch new_helper after e) h =
      let outcome = reconcile ops env empty patch new_helper (found w.child) in
      patched-IsKnown first w outcome.patched after outcome.log env empty patch
        (reconcile-ReportsOnly ops env empty patch new_helper w.child) e h

  all-IsKnown : (first : String) (w w' : World C) → Run w w' → IsKnown first w → IsKnown first w'
  all-IsKnown first w w' (start _) h = h
  all-IsKnown first w w' (followed {w' = v} run step) h =
      next-IsKnown first v w' step (all-IsKnown first w v run h)

  -- However the parent's writes, edits of the instance by others and the child's reconciles, in
  -- whatever cluster, follow one another: the hash that the child reports is the one that it
  -- reported at first, or one that a reconcile of it read on the instance and whose last call found
  -- the pods running with their inputs.
  pub reported-IsKnown :
      (child : Instance C) (w : World C)
      → Run (record { child = child; confirmed = [] }) w
      → IsKnown child.status.applied_input_secret_hash w
  reported-IsKnown child w run =
      all-IsKnown child.status.applied_input_secret_hash (record { child = child; confirmed = [] })
        w run (inl refl)
