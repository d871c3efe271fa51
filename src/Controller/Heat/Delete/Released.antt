-- ===== src/Controller/Heat/Delete/Released.antt =====
-- The secrets that a loop of reconcileDelete (internal/controller/heat_controller.go) has released.
use heat_operator.Base.{
  String, Bool, true, false, ◌&&◌, ◌||◌, Option, none, some, is_some, List, [], ◌∷◌, ◌==◌, ◌≡◌,
  refl, eq_refl, arith,
}
use heat_operator.Api.Types.{Opaque, HeatSpec, ObjectMeta, HeatStatus}
use heat_operator.Controller.Conditions.{CondOps, Err}
use heat_operator.Controller.Exec.{Exit, next, stop, Returned}
use heat_operator.Controller.Exec.Rules.{Post, Triple, Triple-bind}
use heat_operator.Controller.Heat.Env.{
  Env, State, Call, Log, found, get_transport_url, consumer_removed, consumers_pruned,
}
use heat_operator.Controller.Heat.Transport.{return_if_err}
use heat_operator.Controller.Heat.Rotation.{remove_consumer}
use heat_operator.Controller.Heat.Delete.{release_all}

module _ {C : Type 0} where
  abbrev pub removes : (secret finalizer : String) → Call C → Bool
  removes secret finalizer (consumer_removed s f none) = s == secret && f == finalizer
  removes secret finalizer _ = false

  -- The consumer finalizer was removed from the secret, without an error.
  abbrev pub released : (secret finalizer : String) → Log C → Bool
  released secret finalizer [] = false
  released secret finalizer (call ∷ log) =
      removes secret finalizer call || released secret finalizer log

  abbrev pub reads : String → Call C → Bool
  reads secret (get_transport_url name (found s)) = s == secret
  reads secret _ = false

  -- The secret was read off a TransportURL.
  abbrev pub was_read : String → Log C → Bool
  was_read secret [] = false
  was_read secret (call ∷ log) = reads secret call || was_read secret log

  abbrev pub prunes : String → Call C → Bool
  prunes finalizer (consumers_pruned f [] none) = f == finalizer
  prunes finalizer _ = false

  -- The finalizer was taken off every secret.
  abbrev pub pruned : String → Log C → Bool
  pruned finalizer [] = false
  pruned finalizer (call ∷ log) = prunes finalizer call || pruned finalizer log

abbrev pub listed : String → List String → Bool
listed name [] = false
listed name (n ∷ names) = n == name || listed name names

module _ {C : Type 0} where
  -- the state at the start of a reconcile
  abbrev pub fresh : HeatStatus C → Option Opaque → State C
  fresh status keystone = record { status = status; keystone_api = keystone; log = [] }

  -- an early return of the deletion is an error
  abbrev pub Fails : Returned → State C → Type 0
  Fails (result, err) s = is_some err ≡ true

  -- what further removals do not undo
  abbrev pub IsStable : (Log C → Type 0) → Type 0
  IsStable P =
      (secret finalizer : String) (log : Log C)
      → P log
      → P (consumer_removed secret finalizer none ∷ log)

  abbrev pub Kept : {A : Type 0} → HeatStatus C → (Log C → Type 0) → A → State C → Type 0
  Kept st P _ s = (s.status ≡ st) × P s.log

  abbrev pub AllReleased : String → List String → Log C → Type 0
  AllReleased finalizer names log =
      (x : String) → listed x names ≡ true → released x finalizer log ≡ true

  pub released-stable : (x f : String) → IsStable (λ log. released x f log ≡ true)
  released-stable x f secret finalizer log h = ground arith

  released-head :
      (x secret f : String) (log : Log C)
      → (secret == x) ≡ true
      → released x f (consumer_removed secret f none ∷ log) ≡ true
  released-head x secret f log h = ground (arith, eq_refl f)

  listed-cons :
      (f n : String) (names : List String) (log : Log C)
      → ((x : String) → (n == x) ≡ true → released x f log ≡ true)
      → AllReleased f names log
      → AllReleased f (n ∷ names) log
  listed-cons f n names log head tail x h = ground (arith, head x, tail x)

module _ {C : Type 0} (ops : CondOps C) (env : Env C) (meta : ObjectMeta) (spec : HeatSpec)
    (st : HeatStatus C) where
  module _ (P : Log C → Type 0) (stable : IsStable P) (f : String) where
    removed :
        (n : String)
        → Triple
            (Kept st P tt)
            (remove_consumer ops env meta spec n f)
            (Kept st (λ log. P log × ((x : String) → (n == x) ≡ true → released x f log ≡ true)))
            Fails
    unfolding remove_consumer
    removed n = record { at = λ s h. removed_by (env.remove_consumer n f s.log) s h }
      where
        removed_by :
            (err : Option Err) (s : State C)
            → Kept st P tt s
            → Post {R = Returned} {A = Unit {0}}
                (Kept st
                  (λ log. P log × ((x : String) → (n == x) ≡ true → released x f log ≡ true)))
                Fails
                (return_if_err {S = State C} err
                  (record s { log = consumer_removed n f err ∷ s.log }))
        removed_by none s h = (h.0, (stable n f s.log h.1, λ x p. released-head x n f s.log p))
        removed_by (some e) s h = refl

  pub all_released :
      (P : Log C → Type 0) (stable : IsStable P) (f : String) (names : List String)
      → Triple
          (Kept st P tt)
          (release_all ops env meta spec f names)
          (Kept st (λ log. P log × AllReleased f names log))
          Fails
  unfolding release_all
  all_released P stable f [] = record { at = λ s h. (h.0, (h.1, λ x p. ground arith)) }
  all_released P stable f (n ∷ names) = Triple-bind (removed P stable f n) (λ _. record {
    at = λ s h. weaken (release_all ops env meta spec f names s) (
        (all_released (λ log. P log × ((x : String) → (n == x) ≡ true → released x f log ≡ true))
            (λ secret g log k.
              (stable secret g log k.0, λ x p. released-stable x f secret g log (k.1 x p)))
            f names).at
          s h);
  })
    where
      weaken :
          (x : Exit Returned (Unit {0}) × State C)
          → Post
              (Kept st (λ log.
                (P log × ((x : String) → (n == x) ≡ true → released x f log ≡ true))
                × AllReleased f names log))
              Fails
              x
          → Post (Kept st (λ log. P log × AllReleased f (n ∷ names) log)) Fails x
      weaken (next a, s) h = (h.0, (h.1.0.0, listed-cons f n names s.log h.1.0.1 h.1.1))
      weaken (stop r, s) h = h
