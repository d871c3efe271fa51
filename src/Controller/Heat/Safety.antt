-- ===== src/Controller/Heat/Safety.antt =====
-- What is safe in the rotation of secrets (internal/controller/heat_controller.go): which calls of
-- the log may stand behind which.
pub mod Phases
pub mod Setup
pub mod Release
use heat_operator.Base.{
  String, Bool, true, false, not, ◌&&◌, ◌||◌, Option, none, some, List, [], ◌∷◌, ◌==◌, nonempty,
  ◌≡◌,
}
use heat_operator.Heat.Names.{
  Component, engine, api, cfnapi, ac_consumer_finalizer, transport_consumer_finalizer,
}
use heat_operator.Controller.Conditions.{Err}
use heat_operator.Controller.Heat.Env.{
  Call, Log, Child, transport_url_applied, consumer_added, consumer_removed, consumers_pruned,
  rotation_finalized, transport_url_deleted, child_applied,
}
use heat_operator.Controller.Heat.Children.{is_rolled_out}

abbrev pub same_component : Component → Component → Bool
same_component engine engine = true
same_component api api = true
same_component cfnapi cfnapi = true
same_component _ _ = false

module _ {C : Type 0} where
  -- The call that shows a component rolled out with the secrets of this hash.
  abbrev pub shows_rollout : Component → String → Call C → Bool
  shows_rollout c hash (child_applied d t h child none) =
      same_component c d && (h == hash && is_rolled_out hash child)
  shows_rollout c hash _ = false

  abbrev pub rolled_out : Component → String → Log C → Bool
  rolled_out c hash [] = false
  rolled_out c hash (call ∷ log) = shows_rollout c hash call || rolled_out c hash log

  -- All three services run with the secrets of one hash.
  abbrev pub AllRolledOut : Log C → Type 0
  AllRolledOut log =
      (hash : String) × (rolled_out engine hash log ≡ true)
      × (rolled_out api hash log ≡ true)
      × (rolled_out cfnapi hash log ≡ true)

  -- The consumer finalizer was added to the secret.
  abbrev pub adds : String → String → Call C → Bool
  adds secret finalizer (consumer_added s f none) = s == secret && f == finalizer
  adds secret finalizer _ = false

  abbrev pub acquired : String → String → Log C → Bool
  acquired secret finalizer [] = false
  acquired secret finalizer (call ∷ log) =
      adds secret finalizer call || acquired secret finalizer log

  -- What a call may follow. `ac` is the secret of the application credential in the spec.
  abbrev pub Allowed : (ac : String) → Call C → Log C → Type 0
  Allowed ac (consumer_removed s f err) log = AllRolledOut log
  Allowed ac (consumers_pruned f keep err) log = AllRolledOut log
  Allowed ac (transport_url_deleted n) log = AllRolledOut log
  Allowed ac (rotation_finalized old current f true) log = AllRolledOut log
  Allowed ac (child_applied c transport h child err) log =
      (acquired transport transport_consumer_finalizer log ≡ true)
      × (nonempty ac ≡ true → acquired ac ac_consumer_finalizer log ≡ true)
  Allowed ac _ log = Unit {0}

  -- Every call of the log was allowed when it was made.
  abbrev pub IsSafe : (ac : String) → Log C → Type 0
  IsSafe ac [] = Unit {0}
  IsSafe ac (call ∷ log) = Allowed ac call log × IsSafe ac log

  -- The finalizers that the children rely on are there.
  abbrev pub HasTransport : (ac transport : String) → Log C → Type 0
  HasTransport ac transport log =
      IsSafe ac log × (acquired transport transport_consumer_finalizer log ≡ true)

  abbrev pub HasSecrets : (ac transport : String) → Log C → Type 0
  HasSecrets ac transport log =
      IsSafe ac log
      × (acquired transport transport_consumer_finalizer log ≡ true)
      × (nonempty ac ≡ true → acquired ac ac_consumer_finalizer log ≡ true)
