-- ===== src/Controller/Heat/Delete/Laws.antt =====
-- What a finished deletion has released, and that a failed one keeps the operator's finalizer.
use heat_operator.Base.{
  String, true, false, ◌||◌, Option, none, is_some, List, [], ◌∷◌, ◌++◌, ◌==◌, ◌≡◌, ◌⊎◌, inl, inr,
  ap, ◌∙◌, refl, eq_refl, arith,
}
use heat_operator.Api.Types.{Opaque, HeatSpec, ObjectMeta, HeatStatus}
use heat_operator.Heat.Names.{ac_consumer_finalizer, transport_consumer_finalizer}
use heat_operator.Controller.Conditions.{CondOps}
use heat_operator.Controller.Exec.{Exit, next, stop, returned, Returned, empty_result}
use heat_operator.Controller.Exec.Rules.{Post, Triple, Triple-bind}
use heat_operator.Controller.Heat.Env.{
  Env, get_status, State, Log, Fetched, found, failed, get_transport_url,
}
use heat_operator.Controller.Heat.Transport.{transport_url_name, notifications_transport_url_name}
use heat_operator.Controller.Heat.Rotation.{prune_consumers}
use heat_operator.Controller.Heat.Delete.{
  release_database, release_all, append_secret, append_reply, release_application_credentials,
  release_transports, release_stranded, release_everything, reconcile_delete, drop_finalizer,
}
use heat_operator.Controller.Heat.Delete.Released.{
  released, was_read, pruned, listed, fresh, Fails, IsStable, Kept, AllReleased, released-stable,
  all_released,
}

module _ {C : Type 0} (ops : CondOps C) (env : Env C) (meta : ObjectMeta) (spec : HeatSpec)
    (st : HeatStatus C) where
  abbrev Unread : Log C → Type 0
  Unread log = (x : String) → was_read x log ≡ false

  -- Every secret read so far is among the names.
  abbrev ReadIn : List String → Log C → Type 0
  ReadIn names log = (x : String) → was_read x log ≡ true → listed x names ≡ true

  abbrev ac_names : List String
  ac_names = st.application_credential_secret ∷ spec.application_credential_secret ∷ []

  abbrev known : List String
  known = st.transport_url_secret ∷ st.notifications_transport_url_secret ∷ []

  -- what holds while the TransportURLs are read
  abbrev Reading : List String → Log C → Type 0
  Reading names log =
      AllReleased ac_consumer_finalizer ac_names log
      × ReadIn names log
      × ((x : String) → listed x known ≡ true → listed x names ≡ true)

  database-Kept :
      Triple (Kept st Unread tt) (release_database ops env meta spec) (Kept st Unread) Fails
  unfolding release_database
  database-Kept = record { at = λ s h. ground (arith, h.1) }

  listed-append :
      (x y : String) (names : List String)
      → listed x names || y == x ≡ true
      → listed x (names ++ y ∷ []) ≡ true
  listed-append x y [] h = ground arith
  listed-append x y (n ∷ names) h = ground (arith, listed-append x y names)

  appended :
      (tu : String) (names : List String)
      → Triple
          (Kept st (Reading names) tt)
          (append_secret ops env meta spec tu names)
          (λ names'. Kept st (Reading names') names')
          Fails
  unfolding append_secret append_reply
  appended tu names = record { at = λ s h. appended_by (env.get_transport_url tu s.log) s h }
    where
      appended_by :
          (reply : Fetched String) (s : State C)
          → Kept st (Reading names) tt s
          → Post {R = Returned} {A = List String}
              (λ names'. Kept st (Reading names') names')
              Fails
              (append_reply ops env meta spec reply names
                (record s { log = get_transport_url tu reply ∷ s.log }))
      appended_by (found secret) s h = (
        h.0,
        (
          (λ x p. ground (arith, h.1.0 x p)),
          (λ x p. listed-append x secret names (ground (arith, h.1.1 x))),
          (λ x p. listed-append x secret names (ground (arith, h.1.2 x p))),
        ),
      )
      appended_by (failed e) s h = ground (arith, h.1)

  -- what holds at the end
  abbrev Cleared : Log C → Type 0
  Cleared log =
      AllReleased ac_consumer_finalizer ac_names log
      × AllReleased transport_consumer_finalizer known log
      × ((x : String) → was_read x log ≡ true → released x transport_consumer_finalizer log ≡ true)

  abbrev Finished : Log C → Type 0
  Finished log =
      Cleared log
      × (pruned transport_consumer_finalizer log ≡ true)
      × (pruned ac_consumer_finalizer log ≡ true)

  module _ {A : Type 0} (P Q : Log C → Type 0) (imp : (log : Log C) → P log → Q log) where
    weaken-Kept :
        (x : Exit Returned A × State C) → Post (Kept st P) Fails x → Post (Kept st Q) Fails x
    weaken-Kept (next a, s) h = (h.0, imp s.log h.1)
    weaken-Kept (stop r, s) h = h

  -- the status that a body reads is the one it started with
  status_read :
      (P : Log C → Type 0)
      → Triple {R = Returned}
          (Kept st P tt)
          get_status
          (λ status s. (status ≡ st) × Kept st P tt s)
          Fails
  status_read P = record { at = λ s h. (h.0, h) }

  abbrev Credentials : Log C → Type 0
  Credentials log = Unread log × AllReleased ac_consumer_finalizer ac_names log

  ac_release-Kept :
      Triple
        (Kept st Unread tt)
        (release_application_credentials ops env meta spec)
        (Kept st Credentials)
        Fails
  unfolding release_application_credentials
  ac_release-Kept = Triple-bind (status_read Unread) (λ status. record {
    at = λ s h.
        weaken-Kept (λ log. Unread log × AllReleased ac_consumer_finalizer (names status) log)
          Credentials (λ log k. (k.0, λ x p. k.1 x (ap (λ t. listed x (names t)) h.0 ∙ p)))
          (release_all ops env meta spec ac_consumer_finalizer (names status) s)
          ((all_released ops env meta spec st Unread (λ secret f log k x. ground (arith, k x))
              ac_consumer_finalizer (names status)).at
            s h.1);
  })
    where
      names : HeatStatus C → List String
      names t = t.application_credential_secret ∷ spec.application_credential_secret ∷ []

  abbrev known_in : HeatStatus C → List String
  known_in t = t.transport_url_secret ∷ t.notifications_transport_url_secret ∷ []

  Reading-IsStable : (names : List String) → IsStable (Reading names)
  Reading-IsStable names secret f log k = (
    (λ x p. released-stable x ac_consumer_finalizer secret f log (k.0 x p)),
    (λ x p. ground (arith, k.1 x)),
    k.2,
  )

  start-Reading :
      (status : HeatStatus C) (log : Log C)
      → status ≡ st
      → Credentials log
      → Reading (known_in status) log
  start-Reading status log e k =
      (k.1, (λ x p. ground (arith, k.0 x)), (λ x p. ap (λ t. listed x (known_in t)) e ∙ p))

  all-Cleared :
      (names : List String)
      → Triple
          (Kept st (Reading names) tt)
          (release_all ops env meta spec transport_consumer_finalizer names)
          (Kept st Cleared)
          Fails
  all-Cleared names = record {
    at = λ s h.
        weaken-Kept (λ log. Reading names log × AllReleased transport_consumer_finalizer names log)
          Cleared (λ log k. (k.0.0, (λ x p. k.1 x (k.0.2 x p)), (λ x p. k.1 x (k.0.1 x p))))
          (release_all ops env meta spec transport_consumer_finalizer names s)
          ((all_released ops env meta spec st (Reading names) (Reading-IsStable names)
              transport_consumer_finalizer names).at
            s h);
  }

  transports-Cleared :
      Triple (Kept st Credentials tt) (release_transports ops env meta spec) (Kept st Cleared) Fails
  unfolding release_transports
  transports-Cleared = Triple-bind (status_read Credentials) (λ status.
      Triple-bind
        (record {
          at = λ s h.
              (appended (transport_url_name meta.name) (known_in status)).at s
                (h.1.0, start-Reading status s.log h.0 h.1.1);
        })
        (λ names.
          Triple-bind (appended (notifications_transport_url_name meta.name) names) all-Cleared))

  stranded-Finished :
      Triple (Kept st Cleared tt) (release_stranded ops env meta spec) (Kept st Finished) Fails
  unfolding release_stranded prune_consumers
  stranded-Finished = record {
    at = λ s h.
        ground (arith, eq_refl transport_consumer_finalizer, eq_refl ac_consumer_finalizer, h.1);
  }

  -- a run to the end returns no error
  abbrev Done : Returned → State C → Type 0
  Done r s = (r ≡ (empty_result, none)) × Kept st Finished tt s

  everything-Done : Triple (Kept st Unread tt) (release_everything ops env meta spec) Done Fails
  unfolding release_everything
  everything-Done = Triple-bind database-Kept (λ _. Triple-bind ac_release-Kept (λ _.
      Triple-bind transports-Cleared
        (λ _. Triple-bind stranded-Finished (λ _. record { at = λ s h. (refl, h) }))))

module _ {C : Type 0} (ops : CondOps C) (env : Env C) (meta : ObjectMeta) (spec : HeatSpec) where
  -- A deletion that is through: what it released, and the operator's finalizer is gone.
  abbrev pub Deleted :
      State C → List String → Exit Returned Returned × (List String × State C) → Type 0
  Deleted s finalizers (x, (finalizers', s')) =
      (returned x ≡ (empty_result, none))
      × (finalizers' ≡ env.remove_finalizer env.finalizer finalizers)
      × Finished ops env meta spec s.status s'.log

  -- A deletion that is not: an error, which makes the controller try again.
  abbrev pub KeptBack : List String → Exit Returned Returned × (List String × State C) → Type 0
  KeptBack finalizers (x, (finalizers', s')) =
      (is_some (returned x).1 ≡ true) × (finalizers' ≡ finalizers)

  release_everything-Deleted :
      (s : State C) (finalizers : List String) (y : Exit Returned Returned × State C)
      → Post (Done ops env meta spec s.status) Fails y
      → Deleted s finalizers (y.0, (drop_finalizer ops env meta spec y.0 finalizers, y.1))
        ⊎ KeptBack finalizers (y.0, (drop_finalizer ops env meta spec y.0 finalizers, y.1))
  release_everything-Deleted s finalizers (next r, s') h = inl (h.0, refl, h.1.1)
  release_everything-Deleted s finalizers (stop r, s') h = inr (h, refl)

  -- A deletion that starts with an empty log either returns an error and leaves the finalizers of
  -- the Heat resource as they are, or returns no error, has removed the operator's finalizer, and
  -- has removed, without an error, the AC consumer finalizer from the secrets of the status and of
  -- the spec, the transport consumer finalizer from the two secrets of the status and from every
  -- secret that it read off a TransportURL, and has pruned both finalizers from every secret.
  pub reconcile_delete-Deleted :
      (status : HeatStatus C) (keystone : Option Opaque) (finalizers : List String)
      → let y = reconcile_delete ops env meta spec (finalizers, fresh status keystone) in
        Deleted (fresh status keystone) finalizers y ⊎ KeptBack finalizers y
  unfolding reconcile_delete
  reconcile_delete-Deleted status keystone finalizers =
      release_everything-Deleted (fresh status keystone) finalizers
        (release_everything ops env meta spec (fresh status keystone))
        ((everything-Done ops env meta spec status).at (fresh status keystone) (refl, λ x. refl))
