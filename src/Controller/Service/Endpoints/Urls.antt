-- ===== src/Controller/Service/Endpoints/Urls.antt =====
-- The URLs that reconcileInit registers with Keystone do not depend on the order in which Go ranges
-- over the endpoints.
use mathlib.Core.Path.{subst}
use heat_operator.Base.{
  String, Bool, true, false, Option, none, some, is_some, [], GoMap, lookup, insert, lookup-insert,
  ◌≡◌, arith, if◌then◌else◌,
}
use heat_operator.Heat.Volumes.{Endpoint, internal, public, endpoint_name}
use heat_operator.Controller.Conditions.{CondOps}
use heat_operator.Controller.Exec.{Exit, next, stop, Returned, ◌>>=◌}
use heat_operator.Controller.Exec.Rules.{Post, Triple, Triple-bind}
use heat_operator.Controller.Heat.Env.{Fetched, found, failed}
use heat_operator.Controller.Service.Env.{Env, State, Service}
use heat_operator.Controller.Service.Endpoints.{
  ApiKind, details, annotated, expose, exposed, range_order, expose_all,
}

abbrev to_option : Fetched String → Option String
to_option (found url) = some url
to_option (failed e) = none

module _ {C : Type 0} (ops : CondOps C) (env : Env C) (svc : Service) (kind : ApiKind)
    (labels : GoMap String) where
  -- the URL that the Service of the endpoint gets: no reply of the cluster goes into it
  abbrev url_of : Endpoint → Option String
  url_of endpt =
      let override = lookup (endpoint_name endpt) svc.spec.override in
      elim (env.new_service (details ops env svc kind labels endpt) override) [
        | failed e ↦ none
        | found built ↦ to_option (
            env.get_api_endpoint (annotated ops env svc kind endpt built) override
              (env.volume_ops.tls_enabled svc.spec.tls endpt) kind.path)
      ]

  -- The URLs have the endpoint's.
  abbrev pub HasUrl : Endpoint → GoMap String → Type 0
  HasUrl endpt urls =
      (lookup (endpoint_name endpt) urls ≡ url_of endpt)
      × (is_some (lookup (endpoint_name endpt) urls) ≡ true)

  abbrev Any : {A : Type 0} → A → State C → Type 0
  Any a s = Unit {0}

  first-HasUrl :
      (endpt : Endpoint)
      → Triple (Any tt) (expose ops env svc kind labels endpt []) (λ urls _. HasUrl endpt urls) Any
  unfolding expose lookup insert
  first-HasUrl internal = record { at = λ s h. ground arith }
  first-HasUrl public = record { at = λ s h. ground arith }

  -- the other endpoint
  abbrev other : Endpoint → Endpoint
  other internal = public
  other public = internal

  second-HasUrl :
      (endpt : Endpoint) (urls : GoMap String)
      → Triple
          (λ s. HasUrl (other endpt) urls)
          (expose ops env svc kind labels endpt urls)
          (λ urls' _. HasUrl (other endpt) urls' × HasUrl endpt urls')
          Any
  unfolding expose
  second-HasUrl internal urls = record { at = λ s h. grind (arith, lookup-insert) }
  second-HasUrl public urls = record { at = λ s h. grind (arith, lookup-insert) }

  abbrev Both : GoMap String → State C → Type 0
  Both urls s = HasUrl internal urls × HasUrl public urls

  order-Any : Triple (Any tt) (range_order ops env svc kind) Any Any
  unfolding range_order
  order-Any = record { at = λ s h. tt }

  exposed-Both : (urls : GoMap String) → Triple (Both urls) (exposed ops env svc kind urls) Both Any
  unfolding exposed
  exposed-Both urls = record { at = λ s h. h }

  loop-Both :
      (first : Bool)
      → Triple
          (Any tt)
          (do
            urls ← expose ops env svc kind labels (if first then public else internal) []
            urls' ← expose ops env svc kind labels (if first then internal else public) urls
            exposed ops env svc kind urls')
          Both
          Any
  loop-Both true =
      Triple-bind (first-HasUrl public)
        (λ urls. Triple-bind (swap urls) (λ urls'. exposed-Both urls'))
    where
      swap :
          (urls : GoMap String)
          → Triple (λ s. HasUrl public urls) (expose ops env svc kind labels internal urls) Both Any
      swap urls = record {
        at = λ s h.
            swapped (expose ops env svc kind labels internal urls s)
              ((second-HasUrl internal urls).at s h);
      }
        where
          swapped :
              (x : Exit Returned (GoMap String) × State C)
              → Post {R = Returned} (λ urls' _. HasUrl public urls' × HasUrl internal urls') Any x
              → Post Both Any x
          swapped (next urls', s) (p, i) = (i, p)
          swapped (stop r, s) h = tt
  loop-Both false =
      Triple-bind (first-HasUrl internal)
        (λ urls. Triple-bind (second-HasUrl public urls) (λ urls'. exposed-Both urls'))

  all-Both : Triple (Any tt) (expose_all ops env svc kind labels) Both Any
  unfolding expose_all
  all-Both = Triple-bind order-Any (λ first. loop-Both first)

  -- Where reconcileInit of an API gets through its loop, the endpoints that it registers with
  -- Keystone have the internal and the public URL, each the one that GetAPIEndpoint gives for the
  -- Service of that endpoint, whichever of the two Go ranges over first.
  pub expose_all-urls :
      (s s' : State C) (urls : GoMap String)
      → expose_all ops env svc kind labels s ≡ (next urls, s')
      → HasUrl internal urls × HasUrl public urls
  expose_all-urls s s' urls e = subst (Post Both Any) e (all-Both.at s tt)
