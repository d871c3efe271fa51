-- ===== src/Api/Route/Laws.antt =====
-- Who owns the HAProxy timeout of the route: the operator or a human.
use heat_operator.Base.{
  ℕ, String, none, some, GoMap, lookup, insert, lookup-insert, lookup-delete, ◌==◌, eq_iff, eq_refl,
  if◌then◌else◌, ◌≡◌, ◌≢◌, ◌⊎◌, inl, inr, arith,
}
use heat_operator.Api.Route.{
  ha_proxy_anno, heat_anno, timeout_text, value, set_default_route_annotations,
}

-- A human set the timeout, and the operator's flag is not there.
abbrev pub IsManual : GoMap String → String → Type 0
IsManual m u = (lookup ha_proxy_anno m ≡ some u) × (lookup heat_anno m ≡ none)

-- The operator set the timeout to this text, and the flag says so.
abbrev pub IsManaged : GoMap String → String → Type 0
IsManaged m u = (lookup ha_proxy_anno m ≡ some u) × (lookup heat_anno m ≡ some u)

module _ (t : ℕ) (m : GoMap String) where
  abbrev managed : GoMap String
  managed = insert ha_proxy_anno (timeout_text t) (insert heat_anno (timeout_text t) m)

  managed-lookup :
      (k : String)
      → lookup k managed ≡ (
          if ha_proxy_anno == k
          then some (timeout_text t)
          else if heat_anno == k
          then some (timeout_text t)
          else lookup k m)
  managed-lookup k = simp lookup-insert

  -- A timeout that a human set is never replaced: it stays when the flag is not there, and when the
  -- flag is there with another timeout the flag goes and the human's timeout stays.
  pub set_default_route_annotations-IsManual :
      (u : String)
      → lookup ha_proxy_anno m ≡ some u
      → lookup heat_anno m ≢ some u
      → IsManual (set_default_route_annotations t m) u
  unfolding set_default_route_annotations
  set_default_route_annotations-IsManual u h ne = ground (
    arith,
    lookup-delete ha_proxy_anno heat_anno m,
    lookup-delete heat_anno heat_anno m,
    eq_iff (value (lookup heat_anno m)) u,
    h,
  )

  -- If the route has no timeout, or the one that the operator's flag names, then the timeout and
  -- the flag both become the APITimeout of the spec.
  pub set_default_route_annotations-IsManaged :
      (lookup ha_proxy_anno m ≡ none) ⊎ (lookup ha_proxy_anno m ≡ lookup heat_anno m)
      → IsManaged (set_default_route_annotations t m) (timeout_text t)
  unfolding set_default_route_annotations
  set_default_route_annotations-IsManaged (inl h) =
      ground (arith, managed-lookup ha_proxy_anno, managed-lookup heat_anno)
  set_default_route_annotations-IsManaged (inr h) = ground (
    arith,
    managed-lookup ha_proxy_anno,
    managed-lookup heat_anno,
    eq_refl (value (lookup heat_anno m)),
  )

  -- Setting the default route annotations touches no annotation but the HAProxy timeout and the
  -- operator's flag.
  pub other_annotations_kept :
      (k : String)
      → heat_anno ≢ k
      → ha_proxy_anno ≢ k
      → lookup k (set_default_route_annotations t m) ≡ lookup k m
  unfolding set_default_route_annotations
  other_annotations_kept k h j = ground (
    arith,
    managed-lookup k,
    lookup-delete k heat_anno m,
    eq_iff heat_anno k,
    eq_iff ha_proxy_anno k,
  )
