-- ===== src/Manager/Tls/Certificates.antt =====
-- The certificates of the two servers, which are both appended to tlsOpts.
use heat_operator.Base.{
  Bool, true, false, ◌&&◌, Option, none, some, List, [], ◌∷◌, ◌++◌, if◌then◌else◌, ◌≡◌, refl, ap,
  ◌∙◌, inl, arith,
}
use heat_operator.Controller.Conditions.{Err}
use heat_operator.Controller.Exec.{pure, ◌>>=◌, ◌>>◌}
use heat_operator.Controller.Exec.Rules.{Triple, Triple-bind}
use heat_operator.Manager.Slices.{Slice, Heap, append, elements}
use heat_operator.Manager.Slices.Laws.{
  elements-append, elements-append_other, later_if, first_elements, second_elements,
}
use heat_operator.Manager.Env.{Env, State, TlsOption, get_certificate, CertWatcher}
use heat_operator.Manager.Main.{exit_if, append_option}
use heat_operator.Manager.Tls.{
  IsEarly, Exited, exit_if_lem, options_of, spare_of, IsBase, EarlyBase,
}

abbrev pub watcher_if : Bool → CertWatcher → Option CertWatcher
watcher_if true watcher = some watcher
watcher_if false watcher = none

module _ (env : Env) (http2 : Bool) (webhook metrics : CertWatcher) where
  -- the webhook's options, by whether each server has a certificate: where tlsOpts has spare room,
  -- the metrics certificate overwrites that of the webhook
  abbrev pub webhook_of : (webhook_cert metrics_cert : Bool) → List (Option TlsOption)
  webhook_of false metrics_cert = options_of http2
  webhook_of true metrics_cert =
      options_of http2
      ++ some (
          later_if (metrics_cert && spare_of env http2) (get_certificate webhook)
            (get_certificate metrics))
        ∷ []

  abbrev pub metrics_of : (metrics_cert : Bool) → List (Option TlsOption)
  metrics_of false = options_of http2
  metrics_of true = options_of http2 ++ some (get_certificate metrics) ∷ []

  module _ (tls : Slice) where
    -- `append(tlsOpts, x)` was the last step.
    pub record Appended (x : TlsOption) (w : Slice) (s : State) : Type 0 where
      before : Heap TlsOption
      early : IsEarly s
      base : IsBase env http2 tls before
      both : (w, s.heap) ≡ append env.grow x tls before

    append_option_lem :
        (x : TlsOption)
        → Triple (EarlyBase env http2 tls) (append_option env x tls) (Appended x) Exited
    unfolding append_option
    append_option_lem x = record {
      at = λ s (early, base). record {
        before = s.heap;
        early = ap {A = State} (λ s'. record s' { heap = (append env.grow x tls s.heap).1 }) early;
        base = base;
        both = refl;
      };
    }

    -- after the webhook's certificate
    abbrev pub Webhook : Bool → Option CertWatcher × Slice → State → Type 0
    Webhook false (watcher, w) s = (watcher ≡ none) × (w ≡ tls) × EarlyBase env http2 tls s
    Webhook true (watcher, w) s = (watcher ≡ some webhook) × Appended (get_certificate webhook) w s

    pub webhook_lem :
        (cert : Bool) (err : Option Err)
        → Triple
            (EarlyBase env http2 tls)
            (if cert
              then (exit_if err
                  >> (append_option env (get_certificate webhook) tls >>= λ w.
                      pure (some webhook, w)))
              else pure (none, tls))
            (Webhook cert)
            Exited
    webhook_lem true err = Triple-bind (exit_if_lem err (λ s h. ap (λ s'. s'.is_started) h.0)) (λ _.
        Triple-bind (append_option_lem (get_certificate webhook))
          (λ w. record { at = λ s h. (refl, h) }))
    webhook_lem false err = record { at = λ s h. (refl, refl, h) }

  -- what both certificates leave
  pub record Served (webhook_cert metrics_cert : Bool) (webhook_watcher : Option CertWatcher)
      (w : Slice) (metrics_watcher : Option CertWatcher) (m : Slice) (s : State) : Type 0 where
    pub early : IsEarly s
    pub watches_webhook : webhook_watcher ≡ watcher_if webhook_cert webhook
    pub watches_metrics : metrics_watcher ≡ watcher_if metrics_cert metrics
    pub webhook_elements : elements w s.heap ≡ webhook_of webhook_cert metrics_cert
    pub metrics_elements : elements m s.heap ≡ metrics_of metrics_cert

  abbrev grown : TlsOption → Slice → Heap TlsOption → Slice × Heap TlsOption
  grown x tls h = append env.grow x tls h

  module _ (tls : Slice) (h : Heap TlsOption) (base : IsBase env http2 tls h) (x : TlsOption) where
    base_kept : elements tls (grown x tls h).1 ≡ options_of http2
    base_kept = elements-append_other env.grow x tls h tls base.old (inl (omega arith)) ∙ base.all

    one_more : elements (grown x tls h).0 (grown x tls h).1 ≡ options_of http2 ++ some x ∷ []
    one_more = elements-append env.grow x tls h ∙ ap (λ xs. xs ++ some x ∷ []) base.all

  -- the case of one certificate at most
  not_shared :
      (cert : Bool) (tls w : Slice) (wc : Option CertWatcher) (s : State)
      → Webhook tls cert (wc, w) s
      → Served cert false wc w none tls s
  not_shared false tls w wc s (no_watcher, same, (early, base)) = record {
    early = early;
    watches_webhook = no_watcher;
    watches_metrics = refl;
    webhook_elements = ap (λ t. elements t s.heap) same ∙ base.all;
    metrics_elements = base.all;
  }
  not_shared true tls w wc s (watched, h) =
      let x : TlsOption = get_certificate webhook in
      record {
        early = h.early;
        watches_webhook = watched;
        watches_metrics = refl;
        webhook_elements = ap (λ p. elements p.0 p.1) h.both ∙ one_more tls h.before h.base x;
        metrics_elements = ap (λ p. elements tls p.1) h.both ∙ base_kept tls h.before h.base x;
      }

  abbrev next_heap : Slice → Heap TlsOption → Slice × Heap TlsOption
  next_heap = grown (get_certificate metrics)

  shared :
      (cert : Bool) (tls w : Slice) (wc : Option CertWatcher) (s : State)
      → Webhook tls cert (wc, w) s
      → Served cert true wc w
          (some metrics)
          (next_heap tls s.heap).0
          (record s { heap = (next_heap tls s.heap).1 })
  shared false tls w wc s (no_watcher, same, (early, base)) =
      let y : TlsOption = get_certificate metrics in
      record {
        early = ap {A = State} (λ s'. record s' { heap = (next_heap tls s.heap).1 }) early;
        watches_webhook = no_watcher;
        watches_metrics = refl;
        webhook_elements =
            ap (λ t. elements t (next_heap tls s.heap).1) same ∙ base_kept tls s.heap base y;
        metrics_elements = one_more tls s.heap base y;
      }
  shared true tls w wc s (watched, h) =
      let x : TlsOption = get_certificate webhook in
      let y : TlsOption = get_certificate metrics in
      record {
        early = ap {A = State} (λ s'. record s' { heap = (next_heap tls s.heap).1 }) h.early;
        watches_webhook = watched;
        watches_metrics = refl;
        webhook_elements =
            ap (λ p. elements p.0 (next_heap tls p.1).1) h.both
            ∙ first_elements env.grow x y tls h.before h.base.old (spare_of env http2) h.base.room
            ∙ ap (λ xs. xs ++ some (later_if (spare_of env http2) x y) ∷ []) h.base.all;
        metrics_elements =
            ap (λ p. elements (next_heap tls p.1).0 (next_heap tls p.1).1) h.both
            ∙ second_elements env.grow x y tls h.before h.base.old
            ∙ ap (λ xs. xs ++ some y ∷ []) h.base.all;
      }

  pub metrics_lem :
      (webhook_cert cert : Bool) (err : Option Err) (tls w : Slice) (wc : Option CertWatcher)
      → Triple
          (Webhook tls webhook_cert (wc, w))
          (if cert
            then (exit_if err
                >> (append_option env (get_certificate metrics) tls >>= λ m.
                    pure (some metrics, m)))
            else pure (none, tls))
          (λ (mc, m) s. Served webhook_cert cert wc w mc m s)
          Exited
  unfolding append_option
  metrics_lem webhook_cert false err tls w wc = record {
    at = λ s h. not_shared webhook_cert tls w wc s h;
  }
  metrics_lem webhook_cert true err tls w wc =
      Triple-bind (exit_if_lem err (λ s h. webhook_early webhook_cert tls wc w s h))
        (λ _. record { at = λ s h. shared webhook_cert tls w wc s h })
    where
      webhook_early :
          (b : Bool) (tls : Slice) (wc : Option CertWatcher) (w : Slice) (s : State)
          → Webhook tls b (wc, w) s
          → s.is_started ≡ false
      webhook_early false tls wc w s (_, _, (early, _)) = ap (λ s'. s'.is_started) early
      webhook_early true tls wc w s (_, h) = ap (λ s'. s'.is_started) h.early
