-- ===== src/Manager/Tls.antt =====
-- The TLS options of the two servers, which main builds by appending to a shared slice.
pub mod Certificates
use heat_operator.Base.{
  ℕ, ◌+◌, ◌<◌, Bool, true, false, ◌&&◌, ltb, nonempty, Option, none, some, List, [], ◌∷◌, ◌++◌,
  Bool-cases, if◌then◌else◌, ◌≡◌, refl, sym, ap, ◌∙◌, ◌⊎◌, inl, inr, arith,
}
use heat_operator.Controller.Conditions.{Err}
use heat_operator.Controller.Exec.{Exec, pure, ◌>>=◌, ◌>>◌}
use mathlib.Core.Path.{subst}
use heat_operator.Controller.Exec.Rules.{Post, Triple, Triple-bind, Triple-if}
use heat_operator.Manager.Slices.{
  Slice, Heap, append, append_if, empty_heap, nil_slice, is_roomy, elements,
}
use heat_operator.Manager.Slices.Laws.{
  elements-append, append-fresh, elements-append_other, later_if, first_elements, second_elements,
}
use heat_operator.Manager.Env.{
  Env, Flags, State, initial_state, TlsOption, min_version_tls13, http1_only, get_certificate,
  CertWatcher,
}
use heat_operator.Manager.Main.{
  exit_if, modify, append_option, base_tls_opts, watch_cert, webhook_watcher, metrics_watcher,
}

-- Nothing was done but to build slices.
abbrev pub IsEarly : State → Type 0
IsEarly s = s ≡ record initial_state { heap = s.heap }

-- how main exits before Start
abbrev pub Exited : ℕ → State → Type 0
Exited r s = (r ≡ 1) × (s.is_started ≡ false)

pub exit_if_lem :
    {P : State → Type 0} (err : Option Err)
    → ((s : State) → P s → s.is_started ≡ false)
    → Triple P (exit_if err) (λ _. P) Exited
exit_if_lem none early = record { at = λ s h. h }
exit_if_lem (some e) early = record { at = λ s h. (refl, early s h) }

pub modify_lem :
    {P Q : State → Type 0} (f : State → State)
    → ((s : State) → P s → Q (f s))
    → Triple P (modify f) (λ _. Q) Exited
modify_lem f step = record { at = step }

-- what both servers have, by --enable-http2
abbrev pub options_of : Bool → List (Option TlsOption)
options_of true = some min_version_tls13 ∷ []
options_of false = some min_version_tls13 ∷ some http1_only ∷ []

module _ (env : Env) where
  -- whether the runtime leaves room in the array of tlsOpts
  abbrev pub spare_of : Bool → Bool
  spare_of true = ltb 1 (env.grow 0 1)
  spare_of false = ltb 2 (if ltb 1 (env.grow 0 1) then env.grow 0 1 else env.grow (env.grow 0 1) 2)

  -- tlsOpts on a heap
  pub record IsBase (http2 : Bool) (tls : Slice) (h : Heap TlsOption) : Type 0 where
    pub all : elements tls h ≡ options_of http2
    pub old : tls.array < h.fresh
    pub room : is_roomy tls h ≡ spare_of http2

  abbrev first : Slice × Heap TlsOption
  first = append env.grow min_version_tls13 nil_slice empty_heap

  abbrev second : Slice × Heap TlsOption
  second = append env.grow http1_only first.0 first.1

  first-IsBase : IsBase true first.0 first.1
  unfolding append
  first-IsBase = record { all = refl; old = omega arith; room = refl }

  second_room :
      (roomy : Bool)
      → is_roomy
          (append_if roomy env.grow http1_only first.0 first.1).0
          (append_if roomy env.grow http1_only first.0 first.1).1
        ≡ ltb 2 (if roomy then env.grow 0 1 else env.grow (env.grow 0 1) 2)
  unfolding append
  second_room true = refl
  second_room false = refl

  second-IsBase : IsBase false second.0 second.1
  unfolding append
  second-IsBase = record {
    all = elements-append env.grow http1_only first.0 first.1;
    old = append-fresh env.grow http1_only first.0 first.1 first-IsBase.old;
    room = second_room (ltb 1 (env.grow 0 1));
  }

  abbrev pub EarlyBase : Bool → Slice → State → Type 0
  EarlyBase http2 tls s = IsEarly s × IsBase http2 tls s.heap

  base_at :
      (http2 : Bool)
      → Post (EarlyBase http2) Exited (
          (if http2 then pure first.0 else append_option env http1_only first.0)
            (record initial_state { heap = first.1 }))
  unfolding append_option
  base_at true = (refl, first-IsBase)
  base_at false = (refl, second-IsBase)

  pub base_lem :
      (flags : Flags)
      → Triple
          (λ s. s ≡ initial_state)
          (base_tls_opts env flags)
          (EarlyBase flags.enable_http2)
          Exited
  unfolding base_tls_opts append_option
  base_lem flags = record {
    at = λ s h.
        subst (λ s'. Post (EarlyBase flags.enable_http2) Exited (base_tls_opts env flags s'))
          (sym h) (base_at flags.enable_http2);
  }
