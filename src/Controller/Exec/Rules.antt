-- ===== src/Controller/Exec/Rules.antt =====
-- A proof rule for each way to build an `Exec`: what holds where the body goes on (`Q`) and where
-- it has returned (`E`).
use heat_operator.Base.{Bool, true, false, none, some, ◌≡◌, refl, if◌then◌else◌}
use heat_operator.Controller.Exec.{
  Exec, Exit, next, stop, returned, continue, Returned, call, when, is_pending, return_unless_done,
  ◌>>=◌,
}

module _ {R S A : Type 0} (Q : A → S → Type 0) (E : R → S → Type 0) where
  abbrev pub Post : Exit R A × S → Type 0
  Post (next a, s) = Q a s
  Post (stop r, s) = E r s

-- From a state where `P` holds, `m` ends where `Q` or `E` holds.
pub record Triple {R S A : Type 0} (P : S → Type 0) (m : Exec R S A) (Q : A → S → Type 0)
    (E : R → S → Type 0) : Type 0 where
  pub at : (s : S) → P s → Post Q E (m s)

bind_from :
    {R S A B : Type 0} (Q : A → S → Type 0) (Q' : B → S → Type 0) (E : R → S → Type 0)
    (f : A → Exec R S B) (x : Exit R A × S)
    → ((a : A) → Triple (Q a) (f a) Q' E)
    → Post Q E x
    → Post Q' E (continue x.0 f x.1)
bind_from Q Q' E f (next a, s) tf h = (tf a).at s h
bind_from Q Q' E f (stop r, s) tf h = h

called :
    {R T S : Type 0} (Q : T → S → Type 0) (E : R → S → Type 0) (x : Exit T T × S)
    → Post Q Q x
    → Post {R = R} Q E (next (returned x.0), x.1)
called Q E (next a, s) h = h
called Q E (stop r, s) h = h

module _ {R S A B : Type 0} {P : S → Type 0} {Q : A → S → Type 0} {Q' : B → S → Type 0}
    {E : R → S → Type 0} where
  pub Triple-bind :
      {m : Exec R S A} {f : A → Exec R S B}
      → Triple P m Q E
      → ((a : A) → Triple (Q a) (f a) Q' E)
      → Triple P (m >>= f) Q' E
  Triple-bind {m} {f} tm tf = record { at = λ s h. bind_from Q Q' E f (m s) tf (tm.at s h) }

module _ {R T S : Type 0} {P : S → Type 0} {Q : T → S → Type 0} {E : R → S → Type 0} where
  pub Triple-call : {m : Exec T S T} → Triple P m Q Q → Triple P (call {R = R} m) Q E
  Triple-call {m} t = record { at = λ s h. called Q E (m s) (t.at s h) }

module _ {R S : Type 0} {P : S → Type 0} {E : R → S → Type 0} {Q : Unit {0} → S → Type 0} where
  -- the body of an `if`, or what holds before it
  pub Triple-when :
      (b : Bool) {m : Exec R S (Unit {0})}
      → Triple P m Q E
      → ((s : S) → P s → Q tt s)
      → Triple P (when b m) Q E
  Triple-when true t skip = t
  Triple-when false t skip = record { at = skip }

module _ {R S A : Type 0} {P : S → Type 0} {Q : A → S → Type 0} {E : R → S → Type 0} where
  pub Triple-if :
      (b : Bool) {m n : Exec R S A}
      → (b ≡ true → Triple P m Q E)
      → (b ≡ false → Triple P n Q E)
      → Triple P (if b then m else n) Q E
  Triple-if true t u = t refl
  Triple-if false t u = u refl

module _ {R S A : Type 0} {P : S → Type 0} {Q : A → S → Type 0} {E : R → S → Type 0} where
  -- what holds wherever the body starts may be used
  pub Triple-given :
      {F : Type 0} {m : Exec R S A} → ((s : S) → P s → F) → (F → Triple P m Q E) → Triple P m Q E
  Triple-given f t = record { at = λ s h. (t (f s h)).at s h }

module _ {R S A : Type 0} {P : S → Type 0} {Q : A → S → Type 0} {E E' : R → S → Type 0} where
  -- less holds where the body has returned
  pub Triple-exit :
      {m : Exec R S A} → ((r : R) (s : S) → E r s → E' r s) → Triple P m Q E → Triple P m Q E'
  Triple-exit {m} f t = record { at = λ s h. weaker (m s) (t.at s h) }
    where
      weaker : (x : Exit R A × S) → Post Q E x → Post Q E' x
      weaker (next a, s) h = h
      weaker (stop r, s) h = f r s h

module _ {R S : Type 0} where
  -- what holds at every end holds of the state that is left
  pub Post-end : (Q : R → S → Type 0) (x : Exit R R × S) → Post Q Q x → Q (returned x.0) x.1
  Post-end Q (next a, s) h = h
  Post-end Q (stop r, s) h = h

module _ {S : Type 0} {P : S → Type 0} {E : Returned → S → Type 0} {Q : Unit {0} → S → Type 0} where
  pub Triple-return_unless_done :
      (r : Returned)
      → ((s : S) → P s → E r s)
      → ((s : S) → P s → Q tt s)
      → Triple P (return_unless_done r) Q E
  Triple-return_unless_done (result, some e) stops goes = record { at = stops }
  Triple-return_unless_done (result, none) stops goes =
      Triple-when (is_pending result) (record { at = stops }) goes

module _ {R S A B : Type 0} where
  -- equal continuations
  pub bind_congr :
      (m : Exec R S A) {f g : A → Exec R S B}
      → ((a : A) (s : S) → f a s ≡ g a s)
      → (s : S) → (m >>= f) s ≡ (m >>= g) s
  bind_congr m {f} {g} h s = continued (m s)
    where
      continued : (x : Exit R A × S) → continue x.0 f x.1 ≡ continue x.0 g x.1
      continued (next a, s') = h a s'
      continued (stop r, s') = refl

  pub bind_assoc :
      {D : Type 0} (m : Exec R S D) (f : D → Exec R S A) (g : A → Exec R S B) (s : S)
      → ((m >>= f) >>= g) s ≡ (m >>= λ d. f d >>= g) s
  bind_assoc {D} m f g s = reassociated (m s)
    where
      reassociated :
          (x : Exit R D × S)
          → continue (continue x.0 f x.1).0 g (continue x.0 f x.1).1
            ≡ continue x.0 (λ d. f d >>= g) x.1
      reassociated (next d, s') = refl
      reassociated (stop r, s') = refl
