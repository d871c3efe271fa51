-- ===== src/Controller/Exec.antt =====
-- Functions that mutate a state and may return early. `Exec R S A` is a part of the body of a Go
-- function that returns an `R`: it goes on with a value, or it has returned.
pub mod Rules
use heat_operator.Base.{ℕ, Bool, true, false, not, ◌||◌, Option, none, some, eqb}
use heat_operator.Controller.Conditions.{Err}

-- ctrl.Result, with RequeueAfter in seconds
pub record CtrlResult : Type 0 where
  pub requeue : Bool
  pub requeue_after : ℕ

abbrev pub empty_result : CtrlResult
empty_result = record { requeue = false; requeue_after = 0 }

abbrev pub after_seconds : ℕ → CtrlResult
after_seconds n = record { requeue = false; requeue_after = n }

-- `ctrlResult != ctrl.Result{}`
abbrev pub is_pending : CtrlResult → Bool
is_pending r = r.requeue || not (eqb r.requeue_after 0)

-- what a reconcile function returns: `(ctrl.Result, error)`
abbrev pub Returned : Type 0
Returned = CtrlResult × Option Err

pub data Exit (R A : Type 0) : Type 0 where
  next : A → Exit R A
  stop : R → Exit R A

abbrev pub Exec : Type 0 → Type 0 → Type 0 → Type 0
Exec R S A = S → Exit R A × S

module _ {R S A : Type 0} where
  abbrev pub pure : A → Exec R S A
  pure a s = (next a, s)

  -- `return r`
  abbrev pub return : R → Exec R S A
  return r s = (stop r, s)

module _ {R S A B : Type 0} where
  abbrev pub continue : Exit R A → (A → Exec R S B) → Exec R S B
  continue (next a) f s = f a s
  continue (stop r) f s = (stop r, s)

  infixl 5 ◌>>=◌ ◌>>◌
  abbrev pub ◌>>=◌ : Exec R S A → (A → Exec R S B) → Exec R S B
  ◌>>=◌ m f s = let (x, s') = m s in continue x f s'

  abbrev pub ◌>>◌ : Exec R S A → Exec R S B → Exec R S B
  m >> n = m >>= λ _. n

-- the value that a finished body returns
abbrev pub returned : {R : Type 0} → Exit R R → R
returned (next r) = r
returned (stop r) = r

module _ {R T S : Type 0} where
  -- A call of another function on the same state: its early returns are its own.
  abbrev pub call : Exec T S T → Exec R S T
  call m s = let (x, s') = m s in (next (returned x), s')

module _ {R S : Type 0} where
  -- `if b { body }`
  abbrev pub when : Bool → Exec R S (Unit {0}) → Exec R S (Unit {0})
  when true m = m
  when false m = pure tt

module _ {S : Type 0} where
  -- `if err != nil || ctrlResult != (ctrl.Result{}) { return ctrlResult, err }`
  abbrev pub return_unless_done : Returned → Exec Returned S (Unit {0})
  return_unless_done (result, some e) = return (result, some e)
  return_unless_done (result, none) = when (is_pending result) (return (result, none))
