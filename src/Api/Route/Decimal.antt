-- ===== src/Api/Route/Decimal.antt =====
-- The fuel of `decimal`.
use heat_operator.Base.{
  ℕ, zero, suc, ◌+◌, ◌/◌, ◌<◌, Bool, true, false, ltb, ◌<>◌, ◌%◌, if◌then◌else◌, ◌≡◌, refl, ap,
  arith,
}
use heat_operator.Api.Route.{timeout_text, decimal, decimal_from, digit}

smaller : (n fuel : ℕ) → ltb n 10 ≡ false → n < suc fuel → n / 10 < fuel
smaller n fuel h k = ground arith

more_fuel : (fuel fuel' n : ℕ) → n < fuel → n < fuel' → decimal_from fuel n ≡ decimal_from fuel' n
unfolding decimal_from
more_fuel zero fuel' n h k = ground arith
more_fuel (suc fuel) zero n h k = ground arith
more_fuel (suc fuel) (suc fuel') n h k =
    chosen (ltb n 10) refl
      (λ e. more_fuel fuel fuel' (n / 10) (smaller n fuel e h) (smaller n fuel' e k))
  where
    chosen :
        (b : Bool)
        → ltb n 10 ≡ b
        → (ltb n 10 ≡ false → decimal_from fuel (n / 10) ≡ decimal_from fuel' (n / 10))
        → (if b then digit n else decimal_from fuel (n / 10) <> digit (n % 10))
          ≡ (if b then digit n else decimal_from fuel' (n / 10) <> digit (n % 10))
    chosen true e rest = refl
    chosen false e rest = ap (λ s. s <> digit (n % 10)) (rest e)

-- The text of a timeout is the same whatever fuel above the number it is printed with: the fuel of
-- the model never cuts it off.
timeout_text-fuel :
    (fuel api_timeout : ℕ)
    → api_timeout < fuel
    → timeout_text api_timeout ≡ decimal_from fuel api_timeout <> "s"
unfolding decimal
timeout_text-fuel fuel n h = ap (λ s. s <> "s") (more_fuel (n + 1) fuel n (omega arith) h)
