-- ===== src/Base/Decimal.antt =====
-- Decimal numerals, as `format!("{}", n)` prints them.
use ensync.Base.Tests.{ltb, if◌then◌else◌, Bool-cases}
use ensync.Base.Text.{Text}
use Prim.Native.Nat.{ℕ, zero, suc, ◌+◌, ◌-◌, ◌*◌, ◌/◌, ◌%◌, ◌<◌, ◌≤◌}
use mathlib.Core.Path.{◌≡◌, ap, sym, ◌∙◌}
use mathlib.Core.Logic.{inl, inr}
use mathlib.Core.List.{[], ◌∷◌, ◌++◌, foldl, foldl-append}
use native.Mathlib.Omega.{arith}
use ensync.Base.Lists.{All, All-append}

-- A numeral has at most as many digits as the fuel.
unfoldable pub decimal_fuel : ℕ → ℕ → Text
decimal_fuel zero n = []
decimal_fuel (suc f) n =
    let rest = decimal_fuel f (n / 10) in
    if ltb n 10 then (b'0' + n) ∷ [] else rest ++ (b'0' + n % 10) ∷ []

unfoldable pub decimal : ℕ → Text
unfolding decimal_fuel
decimal n = decimal_fuel (suc n) n

-- The number that a text of digits stands for.
abbrev value_step : ℕ → ℕ → ℕ
value_step v d = v * 10 + (d - b'0')

abbrev value : Text → ℕ
value = foldl value_step 0

value-decimal_fuel : (f n : ℕ) → n < f → value (decimal_fuel f n) ≡ n
unfolding decimal_fuel
value-decimal_fuel zero n h = elim h [ ]
value-decimal_fuel (suc f) n h = ground (
  arith,
  value-decimal_fuel f (n / 10),
  foldl-append value_step 0 (decimal_fuel f (n / 10)) ((b'0' + n % 10) ∷ []),
)

-- Different numbers have different numerals.
pub decimal-injective : (m n : ℕ) → decimal m ≡ decimal n → m ≡ n
unfolding decimal
decimal-injective m n e =
    sym (value-decimal_fuel (suc m) m (omega arith))
    ∙ ap value e
    ∙ value-decimal_fuel (suc n) n (omega arith)

-- A numeral holds digits only.
abbrev pub IsDigit : ℕ → Type 0
IsDigit c = (b'0' ≤ c) × (c ≤ b'9')

decimal_fuel-All : (f n : ℕ) → All IsDigit (decimal_fuel f n)
unfolding decimal_fuel
decimal_fuel-All zero n = tt
decimal_fuel-All (suc f) n = elim (Bool-cases (ltb n 10)) [
  | inl small ↦ rw small ((omega arith, ground arith), tt)
  | inr large ↦ rw large (
      All-append IsDigit (decimal_fuel f (n / 10)) _ (decimal_fuel-All f (n / 10))
        ((omega arith, omega arith), tt))
]

pub decimal-All : (n : ℕ) → All IsDigit (decimal n)
unfolding decimal
decimal-All n = decimal_fuel-All (suc n) n
