-- ===== src/Rules/Engine/Occurs.antt =====
-- src/rules/engine.rs: the marks that `apply_rules_impl` keeps in `occurs`.
use ensync.Base.{
  ℕ, zero, suc, ◌<◌, ◌≡◌, refl, ap, Bool, true, false, some, List, [], ◌∷◌, length, get_elem?, set,
  replicate, arith,
}

-- The states that may still be entered.
abbrev pub unmarked : List Bool → ℕ
unmarked [] = 0
unmarked (true ∷ l) = unmarked l
unmarked (false ∷ l) = suc (unmarked l)

pub unmarked-set :
    (l : List Bool) (i : ℕ)
    → get_elem? l i ≡ some false
    → suc (unmarked (set l i true)) ≡ unmarked l
unmarked-set [] i h = cc
unmarked-set (true ∷ l) zero h = cc
unmarked-set (false ∷ l) zero h = refl
unmarked-set (true ∷ l) (suc i) h = unmarked-set l i h
unmarked-set (false ∷ l) (suc i) h = ap suc (unmarked-set l i h)

pub set-set : (l : List Bool) (i : ℕ) → get_elem? l i ≡ some false → set (set l i true) i false ≡ l
set-set [] i h = refl
set-set (true ∷ l) zero h = cc
set-set (false ∷ l) zero h = refl
set-set (b ∷ l) (suc i) h = ap (λ t. b ∷ t) (set-set l i h)

pub unmarked-replicate : (n : ℕ) → unmarked (replicate n false) ≡ n
unmarked-replicate zero = refl
unmarked-replicate (suc n) = ap suc (unmarked-replicate n)

pub get_elem?-marks : (l : List Bool) (i : ℕ) → i < length l → (b : Bool) × (get_elem? l i ≡ some b)
get_elem?-marks [] i h = elim h [ ]
get_elem?-marks (b ∷ l) zero h = (b, refl)
get_elem?-marks (b ∷ l) (suc i) h = get_elem?-marks l i (omega arith)

pub length-replicate : (n : ℕ) → length (replicate n false) ≡ n
length-replicate zero = refl
length-replicate (suc n) = ap suc (length-replicate n)
