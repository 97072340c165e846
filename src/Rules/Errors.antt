-- ===== src/Rules/Errors.antt =====
-- src/rules/engine.rs: the errors of the parser, and its results, which may be a panic.
use mathlib.Core.Path.{subst}
use ensync.Base.{Bool, true, false, if◌then◌else◌, ℕ, Option, none, some, ◌≡◌, arith}
use ensync.Base.Text.{Text}
use ensync.Base.Int.{ℤ}
use ensync.SyncMode.{SyncModeParseError}

pub record ErrorLocation : Type 0 where
  pub section : Text
  pub ix : ℕ
  pub field : Text

-- The messages of `regex::Error` are left out.
pub data Error : Type 0 where
  bad_regex : ErrorLocation → Error
  bad_mode : ErrorLocation → Text → SyncModeParseError → Error
  bad_state_reference : ErrorLocation → Text → Error
  bad_stop_type : ErrorLocation → Text → Error
  invalid_rule_config : ErrorLocation → Text → Error
  no_root_state : Error
  not_a_table : Text → Error
  not_an_array : Text → Error
  wrong_type : ErrorLocation → Text → Error
  invalid_rules_group : Text → Text → Error
  file_size_out_of_range : ErrorLocation → ℤ → Error
  unreachable_state : Text → Error

pub data Result (A : Type 0) : Type 0 where
  ok : A → Result A
  err : Error → Result A
  panic : Result A

infixl 5 ◌>>=◌
abbrev pub ◌>>=◌ : {A B : Type 0} → Result A → (A → Result B) → Result B
ok a >>= f = f a
err e >>= f = err e
panic >>= f = panic

-- The value, or the error.
abbrev pub require : {A : Type 0} → Option A → Error → Result A
require none e = err e
require (some a) e = ok a

-- An index, or a panic.
abbrev pub or_panic : {A : Type 0} → Option A → Result A
or_panic none = panic
or_panic (some a) = ok a

-- The result is an error, or a value with the property: no panic.
pub data Ensures {A : Type 0} (P : A → Type 0) : Result A → Type 0 where
  holds : {a : A} → P a → Ensures P (ok a)
  fails : {e : Error} → Ensures P (err e)

pub bind-Ensures :
    {A B : Type 0} {P : A → Type 0} {Q : B → Type 0} {m : Result A} (f : A → Result B)
    → Ensures P m
    → ((a : A) → P a → Ensures Q (f a))
    → Ensures Q (m >>= f)
bind-Ensures f (holds h) k = k _ h
bind-Ensures f fails k = fails

pub require-Ensures :
    {A : Type 0} (o : Option A) (e : Error) → Ensures (λ _. Unit {0}) (require o e)
require-Ensures none e = fails
require-Ensures (some a) e = holds tt

pub or_panic-Ensures :
    {A : Type 0} {P : A → Type 0} {o : Option A} {a : A} → o ≡ some a → P a → Ensures P (or_panic o)
or_panic-Ensures e h = rw e (holds h)

pub of_Ensures : {A : Type 0} {P : A → Type 0} {m : Result A} {a : A} → Ensures P m → m ≡ ok a → P a
of_Ensures {P} (holds h) e = subst P (ground arith) h
of_Ensures fails e = cc

-- `if b then m else m'`, with both in order.
pub either :
    {A : Type 0} {P : A → Type 0} (b : Bool) {m m' : Result A}
    → Ensures P m
    → Ensures P m'
    → Ensures P (if b then m else m')
either true h k = h
either false h k = k

pub imp-Ensures :
    {A : Type 0} {P Q : A → Type 0} {m : Result A}
    → Ensures P m
    → ((a : A) → P a → Q a)
    → Ensures Q m
imp-Ensures (holds h) f = holds (f _ h)
imp-Ensures fails f = fails
