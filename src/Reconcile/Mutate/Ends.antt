-- ===== src/Reconcile/Mutate/Ends.antt =====
-- How a call ends: with an answer that has a property, and neither in a panic nor cut off. One rule
-- for each way to build a call.
use ensync.Base.{Bool, true, false}
use ensync.Replica.{ok, err, Run, done}
use ensync.Reconcile.Mutate.Chain.{M, ◌>>=◌, within, ◌>>-◌, and_then, to_bool, on_error}

pub data Yields {A : Type 0} (P : A → Type 0) : Run A → Type 0 where
  yields : {a : A} → P a → Yields P (done a)

-- An answer, or an error, each with the state.
pub data Ends {E W A : Type 0} (Ok : A → W → Type 0) (Err : E → W → Type 0) : M E W A → Type 0 where
  fine : {a : A} {w : W} → Ok a w → Ends Ok Err (done (ok a, w))
  broken : {e : E} {w : W} → Err e w → Ends Ok Err (done (err e, w))

pub bind-Ends :
    {E W A B : Type 0} {Ok : A → W → Type 0} {Ok' : B → W → Type 0} {Err Err' : E → W → Type 0}
    {m : M E W A} (k : A × W → M E W B)
    → Ends Ok Err m
    → ((e : E) (w : W) → Err e w → Err' e w)
    → ((a : A) (w : W) → Ok a w → Ends Ok' Err' (k (a, w)))
    → Ends Ok' Err' (m >>= k)
bind-Ends k (fine h) f g = g _ _ h
bind-Ends k (broken h) f g = broken (f _ _ h)

pub within-Ends :
    {E V W A : Type 0} {Ok : A → W → Type 0} {Err : E → W → Type 0} {m : M E V A} (f : V → W)
    → Ends (λ a v. Ok a (f v)) (λ e v. Err e (f v)) m
    → Ends Ok Err (within f m)
within-Ends f (fine h) = fine h
within-Ends f (broken h) = broken h

-- A part of the state, with weaker properties of the whole.
pub part-Ends :
    {E V W A : Type 0} {Ok : A → V → Type 0} {Err : E → V → Type 0} {Ok' : A → W → Type 0}
    {Err' : E → W → Type 0} {m : M E V A} (f : V → W)
    → Ends Ok Err m
    → ((a : A) (v : V) → Ok a v → Ok' a (f v))
    → ((e : E) (v : V) → Err e v → Err' e (f v))
    → Ends Ok' Err' (within f m)
part-Ends f (fine h) p q = fine (p _ _ h)
part-Ends f (broken h) p q = broken (q _ _ h)

pub weaken-Ends :
    {E W A : Type 0} {Ok Ok' : A → W → Type 0} {Err Err' : E → W → Type 0} {m : M E W A}
    → Ends Ok Err m
    → ((a : A) (w : W) → Ok a w → Ok' a w)
    → ((e : E) (w : W) → Err e w → Err' e w)
    → Ends Ok' Err' m
weaken-Ends (fine h) p q = fine (p _ _ h)
weaken-Ends (broken h) p q = broken (q _ _ h)

pub weaken-Yields :
    {A : Type 0} {P Q : A → Type 0} {m : Run A} → Yields P m → ((a : A) → P a → Q a) → Yields Q m
weaken-Yields (yields h) f = yields (f _ h)

pub on_error-Ends :
    {E W A : Type 0} {Ok : A → W → Type 0} {Err Err' : E → W → Type 0} {m : M E W A} (f : E → W → W)
    → Ends Ok Err m
    → ((e : E) (w : W) → Err e w → Err' e (f e w))
    → Ends Ok Err' (on_error f m)
on_error-Ends f (fine h) q = fine h
on_error-Ends f (broken h) q = broken (q _ _ h)

pub to_bool-Yields :
    {E W : Type 0} {Ok : Unit {0} → W → Type 0} {Err : E → W → Type 0} {P : Bool × W → Type 0}
    {m : M E W Unit} (f : E → W → W)
    → Ends Ok Err m
    → ((w : W) → Ok tt w → P (true, w))
    → ((e : E) (w : W) → Err e w → P (false, f e w))
    → Yields P (to_bool m f)
to_bool-Yields f (fine h) p q = yields (p _ h)
to_bool-Yields f (broken h) p q = yields (q _ _ h)

pub bind-Yields :
    {A B : Type 0} {P : A → Type 0} {Q : B → Type 0} {m : Run A} (k : A → Run B)
    → Yields P m
    → ((a : A) → P a → Yields Q (k a))
    → Yields Q (m >>- k)
bind-Yields k (yields h) f = f _ h

pub and_then-Yields :
    {W : Type 0} {P Q : Bool × W → Type 0} {m : Run (Bool × W)} (k : W → Run (Bool × W))
    → Yields P m
    → ((w : W) → P (true, w) → Yields Q (k w))
    → ((w : W) → P (false, w) → Q (false, w))
    → Yields Q (and_then m k)
and_then-Yields k (yields {a = (true, w)} h) f g = f w h
and_then-Yields k (yields {a = (false, w)} h) f g = yields (g w h)
