-- ===== src/Reconcile/Mutate/Chain.antt =====
-- Chains of calls that return an answer with a new state.
use ensync.Base.{Bool, true, false, none, some}
use ensync.Base.Text.{Text}
use ensync.Base.Map.{lookup, insert, erase}
use ensync.FileData.{FileData}
use ensync.Replica.{Answer, ok, err, Run, done, panic, no_fuel, Replica, End}

-- A call that ends with an answer and a state.
abbrev pub M : Type 0 → Type 0 → Type 0 → Type 0
M E W A = Run (Answer E A × W)

-- `e?`, and what follows.
infixl 5 ◌>>=◌
abbrev pub ◌>>=◌ : {E W A B : Type 0} → M E W A → (A × W → M E W B) → M E W B
done (ok a, w) >>= k = k (a, w)
done (err e, w) >>= k = done (err e, w)
panic >>= k = panic
no_fuel >>= k = no_fuel

-- The same call on a part of a larger state.
abbrev pub within : {E V W A : Type 0} → (V → W) → M E V A → M E W A
within f (done (a, v)) = done (a, f v)
within f panic = panic
within f no_fuel = no_fuel

-- A call that yields no error, and what follows.
infixl 5 ◌>>-◌
abbrev pub ◌>>-◌ : {A B : Type 0} → Run A → (A → Run B) → Run B
done a >>- k = k a
panic >>- k = panic
no_fuel >>- k = no_fuel

-- `a && b`, for calls.
abbrev pub and_then : {W : Type 0} → Run (Bool × W) → (W → Run (Bool × W)) → Run (Bool × W)
and_then (done (true, w)) k = k w
and_then (done (false, w)) k = done (false, w)
and_then panic k = panic
and_then no_fuel k = no_fuel

-- `to_bool`, with what is done on an error.
abbrev pub to_bool : {E W : Type 0} → M E W Unit → (E → W → W) → Run (Bool × W)
to_bool (done (ok _, w)) f = done (true, w)
to_bool (done (err e, w)) f = done (false, f e w)
to_bool panic f = panic
to_bool no_fuel f = no_fuel

-- What is done on an error, which is passed on.
abbrev pub on_error : {E W A : Type 0} → (E → W → W) → M E W A → M E W A
on_error f (done (ok a, w)) = done (ok a, w)
on_error f (done (err e, w)) = done (err e, f e w)
on_error f panic = panic
on_error f no_fuel = no_fuel

module _ {X E : Type 0} {R : Replica X E} where
  -- The table of the files of a directory: a removal, an insertion, a replacement, each with its
  -- `expect`.
  unfoldable pub take_out : Text → End R → M E (End R) Unit
  take_out name e = elim (lookup name e.files) [
    | none ↦ panic
    | some _ ↦ done (ok tt, record e { files = erase name e.files })
  ]

  unfoldable pub put_new : Text → FileData → End R → M E (End R) Unit
  put_new name fd e = elim (lookup name e.files) [
    | none ↦ done (ok tt, record e { files = insert name fd e.files })
    | some _ ↦ panic
  ]

  unfoldable pub put_over : Text → FileData → End R → M E (End R) Unit
  put_over name fd e = elim (lookup name e.files) [
    | none ↦ panic
    | some _ ↦ done (ok tt, record e { files = insert name fd e.files })
  ]

  -- A call of an operation of the replica on a directory.
  abbrev pub call :
      {A : Type 0}
      → (R.Directory × R.State → Answer E A × (R.Directory × R.State))
      → End R
      → M E (End R) A
  call op e = within (λ (d, s). record e { dir = d; state = s }) (done (op (e.dir, e.state)))

  -- The entry of a file that was renamed.
  unfoldable pub move_entry : Text → Text → End R → M E (End R) Unit
  move_entry old new e = elim (lookup old e.files) [
    | none ↦ panic
    | some removed ↦ done (ok tt, record e { files = insert new removed (erase old e.files) })
  ]
