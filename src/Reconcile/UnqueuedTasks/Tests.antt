-- ===== src/Reconcile/UnqueuedTasks/Tests.antt =====
-- src/reconcile/context.rs: `UnqueuedTasks` on small tables, and the theorems at concrete inputs.
use ensync.Base.{ℕ, ◌≡◌, ◌≢◌, refl, some, [], ◌∷◌, arith}
use ensync.Reconcile.UnqueuedTasks.{
  UnqueuedTasks, has_id, first_id, put, get, find_task, put-IsFresh, get-put, IsFresh,
}

-- The last id is taken, and the next one wraps around to an id that is taken.
abbrev wrapping : UnqueuedTasks ℕ
wrapping = record {
  tasks = (18446744073709551615, 7) ∷ (0, 8) ∷ [];
  next_id = 18446744073709551615;
}

wraps : put 9 wrapping ≡ some (1, record { tasks = (1, 9) ∷ wrapping.tasks; next_id = 2 })
unfolding put first_id has_id
wraps = refl

put-IsFresh_example : (id : ℕ) × (s' : UnqueuedTasks ℕ) × IsFresh 9 wrapping id s'
put-IsFresh_example = put-IsFresh 9 wrapping (omega arith) (omega arith)

get-put_example :
    (get 1 (record { tasks = (1, 9) ∷ wrapping.tasks; next_id = 2 })
      ≡ some (9, record { tasks = wrapping.tasks; next_id = 2 }))
    × ((k : ℕ) → k ≢ 1 → find_task k ((1, 9) ∷ wrapping.tasks) ≡ find_task k wrapping.tasks)
get-put_example =
    get-put 9 wrapping (record { tasks = (1, 9) ∷ wrapping.tasks; next_id = 2 }) 1 wraps
