-- ===== src/WorkStack.antt =====
-- src/work_stack.rs: the stack of tasks that several threads work off. What a thread does while it
-- holds the lock is one step.
pub mod Quiescence
mod Tests
use ensync.Base.{◌≡◌, ℕ, zero, suc, ◌+◌, ◌-◌, Option, none, some, List, [], ◌∷◌, ◌++◌, map}

pub record WorkStackData (T : Type 0) : Type 0 where
  pub tasks : List T
  pub in_flight : ℕ

-- `WorkStackData::new`
abbrev pub work_stack_new : {T : Type 0} → WorkStackData T
work_stack_new = record { tasks = []; in_flight = 0 }

-- `lock.tasks.push(task)`. The last task comes first.
unfoldable pub push_task : {T : Type 0} → T → WorkStackData T → WorkStackData T
push_task task d = record d { tasks = task ∷ d.tasks }

-- What a thread in `run` does next: call `f`, wait, or leave the loop.
pub data Round (T : Type 0) : Type 0 where
  call : T → Round T
  wait leave : Round T

no_task : {T : Type 0} → ℕ → Round T
no_task zero = leave
no_task (suc n) = wait

-- The `if` in the loop of `run`.
unfoldable pub next_round : {T : Type 0} → List T → ℕ → Round T × WorkStackData T
unfolding no_task
next_round (task ∷ tasks) in_flight =
    (call task, record { tasks = tasks; in_flight = suc in_flight })
next_round [] in_flight = (no_task in_flight, record { tasks = []; in_flight = in_flight })

-- `lock.in_flight -= 1`, after `f`.
unfoldable pub task_done : {T : Type 0} → WorkStackData T → WorkStackData T
task_done d = record d { in_flight = d.in_flight - 1 }

-- A thread in `run`: at the top of the loop, in `f`, in `cond.wait`, or returned.
pub data Thread (T : Type 0) : Type 0 where
  at_top : Thread T
  calling : T → Thread T
  waiting : Thread T
  returned : Thread T

-- How many threads stand where.
abbrev pub is_top : {T : Type 0} → Thread T → ℕ
is_top at_top = 1
is_top _ = 0

abbrev pub is_calling : {T : Type 0} → Thread T → ℕ
is_calling (calling _) = 1
is_calling _ = 0

abbrev pub is_waiting : {T : Type 0} → Thread T → ℕ
is_waiting waiting = 1
is_waiting _ = 0

abbrev pub is_returned : {T : Type 0} → Thread T → ℕ
is_returned returned = 1
is_returned _ = 0

abbrev pub count : {T : Type 0} → (Thread T → ℕ) → List (Thread T) → ℕ
count p [] = 0
count p (t ∷ ts) = p t + count p ts

-- `cond.notify_one()`: nothing if no thread waits, and else one of those that do wakes up.
pub data NotifyOne {T : Type 0} : List (Thread T) → List (Thread T) → Type 0 where
  nobody : (ts : List (Thread T)) → count is_waiting ts ≡ 0 → NotifyOne ts ts
  one :
      (before after : List (Thread T))
      → NotifyOne (before ++ waiting ∷ after) (before ++ at_top ∷ after)

abbrev pub wake : {T : Type 0} → Thread T → Thread T
wake waiting = at_top
wake t = t

-- `cond.notify_all()`
abbrev pub notify_all : {T : Type 0} → List (Thread T) → List (Thread T)
notify_all ts = map wake ts

-- The thread between the others, after its round.
unfoldable pub after_round :
    {T : Type 0} → Round T → List (Thread T) → List (Thread T) → List (Thread T)
after_round (call task) before after = before ++ calling task ∷ after
after_round wait before after = before ++ waiting ∷ after
after_round leave before after = notify_all before ++ returned ∷ notify_all after

-- The steps of all threads, in any order. A task may push others while it runs, and a thread may
-- wake without cause.
pub data Step {T : Type 0}
    : WorkStackData T → List (Thread T) → WorkStackData T → List (Thread T) → Type 0 where
  round :
      (before after : List (Thread T)) (d : WorkStackData T)
      → Step d
          (before ++ at_top ∷ after)
          (next_round d.tasks d.in_flight).1
          (after_round (next_round d.tasks d.in_flight).0 before after)
  finish :
      (before after : List (Thread T)) (task : T) (d : WorkStackData T)
      → Step d (before ++ calling task ∷ after) (task_done d) (before ++ at_top ∷ after)
  push :
      (before after ts : List (Thread T)) (task new : T) (d : WorkStackData T)
      → NotifyOne (before ++ calling task ∷ after) ts
      → Step d (before ++ calling task ∷ after) (push_task new d) ts
  wake_up :
      (before after : List (Thread T)) (d : WorkStackData T)
      → Step d (before ++ waiting ∷ after) d (before ++ at_top ∷ after)

pub data Steps {T : Type 0}
    : WorkStackData T → List (Thread T) → WorkStackData T → List (Thread T) → Type 0 where
  start : (d : WorkStackData T) (ts : List (Thread T)) → Steps d ts d ts
  then_step :
      {d d' d'' : WorkStackData T} {ts ts' ts'' : List (Thread T)}
      → Steps d ts d' ts'
      → Step d' ts' d'' ts''
      → Steps d ts d'' ts''
