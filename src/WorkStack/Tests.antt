-- ===== src/WorkStack/Tests.antt =====
-- Tests and witnesses for src/work_stack.rs: two threads and one task.
use ensync.Base.{ℕ, ◌≡◌, refl, [], ◌∷◌}
use ensync.WorkStack.{
  WorkStackData, work_stack_new, push_task, next_round, no_task, task_done, at_top, calling,
  waiting, returned, after_round, round, finish, Steps, start, then_step,
}
use ensync.WorkStack.Quiescence.{IsSound, Steps-IsSound}

abbrev one_task : WorkStackData ℕ
one_task = record { tasks = 7 ∷ []; in_flight = 0 }

abbrev emptied : WorkStackData ℕ
emptied = record { tasks = []; in_flight = 0 }

pushed : push_task 7 work_stack_new ≡ one_task
unfolding push_task
pushed = refl

-- The first thread takes the task, the second waits until the first has returned, and returns.
run_to_end : Steps one_task (at_top ∷ at_top ∷ []) emptied (returned ∷ returned ∷ [])
unfolding next_round no_task after_round task_done
run_to_end =
    then_step
      (then_step
        (then_step
          (then_step (then_step (start _ _) (round [] (at_top ∷ []) one_task))
            (round (calling 7 ∷ []) [] (record { tasks = []; in_flight = 1 })))
          (finish [] (waiting ∷ []) 7 (record { tasks = []; in_flight = 1 })))
        (round [] (waiting ∷ []) (record { tasks = []; in_flight = 0 })))
      (round (returned ∷ []) [] (record { tasks = []; in_flight = 0 }))

Steps-IsSound_example : IsSound emptied (returned ∷ returned ∷ [])
Steps-IsSound_example = Steps-IsSound 2 (7 ∷ []) _ _ run_to_end
