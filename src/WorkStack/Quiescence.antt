-- ===== src/WorkStack/Quiescence.antt =====
-- src/work_stack.rs: when `run` returns, and who waits for whom.
use ensync.Base.{ℕ, zero, suc, ◌+◌, ◌<◌, ◌≡◌, refl, sym, List, [], ◌∷◌, ◌++◌, replicate, arith}
use ensync.WorkStack.{
  WorkStackData, push_task, no_task, next_round, task_done, Thread, at_top, calling, waiting,
  returned, is_top, is_calling, is_waiting, is_returned, count, NotifyOne, nobody, one, notify_all,
  after_round, Step, round, finish, push, wake_up, Steps, start, then_step,
}

module _ {T : Type 0} where
  -- The counter is the number of tasks that are running. If any thread has returned, no task is left
  -- and none is running. If any thread waits, another is at work or about to look for it.
  pub record IsSound (d : WorkStackData T) (ts : List (Thread T)) : Type 0 where
    pub counted : d.in_flight ≡ count is_calling ts
    pub all_done : 0 < count is_returned ts → (d.tasks ≡ []) × (d.in_flight ≡ 0)
    pub awake : 0 < count is_waiting ts → 0 < count is_top ts + count is_calling ts

  count-append :
      (p : Thread T → ℕ) (xs ys : List (Thread T)) → count p (xs ++ ys) ≡ count p xs + count p ys
  count-append p [] ys = omega arith
  count-append p (x ∷ xs) ys = omega (arith, count-append p xs ys)

  -- A thread between others.
  count-middle :
      (p : Thread T → ℕ) (xs ys : List (Thread T)) (t : Thread T)
      → count p (xs ++ t ∷ ys) ≡ count p xs + (p t + count p ys)
  count-middle p xs ys t = count-append p xs (t ∷ ys)

  waiting-notify_all : (ts : List (Thread T)) → count is_waiting (notify_all ts) ≡ 0
  waiting-notify_all [] = refl
  waiting-notify_all (at_top ∷ ts) = omega (arith, waiting-notify_all ts)
  waiting-notify_all (calling t ∷ ts) = omega (arith, waiting-notify_all ts)
  waiting-notify_all (waiting ∷ ts) = omega (arith, waiting-notify_all ts)
  waiting-notify_all (returned ∷ ts) = omega (arith, waiting-notify_all ts)

  calling-notify_all :
      (ts : List (Thread T)) → count is_calling (notify_all ts) ≡ count is_calling ts
  calling-notify_all [] = refl
  calling-notify_all (at_top ∷ ts) = omega (arith, calling-notify_all ts)
  calling-notify_all (calling t ∷ ts) = omega (arith, calling-notify_all ts)
  calling-notify_all (waiting ∷ ts) = omega (arith, calling-notify_all ts)
  calling-notify_all (returned ∷ ts) = omega (arith, calling-notify_all ts)

  -- The counts of a list in which the thread in the middle was at the top.
  round-IsSound :
      (before after : List (Thread T)) (tasks : List T) (n : ℕ)
      → IsSound (record { tasks = tasks; in_flight = n }) (before ++ at_top ∷ after)
      → IsSound (next_round tasks n).1 (after_round (next_round tasks n).0 before after)
  unfolding next_round no_task after_round
  round-IsSound before after (task ∷ tasks) n h = record {
    counted = omega (
      arith,
      h.counted,
      count-middle is_calling before after at_top,
      count-middle is_calling before after (calling task),
    );
    all_done = λ r. absurd (
        no_cons
          (h.all_done (
            omega (
              arith,
              r,
              count-middle is_returned before after at_top,
              count-middle is_returned before after (calling task),
            ))).0);
    awake = λ r. omega (arith, count-middle is_calling before after (calling task));
  }
    where
      no_cons : task ∷ tasks ≡ [] → ⊥
      no_cons e = cc
  round-IsSound before after [] zero h = record {
    counted = omega (
      arith,
      h.counted,
      count-middle is_calling before after at_top,
      count-middle is_calling (notify_all before) (notify_all after) returned,
      calling-notify_all before,
      calling-notify_all after,
    );
    all_done = λ r. (refl, refl);
    awake = λ r. absurd (
        omega (
          arith,
          r,
          count-middle is_waiting (notify_all before) (notify_all after) returned,
          waiting-notify_all before,
          waiting-notify_all after,
        ));
  }
  round-IsSound before after [] (suc n) h = record {
    counted = omega (
      arith,
      h.counted,
      count-middle is_calling before after at_top,
      count-middle is_calling before after waiting,
    );
    all_done = λ r. h.all_done (
        omega (
          arith,
          r,
          count-middle is_returned before after at_top,
          count-middle is_returned before after waiting,
        ));
    awake = λ r. omega (
      arith,
      h.counted,
      count-middle is_calling before after at_top,
      count-middle is_calling before after waiting,
    );
  }

  NotifyOne-IsSound :
      (d : WorkStackData T) (ts ts' : List (Thread T))
      → NotifyOne ts ts'
      → IsSound d ts
      → IsSound d ts'
  NotifyOne-IsSound d ts _ (nobody _ e) h = h
  NotifyOne-IsSound d _ _ (one before after) h = record {
    counted = omega (
      arith,
      h.counted,
      count-middle is_calling before after at_top,
      count-middle is_calling before after waiting,
    );
    all_done = λ r. h.all_done (
        omega (
          arith,
          r,
          count-middle is_returned before after at_top,
          count-middle is_returned before after waiting,
        ));
    awake = λ r. omega (arith, count-middle is_top before after at_top);
  }

  Step-IsSound :
      (d d' : WorkStackData T) (ts ts' : List (Thread T))
      → Step d ts d' ts'
      → IsSound d ts
      → IsSound d' ts'
  unfolding push_task task_done
  Step-IsSound d _ _ _ (round before after _) h = round-IsSound before after d.tasks d.in_flight h
  Step-IsSound d _ _ _ (finish before after task _) h = record {
    counted = omega (
      arith,
      h.counted,
      count-middle is_calling before after at_top,
      count-middle is_calling before after (calling task),
    );
    all_done = λ r.
        let (e, z) = h.all_done (
          omega (
            arith,
            r,
            count-middle is_returned before after at_top,
            count-middle is_returned before after (calling task),
          )) in
        (e, omega (arith, z));
    awake = λ r. omega (arith, count-middle is_top before after at_top);
  }
  Step-IsSound d _ _ _ (push before after ts task new _ notified) h =
      NotifyOne-IsSound _ _ ts notified (record {
        counted = h.counted;
        all_done = λ r. absurd (
            omega (
              arith,
              (h.all_done r).1,
              h.counted,
              count-middle is_calling before after (calling task),
            ));
        awake = h.awake;
      })
  Step-IsSound d _ _ _ (wake_up before after _) h = NotifyOne-IsSound d _ _ (one before after) h

  Steps-keeps :
      (d d' : WorkStackData T) (ts ts' : List (Thread T))
      → Steps d ts d' ts'
      → IsSound d ts
      → IsSound d' ts'
  Steps-keeps d _ ts _ (start _ _) h = h
  Steps-keeps d d'' ts ts'' (then_step {d' = mid} {ts' = mids} steps step) h =
      Step-IsSound mid d'' mids ts'' step (Steps-keeps d mid ts mids steps h)

  none_at : (p : Thread T → ℕ) → p at_top ≡ 0 → (n : ℕ) → count p (replicate n at_top) ≡ 0
  none_at p e zero = refl
  none_at p e (suc n) = omega (arith, e, none_at p e n)

  -- From `n` threads that enter `run` on a stack of any tasks, through any steps of theirs in any
  -- order, where only running tasks push others: the counter is the number of tasks that are
  -- running; once a thread has returned, no task is left or running, and that stays so; and where a
  -- thread waits, another is running a task or about to look for one.
  pub Steps-IsSound :
      (n : ℕ) (tasks : List T) (d : WorkStackData T) (ts : List (Thread T))
      → Steps (record { tasks = tasks; in_flight = 0 }) (replicate n at_top) d ts
      → IsSound d ts
  Steps-IsSound n tasks d ts steps = Steps-keeps _ d _ ts steps (record {
    counted = sym (none_at is_calling refl n);
    all_done = λ r. absurd (omega (arith, r, none_at is_returned refl n));
    awake = λ r. absurd (omega (arith, r, none_at is_waiting refl n));
  })
