-- ===== src/Watch/Tests.antt =====
-- src/replica.rs: WatchHandle, from its first state, with room for one datagram.
use ensync.Base.{◌≡◌, refl, true, false, arith}
use ensync.Watch.{
  WatchHandle, new, checking, receiving, set_flags, send, start_wait, keep_waiting, Steps, stop,
  step, IsAwake, Steps-IsAwake, IsStuck, Steps-IsStuck,
}

-- A waiting thread, and a change.
abbrev changed : WatchHandle
changed = record new { dirty = true; sending = true; phase = receiving }

changed-Steps : Steps 1 new changed
changed-Steps = step (start_wait new refl) (
    step (keep_waiting (record new { phase = checking }) refl refl refl)
      (step (set_flags false (record new { phase = receiving }) refl) stop))

Steps-IsAwake_example : IsAwake changed
Steps-IsAwake_example = Steps-IsAwake 1 changed changed-Steps

-- Two changes, while no thread waits.
abbrev twice : WatchHandle
twice = record new { dirty = true; sending = true; queued = 1 }

twice-Steps : Steps 1 new twice
twice-Steps = step (set_flags false new refl) (
    step (send (record new { dirty = true; sending = true }) refl (omega arith))
      (step (set_flags false (record new { dirty = true; queued = 1 }) refl) stop))

twice-IsStuck : IsStuck 1 twice
twice-IsStuck = record { sending = refl; full = refl; nobody = λ p. cc }

Steps-IsStuck_example : IsStuck 1 (record twice { phase = checking }) × (true ≡ true)
Steps-IsStuck_example =
    Steps-IsStuck 1 twice (record twice { phase = checking }) (step (start_wait twice refl) stop)
      twice-IsStuck
