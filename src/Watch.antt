-- ===== src/Watch.antt =====
-- src/replica.rs: WatchHandle, and the handler of src/interrupt.rs that notifies it. A step is what a
-- thread does at once; `capacity` bounds the datagrams that the pair of sockets holds, and `send`
-- waits while they are full, as it does on a pair of blocking sockets. The handle is the one that
-- `notify_on_signal` was given.
mod Tests
use ensync.Base.{
  ℕ, suc, ◌+◌, ◌<◌, ◌≡◌, ◌≢◌, refl, sym, ap, ◌∙◌, ◌⊎◌, inl, inr, Bool, true, false, ◌||◌, arith,
}

-- The thread that calls `wait`, or the other operations: it is about to test the condition of the
-- loop, or in `recv`.
pub data Phase : Type 0 where
  away checking receiving : Phase

-- `WatchStatus`, with whether its lock is held by a thread in `send`; the datagrams; the flag of the
-- interrupt, and whether its handler has yet to notify.
pub record WatchHandle : Type 0 where
  pub dirty : Bool
  pub context_lost : Bool
  pub sending : Bool
  pub queued : ℕ
  pub interrupted : Bool
  pub signalled : Bool
  pub phase : Phase

-- `WatchHandle::new`
abbrev pub new : WatchHandle
new = record {
  dirty = false;
  context_lost = false;
  sending = false;
  queued = 0;
  interrupted = false;
  signalled = false;
  phase = away;
}

pub data Step (capacity : ℕ) : WatchHandle → WatchHandle → Type 0 where
  -- `set_dirty` (`lost` is false) and `set_context_lost`: the flags are set under the lock, then `notify`.
  set_flags :
      (lost : Bool) (s : WatchHandle)
      → s.sending ≡ false
      → Step capacity s
          (record s { dirty = true; context_lost = lost || s.context_lost; sending = true })
  send :
      (s : WatchHandle)
      → s.sending ≡ true
      → s.queued < capacity
      → Step capacity s (record s { sending = false; queued = s.queued + 1 })
  -- `handle_sigint`
  interrupt :
      (s : WatchHandle) → Step capacity s (record s { interrupted = true; signalled = true })
  signal :
      (s : WatchHandle)
      → s.signalled ≡ true
      → s.queued < capacity
      → Step capacity s (record s { signalled = false; queued = s.queued + 1 })
  -- `wait`
  start_wait : (s : WatchHandle) → s.phase ≡ away → Step capacity s (record s { phase = checking })
  return_wait :
      (s : WatchHandle)
      → s.phase ≡ checking
      → s.sending ≡ false
      → (s.dirty || s.interrupted) ≡ true
      → Step capacity s (record s { phase = away })
  keep_waiting :
      (s : WatchHandle)
      → s.phase ≡ checking
      → s.sending ≡ false
      → (s.dirty || s.interrupted) ≡ false
      → Step capacity s (record s { phase = receiving })
  recv :
      (s : WatchHandle) (n : ℕ)
      → s.phase ≡ receiving
      → s.queued ≡ suc n
      → Step capacity s (record s { queued = n; phase = checking })
  check_dirty :
      (s : WatchHandle)
      → s.phase ≡ away
      → s.sending ≡ false
      → Step capacity s (record s { dirty = false })
  check_context_lost :
      (s : WatchHandle)
      → s.phase ≡ away
      → s.sending ≡ false
      → Step capacity s (record s { context_lost = false })

pub data Steps (capacity : ℕ) : WatchHandle → WatchHandle → Type 0 where
  stop : {s : WatchHandle} → Steps capacity s s
  step : {s t u : WatchHandle} → Step capacity s t → Steps capacity t u → Steps capacity s u

-- A thread in `recv` that has cause to return has a datagram, or one is on its way.
unfoldable pub IsAwake : WatchHandle → Type 0
IsAwake s =
    s.phase ≡ receiving
    → (s.dirty || s.interrupted) ≡ true
    → (0 < s.queued) ⊎ ((s.sending ≡ true) ⊎ (s.signalled ≡ true))

Step-IsAwake : {capacity : ℕ} {s t : WatchHandle} → Step capacity s t → IsAwake s → IsAwake t
unfolding IsAwake
Step-IsAwake (set_flags lost s h) a p q = inr (inl refl)
Step-IsAwake (send s h l) a p q = inl (omega arith)
Step-IsAwake (interrupt s) a p q = inr (inr refl)
Step-IsAwake (signal s h l) a p q = inl (omega arith)
Step-IsAwake (start_wait s h) a p q = cc
Step-IsAwake (return_wait s h k c) a p q = cc
Step-IsAwake (keep_waiting s h k c) a p q = cc
Step-IsAwake (recv s n h e) a p q = cc
Step-IsAwake (check_dirty s h k) a p q = cc
Step-IsAwake (check_context_lost s h k) a p q = cc

-- No wake-up is lost: whenever a thread is in `recv` although the handle is dirty or the process was
-- interrupted, a datagram is queued, or a thread or the signal handler is about to send one.
pub Steps-IsAwake : (capacity : ℕ) (s : WatchHandle) → Steps capacity new s → IsAwake s
unfolding IsAwake
Steps-IsAwake capacity s h = along h (λ p. cc)
  where
    along : {a b : WatchHandle} → Steps capacity a b → IsAwake a → IsAwake b
    along stop k = k
    along (step x xs) k = along xs (Step-IsAwake x k)

-- A thread waits in `send` with the lock, the queue is full, and no thread is in `recv`.
pub record IsStuck (capacity : ℕ) (s : WatchHandle) : Type 0 where
  pub sending : s.sending ≡ true
  pub full : s.queued ≡ capacity
  pub nobody : s.phase ≢ receiving

Step-IsStuck :
    {capacity : ℕ} {s t : WatchHandle}
    → Step capacity s t
    → IsStuck capacity s
    → IsStuck capacity t × (t.dirty ≡ s.dirty)
Step-IsStuck (set_flags lost s h) k = absurd (cc (h, k.sending))
Step-IsStuck (send s h l) k = absurd (omega (arith, l, k.full))
Step-IsStuck (interrupt s) k =
    (record { sending = k.sending; full = k.full; nobody = k.nobody }, refl)
Step-IsStuck (signal s h l) k = absurd (omega (arith, l, k.full))
Step-IsStuck (start_wait s h) k =
    (record { sending = k.sending; full = k.full; nobody = λ p. cc }, refl)
Step-IsStuck (return_wait s h b c) k = absurd (cc (b, k.sending))
Step-IsStuck (keep_waiting s h b c) k = absurd (cc (b, k.sending))
Step-IsStuck (recv s n h e) k = absurd (k.nobody h)
Step-IsStuck (check_dirty s h b) k = absurd (cc (b, k.sending))
Step-IsStuck (check_context_lost s h b) k = absurd (cc (b, k.sending))

-- A handle whose notifier waits in `send`, with the queue full and no thread in `recv`, never gets out
-- of this state: the lock is never released, and the dirty flag is never cleared.
pub Steps-IsStuck :
    (capacity : ℕ) (s t : WatchHandle)
    → Steps capacity s t
    → IsStuck capacity s
    → IsStuck capacity t × (t.dirty ≡ s.dirty)
Steps-IsStuck capacity s _ stop k = (k, refl)
Steps-IsStuck capacity s t (step x xs) k =
    let (k', e) = Step-IsStuck x k in
    let (k'', e') = Steps-IsStuck capacity _ t xs k' in (k'', e' ∙ e)
