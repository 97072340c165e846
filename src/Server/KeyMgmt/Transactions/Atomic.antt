-- ===== src/Server/KeyMgmt/Transactions/Atomic.antt =====
-- src/server/keymgmt.rs: what the storage has done when `do_tx` returns.
use ensync.Base.{
  ℕ, zero, suc, ◌≡◌, refl, sym, ap, ◌∙◌, Bool, true, false, List, [], ◌∷◌, ◌++◌, if◌then◌else◌, ◌⊎◌,
  inl, inr,
}
use mathlib.Core.Path.{subst}
use ensync.Server.Storage.{Call, Storage, Op, IsTransactional}
use ensync.Server.KeyMgmt.{KeyError, Answer, ok, err}
use ensync.Server.KeyMgmt.Transactions.{and_then, ◌>>=◌, lift, end_round, rounds, do_tx}

-- The two cases of a call.
pub call-cases :
    {W A : Type 0} (r : Answer A × W)
    → ((a : A) × (w : W) × (r ≡ (ok a, w))) ⊎ ((e : KeyError) × (w : W) × (r ≡ (err e, w)))
call-cases (ok a, w) = inl (a, w, refl)
call-cases (err e, w) = inr (e, w, refl)

err-apart :
    {A W : Type 0} (e : KeyError) (v : W) (a : A) (w : W)
    → ◌≡◌ {A = Answer A × W} (err e, v) (ok a, w)
    → ⊥
err-apart {A = A} {W = W} e v a w h =
    let q : ◌≡◌ {A = Answer A} (err e) (ok a) = ap (λ (r : Answer A × W). r.0) h in cc

-- The call that a chain of calls stopped at, or went through.
pub bind-ok_lem :
    {W A B : Type 0} (m : Call W A) (f : A → Call W B) (w w' : W) (b : B)
    → (m >>= f) w ≡ (ok b, w')
    → (a : A) × (v : W) × (m w ≡ (ok a, v)) × (f a v ≡ (ok b, w'))
bind-ok_lem m f w w' b h = elim (call-cases (m w)) [
  | inl (a, v, e) ↦ (a, v, e, sym (ap (λ r. and_then f r) e) ∙ h)
  | inr (x, v, e) ↦ absurd (err-apart x v b w' (sym (ap (λ r. and_then f r) e) ∙ h))
]

pub bind-err_lem :
    {W A B : Type 0} (m : Call W A) (f : A → Call W B) (w w' : W) (e : KeyError)
    → (m >>= f) w ≡ (err e, w')
    → (m w ≡ (err e, w')) ⊎ ((a : A) × (v : W) × (m w ≡ (ok a, v)) × (f a v ≡ (err e, w')))
bind-err_lem {W = W} {A = A} {B = B} m f w w' e h = elim (call-cases (m w)) [
  | inl (a, v, q) ↦ inr (a, v, q, sym (ap (λ r. and_then f r) q) ∙ h)
  | inr (x, v, q) ↦ inl (q ∙ as_err (sym (ap (λ r. and_then f r) q) ∙ h))
]
  where
    as_err :
        {x : KeyError} {v : W}
        → ◌≡◌ {A = Answer B × W} (err x, v) (err e, w')
        → ◌≡◌ {A = Answer A × W} (err x, v) (err e, w')
    as_err p = ap (λ r. g r) p
      where
        g : Answer B × W → Answer A × W
        g (err x, v) = (err x, v)
        g (ok b, v) = (err e, v)

module _ {W : Type 0} (storage : Storage W) (tx : IsTransactional storage 0) where
  -- Nothing is applied, whatever the answer.
  abbrev pub Untouched : {A : Type 0} → Call W A → Type 0
  Untouched m = (w : W) → tx.applied (m w).1 ≡ tx.applied w

  pub bind-Untouched :
      {A B : Type 0} (m : Call W A) (f : A → Call W B)
      → Untouched m
      → ((a : A) → Untouched (f a))
      → Untouched (m >>= f)
  bind-Untouched {A = A} {B = B} m f h k w = elim (call-cases (m w)) [
    | inl (a, v, e) ↦
        ap (λ (r : Answer B × W). tx.applied r.1) (ap (λ r. and_then f r) e)
        ∙ k a v
        ∙ ap (λ (r : Answer A × W). tx.applied r.1) (sym e)
        ∙ h w
    | inr (x, v, e) ↦
        ap (λ (r : Answer B × W). tx.applied r.1) (ap (λ r. and_then f r) e)
        ∙ ap (λ (r : Answer A × W). tx.applied r.1) (sym e)
        ∙ h w
  ]

  -- A commit answered with the error: whether it was applied is not known.
  abbrev pub FailedCommit : KeyError → W → Type 0
  FailedCommit e w = (v : W) × (storage.commit 0 v ≡ (err e, w))

  module _ {R : Type 0} (P : R → List Op → Type 0) where
    -- One transaction was applied, of the edits that `P` allows for the result.
    pub record Applied (r : R) (w w' : W) : Type 0 where
      pub ops : List Op
      pub allowed : P r ops
      pub once : tx.applied w' ≡ tx.applied w ++ ops ∷ []

    abbrev pub Ends : Answer R → W → W → Type 0
    Ends (ok r) w w' = Applied r w w'
    Ends (err e) w w' = (tx.applied w' ≡ tx.applied w) ⊎ FailedCommit e w'

    module _ {S : Type 0} (f : ℕ → S → Call W (R × S)) (still : (i : ℕ) (s : S) → Untouched (f i s))
        (does : (i : ℕ) (s t : S) (r : R) (w w' : W)
          → tx.buffer w ≡ []
          → f i s w ≡ (ok (r, t), w')
          → P r (tx.buffer w')) where
      Ends-moved :
          (r : Answer R) (v w w' : W) → tx.applied v ≡ tx.applied w → Ends r v w' → Ends r w w'
      Ends-moved (ok r) v w w' e a = record {
        ops = a.ops;
        allowed = a.allowed;
        once = a.once ∙ ap (λ l. l ++ a.ops ∷ []) e;
      }
      Ends-moved (err x) v w w' e (inl a) = inl (a ∙ e)
      Ends-moved (err x) v w w' e (inr a) = inr a

      end_round-Ends :
          (retry : S → Call W R)
          → ((s : S) (r : Answer R) (w w' : W) → retry s w ≡ (r, w') → Ends r w w')
          → (r : R) (s : S) (a : Answer R) (w w' : W) → P r (tx.buffer w)
          → end_round storage f retry (ok (r, s)) w ≡ (a, w')
          → Ends a w w'
      unfolding end_round
      end_round-Ends retry k r s a w w' p h = elim (call-cases (storage.commit 0 w)) [
        | inl (true, v, e) ↦
            subst (λ (q : Answer R × W). Ends q.0 w q.1)
              (sym (ap (λ c. and_then (after r s) c) e) ∙ h)
              (record { ops = tx.buffer w; allowed = p; once = tx.commit w v e })
        | inl (false, v, e) ↦
            Ends-moved a v w w' (tx.rejected w v e)
              (k s a v w' (sym (ap (λ c. and_then (after r s) c) e) ∙ h))
        | inr (x, v, e) ↦
            subst (λ (q : Answer R × W). Ends q.0 w q.1)
              (sym (ap (λ c. and_then (after r s) c) e) ∙ h) (inr (w, e))
      ]
        where
          after : R → S → Bool → Call W R
          after r s committed = if committed then lift (ok r) else retry s

      round-Ends :
          (retry : S → Call W R)
          → ((s : S) (r : Answer R) (w w' : W) → retry s w ≡ (r, w') → Ends r w w')
          → (i : ℕ) (s : S) (r : Answer R) (w w' : W) (q : Answer (R × S) × W) → tx.buffer w ≡ []
          → f i s w ≡ q
          → end_round storage f retry q.0 q.1 ≡ (r, w')
          → Ends r w w'
      unfolding end_round
      round-Ends retry k i s r w w' (ok (x, t), u) b e h =
          Ends-moved r u w w'
            (ap (λ (c : Answer (R × S) × W). tx.applied c.1) (sym e) ∙ still i s w)
            (end_round-Ends retry k x t r u w' (does i s t x w u b e) h)
      round-Ends retry k i s r w w' (err x, u) b e h =
          subst (λ (q : Answer R × W). Ends q.0 w q.1) h
            (inl (
              tx.abort_applied u
              ∙ ap (λ (c : Answer (R × S) × W). tx.applied c.1) (sym e)
              ∙ still i s w))

      rounds-Ends :
          (n i : ℕ) (s : S) (r : Answer R) (w w' : W)
          → rounds storage f n i s w ≡ (r, w')
          → Ends r w w'
      unfolding rounds
      rounds-Ends zero i s r w w' h = subst (λ (q : Answer R × W). Ends q.0 w q.1) h (inl refl)
      rounds-Ends (suc n) i s r w w' h = elim (call-cases (storage.start_tx 0 w)) [
        | inr (x, v, e) ↦
            subst (λ (q : Answer R × W). Ends q.0 w q.1) (sym (ap (λ c. and_then then_f c) e) ∙ h)
              (inl (started (err x) v e))
        | inl (_, v, e) ↦ Ends-moved r v w w' (started (ok tt) v e) (
            round-Ends (rounds storage f n (suc i)) (λ t a u u' g. rounds-Ends n (suc i) t a u u' g)
              i s r v w' (f i s v) (tx.start_tx w v e) refl
              (sym (ap (λ c. and_then then_f c) e) ∙ h))
      ]
        where
          then_f : Unit {0} → Call W R
          then_f _ w = end_round storage f (rounds storage f n (suc i)) (f i s w).0 (f i s w).1

          started :
              (a : Answer (Unit {0})) (v : W)
              → storage.start_tx 0 w ≡ (a, v)
              → tx.applied v ≡ tx.applied w
          started a v e =
              ap (λ (c : Answer (Unit {0}) × W). tx.applied c.1) (sym e) ∙ tx.start_tx_applied w

      pub do_tx-Ends :
          (s : S) (r : Answer R) (w w' : W) → do_tx storage f s w ≡ (r, w') → Ends r w w'
      unfolding do_tx
      do_tx-Ends s r w w' h = rounds-Ends 16 0 s r w w' h
