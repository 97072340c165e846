-- ===== src/Rules/Reach/Sound.antt =====
-- src/rules/engine.rs: what the reachability check marks.
use ensync.Base.{
  ℕ, zero, suc, ◌+◌, ◌≤◌, ◌<◌, ◌≡◌, refl, ◌∙◌, ap, ◌⊎◌, inl, inr, Bool, true, false, ◌||◌, not,
  some, List, [], ◌∷◌, ◌++◌, length, get_elem?, set, replicate, arith, All, All-append,
  get_elem?-All, length-set, if◌then◌else◌, Bool-cases,
}
use ensync.Base.Text.{Text}
use ensync.Base.Map.{Map}
use ensync.Rules.Engine.{
  Action, include, switch, mode, trust_client_unix_mode, stop, Rule, RuleState, SyncRules,
}
use ensync.Rules.Engine.Occurs.{
  unmarked, unmarked-set, unmarked-replicate, length-replicate, get_elem?-marks,
}
use ensync.Rules.Engine.Runs.{IsWellFormed, ActionFits, RuleFits, StateFits}
use ensync.Rules.Errors.{Error, Result, ok, err, ◌>>=◌, Ensures, holds, fails, bind-Ensures}
use ensync.Rules.Reach.{
  Marks, mark, mark_all, mark_action, mark_actions, mark_rules, mark_state, mark_states, mark_loop,
  check_states, check_reachable,
}

abbrev pub In : {A : Type 0} → A → List A → Type 0
In x [] = ⊥
In x (y ∷ ys) = (x ≡ y) ⊎ In x ys

-- The states that an action refers to.
abbrev pub Leads : Action → ℕ → Type 0
Leads (include reffed) j = In j reffed
Leads (switch new) j = j ≡ new
Leads _ j = ⊥

-- A rule of the state `i` refers to the state `j`.
pub record Edge {R : Type 0} (this : SyncRules R) (i j : ℕ) : Type 0 where
  pub state : RuleState
  pub rule_ix : ℕ
  pub rule : Rule R
  pub action : Action
  pub at_state : get_elem? this.states i ≡ some state
  pub in_state : In rule_ix (state.files ++ state.siblings)
  pub at_rule : get_elem? this.rules rule_ix ≡ some rule
  pub in_rule : In action rule.actions
  pub leads : Leads action j

pub data Reachable {R : Type 0} (this : SyncRules R) : ℕ → Type 0 where
  at_root : Reachable this this.root_ix
  along : {i j : ℕ} → Reachable this i → Edge this i j → Reachable this j

module _ {R : Type 0} (this : SyncRules R) (w : IsWellFormed this) where
  -- Only reachable states are marked.
  Sound : List Bool → Type 0
  Sound l = (i : ℕ) → get_elem? l i ≡ some true → Reachable this i

  -- From the marks `m` on: as many marks, sound ones, no fewer set, and more of them if the flag was
  -- set on the way.
  record Goes (m m' : Marks) : Type 0 where
    pub same_length : length m'.0 ≡ length this.states
    pub sound : Sound m'.0
    pub fewer : unmarked m'.0 ≤ unmarked m.0
    pub progress : m.1 ≡ false → m'.1 ≡ true → unmarked m'.0 < unmarked m.0

  Goes-refl : (m : Marks) → length m.0 ≡ length this.states → Sound m.0 → Goes m m
  Goes-refl m len s = record {
    same_length = len;
    sound = s;
    fewer = omega arith;
    progress = λ p q. cc;
  }

  Goes-trans : (m m' m'' : Marks) → Goes m m' → Goes m' m'' → Goes m m''
  Goes-trans m m' m'' g h = record {
    same_length = h.same_length;
    sound = h.sound;
    fewer = omega (arith, g.fewer, h.fewer);
    progress = λ p q. elim (Bool-cases m'.1) [
      | inl up ↦ omega (arith, g.progress p up, h.fewer)
      | inr down ↦ omega (arith, h.progress down q, g.fewer)
    ];
  }

  set-Sound : (l : List Bool) (r : ℕ) → Sound l → Reachable this r → Sound (set l r true)
  unfolding Sound
  set-Sound l r s h i e = elim (get_elem?-set_true l r i e) [
    | inl same ↦ rw same h
    | inr old ↦ s i old
  ]
    where
      get_elem?-set_true :
          (l : List Bool) (r i : ℕ)
          → get_elem? (set l r true) i ≡ some true
          → (i ≡ r) ⊎ (get_elem? l i ≡ some true)
      get_elem?-set_true [] r i e = inr e
      get_elem?-set_true (b ∷ l) zero zero e = inl refl
      get_elem?-set_true (b ∷ l) zero (suc i) e = inr e
      get_elem?-set_true (b ∷ l) (suc r) zero e = inr e
      get_elem?-set_true (b ∷ l) (suc r) (suc i) e = elim (get_elem?-set_true l r i e) [
        | inl same ↦ inl (ap suc same)
        | inr old ↦ inr old
      ]

  mark-Goes :
      (r : ℕ) (m : Marks)
      → length m.0 ≡ length this.states
      → Sound m.0
      → r < length this.states
      → Reachable this r
      → Ensures (Goes m) (mark r m)
  unfolding mark
  mark-Goes r (l, k) len s lt h =
      let (b, q) = get_elem?-marks l r (omega (arith)) in rw q (holds (goes b q))
    where
      goes : (b : Bool) → get_elem? l r ≡ some b → Goes (l, k) (set l r true, k || not b)
      goes true q = record {
        same_length = length-set l r true ∙ len;
        sound = set-Sound l r s h;
        fewer = omega (arith, unmarked-set_marked l r q);
        progress = λ p e. ground arith;
      }
        where
          unmarked-set_marked :
              (l : List Bool) (r : ℕ)
              → get_elem? l r ≡ some true
              → unmarked (set l r true) ≡ unmarked l
          unmarked-set_marked [] r q = refl
          unmarked-set_marked (true ∷ l) zero q = refl
          unmarked-set_marked (false ∷ l) zero q = cc
          unmarked-set_marked (true ∷ l) (suc r) q = unmarked-set_marked l r q
          unmarked-set_marked (false ∷ l) (suc r) q = ap suc (unmarked-set_marked l r q)
      goes false q = record {
        same_length = length-set l r true ∙ len;
        sound = set-Sound l r s h;
        fewer = omega (arith, unmarked-set l r q);
        progress = λ p e. omega (arith, unmarked-set l r q);
      }

  -- A step from any sound marks goes on, so a sequence of steps does.
  abbrev Steps : (Marks → Result Marks) → Type 0
  Steps f = (m : Marks) → length m.0 ≡ length this.states → Sound m.0 → Ensures (Goes m) (f m)

  stay-Steps : Steps ok
  stay-Steps m len s = holds (Goes-refl m len s)

  then-Steps : {f g : Marks → Result Marks} → Steps f → Steps g → Steps (λ m. f m >>= g)
  then-Steps {f} {g} p q m len s =
      bind-Ensures g (p m len s) λ m' h. after m' h (q m' h.same_length h.sound)
    where
      after :
          (m' : Marks) → Goes m m' → {r : Result Marks} → Ensures (Goes m') r → Ensures (Goes m) r
      after m' h (holds h') = holds (Goes-trans m m' _ h h')
      after m' h fails = fails

  mark_all-Steps :
      (rs : List ℕ)
      → All (λ r. r < length this.states) rs
      → ((j : ℕ) → In j rs → Reachable this j)
      → Steps (mark_all rs)
  unfolding mark_all
  mark_all-Steps [] b h = stay-Steps
  mark_all-Steps (r ∷ rs) b h =
      then-Steps (λ m len s. mark-Goes r m len s b.0 (h r (inl refl)))
        (mark_all-Steps rs b.1 (λ j q. h j (inr q)))

  mark_action-Steps :
      (a : Action)
      → ActionFits (length this.states) a
      → ((j : ℕ) → Leads a j → Reachable this j)
      → Steps (mark_action a)
  unfolding mark_action
  mark_action-Steps (include l) b h = mark_all-Steps l b h
  mark_action-Steps (switch s) b h = λ m len sd. mark-Goes s m len sd b (h s refl)
  mark_action-Steps (mode _) b h = stay-Steps
  mark_action-Steps (trust_client_unix_mode _) b h = stay-Steps
  mark_action-Steps (stop _) b h = stay-Steps

  mark_actions-Steps :
      (l : List Action)
      → All (ActionFits (length this.states)) l
      → ((a : Action) → In a l → (j : ℕ) → Leads a j → Reachable this j)
      → Steps (mark_actions l)
  unfolding mark_actions
  mark_actions-Steps [] b h = stay-Steps
  mark_actions-Steps (a ∷ l) b h =
      then-Steps (mark_action-Steps a b.0 (h a (inl refl)))
        (mark_actions-Steps l b.1 (λ a' q. h a' (inr q)))

  mark_rules-Steps :
      (i : ℕ) (st : RuleState)
      → Reachable this i
      → get_elem? this.states i ≡ some st
      → (rs : List ℕ) → All (λ r. r < length this.rules) rs
      → ((r : ℕ) → In r rs → In r (st.files ++ st.siblings))
      → Steps (mark_rules this rs)
  unfolding mark_rules
  mark_rules-Steps i st reach at [] b within = stay-Steps
  mark_rules-Steps i st reach at (r ∷ rs) b within = λ m len s.
      let (rule, q, fits) =
        get_elem?-All (RuleFits (length this.states)) this.rules r w.all_rules b.0 in
      rw q (
        then-Steps
          (mark_actions-Steps rule.actions fits (λ a in_rule j leads. along reach (record {
            state = st;
            rule_ix = r;
            rule = rule;
            action = a;
            at_state = at;
            in_state = within r (inl refl);
            at_rule = q;
            in_rule = in_rule;
            leads = leads;
          })))
          (mark_rules-Steps i st reach at rs b.1 (λ r' p. within r' (inr p))) m len s)

  mark_state-Steps : (i : ℕ) → i < length this.states → Steps (mark_state this i)
  unfolding mark_state Sound
  mark_state-Steps i lt (l, k) len s =
      let (b, q) = get_elem?-marks l i (omega arith) in
      let (st, q', fits) =
        get_elem?-All (StateFits (length this.rules)) this.states i w.all_states lt in
      rw (q, q') (by_mark b st q q' fits)
    where
      by_mark :
          (b : Bool) (st : RuleState)
          → get_elem? l i ≡ some b
          → get_elem? this.states i ≡ some st
          → StateFits (length this.rules) st
          → Ensures
              (Goes (l, k))
              (if b then mark_rules this (st.files ++ st.siblings) (l, k) else ok (l, k))
      by_mark true st q q' fits =
          mark_rules-Steps i st (s i q) q' (st.files ++ st.siblings)
            (All-append _ st.files st.siblings fits.0 fits.1) (λ r p. p) (l, k) len s
      by_mark false st q q' fits = stay-Steps (l, k) len s

  mark_states-Steps : (k i : ℕ) → i + k ≡ length this.states → Steps (mark_states this k i)
  unfolding mark_states
  mark_states-Steps zero i e = stay-Steps
  mark_states-Steps (suc k) i e =
      then-Steps (mark_state-Steps i (omega arith)) (mark_states-Steps k (i + 1) (omega arith))

  -- The loop ends, since each round but the last marks a state.
  mark_loop-Sound :
      (rounds : ℕ) (l : List Bool)
      → unmarked l < rounds
      → length l ≡ length this.states
      → Sound l
      → Ensures (λ l'. (length l' ≡ length this.states) × Sound l') (mark_loop this rounds l)
  unfolding mark_loop
  mark_loop-Sound zero l room len s = elim room [ ]
  mark_loop-Sound (suc rounds) l room len s =
      bind-Ensures _ (mark_states-Steps (length this.states) 0 (omega arith) (l, false) len s)
        λ m g. by_flag m.0 m.1 g (mark_loop-Sound rounds m.0)
    where
      by_flag :
          (l' : List Bool) (keep : Bool)
          → Goes (l, false) (l', keep)
          → (unmarked l' < rounds
              → length l' ≡ length this.states
              → Sound l'
              → Ensures
                  (λ l''. (length l'' ≡ length this.states) × Sound l'')
                  (mark_loop this rounds l'))
          → Ensures
              (λ l''. (length l'' ≡ length this.states) × Sound l'')
              (if keep then mark_loop this rounds l' else ok l')
      by_flag l' true g ih = ih (omega (arith, g.progress refl refl)) g.same_length g.sound
      by_flag l' false g ih = holds (g.same_length, g.sound)

  check_states-Reachable :
      (base : Text) (l : List Bool) (indices : Map ℕ)
      → length l ≡ length this.states
      → Sound l
      → All (λ e. e.1 < length this.states) indices
      → Ensures (λ _. All (λ e. Reachable this e.1) indices) (check_states base l indices)
  unfolding check_states Sound
  check_states-Reachable base l [] len s b = holds tt
  check_states-Reachable base l ((name, ix) ∷ indices) len s b =
      let (m, q) = get_elem?-marks l ix (omega (arith, len, b.0)) in
      rw q (by_mark m q (check_states-Reachable base l indices len s b.1) _)
    where
      by_mark :
          (m : Bool)
          → get_elem? l ix ≡ some m
          → {rest : Result Unit} → Ensures (λ _. All (λ e. Reachable this e.1) indices) rest
          → (e : Error)
          → Ensures
              (λ _. Reachable this ix × All (λ e. Reachable this e.1) indices)
              (if m then rest else err e)
      by_mark true q (holds h) e = holds (s ix q, h)
      by_mark true q fails e = fails
      by_mark false q h e = fails

  -- The check ends without a panic, changes nothing, and passes only if every state of the table of
  -- names is reachable from the root by the inclusions and switches of the rules.
  pub check_reachable-Ensures :
      (base : Text) (indices : Map ℕ)
      → All (λ e. e.1 < length this.states) indices
      → Ensures
          (λ this'. (this' ≡ this) × All (λ e. Reachable this e.1) indices)
          (check_reachable base indices this)
  unfolding check_reachable Sound
  check_reachable-Ensures base indices b =
      let n = length this.states in
      let start = replicate n false in
      let (r, q) = get_elem?-marks start this.root_ix (omega (arith, w.root, length-replicate n)) in
      rw q (
        bind-Ensures _
          (mark_loop-Sound (suc n) (set start this.root_ix true)
            (omega (arith, unmarked-replicate n, unmarked-set_le start this.root_ix))
            (length-set start this.root_ix true ∙ length-replicate n)
            (set-Sound start this.root_ix (λ i e. absurd (not_marked n i e)) at_root))
          λ l h.
            bind-Ensures _ (check_states-Reachable base l indices h.0 h.1 b)
              λ _ all. holds (refl, all))
    where
      not_marked : (n i : ℕ) → get_elem? (replicate n false) i ≡ some true → ⊥
      not_marked zero i e = cc
      not_marked (suc n) zero e = cc
      not_marked (suc n) (suc i) e = not_marked n i e

      unmarked-set_le : (l : List Bool) (i : ℕ) → unmarked (set l i true) ≤ unmarked l
      unmarked-set_le [] i = omega arith
      unmarked-set_le (true ∷ l) zero = omega arith
      unmarked-set_le (false ∷ l) zero = omega arith
      unmarked-set_le (true ∷ l) (suc i) = unmarked-set_le l i
      unmarked-set_le (false ∷ l) (suc i) = omega (arith, unmarked-set_le l i)
