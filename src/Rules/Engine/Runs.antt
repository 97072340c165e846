-- ===== src/Rules/Engine/Runs.antt =====
-- src/rules/engine.rs: the runs of `apply_rules` on well-formed rule sets.
use ensync.Base.{
  if◌then◌else◌, ℕ, zero, suc, ◌≤◌, ◌<◌, ◌≡◌, refl, ◌∙◌, Bool, true, false, Option, none, some,
  List, [], ◌∷◌, length, get_elem?, set, replicate, arith, All, get_elem?-All, length-set,
}
use ensync.Base.Text.{Text}
use ensync.Base.Panic.{◌>>=◌}
use ensync.Rules.Engine.{
  Action, mode, trust_client_unix_mode, include, switch, stop, return, all, Rule, RuleState,
  SyncRules, EngineState, Flow, next, leave, leave_all, Apply, include_subs, apply_action,
  apply_actions, visit_rule, run_rule, rules_loop, visit_state, apply_rules_impl, apply_rules,
}
use ensync.Rules.Engine.Occurs.{
  unmarked, unmarked-set, set-set, unmarked-replicate, length-replicate, get_elem?-marks,
}

-- Every index points into its table: the states, of which there are `n`, or the rules.
abbrev pub ActionFits : ℕ → Action → Type 0
ActionFits n (include subs) = All (λ s. s < n) subs
ActionFits n (switch s) = s < n
ActionFits n _ = Unit

abbrev pub RuleFits : {R : Type 0} → ℕ → Rule R → Type 0
RuleFits n r = All (ActionFits n) r.actions

abbrev pub StateFits : ℕ → RuleState → Type 0
StateFits k s = All (λ r. r < k) s.files × All (λ r. r < k) s.siblings

pub record IsWellFormed {R : Type 0} (rules : SyncRules R) : Type 0 where
  pub root : rules.root_ix < length rules.states
  pub all_states : All (StateFits (length rules.rules)) rules.states
  pub all_rules : All (RuleFits (length rules.states)) rules.rules

abbrev pub SwitchFits : ℕ → Option ℕ → Type 0
SwitchFits n none = Unit
SwitchFits n (some s) = s < n

-- The engine stands in a state of the rule set, is to switch to one if at all, and has the path `p`.
pub record EngineFits (n : ℕ) (p : Text) (e : EngineState) : Type 0 where
  pub state : e.state < n
  pub switch : SwitchFits n e.switch
  pub path : e.path ≡ p

-- A step returns, with the marks as given, and with an engine that fits.
pub record Returns {A : Type 0} (n : ℕ) (p : Text) (occurs : List Bool)
    (m : Option (A × List Bool × EngineState)) : Type 0 where
  pub value : A
  pub engine : EngineState
  pub runs : m ≡ some (value, occurs, engine)
  pub fits : EngineFits n p engine

pure-Returns :
    {A : Type 0} {n : ℕ} {p : Text} (a : A) (o : List Bool) (e : EngineState)
    → EngineFits n p e
    → Returns n p o (some (a, o, e))
pure-Returns a o e h = record { value = a; engine = e; runs = refl; fits = h }

bind-Returns :
    {A B : Type 0} {n : ℕ} {p : Text} {o o' : List Bool} {m : Option (A × List Bool × EngineState)}
    (f : A × List Bool × EngineState → Option (B × List Bool × EngineState))
    → Returns n p o m
    → ((a : A) (e : EngineState) → EngineFits n p e → Returns n p o' (f (a, o, e)))
    → Returns n p o' (m >>= f)
bind-Returns f r k = rw r.runs (k r.value r.engine r.fits)

-- A call on a state returns, if the marks leave room for `k` more states.
abbrev CallReturns : ℕ → Text → ℕ → Apply → Type 0
CallReturns n p k apply =
    (ix : ℕ) (o : List Bool) (e : EngineState)
    → ix < n
    → length o ≡ n
    → unmarked o ≤ k
    → EngineFits n p e
    → Returns n p o (apply ix o e)

module _ (n : ℕ) (p : Text) (k : ℕ) (apply : Apply) (call : CallReturns n p k apply) (o : List Bool)
    (len : length o ≡ n) (room : unmarked o ≤ k) where
  include_subs-Returns :
      (subs : List ℕ) (e : EngineState)
      → All (λ s. s < n) subs
      → EngineFits n p e
      → Returns n p o (include_subs apply subs o e)
  unfolding include_subs
  include_subs-Returns [] e h f = pure-Returns true o e f
  include_subs-Returns (s ∷ subs) e h f = bind-Returns _ (call s o e h.0 len room f) λ go e' f'.
      elim go
        as (λ b. Returns n p o (if b then include_subs apply subs o e' else some (false, o, e'))) [
          | true ↦ include_subs-Returns subs e' h.1 f'
          | false ↦ pure-Returns false o e' f'
        ]

  apply_action-Returns :
      (a : Action) (e : EngineState)
      → ActionFits n a
      → EngineFits n p e
      → Returns n p o (apply_action apply a o e)
  unfolding apply_action
  apply_action-Returns (mode m) e h f =
      pure-Returns next o _ (record { state = f.state; switch = f.switch; path = f.path })
  apply_action-Returns (trust_client_unix_mode t) e h f =
      pure-Returns next o _ (record { state = f.state; switch = f.switch; path = f.path })
  apply_action-Returns (include subs) e h f =
      bind-Returns _ (include_subs-Returns subs e h f) λ go e' f'. pure-Returns _ o e' f'
  apply_action-Returns (switch s) e h f =
      pure-Returns next o _ (record { state = f.state; switch = h; path = f.path })
  apply_action-Returns (stop return) e h f = pure-Returns leave o e f
  apply_action-Returns (stop all) e h f = pure-Returns leave_all o e f

  apply_actions-Returns :
      (as' : List Action) (e : EngineState)
      → All (ActionFits n) as'
      → EngineFits n p e
      → Returns n p o (apply_actions apply as' o e)
  unfolding apply_actions
  apply_actions-Returns [] e h f = pure-Returns next o e f
  apply_actions-Returns (a ∷ as') e h f =
      bind-Returns _ (apply_action-Returns a e h.0 f)
        λ flow e' f'. by_flow flow e' f' (apply_actions-Returns as' e' h.1 f')
    where
      by_flow :
          (flow : Flow) (e' : EngineState)
          → EngineFits n p e'
          → Returns n p o (apply_actions apply as' o e')
          → Returns n p o (elim flow [
            | next ↦ apply_actions apply as' o e'
            | leave ↦ some (leave, o, e')
            | leave_all ↦ some (leave_all, o, e')
          ])
      by_flow next e' f' r = r
      by_flow leave e' f' r = pure-Returns leave o e' f'
      by_flow leave_all e' f' r = pure-Returns leave_all o e' f'

-- The test of a rule does not panic on the rules of the set.
abbrev pub Tests : ℕ → (ℕ → Option Bool) → Type 0
Tests k matches = (r : ℕ) → r < k → (b : Bool) × (matches r ≡ some b)

module _ {R : Type 0} (rules : SyncRules R) (w : IsWellFormed rules) (matches : ℕ → Option Bool)
    (tests : Tests (length rules.rules) matches) where
  module _ (p : Text) (k : ℕ) (apply : Apply) (call : CallReturns (length rules.states) p k apply)
      (o : List Bool) (len : length o ≡ length rules.states) (room : unmarked o ≤ k) where
    run_rule-Returns :
        (r : ℕ) (e : EngineState)
        → r < length rules.rules
        → EngineFits (length rules.states) p e
        → Returns (length rules.states) p o (run_rule apply rules.rules matches r o e)
    unfolding run_rule
    run_rule-Returns r e h f =
        let (rule, q, fits) =
          get_elem?-All (RuleFits (length rules.states)) rules.rules r w.all_rules h in
        rw q (apply_actions-Returns _ p k apply call o len room rule.actions e fits f)

    visit_rule-Returns :
        (r : ℕ) (e : EngineState)
        → r < length rules.rules
        → EngineFits (length rules.states) p e
        → Returns (length rules.states) p o (visit_rule apply rules.rules matches r o e)
    unfolding visit_rule
    visit_rule-Returns r e h f = let (b, q) = tests r h in rw q (by_test b)
      where
        by_test :
            (b : Bool)
            → Returns
                (length rules.states)
                p
                o
                (if b then run_rule apply rules.rules matches r o e else some (next, o, e))
        by_test true = run_rule-Returns r e h f
        by_test false = pure-Returns next o e f

    rules_loop-Returns :
        (rs : List ℕ) (e : EngineState)
        → All (λ r. r < length rules.rules) rs
        → EngineFits (length rules.states) p e
        → Returns (length rules.states) p o (rules_loop apply rules.rules matches rs o e)
    unfolding rules_loop
    rules_loop-Returns [] e h f = pure-Returns true o e f
    rules_loop-Returns (r ∷ rs) e h f =
        bind-Returns _ (visit_rule-Returns r e h.0 f)
          λ flow e' f'. by_flow flow e' f' (rules_loop-Returns rs e' h.1 f')
      where
        by_flow :
            (flow : Flow) (e' : EngineState)
            → EngineFits (length rules.states) p e'
            → Returns (length rules.states) p o (rules_loop apply rules.rules matches rs o e')
            → Returns (length rules.states) p o (elim flow [
              | next ↦ rules_loop apply rules.rules matches rs o e'
              | leave ↦ some (true, o, e')
              | leave_all ↦ some (false, o, e')
            ])
        by_flow next e' f' t = t
        by_flow leave e' f' t = pure-Returns true o e' f'
        by_flow leave_all e' f' t = pure-Returns false o e' f'

  module _ (p : Text) (group : RuleState → List ℕ)
      (in_group : (s : RuleState)
        → StateFits (length rules.rules) s
        → All (λ r. r < length rules.rules) (group s)) where
    visit_state-Returns :
        (k : ℕ) (apply : Apply)
        → CallReturns (length rules.states) p k apply
        → (ix : ℕ) (o : List Bool) (e : EngineState) → ix < length rules.states
        → length o ≡ length rules.states
        → unmarked o ≤ suc k
        → get_elem? o ix ≡ some false
        → EngineFits (length rules.states) p e
        → Returns (length rules.states) p o (visit_state rules group matches apply ix o e)
    unfolding visit_state
    visit_state-Returns k apply call ix o e h len room free f =
        let (s, q, fits) =
          get_elem?-All (StateFits (length rules.rules)) rules.states ix w.all_states h in
        rw q (
          bind-Returns _
            (rules_loop-Returns p k apply call (set o ix true) (length-set o ix true ∙ len)
              (omega (arith, unmarked-set o ix free)) (group s) e (in_group s fits) f)
            λ go e' f'. rw (set-set o ix free) (pure-Returns go o e' f'))

    apply_rules_impl-Returns :
        (fuel : ℕ)
        → CallReturns (length rules.states) p fuel (apply_rules_impl rules group matches (suc fuel))
    unfolding apply_rules_impl
    apply_rules_impl-Returns zero ix o e h len room f =
        let (b, q) = get_elem?-marks o ix (omega (arith)) in rw q (by_mark b q)
      where
        by_mark :
            (b : Bool)
            → get_elem? o ix ≡ some b
            → Returns (length rules.states) p o (
                if b
                then some (true, o, e)
                else visit_state rules group matches
                    (apply_rules_impl rules group matches zero)
                    ix
                    o
                    e)
        by_mark true q = pure-Returns true o e f
        by_mark false q = absurd (omega (arith, unmarked-set o ix q))
    apply_rules_impl-Returns (suc fuel) ix o e h len room f =
        let (b, q) = get_elem?-marks o ix (omega (arith)) in
        rw q (by_mark b q (apply_rules_impl-Returns fuel))
      where
        by_mark :
            (b : Bool)
            → get_elem? o ix ≡ some b
            → CallReturns
                (length rules.states)
                p
                fuel
                (apply_rules_impl rules group matches (suc fuel))
            → Returns (length rules.states) p o (
                if b
                then some (true, o, e)
                else visit_state rules group matches
                    (apply_rules_impl rules group matches (suc fuel))
                    ix
                    o
                    e)
        by_mark true q call = pure-Returns true o e f
        by_mark false q call = visit_state-Returns fuel _ call ix o e h len room q f

    -- The evaluation of the rules of a state and of those that they include returns an engine, whose
    -- state is one of the rule set again, and whose path is as before.
    pub apply_rules_total :
        (e : EngineState)
        → EngineFits (length rules.states) p e
        → (e' : EngineState) × (apply_rules rules group matches e ≡ some e')
          × EngineFits (length rules.states) p e'
    unfolding apply_rules
    apply_rules_total e f =
        let n = length rules.states in
        let r =
          apply_rules_impl-Returns n e.state (replicate n false) e f.state (length-replicate n)
            (omega (arith, unmarked-replicate n)) f in
        (r.engine, rw r.runs, r.fits)
