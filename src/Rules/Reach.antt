-- ===== src/Rules/Reach.antt =====
-- src/rules/engine.rs: the check of `SyncRules::parse` that all states are reachable.
-- `HashMap` iteration is taken in the order of insertion: it decides only which unreachable state is
-- reported.
pub mod Sound
use ensync.Base.{
  ℕ, zero, suc, ◌+◌, Bool, true, false, ◌||◌, not, leb, Option, none, some, List, [], ◌∷◌, ◌++◌,
  if◌then◌else◌, length, get_elem?, set, replicate,
}
use ensync.Base.Text.{Text, text, text_eq}
use ensync.Base.Map.{Map, lookup, insert}
use ensync.Base.Decimal.{decimal}
use ensync.Base.Int.{ℤ, pos, negsuc}
use ensync.SyncMode.{SyncMode, from_str}
use ensync.SyncMode
use ensync.Rules.Engine.{
  Condition, StopType, return, all, Action, mode, trust_client_unix_mode, include, switch, stop,
  Rule, RuleState, SyncRules,
}
use ensync.Rules.Errors.{
  Result, ok, err, panic, ◌>>=◌, require, or_panic, ErrorLocation, Error, bad_regex, bad_mode,
  bad_state_reference, bad_stop_type, invalid_rule_config, no_root_state, not_a_table, not_an_array,
  wrong_type, invalid_rules_group, file_size_out_of_range, unreachable_state,
}

-- The reachability check: the marks, and whether a mark was set in this round.
abbrev pub Marks : Type 0
Marks = List Bool × Bool

unfoldable pub mark : ℕ → Marks → Result Marks
mark r (reachable, keep_going) =
    or_panic (get_elem? reachable r) >>= λ b. ok (set reachable r true, keep_going || not b)

unfoldable pub mark_all : List ℕ → Marks → Result Marks
mark_all [] m = ok m
mark_all (r ∷ rs) m = mark r m >>= λ m'. mark_all rs m'

unfoldable pub mark_action : Action → Marks → Result Marks
mark_action (include reffed) m = mark_all reffed m
mark_action (switch reffed) m = mark reffed m
mark_action _ m = ok m

unfoldable pub mark_actions : List Action → Marks → Result Marks
mark_actions [] m = ok m
mark_actions (a ∷ as') m = mark_action a m >>= λ m'. mark_actions as' m'

module _ {R : Type 0} (this : SyncRules R) where
  -- `for &r_ix in files.chain(siblings)`
  unfoldable pub mark_rules : List ℕ → Marks → Result Marks
  mark_rules [] m = ok m
  mark_rules (r_ix ∷ rs) m = or_panic (get_elem? this.rules r_ix) >>= λ rule.
      mark_actions rule.actions m >>= λ m'. mark_rules rs m'

  unfoldable pub mark_state : ℕ → Marks → Result Marks
  mark_state i m = or_panic (get_elem? m.0 i) >>= λ b. or_panic (get_elem? this.states i) >>= λ s.
      if b then mark_rules (s.files ++ s.siblings) m else ok m

  -- `for i in 0..this.states.len()`, with the rounds that are left.
  unfoldable pub mark_states : ℕ → ℕ → Marks → Result Marks
  mark_states zero i m = ok m
  mark_states (suc k) i m = mark_state i m >>= λ m'. mark_states k (i + 1) m'

  -- `while keep_going`. Each round but the last sets a mark.
  unfoldable pub mark_loop : ℕ → List Bool → Result (List Bool)
  mark_loop zero reachable = panic
  mark_loop (suc rounds) reachable =
      mark_states (length this.states) 0 (reachable, false) >>= λ (reachable', keep_going).
      let rest = mark_loop rounds reachable' in if keep_going then rest else ok reachable'

-- `for (name, &ix) in &state_indices`
unfoldable pub check_states : Text → List Bool → Map ℕ → Result Unit
check_states base reachable [] = ok tt
check_states base reachable ((state_name, ix) ∷ indices) =
    or_panic (get_elem? reachable ix) >>= λ b.
    let rest = check_states base reachable indices in
    if b then rest else err (unreachable_state (base ++ (b'.' ∷ state_name)))

unfoldable pub check_reachable : {R : Type 0} → Text → Map ℕ → SyncRules R → Result (SyncRules R)
check_reachable base indices this =
    let n = length this.states in
    or_panic (get_elem? (replicate n false) this.root_ix) >>= λ _.
    mark_loop this (suc n) (set (replicate n false) this.root_ix true) >>= λ reachable.
    check_states base reachable indices >>= λ _. ok this
