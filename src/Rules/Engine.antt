-- ===== src/Rules/Engine.antt =====
-- src/rules/engine.rs: the rule set, and its evaluation down a directory tree. The regular
-- expressions are a parameter: a type `R` and its test `is_match`. `none` is a panic, by an index
-- out of range, or fuel that has run out.
pub mod Occurs
pub mod Runs
use ensync.Base.{
  ℕ, zero, suc, ◌+◌, ◌/◌, ◌%◌, ◌-◌, Bool, true, false, ◌&&◌, ◌||◌, Option, none, some, List, [],
  ◌∷◌, ◌++◌,
}
use ensync.Base.{if◌then◌else◌, ltb, length, get_elem?, set, replicate}
use ensync.Base.Text.{Text, text}
use ensync.Base.Panic.{◌>>=◌}
use ensync.FileData.{FileData, directory, regular, symlink, special, File, FileSize}
use ensync.SyncMode.{SyncMode, all_of, off}

pub data Condition (R : Type 0) : Type 0 where
  name path permissions type target : R → Condition R
  bigger smaller : FileSize → Condition R

pub data StopType : Type 0 where
  return all : StopType

pub data Action : Type 0 where
  mode : SyncMode → Action
  trust_client_unix_mode : Bool → Action
  include : List ℕ → Action
  switch : ℕ → Action
  stop : StopType → Action

pub record Rule (R : Type 0) : Type 0 where
  pub conditions : List (Condition R)
  pub actions : List Action

pub record RuleState : Type 0 where
  pub files : List ℕ
  pub siblings : List ℕ

pub record SyncRules (R : Type 0) : Type 0 where
  pub states : List RuleState
  pub rules : List (Rule R)
  pub root_ix : ℕ

pub record EngineState : Type 0 where
  pub mode : SyncMode
  pub trust_client_unix_mode : Bool
  pub state : ℕ
  pub switch : Option ℕ
  pub path : Text

-- `format!("{:04o}", mode)`
octal_fuel : ℕ → ℕ → Text
octal_fuel zero n = []
octal_fuel (suc f) n =
    let rest = octal_fuel f (n / 8) in
    if ltb n 8 then (b'0' + n) ∷ [] else rest ++ (b'0' + n % 8) ∷ []

unfoldable pub octal4 : ℕ → Text
unfolding octal_fuel
octal4 n = let digits = octal_fuel (suc n) n in replicate (4 - length digits) b'0' ++ digits

-- The letter of a file's type.
type_letter : FileData → Option Text
type_letter (regular _ _ _ _) = some (text "f")
type_letter (directory _) = some (text "d")
type_letter (symlink _) = some (text "s")
type_letter special = none

module _ {R : Type 0} (is_match : R → Text → Bool) where
  matches_permissions : R → FileData → Bool
  matches_permissions rx (regular m _ _ _) = is_match rx (octal4 m)
  matches_permissions rx (directory m) = is_match rx (octal4 m)
  matches_permissions rx _ = false

  matches_type : R → Option Text → Bool
  matches_type rx none = false
  matches_type rx (some s) = is_match rx s

  matches_target : R → FileData → Bool
  matches_target rx (symlink t) = is_match rx t
  matches_target rx _ = false

  -- `Condition::matches(path, name, data)`
  unfoldable pub condition_matches : Condition R → Text → Text → FileData → Bool
  unfolding matches_permissions matches_type matches_target type_letter
  condition_matches (name rx) p n fd = is_match rx n
  condition_matches (path rx) p n fd = is_match rx p
  condition_matches (permissions rx) p n fd = matches_permissions rx fd
  condition_matches (type rx) p n fd = matches_type rx (type_letter fd)
  condition_matches (target rx) p n fd = matches_target rx fd
  condition_matches (bigger min) p n (regular _ size _ _) = ltb min size
  condition_matches (bigger min) p n _ = false
  condition_matches (smaller max) p n (regular _ size _ _) = ltb size max
  condition_matches (smaller max) p n _ = false

  all_match : List (Condition R) → Text → Text → FileData → Bool
  all_match [] p n fd = true
  all_match (c ∷ cs) p n fd = condition_matches c p n fd && all_match cs p n fd

  -- `Rule::matches(path, name, data)`
  unfoldable pub rule_matches : Rule R → Text → Text → FileData → Bool
  unfolding all_match condition_matches
  rule_matches r p n fd = all_match r.conditions p n fd

-- `EngineState::new`
abbrev pub engine_state_new : ℕ → EngineState
engine_state_new init_state = record {
  mode = record { inbound = all_of off; outbound = all_of off };
  trust_client_unix_mode = true;
  state = init_state;
  switch = none;
  path = [];
}

pub switch_state : Option ℕ → EngineState → EngineState
switch_state none e = e
switch_state (some new) e = record e { state = new; switch = none }

unfoldable pub apply_switch : EngineState → EngineState
unfolding switch_state
apply_switch e = switch_state e.switch e

unfoldable pub push_dir : EngineState → Text → EngineState
push_dir e sub = record e { path = e.path ++ (b'/' ∷ sub) }

-- What the loop over the actions of a rule does next: go on, or leave the loop over the rules, with
-- `keep_going` as it is or cleared.
pub data Flow : Type 0 where
  next leave leave_all : Flow

-- A call of `apply_rules_impl` on a state: whether the caller goes on, `occurs`, the engine.
abbrev pub Apply : Type 0
Apply = ℕ → List Bool → EngineState → Option (Bool × List Bool × EngineState)

module _ (apply : Apply) where
  -- `for &sub in subs`
  unfoldable pub include_subs :
      List ℕ → List Bool → EngineState → Option (Bool × List Bool × EngineState)
  include_subs [] occurs e = some (true, occurs, e)
  include_subs (sub ∷ subs) occurs e = do
    (go, occurs', e') ← apply sub occurs e
    if go then include_subs subs occurs' e' else some (false, occurs', e')

  unfoldable pub apply_action :
      Action → List Bool → EngineState → Option (Flow × List Bool × EngineState)
  apply_action (mode m) occurs e = some (next, occurs, record e { mode = m })
  apply_action (trust_client_unix_mode t) occurs e =
      some (next, occurs, record e { trust_client_unix_mode = t })
  apply_action (include subs) occurs e = do
    (go, occurs', e') ← include_subs subs occurs e
    some ((if go then next else leave_all), occurs', e')
  apply_action (switch new) occurs e = some (next, occurs, record e { switch = some new })
  apply_action (stop return) occurs e = some (leave, occurs, e)
  apply_action (stop all) occurs e = some (leave_all, occurs, e)

  -- `for action in &self.rules[rule].actions`
  unfoldable pub apply_actions :
      List Action → List Bool → EngineState → Option (Flow × List Bool × EngineState)
  apply_actions [] occurs e = some (next, occurs, e)
  apply_actions (a ∷ as') occurs e = do
    (flow, occurs', e') ← apply_action a occurs e
    let rest = apply_actions as' occurs' e'
    elim flow [
      | next ↦ rest
      | leave ↦ some (leave, occurs', e')
      | leave_all ↦ some (leave_all, occurs', e')
    ]

  module _ {R : Type 0} (rules : List (Rule R)) (matches : ℕ → Option Bool) where
    run_rule : ℕ → List Bool → EngineState → Option (Flow × List Bool × EngineState)
    run_rule r occurs e = do rule ← get_elem? rules r; apply_actions rule.actions occurs e

    -- One round of `'rules_loop`.
    unfoldable pub visit_rule :
        ℕ → List Bool → EngineState → Option (Flow × List Bool × EngineState)
    unfolding run_rule
    visit_rule r occurs e = do
      matched ← matches r
      if matched then run_rule r occurs e else some (next, occurs, e)

    -- `'rules_loop`, which yields `keep_going`.
    unfoldable pub rules_loop :
        List ℕ → List Bool → EngineState → Option (Bool × List Bool × EngineState)
    rules_loop [] occurs e = some (true, occurs, e)
    rules_loop (r ∷ rs) occurs e = do
      (flow, occurs', e') ← visit_rule r occurs e
      let rest = rules_loop rs occurs' e'
      elim flow [
        | next ↦ rest
        | leave ↦ some (true, occurs', e')
        | leave_all ↦ some (false, occurs', e')
      ]

module _ {R : Type 0} (rules : SyncRules R) (group : RuleState → List ℕ)
    (matches : ℕ → Option Bool) where
  -- The body of `apply_rules_impl`, once the state is marked.
  unfoldable pub visit_state : Apply → Apply
  visit_state apply ix occurs e = do
    s ← get_elem? rules.states ix
    (go, occurs', e') ← rules_loop apply rules.rules matches (group s) (set occurs ix true) e
    some (go, set occurs' ix false, e')

  -- The fuel bounds the depth of the inclusions.
  unfoldable pub apply_rules_impl : ℕ → Apply
  apply_rules_impl zero ix occurs e = none
  apply_rules_impl (suc fuel) ix occurs e =
      let visit = visit_state (apply_rules_impl fuel) ix occurs e in
      get_elem? occurs ix >>= λ seen. if seen then some (true, occurs, e) else visit

  -- No state is entered twice, so the number of states bounds the depth.
  unfoldable pub apply_rules : EngineState → Option EngineState
  apply_rules e = do
    (go, occurs, e') ←
        apply_rules_impl (suc (length rules.states)) e.state (replicate (length rules.states) false)
          e
    some e'
