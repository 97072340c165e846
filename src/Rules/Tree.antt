-- ===== src/Rules/Tree.antt =====
-- src/rules/engine.rs: the engines of files and directories, which carry the rules down the tree.
-- The builder and the engines hold the rule set, as the source does behind an `Arc`.
pub mod Walk
pub mod Single
use ensync.Base.{
  ℕ, zero, suc, Bool, true, false, ◌||◌, Option, none, some, List, [], ◌∷◌, ◌++◌, length, get_elem?,
  replicate,
}
use ensync.Base.Text.{Text}
use ensync.Base.Panic.{◌>>=◌}
use ensync.FileData.{File}
use ensync.SyncMode.{SyncMode}
use ensync.Rules.Engine.{
  Rule, RuleState, SyncRules, EngineState, engine_state_new, push_dir, apply_switch, apply_rules,
  rule_matches, mode, trust_client_unix_mode, Action, Condition,
}

pub record DirEngine (R : Type 0) : Type 0 where
  pub rules : SyncRules R
  pub state : EngineState

pub record FileEngine (R : Type 0) : Type 0 where
  pub rules : SyncRules R
  pub state : EngineState

pub record DirEngineBuilder (R : Type 0) : Type 0 where
  pub rules : SyncRules R
  pub state : EngineState
  pub rules_matched : List Bool

-- `SyncRules::single_mode`
abbrev pub single_mode : {R : Type 0} → SyncMode → Bool → SyncRules R
single_mode m trust = record {
  states = record { files = 0 ∷ []; siblings = [] } ∷ [];
  rules = record { conditions = []; actions = mode m ∷ trust_client_unix_mode trust ∷ [] } ∷ [];
  root_ix = 0;
}

module _ {R : Type 0} where
  -- `FileEngine::new`
  unfoldable pub file_engine_new : SyncRules R → FileEngine R
  file_engine_new rules = record { rules = rules; state = engine_state_new rules.root_ix }

  pub sync_mode : FileEngine R → SyncMode
  sync_mode self = self.state.mode

  pub trusts_client_unix_mode : FileEngine R → Bool
  trusts_client_unix_mode self = self.state.trust_client_unix_mode

  pub subdir : FileEngine R → DirEngineBuilder R
  subdir self = record {
    rules = self.rules;
    state = self.state;
    rules_matched = replicate (length self.rules.rules) false;
  }

  -- `DirEngineBuilder::build`
  pub build : DirEngineBuilder R → Option (DirEngine R)
  build self = do
    e ← apply_rules self.rules (λ s. s.siblings) (λ r. get_elem? self.rules_matched r) self.state
    some (record { rules = self.rules; state = apply_switch e })

module _ {R : Type 0} (is_match : R → Text → Bool) where
  -- `self.rules.rules[r].matches(&path, &*name, file.1)`
  pub matches_rule : SyncRules R → Text → File → ℕ → Option Bool
  matches_rule rules path file r =
      get_elem? rules.rules r >>= λ rule. some (rule_matches is_match rule path file.name file.fd)

  -- The rules see the full path, which is out of the state while they run.
  pub run_files : SyncRules R → File → EngineState → Option (FileEngine R)
  unfolding matches_rule
  run_files rules file e = do
    e' ← apply_rules rules (λ s. s.files) (matches_rule rules e.path file) (record e { path = [] })
    some (record { rules = rules; state = record e' { path = e.path } })

  -- `DirEngine::file`
  pub file_engine : DirEngine R → File → Option (FileEngine R)
  unfolding run_files
  file_engine self file = run_files self.rules file (apply_switch (push_dir self.state file.name))

  -- `self.rules_matched[ix] |= rule.matches(..)` for every rule.
  pub or_matched : Text → File → List (Rule R) → List Bool → Option (List Bool)
  or_matched path file [] matched = some matched
  or_matched path file (r ∷ rs) [] = none
  or_matched path file (r ∷ rs) (m ∷ ms) = do
    rest ← or_matched path file rs ms
    some ((m || rule_matches is_match r path file.name file.fd) ∷ rest)

  -- `DirEngineBuilder::contains`
  pub contains : DirEngineBuilder R → File → Option (DirEngineBuilder R)
  contains self file = do
    matched ←
        or_matched (self.state.path ++ (b'/' ∷ file.name)) file self.rules.rules self.rules_matched
    some (record self { rules_matched = matched })

  pub contains_all : DirEngineBuilder R → List File → Option (DirEngineBuilder R)
  contains_all self [] = some self
  contains_all self (f ∷ fs) = do self' ← contains self f; contains_all self' fs

  -- One level down, as src/reconcile/tree_walk.rs goes: the files of the directory are shown to the
  -- builder, and the engine of one of them is taken.
  pub descend : FileEngine R → List File → File → Option (FileEngine R)
  descend self files file = do
    builder ← contains_all (subdir self) files
    dir ← build builder
    file_engine dir file

  -- The way down through the given directories.
  pub walk : FileEngine R → List (List File × File) → Option (FileEngine R)
  walk self [] = some self
  walk self ((files, file) ∷ levels) = do self' ← descend self files file; walk self' levels
