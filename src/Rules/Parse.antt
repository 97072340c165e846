-- ===== src/Rules/Parse.antt =====
-- src/rules/engine.rs: `SyncRules::parse`. `panic` stands for an index out of range, and for the
-- rounds of the reachability loop running out.
pub mod WellFormed
pub mod Total
use ensync.Base.{
  ℕ, zero, suc, ◌+◌, Bool, true, false, ◌||◌, not, leb, Option, none, some, List, [], ◌∷◌, ◌++◌,
  if◌then◌else◌, length, get_elem?, set, replicate,
}
use ensync.Base.Text.{Text, text, text_eq}
use ensync.Base.Map.{Map, lookup, insert}
use ensync.Base.Decimal.{decimal}
use ensync.Base.Int.{ℤ, pos, negsuc}
use ensync.SyncMode.{SyncMode, from_str}
use ensync.SyncMode
use ensync.Rules.Engine.{
  Condition, StopType, return, all, Action, mode, trust_client_unix_mode, include, switch, stop,
  Rule, RuleState, SyncRules,
}
use ensync.Rules.Errors.{
  Result, ok, err, panic, ◌>>=◌, require, or_panic, ErrorLocation, Error, bad_regex, bad_mode,
  bad_state_reference, bad_stop_type, invalid_rule_config, no_root_state, not_a_table, not_an_array,
  wrong_type, invalid_rules_group, file_size_out_of_range, unreachable_state,
}
use ensync.Rules.Values.{
  Config, convert_bool, parse_regex, parse_file_size, parse_mode, parse_stop_type, parse_state_ref,
  parse_state_ref_list,
}
use ensync.Rules.Reach.{check_reachable}

-- `sort_by_key` is stable: an action goes before those with a key that is not smaller.
abbrev pub key : Action → ℕ
key (mode _) = 0
key (trust_client_unix_mode _) = 1
key (include _) = 2
key (switch _) = 3
key (stop _) = 4

unfoldable pub insert_by_key : Action → List Action → List Action
insert_by_key a [] = a ∷ []
insert_by_key a (b ∷ bs) = if leb (key a) (key b) then a ∷ b ∷ bs else b ∷ insert_by_key a bs

unfoldable pub sort_by_key : List Action → List Action
sort_by_key [] = []
sort_by_key (a ∷ as') = insert_by_key a (sort_by_key as')

-- `format!("{} #{}", section, n)`
unfoldable pub numbered : Text → ℕ → Text
numbered section n = section ++ (b' ' ∷ b'#' ∷ decimal n)

-- `rule.conditions.push(..)`, `rule.actions.push(..)`
abbrev pub add_condition : {R : Type 0} → Rule R → Condition R → Result (Rule R)
add_condition rule c = ok (record rule { conditions = rule.conditions ++ c ∷ [] })

abbrev pub add_action : {R : Type 0} → Rule R → Action → Result (Rule R)
add_action rule a = ok (record rule { actions = rule.actions ++ a ∷ [] })

-- `self.rules.push(rule)`, with the index of the rule.
abbrev pub push_rule : {R : Type 0} → SyncRules R → Rule R → ℕ × SyncRules R
push_rule this rule = (length this.rules, record this { rules = this.rules ++ rule ∷ [] })

-- `self.states[ix].files = l`, `self.states[ix].siblings = l`
unfoldable pub set_files : {R : Type 0} → SyncRules R → ℕ → List ℕ → Result (SyncRules R)
set_files this ix l = or_panic (get_elem? this.states ix) >>= λ s.
    ok (record this { states = set this.states ix (record s { files = l }) })

unfoldable pub set_siblings : {R : Type 0} → SyncRules R → ℕ → List ℕ → Result (SyncRules R)
set_siblings this ix l = or_panic (get_elem? this.states ix) >>= λ s.
    ok (record this { states = set this.states ix (record s { siblings = l }) })

module _ (T : Config) where
  open T use {Value, Regex, as_table, as_array}

  abbrev pub Table : Type 0
  Table = List (Text × Value)

  -- One entry of a rule.
  unfoldable pub parse_entry :
      Map ℕ → Rule Regex → Text → Value → ErrorLocation → Result (Rule Regex)
  parse_entry indices rule e_name e_val loc =
      if text_eq (text "name") e_name
      then (parse_regex T e_val loc >>= λ rx. add_condition rule (Condition.name rx))
      else if text_eq (text "path") e_name
      then (parse_regex T e_val loc >>= λ rx. add_condition rule (Condition.path rx))
      else if text_eq (text "permissions") e_name
      then (parse_regex T e_val loc >>= λ rx. add_condition rule (Condition.permissions rx))
      else if text_eq (text "type") e_name
      then (parse_regex T e_val loc >>= λ rx. add_condition rule (Condition.type rx))
      else if text_eq (text "target") e_name
      then (parse_regex T e_val loc >>= λ rx. add_condition rule (Condition.target rx))
      else if text_eq (text "bigger") e_name
      then (parse_file_size T e_val loc >>= λ n. add_condition rule (Condition.bigger n))
      else if text_eq (text "smaller") e_name
      then (parse_file_size T e_val loc >>= λ n. add_condition rule (Condition.smaller n))
      else if text_eq (text "mode") e_name
      then (parse_mode T e_val loc >>= λ m. add_action rule (mode m))
      else if text_eq (text "trust_client_unix_mode") e_name
      then (convert_bool T e_val loc >>= λ b. add_action rule (trust_client_unix_mode b))
      else if text_eq (text "include") e_name
      then (parse_state_ref_list T indices e_val loc >>= λ l. add_action rule (include l))
      else if text_eq (text "switch") e_name
      then (parse_state_ref T indices e_val loc >>= λ ix. add_action rule (switch ix))
      else if text_eq (text "stop") e_name
      then (parse_stop_type T e_val loc >>= λ s. add_action rule (stop s))
      else err (invalid_rule_config loc e_name)

  -- `for (e_name, e_val) in def`
  unfoldable pub parse_entries : Map ℕ → Text → ℕ → Rule Regex → Table → Result (Rule Regex)
  parse_entries indices section r_ix rule [] = ok rule
  parse_entries indices section r_ix rule ((e_name, e_val) ∷ def) = do
    rule' ←
        parse_entry indices rule e_name e_val
          (record { section = section; ix = r_ix; field = e_name })
    parse_entries indices section r_ix rule' def

  -- The rule that is pushed, with its index.
  unfoldable pub parse_rule :
      Map ℕ → Value → ℕ → Text → SyncRules Regex → Result (ℕ × SyncRules Regex)
  unfolding numbered
  parse_rule indices def_raw r_ix section this = do
    def ← require (as_table def_raw) (not_a_table (numbered section (r_ix + 1)))
    rule ← parse_entries indices section r_ix (record { conditions = []; actions = [] }) def
    ok (push_rule this (record rule { actions = sort_by_key rule.actions }))

  -- `for (r_ix, rule) in def.iter().enumerate()`
  unfoldable pub parse_rules :
      Map ℕ → List Value → ℕ → Text → SyncRules Regex → Result (List ℕ × SyncRules Regex)
  parse_rules indices [] r_ix section this = ok ([], this)
  parse_rules indices (rule ∷ def) r_ix section this = do
    (ix, this') ← parse_rule indices rule r_ix section this
    (ixs, this'') ← parse_rules indices def (r_ix + 1) section this'
    ok (ix ∷ ixs, this'')

  unfoldable pub parse_group :
      Map ℕ → Value → Text → SyncRules Regex → Result (List ℕ × SyncRules Regex)
  parse_group indices def_raw section this = do
    def ← require (as_array def_raw) (not_an_array section)
    parse_rules indices def 0 section this

  unfoldable pub parse_one_group :
      Map ℕ → ℕ → Text → Text → Value → SyncRules Regex → Result (SyncRules Regex)
  parse_one_group indices ix section group_name group_def this =
      let group_path = section ++ (b'.' ∷ group_name) in
      if text_eq (text "files") group_name
      then (parse_group indices group_def group_path this >>= λ (l, this'). set_files this' ix l)
      else if text_eq (text "siblings") group_name
      then (parse_group indices group_def group_path this >>= λ (l, this'). set_siblings this' ix l)
      else err (invalid_rules_group section group_name)

  -- `for (group_name, group_def) in def`
  unfoldable pub parse_groups :
      Map ℕ → ℕ → Text → Table → SyncRules Regex → Result (SyncRules Regex)
  parse_groups indices ix section [] this = ok this
  parse_groups indices ix section ((group_name, group_def) ∷ def) this = do
    this' ← parse_one_group indices ix section group_name group_def this
    parse_groups indices ix section def this'

  unfoldable pub parse_state : Map ℕ → Value → ℕ → Text → SyncRules Regex → Result (SyncRules Regex)
  parse_state indices def_raw ix section this = do
    def ← require (as_table def_raw) (not_a_table section)
    parse_groups indices ix section def this

  -- `for (state_name, state_def) in rules`
  unfoldable pub parse_states : Map ℕ → Text → Table → SyncRules Regex → Result (SyncRules Regex)
  parse_states indices base [] this = ok this
  parse_states indices base ((state_name, state_def) ∷ rules) this = do
    ix ← or_panic (lookup state_name indices)
    this' ← parse_state indices state_def ix (base ++ (b'.' ∷ state_name)) this
    parse_states indices base rules this'

  -- `for state_name in rules.keys()`: the states and the map of their indices.
  unfoldable pub create_states : Table → ℕ → Map ℕ → Map ℕ
  create_states [] n indices = indices
  create_states ((state_name, _) ∷ rules) n indices =
      create_states rules (suc n) (insert state_name n indices)

  -- `SyncRules::parse`
  unfoldable pub parse : Table → Text → Result (SyncRules Regex)
  parse rules base =
      let n = length rules in
      let indices = create_states rules 0 [] in
      require (lookup (text "root") indices) no_root_state >>= λ root.
      parse_states indices base rules (record {
        states = replicate n (record { files = []; siblings = [] });
        rules = [];
        root_ix = root;
      })
      >>= λ this. check_reachable base indices this
