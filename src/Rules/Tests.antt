-- ===== src/Rules/Tests.antt =====
-- Tests and witnesses for src/rules/engine.rs: a configuration with two states.
use ensync.Base.{ℕ, ◌≡◌, refl, true, Option, none, some, List, [], ◌∷◌, arith, All}
use ensync.Base.Text.{Text, text, text_eq}
use ensync.Base.Map.{lookup, insert}
use ensync.FileData.{directory, File}
use ensync.SyncMode.{SyncMode, all_of, off, force}
use ensync.Rules.Engine.{
  Condition, switch, include, mode, apply_rules_impl, visit_state, rules_loop, visit_rule,
  apply_actions, apply_action, include_subs, SyncRules, EngineState, engine_state_new, apply_rules,
}
use ensync.Rules.Engine.Runs.{IsWellFormed, EngineFits, apply_rules_total}
use ensync.Rules.Tree.{FileEngine, file_engine_new, walk}
use ensync.Rules.Tree.Walk.{IsAt, walk_at, walk_total}
use ensync.Rules.Errors.{ok, err, Ensures, no_root_state, unreachable_state}
use ensync.Rules.Values.{
  Config, parse_state_ref, parse_state_ref_str, parse_state_ref_list, parse_state_refs, parse_regex,
}
use ensync.Rules.Reach.{
  mark, mark_all, mark_action, mark_actions, mark_rules, mark_state, mark_states, mark_loop,
  check_states, check_reachable,
}
use ensync.Rules.Reach.Sound.{Reachable, check_reachable-Ensures}
use ensync.Rules.Parse.{
  parse, parse_states, parse_state, parse_groups, parse_one_group, parse_group, parse_rules,
  parse_rule, parse_entries, parse_entry, numbered, set_files, set_siblings, insert_by_key,
  sort_by_key, create_states,
}
use ensync.Rules.Parse.Total.{AllReachable, parse-Ensures, walk-parse}

-- Values: strings, and tables and arrays one entry at a time.
data Toml : Type 0 where
  str : Text → Toml
  end : Toml
  entry : Text → Toml → Toml → Toml
  element : Toml → Toml → Toml

abbrev table_of : Toml → Option (List (Text × Toml))
table_of (entry k v rest) = elim (table_of rest) [ some l ↦ some ((k, v) ∷ l) | none ↦ none ]
table_of end = some []
table_of _ = none

abbrev array_of : Toml → Option (List Toml)
array_of (element v rest) = elim (array_of rest) [ some l ↦ some (v ∷ l) | none ↦ none ]
array_of end = some []
array_of _ = none

abbrev str_of : Toml → Option Text
str_of (str s) = some s
str_of _ = none

-- Regular expressions are texts, which match themselves.
abbrev toml : Config
toml = record {
  Value = Toml;
  Regex = Text;
  as_table = table_of;
  as_array = array_of;
  as_str = str_of;
  as_integer = λ _. none;
  as_bool = λ _. none;
  compile = λ s. some s;
}

-- The rule of the root for "a" switches to the other state.
abbrev switching : Toml
switching =
    entry (text "files")
      (element
        (entry (text "name") (str (text "a")) (entry (text "switch") (str (text "other")) end)) end)
      end

abbrev two_states : List (Text × Toml)
two_states = (text "root", switching) ∷ (text "other", end) ∷ []

abbrev a_file : File
a_file = record { name = text "a"; fd = directory 493 }

-- What the parser yields for it.
abbrev parsed : SyncRules Text
parsed = record {
  states = record { files = 0 ∷ []; siblings = [] } ∷ record { files = []; siblings = [] } ∷ [];
  rules = record { conditions = Condition.name (text "a") ∷ []; actions = switch 1 ∷ [] } ∷ [];
  root_ix = 0;
}

parse_two : parse toml two_states (text "rules") ≡ ok parsed
unfolding parse parse_states parse_state parse_groups parse_one_group parse_group parse_rules
    parse_rule parse_entries parse_entry numbered set_files set_siblings insert_by_key sort_by_key
    create_states parse_state_ref parse_state_ref_str parse_state_ref_list parse_state_refs
    parse_regex lookup insert text_eq mark mark_all mark_action mark_actions mark_rules mark_state
    mark_states mark_loop check_states check_reachable
parse_two = refl

parse_unreachable :
    parse toml ((text "root", end) ∷ (text "other", end) ∷ []) (text "rules")
    ≡ err (unreachable_state (text "rules.other"))
unfolding parse parse_states parse_state parse_groups parse_one_group parse_group parse_rules
    parse_rule parse_entries parse_entry numbered set_files set_siblings insert_by_key sort_by_key
    create_states parse_state_ref parse_state_ref_str parse_state_ref_list parse_state_refs
    parse_regex lookup insert text_eq mark mark_all mark_action mark_actions mark_rules mark_state
    mark_states mark_loop check_states check_reachable
parse_unreachable = refl

parse_no_root : parse toml ((text "other", end) ∷ []) (text "rules") ≡ err no_root_state
unfolding parse parse_states parse_state parse_groups parse_one_group parse_group parse_rules
    parse_rule parse_entries parse_entry numbered set_files set_siblings insert_by_key sort_by_key
    create_states parse_state_ref parse_state_ref_str parse_state_ref_list parse_state_refs
    parse_regex lookup insert text_eq mark mark_all mark_action mark_actions mark_rules mark_state
    mark_states mark_loop check_states check_reachable
parse_no_root = refl

parse-Ensures_example :
    Ensures
      (λ this. IsWellFormed this × AllReachable toml two_states this)
      (parse toml two_states (text "rules"))
parse-Ensures_example = parse-Ensures toml two_states (text "rules")

walk-parse_example :
    (fe : FileEngine Text) × (walk text_eq
        (file_engine_new parsed)
        ((a_file ∷ [], a_file) ∷ (a_file ∷ [], a_file) ∷ [])
      ≡ some fe)
walk-parse_example =
    walk-parse toml text_eq two_states (text "rules") parsed parse_two
      ((a_file ∷ [], a_file) ∷ (a_file ∷ [], a_file) ∷ [])

abbrev parsed-IsWellFormed : IsWellFormed parsed
parsed-IsWellFormed = record {
  root = omega arith;
  all_states = (((omega arith, tt), tt), ((tt, tt), tt));
  all_rules = ((omega arith, tt), tt);
}

check_reachable-Ensures_example :
    Ensures
      (λ this'.
        (this' ≡ parsed)
        × All (λ (e : Text × ℕ). Reachable parsed e.1) ((text "root", 0) ∷ (text "other", 1) ∷ []))
      (check_reachable (text "rules") ((text "root", 0) ∷ (text "other", 1) ∷ []) parsed)
check_reachable-Ensures_example =
    check_reachable-Ensures parsed parsed-IsWellFormed (text "rules")
      ((text "root", 0) ∷ (text "other", 1) ∷ []) (omega arith, (omega arith, tt))

walk_total_example :
    (fe : FileEngine Text) × (walk text_eq (file_engine_new parsed) ((a_file ∷ [], a_file) ∷ [])
      ≡ some fe)
    × (walk_at text_eq [] (file_engine_new parsed) ((a_file ∷ [], a_file) ∷ []) ≡ some fe)
    × IsAt (text "/a") fe
unfolding file_engine_new
walk_total_example =
    walk_total text_eq [] (file_engine_new parsed) ((a_file ∷ [], a_file) ∷ []) (record {
      well_formed = parsed-IsWellFormed;
      fits = record { state = omega arith; switch = tt; path = refl };
    })

abbrev mirror : SyncMode
mirror = record { inbound = all_of off; outbound = all_of force }

-- Two states that include one another.
abbrev circular : SyncRules Text
circular = record {
  states = record { files = 0 ∷ []; siblings = [] } ∷ record { files = 1 ∷ []; siblings = [] } ∷ [];
  rules =
      record { conditions = []; actions = include (1 ∷ []) ∷ [] }
      ∷ record { conditions = []; actions = mode mirror ∷ include (0 ∷ []) ∷ [] }
      ∷ [];
  root_ix = 0;
}

abbrev circular-IsWellFormed : IsWellFormed circular
circular-IsWellFormed = record {
  root = omega arith;
  all_states = (((omega arith, tt), tt), (((omega arith, tt), tt), tt));
  all_rules = (((omega arith, tt), tt), ((tt, ((omega arith, tt), tt)), tt));
}

apply_rules-circular :
    apply_rules circular (λ s. s.files) (λ r. some true) (engine_state_new 0)
    ≡ some (record (engine_state_new 0) { mode = mirror })
unfolding apply_rules apply_rules_impl visit_state rules_loop visit_rule apply_actions apply_action
    include_subs
apply_rules-circular = refl

apply_rules_total_example :
    (e' : EngineState) × (apply_rules circular (λ s. s.files) (λ r. some true) (engine_state_new 0)
      ≡ some e')
    × EngineFits 2 [] e'
apply_rules_total_example =
    apply_rules_total circular circular-IsWellFormed (λ r. some true) (λ r h. (true, refl)) []
      (λ s. s.files) (λ s f. f.0) (engine_state_new 0)
      (record { state = omega arith; switch = tt; path = refl })
