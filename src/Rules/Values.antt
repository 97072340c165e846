-- ===== src/Rules/Values.antt =====
-- src/rules/engine.rs: the parsers of the values of a rule. The configuration (`toml::Value`) and the
-- compilation of regular expressions are parameters.
use ensync.Base.{ℕ, Bool, Option, none, some, List, [], ◌∷◌, if◌then◌else◌}
use ensync.Base.Text.{Text, text, text_eq}
use ensync.Base.Map.{Map, lookup}
use ensync.Base.Int.{ℤ, pos, negsuc}
use ensync.SyncMode.{SyncMode, from_str}
use ensync.SyncMode
use ensync.Rules.Engine.{StopType, return, all}
use ensync.Rules.Errors.{
  Result, ok, err, ◌>>=◌, require, ErrorLocation, bad_regex, bad_mode, bad_state_reference,
  bad_stop_type, wrong_type, file_size_out_of_range,
}

-- The views of a `toml::Value` that the parser takes, and `Regex::new`.
pub record Config : Type 1 where
  pub Value : Type 0
  pub Regex : Type 0
  pub as_table : Value → Option (List (Text × Value))
  pub as_array : Value → Option (List Value)
  pub as_str : Value → Option Text
  pub as_integer : Value → Option ℤ
  pub as_bool : Value → Option Bool
  pub compile : Text → Option Regex

unfoldable pub parse_state_ref_str : Map ℕ → ErrorLocation → Option Text → Result ℕ
parse_state_ref_str indices loc none = err (wrong_type loc (text "string"))
parse_state_ref_str indices loc (some s) = elim (lookup s indices) [
  | some ix ↦ ok ix
  | none ↦ err (bad_state_reference loc s)
]

unfoldable pub parse_stop_str : ErrorLocation → Text → Result StopType
parse_stop_str loc s =
    if text_eq (text "all") s
    then ok all
    else if text_eq (text "return") s
    then ok return
    else err (bad_stop_type loc s)

unfoldable pub parse_size : ErrorLocation → ℤ → Result ℕ
parse_size loc (pos n) = ok n
parse_size loc (negsuc n) = err (file_size_out_of_range loc (negsuc n))

unfoldable pub parse_mode_str : ErrorLocation → Text → SyncMode.Parsed SyncMode → Result SyncMode
parse_mode_str loc s (SyncMode.ok m) = ok m
parse_mode_str loc s (SyncMode.err e) = err (bad_mode loc s e)

module _ (T : Config) where
  open T use {Value, Regex, as_table, as_array, as_str, as_integer, as_bool, compile}

  unfoldable pub convert_bool : Value → ErrorLocation → Result Bool
  convert_bool val loc = require (as_bool val) (wrong_type loc (text "boolean"))

  unfoldable pub parse_regex : Value → ErrorLocation → Result Regex
  parse_regex val loc = do
    s ← require (as_str val) (wrong_type loc (text "string"))
    require (compile s) (bad_regex loc)

  unfoldable pub parse_file_size : Value → ErrorLocation → Result ℕ
  unfolding parse_size
  parse_file_size val loc = do
    i ← require (as_integer val) (wrong_type loc (text "integer"))
    parse_size loc i

  unfoldable pub parse_mode : Value → ErrorLocation → Result SyncMode
  unfolding parse_mode_str
  parse_mode val loc = do
    s ← require (as_str val) (wrong_type loc (text "string"))
    parse_mode_str loc s (from_str s)

  unfoldable pub parse_stop_type : Value → ErrorLocation → Result StopType
  unfolding parse_stop_str
  parse_stop_type val loc = do
    s ← require (as_str val) (wrong_type loc (text "string"))
    parse_stop_str loc s

  module _ (indices : Map ℕ) where
    unfoldable pub parse_state_ref : Value → ErrorLocation → Result ℕ
    parse_state_ref val loc = parse_state_ref_str indices loc (as_str val)

    -- `for elt in elts`
    unfoldable pub parse_state_refs : List Value → ErrorLocation → Result (List ℕ)
    parse_state_refs [] loc = ok []
    parse_state_refs (elt ∷ elts) loc = do
      ix ← parse_state_ref elt loc
      rest ← parse_state_refs elts loc
      ok (ix ∷ rest)

    -- A string, or an array of strings.
    unfoldable pub parse_state_ref_list : Value → ErrorLocation → Result (List ℕ)
    parse_state_ref_list val loc = elim (as_str val) [
      | some s ↦ parse_state_ref val loc >>= λ ix. ok (ix ∷ [])
      | none ↦ elim (as_array val) [
        | some elts ↦ parse_state_refs elts loc
        | none ↦ err (wrong_type loc (text "string-or-array"))
      ]
    ]
