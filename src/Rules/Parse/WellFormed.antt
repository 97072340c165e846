-- ===== src/Rules/Parse/WellFormed.antt =====
-- src/rules/engine.rs: the indices in what the parser reads of one rule.
use ensync.Base.{
  ℕ, ◌<◌, ◌≡◌, Option, none, some, List, [], ◌∷◌, arith, All, All-append, Bool-cases, Option-cases,
  inl, inr, leb,
}
use ensync.Base.Text.{Text, text, text_eq}
use ensync.Base.Map.{Map, lookup}
use ensync.Base.Int.{ℤ, pos, negsuc}
use ensync.SyncMode
use ensync.SyncMode.{SyncMode, from_str}
use ensync.Rules.Engine.{
  Action, Condition, include, switch, mode, trust_client_unix_mode, stop, Rule,
}
use ensync.Rules.Engine.Runs.{ActionFits, RuleFits}
use ensync.Rules.Errors.{
  Result, ok, ◌>>=◌, ErrorLocation, Error, bad_regex, require, Ensures, holds, fails, bind-Ensures,
  require-Ensures, either,
}
use ensync.Rules.Values.{
  Config, convert_bool, parse_regex, parse_file_size, parse_mode, parse_stop_type, parse_state_ref,
  parse_state_refs, parse_state_ref_list, parse_state_ref_str, parse_size, parse_mode_str,
  parse_stop_str,
}
use ensync.Rules.Parse.{
  insert_by_key, sort_by_key, key, add_condition, add_action, parse_entry, parse_entries,
}

-- Sorting keeps what holds of all actions.
insert_by_key-All :
    (n : ℕ) (a : Action) (l : List Action)
    → ActionFits n a
    → All (ActionFits n) l
    → All (ActionFits n) (insert_by_key a l)
unfolding insert_by_key
insert_by_key-All n a [] h k = (h, tt)
insert_by_key-All n a (b ∷ l) h k = elim (Bool-cases (leb (key a) (key b))) [
  | inl le ↦ rw le (h, k)
  | inr gt ↦ rw gt (k.0, insert_by_key-All n a l h k.1)
]

pub sort_by_key-All :
    (n : ℕ) (l : List Action) → All (ActionFits n) l → All (ActionFits n) (sort_by_key l)
unfolding sort_by_key
sort_by_key-All n [] h = tt
sort_by_key-All n (a ∷ l) h = insert_by_key-All n a (sort_by_key l) h.0 (sort_by_key-All n l h.1)

-- Every index of the table of names is that of a state.
abbrev pub Fits : ℕ → Map ℕ → Type 0
Fits n indices = All (λ e. e.1 < n) indices

pub lookup-Fits :
    (n : ℕ) (k : Text) (indices : Map ℕ) (ix : ℕ)
    → Fits n indices
    → lookup k indices ≡ some ix
    → ix < n
unfolding lookup
lookup-Fits n k [] ix h e = cc
lookup-Fits n k ((j, x) ∷ indices) ix h e = ground (arith, lookup-Fits n k indices ix h.1, h.0)

-- The same for any property of the indices.
pub lookup-All :
    (P : ℕ → Type 0) (k : Text) (indices : Map ℕ) (ix : ℕ)
    → All (λ e. P e.1) indices
    → lookup k indices ≡ some ix
    → P ix
unfolding lookup
lookup-All P k [] ix h e = cc
lookup-All P k ((j, x) ∷ indices) ix h e = ground (arith, lookup-All P k indices ix h.1, h.0)

-- A value parser that returns no index: any value, or an error.
abbrev Any : {A : Type 0} → A → Type 0
Any a = Unit {0}

module _ (T : Config) where
  open T use {Value, Regex}

  convert_bool-Ensures : (v : Value) (loc : ErrorLocation) → Ensures Any (convert_bool T v loc)
  unfolding convert_bool
  convert_bool-Ensures v loc = require-Ensures _ _

  -- `require` before a parser that returns any value.
  pub require_then :
      {A B : Type 0} (o : Option A) (e : Error) (f : A → Result B)
      → ((a : A) → Ensures Any (f a))
      → Ensures Any (require o e >>= f)
  require_then none e f h = fails
  require_then (some a) e f h = h a

  parse_regex-Ensures : (v : Value) (loc : ErrorLocation) → Ensures Any (parse_regex T v loc)
  unfolding parse_regex
  parse_regex-Ensures v loc =
      require_then (T.as_str v) _ (λ s. require (T.compile s) (bad_regex loc))
        λ s. require-Ensures _ _

  parse_file_size-Ensures :
      (v : Value) (loc : ErrorLocation) → Ensures Any (parse_file_size T v loc)
  unfolding parse_file_size
  parse_file_size-Ensures v loc = require_then (T.as_integer v) _ (parse_size loc) any
    where
      any : (i : ℤ) → Ensures Any (parse_size loc i)
      any (pos n) = holds tt
      any (negsuc n) = fails

  parse_mode-Ensures : (v : Value) (loc : ErrorLocation) → Ensures Any (parse_mode T v loc)
  unfolding parse_mode
  parse_mode-Ensures v loc =
      require_then (T.as_str v) _ (λ s. parse_mode_str loc s (from_str s)) λ s. any s (from_str s)
    where
      any : (s : Text) (m : SyncMode.Parsed SyncMode) → Ensures Any (parse_mode_str loc s m)
      any s (SyncMode.ok m) = holds tt
      any s (SyncMode.err e) = fails

  parse_stop_type-Ensures :
      (v : Value) (loc : ErrorLocation) → Ensures Any (parse_stop_type T v loc)
  unfolding parse_stop_type
  parse_stop_type-Ensures v loc = require_then (T.as_str v) _ (parse_stop_str loc) any
    where
      any : (s : Text) → Ensures Any (parse_stop_str loc s)
      any s = elim (Bool-cases (text_eq (text "all") s)) [
        | inl e ↦ rw e (holds tt)
        | inr e ↦ elim (Bool-cases (text_eq (text "return") s)) [
          | inl e' ↦ rw (e, e') (holds tt)
          | inr e' ↦ rw (e, e') fails
        ]
      ]

  module _ (n : ℕ) (indices : Map ℕ) (fit : Fits n indices) where
    parse_state_ref-Ensures :
        (v : Value) (loc : ErrorLocation) → Ensures (λ ix. ix < n) (parse_state_ref T indices v loc)
    unfolding parse_state_ref parse_state_ref_str
    parse_state_ref-Ensures v loc = elim (Option-cases (T.as_str v)) [
      | inl e ↦ rw e fails
      | inr (s, e) ↦ elim (Option-cases (lookup s indices)) [
        | inl e' ↦ rw (e, e', parse_state_ref_str) fails
        | inr (ix, e') ↦ rw (e, e', parse_state_ref_str) (holds (lookup-Fits n s indices ix fit e'))
      ]
    ]

    parse_state_refs-Ensures :
        (vs : List Value) (loc : ErrorLocation)
        → Ensures (All (λ ix. ix < n)) (parse_state_refs T indices vs loc)
    unfolding parse_state_refs
    parse_state_refs-Ensures [] loc = holds tt
    parse_state_refs-Ensures (v ∷ vs) loc =
        bind-Ensures (λ ix. parse_state_refs T indices vs loc >>= λ rest. ok (ix ∷ rest))
          (parse_state_ref-Ensures v loc)
          λ ix h.
            bind-Ensures (λ rest. ok (ix ∷ rest)) (parse_state_refs-Ensures vs loc)
              λ rest k. holds (h, k)

    parse_state_ref_list-Ensures :
        (v : Value) (loc : ErrorLocation)
        → Ensures (All (λ ix. ix < n)) (parse_state_ref_list T indices v loc)
    unfolding parse_state_ref_list
    parse_state_ref_list-Ensures v loc = elim (Option-cases (T.as_str v)) [
      | inr (s, e) ↦
          rw (e, parse_state_ref_list)
            (bind-Ensures (λ ix. ok (ix ∷ [])) (parse_state_ref-Ensures v loc)
              λ ix h. holds (h, tt))
      | inl e ↦ elim (Option-cases (T.as_array v)) [
        | inl e' ↦ rw (e, e', parse_state_ref_list) fails
        | inr (vs, e') ↦ rw (e, e', parse_state_ref_list) (parse_state_refs-Ensures vs loc)
      ]
    ]

    -- One entry adds a condition, or an action that fits.
    add_condition-Fits :
        (rule : Rule Regex) (c : Condition Regex)
        → RuleFits n rule
        → Ensures (RuleFits n) (add_condition rule c)
    add_condition-Fits rule c h = holds h

    add_action-Fits :
        (rule : Rule Regex) (a : Action)
        → RuleFits n rule
        → ActionFits n a
        → Ensures (RuleFits n) (add_action rule a)
    add_action-Fits rule a h k = holds (All-append (ActionFits n) rule.actions (a ∷ []) h (k, tt))

    parse_entry-Ensures :
        (rule : Rule Regex) (name : Text) (v : Value) (loc : ErrorLocation)
        → RuleFits n rule
        → Ensures (RuleFits n) (parse_entry T indices rule name v loc)
    unfolding parse_entry
    parse_entry-Ensures rule name v loc h =
        either _
          (bind-Ensures _ (parse_regex-Ensures v loc)
            λ rx _. add_condition-Fits rule (Condition.name rx) h)
          (either _
            (bind-Ensures _ (parse_regex-Ensures v loc)
              λ rx _. add_condition-Fits rule (Condition.path rx) h)
            (either _
              (bind-Ensures _ (parse_regex-Ensures v loc)
                λ rx _. add_condition-Fits rule (Condition.permissions rx) h)
              (either _
                (bind-Ensures _ (parse_regex-Ensures v loc)
                  λ rx _. add_condition-Fits rule (Condition.type rx) h)
                (either _
                  (bind-Ensures _ (parse_regex-Ensures v loc)
                    λ rx _. add_condition-Fits rule (Condition.target rx) h)
                  (either _
                    (bind-Ensures _ (parse_file_size-Ensures v loc)
                      λ s _. add_condition-Fits rule (Condition.bigger s) h)
                    (either _
                      (bind-Ensures _ (parse_file_size-Ensures v loc)
                        λ s _. add_condition-Fits rule (Condition.smaller s) h)
                      (either _
                        (bind-Ensures _ (parse_mode-Ensures v loc)
                          λ m _. add_action-Fits rule (mode m) h tt)
                        (either _
                          (bind-Ensures _ (convert_bool-Ensures v loc)
                            λ b _. add_action-Fits rule (trust_client_unix_mode b) h tt)
                          (either _
                            (bind-Ensures _ (parse_state_ref_list-Ensures v loc)
                              λ l k. add_action-Fits rule (include l) h k)
                            (either _
                              (bind-Ensures _ (parse_state_ref-Ensures v loc)
                                λ ix k. add_action-Fits rule (switch ix) h k)
                              (either _
                                (bind-Ensures _ (parse_stop_type-Ensures v loc)
                                  λ s _. add_action-Fits rule (stop s) h tt)
                                fails)))))))))))

    pub parse_entries-Ensures :
        (section : Text) (r_ix : ℕ) (rule : Rule Regex) (def : List (Text × Value))
        → RuleFits n rule
        → Ensures (RuleFits n) (parse_entries T indices section r_ix rule def)
    unfolding parse_entries
    parse_entries-Ensures section r_ix rule [] h = holds h
    parse_entries-Ensures section r_ix rule ((name, v) ∷ def) h =
        bind-Ensures _ (parse_entry-Ensures rule name v _ h)
          λ rule' h'. parse_entries-Ensures section r_ix rule' def h'
