-- ===== src/Rules/Parse/Total.antt =====
-- src/rules/engine.rs: the results of `SyncRules::parse`, and what they are good for.
use ensync.Base.{
  ℕ, zero, suc, ◌+◌, ◌≤◌, ◌<◌, ◌≡◌, refl, ◌∙◌, ap, Bool, true, false, Option, none, some, List, [],
  ◌∷◌, ◌++◌, length, length-append, get_elem?, set, replicate, arith, All, All-append,
  get_elem?-All, length-set, if◌then◌else◌, Bool-cases, inl, inr,
}
use ensync.Base.Text.{Text, text, text_eq, text_eq_refl}
use ensync.Base.Map.{Map, lookup, insert, lookup-insert}
use ensync.Rules.Engine.{Rule, RuleState, SyncRules}
use ensync.Rules.Engine.Runs.{IsWellFormed, RuleFits, StateFits}
use ensync.Rules.Errors.{
  Result, ok, ◌>>=◌, Error, invalid_rules_group, no_root_state, require, Ensures, holds, fails,
  bind-Ensures, require-Ensures, or_panic-Ensures, of_Ensures, either, imp-Ensures,
}
use ensync.Rules.Values.{Config}
use ensync.FileData.{File}
use ensync.Rules.Tree.{FileEngine, file_engine_new, walk}
use ensync.Rules.Tree.Walk.{walk_total}
use ensync.Rules.Reach.{check_reachable}
use ensync.Rules.Reach.Sound.{Reachable, check_reachable-Ensures}
use ensync.Rules.Parse.{
  sort_by_key, push_rule, set_files, set_siblings, parse_rule, parse_rules, parse_group,
  parse_one_group, parse_groups, parse_state, parse_states, create_states, parse,
}
use ensync.Rules.Parse.WellFormed.{
  Fits, lookup-Fits, sort_by_key-All, parse_entries-Ensures, lookup-All,
}

-- A rule set on the way: `n` states, whose indices of rules are in range.
record IsPart {R : Type 0} (n : ℕ) (this : SyncRules R) : Type 0 where
  pub all_there : length this.states ≡ n
  pub root : this.root_ix < n
  pub all_states : All (StateFits (length this.rules)) this.states
  pub all_rules : All (RuleFits n) this.rules

All-imp : {A : Type 0} {P Q : A → Type 0} (l : List A) → ((a : A) → P a → Q a) → All P l → All Q l
All-imp [] f h = tt
All-imp (a ∷ l) f h = (f a h.0, All-imp l f h.1)

StateFits-le : (k k' : ℕ) (s : RuleState) → k ≤ k' → StateFits k s → StateFits k' s
StateFits-le k k' s le h = (
  All-imp s.files (λ a b. omega (arith, le, b)) h.0,
  All-imp s.siblings (λ a b. omega (arith, le, b)) h.1,
)

set-All :
    {A : Type 0} (P : A → Type 0) (l : List A) (i : ℕ) (a : A) → All P l → P a → All P (set l i a)
set-All P [] i a h k = tt
set-All P (b ∷ l) zero a h k = (k, h.1)
set-All P (b ∷ l) (suc i) a h k = (h.0, set-All P l i a h.1 k)

length-copies : {A : Type 0} (n : ℕ) (a : A) → length (replicate n a) ≡ n
length-copies zero a = refl
length-copies (suc n) a = ap suc (length-copies n a)

StateFits-copies : (n : ℕ) → All (StateFits 0) (replicate n (record { files = []; siblings = [] }))
StateFits-copies zero = tt
StateFits-copies (suc n) = ((tt, tt), StateFits-copies n)

module _ {R : Type 0} (n : ℕ) where
  -- A rule set that has grown, with a value.
  Grown : {A : Type 0} → SyncRules R → (ℕ → A → Type 0) → A × SyncRules R → Type 0
  Grown this P (a, this') =
      IsPart n this' × P (length this'.rules) a × (length this.rules ≤ length this'.rules)

  push_rule-Grown :
      (this : SyncRules R) (rule : Rule R)
      → IsPart n this
      → RuleFits n rule
      → Grown this (λ k ix. ix < k) (push_rule this rule)
  unfolding Grown
  push_rule-Grown this rule h k =
      let more = length-append this.rules (rule ∷ []) in
      (
        record {
          all_there = h.all_there;
          root = h.root;
          all_states =
              All-imp this.states (λ s. StateFits-le _ _ s (omega (arith, more))) h.all_states;
          all_rules = All-append (RuleFits n) this.rules (rule ∷ []) h.all_rules (k, tt);
        },
        omega (arith, more),
        omega (arith, more),
      )

  module _ (this : SyncRules R) (ix : ℕ) (l : List ℕ) (h : IsPart n this) (b : ix < n)
      (k : All (λ r. r < length this.rules) l) where
    at_state :
        (s : RuleState) × (get_elem? this.states ix ≡ some s) × StateFits (length this.rules) s
    at_state =
        get_elem?-All (StateFits (length this.rules)) this.states ix h.all_states
          (omega (arith, b, h.all_there))

    written :
        (s : RuleState)
        → StateFits (length this.rules) s
        → IsPart n (record this { states = set this.states ix s })
    written s f = record {
      all_there = length-set this.states ix s ∙ h.all_there;
      root = h.root;
      all_states = set-All (StateFits (length this.rules)) this.states ix s h.all_states f;
      all_rules = h.all_rules;
    }

    set_files-Ensures : Ensures (IsPart n) (set_files this ix l)
    unfolding set_files
    set_files-Ensures =
        let (s, e, f) = at_state in rw e (holds (written (record s { files = l }) (k, f.1)))

    set_siblings-Ensures : Ensures (IsPart n) (set_siblings this ix l)
    unfolding set_siblings
    set_siblings-Ensures =
        let (s, e, f) = at_state in rw e (holds (written (record s { siblings = l }) (f.0, k)))

module _ (T : Config) (n : ℕ) (indices : Map ℕ) (fit : Fits n indices) where
  open T use {Value, Regex}

  parse_rule-Ensures :
      (def : Value) (r_ix : ℕ) (section : Text) (this : SyncRules Regex)
      → IsPart n this
      → Ensures (Grown n this (λ k ix. ix < k)) (parse_rule T indices def r_ix section this)
  unfolding parse_rule
  parse_rule-Ensures def r_ix section this h =
      bind-Ensures _ (require-Ensures (T.as_table def) _) λ table _.
        bind-Ensures _
          (parse_entries-Ensures T n indices fit section r_ix
            (record { conditions = []; actions = [] }) table tt)
          λ rule k. holds (
            push_rule-Grown n this (record rule { actions = sort_by_key rule.actions }) h
              (sort_by_key-All n rule.actions k))

  parse_rules-Ensures :
      (def : List Value) (r_ix : ℕ) (section : Text) (this : SyncRules Regex)
      → IsPart n this
      → Ensures (Grown n this (λ k. All (λ r. r < k))) (parse_rules T indices def r_ix section this)
  unfolding parse_rules Grown
  parse_rules-Ensures [] r_ix section this h = holds (h, tt, omega arith)
  parse_rules-Ensures (rule ∷ def) r_ix section this h =
      bind-Ensures _ (parse_rule-Ensures rule r_ix section this h) λ (ix, this') (h', b, le).
        bind-Ensures _ (parse_rules-Ensures def (r_ix + 1) section this' h')
          λ (ixs, this'') (h'', k, le').
            holds (h'', (omega (arith, b, le'), k), omega (arith, le, le'))

  parse_group-Ensures :
      (def : Value) (section : Text) (this : SyncRules Regex)
      → IsPart n this
      → Ensures (Grown n this (λ k. All (λ r. r < k))) (parse_group T indices def section this)
  unfolding parse_group
  parse_group-Ensures def section this h =
      bind-Ensures _ (require-Ensures (T.as_array def) _)
        λ rules _. parse_rules-Ensures rules 0 section this h

  module _ (ix : ℕ) (b : ix < n) (section : Text) where
    parse_one_group-Ensures :
        (name : Text) (def : Value) (this : SyncRules Regex)
        → IsPart n this
        → Ensures (IsPart n) (parse_one_group T indices ix section name def this)
    unfolding parse_one_group Grown
    parse_one_group-Ensures name def this h =
        let group = parse_group-Ensures def (section ++ (b'.' ∷ name)) this h in
        either (text_eq (text "files") name)
          (bind-Ensures (λ (l, this'). set_files this' ix l) group
            λ (l, this') (h', k, le). set_files-Ensures n this' ix l h' b k)
          (either (text_eq (text "siblings") name)
            (bind-Ensures (λ (l, this'). set_siblings this' ix l) group
              λ (l, this') (h', k, le). set_siblings-Ensures n this' ix l h' b k)
            (fails {e = invalid_rules_group section name}))

    parse_groups-Ensures :
        (def : List (Text × Value)) (this : SyncRules Regex)
        → IsPart n this
        → Ensures (IsPart n) (parse_groups T indices ix section def this)
    unfolding parse_groups
    parse_groups-Ensures [] this h = holds h
    parse_groups-Ensures ((name, d) ∷ def) this h =
        bind-Ensures _ (parse_one_group-Ensures name d this h)
          λ this' h'. parse_groups-Ensures def this' h'

    parse_state-Ensures :
        (def : Value) (this : SyncRules Regex)
        → IsPart n this
        → Ensures (IsPart n) (parse_state T indices def ix section this)
    unfolding parse_state
    parse_state-Ensures def this h =
        bind-Ensures _ (require-Ensures (T.as_table def) _)
          λ table _. parse_groups-Ensures table this h

  -- Every name of the table has an index.
  abbrev Named : Map ℕ → List (Text × Value) → Type 0
  Named m = All (λ e. (ix : ℕ) × (lookup e.0 m ≡ some ix))

  parse_states-Ensures :
      (base : Text) (rules : List (Text × Value)) (this : SyncRules Regex)
      → Named indices rules
      → IsPart n this
      → Ensures (IsPart n) (parse_states T indices base rules this)
  unfolding parse_states
  parse_states-Ensures base [] this named h = holds h
  parse_states-Ensures base ((name, def) ∷ rules) this named h =
      let (ix, e) = named.0 in
      bind-Ensures _ (or_panic-Ensures {P = λ j. j < n} e (lookup-Fits n name indices ix fit e))
        λ j b.
          bind-Ensures _ (parse_state-Ensures j b _ def this h)
            λ this' h'. parse_states-Ensures base rules this' named.1 h'

insert-Fits : (n : ℕ) (k : Text) (i : ℕ) (m : Map ℕ) → i < n → Fits n m → Fits n (insert k i m)
unfolding insert
insert-Fits n k i [] b h = (b, tt)
insert-Fits n k i ((j, x) ∷ m) b h =
    elim (text_eq j k) as (λ t. Fits n (if t then (k, i) ∷ m else (j, x) ∷ insert k i m)) [
      | true ↦ (b, h.1)
      | false ↦ (h.0, insert-Fits n k i m b h.1)
    ]

module _ (T : Config) where
  open T use {Value, Regex}

  create_states-Fits :
      (n : ℕ) (rules : List (Text × Value)) (k : ℕ) (m : Map ℕ)
      → k + length rules ≤ n
      → Fits n m
      → Fits n (create_states T rules k m)
  unfolding create_states
  create_states-Fits n [] k m le h = h
  create_states-Fits n ((name, def) ∷ rules) k m le h =
      create_states-Fits n rules (suc k) (insert name k m) (omega (arith, le))
        (insert-Fits n name k m (omega (arith, le)) h)

  Has : Map ℕ → Text → Type 0
  Has m name = (ix : ℕ) × (lookup name m ≡ some ix)

  insert-Has : (m : Map ℕ) (name k : Text) (i : ℕ) → Has m name → Has (insert k i m) name
  unfolding Has
  insert-Has m name k i (ix, e) = elim (Bool-cases (text_eq k name)) [
    | inl t ↦ (i, lookup-insert name k i m ∙ rw t refl)
    | inr f ↦ (ix, lookup-insert name k i m ∙ rw f e)
  ]

  create_states-Has :
      (rules : List (Text × Value)) (k : ℕ) (m : Map ℕ) (name : Text)
      → Has m name
      → Has (create_states T rules k m) name
  unfolding create_states
  create_states-Has [] k m name h = h
  create_states-Has ((j, def) ∷ rules) k m name h =
      create_states-Has rules (suc k) (insert j k m) name (insert-Has m name j k h)

  create_states-Named :
      (rules : List (Text × Value)) (k : ℕ) (m : Map ℕ)
      → All (λ e. Has (create_states T rules k m) e.0) rules
  unfolding create_states Has
  create_states-Named [] k m = tt
  create_states-Named ((j, def) ∷ rules) k m = (
    create_states-Has rules (suc k) (insert j k m) j (here j),
    create_states-Named rules (suc k) (insert j k m),
  )
    where
      here : (j : Text) → Has (insert j k m) j
      here j = (k, lookup-insert j j k m ∙ rw (text_eq_refl j) refl)

  -- Every state that the configuration names has an index, and that state is reachable from the root.
  abbrev pub AllReachable : List (Text × Value) → SyncRules Regex → Type 0
  AllReachable rules this =
      All (λ e. (ix : ℕ) × (lookup e.0 (create_states T rules 0 []) ≡ some ix) × Reachable this ix)
        rules

  -- Names whose indices are all reachable.
  named_Reachable :
      (m : Map ℕ) (this : SyncRules Regex) (l : List (Text × Value))
      → All (λ e. Reachable this e.1) m
      → All (λ e. Has m e.0) l
      → All (λ e. (ix : ℕ) × (lookup e.0 m ≡ some ix) × Reachable this ix) l
  unfolding Has
  named_Reachable m this [] r h = tt
  named_Reachable m this ((name, def) ∷ l) r h =
      let (ix, e) = h.0 in
      ((ix, e, lookup-All (Reachable this) name m ix r e), named_Reachable m this l r h.1)

  checked :
      (rules : List (Text × Value)) (base : Text) (this : SyncRules Regex)
      → IsPart (length rules) this
      → Fits (length rules) (create_states T rules 0 [])
      → Ensures
          (λ this'. IsWellFormed this' × AllReachable rules this')
          (check_reachable base (create_states T rules 0 []) this)
  checked rules base this h fit =
      let wf : IsWellFormed this = record {
        root = rw h.all_there h.root;
        all_states = h.all_states;
        all_rules = rw h.all_there h.all_rules;
      } in
      imp-Ensures
        (check_reachable-Ensures this wf base (create_states T rules 0 []) (rw h.all_there fit))
        λ this' (e, r).
          (rw e wf, rw e (named_Reachable _ this rules r (create_states-Named rules 0 [])))

  -- The parser never panics: it ends with an error, or with a rule set that is well formed, and in
  -- which every state that the configuration names is reachable from the root state by the
  -- inclusions and switches of the rules.
  pub parse-Ensures :
      (rules : List (Text × Value)) (base : Text)
      → Ensures (λ this. IsWellFormed this × AllReachable rules this) (parse T rules base)
  unfolding parse Has
  parse-Ensures rules base =
      let n = length rules in
      let indices = create_states T rules 0 [] in
      let fit = create_states-Fits n rules 0 [] (omega arith) tt in
      let start = replicate n (record { files = []; siblings = [] }) in
      require_lookup (lookup (text "root") indices) no_root_state λ root e.
        bind-Ensures _
          (parse_states-Ensures T n indices fit base rules
            (record { states = start; rules = []; root_ix = root }) (create_states-Named rules 0 [])
            (started n root (lookup-Fits n (text "root") indices root fit e)))
          λ this h. checked rules base this h fit
    where
      require_lookup :
          {A B : Type 0} {P : B → Type 0} (o : Option A) (err' : Error) {f : A → Result B}
          → ((a : A) → o ≡ some a → Ensures P (f a))
          → Ensures P (require o err' >>= f)
      require_lookup none err' k = fails
      require_lookup (some a) err' k = k a refl

      started :
          (n root : ℕ)
          → root < n
          → IsPart {R = Regex} n (record {
            states = replicate n (record { files = []; siblings = [] });
            rules = [];
            root_ix = root;
          })
      started n root b = record {
        all_there = length-copies n _;
        root = b;
        all_states = StateFits-copies n;
        all_rules = tt;
      }

  -- A rule set that the parser accepts serves every way down the directory tree, from the root
  -- engine on and whatever files the directories hold: the engine of the last file is returned, and
  -- no lookup is out of range.
  pub walk-parse :
      (is_match : Regex → Text → Bool) (rules : List (Text × Value)) (base : Text)
      (this : SyncRules Regex)
      → parse T rules base ≡ ok this
      → (levels : List (List File × File))
      → (fe : FileEngine Regex) × (walk is_match (file_engine_new this) levels ≡ some fe)
  unfolding file_engine_new
  walk-parse is_match rules base this e levels =
      let w = (of_Ensures (parse-Ensures rules base) e).0 in
      let (fe, q, _, at) =
        walk_total is_match [] (file_engine_new this) levels (record {
          well_formed = w;
          fits = record { state = w.root; switch = tt; path = refl };
        }) in
      (fe, q)
