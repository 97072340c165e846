-- ===== src/Rules/Tree/Walk.antt =====
-- src/rules/engine.rs: the way from the root engine down the tree.
use ensync.Base.{
  ℕ, zero, suc, ◌<◌, ◌≡◌, refl, sym, ap, ◌∙◌, Bool, ◌||◌, Option, none, some, List, [], ◌∷◌, ◌++◌,
  length, get_elem?, arith, append-nil, append_assoc,
}
use mathlib.Core.Path.{subst}
use ensync.Base.Text.{Text}
use ensync.Base.Panic.{◌>>=◌}
use ensync.FileData.{File}
use ensync.Rules.Engine.{
  Rule, SyncRules, EngineState, push_dir, apply_switch, switch_state, apply_rules, rule_matches,
}
use ensync.Rules.Engine.Occurs.{length-replicate, get_elem?-marks}
use ensync.Rules.Engine.Runs.{IsWellFormed, EngineFits, SwitchFits, Tests, apply_rules_total}
use ensync.Rules.Tree.{
  DirEngine, FileEngine, DirEngineBuilder, contains_all, subdir, matches_rule, file_engine,
  or_matched, contains, contains_all, build, descend, walk,
}

-- The walk as it is meant, with the path of the way gone so far as an argument: each file that is
-- shown, and each that is taken, is matched by its own path.
module _ {R : Type 0} (is_match : R → Text → Bool) where
  unfoldable see_at : Text → List File → DirEngineBuilder R → Option (DirEngineBuilder R)
  unfolding or_matched
  see_at p [] self = some self
  see_at p (f ∷ fs) self =
      or_matched is_match (p ++ (b'/' ∷ f.name)) f self.rules.rules self.rules_matched >>= λ ms.
      see_at p fs (record self { rules_matched = ms })

  unfoldable file_at : Text → DirEngine R → File → Option (FileEngine R)
  unfolding matches_rule
  file_at p self file =
      let path = p ++ (b'/' ∷ file.name) in
      apply_rules self.rules (λ s. s.files) (matches_rule is_match self.rules path file)
        (record (apply_switch (push_dir self.state file.name)) { path = [] })
      >>= λ e. some (record { rules = self.rules; state = record e { path = path } })

  unfoldable pub walk_at : Text → FileEngine R → List (List File × File) → Option (FileEngine R)
  unfolding see_at file_at
  walk_at p self [] = some self
  walk_at p self ((files, file) ∷ levels) = see_at p files (subdir self) >>= λ builder.
      build builder >>= λ dir.
      file_at p dir file >>= λ next. walk_at (p ++ (b'/' ∷ file.name)) next levels

-- The path that the names of the levels spell.
abbrev pub path_of : List (List File × File) → Text
path_of [] = []
path_of ((files, file) ∷ levels) = (b'/' ∷ file.name) ++ path_of levels

-- An engine over a well-formed rule set, at the path `p`.
pub record IsAt {R : Type 0} (p : Text) (self : FileEngine R) : Type 0 where
  pub well_formed : IsWellFormed self.rules
  pub fits : EngineFits (length self.rules.states) p self.state

apply_switch-EngineFits :
    (n : ℕ) (p : Text) (e : EngineState) → EngineFits n p e → EngineFits n p (apply_switch e)
unfolding apply_switch
apply_switch-EngineFits n p e f = by_switch e.switch f.switch
  where
    by_switch : (s : Option ℕ) → SwitchFits n s → EngineFits n p (switch_state s e)
    by_switch none h = f
    by_switch (some new) h = record { state = h; switch = tt; path = f.path }

push_dir-EngineFits :
    (n : ℕ) (p sub : Text) (e : EngineState)
    → EngineFits n p e
    → EngineFits n (p ++ (b'/' ∷ sub)) (push_dir e sub)
unfolding push_dir
push_dir-EngineFits n p sub e f = record {
  state = f.state;
  switch = f.switch;
  path = ap (λ t. t ++ (b'/' ∷ sub)) f.path;
}

module _ {R : Type 0} (is_match : R → Text → Bool) where
  matches_rule-Tests :
      (rules : SyncRules R) (p : Text) (file : File)
      → Tests (length rules.rules) (matches_rule is_match rules p file)
  unfolding matches_rule
  matches_rule-Tests rules p file r h = go rules.rules r h
    where
      go :
          (l : List (Rule R)) (r : ℕ)
          → r < length l
          → (b : Bool) × ((get_elem? l r >>= λ rule.
                some (rule_matches is_match rule p file.name file.fd))
              ≡ some b)
      go [] r h = elim h [ ]
      go (x ∷ l) zero h = (_, refl)
      go (x ∷ l) (suc r) h = go l r (omega arith)

  or_matched_total :
      (p : Text) (file : File) (rs : List (Rule R)) (ms : List Bool)
      → length ms ≡ length rs
      → (ms' : List Bool) × (or_matched is_match p file rs ms ≡ some ms') × (length ms' ≡ length rs)
  unfolding or_matched
  or_matched_total p file [] ms h = (ms, refl, h)
  or_matched_total p file (r ∷ rs) [] h = absurd (omega arith)
  or_matched_total p file (r ∷ rs) (m ∷ ms) h =
      let (ms', e, len) = or_matched_total p file rs ms (omega arith) in
      ((m || rule_matches is_match r p file.name file.fd) ∷ ms', rw e, ap suc len)

  -- A builder over a well-formed rule set, with a mark for each rule.
  pub record IsBuilder (p : Text) (self : DirEngineBuilder R) : Type 0 where
    pub well_formed : IsWellFormed self.rules
    pub marks : length self.rules_matched ≡ length self.rules.rules
    pub fits : EngineFits (length self.rules.states) p self.state

  pub contains_total :
      (p : Text) (f : File) (self : DirEngineBuilder R)
      → IsBuilder p self
      → (b : DirEngineBuilder R) × (contains is_match self f ≡ some b) × IsBuilder p b
  unfolding contains
  contains_total p f self h =
      let (ms, e, len) =
        or_matched_total (self.state.path ++ (b'/' ∷ f.name)) f self.rules.rules self.rules_matched
          h.marks in
      (
        record self { rules_matched = ms },
        rw e refl,
        record { well_formed = h.well_formed; marks = len; fits = h.fits },
      )

  contains_all_total :
      (p : Text) (files : List File) (self : DirEngineBuilder R)
      → IsBuilder p self
      → (b : DirEngineBuilder R) × (contains_all is_match self files ≡ some b) × IsBuilder p b
  unfolding contains_all
  contains_all_total p [] self h = (self, refl, h)
  contains_all_total p (f ∷ fs) self h =
      let (self', e, h') = contains_total p f self h in
      let (b, q, hb) = contains_all_total p fs self' h' in (b, rw e q, hb)

  contains_all-see_at :
      (p : Text) (files : List File) (self : DirEngineBuilder R)
      → IsBuilder p self
      → contains_all is_match self files ≡ see_at is_match p files self
  unfolding contains_all contains see_at
  contains_all-see_at p [] self h = refl
  contains_all-see_at p (f ∷ fs) self h =
      let path = self.state.path ++ (b'/' ∷ f.name) in
      let (ms, e, len) = or_matched_total path f self.rules.rules self.rules_matched h.marks in
      let here : or_matched is_match (p ++ (b'/' ∷ f.name)) f self.rules.rules self.rules_matched
          ≡ some ms =
        subst
          (λ q.
            or_matched is_match (q ++ (b'/' ∷ f.name)) f self.rules.rules self.rules_matched
            ≡ some ms)
          h.fits.path e in
      rw (e, here)
        (contains_all-see_at p fs (record self { rules_matched = ms })
          (record { well_formed = h.well_formed; marks = len; fits = h.fits }))

  file_engine-file_at :
      (p : Text) (self : DirEngine R) (file : File)
      → EngineFits (length self.rules.states) p self.state
      → file_engine is_match self file ≡ file_at is_match p self file
  unfolding file_engine file_at
  file_engine-file_at p self file f =
      let n = length self.rules.states in
      let e = apply_switch (push_dir self.state file.name) in
      let at =
        (apply_switch-EngineFits n _ _ (push_dir-EngineFits n p file.name self.state f)).path in
      ap
        (λ path.
          apply_rules self.rules (λ s. s.files) (matches_rule is_match self.rules path file)
            (record e { path = [] })
          >>= λ e'. some (record { rules = self.rules; state = record e' { path = path } }))
        at

  pub build_total :
      (p : Text) (self : DirEngineBuilder R)
      → IsBuilder p self
      → (d : DirEngine R) × (build self ≡ some d)
        × IsWellFormed d.rules
        × EngineFits (length d.rules.states) p d.state
  unfolding build
  build_total p self h =
      let (e, q, f) =
        apply_rules_total self.rules h.well_formed (λ r. get_elem? self.rules_matched r)
          (λ r lt. get_elem?-marks self.rules_matched r (omega (arith, h.marks))) p
          (λ s. s.siblings) (λ s g. g.1) self.state h.fits in
      (
        record { rules = self.rules; state = apply_switch e },
        rw q,
        h.well_formed,
        apply_switch-EngineFits _ p e f,
      )

  pub file_engine_total :
      (p : Text) (self : DirEngine R) (file : File)
      → IsWellFormed self.rules
      → EngineFits (length self.rules.states) p self.state
      → (fe : FileEngine R) × (file_engine is_match self file ≡ some fe)
        × IsAt (p ++ (b'/' ∷ file.name)) fe
  unfolding file_engine
  file_engine_total p self file w f =
      let n = length self.rules.states in
      let e = apply_switch (push_dir self.state file.name) in
      let here = apply_switch-EngineFits n _ _ (push_dir-EngineFits n p file.name self.state f) in
      let (e', q, f') =
        apply_rules_total self.rules w (matches_rule is_match self.rules e.path file)
          (matches_rule-Tests self.rules e.path file) [] (λ s. s.files) (λ s g. g.0)
          (record e { path = [] })
          (record { state = here.state; switch = here.switch; path = refl }) in
      (
        record { rules = self.rules; state = record e' { path = e.path } },
        run q,
        record {
          well_formed = w;
          fits = record { state = f'.state; switch = f'.switch; path = here.path };
        },
      )
    where
      run :
          {e' : EngineState}
          → apply_rules self.rules
              (λ s. s.files)
              (matches_rule is_match self.rules
                (apply_switch (push_dir self.state file.name)).path
                file)
              (record (apply_switch (push_dir self.state file.name)) { path = [] })
            ≡ some e'
          → file_engine is_match self file
            ≡ some (record {
              rules = self.rules;
              state = record e' { path = (apply_switch (push_dir self.state file.name)).path };
            })
      run q = rw q

  descend_total :
      (p : Text) (self : FileEngine R) (files : List File) (file : File)
      → IsAt p self
      → (fe : FileEngine R) × (descend is_match self files file ≡ some fe)
        × ((levels : List (List File × File))
            → walk_at is_match p self ((files, file) ∷ levels)
              ≡ walk_at is_match (p ++ (b'/' ∷ file.name)) fe levels)
        × IsAt (p ++ (b'/' ∷ file.name)) fe
  unfolding descend subdir walk_at
  descend_total p self files file h =
      let start : IsBuilder p (subdir self) = record {
        well_formed = h.well_formed;
        marks = length-replicate (length self.rules.rules);
        fits = h.fits;
      } in
      let (b, q, hb) = contains_all_total p files (subdir self) start in
      let (d, q', w, f) = build_total p b hb in
      let (fe, q'', at) = file_engine_total p d file w f in
      let seen = sym (contains_all-see_at p files (subdir self) start) ∙ q in
      let taken = sym (file_engine-file_at p d file f) ∙ q'' in
      (fe, rw (q, q', q''), λ levels. rw (seen, q', taken) refl, at)

  -- From a well-formed rule set, every way down the tree, whatever files its directories hold, ends
  -- in an engine for the last file: no index is out of range and no inclusion goes on for ever. The
  -- engine holds the path that the names spell, and is the one of `walk_at`, where the rules are
  -- matched, for each file that is shown or taken, against the path of this file: the names from the
  -- root on, each after a slash.
  pub walk_total :
      (p : Text) (self : FileEngine R) (levels : List (List File × File))
      → IsAt p self
      → (fe : FileEngine R) × (walk is_match self levels ≡ some fe)
        × (walk_at is_match p self levels ≡ some fe)
        × IsAt (p ++ path_of levels) fe
  unfolding walk walk_at
  walk_total p self [] h = (self, refl, refl, rw append-nil h)
  walk_total p self ((files, file) ∷ levels) h =
      let (next, q, s, at) = descend_total p self files file h in
      let (fe, q', s', at') = walk_total (p ++ (b'/' ∷ file.name)) next levels at in
      (fe, rw q q', s levels ∙ s', rw (← append_assoc p) at')
