-- ===== src/Rules/Tree/Single.antt =====
-- src/rules/engine.rs: the rule set of a single mode.
use ensync.Base.{◌≡◌, refl, Bool, true, false, none, some, List, [], ◌∷◌, ◌++◌}
use ensync.Base.Text.{Text}
use ensync.FileData.{File}
use ensync.SyncMode.{SyncMode}
use ensync.Rules.Engine.{
  EngineState, apply_switch, push_dir, apply_rules, apply_rules_impl, visit_state, rules_loop,
  visit_rule, apply_actions, apply_action, rule_matches,
}
use ensync.Rules.Tree.{
  FileEngine, single_mode, file_engine_new, sync_mode, trusts_client_unix_mode, subdir,
  matches_rule, run_files, file_engine, or_matched, contains, contains_all, build, descend, walk,
}

module _ {R : Type 0} (is_match : R → Text → Bool) (m : SyncMode) (trust : Bool) where
  -- An engine of the single state, with any mode so far.
  abbrev standing : SyncMode → Bool → Text → EngineState
  standing m' t' p = record {
    mode = m';
    trust_client_unix_mode = t';
    state = 0;
    switch = none;
    path = p;
  }

  abbrev engine_at : SyncMode → Bool → Text → FileEngine R
  engine_at m' t' p = record { rules = single_mode m trust; state = standing m' t' p }

  file_engine-single :
      (m' : SyncMode) (t' : Bool) (p : Text) (file : File)
      → file_engine is_match (record { rules = single_mode m trust; state = standing m' t' p }) file
        ≡ some (engine_at m trust (p ++ (b'/' ∷ file.name)))
  unfolding file_engine run_files matches_rule apply_rules apply_rules_impl visit_state rules_loop
      visit_rule apply_actions apply_action rule_matches apply_switch push_dir
  file_engine-single m' t' p file = refl

  contains_all-single :
      (e : EngineState) (files : List File) (b : Bool)
      → (b' : Bool) × (contains_all is_match
            (record { rules = single_mode m trust; state = e; rules_matched = b ∷ [] })
            files
          ≡ some (record { rules = single_mode m trust; state = e; rules_matched = b' ∷ [] }))
  unfolding contains_all contains or_matched
  contains_all-single e [] b = (b, refl)
  contains_all-single e (f ∷ fs) b = contains_all-single e fs _

  build-single :
      (m' : SyncMode) (t' : Bool) (p : Text) (b : Bool)
      → build {R = R}
          (record { rules = single_mode m trust; state = standing m' t' p; rules_matched = b ∷ [] })
        ≡ some (record { rules = single_mode m trust; state = standing m' t' p })
  unfolding build apply_rules apply_rules_impl visit_state rules_loop apply_switch
  build-single m' t' p b = refl

  descend-single :
      (m' : SyncMode) (t' : Bool) (p : Text) (files : List File) (file : File)
      → descend is_match (engine_at m' t' p) files file
        ≡ some (engine_at m trust (p ++ (b'/' ∷ file.name)))
  unfolding descend subdir
  descend-single m' t' p files file =
      let (b, q) = contains_all-single (standing m' t' p) files false in
      rw (q, build-single m' t' p b, file_engine-single m' t' p file)

  walk-single_on :
      (p : Text) (levels : List (List File × File))
      → (q : Text) × (walk is_match (engine_at m trust p) levels ≡ some (engine_at m trust q))
  unfolding walk
  walk-single_on p [] = (p, refl)
  walk-single_on p ((files, file) ∷ levels) =
      let (q, e) = walk-single_on (p ++ (b'/' ∷ file.name)) levels in
      (q, rw (descend-single m trust p files file) e)

  -- With the rules of a single mode, every file below the root has that mode and that setting for
  -- the trust in the client's permissions, whatever the directories hold.
  pub walk-single_mode :
      (files : List File) (file : File) (levels : List (List File × File))
      → (fe : FileEngine R) × (walk is_match
            (file_engine_new (single_mode m trust))
            ((files, file) ∷ levels)
          ≡ some fe)
        × (sync_mode fe ≡ m)
        × (trusts_client_unix_mode fe ≡ trust)
  unfolding walk file_engine_new sync_mode trusts_client_unix_mode
  walk-single_mode files file levels =
      let (q, e) = walk-single_on (b'/' ∷ file.name) levels in
      (engine_at m trust q, rw (descend-single _ true [] files file) e, refl, refl)
