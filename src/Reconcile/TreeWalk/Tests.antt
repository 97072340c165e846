-- ===== src/Reconcile/TreeWalk/Tests.antt =====
-- src/reconcile/tree_walk.rs: the theorems at concrete inputs.
use ensync.Base.{◌∷◌, refl, true, false, [], arith}
use ensync.Base.Text.{text_eq}
use ensync.Base.Map.{lookup}
use ensync.Rules.Engine.{engine_state_new}
use ensync.Rules.Engine.Runs.{IsWellFormed}
use ensync.Reconcile.Mutate.Ends.{Yields}
use ensync.Reconcile.Context.{name_in_use}
use ensync.Reconcile.Apply.SplitEffects.{names_of, in_use-contains}
use ensync.Reconcile.Plain.{plain, plain_ancestor, plain-HasHeights, name, edited}
use ensync.Reconcile.TreeWalk.{Walk, process_file}
use ensync.Replica.{ok, Replica}
use ensync.Rules.Tree.{DirEngineBuilder}
use ensync.Rules.Tree.Walk.{IsBuilder}
use ensync.Reconcile.Plain.{old_file}
use ensync.Reconcile.TreeWalk.Listing.{Opening, open_dir}
use ensync.Reconcile.TreeWalk.Opened.{IsOpened, open_dir-IsOpened}
use ensync.Reconcile.TreeWalk.Finish.{Finished, delete_or_mark_clean, delete_or_mark_clean-Finished}
use ensync.Reconcile.TreeWalk.Files.{FileDone, process_file-FileDone}

abbrev edited_walk : Walk Unit (λ r t. false) (λ e. false) plain plain_ancestor plain
edited_walk = record {
  dir = edited;
  state = record { success = true; empty = true; pending = 1; on_complete = 0; quiet = false };
  queued = [];
}

edited-IsWellFormed : IsWellFormed edited.rules.rules
edited-IsWellFormed = record {
  root = omega arith;
  all_states = (((omega arith, tt), tt), tt);
  all_rules = ((tt, (tt, tt)), tt);
}

process_file-FileDone_example :
    Yields (FileDone Unit (λ r t. false) (λ e. false) plain plain_ancestor plain name edited_walk) (
      process_file Unit
        (λ r t. false)
        (λ e. false)
        plain
        plain_ancestor
        plain
        false
        2
        []
        name
        edited_walk)
unfolding lookup text_eq plain-HasHeights names_of name_in_use engine_state_new
process_file-FileDone_example =
    process_file-FileDone Unit (λ r t. false) (λ e. false) plain plain_ancestor plain
      plain-HasHeights false 2 [] name edited_walk (omega arith) (name ∷ name ∷ name ∷ [])
      (in_use-contains Unit (λ e. false) plain plain_ancestor plain [] name edited) (omega arith)
      refl [] edited-IsWellFormed (record { state = omega arith; switch = tt; path = refl }) refl

delete_or_mark_clean-Finished_example :
    Finished Unit
      (λ e. false)
      plain
      plain_ancestor
      plain
      edited_walk.state
      edited
      (delete_or_mark_clean Unit (λ e. false) plain plain_ancestor plain edited_walk.state edited)
delete_or_mark_clean-Finished_example =
    delete_or_mark_clean-Finished Unit (λ e. false) plain plain_ancestor plain edited_walk.state
      edited

-- A client with one file.
abbrev listing : Replica Unit Unit
listing = record plain { list = λ (d, s). (ok ((name, old_file) ∷ []), (d, s)) }

abbrev new_builder : DirEngineBuilder Unit
new_builder = record {
  rules = edited.rules.rules;
  state = edited.rules.state;
  rules_matched = false ∷ [];
}

new_builder-IsBuilder : IsBuilder (λ r t. false) [] new_builder
unfolding engine_state_new
new_builder-IsBuilder = record {
  well_formed = edited-IsWellFormed;
  marks = refl;
  fits = record { state = omega arith; switch = tt; path = refl };
}

abbrev opening : Opening Unit listing plain_ancestor plain
opening = record {
  cli = record { dir = 2; files = []; state = tt };
  anc = record { dir = 2; files = []; state = tt };
  srv = record { dir = 2; files = []; state = tt };
  builder = new_builder;
  log = [];
}

open_dir-IsOpened_example :
    Yields
      (IsOpened
        (λ r t. false)
        (λ e. false)
        listing
        plain_ancestor
        plain
        plain-HasHeights
        []
        opening)
      (open_dir (λ r t. false) (λ e. false) listing plain_ancestor plain false opening)
open_dir-IsOpened_example =
    open_dir-IsOpened (λ r t. false) (λ e. false) listing plain_ancestor plain plain-HasHeights []
      false opening new_builder-IsBuilder
