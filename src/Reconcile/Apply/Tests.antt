-- ===== src/Reconcile/Apply/Tests.antt =====
-- src/reconcile/mutate.rs: `apply_reconciliation` over replicas that keep no files of their own and
-- whose calls succeed, and the theorems at concrete inputs.
use ensync.Base.{refl, false, some, [], ◌∷◌, arith}
use ensync.Base.Text.{text_eq}
use ensync.Base.Map.{lookup}
use ensync.FileData.{file_eq, is_dir}
use ensync.Reconcile.Choose.{in_sync, use_side, split, client, server, delete, rev}
use ensync.Reconcile.Mutate.Ends.{Yields}
use ensync.FileData.{directory}
use ensync.Base.{arith}
use ensync.Replica.{ok, Replica, Ancestor}
use ensync.Reconcile.Mutate.Depth.{HasHeights, Lower, remove_recursively-Lower}
use ensync.Reconcile.Mutate.ReplaceAncestor.{remove_recursively}
use ensync.Reconcile.Plain.{
  below-lower, plain, plain_ancestor, plain-HasHeights, old_file, new_file, name, edited,
}
use ensync.Reconcile.Apply.{apply_reconciliation}
use ensync.Reconcile.Apply.Effects.{
  Effect, InSyncEffect, apply_reconciliation-Effect, apply_reconciliation-in_sync,
}
use ensync.Reconcile.Apply.SplitEffects.{
  SplitEffect, names_of, in_use-contains, apply_reconciliation-SplitEffect,
}

apply_reconciliation-Effect_example :
    Yields
      (Effect Unit
        (λ e. false)
        plain
        plain_ancestor
        plain
        plain-HasHeights
        name
        (some old_file)
        (some new_file)
        server
        edited)
      (apply_reconciliation Unit
        (λ e. false)
        plain
        plain_ancestor
        plain
        false
        2
        []
        name
        (use_side client)
        (some new_file)
        (some old_file)
        edited)
unfolding rev lookup text_eq file_eq is_dir plain-HasHeights
apply_reconciliation-Effect_example =
    apply_reconciliation-Effect Unit (λ e. false) plain plain_ancestor plain plain-HasHeights false
      2 [] name client (some new_file) (some old_file) edited (omega arith) refl refl (λ q. cc)

apply_reconciliation-in_sync_example :
    Yields
      (InSyncEffect Unit
        (λ e. false)
        plain
        plain_ancestor
        plain
        plain-HasHeights
        name
        (some new_file)
        edited)
      (apply_reconciliation Unit
        (λ e. false)
        plain
        plain_ancestor
        plain
        false
        2
        []
        name
        in_sync
        (some new_file)
        (some new_file)
        edited)
unfolding plain-HasHeights
apply_reconciliation-in_sync_example =
    apply_reconciliation-in_sync Unit (λ e. false) plain plain_ancestor plain plain-HasHeights false
      2 [] name (some new_file) (some new_file) edited (omega arith) refl

apply_reconciliation-SplitEffect_example :
    Yields
      (SplitEffect Unit
        (λ e. false)
        plain
        plain_ancestor
        plain
        []
        name
        server
        delete
        old_file
        edited)
      (apply_reconciliation Unit
        (λ e. false)
        plain
        plain_ancestor
        plain
        false
        2
        []
        name
        (split server delete)
        (some new_file)
        (some old_file)
        edited)
unfolding lookup text_eq plain-HasHeights names_of
apply_reconciliation-SplitEffect_example =
    apply_reconciliation-SplitEffect Unit (λ e. false) plain plain_ancestor plain [] name
      plain-HasHeights false 2 server delete (some new_file) (some old_file) old_file edited
      (omega arith) refl (name ∷ name ∷ name ∷ [])
      (in_use-contains Unit (λ e. false) plain plain_ancestor plain [] name edited) (omega arith)

-- A directory with a subdirectory, at each level.
abbrev nested : Replica Unit Unit
nested = record plain { list = λ (d, s). (ok ((name, directory 448) ∷ []), (d, s)) }

abbrev nested_ancestor : Ancestor Unit Unit
nested_ancestor = record {
  replica = nested;
  null_transfer = λ fd. tt;
  condemn = λ n w. (ok tt, w);
  uncondemn = λ n w. (ok tt, w);
}

unfoldable nested-HasHeights : HasHeights nested
nested-HasHeights = record {
  height = λ d. d;
  chdir_lower = λ n d s sub s' q. below-lower d s sub s' q;
  list_height = λ d s. omega arith;
  remove_height = λ f d s. omega arith;
}

remove_recursively-Lower_example :
    Lower nested_ancestor nested-HasHeights 2 (remove_recursively nested_ancestor 3 (2, tt))
unfolding nested-HasHeights
remove_recursively-Lower_example =
    remove_recursively-Lower nested_ancestor nested-HasHeights 3 (2, tt) (omega arith)
