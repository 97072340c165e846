-- ===== src/Reconcile/Apply.antt =====
-- src/reconcile/mutate.rs: `apply_reconciliation`. `interrupted` is the flag of src/interrupt.rs.
pub mod Effects
pub mod Splits
pub mod SplitEffects
mod Tests
use ensync.Base.{
  ℕ, zero, suc, Bool, true, false, ◌||◌, ◌&&◌, not, Option, none, some, List, [], ◌∷◌, ◌++◌,
  if◌then◌else◌,
}
use ensync.Base.Text.{Text}
use ensync.Base.Map.{Map, lookup, contains_key}
use ensync.FileData.{FileData, is_dir}
use ensync.Log.{ReplicaSide, client_side, ancestor_side, server_side, access_op}
use ensync.Replica.{Answer, ok, err, Run, done, panic, no_fuel, Replica, Ancestor, End}
use ensync.Reconcile.Choose.{
  is_special, Reconciliation, in_sync, unsync, irreconcilable, use_side, split, ReconciliationSide,
  client, server, SplitAncestorState,
}
use ensync.Reconcile.Choose
use ensync.Reconcile.AlternateName.{gen_alternate_name}
use ensync.Reconcile.Context.{
  DirContext, name_in_use, to_server, from_server, to_client, from_client,
}
use ensync.Reconcile.Mutate.Chain.{M, within, ◌>>-◌, and_then, to_bool, call}
use ensync.Reconcile.Mutate.{
  ApplyResult, clean, fail, recursive_delete, Logged, log_error, try_rename_replica, World,
  try_replace_ancestor, Used, apply_use,
}

module _ {X Y E : Type 0} (Rx : Type 0) (is_fatal : E → Bool) (CLI : Replica X E)
    (ANC : Ancestor Y E) (SRV : Replica X E) where
  abbrev pub Dir : Type 0
  Dir = DirContext CLI ANC SRV Rx

  -- `self.should_stop()`
  unfoldable pub should_stop : Bool → Dir → Bool
  should_stop interrupted dir =
      interrupted
      || (CLI.is_fatal dir.cli.state
          || (ANC.replica.is_fatal dir.anc.state || SRV.is_fatal dir.srv.state))

  -- `try_replace_ancestor(&self.anc, &mut dir.anc.dir, &mut dir.anc.files, ..)`
  unfoldable pub set_ancestor : ℕ → Text → Text → Option FileData → Dir → Run (Bool × Dir)
  unfolding try_replace_ancestor
  set_ancestor depth dir_name name new dir =
      try_replace_ancestor is_fatal CLI ANC SRV depth dir_name name (lookup name dir.anc.files) new
        (to_client dir)
      >>- λ (b, w). done (b, from_client dir w)

  -- `condemn` and `uncondemn`, with what is logged on an error.
  unfoldable pub access :
      (ANC.replica.Directory × ANC.replica.State
        → Answer E Unit × (ANC.replica.Directory × ANC.replica.State))
      → Text
      → Text
      → Dir
      → Run (Bool × Dir)
  unfolding log_error
  access op dir_name name dir =
      to_bool (within (λ e. record dir { anc = e }) (call op dir.anc)) (λ x d. record d {
        log = log_error is_fatal ancestor_side dir_name (access_op name) x d.log;
      })

  unfoldable pub rename_end : ReconciliationSide → Text → Text → Text → Dir → Run (Bool × Dir)
  unfolding try_rename_replica
  rename_end client dir_name name new_name dir =
      try_rename_replica is_fatal CLI dir_name name new_name client_side (dir.cli, dir.log)
      >>- λ (b, (e, l)). done (b, record dir { cli = e; log = l })
  rename_end server dir_name name new_name dir =
      try_rename_replica is_fatal SRV dir_name name new_name server_side (dir.srv, dir.log)
      >>- λ (b, (e, l)). done (b, record dir { srv = e; log = l })

  unfoldable pub rename_ancestor : Text → Text → Text → Dir → Run (Bool × Dir)
  unfolding try_rename_replica
  rename_ancestor dir_name name new_name dir =
      if contains_key name dir.anc.files
      then (try_rename_replica is_fatal ANC.replica dir_name name new_name ancestor_side
            (dir.anc, dir.log)
          >>- λ (b, (e, l)). done (b, record dir { anc = e; log = l }))
      else done (true, dir)

  -- The three steps of a split: the ancestor is removed or condemned, the end is renamed, and the
  -- ancestor is renamed and no longer condemned.
  unfoldable pub part_ancestor : ℕ → SplitAncestorState → Text → Text → Dir → Run (Bool × Dir)
  unfolding set_ancestor access
  part_ancestor depth Choose.delete dir_name name dir = set_ancestor depth dir_name name none dir
  part_ancestor depth Choose.move dir_name name dir = access (ANC.condemn name) dir_name name dir

  unfoldable pub rejoin_ancestor : SplitAncestorState → Text → Text → Text → Dir → Run (Bool × Dir)
  unfolding rename_ancestor access
  rejoin_ancestor Choose.delete dir_name name new_name dir = done (true, dir)
  rejoin_ancestor Choose.move dir_name name new_name dir =
      and_then (rename_ancestor dir_name name new_name dir)
        (access (ANC.uncondemn name) dir_name name)

  unfoldable pub split_files :
      ℕ → ReconciliationSide → SplitAncestorState → Text → Text → Text → Dir → Run (Bool × Dir)
  unfolding part_ancestor rename_end rejoin_ancestor
  split_files depth side anc_state dir_name name new_name dir =
      and_then
        (and_then (part_ancestor depth anc_state dir_name name dir)
          (rename_end side dir_name name new_name))
        (rejoin_ancestor anc_state dir_name name new_name)

  -- Both names are processed again.
  requeue : Text → Text → Bool × Dir → Run (ApplyResult × Dir)
  requeue name new_name (true, dir) =
      done (clean false, record dir { todo = new_name ∷ name ∷ dir.todo })
  requeue name new_name (false, dir) = done (fail, dir)

  unfoldable pub apply_split :
      ℕ
      → ReconciliationSide
      → SplitAncestorState
      → Text
      → Text
      → Option Text
      → Dir
      → Run (ApplyResult × Dir)
  unfolding split_files requeue
  apply_split depth side anc_state dir_name name none dir = panic
  apply_split depth side anc_state dir_name name (some new_name) dir =
      split_files depth side anc_state dir_name name new_name dir >>- requeue name new_name

  written : Option FileData → Bool × Dir → Run (ApplyResult × Dir)
  written new (false, dir) = done (fail, dir)
  written new (true, dir) = done (clean (is_dir new), dir)

  -- The end of `apply_reconciliation`: the ancestor is written last.
  unfoldable pub write_back :
      ℕ
      → Text
      → Text
      → Answer ApplyResult (Option (Option FileData)) × Dir
      → Run (ApplyResult × Dir)
  unfolding set_ancestor written
  write_back depth dir_name name (err r, dir) = done (r, dir)
  write_back depth dir_name name (ok none, dir) = done (clean false, dir)
  write_back depth dir_name name (ok (some new), dir) =
      set_ancestor depth dir_name name new dir >>- written new

  -- In sync: the ancestor is to hold the file. If that is a special file, the ancestor's `create` and
  -- `update` panic (`as_entry` of src/ancestor/replica.rs), which is written here, as the operations of
  -- a replica do not panic; errors that these calls can meet before are left out in that case. Of the
  -- panics of the replicas on special files, only this one is behind `choose_reconciliation`.
  unfoldable pub apply_recon :
      ℕ
      → Text
      → Text
      → Reconciliation
      → Option FileData
      → Option FileData
      → Dir
      → Run (ApplyResult × Dir)
  unfolding write_back apply_use apply_split name_in_use
  apply_recon depth dir_name name in_sync old_cli old_srv dir =
      if is_special old_cli then panic else write_back depth dir_name name (ok (some old_cli), dir)
  apply_recon depth dir_name name unsync old_cli old_srv dir = done (clean false, dir)
  apply_recon depth dir_name name irreconcilable old_cli old_srv dir = done (clean false, dir)
  apply_recon depth dir_name name (use_side client) old_cli old_srv dir =
      apply_use is_fatal SRV ANC CLI depth dir_name name old_srv old_cli server (to_server dir)
      >>- λ (r, w). write_back depth dir_name name (r, from_server dir w)
  apply_recon depth dir_name name (use_side server) old_cli old_srv dir =
      apply_use is_fatal CLI ANC SRV depth dir_name name old_cli old_srv client (to_client dir)
      >>- λ (r, w). write_back depth dir_name name (r, from_client dir w)
  apply_recon depth dir_name name (split side anc_state) old_cli old_srv dir =
      apply_split depth side anc_state dir_name name (gen_alternate_name name (name_in_use dir)) dir

  -- `self.apply_reconciliation(dir, dir_name, name, recon, old_cli, old_srv)`
  unfoldable pub apply_reconciliation :
      Bool
      → ℕ
      → Text
      → Text
      → Reconciliation
      → Option FileData
      → Option FileData
      → Dir
      → Run (ApplyResult × Dir)
  unfolding apply_recon should_stop
  apply_reconciliation interrupted depth dir_name name recon old_cli old_srv dir =
      if should_stop interrupted dir
      then done (fail, dir)
      else apply_recon depth dir_name name recon old_cli old_srv dir
