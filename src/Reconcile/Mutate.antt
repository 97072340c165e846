-- ===== src/Reconcile/Mutate.antt =====
-- src/reconcile/mutate.rs: a reconciliation is applied to the three replicas. `depth` bounds the
-- recursion into a directory of the ancestor that is replaced by something else.
pub mod Chain
pub mod Ends
pub mod Depth
pub mod Tables
pub mod Uses
pub mod ReplaceAncestor
use ensync.Base.{
  ℕ, zero, suc, Bool, true, false, ◌||◌, ◌&&◌, not, Option, none, some, List, [], ◌∷◌, ◌++◌,
  if◌then◌else◌,
}
use ensync.Base.Text.{Text}
use ensync.Base.Map.{Map, lookup, insert, erase, contains_key}
use ensync.FileData.{FileData, directory, File, FileMode, is_dir, file_eq}
use ensync.Log.{
  Log, LogLevel, edit_level, level_of, ReplicaSide, client_side, ancestor_side, server_side,
  into_side, ErrorOperation, create_op, update_op, rename_op, remove_op, access_op,
}
use ensync.Log
use ensync.Replica.{Answer, ok, err, Run, done, panic, no_fuel, Replica, Ancestor, End}
use ensync.Reconcile.Choose.{
  Reconciliation, in_sync, unsync, irreconcilable, use_side, split, ReconciliationSide, client,
  server, SplitAncestorState,
}
use ensync.Reconcile.Choose
use ensync.Reconcile.AlternateName.{gen_alternate_name}
use ensync.Reconcile.Mutate.Chain.{
  M, ◌>>=◌, within, ◌>>-◌, and_then, to_bool, on_error, take_out, put_new, put_over, move_entry,
  call,
}
use ensync.Reconcile.Mutate.ReplaceAncestor.{replace_ancestor}

-- `ApplyResult`
pub data ApplyResult : Type 0 where
  clean : Bool → ApplyResult
  fail : ApplyResult
  recursive_delete : ReconciliationSide → FileMode → ApplyResult

-- What a logger has been sent.
abbrev pub Logged : Type 0 → Type 0
Logged E = List (LogLevel × Log E)

abbrev pub is_none : {A : Type 0} → Option A → Bool
is_none none = true
is_none (some _) = false

-- `Error::is_fatal` of src/errors.rs is a parameter.
module _ {E : Type 0} (is_fatal : E → Bool) where
  unfoldable pub log_error : ReplicaSide → Text → ErrorOperation → E → Logged E → Logged E
  log_error side dir_name op e log =
      log ++ (level_of (is_fatal e), Log.error side dir_name op e) ∷ []

  -- `try_rename_replica(replica, dir, files, dir_name, old_name, new_name, log, side)`
  unfoldable pub try_rename_replica :
      {X : Type 0} (R : Replica X E)
      → Text
      → Text
      → Text
      → ReplicaSide
      → End R × Logged E
      → Run (Bool × (End R × Logged E))
  unfolding log_error move_entry
  try_rename_replica R dir_name old new side (e, log) =
      let log' = log ++ (edit_level, Log.rename side dir_name old new) ∷ [] in
      to_bool
        (on_error (λ x (e', l). (e', log_error side dir_name (rename_op old) x l))
            (within (λ e'. (e', log')) (call (R.rename old new) e))
          >>= λ (_, (e', l)). within (λ e''. (e'', l)) (move_entry old new e'))
        (λ x w. w)

-- The replica that changes, the ancestor, and the replica that the change comes from.
pub record World {X Y E : Type 0} (DST : Replica X E) (ANC : Ancestor Y E) (SRC : Replica X E)
    : Type 0 where
  pub dst : End DST
  pub anc : End ANC.replica
  pub src : End SRC
  pub log : Logged E

module _ {X Y E : Type 0} (is_fatal : E → Bool) (DST : Replica X E) (ANC : Ancestor Y E)
    (SRC : Replica X E) where
  abbrev pub W : Type 0
  W = World DST ANC SRC

  abbrev pub say : Log E → W → W
  say what w = record w { log = w.log ++ (edit_level, what) ∷ [] }

  abbrev pub on_dst : {A : Type 0} → (End DST → M E (End DST) A) → W → M E W A
  on_dst f w = within (λ e. record w { dst = e }) (f w.dst)

  -- `src.transfer(src_dir, File(name, newfd))?`
  unfoldable pub transferred : Text → FileData → W → M E W X
  transferred name newfd w =
      within (λ s. record w { src = record w.src { state = s } })
        (done (SRC.transfer (record { name = name; fd = newfd }) (w.src.dir, w.src.state)))

  abbrev pub failed : ReplicaSide → Text → ErrorOperation → E → W → W
  failed side dir_name op x w = record w { log = log_error is_fatal side dir_name op x w.log }

  -- The `match` of `replace_replica`. The answer is the file as it is now.
  unfoldable pub change_replica :
      Text → Text → ReplicaSide → Option FileData → Option FileData → W → M E W (Option FileData)
  unfolding transferred take_out put_new put_over log_error
  change_replica dir_name name side none none w = done (ok none, w)
  change_replica dir_name name side (some oldfd) none w =
      on_error (failed side dir_name (remove_op name)) (
        on_dst (call (DST.remove (record { name = name; fd = oldfd })))
          (say (Log.remove side dir_name name oldfd) w))
      >>= λ (_, w'). on_dst (take_out name) w' >>= λ (_, w''). done (ok none, w'')
  change_replica dir_name name side (some oldfd) (some newfd) w =
      transferred name newfd (say (Log.update side dir_name name oldfd newfd) w) >>= λ (x, w').
      on_error (failed side dir_name (update_op name))
        (on_dst (call (DST.update name oldfd newfd x)) w')
      >>= λ (r, w''). on_dst (put_over name r) w'' >>= λ (_, w3). done (ok (some r), w3)
  change_replica dir_name name side none (some newfd) w =
      transferred name newfd (say (Log.create side dir_name name newfd) w) >>= λ (x, w').
      on_error (failed side dir_name (create_op name))
        (on_dst (call (DST.create (record { name = name; fd = newfd }) x)) w')
      >>= λ (r, w''). on_dst (put_new name r) w'' >>= λ (_, w3). done (ok (some r), w3)

  -- `replace_replica(dst, .., src, .., dir_name, name, old, new, log, side)`
  unfoldable pub replace_replica :
      Text → Text → ReplicaSide → Option FileData → Option FileData → W → M E W (Option FileData)
  unfolding change_replica
  replace_replica dir_name name side old new w =
      if file_eq old new then done (ok old, w) else change_replica dir_name name side old new w

  -- `try_replace_ancestor(replica, in_dir, files, dir_name, name, old, new, log)`
  unfoldable pub try_replace_ancestor :
      ℕ → Text → Text → Option FileData → Option FileData → W → Run (Bool × W)
  unfolding log_error replace_ancestor
  try_replace_ancestor depth dir_name name old new w =
      to_bool (within (λ e. record w { anc = e }) (replace_ancestor ANC depth name old new w.anc))
        (failed ancestor_side dir_name (update_op name))

  -- `dir_mode`
  unfoldable pub dir_mode : Option FileData → Option FileMode
  dir_mode (some (directory mode)) = some mode
  dir_mode _ = none

  -- What `apply_use` answers: the file as it is now, or the result of the whole.
  abbrev pub Used : Type 0
  Used = Answer ApplyResult (Option (Option FileData))

  after_clearing : ReconciliationSide → Option FileMode → Bool × W → Run (Used × W)
  after_clearing side none (true, w) = panic
  after_clearing side (some mode) (true, w) = done (err (recursive_delete side mode), w)
  after_clearing side mode (false, w) = done (err fail, w)

  after_replacing : M E W (Option FileData) → Run (Used × W)
  after_replacing (done (ok r, w)) = done (ok (some r), w)
  after_replacing (done (err x, w)) = done (err fail, w)
  after_replacing panic = panic
  after_replacing no_fuel = no_fuel

  -- `apply_use(dst, .., anc, .., src, .., dir_name, name, old_dst, old_src, log, side)`
  unfoldable pub apply_use :
      ℕ → Text → Text → Option FileData → Option FileData → ReconciliationSide → W → Run (Used × W)
  unfolding after_clearing after_replacing dir_mode try_replace_ancestor replace_replica
  apply_use depth dir_name name old_dst old_src side w =
      if is_dir old_dst && is_none old_src
      then (try_replace_ancestor depth dir_name name (lookup name w.anc.files) old_dst w
          >>- after_clearing side (dir_mode old_dst))
      else if is_dir old_src || not (is_dir old_dst)
      then after_replacing (replace_replica dir_name name (into_side side) old_dst old_src w)
      else panic
