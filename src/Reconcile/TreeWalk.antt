-- ===== src/Reconcile/TreeWalk.antt =====
-- src/reconcile/tree_walk.rs: what is done with each file of a directory, and with a directory when
-- its files are done. A task that the source queues is a value, `Subtask`.
pub mod Files
pub mod Finish
pub mod Listing
pub mod Opened
mod Tests
use ensync.Base.{
  ℕ, zero, suc, ◌+◌, ◌≡◌, Bool, true, false, ◌||◌, ◌&&◌, not, Option, none, some, List, [], ◌∷◌,
  ◌++◌, if◌then◌else◌,
}
use ensync.Base.Text.{Text}
use ensync.Base.Map.{Map, lookup, insert, contains_key}
use ensync.FileData.{FileData, File, FileMode, transrich_unix_mode}
use ensync.SyncMode.{SyncMode}
use ensync.Log.{
  Log, LogLevel, warn_level, info_level, edit_level, ReplicaSide, client_side, ancestor_side,
  server_side, into_side, chdir_op, mark_clean_op, rmdir_op, list_op,
}
use ensync.Log
use ensync.Replica.{Answer, ok, err, Run, done, panic, no_fuel, Replica, Ancestor, End}
use ensync.Rules.Tree.{
  DirEngine, FileEngine, DirEngineBuilder, file_engine, sync_mode, trusts_client_unix_mode,
}
use ensync.Reconcile.Choose.{
  Reconciliation, Conflict, no_conflict, ReconciliationSide, client, server, choose_reconciliation,
}
use ensync.Reconcile.Context.{DirContext}
use ensync.Reconcile.Mutate.Chain.{◌>>-◌}
use ensync.Reconcile.Mutate.{ApplyResult, clean, fail, recursive_delete, Logged, log_error}
use ensync.Reconcile.Apply.{apply_reconciliation}

-- `DirState`, with its counters as numbers.
pub record DirState : Type 0 where
  pub success : Bool
  pub empty : Bool
  pub pending : ℕ
  pub on_complete : ℕ
  pub quiet : Bool

-- `cli.or(anc).or(srv)`
abbrev pub or_else : Option FileData → Option FileData → Option FileData
or_else none y = y
or_else (some x) y = some x

-- The client's file takes over the permissions that it does not track.
unfoldable pub transriched :
    Bool → Option FileData → Option FileData → Option FileData → Option FileData
unfolding transrich_unix_mode
transriched true cli anc srv = cli
transriched false none anc srv = none
transriched false (some c) anc srv = elim (or_else srv anc) [
  | none ↦ some c
  | some other ↦ some (transrich_unix_mode c other)
]

-- `conflict > Conflict::NoConflict`
unfoldable pub inspect_level : Conflict → LogLevel
inspect_level no_conflict = info_level
inspect_level _ = warn_level

-- The directories that the three replicas gave, if all gave one.
abbrev pub all_three :
    {A B C D : Type 0} → Option A → Option B → Option C → (A → B → C → D) → Option D
all_three (some a) (some b) (some c) f = some (f a b c)
all_three _ _ _ f = none

module _ {X Y E : Type 0} (Rx : Type 0) (is_match : Rx → Text → Bool) (is_fatal : E → Bool)
    (CLI : Replica X E) (ANC : Ancestor Y E) (SRV : Replica X E) where
  abbrev Dir : Type 0
  Dir = DirContext CLI ANC SRV Rx

  -- What `recurse_and_then` queues: a directory, with what is to be done when it has succeeded, to
  -- mark it clean or to delete it if it is empty.
  pub record Subtask : Type 0 where
    pub cli_dir : CLI.Directory
    pub anc_dir : ANC.replica.Directory
    pub srv_dir : SRV.Directory
    pub file_rules : FileEngine Rx
    pub deletes : Bool

  -- The directory, its state, and what was queued for its children, the last first.
  pub record Walk : Type 0 where
    pub dir : Dir
    pub state : DirState
    pub queued : List Subtask

  -- `state.fail(..)`
  unfoldable pub fail_state : DirState → DirState
  fail_state s = record s { success = false }

  -- `self.recurse_and_then(cli_dir, anc_dir, srv_dir, file_rules, state, on_success)`
  unfoldable pub recurse_and_then : Subtask → Walk → Walk
  recurse_and_then t w = record w {
    state = record w.state { pending = w.state.pending + 1 };
    queued = t ∷ w.queued;
  }

  -- A directory that was entered, with what is logged otherwise.
  entered :
      (R : Replica X E)
      → Text
      → Text
      → ReplicaSide
      → Answer E R.Directory × R.State
      → End R × Logged E
      → Option R.Directory × (End R × Logged E)
  unfolding log_error
  entered R parent_name name side (ok sub, s) (e, log) = (some sub, (record e { state = s }, log))
  entered R parent_name name side (err x, s) (e, log) =
      (none, (record e { state = s }, log_error is_fatal side parent_name (chdir_op name) x log))

  -- `try_chdir(r, parent, parent_name, name, log, side)`
  unfoldable pub try_chdir :
      (R : Replica X E)
      → Text
      → Text
      → ReplicaSide
      → End R × Logged E
      → Option R.Directory × (End R × Logged E)
  unfolding entered
  try_chdir R parent_name name side (e, log) =
      entered R parent_name name side (R.chdir name (e.dir, e.state)) (e, log)

  -- The directory of the ancestor, or one that is made up; the error is not logged.
  unfoldable pub chdir_or_synth_ancestor :
      Text → FileMode → End ANC.replica → ANC.replica.Directory × End ANC.replica
  chdir_or_synth_ancestor name mode e = entered_or (ANC.replica.chdir name (e.dir, e.state))
    where
      entered_or :
          Answer E ANC.replica.Directory × ANC.replica.State
          → ANC.replica.Directory × End ANC.replica
      entered_or (ok sub, s) = (sub, record e { state = s })
      entered_or (err x, s) =
          let (sub, (d, s')) = ANC.replica.synthdir name mode (e.dir, s) in
          (sub, record e { dir = d; state = s' })

  -- `chdir_or_synth(r, dir, this_side, phys_side, log, parent_name, name, mode)`
  unfoldable pub chdir_or_synth :
      (R : Replica X E)
      → ReconciliationSide
      → ReconciliationSide
      → Text
      → Text
      → FileMode
      → End R × Logged E
      → Option R.Directory × (End R × Logged E)
  unfolding try_chdir
  chdir_or_synth R client client parent_name name mode w =
      try_chdir R parent_name name client_side w
  chdir_or_synth R server server parent_name name mode w =
      try_chdir R parent_name name server_side w
  chdir_or_synth R _ _ parent_name name mode (e, log) =
      let (sub, (d, s)) = R.synthdir name mode (e.dir, e.state) in
      (some sub, (record e { dir = d; state = s }, log))

  -- A subdirectory that all replicas gave is queued if it is dirty.
  queue_dirty : Option Subtask → Walk → Walk
  unfolding fail_state recurse_and_then
  queue_dirty none w = record w { state = fail_state w.state }
  queue_dirty (some t) w =
      if CLI.is_dir_dirty t.cli_dir w.dir.cli.state || SRV.is_dir_dirty t.srv_dir w.dir.srv.state
      then recurse_and_then t w
      else w

  subtask : FileEngine Rx → Bool → CLI.Directory → ANC.replica.Directory → SRV.Directory → Subtask
  subtask rules deletes c a s = record {
    cli_dir = c;
    anc_dir = a;
    srv_dir = s;
    file_rules = rules;
    deletes = deletes;
  }

  -- `try_chdir` of the ancestor.
  unfoldable pub try_chdir_ancestor :
      Text
      → Text
      → End ANC.replica × Logged E
      → Option ANC.replica.Directory × (End ANC.replica × Logged E)
  unfolding log_error
  try_chdir_ancestor parent_name name (e, log) =
      entered_ancestor (ANC.replica.chdir name (e.dir, e.state))
    where
      entered_ancestor :
          Answer E ANC.replica.Directory × ANC.replica.State
          → Option ANC.replica.Directory × (End ANC.replica × Logged E)
      entered_ancestor (ok sub, s) = (some sub, (record e { state = s }, log))
      entered_ancestor (err x, s) = (
        none,
        (
          record e { state = s },
          log_error is_fatal ancestor_side parent_name (chdir_op name) x log,
        ),
      )

  -- `self.recurse_into_dir(dir, parent_name, name, file_rules, state)`
  unfoldable pub recurse_into_dir : Text → Text → FileEngine Rx → Walk → Walk
  unfolding try_chdir try_chdir_ancestor queue_dirty subtask
  recurse_into_dir parent_name name rules w =
      let (c, (cli, l)) = try_chdir CLI parent_name name client_side (w.dir.cli, w.dir.log) in
      let (a, (anc, l')) = try_chdir_ancestor parent_name name (w.dir.anc, l) in
      let (s, (srv, l'')) = try_chdir SRV parent_name name server_side (w.dir.srv, l') in
      queue_dirty (all_three c a s (subtask rules false))
        (record w { dir = record w.dir { cli = cli; anc = anc; srv = srv; log = l'' } })

  queue_delete : ReconciliationSide → Option Subtask → Walk → Walk
  unfolding fail_state recurse_and_then
  queue_delete side none w = record w { state = fail_state w.state }
  queue_delete side (some t) w = recurse_and_then t (record w {
    dir = record w.dir {
      log =
          w.dir.log
          ++ (edit_level, Log.recursive_delete (into_side side) (CLI.full_path t.cli_dir)) ∷ [];
    };
  })

  -- `self.recursive_delete(dir, parent_name, name, file_rules, state, side, mode)`
  unfoldable pub delete_recursively :
      Text → Text → FileEngine Rx → ReconciliationSide → FileMode → Walk → Walk
  unfolding chdir_or_synth chdir_or_synth_ancestor queue_delete subtask into_side
  delete_recursively parent_name name rules side mode w =
      let (c, (cli, l)) =
        chdir_or_synth CLI client side parent_name name mode (w.dir.cli, w.dir.log) in
      let (a, anc) = chdir_or_synth_ancestor name mode w.dir.anc in
      let (s, (srv, l')) = chdir_or_synth SRV server side parent_name name mode (w.dir.srv, l) in
      queue_delete side (all_three c (some a) s (subtask rules true))
        (record w { dir = record w.dir { cli = cli; anc = anc; srv = srv; log = l' } })

  -- No table has the name.
  unfoldable pub is_gone : Text → Dir → Bool
  is_gone name dir =
      not (contains_key name dir.cli.files)
      && (not (contains_key name dir.anc.files) && not (contains_key name dir.srv.files))

  -- What becomes of the directory's state and queue after a file.
  unfoldable pub after_file : Text → Text → FileEngine Rx → Walk → ApplyResult × Dir → Walk
  unfolding is_gone fail_state recurse_into_dir delete_recursively
  after_file dir_path name rules w (clean false, dir) = record w {
    dir = dir;
    state = record w.state { empty = w.state.empty && is_gone name dir };
  }
  after_file dir_path name rules w (fail, dir) = record w { dir = dir; state = fail_state w.state }
  after_file dir_path name rules w (clean true, dir) =
      recurse_into_dir dir_path name rules
        (record w { dir = dir; state = record w.state { empty = false } })
  after_file dir_path name rules w (recursive_delete side mode, dir) =
      delete_recursively dir_path name rules side mode (record w { dir = dir })

  -- What was chosen is logged.
  abbrev pub inspected : Text → Text → Reconciliation → Conflict → Dir → Dir
  inspected dir_path name recon conflict dir = record dir {
    log = dir.log ++ (inspect_level conflict, Log.inspect dir_path name recon conflict) ∷ [];
  }

  -- The file with its rules is reconciled.
  unfoldable pub reconcile_file : Bool → ℕ → Text → Text → FileEngine Rx → Walk → Run Walk
  unfolding transriched after_file
  reconcile_file interrupted depth dir_path name rules w =
      let dir = w.dir in
      let anc = lookup name dir.anc.files in
      let srv = lookup name dir.srv.files in
      let cli = transriched (trusts_client_unix_mode rules) (lookup name dir.cli.files) anc srv in
      let chosen = choose_reconciliation cli anc srv (sync_mode rules) in
      apply_reconciliation Rx is_fatal CLI ANC SRV interrupted depth dir_path name chosen.0 cli srv
        (inspected dir_path name chosen.0 chosen.1 dir)
      >>- λ r. done (after_file dir_path name rules w r)

  with_rules : Bool → ℕ → Text → Text → Option (FileEngine Rx) → Walk → Run Walk
  unfolding reconcile_file
  with_rules interrupted depth dir_path name none w = panic
  with_rules interrupted depth dir_path name (some rules) w =
      reconcile_file interrupted depth dir_path name rules w

  shown_file : Bool → ℕ → Text → Text → Option FileData → Walk → Run Walk
  unfolding with_rules
  shown_file interrupted depth dir_path name none w = panic
  shown_file interrupted depth dir_path name (some fd) w =
      with_rules interrupted depth dir_path name
        (file_engine is_match w.dir.rules (record { name = name; fd = fd })) w

  -- `self.process_file(dir, dir_path, name, dirstate)`
  unfoldable pub process_file : Bool → ℕ → Text → Text → Walk → Run Walk
  unfolding shown_file
  process_file interrupted depth dir_path name w =
      shown_file interrupted depth dir_path name
        (or_else (lookup name w.dir.cli.files)
          (or_else (lookup name w.dir.anc.files) (lookup name w.dir.srv.files)))
        w
