-- ===== src/Reconcile/TreeWalk/Files.antt =====
-- src/reconcile/tree_walk.rs: `process_file`.
use ensync.Base.{
  ℕ, ◌+◌, ◌-◌, ◌^◌, ◌≤◌, ◌<◌, ◌≡◌, refl, sym, ap, ◌∙◌, ◌⊎◌, Bool, true, false, ◌||◌, ◌&&◌, Option,
  none, some, List, ◌∷◌, length, arith, Bool-cases, inl, inr,
}
use ensync.Base.Text.{Text}
use ensync.Base.Map.{lookup, is_some, contains_key}
use ensync.FileData.{FileData}
use ensync.SyncMode.{SyncMode}
use ensync.Reconcile.Choose.Agreement.{choose_in_sync, SameData-is_special}
use ensync.FileData.{transrich_unix_mode}
use ensync.Replica.{Replica, Ancestor}
use ensync.Rules.Tree.{FileEngine, sync_mode, trusts_client_unix_mode}
use ensync.Rules.Tree.Walk.{file_engine_total}
use ensync.Rules.Engine.Runs.{IsWellFormed, EngineFits}
use ensync.Reconcile.Choose.{
  is_special, Reconciliation, in_sync, unsync, irreconcilable, use_side, split, rev,
  ReconciliationSide, client, server, choose_reconciliation,
}
use ensync.Reconcile.Choose.Applicable.{IsApplicable, choose_reconciliation-IsApplicable}
use ensync.Reconcile.Context.{DirContext, name_in_use}
use ensync.Reconcile.Mutate.Ends.{Yields, yields, bind-Yields, weaken-Yields}
use ensync.Reconcile.Mutate.Depth.{HasHeights}
use ensync.Reconcile.Mutate.Uses.{held}
use ensync.Reconcile.Mutate.{ApplyResult, clean, fail, recursive_delete}
use ensync.Reconcile.Apply.{should_stop, apply_recon, apply_reconciliation}
use ensync.Reconcile.Apply.Effects.{apply_reconciliation-Effect, apply_reconciliation-in_sync}
use ensync.Reconcile.Apply.SplitEffects.{Covers, apply_reconciliation-SplitEffect}
use ensync.Reconcile.TreeWalk.{
  or_else, transriched, all_three, Subtask, Walk, recurse_and_then, queue_dirty, recurse_into_dir,
  queue_delete, delete_recursively, is_gone, after_file, reconcile_file, with_rules, shown_file,
  process_file, inspected, subtask, fail_state,
}

transriched-is_some :
    (b : Bool) (cli anc srv : Option FileData) → is_some (transriched b cli anc srv) ≡ is_some cli
unfolding transriched
transriched-is_some b cli anc srv = ground arith

transriched-is_special :
    (b : Bool) (cli anc srv : Option FileData)
    → is_special (transriched b cli anc srv) ≡ is_special cli
unfolding transriched transrich_unix_mode
transriched-is_special b cli anc srv = ground arith

-- Files that are declared in sync are both special, or the client's is not.
in_sync-is_special :
    (b : Bool) (cli anc srv : Option FileData) (m : SyncMode)
    → (is_special cli && is_special srv) ≡ false
    → (choose_reconciliation (transriched b cli anc srv) anc srv m).0 ≡ in_sync
    → is_special (transriched b cli anc srv) ≡ false
in_sync-is_special b cli anc srv m p h = ground (
  arith,
  transriched-is_special b cli anc srv,
  SameData-is_special (transriched b cli anc srv) srv
      (choose_in_sync (transriched b cli anc srv) anc srv m h),
)

module _ {X Y E : Type 0} (Rx : Type 0) (is_match : Rx → Text → Bool) (is_fatal : E → Bool)
    (CLI : Replica X E) (ANC : Ancestor Y E) (SRV : Replica X E) where
  abbrev Here : Type 0
  Here = Walk Rx is_match is_fatal CLI ANC SRV

  abbrev Task : Type 0
  Task = Subtask Rx is_match is_fatal CLI ANC SRV

  -- What a file leaves of the directory's state. The children that are pending are those that were
  -- queued; a failure and a file that stays are not forgotten; and if the directory can still be taken
  -- for empty then no replica's table has the file, or its deletion is queued, or something failed.
  pub record FileDone (name : Text) (w w' : Here) : Type 0 where
    pub pending : w'.state.pending + length w.queued ≡ w.state.pending + length w'.queued
    pub failures : w'.state.success ≡ true → w.state.success ≡ true
    pub stays : w'.state.empty ≡ true → w.state.empty ≡ true
    pub gone :
        w'.state.success ≡ true
        → w'.state.empty ≡ true
        → (is_gone Rx is_match is_fatal CLI ANC SRV name w'.dir ≡ true)
          ⊎ ((t : Task) × (w'.queued ≡ t ∷ w.queued) × (t.deletes ≡ true))

  -- A step that may queue a child.
  record MayQueue (w w' : Here) : Type 0 where
    pub pending : w'.state.pending + length w.queued ≡ w.state.pending + length w'.queued
    pub failures : w'.state.success ≡ true → w.state.success ≡ true
    pub empty : w'.state.empty ≡ w.state.empty

  abbrev DeleteQueued : Here → Here → Type 0
  DeleteQueued w w' =
      w'.state.success ≡ true → (t : Task) × (w'.queued ≡ t ∷ w.queued) × (t.deletes ≡ true)

  queue_dirty-MayQueue :
      (t : Option Task) (w : Here) → MayQueue w (queue_dirty Rx is_match is_fatal CLI ANC SRV t w)
  unfolding queue_dirty recurse_and_then fail_state
  queue_dirty-MayQueue none w = record { pending = refl; failures = λ q. cc; empty = refl }
  queue_dirty-MayQueue (some t) w =
      elim (Bool-cases (
        CLI.is_dir_dirty t.cli_dir w.dir.cli.state || SRV.is_dir_dirty t.srv_dir w.dir.srv.state)) [
          | inl d ↦ rw d (record { pending = omega arith; failures = λ q. q; empty = refl })
          | inr d ↦ rw d (record { pending = refl; failures = λ q. q; empty = refl })
        ]

  queue_delete-MayQueue :
      (side : ReconciliationSide) (t : Option Task) (w : Here)
      → ((x : Task) → t ≡ some x → x.deletes ≡ true)
      → MayQueue w (queue_delete Rx is_match is_fatal CLI ANC SRV side t w)
        × DeleteQueued w (queue_delete Rx is_match is_fatal CLI ANC SRV side t w)
  unfolding queue_delete recurse_and_then fail_state
  queue_delete-MayQueue side none w h =
      (record { pending = refl; failures = λ q. cc; empty = refl }, λ q. cc)
  queue_delete-MayQueue side (some t) w h =
      (record { pending = omega arith; failures = λ q. q; empty = refl }, λ q. (t, refl, h t refl))

  subtask-deletes :
      (rules : FileEngine Rx) (c : Option CLI.Directory) (a : ANC.replica.Directory)
      (s : Option SRV.Directory) (x : Task)
      → all_three c (some a) s (subtask Rx is_match is_fatal CLI ANC SRV rules true) ≡ some x
      → x.deletes ≡ true
  unfolding subtask
  subtask-deletes rules none a s x q = cc
  subtask-deletes rules (some c) a none x q = cc
  subtask-deletes rules (some c) a (some s) x q = ap (λ o. deletes_of o) (sym q)
    where
      deletes_of : Option Task → Bool
      deletes_of none = true
      deletes_of (some t) = t.deletes

  after_file-FileDone :
      (dir_path name : Text) (rules : FileEngine Rx) (w : Here)
      (r : ApplyResult × DirContext CLI ANC SRV Rx)
      → FileDone name w (after_file Rx is_match is_fatal CLI ANC SRV dir_path name rules w r)
  unfolding after_file fail_state recurse_into_dir delete_recursively
  after_file-FileDone dir_path name rules w (fail, dir) = record {
    pending = refl;
    failures = λ q. cc;
    stays = λ q. q;
    gone = λ q _. cc;
  }
  after_file-FileDone dir_path name rules w (clean false, dir) = record {
    pending = refl;
    failures = λ q. q;
    stays = λ q. ground arith;
    gone = λ _ q. inl (ground arith);
  }
  after_file-FileDone dir_path name rules w (clean true, dir) =
      let m = queue_dirty-MayQueue _ _ in
      record {
        pending = m.pending;
        failures = m.failures;
        stays = λ q. cc (m.empty, q);
        gone = λ _ q. cc (m.empty, q);
      }
  after_file-FileDone dir_path name rules w (recursive_delete side mode, dir) =
      let (m, d) = queue_delete-MayQueue side _ _ (subtask-deletes rules _ _ _) in
      record {
        pending = m.pending;
        failures = m.failures;
        stays = λ q. cc (m.empty, q);
        gone = λ q _. inr (d q);
      }

  module _ (H : HasHeights ANC.replica) (interrupted : Bool) (depth : ℕ)
      (dir_name name : Text) where
    -- A reconciliation that fits the files neither panics nor is cut off.
    apply-Yields :
        (recon : Reconciliation) (old_cli old_srv : Option FileData) (d : DirContext CLI ANC SRV Rx)
        → H.height d.anc.dir ≤ depth
        → contains_key name d.cli.files ≡ is_some old_cli
        → contains_key name d.srv.files ≡ is_some old_srv
        → IsApplicable old_cli old_srv recon
        → (recon ≡ in_sync → is_special old_cli ≡ false)
        → (names : List Text) → Covers Rx is_fatal CLI ANC SRV dir_name name d names
        → length names < 2 ^ 64 - 1
        → Yields
            (λ _. Unit {0})
            (apply_reconciliation Rx is_fatal CLI ANC SRV interrupted depth dir_name name recon
              old_cli old_srv d)
    unfolding apply_reconciliation apply_recon rev
    apply-Yields in_sync old_cli old_srv d h c s a sp ns cov n =
        weaken-Yields
          (apply_reconciliation-in_sync Rx is_fatal CLI ANC SRV H interrupted depth dir_name name
            old_cli old_srv d h (sp refl))
          (λ _ _. tt)
    apply-Yields unsync old_cli old_srv d h c s a sp ns cov n =
        elim (Bool-cases (should_stop Rx is_fatal CLI ANC SRV interrupted d)) [
          | inl stop ↦ rw stop (yields tt)
          | inr go ↦ rw go (yields tt)
        ]
    apply-Yields irreconcilable old_cli old_srv d h c s a sp ns cov n =
        elim (Bool-cases (should_stop Rx is_fatal CLI ANC SRV interrupted d)) [
          | inl stop ↦ rw stop (yields tt)
          | inr go ↦ rw go (yields tt)
        ]
    apply-Yields (use_side client) old_cli old_srv d h c s a sp ns cov n =
        weaken-Yields
          (apply_reconciliation-Effect Rx is_fatal CLI ANC SRV H interrupted depth dir_name name
            client old_cli old_srv d h s a.0 a.1)
          (λ _ _. tt)
    apply-Yields (use_side server) old_cli old_srv d h c s a sp ns cov n =
        weaken-Yields
          (apply_reconciliation-Effect Rx is_fatal CLI ANC SRV H interrupted depth dir_name name
            server old_cli old_srv d h c a.0 a.1)
          (λ _ _. tt)
    apply-Yields (split client anc_state) old_cli old_srv d h c s (x, q) sp ns cov n =
        let (y, at) = held (lookup name d.cli.files) (c ∙ ap (λ o. is_some o) q) in
        weaken-Yields
          (apply_reconciliation-SplitEffect Rx is_fatal CLI ANC SRV dir_name name H interrupted
            depth client anc_state old_cli old_srv y d h at ns cov n)
          (λ _ _. tt)
    apply-Yields (split server anc_state) old_cli old_srv d h c s (x, q) sp ns cov n =
        let (y, at) = held (lookup name d.srv.files) (s ∙ ap (λ o. is_some o) q) in
        weaken-Yields
          (apply_reconciliation-SplitEffect Rx is_fatal CLI ANC SRV dir_name name H interrupted
            depth server anc_state old_cli old_srv y d h at ns cov n)
          (λ _ _. tt)

    module _ (w : Here) (h : H.height w.dir.anc.dir ≤ depth) (ns : List Text)
        (cov : Covers Rx is_fatal CLI ANC SRV dir_name name w.dir ns) (n : length ns < 2 ^ 64 - 1)
        (plain : (is_special (lookup name w.dir.cli.files)
            && is_special (lookup name w.dir.srv.files))
          ≡ false) where
      reconcile_file-FileDone :
          (rules : FileEngine Rx)
          → Yields (FileDone name w) (
              reconcile_file Rx is_match is_fatal CLI ANC SRV interrupted depth dir_name name rules
                w)
      unfolding reconcile_file name_in_use
      reconcile_file-FileDone rules =
          let anc = lookup name w.dir.anc.files in
          let srv = lookup name w.dir.srv.files in
          let b = trusts_client_unix_mode rules in
          let cli = transriched b (lookup name w.dir.cli.files) anc srv in
          let chosen = choose_reconciliation cli anc srv (sync_mode rules) in
          bind-Yields _
            (apply-Yields chosen.0 cli srv
              (inspected Rx is_match is_fatal CLI ANC SRV dir_name name chosen.0 chosen.1 w.dir) h
              (sym (transriched-is_some b (lookup name w.dir.cli.files) anc srv)) refl
              (choose_reconciliation-IsApplicable cli anc srv (sync_mode rules))
              (in_sync-is_special b (lookup name w.dir.cli.files) anc srv (sync_mode rules) plain)
              ns cov n)
            (λ r _. yields (after_file-FileDone dir_name name rules w r))

      shown_file-FileDone :
          (p : Text)
          → IsWellFormed w.dir.rules.rules
          → EngineFits (length w.dir.rules.rules.states) p w.dir.rules.state
          → (fd : FileData)
          → Yields (FileDone name w) (
              shown_file Rx is_match is_fatal CLI ANC SRV interrupted depth dir_name name
                (some fd)
                w)
      unfolding shown_file with_rules
      shown_file-FileDone p wf fits fd =
          let (rules, e, _) =
            file_engine_total is_match p w.dir.rules (record { name = name; fd = fd }) wf fits in
          rw e (reconcile_file-FileDone rules)

      -- `process_file` ends without a panic for a name that a table has, which does not name a special
      -- file at both ends, with a well-formed rule set,
      -- with enough depth for the ancestor's tree, for tables of fewer than `2 ^ 64 - 1` names. The
      -- count of pending children grows by the children that were queued; a recorded failure or file
      -- that stays is not forgotten; and if the directory is then still recorded as empty and without
      -- a failure, no table has the name any more or a deletion of the subdirectory is queued.
      pub process_file-FileDone :
          (p : Text)
          → IsWellFormed w.dir.rules.rules
          → EngineFits (length w.dir.rules.rules.states) p w.dir.rules.state
          → name_in_use w.dir name ≡ true
          → Yields
              (FileDone name w)
              (process_file Rx is_match is_fatal CLI ANC SRV interrupted depth dir_name name w)
      unfolding process_file name_in_use
      process_file-FileDone p wf fits used =
          by_file (lookup name w.dir.cli.files) (lookup name w.dir.anc.files)
            (lookup name w.dir.srv.files) used
        where
          by_file :
              (c a s : Option FileData)
              → (is_some c || (is_some a || is_some s)) ≡ true
              → Yields (FileDone name w) (
                  shown_file Rx is_match is_fatal CLI ANC SRV interrupted depth dir_name name
                    (or_else c (or_else a s))
                    w)
          by_file (some c) a s u = shown_file-FileDone p wf fits c
          by_file none (some a) s u = shown_file-FileDone p wf fits a
          by_file none none (some s) u = shown_file-FileDone p wf fits s
          by_file none none none u = cc
