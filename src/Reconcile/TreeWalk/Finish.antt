-- ===== src/Reconcile/TreeWalk/Finish.antt =====
-- src/reconcile/tree_walk.rs: how a directory is listed, and what is done with it when all of its
-- files and subdirectories are done.
use ensync.Base.{
  ◌≡◌, refl, sym, ◌∙◌, ◌⊎◌, Bool, true, false, ◌&&◌, [], ◌∷◌, ◌++◌, if◌then◌else◌, Bool-cases, inl,
  inr,
}
use ensync.Base.Text.{Text}
use ensync.Log.{
  Log, edit_level, ReplicaSide, client_side, ancestor_side, server_side, mark_clean_op, rmdir_op,
}
use ensync.Replica.{Answer, ok, err, Replica, Ancestor, End}
use ensync.Reconcile.Context.{DirContext}
use ensync.Reconcile.Mutate.{Logged, log_error}
use ensync.Reconcile.TreeWalk.{DirState}

module _ {X E : Type 0} (is_fatal : E → Bool) (R : Replica X E) where
  marked :
      ReplicaSide → Text → Answer E Bool × R.State → End R × Logged E → Bool × (End R × Logged E)
  unfolding log_error
  marked side dir_path (ok b, s) (e, log) = (b, (record e { state = s }, log))
  marked side dir_path (err x, s) (e, log) =
      (false, (record e { state = s }, log_error is_fatal side dir_path mark_clean_op x log))

  -- `mark_clean(r, dir, log, side, dir_path)`
  unfoldable pub mark_clean : ReplicaSide → Text → End R × Logged E → Bool × (End R × Logged E)
  unfolding marked
  mark_clean side dir_path (e, log) = marked side dir_path (R.set_dir_clean e.dir e.state) (e, log)

  removed :
      ReplicaSide
      → Text
      → Answer E Unit × (R.Directory × R.State)
      → End R × Logged E
      → Bool × (End R × Logged E)
  unfolding log_error
  removed side dir_path (ok _, (d, s)) (e, log) = (true, (record e { dir = d; state = s }, log))
  removed side dir_path (err x, (d, s)) (e, log) =
      (false, (record e { dir = d; state = s }, log_error is_fatal side dir_path rmdir_op x log))

  -- `try_rmdir(r, dir, log, dir_path, side)`
  unfoldable pub try_rmdir : ReplicaSide → Text → End R × Logged E → Bool × (End R × Logged E)
  unfolding removed
  try_rmdir side dir_path (e, log) =
      removed side dir_path (R.rmdir (e.dir, e.state))
        (e, log ++ (edit_level, Log.rmdir side dir_path) ∷ [])

-- `a && b`, for steps that return what they leave.
abbrev and_also : {W : Type 0} → Bool × W → (W → Bool × W) → Bool × W
and_also (true, w) k = k w
and_also (false, w) k = (false, w)

module _ {X Y E : Type 0} (Rx : Type 0) (is_fatal : E → Bool) (CLI : Replica X E)
    (ANC : Ancestor Y E) (SRV : Replica X E) where
  abbrev Dir : Type 0
  Dir = DirContext CLI ANC SRV Rx

  abbrev on_cli : (End CLI × Logged E → Bool × (End CLI × Logged E)) → Dir → Bool × Dir
  on_cli f d = let (b, (e, l)) = f (d.cli, d.log) in (b, record d { cli = e; log = l })

  abbrev on_anc :
      (End ANC.replica × Logged E → Bool × (End ANC.replica × Logged E)) → Dir → Bool × Dir
  on_anc f d = let (b, (e, l)) = f (d.anc, d.log) in (b, record d { anc = e; log = l })

  abbrev on_srv : (End SRV × Logged E → Bool × (End SRV × Logged E)) → Dir → Bool × Dir
  on_srv f d = let (b, (e, l)) = f (d.srv, d.log) in (b, record d { srv = e; log = l })

  -- `self.mark_both_clean(dir)`
  unfoldable pub mark_both_clean : Dir → Bool × Dir
  mark_both_clean d =
      let dir_path = CLI.full_path d.cli.dir in
      and_also (on_cli (mark_clean is_fatal CLI client_side dir_path) d)
        (on_srv (mark_clean is_fatal SRV server_side dir_path))

  -- `self.delete_or_mark_clean(dir, state)`
  unfoldable pub delete_or_mark_clean : DirState → Dir → Bool × Dir
  unfolding mark_both_clean
  delete_or_mark_clean state d =
      let dir_path = CLI.full_path d.cli.dir in
      if state.empty
      then and_also
          (and_also (on_anc (try_rmdir is_fatal ANC.replica ancestor_side dir_path) d)
            (on_cli (try_rmdir is_fatal CLI client_side dir_path)))
          (on_srv (try_rmdir is_fatal SRV server_side dir_path))
      else mark_both_clean d

-- Whether a call was answered.
abbrev pub is_ok : {E A : Type 0} → Answer E A → Bool
is_ok (ok _) = true
is_ok (err _) = false

module _ {X E : Type 0} (is_fatal : E → Bool) (R : Replica X E) where
  try_rmdir-is_ok :
      (side : ReplicaSide) (p : Text) (w : End R × Logged E)
      → (try_rmdir is_fatal R side p w).0 ≡ is_ok (R.rmdir (w.0.dir, w.0.state)).0
  unfolding try_rmdir removed
  try_rmdir-is_ok side p (e, log) =
      by_answer (R.rmdir (e.dir, e.state)) (log ++ (edit_level, Log.rmdir side p) ∷ [])
    where
      by_answer :
          (r : Answer E Unit × (R.Directory × R.State)) (l : Logged E)
          → (removed is_fatal R side p r (e, l)).0 ≡ is_ok r.0
      by_answer (ok _, (d, s)) l = refl
      by_answer (err x, (d, s)) l = refl

  mark_clean-dir :
      (side : ReplicaSide) (p : Text) (w : End R × Logged E)
      → (mark_clean is_fatal R side p w).1.0.dir ≡ w.0.dir
  unfolding mark_clean marked
  mark_clean-dir side p (e, log) = by_answer (R.set_dir_clean e.dir e.state)
    where
      by_answer :
          (r : Answer E Bool × R.State) → (marked is_fatal R side p r (e, log)).1.0.dir ≡ e.dir
      by_answer (ok b, s) = refl
      by_answer (err x, s) = refl

module _ {X Y E : Type 0} (Rx : Type 0) (is_fatal : E → Bool) (CLI : Replica X E)
    (ANC : Ancestor Y E) (SRV : Replica X E) where
  -- How a directory was finished: `w` is what `delete_or_mark_clean` returned.
  pub record Finished (state : DirState) (d : DirContext CLI ANC SRV Rx)
      (w : Bool × DirContext CLI ANC SRV Rx) : Type 0 where
    -- No directory that may have files is removed, and the ancestor is left alone.
    pub kept :
        state.empty ≡ false
        → (w.1.anc ≡ d.anc) × (w.1.cli.dir ≡ d.cli.dir) × (w.1.srv.dir ≡ d.srv.dir)
    -- The ends are not touched before the ancestor's directory is gone, and the server last.
    pub ancestor_first :
        state.empty ≡ true
        → is_ok (ANC.replica.rmdir (d.anc.dir, d.anc.state)).0 ≡ false
        → (w.0 ≡ false) × (w.1.cli ≡ d.cli) × (w.1.srv ≡ d.srv)
    pub server_last :
        state.empty ≡ true
        → is_ok (CLI.rmdir (d.cli.dir, d.cli.state)).0 ≡ false
        → (w.0 ≡ false) × (w.1.srv ≡ d.srv)
    -- Success is reported if all three were removed.
    pub success :
        state.empty ≡ true
        → w.0 ≡ (
            is_ok (ANC.replica.rmdir (d.anc.dir, d.anc.state)).0
            && (is_ok (CLI.rmdir (d.cli.dir, d.cli.state)).0
                && is_ok (SRV.rmdir (d.srv.dir, d.srv.state)).0))

  -- `delete_or_mark_clean` removes nothing unless the directory is recorded as empty; it removes the
  -- ancestor's directory first, leaves both ends as they are if that fails, and the server if the
  -- client's removal fails; it succeeds for an empty directory just if the three removals do.
  pub delete_or_mark_clean-Finished :
      (state : DirState) (d : DirContext CLI ANC SRV Rx)
      → Finished state d (delete_or_mark_clean Rx is_fatal CLI ANC SRV state d)
  unfolding delete_or_mark_clean mark_both_clean
  delete_or_mark_clean-Finished state d = record {
    kept = λ e. marked_only e (Bool-cases (mark_clean is_fatal CLI client_side p (d.cli, d.log)).0);
    ancestor_first = λ e h. rw (e, anc_is_ok ∙ h) (refl, refl, refl);
    server_last = λ e h.
        client_failed e h
          (Bool-cases (try_rmdir is_fatal ANC.replica ancestor_side p (d.anc, d.log)).0);
    success = λ e.
        all_removed e (Bool-cases (try_rmdir is_fatal ANC.replica ancestor_side p (d.anc, d.log)).0)
          (Bool-cases (try_rmdir is_fatal CLI client_side p (d.cli, l)).0);
  }
    where
      p : Text
      p = CLI.full_path d.cli.dir

      l : Logged E
      l = (try_rmdir is_fatal ANC.replica ancestor_side p (d.anc, d.log)).1.1

      anc_is_ok :
          (try_rmdir is_fatal ANC.replica ancestor_side p (d.anc, d.log)).0
          ≡ is_ok (ANC.replica.rmdir (d.anc.dir, d.anc.state)).0
      anc_is_ok = try_rmdir-is_ok is_fatal ANC.replica ancestor_side p (d.anc, d.log)

      cli_is_ok :
          (try_rmdir is_fatal CLI client_side p (d.cli, l)).0
          ≡ is_ok (CLI.rmdir (d.cli.dir, d.cli.state)).0
      cli_is_ok = try_rmdir-is_ok is_fatal CLI client_side p (d.cli, l)

      marked_only :
          state.empty ≡ false
          → ((mark_clean is_fatal CLI client_side p (d.cli, d.log)).0 ≡ true)
            ⊎ ((mark_clean is_fatal CLI client_side p (d.cli, d.log)).0 ≡ false)
          → ((delete_or_mark_clean Rx is_fatal CLI ANC SRV state d).1.anc ≡ d.anc)
            × ((delete_or_mark_clean Rx is_fatal CLI ANC SRV state d).1.cli.dir ≡ d.cli.dir)
            × ((delete_or_mark_clean Rx is_fatal CLI ANC SRV state d).1.srv.dir ≡ d.srv.dir)
      marked_only e (inl t) =
          rw (e, t)
            (
              refl,
              mark_clean-dir is_fatal CLI client_side p (d.cli, d.log),
              mark_clean-dir is_fatal SRV server_side p (d.srv, _),
            )
      marked_only e (inr f) =
          rw (e, f) (refl, mark_clean-dir is_fatal CLI client_side p (d.cli, d.log), refl)

      client_failed :
          state.empty ≡ true
          → is_ok (CLI.rmdir (d.cli.dir, d.cli.state)).0 ≡ false
          → ((try_rmdir is_fatal ANC.replica ancestor_side p (d.anc, d.log)).0 ≡ true)
            ⊎ ((try_rmdir is_fatal ANC.replica ancestor_side p (d.anc, d.log)).0 ≡ false)
          → ((delete_or_mark_clean Rx is_fatal CLI ANC SRV state d).0 ≡ false)
            × ((delete_or_mark_clean Rx is_fatal CLI ANC SRV state d).1.srv ≡ d.srv)
      client_failed e h (inl t) = rw (e, t, cli_is_ok ∙ h) (refl, refl)
      client_failed e h (inr f) = rw (e, f) (refl, refl)

      all_removed :
          state.empty ≡ true
          → ((try_rmdir is_fatal ANC.replica ancestor_side p (d.anc, d.log)).0 ≡ true)
            ⊎ ((try_rmdir is_fatal ANC.replica ancestor_side p (d.anc, d.log)).0 ≡ false)
          → ((try_rmdir is_fatal CLI client_side p (d.cli, l)).0 ≡ true)
            ⊎ ((try_rmdir is_fatal CLI client_side p (d.cli, l)).0 ≡ false)
          → (delete_or_mark_clean Rx is_fatal CLI ANC SRV state d).0 ≡ (
              is_ok (ANC.replica.rmdir (d.anc.dir, d.anc.state)).0
              && (is_ok (CLI.rmdir (d.cli.dir, d.cli.state)).0
                  && is_ok (SRV.rmdir (d.srv.dir, d.srv.state)).0))
      all_removed e (inl t) (inl u) =
          rw (e, t, u, sym anc_is_ok ∙ t, sym cli_is_ok ∙ u)
            (try_rmdir-is_ok is_fatal SRV server_side p (d.srv, _))
      all_removed e (inl t) (inr u) = rw (e, t, u, sym anc_is_ok ∙ t, sym cli_is_ok ∙ u) refl
      all_removed e (inr f) _ = rw (e, f, sym anc_is_ok ∙ f) refl
