-- ===== src/Reconcile/Mutate/Uses.antt =====
-- src/reconcile/mutate.rs: the effects of `replace_replica` and `apply_use`.
use mathlib.Core.Path.{subst}
use ensync.Base.{
  ℕ, ◌≤◌, ◌≡◌, refl, ap, ◌∙◌, Bool, true, false, ◌&&◌, ◌||◌, not, Option, none, some, if◌then◌else◌,
  arith,
}
use ensync.Base.Text.{Text}
use ensync.Base.Map.{lookup, is_some, contains_key}
use ensync.FileData.{FileData, directory, regular, symlink, special, FileMode, is_dir, file_eq}
use ensync.Log.{Log, ReplicaSide, into_side, ErrorOperation, create_op, update_op, remove_op}
use ensync.Replica.{Answer, ok, err, Run, done, Replica, Ancestor, End}
use ensync.Reconcile.Choose.{ReconciliationSide}
use ensync.Reconcile.Mutate.Chain.{M, within, ◌>>-◌, on_error, call}
use ensync.Reconcile.Mutate.Ends.{
  Yields, yields, Ends, fine, broken, bind-Ends, part-Ends, on_error-Ends, to_bool-Yields,
}
use ensync.Reconcile.Mutate.Depth.{HasHeights}
use ensync.Reconcile.Mutate.Tables.{
  SetTo, SetTo-same, SetsTo, call-Ends, take_out-Ends, put_new-Ends, put_over-Ends,
  replace_ancestor-SetsTo,
}
use ensync.Reconcile.Mutate.{
  fail, recursive_delete, World, is_none, transferred, failed, say, on_dst, change_replica,
  try_replace_ancestor, after_clearing, after_replacing, Used, apply_use,
}

-- What a table holds, by the test.
pub held : (o : Option FileData) → is_some o ≡ true → (x : FileData) × (o ≡ some x)
held none h = cc
held (some x) h = (x, refl)

pub not_held : (o : Option FileData) → is_some o ≡ false → o ≡ none
not_held none h = refl
not_held (some x) h = cc

-- A directory is replaced by a directory only, or it is deleted.
abbrev pub IsSafeUse : Option FileData → Option FileData → Type 0
IsSafeUse old_dst old_src = is_dir old_dst ≡ true → (is_dir old_src || is_none old_src) ≡ true

module _ {X Y E : Type 0} (is_fatal : E → Bool) (DST : Replica X E) (ANC : Ancestor Y E)
    (SRC : Replica X E) where
  abbrev pub V : Type 0
  V = World DST ANC SRC

  -- What a step on the replica leaves alone.
  pub record Steady (w w' : V) : Type 0 where
    pub anc : w'.anc ≡ w.anc
    pub src : w'.src.files ≡ w.src.files

  -- The replica's table has `r` under `name`, or is as it was.
  unfoldable pub Changed : Text → V → Option FileData → V → Type 0
  Changed name w r w' = Steady w w' × SetTo name r w.dst.files w'.dst.files

  unfoldable pub Kept : V → V → Type 0
  Kept w w' = Steady w w' × (w'.dst.files ≡ w.dst.files)

  transferred-Kept :
      (name : Text) (fd : FileData) (w0 w : V)
      → Kept w0 w
      → Ends (λ x w'. Kept w0 w') (λ x w'. Kept w0 w') (transferred is_fatal DST ANC SRC name fd w)
  unfolding transferred Kept
  transferred-Kept name fd w0 w k =
      by_answer (SRC.transfer (record { name = name; fd = fd }) (w.src.dir, w.src.state))
    where
      by_answer :
          (r : Answer E X × SRC.State)
          → Ends
              (λ x w'. Kept w0 w')
              (λ x w'. Kept w0 w')
              (within (λ s. record w { src = record w.src { state = s } }) (done r))
      by_answer (ok x, s) = fine (record { anc = k.0.anc; src = k.0.src }, k.1)
      by_answer (err x, s) = broken (record { anc = k.0.anc; src = k.0.src }, k.1)

  on_dst-Kept :
      {A : Type 0} (op : DST.Directory × DST.State → Answer E A × (DST.Directory × DST.State))
      (w0 w : V)
      → Kept w0 w
      → Ends (λ a w'. Kept w0 w') (λ x w'. Kept w0 w') (on_dst is_fatal DST ANC SRC (call op) w)
  unfolding Kept
  on_dst-Kept op w0 w k =
      part-Ends (λ e. record w { dst = e }) (call-Ends op w.dst)
        (λ a e q. (record { anc = k.0.anc; src = k.0.src }, q ∙ k.1))
        (λ x e q. (record { anc = k.0.anc; src = k.0.src }, q ∙ k.1))

  -- A change of the table of the replica.
  table-Changed :
      (name : Text) (new : Option FileData) (w0 w : V) {m : M E (End DST) Unit}
      → Kept w0 w
      → Ends (SetsTo w.dst name new) (λ _ e'. e'.files ≡ w.dst.files) m
      → Ends
          (λ _ w'. Changed name w0 new w')
          (λ x w'. Kept w0 w')
          (within (λ e. record w { dst = e }) m)
  unfolding Kept Changed
  table-Changed name new w0 w k h =
      part-Ends (λ e. record w { dst = e }) h
        (λ _ e s.
          (record { anc = k.0.anc; src = k.0.src }, subst (λ t. SetTo name new t e.files) k.1 s))
        (λ _ e q. (record { anc = k.0.anc; src = k.0.src }, q ∙ k.1))

  Kept-say : (w : V) (what : Log E) → Kept w (say is_fatal DST ANC SRC what w)
  unfolding Kept
  Kept-say w what = (record { anc = refl; src = refl }, refl)

  -- An error is logged.
  failed-Kept :
      {A : Type 0} {Ok : A → V → Type 0} (w0 : V) (side : ReplicaSide) (dir_name : Text)
      (op : ErrorOperation) {m : M E V A}
      → Ends Ok (λ x w'. Kept w0 w') m
      → Ends Ok (λ x w'. Kept w0 w') (on_error (failed is_fatal DST ANC SRC side dir_name op) m)
  unfolding Kept
  failed-Kept w0 side dir_name op h =
      on_error-Ends _ h (λ x w k. (record { anc = k.0.anc; src = k.0.src }, k.1))

  change_replica-Changed :
      (dir_name name : Text) (side : ReplicaSide) (old new : Option FileData) (w : V)
      → contains_key name w.dst.files ≡ is_some old
      → Ends
          (λ r w'. Changed name w r w')
          (λ x w'. Kept w w')
          (change_replica is_fatal DST ANC SRC dir_name name side old new w)
  unfolding change_replica Kept Changed
  change_replica-Changed dir_name name side none none w h =
      fine (record { anc = refl; src = refl }, SetTo-same name none w.dst.files (not_held _ h))
  change_replica-Changed dir_name name side (some o) none w h =
      let (x, q) = held (lookup name w.dst.files) h in
      bind-Ends _
        (failed-Kept w side dir_name (remove_op name) (
          on_dst-Kept (DST.remove (record { name = name; fd = o })) w _
            (Kept-say w (Log.remove side dir_name name o))))
        (λ x w' k. k)
        λ _ w' k.
          bind-Ends _
            (table-Changed name none w w' k
              (take_out-Ends w'.dst name x (ap (λ t. lookup name t) k.1 ∙ q)))
            (λ x w' k. k) λ _ w'' c. fine c
  change_replica-Changed dir_name name side (some o) (some n) w h =
      let (old, q) = held (lookup name w.dst.files) h in
      bind-Ends _ (transferred-Kept name n w _ (Kept-say w (Log.update side dir_name name o n)))
        (λ x w' k. k)
        λ x w' k.
          bind-Ends _
            (failed-Kept w side dir_name (update_op name)
              (on_dst-Kept (DST.update name o n x) w w' k))
            (λ x w' k. k)
            λ r w'' k'.
              bind-Ends _
                (table-Changed name (some r) w w'' k'
                  (put_over-Ends w''.dst name old r (ap (λ t. lookup name t) k'.1 ∙ q)))
                (λ x w' k. k) λ _ w3 c. fine c
  change_replica-Changed dir_name name side none (some n) w h =
      bind-Ends _ (transferred-Kept name n w _ (Kept-say w (Log.create side dir_name name n)))
        (λ x w' k. k)
        λ x w' k.
          bind-Ends _
            (failed-Kept w side dir_name (create_op name)
              (on_dst-Kept (DST.create (record { name = name; fd = n }) x) w w' k))
            (λ x w' k. k)
            λ r w'' k'.
              bind-Ends _
                (table-Changed name (some r) w w'' k'
                  (put_new-Ends w''.dst name r (ap (λ t. lookup name t) k'.1 ∙ not_held _ h)))
                (λ x w' k. k) λ _ w3 c. fine c

  -- What `try_replace_ancestor` leaves: the ancestor's table with the new entry, or as it was.
  unfoldable pub AncestorSet : Text → Option FileData → V → Bool × V → Type 0
  AncestorSet name new w (b, w') =
      (w'.dst ≡ w.dst)
      × (w'.src ≡ w.src)
      × (if b then SetTo name new w.anc.files w'.anc.files else w'.anc.files ≡ w.anc.files)

  module _ (H : HasHeights ANC.replica) where
    pub try_replace_ancestor-AncestorSet :
        (depth : ℕ) (dir_name name : Text) (new : Option FileData) (w : V)
        → H.height w.anc.dir ≤ depth
        → Yields (AncestorSet name new w) (
            try_replace_ancestor is_fatal DST ANC SRC depth dir_name name
              (lookup name w.anc.files)
              new
              w)
    unfolding try_replace_ancestor AncestorSet
    try_replace_ancestor-AncestorSet depth dir_name name new w h =
        to_bool-Yields {Ok = λ _ w'. AncestorSet name new w (true, w')}
          {Err = λ _ w'. AncestorSet name new w (false, w')} _
          (part-Ends (λ e. record w { anc = e })
            (replace_ancestor-SetsTo ANC H depth name (lookup name w.anc.files) new w.anc refl h)
            (λ _ e s. (refl, refl, s)) (λ _ e q. (refl, refl, q)))
          (λ w' k. k) (λ x w' k. k)

    -- The effect of `apply_use` on the directory.
    pub data UseEffect (name : Text) (old_dst old_src : Option FileData) (side : ReconciliationSide)
        (w : V) : Used is_fatal DST ANC SRC × V → Type 0 where
      replaced :
          {r : Option FileData} {w' : V}
          → Changed name w r w'
          → UseEffect name old_dst old_src side w (ok (some r), w')
      not_replaced : {w' : V} → Kept w w' → UseEffect name old_dst old_src side w (err fail, w')
      deleting :
          {mode : FileMode} {w' : V}
          → old_dst ≡ some (directory mode)
          → old_src ≡ none
          → AncestorSet name old_dst w (true, w')
          → UseEffect name old_dst old_src side w (err (recursive_delete side mode), w')
      not_deleting :
          {w' : V}
          → AncestorSet name old_dst w (false, w')
          → UseEffect name old_dst old_src side w (err fail, w')

    after_replacing-UseEffect :
        (name : Text) (old_dst old_src : Option FileData) (side : ReconciliationSide) (w : V)
        (m : M E V (Option FileData))
        → Ends (λ r w'. Changed name w r w') (λ x w'. Kept w w') m
        → Yields (UseEffect name old_dst old_src side w) (after_replacing is_fatal DST ANC SRC m)
    unfolding after_replacing
    after_replacing-UseEffect name old_dst old_src side w _ (fine c) = yields (replaced c)
    after_replacing-UseEffect name old_dst old_src side w _ (broken k) = yields (not_replaced k)

    after_clearing-UseEffect :
        (name : Text) (mode : FileMode) (side : ReconciliationSide) (w : V) (m : Run (Bool × V))
        → Yields (AncestorSet name (some (directory mode)) w) m
        → Yields
            (UseEffect name (some (directory mode)) none side w)
            (m >>- after_clearing is_fatal DST ANC SRC side (some mode))
    unfolding after_clearing
    after_clearing-UseEffect name mode side w _ (yields {a = (true, w')} h) =
        yields (deleting refl refl h)
    after_clearing-UseEffect name mode side w _ (yields {a = (false, w')} h) =
        yields (not_deleting h)

    module _ (depth : ℕ) (dir_name name : Text) (side : ReconciliationSide) (w : V)
        (h : H.height w.anc.dir ≤ depth) where
      delete_dir-UseEffect :
          (mode : FileMode)
          → Yields (UseEffect name (some (directory mode)) none side w) (
              apply_use is_fatal DST ANC SRC depth dir_name name
                (some (directory mode))
                none
                side
                w)
      unfolding apply_use is_dir
      delete_dir-UseEffect mode =
          after_clearing-UseEffect name mode side w _
            (try_replace_ancestor-AncestorSet depth dir_name name (some (directory mode)) w h)

      replace-UseEffect :
          (old_dst old_src : Option FileData)
          → contains_key name w.dst.files ≡ is_some old_dst
          → file_eq old_dst old_src ≡ false
          → (is_dir old_dst && is_none old_src) ≡ false
          → IsSafeUse old_dst old_src
          → Yields
              (UseEffect name old_dst old_src side w)
              (apply_use is_fatal DST ANC SRC depth dir_name name old_dst old_src side w)
      unfolding apply_use
      replace-UseEffect old_dst old_src there differ kept safe =
          let allowed : (is_dir old_src || not (is_dir old_dst)) ≡ true =
            ground (arith, safe, kept) in
          rw (kept, allowed, differ)
            (after_replacing-UseEffect name old_dst old_src side w _
              (change_replica-Changed dir_name name (into_side side) old_dst old_src w there))

      pub apply_use-UseEffect :
          (old_dst old_src : Option FileData)
          → contains_key name w.dst.files ≡ is_some old_dst
          → file_eq old_dst old_src ≡ false
          → IsSafeUse old_dst old_src
          → Yields
              (UseEffect name old_dst old_src side w)
              (apply_use is_fatal DST ANC SRC depth dir_name name old_dst old_src side w)
      unfolding is_dir
      apply_use-UseEffect (some (directory mode)) none there differ safe = delete_dir-UseEffect mode
      apply_use-UseEffect none old_src there differ safe =
          replace-UseEffect none old_src there differ refl safe
      apply_use-UseEffect (some (regular m n t x)) old_src there differ safe =
          replace-UseEffect _ old_src there differ refl safe
      apply_use-UseEffect (some (symlink t)) old_src there differ safe =
          replace-UseEffect _ old_src there differ refl safe
      apply_use-UseEffect (some special) old_src there differ safe =
          replace-UseEffect _ old_src there differ refl safe
      apply_use-UseEffect (some (directory mode)) (some s) there differ safe =
          replace-UseEffect _ (some s) there differ refl safe
