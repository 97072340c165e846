-- ===== src/Reconcile/Apply/Splits.antt =====
-- src/reconcile/mutate.rs: what `apply_reconciliation` makes of the tables when it splits a file.
use mathlib.Core.Path.{subst}
use ensync.Base.{
  ℕ, ◌≤◌, ◌≡◌, refl, sym, ap, ◌∙◌, Bool, true, false, Option, none, some, [], ◌∷◌, ◌++◌,
  if◌then◌else◌, arith, Option-cases, inl, inr,
}
use ensync.Base.Text.{Text, text_eq}
use ensync.Base.Map.{Map, lookup, insert, erase, lookup-insert, lookup-erase}
use ensync.FileData.{FileData}
use ensync.Log.{
  ReplicaSide, client_side, ancestor_side, server_side, rename_op, edit_level, access_op,
}
use ensync.Log
use ensync.Replica.{Answer, done, Replica, Ancestor, End}
use ensync.Reconcile.Choose.{
  Reconciliation, split, ReconciliationSide, client, server, rev, SplitAncestorState,
}
use ensync.Reconcile.Choose
use ensync.Reconcile.Mutate.Chain.{within, move_entry}
use ensync.Reconcile.Mutate.Ends.{
  Yields, yields, Ends, fine, bind-Ends, part-Ends, on_error-Ends, bind-Yields, to_bool-Yields,
  and_then-Yields, weaken-Yields,
}
use ensync.Reconcile.Mutate.Depth.{HasHeights}
use ensync.Reconcile.Mutate.Tables.{SetTo, call-Ends}
use ensync.Reconcile.Mutate.{Logged, log_error, try_rename_replica}
use ensync.Reconcile.Apply.{access, rename_ancestor, part_ancestor, rejoin_ancestor}
use ensync.Reconcile.Apply.Effects.{D, EndsKept, WasSet, set_ancestor-WasSet}

-- The table `t'` is `t` with the file under `old` moved to `new`.
abbrev pub RenamedTo : Text → Text → FileData → Map FileData → Map FileData → Type 0
RenamedTo old new x t t' =
    (k : Text)
    → lookup k t' ≡ (if text_eq new k then some x else (if text_eq old k then none else lookup k t))

-- The table after a call that moves the file or fails.
abbrev pub IfRenamed : Text → Text → FileData → Map FileData → Bool → Map FileData → Type 0
IfRenamed old new x t true t' = RenamedTo old new x t t'
IfRenamed old new x t false t' = t' ≡ t

insert-erase-RenamedTo :
    (old new : Text) (x : FileData) (t : Map FileData)
    → RenamedTo old new x t (insert new x (erase old t))
insert-erase-RenamedTo old new x t k =
    ground (arith, lookup-insert k new x (erase old t), lookup-erase k old t)

module _ {X E : Type 0} (is_fatal : E → Bool) (R : Replica X E) (dir_name old new : Text)
    (side : ReplicaSide) (e : End R) (log : Logged E) (x : FileData)
    (h : lookup old e.files ≡ some x) where
  move_entry-RenamedTo :
      (e' : End R) (l : Logged E)
      → e'.files ≡ e.files
      → Ends
          (λ _ (w : End R × Logged E). RenamedTo old new x e.files w.0.files)
          (λ _ (w : End R × Logged E). w.0.files ≡ e.files)
          (within (λ e''. (e'', l)) (move_entry old new e'))
  unfolding move_entry
  move_entry-RenamedTo e' l q =
      rw (ap (λ t. lookup old t) q ∙ h, move_entry)
        (fine (
          subst (λ t. RenamedTo old new x t (insert new x (erase old e'.files))) q
            (insert-erase-RenamedTo old new x e'.files)))

  pub try_rename_replica-IfRenamed :
      Yields
        (λ (b, (e', l)). IfRenamed old new x e.files b e'.files)
        (try_rename_replica is_fatal R dir_name old new side (e, log))
  unfolding try_rename_replica
  try_rename_replica-IfRenamed =
      to_bool-Yields {Ok = λ _ w. RenamedTo old new x e.files w.0.files}
        {Err = λ _ w. w.0.files ≡ e.files} (λ x w. w)
        (bind-Ends {Ok = λ _ w. w.0.files ≡ e.files} {Err = λ _ w. w.0.files ≡ e.files}
          (λ (_, (e', l)). within (λ e''. (e'', l)) (move_entry old new e'))
          (on_error-Ends {Err = λ _ w. w.0.files ≡ e.files}
            (λ x (e', l). (e', log_error is_fatal side dir_name (rename_op old) x l))
            (part-Ends (λ e'. (e', log ++ (edit_level, Log.rename side dir_name old new) ∷ []))
              (call-Ends (R.rename old new) e) (λ _ e' q. q) (λ _ e' q. q))
            (λ _ w q. q))
          (λ _ w q. q) λ _ w q. move_entry-RenamedTo w.0 w.1 q)
        (λ w r. r) (λ _ w q. q)

-- The ancestor's table after the file has been set apart, or moved like the end's.
abbrev pub Parted : SplitAncestorState → Text → Map FileData → Map FileData → Type 0
Parted Choose.delete name t t' = SetTo name none t t'
Parted Choose.move name t t' = t' ≡ t

abbrev pub Moved : Option FileData → Text → Text → Map FileData → Map FileData → Type 0
Moved none old new t t' = t' ≡ t
Moved (some x) old new t t' = RenamedTo old new x t t'

Moved-absent :
    (o : Option FileData) (old new : Text) (t : Map FileData) → o ≡ none → Moved o old new t t
Moved-absent o old new t e = rw e refl

Moved-present :
    (o : Option FileData) (old new : Text) (x : FileData) (t t' : Map FileData)
    → o ≡ some x
    → RenamedTo old new x t t'
    → Moved o old new t t'
Moved-present o old new x t t' e r = rw e r

abbrev pub AncestorSplit : SplitAncestorState → Text → Text → Map FileData → Map FileData → Type 0
AncestorSplit Choose.delete old new t t' = SetTo old none t t'
AncestorSplit Choose.move old new t t' = Moved (lookup old t) old new t t'

module _ {X Y E : Type 0} (Rx : Type 0) (is_fatal : E → Bool) (CLI : Replica X E)
    (ANC : Ancestor Y E) (SRV : Replica X E) (dir_name name : Text) where
  abbrev pub Walked : Type 0
  Walked = D Rx is_fatal CLI ANC SRV

  abbrev pub Keep : Walked → Walked → Type 0
  Keep d d' = EndsKept Rx is_fatal CLI ANC SRV d d'

  -- The ancestor's table after a step that may fail.
  unfoldable pub Stepped : (Map FileData → Map FileData → Type 0) → Walked → Bool × Walked → Type 0
  Stepped P d (b, d') = Keep d d' × (if b then P d.anc.files d'.anc.files else Unit {0})

  pub EndsKept-trans : (d d' d'' : Walked) → Keep d d' → Keep d' d'' → Keep d d''
  EndsKept-trans d d' d'' k k' = record {
    cli = k'.cli ∙ k.cli;
    srv = k'.srv ∙ k.srv;
    todo = k'.todo ∙ k.todo;
  }

  access-Stepped :
      (op : ANC.replica.Directory × ANC.replica.State
        → Answer E Unit × (ANC.replica.Directory × ANC.replica.State))
      (d : Walked)
      → Yields (Stepped (λ t t'. t' ≡ t) d) (access Rx is_fatal CLI ANC SRV op dir_name name d)
  unfolding access Stepped
  access-Stepped op d =
      to_bool-Yields {Ok = λ _ (d' : Walked). Keep d d' × (d'.anc.files ≡ d.anc.files)}
        {Err = λ _ (d' : Walked). Keep d d'} _
        (part-Ends (λ e. record d { anc = e }) (call-Ends op d.anc)
          (λ _ e q. (record { cli = refl; srv = refl; todo = refl }, q))
          (λ _ e q. record { cli = refl; srv = refl; todo = refl }))
        (λ w k. k) (λ x w k. (record { cli = k.cli; srv = k.srv; todo = k.todo }, tt))

  pub part_ancestor-Stepped :
      (H : HasHeights ANC.replica) (depth : ℕ) (anc_state : SplitAncestorState) (d : Walked)
      → H.height d.anc.dir ≤ depth
      → Yields
          (Stepped (Parted anc_state name) d)
          (part_ancestor Rx is_fatal CLI ANC SRV depth anc_state dir_name name d)
  unfolding part_ancestor Stepped WasSet
  part_ancestor-Stepped H depth Choose.delete d h =
      weaken-Yields (set_ancestor-WasSet Rx is_fatal CLI ANC SRV H depth dir_name name none d h)
        by_answer
    where
      by_answer :
          (a : Bool × Walked)
          → WasSet Rx is_fatal CLI ANC SRV name none d a
          → Stepped (Parted Choose.delete name) d a
      by_answer (true, d') k = k
      by_answer (false, d') k = (k.0, tt)
  part_ancestor-Stepped H depth Choose.move d h = access-Stepped (ANC.condemn name) d

  module _ (new : Text) where
    rename_ancestor-Stepped :
        (d : Walked)
        → Yields
            (Stepped (λ t t'. Moved (lookup name t) name new t t') d)
            (rename_ancestor Rx is_fatal CLI ANC SRV dir_name name new d)
    unfolding rename_ancestor Stepped
    rename_ancestor-Stepped d = elim (Option-cases (lookup name d.anc.files)) [
      | inl e ↦ rw e (
          yields
            (record { cli = refl; srv = refl; todo = refl }, Moved-absent _ name new d.anc.files e))
      | inr (a, e) ↦ rw e (
          bind-Yields _
            (try_rename_replica-IfRenamed is_fatal ANC.replica dir_name name new ancestor_side d.anc
              d.log a e)
            (by_answer a e))
    ]
      where
        by_answer :
            (a : FileData)
            → lookup name d.anc.files ≡ some a
            → (r : Bool × (End ANC.replica × Logged E))
            → IfRenamed name new a d.anc.files r.0 r.1.0.files
            → Yields
                (λ (w : Bool × Walked).
                  Keep d w.1
                  × (if w.0
                      then Moved (lookup name d.anc.files) name new d.anc.files w.1.anc.files
                      else Unit {0}))
                (done (r.0, record d { anc = r.1.0; log = r.1.1 }))
        by_answer a e (true, w) k = yields (
          record { cli = refl; srv = refl; todo = refl },
          Moved-present _ name new a d.anc.files w.0.files e k,
        )
        by_answer a e (false, w) k = yields (record { cli = refl; srv = refl; todo = refl }, tt)

    pub rejoin_ancestor-Stepped :
        (anc_state : SplitAncestorState) (d0 d : Walked)
        → Parted anc_state name d0.anc.files d.anc.files
        → Yields
            (Stepped (λ t t'. AncestorSplit anc_state name new d0.anc.files t') d)
            (rejoin_ancestor Rx is_fatal CLI ANC SRV anc_state dir_name name new d)
    unfolding rejoin_ancestor Stepped
    rejoin_ancestor-Stepped Choose.delete d0 d p =
        yields (record { cli = refl; srv = refl; todo = refl }, p)
    rejoin_ancestor-Stepped Choose.move d0 d p =
        and_then-Yields _ (rename_ancestor-Stepped d)
          (λ d' (k, m). weaken-Yields (access-Stepped (ANC.uncondemn name) d') (by_answer d' k m))
          (λ d' k. k)
      where
        by_answer :
            (d' : Walked)
            → Keep d d'
            → Moved (lookup name d.anc.files) name new d.anc.files d'.anc.files
            → (a : Bool × Walked) → Stepped (λ t t'. t' ≡ t) d' a
            → Stepped (λ t t'. AncestorSplit Choose.move name new d0.anc.files t') d a
        by_answer d' k m (true, d'') (k', q) = (
          EndsKept-trans d d' d'' k k',
          subst (λ t. Moved (lookup name t) name new t d''.anc.files) p
              (subst (Moved (lookup name d.anc.files) name new d.anc.files) (sym q) m),
        )
        by_answer d' k m (false, d'') (k', q) = (EndsKept-trans d d' d'' k k', tt)
