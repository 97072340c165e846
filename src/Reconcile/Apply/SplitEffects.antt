-- ===== src/Reconcile/Apply/SplitEffects.antt =====
-- src/reconcile/mutate.rs: what `apply_reconciliation` makes of a split, as a whole.
use mathlib.Core.Path.{subst}
use ensync.Base.{
  ℕ, ◌≤◌, ◌<◌, ◌^◌, ◌-◌, ◌≡◌, refl, sym, ap, ◌∙◌, Bool, true, false, Option, some, List, [], ◌∷◌,
  ◌++◌, length, map, arith, Bool-cases, inl, inr,
}
use ensync.Base.Text.{Text}
use ensync.Base.Map.{Map, lookup, contains_key}
use ensync.FileData.{FileData}
use ensync.Log.{client_side, server_side}
use ensync.Replica.{Replica, Ancestor, End}
use ensync.Reconcile.Choose.{split, ReconciliationSide, client, server, rev, SplitAncestorState}
use ensync.Reconcile.Context.{name_in_use}
use ensync.Reconcile.Mutate.Ends.{Yields, yields, bind-Yields, and_then-Yields, weaken-Yields}
use ensync.Reconcile.Mutate.Depth.{HasHeights}
use ensync.Reconcile.Mutate.{ApplyResult, clean, fail}
use ensync.Reconcile.Apply.{
  should_stop, rename_end, rejoin_ancestor, split_files, requeue, apply_split, apply_recon,
  apply_reconciliation,
}
use ensync.Reconcile.Apply.Effects.{files_of, kept_files}
use ensync.Reconcile.Apply.Splits.{
  RenamedTo, IfRenamed, Parted, AncestorSplit, Walked, Stepped, part_ancestor-Stepped,
  rejoin_ancestor-Stepped, try_rename_replica-IfRenamed,
}
use ensync.Reconcile.AlternateName.Laws.{contains, gen_alternate_name_total}

-- The names of a table.
unfoldable pub names_of : Map FileData → List Text
names_of t = map (λ e. e.0) t

contains-append_left :
    (k : Text) (l m : List Text) → contains k l ≡ true → contains k (l ++ m) ≡ true
unfolding contains
contains-append_left k [] m h = cc
contains-append_left k (x ∷ l) m h = ground (arith, contains-append_left k l m)

contains-append_right :
    (k : Text) (l m : List Text) → contains k m ≡ true → contains k (l ++ m) ≡ true
unfolding contains
contains-append_right k [] m h = h
contains-append_right k (x ∷ l) m h = ground (arith, contains-append_right k l m)

contains-names_of :
    (k : Text) (t : Map FileData) → contains_key k t ≡ true → contains k (names_of t) ≡ true
unfolding contains lookup names_of
contains-names_of k [] h = cc
contains-names_of k ((j, x) ∷ t) h = ground (arith, contains-names_of k t)

module _ {X Y E : Type 0} (Rx : Type 0) (is_fatal : E → Bool) (CLI : Replica X E)
    (ANC : Ancestor Y E) (SRV : Replica X E) (dir_name name : Text) where
  abbrev Dir : Type 0
  Dir = Walked Rx is_fatal CLI ANC SRV dir_name name

  abbrev files_at : ReconciliationSide → Dir → Map FileData
  files_at side d = files_of Rx is_fatal CLI ANC SRV side d

  -- The queue is no part of the tables.
  files_at-todo :
      (side : ReconciliationSide) (d : Dir) (l : List Text)
      → files_at side (record d { todo = l }) ≡ files_at side d
  files_at-todo client d l = refl
  files_at-todo server d l = refl

  -- What `rename_end` leaves.
  record EndMoved (new : Text) (side : ReconciliationSide) (x : FileData) (d : Dir) (w : Bool × Dir)
      : Type 0 where
    pub anc : w.1.anc ≡ d.anc
    pub todo : w.1.todo ≡ d.todo
    pub other : files_at (rev side) w.1 ≡ files_at (rev side) d
    pub moved : IfRenamed name new x (files_at side d) w.0 (files_at side w.1)

  rename_end-EndMoved :
      (new : Text) (side : ReconciliationSide) (x : FileData) (d : Dir)
      → lookup name (files_at side d) ≡ some x
      → Yields (EndMoved new side x d) (rename_end Rx is_fatal CLI ANC SRV side dir_name name new d)
  unfolding rename_end rev
  rename_end-EndMoved new client x d e =
      bind-Yields _
        (try_rename_replica-IfRenamed is_fatal CLI dir_name name new client_side d.cli d.log x e)
        (λ w r. yields (record { anc = refl; todo = refl; other = refl; moved = r }))
  rename_end-EndMoved new server x d e =
      bind-Yields _
        (try_rename_replica-IfRenamed is_fatal SRV dir_name name new server_side d.srv d.log x e)
        (λ w r. yields (record { anc = refl; todo = refl; other = refl; moved = r }))

  -- The effect of a split of `x`, the file of the end `side`.
  pub data SplitEffect (side : ReconciliationSide) (anc_state : SplitAncestorState) (x : FileData)
      (d : Dir) : ApplyResult × Dir → Type 0 where
    -- The end has the file under a new name, and both names are to be processed.
    split_done :
        {d' : Dir} (new : Text)
        → name_in_use d new ≡ false
        → d'.todo ≡ new ∷ name ∷ d.todo
        → RenamedTo name new x (files_at side d) (files_at side d')
        → AncestorSplit anc_state name new d.anc.files d'.anc.files
        → files_at (rev side) d' ≡ files_at (rev side) d
        → SplitEffect side anc_state x d (clean false, d')
    -- The ends are as they were.
    split_not_done :
        {d' : Dir}
        → d'.todo ≡ d.todo
        → files_at side d' ≡ files_at side d
        → files_at (rev side) d' ≡ files_at (rev side) d
        → SplitEffect side anc_state x d (fail, d')
    -- The end has the file under a new name, and the ancestor failed.
    split_half_done :
        {d' : Dir} (new : Text)
        → name_in_use d new ≡ false
        → d'.todo ≡ d.todo
        → RenamedTo name new x (files_at side d) (files_at side d')
        → files_at (rev side) d' ≡ files_at (rev side) d
        → SplitEffect side anc_state x d (fail, d')

  module _ (new : Text) (side : ReconciliationSide) (anc_state : SplitAncestorState) (x : FileData)
      (d : Dir) (free : name_in_use d new ≡ false) where
    -- The end has moved, with the ancestor set apart, or the end is as it was.
    unfoldable Half : Bool × Dir → Type 0
    Half (true, d') =
        (d'.todo ≡ d.todo)
        × (files_at (rev side) d' ≡ files_at (rev side) d)
        × RenamedTo name new x (files_at side d) (files_at side d')
        × Parted anc_state name d.anc.files d'.anc.files
    Half (false, d') = SplitEffect side anc_state x d (fail, d')

    abbrev Ended : Bool × Dir → Type 0
    Ended w = Yields (SplitEffect side anc_state x d) (requeue Rx is_fatal CLI ANC SRV name new w)

    rename_end-Half :
        (d' : Dir)
        → Stepped Rx is_fatal CLI ANC SRV dir_name name (Parted anc_state name) d (true, d')
        → lookup name (files_at side d) ≡ some x
        → Yields Half (rename_end Rx is_fatal CLI ANC SRV side dir_name name new d')
    unfolding Stepped Half
    rename_end-Half d' (k, p) at =
        let q = kept_files Rx is_fatal CLI ANC SRV side d d' k in
        let o = kept_files Rx is_fatal CLI ANC SRV (rev side) d d' k in
        weaken-Yields (rename_end-EndMoved new side x d' (ap (λ t. lookup name t) q ∙ at))
          (by_answer q o)
      where
        by_answer :
            files_at side d' ≡ files_at side d
            → files_at (rev side) d' ≡ files_at (rev side) d
            → (w : Bool × Dir) → EndMoved new side x d' w
            → Half w
        by_answer q o (true, w) m = (
          m.todo ∙ k.todo,
          m.other ∙ o,
          subst (λ t. RenamedTo name new x t (files_at side w)) q m.moved,
          subst (λ (a : End ANC.replica). Parted anc_state name d.anc.files a.files) (sym m.anc) p,
        )
        by_answer q o (false, w) m = split_not_done (m.todo ∙ k.todo) (m.moved ∙ q) (m.other ∙ o)

    rejoin-Ended :
        (d' : Dir)
        → Half (true, d')
        → Yields Ended (rejoin_ancestor Rx is_fatal CLI ANC SRV anc_state dir_name name new d')
    unfolding Half requeue Stepped
    rejoin-Ended d' (t, o, m, p) =
        weaken-Yields
          (rejoin_ancestor-Stepped Rx is_fatal CLI ANC SRV dir_name name new anc_state d d' p)
          by_answer
      where
        by_answer :
            (w : Bool × Dir)
            → Stepped Rx is_fatal CLI ANC SRV dir_name name
                (λ t t'. AncestorSplit anc_state name new d.anc.files t')
                d'
                w
            → Ended w
        by_answer (true, w) (k, a) =
            let l = new ∷ name ∷ w.todo in
            let q = files_at-todo side w l ∙ kept_files Rx is_fatal CLI ANC SRV side d' w k in
            yields (
              split_done new free (ap (λ l. new ∷ name ∷ l) (k.todo ∙ t))
                (subst (λ t. RenamedTo name new x (files_at side d) t) (sym q) m) a
                (files_at-todo (rev side) w l
                  ∙ kept_files Rx is_fatal CLI ANC SRV (rev side) d' w k
                  ∙ o))
        by_answer (false, w) (k, a) = yields (
            split_half_done new free (k.todo ∙ t)
              (subst (λ t. RenamedTo name new x (files_at side d) t)
                (sym (kept_files Rx is_fatal CLI ANC SRV side d' w k)) m)
              (kept_files Rx is_fatal CLI ANC SRV (rev side) d' w k ∙ o))

    split_files-Ended :
        (H : HasHeights ANC.replica) (depth : ℕ)
        → H.height d.anc.dir ≤ depth
        → lookup name (files_at side d) ≡ some x
        → Yields Ended
            (split_files Rx is_fatal CLI ANC SRV depth side anc_state dir_name name new d)
    unfolding split_files Half requeue Stepped
    split_files-Ended H depth h at =
        and_then-Yields _
          (and_then-Yields {Q = Half} _
            (part_ancestor-Stepped Rx is_fatal CLI ANC SRV dir_name name H depth anc_state d h)
            (λ d' k. rename_end-Half d' k at) not_parted)
          rejoin-Ended ended
      where
        not_parted :
            (d' : Dir)
            → Stepped Rx is_fatal CLI ANC SRV dir_name name (Parted anc_state name) d (false, d')
            → Half (false, d')
        not_parted d' (k, _) =
            split_not_done k.todo (kept_files Rx is_fatal CLI ANC SRV side d d' k)
              (kept_files Rx is_fatal CLI ANC SRV (rev side) d d' k)

        ended : (d' : Dir) → Half (false, d') → Ended (false, d')
        ended d' e = yields e

  -- Every name that a table has is in the list.
  abbrev pub Covers : Dir → List Text → Type 0
  Covers d names = (k : Text) → name_in_use d k ≡ true → contains k names ≡ true

  pub in_use-contains :
      (d : Dir) (k : Text)
      → name_in_use d k ≡ true
      → contains k (names_of d.cli.files ++ (names_of d.anc.files ++ names_of d.srv.files)) ≡ true
  unfolding name_in_use
  in_use-contains d k h = ground (
    arith,
    contains-names_of k d.cli.files,
    contains-names_of k d.anc.files,
    contains-names_of k d.srv.files,
    contains-append_left k (names_of d.cli.files) (names_of d.anc.files ++ names_of d.srv.files),
    contains-append_right k (names_of d.cli.files) (names_of d.anc.files ++ names_of d.srv.files),
    contains-append_left k (names_of d.anc.files) (names_of d.srv.files),
    contains-append_right k (names_of d.anc.files) (names_of d.srv.files),
  )

  -- A split ends without a panic if the end has the file, and with enough depth for the ancestor's
  -- tree it is not cut off, for tables of fewer than `2 ^ 64 - 1` names. Either the end has the file
  -- under a name that was free, the ancestor's entry is removed or has moved along, and both names are
  -- to be processed; or the split fails, and the end is as it was or has the file under a free name.
  -- The other end is as it was.
  pub apply_reconciliation-SplitEffect :
      (H : HasHeights ANC.replica) (interrupted : Bool) (depth : ℕ) (side : ReconciliationSide)
      (anc_state : SplitAncestorState) (old_cli old_srv : Option FileData) (x : FileData) (d : Dir)
      → H.height d.anc.dir ≤ depth
      → lookup name (files_at side d) ≡ some x
      → (names : List Text) → Covers d names
      → length names < 2 ^ 64 - 1
      → Yields (SplitEffect side anc_state x d) (
          apply_reconciliation Rx is_fatal CLI ANC SRV interrupted depth dir_name name
            (split side anc_state)
            old_cli
            old_srv
            d)
  unfolding apply_reconciliation apply_recon apply_split
  apply_reconciliation-SplitEffect H interrupted depth side anc_state old_cli old_srv x d h at names
        covers fits =
      let (new, e, f) = gen_alternate_name_total name (name_in_use d) names covers fits in
      elim (Bool-cases (should_stop Rx is_fatal CLI ANC SRV interrupted d)) [
        | inl stop ↦ rw stop (yields (split_not_done refl refl refl))
        | inr go ↦
            rw (go, e)
              (bind-Yields _ (split_files-Ended new side anc_state x d f.is_free H depth h at)
                (λ w y. y))
      ]
