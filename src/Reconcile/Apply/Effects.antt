-- ===== src/Reconcile/Apply/Effects.antt =====
-- src/reconcile/mutate.rs: what `apply_reconciliation` makes of the tables of a directory, for the
-- reconciliations that do not split files.
use mathlib.Core.Path.{subst}
use ensync.Base.{
  ℕ, ◌≤◌, ◌≡◌, refl, sym, ap, ◌∙◌, Bool, true, false, Option, none, some, if◌then◌else◌, arith,
  Bool-cases, inl, inr,
}
use ensync.Base.Text.{Text}
use ensync.Base.Map.{Map, is_some, contains_key}
use ensync.FileData.{FileData, directory, FileMode, is_dir, file_eq}
use ensync.Replica.{ok, Replica, Ancestor, End}
use ensync.Reconcile.Choose.{is_special, in_sync, use_side, ReconciliationSide, client, server, rev}
use ensync.Reconcile.Context.{DirContext, to_server, from_server, to_client, from_client}
use ensync.Reconcile.Mutate.Ends.{Yields, yields, bind-Yields}
use ensync.Reconcile.Mutate.Depth.{HasHeights}
use ensync.Reconcile.Mutate.Tables.{SetTo}
use ensync.Reconcile.Mutate.Uses.{
  Changed, Kept, AncestorSet, try_replace_ancestor-AncestorSet, UseEffect, replaced, not_replaced,
  deleting, not_deleting, IsSafeUse, apply_use-UseEffect,
}
use ensync.Reconcile.Mutate.{ApplyResult, clean, fail, recursive_delete, World, Used}
use ensync.Reconcile.Apply.{
  should_stop, set_ancestor, write_back, written, apply_recon, apply_reconciliation,
}

-- The file at an end.
abbrev pub old_of : ReconciliationSide → Option FileData → Option FileData → Option FileData
old_of client old_cli old_srv = old_cli
old_of server old_cli old_srv = old_srv

module _ {X Y E : Type 0} (Rx : Type 0) (is_fatal : E → Bool) (CLI : Replica X E)
    (ANC : Ancestor Y E) (SRV : Replica X E) where
  abbrev pub D : Type 0
  D = DirContext CLI ANC SRV Rx

  -- The table of an end.
  abbrev pub files_of : ReconciliationSide → D → Map FileData
  files_of client d = d.cli.files
  files_of server d = d.srv.files

  -- The ends and the queue are as they were.
  pub record EndsKept (d d' : D) : Type 0 where
    pub cli : d'.cli ≡ d.cli
    pub srv : d'.srv ≡ d.srv
    pub todo : d'.todo ≡ d.todo

  pub kept_files :
      (side : ReconciliationSide) (d d' : D) → EndsKept d d' → files_of side d' ≡ files_of side d
  kept_files client d d' k = ap (λ (e : End CLI). e.files) k.cli
  kept_files server d d' k = ap (λ (e : End SRV). e.files) k.srv

  -- What `set_ancestor` leaves.
  unfoldable pub WasSet : Text → Option FileData → D → Bool × D → Type 0
  WasSet name new d (b, d') =
      EndsKept d d'
      × (if b then SetTo name new d.anc.files d'.anc.files else d'.anc.files ≡ d.anc.files)

  module _ (H : HasHeights ANC.replica) where
    pub set_ancestor-WasSet :
        (depth : ℕ) (dir_name name : Text) (new : Option FileData) (d : D)
        → H.height d.anc.dir ≤ depth
        → Yields
            (WasSet name new d)
            (set_ancestor Rx is_fatal CLI ANC SRV depth dir_name name new d)
    unfolding set_ancestor WasSet AncestorSet
    set_ancestor-WasSet depth dir_name name new d h =
        bind-Yields _
          (try_replace_ancestor-AncestorSet is_fatal CLI ANC SRV H depth dir_name name new
            (to_client d) h)
          λ (b, w) (q, q', t). yields (record { cli = q; srv = q'; todo = refl }, t)

    -- The effect of a reconciliation that uses one end for the other, `dst`, on the tables.
    pub data Effect (name : Text) (old_dst old_src : Option FileData) (dst : ReconciliationSide)
        (d : D) : ApplyResult × D → Type 0 where
      -- Both changed, to the same file.
      settled :
          (r : Option FileData) {d' : D}
          → SetTo name r (files_of dst d) (files_of dst d')
          → SetTo name r d.anc.files d'.anc.files
          → files_of (rev dst) d' ≡ files_of (rev dst) d
          → Effect name old_dst old_src dst d (clean (is_dir r), d')
      -- The end did not change, and the ancestor was not touched.
      unchanged :
          {d' : D}
          → d'.anc ≡ d.anc
          → d'.cli.files ≡ d.cli.files
          → d'.srv.files ≡ d.srv.files
          → Effect name old_dst old_src dst d (fail, d')
      -- The end changed, and the ancestor then failed.
      half_done :
          (r : Option FileData) {d' : D}
          → SetTo name r (files_of dst d) (files_of dst d')
          → d'.anc.files ≡ d.anc.files
          → files_of (rev dst) d' ≡ files_of (rev dst) d
          → Effect name old_dst old_src dst d (fail, d')
      -- A directory is to be deleted: the ancestor has it, and the ends have not changed.
      to_delete :
          {mode : FileMode} {d' : D}
          → old_dst ≡ some (directory mode)
          → old_src ≡ none
          → SetTo name old_dst d.anc.files d'.anc.files
          → d'.cli ≡ d.cli
          → d'.srv ≡ d.srv
          → Effect name old_dst old_src dst d (recursive_delete dst mode, d')
      -- The ancestor could not be made to have it.
      not_to_delete :
          {d' : D}
          → d'.anc.files ≡ d.anc.files
          → d'.cli ≡ d.cli
          → d'.srv ≡ d.srv
          → Effect name old_dst old_src dst d (fail, d')

    -- Once the end has changed.
    write_back-Effect :
        (depth : ℕ) (dir_name name : Text) (old_dst old_src r : Option FileData)
        (dst : ReconciliationSide) (d d' : D)
        → H.height d'.anc.dir ≤ depth
        → d'.anc ≡ d.anc
        → SetTo name r (files_of dst d) (files_of dst d')
        → files_of (rev dst) d' ≡ files_of (rev dst) d
        → Yields
            (Effect name old_dst old_src dst d)
            (write_back Rx is_fatal CLI ANC SRV depth dir_name name (ok (some r), d'))
    unfolding write_back written WasSet
    write_back-Effect depth dir_name name old_dst old_src r dst d d' h q s other =
        bind-Yields _ (set_ancestor-WasSet depth dir_name name r d' h) by_answer
      where
        by_answer :
            (a : Bool × D)
            → WasSet name r d' a
            → Yields (Effect name old_dst old_src dst d) (written Rx is_fatal CLI ANC SRV r a)
        by_answer (true, d'') (k, t) = yields (
            settled r
              (subst (λ t. SetTo name r (files_of dst d) t) (sym (kept_files dst d' d'' k)) s)
              (subst (λ (a : End ANC.replica). SetTo name r a.files d''.anc.files) q t)
              (kept_files (rev dst) d' d'' k ∙ other))
        by_answer (false, d'') (k, t) = yields (
            half_done r
              (subst (λ t. SetTo name r (files_of dst d) t) (sym (kept_files dst d' d'' k)) s)
              (t ∙ ap (λ (a : End ANC.replica). a.files) q) (kept_files (rev dst) d' d'' k ∙ other))

    module _ (depth : ℕ) (dir_name name : Text) (old_cli old_srv : Option FileData) (d : D)
        (h : H.height d.anc.dir ≤ depth) where
      use_client-Effect :
          contains_key name d.srv.files ≡ is_some old_srv
          → file_eq old_srv old_cli ≡ false
          → IsSafeUse old_srv old_cli
          → Yields (Effect name old_srv old_cli server d) (
              apply_recon Rx is_fatal CLI ANC SRV depth dir_name name
                (use_side client)
                old_cli
                old_srv
                d)
      unfolding apply_recon Changed Kept AncestorSet write_back rev
      use_client-Effect there differ safe =
          bind-Yields _
            (apply_use-UseEffect is_fatal SRV ANC CLI H depth dir_name name server (to_server d) h
              old_srv old_cli there differ safe)
            by_effect
        where
          by_effect :
              (a : Used is_fatal SRV ANC CLI × World SRV ANC CLI)
              → UseEffect is_fatal SRV ANC CLI H name old_srv old_cli server (to_server d) a
              → Yields
                  (Effect name old_srv old_cli server d)
                  (write_back Rx is_fatal CLI ANC SRV depth dir_name name (a.0, from_server d a.1))
          by_effect _ (replaced {r} {w'} (k, s)) =
              write_back-Effect depth dir_name name old_srv old_cli r server d (from_server d w')
                (omega (arith, h, ap (λ (e : End ANC.replica). H.height e.dir) k.anc)) k.anc s k.src
          by_effect _ (not_replaced {w'} (k, q)) = yields (unchanged k.anc k.src q)
          by_effect _ (deleting e e' (q, q', t)) = yields (to_delete e e' t q' q)
          by_effect _ (not_deleting (q, q', t)) = yields (not_to_delete t q' q)

      use_server-Effect :
          contains_key name d.cli.files ≡ is_some old_cli
          → file_eq old_cli old_srv ≡ false
          → IsSafeUse old_cli old_srv
          → Yields (Effect name old_cli old_srv client d) (
              apply_recon Rx is_fatal CLI ANC SRV depth dir_name name
                (use_side server)
                old_cli
                old_srv
                d)
      unfolding apply_recon Changed Kept AncestorSet write_back rev
      use_server-Effect there differ safe =
          bind-Yields _
            (apply_use-UseEffect is_fatal CLI ANC SRV H depth dir_name name client (to_client d) h
              old_cli old_srv there differ safe)
            by_effect
        where
          by_effect :
              (a : Used is_fatal CLI ANC SRV × World CLI ANC SRV)
              → UseEffect is_fatal CLI ANC SRV H name old_cli old_srv client (to_client d) a
              → Yields
                  (Effect name old_cli old_srv client d)
                  (write_back Rx is_fatal CLI ANC SRV depth dir_name name (a.0, from_client d a.1))
          by_effect _ (replaced {r} {w'} (k, s)) =
              write_back-Effect depth dir_name name old_cli old_srv r client d (from_client d w')
                (omega (arith, h, ap (λ (e : End ANC.replica). H.height e.dir) k.anc)) k.anc s k.src
          by_effect _ (not_replaced {w'} (k, q)) = yields (unchanged k.anc q k.src)
          by_effect _ (deleting e e' (q, q', t)) = yields (to_delete e e' t q q')
          by_effect _ (not_deleting (q, q', t)) = yields (not_to_delete t q q')

    -- A reconciliation that uses the end `src` ends without a panic, and with enough depth for the
    -- ancestor's tree it is not cut off, if the other end has a file under the name as it is said to,
    -- which is not equal to that of `src`, and is a directory only if that of `src` is one or is
    -- absent. In every case it has one of the effects of `Effect`: both the end and the ancestor get
    -- one and the same file under the name; or the end fails and the ancestor is not touched; or the
    -- end gets the file and the ancestor keeps its table; or a directory is announced for deletion
    -- and the ancestor gets it; or not even that. No other name and no table of `src` changes.
    pub apply_reconciliation-Effect :
        (interrupted : Bool) (depth : ℕ) (dir_name name : Text) (src : ReconciliationSide)
        (old_cli old_srv : Option FileData) (d : D)
        → H.height d.anc.dir ≤ depth
        → contains_key name (files_of (rev src) d) ≡ is_some (old_of (rev src) old_cli old_srv)
        → file_eq (old_of (rev src) old_cli old_srv) (old_of src old_cli old_srv) ≡ false
        → IsSafeUse (old_of (rev src) old_cli old_srv) (old_of src old_cli old_srv)
        → Yields
            (Effect name
              (old_of (rev src) old_cli old_srv)
              (old_of src old_cli old_srv)
              (rev src)
              d)
            (apply_reconciliation Rx is_fatal CLI ANC SRV interrupted depth dir_name name
              (use_side src)
              old_cli
              old_srv
              d)
    unfolding apply_reconciliation rev
    apply_reconciliation-Effect interrupted depth dir_name name client old_cli old_srv d h there
          differ safe =
        elim (Bool-cases (should_stop Rx is_fatal CLI ANC SRV interrupted d)) [
          | inl stop ↦ rw stop (yields (unchanged refl refl refl))
          | inr go ↦
              rw go (use_client-Effect depth dir_name name old_cli old_srv d h there differ safe)
        ]
    apply_reconciliation-Effect interrupted depth dir_name name server old_cli old_srv d h there
          differ safe =
        elim (Bool-cases (should_stop Rx is_fatal CLI ANC SRV interrupted d)) [
          | inl stop ↦ rw stop (yields (unchanged refl refl refl))
          | inr go ↦
              rw go (use_server-Effect depth dir_name name old_cli old_srv d h there differ safe)
        ]

    -- The effect of a reconciliation of files that are in sync.
    pub data InSyncEffect (name : Text) (old : Option FileData) (d : D)
        : ApplyResult × D → Type 0 where
      recorded :
          {d' : D}
          → EndsKept d d'
          → SetTo name old d.anc.files d'.anc.files
          → InSyncEffect name old d (clean (is_dir old), d')
      not_recorded :
          {d' : D} → EndsKept d d' → d'.anc.files ≡ d.anc.files → InSyncEffect name old d (fail, d')

    -- For files in sync, if they are not special files, the ends are left as they are, and the ancestor
    -- gets the client's file, or keeps its table and the reconciliation fails.
    pub apply_reconciliation-in_sync :
        (interrupted : Bool) (depth : ℕ) (dir_name name : Text) (old_cli old_srv : Option FileData)
        (d : D)
        → H.height d.anc.dir ≤ depth
        → is_special old_cli ≡ false
        → Yields (InSyncEffect name old_cli d) (
            apply_reconciliation Rx is_fatal CLI ANC SRV interrupted depth dir_name name in_sync
              old_cli old_srv d)
    unfolding apply_reconciliation apply_recon WasSet written
    apply_reconciliation-in_sync interrupted depth dir_name name old_cli old_srv d h plain =
        elim (Bool-cases (should_stop Rx is_fatal CLI ANC SRV interrupted d)) [
          | inl stop ↦
              rw stop (yields (not_recorded (record { cli = refl; srv = refl; todo = refl }) refl))
          | inr go ↦
              rw (go, plain)
                (bind-Yields _ (set_ancestor-WasSet depth dir_name name old_cli d h) by_answer)
        ]
      where
        by_answer :
            (a : Bool × D)
            → WasSet name old_cli d a
            → Yields (InSyncEffect name old_cli d) (written Rx is_fatal CLI ANC SRV old_cli a)
        by_answer (true, d') (k, t) = yields (recorded k t)
        by_answer (false, d') (k, t) = yields (not_recorded k t)
