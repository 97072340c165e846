-- ===== src/Reconcile/Mutate/Tables.antt =====
-- src/reconcile/mutate.rs: what `replace_ancestor` makes of the table of a directory's files.
use mathlib.Core.Path.{subst}
use ensync.Base.{
  ℕ, ◌≤◌, ◌≡◌, refl, sym, ap, ◌∙◌, Bool, true, false, ◌&&◌, not, Option, none, some, if◌then◌else◌,
  arith, Bool-cases, inl, inr,
}
use ensync.Base.Text.{Text, text_eq, text_eq_iff, text_eq_refl}
use ensync.Base.Map.{Map, lookup, lookup-insert, lookup-erase}
use ensync.FileData.{FileData, is_dir, file_eq}
use ensync.FileData.Compare.{eq_of_file_eq}
use ensync.Replica.{Answer, ok, err, done, Replica, Ancestor, End}
use ensync.Reconcile.Mutate.Chain.{M, within, take_out, put_new, put_over, call}
use ensync.Reconcile.Mutate.Ends.{Ends, fine, broken, bind-Ends, weaken-Ends}
use ensync.Reconcile.Mutate.Depth.{HasHeights, clear_subdir-keeps}
use ensync.Reconcile.Mutate.ReplaceAncestor.{clear_subdir, change_ancestor, replace_ancestor}

-- The table `t'` is `t` with `new` under `name`.
abbrev pub SetTo : Text → Option FileData → Map FileData → Map FileData → Type 0
SetTo name new t t' = (k : Text) → lookup k t' ≡ (if text_eq name k then new else lookup k t)

-- Nothing has changed in the table.
abbrev pub Same : Map FileData → Map FileData → Type 0
Same t t' = (k : Text) → lookup k t' ≡ lookup k t

pub SetTo-lookup :
    (name : Text) (new : Option FileData) (t t' : Map FileData)
    → SetTo name new t t'
    → lookup name t' ≡ new
SetTo-lookup name new t t' h = ground (arith, h name, text_eq_refl name)

-- The same entry again changes nothing.
pub SetTo-same :
    (name : Text) (new : Option FileData) (t : Map FileData)
    → lookup name t ≡ new
    → SetTo name new t t
SetTo-same name new t h k = elim (Bool-cases (text_eq name k)) [
  | inl e ↦ rw e (ap (λ x. lookup x t) (sym ((text_eq_iff name k).0 e)) ∙ h)
  | inr e ↦ rw e refl
]

module _ {X E : Type 0} {R : Replica X E} (e : End R) (name : Text) where
  abbrev pub SetsTo : Option FileData → Unit {0} → End R → Type 0
  SetsTo new _ e' = SetTo name new e.files e'.files

  module _ {Err : E → End R → Type 0} (fd : FileData) where
    pub take_out-Ends : lookup name e.files ≡ some fd → Ends (SetsTo none) Err (take_out name e)
    unfolding take_out
    take_out-Ends h = rw (h, take_out) (fine (λ k. lookup-erase k name e.files))

    pub put_over-Ends :
        (new : FileData)
        → lookup name e.files ≡ some fd
        → Ends (SetsTo (some new)) Err (put_over name new e)
    unfolding put_over
    put_over-Ends new h = rw (h, put_over) (fine (λ k. lookup-insert k name new e.files))

    pub put_new-Ends : lookup name e.files ≡ none → Ends (SetsTo (some fd)) Err (put_new name fd e)
    unfolding put_new
    put_new-Ends h = rw (h, put_new) (fine (λ k. lookup-insert k name fd e.files))

-- An operation on the directory leaves the table alone.
pub call-Ends :
    {X E A : Type 0} {R : Replica X E}
    (op : R.Directory × R.State → Answer E A × (R.Directory × R.State)) (e : End R)
    → Ends (λ a e'. e'.files ≡ e.files) (λ x e'. e'.files ≡ e.files) (call op e)
call-Ends {E} {A} {R} op e = by_answer (op (e.dir, e.state))
  where
    by_answer :
        (r : Answer E A × (R.Directory × R.State))
        → Ends
            (λ a e'. e'.files ≡ e.files)
            (λ x e'. e'.files ≡ e.files)
            (within (λ (d, s). record e { dir = d; state = s }) (done r))
    by_answer (ok a, (d, s)) = fine refl
    by_answer (err x, (d, s)) = broken refl

-- The same, from a table that is equal.
pub table_of :
    {X E : Type 0} {R : Replica X E} (name : Text) (e : End R) (new : Option FileData) (e' : End R)
    {m : M E (End R) Unit}
    → e'.files ≡ e.files
    → Ends (SetsTo e' name new) (λ _ e''. e''.files ≡ e'.files) m
    → Ends (SetsTo e name new) (λ _ e''. e''.files ≡ e.files) m
table_of name e new e' q h =
    weaken-Ends h (λ _ e'' s. subst (λ t. SetTo name new t e''.files) q s) (λ _ e'' s. s ∙ q)

change_ancestor-SetsTo :
    {X E : Type 0} (A : Ancestor X E) (name : Text) (old new : Option FileData) (e : End A.replica)
    → lookup name e.files ≡ old
    → Ends (SetsTo e name new) (λ _ e'. e'.files ≡ e.files) (change_ancestor A name old new e)
unfolding change_ancestor
change_ancestor-SetsTo A name none none e at = fine (SetTo-same name none e.files at)
change_ancestor-SetsTo A name (some o) none e at =
    bind-Ends _ (call-Ends (A.replica.remove (record { name = name; fd = o })) e) (λ x e' q. q)
      λ _ e' q. table_of name e none e' q (take_out-Ends e' name o (ap (λ t. lookup name t) q ∙ at))
change_ancestor-SetsTo A name none (some n) e at =
    bind-Ends _
      (call-Ends (A.replica.create (record { name = name; fd = n }) (A.null_transfer n)) e)
      (λ x e' q. q)
      λ _ e' q.
        table_of name e (some n) e' q (put_new-Ends e' name n (ap (λ t. lookup name t) q ∙ at))
change_ancestor-SetsTo A name (some o) (some n) e at =
    bind-Ends _ (call-Ends (A.replica.update name o n (A.null_transfer n)) e) (λ x e' q. q)
      λ _ e' q.
        table_of name e (some n) e' q (put_over-Ends e' name o n (ap (λ t. lookup name t) q ∙ at))

module _ {X E : Type 0} (A : Ancestor X E) (H : HasHeights A.replica) where
  -- The table after `replace_ancestor`, or the table as it was if a call failed.
  pub replace_ancestor-SetsTo :
      (depth : ℕ) (name : Text) (old new : Option FileData) (e : End A.replica)
      → lookup name e.files ≡ old
      → H.height e.dir ≤ depth
      → Ends
          (SetsTo e name new)
          (λ _ e'. e'.files ≡ e.files)
          (replace_ancestor A depth name old new e)
  unfolding replace_ancestor
  replace_ancestor-SetsTo depth name old new e at h = elim (Bool-cases (file_eq old new)) [
    | inl same ↦ rw same (fine (SetTo-same name new e.files (at ∙ eq_of_file_eq old new same)))
    | inr differ ↦ rw differ (
        bind-Ends _ (cleared (is_dir old && not (is_dir new))) (λ x e' q. q)
          λ _ e' q.
            table_of name e new e' q
              (change_ancestor-SetsTo A name old new e' (ap (λ t. lookup name t) q ∙ at)))
  ]
    where
      cleared :
          (b : Bool)
          → Ends
              (λ _ e'. e'.files ≡ e.files)
              (λ _ e'. e'.files ≡ e.files)
              (if b then clear_subdir A depth name e else done (ok tt, e))
      cleared true = clear_subdir-keeps A H depth name e h
      cleared false = fine refl
