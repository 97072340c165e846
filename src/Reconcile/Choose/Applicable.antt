-- ===== src/Reconcile/Choose/Applicable.antt =====
-- src/reconcile/compute.rs: the results of `choose_reconciliation` fit what `apply_reconciliation`
-- of src/reconcile/mutate.rs asserts.
use ensync.Base.{◌≡◌, refl, ◌∙◌, false, Option, none, some, arith, Bool-cases, inl, inr}
use ensync.FileData.{FileData, directory, regular, symlink, special, is_dir, file_eq}
use ensync.FileData.Compare.{not_equal, matches_sym}
use ensync.SyncMode.{SyncMode}
use ensync.Reconcile.Choose.{
  Reconciliation, in_sync, unsync, irreconcilable, use_side, split, move, ReconciliationSide,
  client, server, choose_reconciliation, choose_arm, agree, replace_side, create_file, delete_file,
}
use ensync.Reconcile.Choose.Rules.{choose_rule, update_file_rule, use_client_of, use_server_of}
use ensync.Reconcile.Mutate.Uses.{IsSafeUse}
use ensync.Reconcile.Apply.Effects.{old_of}

-- What a reconciliation needs of the files at both ends.
abbrev pub IsApplicable : Option FileData → Option FileData → Reconciliation → Type 0
IsApplicable cli srv in_sync = Unit
IsApplicable cli srv unsync = Unit
IsApplicable cli srv irreconcilable = Unit
IsApplicable cli srv (use_side client) = (file_eq srv cli ≡ false) × IsSafeUse srv cli
IsApplicable cli srv (use_side server) = (file_eq cli srv ≡ false) × IsSafeUse cli srv
IsApplicable cli srv (split side _) = (x : FileData) × (old_of side cli srv ≡ some x)

-- What `replace_side` gives for files that differ.
module _ (P : Reconciliation → Type 0) (ds ss : ReconciliationSide) where
  -- A directory is replaced by a directory, or any other file by any file.
  replace_side_rule :
      (dst src : Option FileData)
      → (IsSafeUse dst src → P (use_side ss))
      → ((x : FileData) → dst ≡ some x → P (split ds move))
      → P (replace_side dst ds src ss)
  unfolding replace_side is_dir
  replace_side_rule none src uses sp = uses λ q. cc
  replace_side_rule (some d) none uses sp = uses λ q. refl
  replace_side_rule (some d) (some (directory m)) uses sp = uses λ q. refl
  replace_side_rule (some (directory n)) (some (regular _ _ _ _)) uses sp = sp (directory n) refl
  replace_side_rule (some (directory n)) (some (symlink _)) uses sp = sp (directory n) refl
  replace_side_rule (some (directory n)) (some special) uses sp = sp (directory n) refl
  replace_side_rule (some (regular _ _ _ _)) (some (regular _ _ _ _)) uses sp = uses λ q. cc
  replace_side_rule (some (regular _ _ _ _)) (some (symlink _)) uses sp = uses λ q. cc
  replace_side_rule (some (regular _ _ _ _)) (some special) uses sp = uses λ q. cc
  replace_side_rule (some (symlink _)) (some (regular _ _ _ _)) uses sp = uses λ q. cc
  replace_side_rule (some (symlink _)) (some (symlink _)) uses sp = uses λ q. cc
  replace_side_rule (some (symlink _)) (some special) uses sp = uses λ q. cc
  replace_side_rule (some special) (some (regular _ _ _ _)) uses sp = uses λ q. cc
  replace_side_rule (some special) (some (symlink _)) uses sp = uses λ q. cc
  replace_side_rule (some special) (some special) uses sp = uses λ q. cc

differ :
    (cli srv : Option FileData)
    → agree cli srv ≡ false
    → (file_eq cli srv ≡ false) × (file_eq srv cli ≡ false)
unfolding agree file_eq
differ none none h = cc
differ none (some s) h = (refl, refl)
differ (some c) none h = (refl, refl)
differ (some c) (some s) h = (not_equal c s h, not_equal s c (matches_sym s c ∙ h))

module _ (cli srv : Option FileData) (h : agree cli srv ≡ false) where
  use_server-IsApplicable : IsApplicable cli srv (use_server_of cli srv)
  use_server-IsApplicable =
      replace_side_rule (IsApplicable cli srv) client server cli srv
        (λ safe. ((differ cli srv h).0, safe)) (λ x q. (x, q))

  use_client-IsApplicable : IsApplicable cli srv (use_client_of cli srv)
  use_client-IsApplicable =
      replace_side_rule (IsApplicable cli srv) server client srv cli
        (λ safe. ((differ cli srv h).1, safe)) (λ x q. (x, q))

arm-IsApplicable :
    (cli anc srv : Option FileData) (m : SyncMode)
    → IsApplicable cli srv (use_server_of cli srv)
    → IsApplicable cli srv (use_client_of cli srv)
    → IsApplicable cli srv
        (choose_arm cli anc srv m (use_client_of cli srv) (use_server_of cli srv)).0
unfolding choose_arm create_file delete_file
arm-IsApplicable none a none m us uc = tt
arm-IsApplicable (some c) none none m us uc = ground arith
arm-IsApplicable none none (some s) m us uc = ground arith
arm-IsApplicable (some c) (some a) none m us uc = ground arith
arm-IsApplicable none (some a) (some s) m us uc = ground arith
arm-IsApplicable (some c) none (some s) m us uc =
    update_file_rule (IsApplicable (some c) (some s)) m _ _ c none s (λ _. us) (λ _. uc) (λ _. tt)
      tt (λ _. tt) (λ _ _ _. (s, refl))
arm-IsApplicable (some c) (some a) (some s) m us uc =
    update_file_rule (IsApplicable (some c) (some s)) m _ _ c (some a) s (λ _. us) (λ _. uc)
      (λ _. tt) tt (λ _. tt) (λ _ _ _. (s, refl))

pub choose_reconciliation-IsApplicable :
    (cli anc srv : Option FileData) (m : SyncMode)
    → IsApplicable cli srv (choose_reconciliation cli anc srv m).0
unfolding choose_reconciliation
choose_reconciliation-IsApplicable cli anc srv m = elim (Bool-cases (agree cli srv)) [
  | inl same ↦ rw same tt
  | inr h ↦ choose_rule (IsApplicable cli srv) cli anc srv m tt tt (
      arm-IsApplicable cli anc srv m (use_server-IsApplicable cli srv h)
        (use_client-IsApplicable cli srv h))
]
