-- ===== src/Reconcile/Choose/Modes.antt =====
-- src/reconcile/compute.rs: what does not depend on the mode, and what a mode that is on decides.
use ensync.Base.{◌≡◌, true, false, Option, none, some, arith}
use ensync.FileData.{FileData}
use ensync.SyncMode.{SyncMode, is_on}
use ensync.Reconcile.Choose.{choose_reconciliation, Reconciliation, unsync, irreconcilable}
use ensync.Reconcile.Choose.{update_file, create_file, delete_file, propagate_or_revert, choose_arm}
use ensync.Reconcile.Choose.{choose_mode_mode, choose_mode_content, choose_content_mode, is_special}
use ensync.Reconcile.Choose.{choose_content_content, agree, replace_side, need_split}
use ensync.Reconcile.Choose.{
  use_side, split, Conflict, rev, client, server, ReconciliationSide, edit_delete, no_conflict,
  edit_edit,
}
use ensync.Reconcile.Choose.Rules.{use_client_of, use_server_of}

update_conflict :
    (c : FileData) (a : Option FileData) (s : FileData) (m n : SyncMode) (uc us : Reconciliation)
    → (update_file c a s m uc us).1 ≡ (update_file c a s n uc us).1
unfolding update_file
update_conflict c a s m n uc us = ground arith

-- The kind of conflict that is reported depends on the files alone, not on the mode.
pub choose_conflict :
    (cli anc srv : Option FileData) (m n : SyncMode)
    → (choose_reconciliation cli anc srv m).1 ≡ (choose_reconciliation cli anc srv n).1
unfolding choose_reconciliation choose_arm create_file delete_file
choose_conflict none a none m n = ground arith
choose_conflict (some c) none none m n = ground arith
choose_conflict none none (some s) m n = ground arith
choose_conflict (some c) (some a) none m n = ground arith
choose_conflict none (some a) (some s) m n = ground arith
choose_conflict (some c) none (some s) m n = ground (
  arith,
  update_conflict c none s m n (use_client_of (some c) (some s)) (use_server_of (some c) (some s)),
)
choose_conflict (some c) (some a) (some s) m n = ground (
  arith,
  update_conflict c (some a) s m n (use_client_of (some c) (some s))
      (use_server_of (some c) (some s)),
)

-- The file is to be brought over, renamed, or is in sync already.
abbrev pub IsDecided : Reconciliation → Type 0
IsDecided unsync = ⊥
IsDecided irreconcilable = ⊥
IsDecided _ = Unit

-- Every setting of the mode is at least `On`.
pub record IsAllOn (m : SyncMode) : Type 0 where
  pub inbound_create : is_on m.inbound.create ≡ true
  pub inbound_update : is_on m.inbound.update ≡ true
  pub inbound_delete : is_on m.inbound.delete ≡ true
  pub outbound_create : is_on m.outbound.create ≡ true
  pub outbound_update : is_on m.outbound.update ≡ true
  pub outbound_delete : is_on m.outbound.delete ≡ true

replace_side-IsDecided :
    (d s : Option FileData) (x y : ReconciliationSide) → IsDecided (replace_side d x s y)
unfolding replace_side
replace_side-IsDecided d s x y = ground arith

update-IsDecided :
    (c : FileData) (a : Option FileData) (s : FileData) (m : SyncMode) (uc us : Reconciliation)
    → IsAllOn m
    → IsDecided uc
    → IsDecided us
    → IsDecided (update_file c a s m uc us).0
unfolding update_file propagate_or_revert need_split choose_mode_mode choose_mode_content
    choose_content_mode choose_content_content is_on
update-IsDecided c a s m uc us v hc hs = ground arith

-- With a mode whose settings are all on (as "sync" and "aggressive-sync" have them), every file
-- that is not special at either end is decided: none is left unsynced or irreconcilable.
pub choose_reconciliation-IsDecided :
    (cli anc srv : Option FileData) (m : SyncMode)
    → IsAllOn m
    → is_special cli ≡ false
    → is_special srv ≡ false
    → IsDecided (choose_reconciliation cli anc srv m).0
unfolding choose_reconciliation choose_arm create_file delete_file
choose_reconciliation-IsDecided none a none m v p q = ground arith
choose_reconciliation-IsDecided (some c) none none m v p q =
    ground (arith, replace_side-IsDecided none (some c) server client)
choose_reconciliation-IsDecided none none (some s) m v p q =
    ground (arith, replace_side-IsDecided none (some s) client server)
choose_reconciliation-IsDecided (some c) (some a) none m v p q = ground (
  arith,
  replace_side-IsDecided none (some c) server client,
  replace_side-IsDecided (some c) none client server,
)
choose_reconciliation-IsDecided none (some a) (some s) m v p q = ground (
  arith,
  replace_side-IsDecided none (some s) client server,
  replace_side-IsDecided (some s) none server client,
)
choose_reconciliation-IsDecided (some c) none (some s) m v p q = ground (
  arith,
  update-IsDecided c none s m _ _ v (replace_side-IsDecided (some s) (some c) server client)
      (replace_side-IsDecided (some c) (some s) client server),
)
choose_reconciliation-IsDecided (some c) (some a) (some s) m v p q = ground (
  arith,
  update-IsDecided c (some a) s m _ _ v (replace_side-IsDecided (some s) (some c) server client)
      (replace_side-IsDecided (some c) (some s) client server),
)

-- The same mode with the directions exchanged.
abbrev pub swap_mode : SyncMode → SyncMode
swap_mode m = record { inbound = m.outbound; outbound = m.inbound }

abbrev pub swap_recon : Reconciliation → Reconciliation
swap_recon (use_side s) = use_side (rev s)
swap_recon (split s a) = split (rev s) a
swap_recon r = r

abbrev pub swap_conflict : Conflict → Conflict
swap_conflict no_conflict = no_conflict
swap_conflict (edit_delete s) = edit_delete (rev s)
swap_conflict (edit_edit c s) = edit_edit s c

abbrev pub swap_result : Reconciliation × Conflict → Reconciliation × Conflict
swap_result (r, c) = (swap_recon r, swap_conflict c)

-- Creations and deletions treat the two ends alike: exchanging the ends and the directions of the
-- mode exchanges the sides of the result.
pub choose_swap_absent :
    (c : Option FileData) (anc : Option FileData) (m : SyncMode)
    → choose_reconciliation none anc c (swap_mode m)
      ≡ swap_result (choose_reconciliation c anc none m)
unfolding choose_reconciliation choose_arm create_file delete_file replace_side agree rev
choose_swap_absent none a m = ground arith
choose_swap_absent (some c) none m = ground arith
choose_swap_absent (some c) (some a) m = ground arith
