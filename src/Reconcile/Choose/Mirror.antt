-- ===== src/Reconcile/Choose/Mirror.antt =====
-- src/reconcile/compute.rs: the modes "mirror" (reset-server) and "reset-client".
use ensync.Base.{◌≡◌, refl, ◌||◌, Option, none, some, arith, if◌then◌else◌}
use ensync.FileData.{FileData}
use ensync.SyncMode.{SyncMode, is_on, is_force, off, force, all_of}
use ensync.Reconcile.Choose.{choose_reconciliation, Reconciliation, in_sync, unsync, update_file}
use ensync.Reconcile.Choose.{create_file, delete_file, propagate_or_revert, choose_arm, agree}
use ensync.Reconcile.Choose.{choose_mode_mode, choose_mode_content, choose_content_mode, is_special}
use ensync.Reconcile.Choose.{choose_content_content}
use ensync.Reconcile.Choose.Rules.{use_client_of, use_server_of}

abbrev pub outbound_only : SyncMode
outbound_only = record { inbound = all_of off; outbound = all_of force }

abbrev pub inbound_only : SyncMode
inbound_only = record { inbound = all_of force; outbound = all_of off }

-- What a mode that forces one direction does, whatever the ancestor is.
abbrev pub forced : Option FileData → Option FileData → Reconciliation → Reconciliation
forced cli srv winner =
    if agree cli srv then in_sync else if is_special cli || is_special srv then unsync else winner

update-mirror :
    (c : FileData) (a : Option FileData) (s : FileData) (uc us : Reconciliation)
    → (update_file c a s outbound_only uc us).0 ≡ uc
unfolding update_file propagate_or_revert is_on is_force choose_mode_mode choose_mode_content
    choose_content_mode choose_content_content
update-mirror c a s uc us = ground arith

update-reset_client :
    (c : FileData) (a : Option FileData) (s : FileData) (uc us : Reconciliation)
    → (update_file c a s inbound_only uc us).0 ≡ us
unfolding update_file propagate_or_revert is_on is_force choose_mode_mode choose_mode_content
    choose_content_mode choose_content_content
update-reset_client c a s uc us = ground arith

-- In the mode "mirror" the client wins wherever the ends differ and neither is a special file: no
-- file is left unsynced or irreconcilable, none is taken from the server, and the ancestor plays no
-- part.
pub choose_mirror :
    (cli anc srv : Option FileData)
    → (choose_reconciliation cli anc srv outbound_only).0 ≡ forced cli srv (use_client_of cli srv)
unfolding choose_reconciliation choose_arm agree create_file delete_file is_on is_force
choose_mirror none a none = refl
choose_mirror (some c) none none = ground arith
choose_mirror none none (some s) = ground arith
choose_mirror (some c) (some a) none = ground arith
choose_mirror none (some a) (some s) = ground arith
choose_mirror (some c) none (some s) = ground (
  arith,
  update-mirror c none s (use_client_of (some c) (some s)) (use_server_of (some c) (some s)),
)
choose_mirror (some c) (some a) (some s) = ground (
  arith,
  update-mirror c (some a) s (use_client_of (some c) (some s)) (use_server_of (some c) (some s)),
)

-- In the mode "reset-client" the server wins in the same way.
pub choose_reset_client :
    (cli anc srv : Option FileData)
    → (choose_reconciliation cli anc srv inbound_only).0 ≡ forced cli srv (use_server_of cli srv)
unfolding choose_reconciliation choose_arm agree create_file delete_file is_on is_force
choose_reset_client none a none = refl
choose_reset_client (some c) none none = ground arith
choose_reset_client none none (some s) = ground arith
choose_reset_client (some c) (some a) none = ground arith
choose_reset_client none (some a) (some s) = ground arith
choose_reset_client (some c) none (some s) = ground (
  arith,
  update-reset_client c none s (use_client_of (some c) (some s)) (use_server_of (some c) (some s)),
)
choose_reset_client (some c) (some a) (some s) = ground (
  arith,
  update-reset_client c (some a) s (use_client_of (some c) (some s))
      (use_server_of (some c) (some s)),
)
