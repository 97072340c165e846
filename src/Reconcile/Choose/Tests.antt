-- ===== src/Reconcile/Choose/Tests.antt =====
-- src/reconcile/compute.rs: cases of the source's own tests, and the theorems at concrete inputs.
use ensync.Base.{◌≡◌, refl, ℕ, Option, none, some, replicate}
use ensync.Base.Text.{text_eq}
use ensync.Base.Int.{pos}
use ensync.FileData.{
  FileData, directory, regular, matches, matches_data, matches_content, newer_than,
}
use ensync.SyncMode.{SyncMode, on, off, all_of, is_on, is_force}
use ensync.Reconcile.Choose.{
  choose_reconciliation, choose_arm, agree, create_file, delete_file, update_file, replace_side,
  server_wins, need_split, propagate_or_revert, choose_mode_mode, choose_mode_content,
  choose_content_mode, choose_content_content, Reconciliation, in_sync, use_side, split, client,
  server, move, delete, no_conflict, edit_delete, edit_edit, content, Conflict,
}
use ensync.Reconcile.Choose.Permits.{Permits, choose_reconciliation-Permits}
use ensync.Reconcile.Choose.NoLoss.{Keeps, IsConservative, choose_reconciliation-Keeps}
use ensync.Reconcile.Choose.Agreement.{SameData, Explains, choose_in_sync, choose-Explains}
use ensync.Reconcile.Choose.Mirror.{outbound_only, choose_mirror}
use ensync.Reconcile.Choose.Modes.{IsDecided, IsAllOn, choose_reconciliation-IsDecided}

abbrev file : ℕ → ℕ → ℕ → FileData
file m t h = regular m 0 (pos t) (replicate 32 h)

abbrev both_on : SyncMode
both_on = record { inbound = all_of on; outbound = all_of on }

abbrev none_on : SyncMode
none_on = record { inbound = all_of off; outbound = all_of off }

choose : Option FileData → Option FileData → Option FileData → SyncMode → Reconciliation × Conflict
unfolding choose_reconciliation choose_arm agree create_file delete_file update_file replace_side
    server_wins need_split propagate_or_revert choose_mode_mode choose_mode_content
    choose_content_mode choose_content_content matches matches_data matches_content newer_than
    text_eq is_on is_force
choose = choose_reconciliation

-- The client's file was edited, and the server has it as the ancestor has it.
client_edit :
    choose (some (file 7 2 2)) (some (file 7 1 1)) (some (file 7 1 1)) both_on
    ≡ (use_side client, no_conflict)
unfolding choose
client_edit = refl

-- Edits on both ends keep both versions.
both_edited :
    choose (some (file 7 2 2)) (some (file 7 1 1)) (some (file 7 3 3)) both_on
    ≡ (split server delete, edit_edit content content)
unfolding choose
both_edited = refl

-- A file takes the place of a directory.
directory_moves :
    choose (some (file 7 2 2)) (some (directory 7)) (some (directory 7)) both_on
    ≡ (split server move, no_conflict)
unfolding choose
directory_moves = refl

-- The file was edited on the client and deleted on the server.
edit_and_delete :
    choose (some (file 7 2 2)) (some (file 7 1 1)) none both_on
    ≡ (use_side client, edit_delete server)
unfolding choose
edit_and_delete = refl

-- Edits of the time alone, with nothing enabled.
times_differ : choose (some (file 7 2 2)) none (some (file 7 3 2)) none_on ≡ (in_sync, no_conflict)
unfolding choose
times_differ = refl

both_on-IsConservative : IsConservative both_on
unfolding is_force
both_on-IsConservative = record {
  inbound_create = refl;
  inbound_update = refl;
  inbound_delete = refl;
  outbound_create = refl;
  outbound_update = refl;
  outbound_delete = refl;
}

both_on-IsAllOn : IsAllOn both_on
unfolding is_on
both_on-IsAllOn = record {
  inbound_create = refl;
  inbound_update = refl;
  inbound_delete = refl;
  outbound_create = refl;
  outbound_update = refl;
  outbound_delete = refl;
}

choose_reconciliation-Permits_example :
    Permits (some (file 7 2 2)) (some (file 7 3 3)) both_on (split server delete)
unfolding choose
choose_reconciliation-Permits_example =
    choose_reconciliation-Permits (some (file 7 2 2)) (some (file 7 1 1)) (some (file 7 3 3))
      both_on

choose_reconciliation-Keeps_example :
    Keeps (some (file 7 2 2)) (some (file 7 1 1)) (some (file 7 1 1)) (use_side client)
unfolding choose
choose_reconciliation-Keeps_example =
    choose_reconciliation-Keeps (some (file 7 2 2)) (some (file 7 1 1)) (some (file 7 1 1)) both_on
      both_on-IsConservative

choose_in_sync_example : SameData (some (file 7 2 2)) (some (file 7 3 2))
unfolding choose
choose_in_sync_example = choose_in_sync (some (file 7 2 2)) none (some (file 7 3 2)) none_on refl

choose-Explains_example : Explains (some (file 7 2 2)) (some (file 7 1 1)) none (edit_delete server)
unfolding choose
choose-Explains_example = choose-Explains (some (file 7 2 2)) (some (file 7 1 1)) none both_on

choose_mirror_example :
    (choose_reconciliation none (some (file 7 1 1)) (some (file 7 2 2)) outbound_only).0
    ≡ use_side client
unfolding choose
choose_mirror_example = choose_mirror none (some (file 7 1 1)) (some (file 7 2 2))

choose_reconciliation-IsDecided_example :
    IsDecided
      (choose_reconciliation (some (file 7 2 2)) (some (file 7 1 1)) (some (file 7 3 3)) both_on).0
choose_reconciliation-IsDecided_example =
    choose_reconciliation-IsDecided (some (file 7 2 2)) (some (file 7 1 1)) (some (file 7 3 3))
      both_on both_on-IsAllOn refl refl
