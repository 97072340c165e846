-- ===== src/Reconcile/Choose/Rules.antt =====
-- src/reconcile/compute.rs: the results that `choose_reconciliation` can give, each under the settings
-- that it needs, as rules over any predicate on the result.
use ensync.Base.{◌≡◌, Bool, true, ◌⊎◌, Option, arith}
use ensync.FileData.{FileData, matches_data, newer_than}
use ensync.SyncMode.{SyncModeSetting, SyncMode, is_on, is_force}
use ensync.Reconcile.Choose.{Reconciliation, in_sync, unsync, irreconcilable, split, server, delete}
use ensync.Reconcile.Choose.{
  choose_reconciliation, choose_arm, replace_side, client, need_split, propagate_or_revert,
  update_file,
}
use ensync.Reconcile.Choose.{
  choose_mode_mode, choose_mode_content, choose_content_mode, choose_content_content,
}

-- One rule for each choice between two directions, over any predicate on the result.
module _ (P : Reconciliation → Type 0) (i o : SyncModeSetting) (uc us : Reconciliation) where
  module _ (via_server : is_on i ≡ true → P us) (via_client : is_on o ≡ true → P uc) where
    choose_mode_mode_rule : P unsync → P (choose_mode_mode i o uc us)
    unfolding choose_mode_mode is_on
    choose_mode_mode_rule h = ground arith

    module _ (q : Reconciliation) (otherwise : P q) where
      propagate_to_server_rule : P (propagate_or_revert i o us uc q)
      unfolding propagate_or_revert is_on is_force
      propagate_to_server_rule = ground arith

      propagate_to_client_rule : P (propagate_or_revert o i uc us q)
      unfolding propagate_or_revert is_on is_force
      propagate_to_client_rule = ground arith

      choose_mode_content_rule : P (choose_mode_content i o uc us q)
      unfolding choose_mode_content is_on
      choose_mode_content_rule = ground arith

      choose_content_mode_rule : P (choose_content_mode i o uc us q)
      unfolding choose_content_mode is_on
      choose_content_mode_rule = ground arith

      choose_content_content_rule : (b : Bool) → P (choose_content_content i o b uc us q)
      unfolding choose_content_content is_on
      choose_content_content_rule b = ground arith

module _ (P : Reconciliation → Type 0) (m : SyncMode) (uc us : Reconciliation) (c : FileData)
    (a : Option FileData) (s : FileData) (via_server : is_on m.inbound.update ≡ true → P us)
    (via_client : is_on m.outbound.update ≡ true → P uc)
    (stays : matches_data c s ≡ true → P in_sync) (unsyncs : P unsync)
    (stuck : (is_on m.inbound.update ≡ true) ⊎ (is_on m.outbound.update ≡ true) → P irreconcilable)
    (splits : (is_on m.inbound.create ≡ true)
      → (is_on m.outbound.create ≡ true)
      → (is_on m.inbound.update ≡ true) ⊎ (is_on m.outbound.update ≡ true)
      → P (split server delete)) where
  need_split_rule : P (need_split m)
  unfolding need_split
  need_split_rule = ground arith

  -- Whatever holds of the results that the settings allow holds of the result of `update`.
  pub update_file_rule : P (update_file c a s m uc us).0
  unfolding update_file
  update_file_rule = ground (
    arith,
    need_split_rule,
    choose_mode_mode_rule P i o uc us via_server via_client unsyncs,
    choose_mode_content_rule P i o uc us via_server via_client (need_split m) need_split_rule,
    choose_content_mode_rule P i o uc us via_server via_client (need_split m) need_split_rule,
    choose_content_content_rule P i o uc us via_server via_client (need_split m) need_split_rule
        (newer_than s c),
    propagate_to_server_rule P i o uc us via_server via_client in_sync,
    propagate_to_client_rule P i o uc us via_server via_client in_sync,
    propagate_to_server_rule P i o uc us via_server via_client unsync unsyncs,
    propagate_to_client_rule P i o uc us via_server via_client unsync unsyncs,
  )
    where
      i : SyncModeSetting
      i = m.inbound.update

      o : SyncModeSetting
      o = m.outbound.update

abbrev pub use_server_of : Option FileData → Option FileData → Reconciliation
use_server_of cli srv = replace_side cli client srv server

abbrev pub use_client_of : Option FileData → Option FileData → Reconciliation
use_client_of cli srv = replace_side srv server cli client

-- The first two arms of the final `match` leave the files alone.
pub choose_rule :
    (P : Reconciliation → Type 0) (cli anc srv : Option FileData) (m : SyncMode)
    → P in_sync
    → P unsync
    → P (choose_arm cli anc srv m (use_client_of cli srv) (use_server_of cli srv)).0
    → P (choose_reconciliation cli anc srv m).0
unfolding choose_reconciliation
choose_rule P cli anc srv m stays unsyncs arm = ground arith
