-- ===== src/Reconcile/Choose/Permits.antt =====
-- src/reconcile/compute.rs: what a sync mode allows a reconciliation to change.
use ensync.Base.{◌≡◌, true, false, ◌⊎◌, Option, none, some, arith}
use ensync.FileData.{FileData, is_dir}
use ensync.SyncMode.{SyncModeSetting, SyncMode, HalfSyncMode, is_on, is_force}
use ensync.Reconcile.Choose.{choose_reconciliation, Reconciliation, use_side, split, client, server}
use ensync.Reconcile.Choose.{
  move, delete, in_sync, unsync, irreconcilable, replace_side, update_file,
}
use ensync.Reconcile.Choose.{create_file, delete_file, choose_arm}
use ensync.Reconcile.Choose.Rules.{use_client_of, use_server_of, choose_rule, update_file_rule}

-- The settings that allow to bring a file from the state `dst` to the state `src`.
abbrev pub Allows : Option FileData → Option FileData → HalfSyncMode → Type 0
Allows none none h = ⊥
Allows none (some s) h = is_on h.create ≡ true
Allows (some d) none h = is_on h.delete ≡ true
Allows (some d) (some s) h = is_on h.update ≡ true

-- Renaming a directory out of the way of a file that replaces it.
pub record MovesAway (dst src : Option FileData) (h : HalfSyncMode) : Type 0 where
  pub dst_is_dir : is_dir dst ≡ true
  pub src_not_dir : is_dir src ≡ false
  pub updates : is_on h.update ≡ true

-- Keeping both versions of a file, under two names.
pub record KeepsBoth (m : SyncMode) : Type 0 where
  pub creates_inbound : is_on m.inbound.create ≡ true
  pub creates_outbound : is_on m.outbound.create ≡ true
  pub updates : (is_on m.inbound.update ≡ true) ⊎ (is_on m.outbound.update ≡ true)

-- A change that the mode would propagate, and that it cannot reconcile.
abbrev pub Wants : Option FileData → Option FileData → SyncMode → Type 0
Wants none none m = ⊥
Wants (some c) none m = (is_on m.inbound.delete ≡ true) ⊎ (is_on m.outbound.update ≡ true)
Wants none (some s) m = (is_on m.outbound.delete ≡ true) ⊎ (is_on m.inbound.update ≡ true)
Wants (some c) (some s) m = (is_on m.inbound.update ≡ true) ⊎ (is_on m.outbound.update ≡ true)

-- What the mode must allow for each result.
abbrev pub Permits : Option FileData → Option FileData → SyncMode → Reconciliation → Type 0
Permits cli srv m in_sync = Unit
Permits cli srv m unsync = Unit
Permits cli srv m irreconcilable = Wants cli srv m
Permits cli srv m (use_side client) = Allows srv cli m.outbound
Permits cli srv m (use_side server) = Allows cli srv m.inbound
Permits cli srv m (split client move) = MovesAway cli srv m.inbound
Permits cli srv m (split server move) = MovesAway srv cli m.outbound
Permits cli srv m (split client delete) = ⊥
Permits cli srv m (split server delete) = KeepsBoth m

on_of_force : (s : SyncModeSetting) → is_force s ≡ true → is_on s ≡ true
unfolding is_on is_force
on_of_force s h = ground arith

use_server-Permits :
    (c s : FileData) (m : SyncMode)
    → is_on m.inbound.update ≡ true
    → Permits (some c) (some s) m (replace_side (some c) client (some s) server)
unfolding replace_side is_dir
use_server-Permits c s m h = ground arith

use_client-Permits :
    (c s : FileData) (m : SyncMode)
    → is_on m.outbound.update ≡ true
    → Permits (some c) (some s) m (replace_side (some s) server (some c) client)
unfolding replace_side is_dir
use_client-Permits c s m h = ground arith

update-Permits :
    (c : FileData) (a : Option FileData) (s : FileData) (m : SyncMode)
    → Permits
        (some c)
        (some s)
        m
        (update_file c a s m (use_client_of (some c) (some s)) (use_server_of (some c) (some s))).0
update-Permits c a s m =
    update_file_rule (Permits (some c) (some s) m) m _ _ c a s (use_server-Permits c s m)
      (use_client-Permits c s m) (λ _. tt) tt (λ u. u)
      (λ p q r. record { creates_inbound = p; creates_outbound = q; updates = r })

choose_arm-Permits :
    (cli anc srv : Option FileData) (m : SyncMode)
    → Permits cli srv m (choose_arm cli anc srv m (use_client_of cli srv) (use_server_of cli srv)).0
unfolding choose_arm create_file delete_file replace_side
choose_arm-Permits none a none m = tt
choose_arm-Permits (some c) none none m = ground (arith, on_of_force m.inbound.delete)
choose_arm-Permits none none (some s) m = ground (arith, on_of_force m.outbound.delete)
choose_arm-Permits (some c) (some a) none m =
    ground (arith, on_of_force m.outbound.create, on_of_force m.inbound.delete)
choose_arm-Permits none (some a) (some s) m =
    ground (arith, on_of_force m.inbound.create, on_of_force m.outbound.delete)
choose_arm-Permits (some c) none (some s) m = update-Permits c none s m
choose_arm-Permits (some c) (some a) (some s) m = update-Permits c (some a) s m

-- Whatever the three states of a file are, the result changes a replica only where the mode allows
-- it: to bring a file over or to remove it needs the create, update or delete setting of that
-- direction, according to whether the file is absent at the destination, at both ends present, or
-- absent at the source; to rename a directory out of the way needs the update setting of that
-- direction and a source that is no directory; to keep both versions needs the create settings of
-- both directions and an update setting of one.
pub choose_reconciliation-Permits :
    (cli anc srv : Option FileData) (m : SyncMode)
    → Permits cli srv m (choose_reconciliation cli anc srv m).0
choose_reconciliation-Permits cli anc srv m =
    choose_rule (Permits cli srv m) cli anc srv m tt tt (choose_arm-Permits cli anc srv m)
