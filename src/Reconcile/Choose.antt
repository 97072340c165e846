-- ===== src/Reconcile/Choose.antt =====
-- src/reconcile/compute.rs: `choose_reconciliation` and the types of its result.
-- The local functions of the source keep their names; `replace_side` is its local `replace`.
mod Rules
pub mod Permits
pub mod NoLoss
pub mod Agreement
pub mod Mirror
pub mod Modes
pub mod Applicable
mod Tests
use ensync.Base.{Bool, true, false, ◌&&◌, ◌||◌, not, Option, none, some, if◌then◌else◌}
use ensync.FileData.{FileData, directory, special, matches, matches_data, matches_content}
use ensync.FileData.{newer_than}
use ensync.SyncMode.{SyncModeSetting, off, on, force, HalfSyncMode, SyncMode, is_on, is_force}

pub data ReconciliationSide : Type 0 where
  client server : ReconciliationSide

unfoldable pub rev : ReconciliationSide → ReconciliationSide
rev client = server
rev server = client

pub data SplitAncestorState : Type 0 where
  move delete : SplitAncestorState

-- `Use(side)` is `use_side side`.
pub data Reconciliation : Type 0 where
  in_sync unsync irreconcilable : Reconciliation
  use_side : ReconciliationSide → Reconciliation
  split : ReconciliationSide → SplitAncestorState → Reconciliation

pub data ConflictingEdit : Type 0 where
  mode content : ConflictingEdit

pub data Conflict : Type 0 where
  no_conflict : Conflict
  edit_delete : ReconciliationSide → Conflict
  edit_edit : ConflictingEdit → ConflictingEdit → Conflict

pub replace_side :
    Option FileData → ReconciliationSide → Option FileData → ReconciliationSide → Reconciliation
replace_side none dst_side src_file src_side = use_side src_side
replace_side (some d) dst_side none src_side = use_side src_side
replace_side (some d) dst_side (some (directory m)) src_side = use_side src_side
replace_side (some (directory m)) dst_side (some s) src_side = split dst_side move
replace_side (some d) dst_side (some s) src_side = use_side src_side

pub create_file :
    HalfSyncMode → HalfSyncMode → Reconciliation → Reconciliation → Reconciliation × Conflict
create_file away toward propagate revert =
    if is_on away.create
    then (propagate, no_conflict)
    else if is_force toward.delete
    then (revert, no_conflict)
    else (unsync, no_conflict)

pub delete_file :
    FileData
    → FileData
    → ReconciliationSide
    → HalfSyncMode
    → HalfSyncMode
    → Reconciliation
    → Reconciliation
    → Reconciliation × Conflict
delete_file anc file deleted_side away toward propagate revert =
    if matches_content anc file
    then (
      if is_on away.delete then propagate else if is_force toward.create then revert else unsync,
      no_conflict,
    )
    else (
      if is_on toward.create
          then revert
          else if is_force away.delete
          then propagate
          else if is_on away.delete || is_on toward.update
          then irreconcilable
          else unsync,
      edit_delete deleted_side,
    )

-- `a.map_or(false, p)`
abbrev pub map_or_false : (FileData → Bool) → Option FileData → Bool
map_or_false p none = false
map_or_false p (some a) = p a

-- What to do on an edit/edit conflict that cannot be reconciled automatically.
pub need_split : SyncMode → Reconciliation
need_split m =
    if is_on m.inbound.update || is_on m.outbound.update
    then if is_on m.inbound.create && is_on m.outbound.create
      then split server delete
      else irreconcilable
    else unsync

-- The `match` of each kind of edit/edit conflict, on (inbound.update, outbound.update).
pub choose_mode_mode :
    SyncModeSetting → SyncModeSetting → Reconciliation → Reconciliation → Reconciliation
choose_mode_mode _ force use_client use_server = use_client
choose_mode_mode force _ use_client use_server = use_server
choose_mode_mode _ on use_client use_server = use_client
choose_mode_mode on _ use_client use_server = use_server
choose_mode_mode _ _ use_client use_server = unsync

pub choose_mode_content :
    SyncModeSetting
    → SyncModeSetting
    → Reconciliation
    → Reconciliation
    → Reconciliation
    → Reconciliation
choose_mode_content force _ use_client use_server split_both = use_server
choose_mode_content on _ use_client use_server split_both = use_server
choose_mode_content _ force use_client use_server split_both = use_client
choose_mode_content _ _ use_client use_server split_both = split_both

pub choose_content_mode :
    SyncModeSetting
    → SyncModeSetting
    → Reconciliation
    → Reconciliation
    → Reconciliation
    → Reconciliation
choose_content_mode _ force use_client use_server split_both = use_client
choose_content_mode _ on use_client use_server split_both = use_client
choose_content_mode force _ use_client use_server split_both = use_server
choose_content_mode _ _ use_client use_server split_both = split_both

pub choose_content_content :
    SyncModeSetting
    → SyncModeSetting
    → Bool
    → Reconciliation
    → Reconciliation
    → Reconciliation
    → Reconciliation
choose_content_content force force server_newer use_client use_server split_both =
    if server_newer then use_server else use_client
choose_content_content force _ server_newer use_client use_server split_both = use_server
choose_content_content _ force server_newer use_client use_server split_both = use_client
choose_content_content _ _ server_newer use_client use_server split_both = split_both

-- Which side wins where only metadata differs.
pub server_wins : FileData → Option FileData → FileData → Bool
server_wins c a s =
    if map_or_false (λ x. matches c x) a
    then true
    else if map_or_false (λ x. matches s x) a
    then false
    else newer_than s c

-- One direction of an update is enabled, or the other is forced; `otherwise` if neither.
pub propagate_or_revert :
    SyncModeSetting
    → SyncModeSetting
    → Reconciliation
    → Reconciliation
    → Reconciliation
    → Reconciliation
propagate_or_revert away toward propagate revert otherwise =
    if is_on away then propagate else if is_force toward then revert else otherwise

pub update_file :
    FileData
    → Option FileData
    → FileData
    → SyncMode
    → Reconciliation
    → Reconciliation
    → Reconciliation × Conflict
update_file c a s m use_client use_server =
    if not (matches c s) && matches_data c s
    then (
      if server_wins c a s
          then propagate_or_revert m.inbound.update m.outbound.update use_server use_client in_sync
          else propagate_or_revert m.outbound.update m.inbound.update use_client use_server in_sync,
      no_conflict,
    )
    else if map_or_false (λ x. matches x c) a
    then (
      propagate_or_revert m.inbound.update m.outbound.update use_server use_client unsync,
      no_conflict,
    )
    else if map_or_false (λ x. matches x s) a
    then (
      propagate_or_revert m.outbound.update m.inbound.update use_client use_server unsync,
      no_conflict,
    )
    else if map_or_false (λ x. matches_content x c && matches_content x s) a
    then (
      choose_mode_mode m.inbound.update m.outbound.update use_client use_server,
      edit_edit mode mode,
    )
    else if map_or_false (λ x. matches_content x c) a
    then (
      choose_mode_content m.inbound.update m.outbound.update use_client use_server (need_split m),
      edit_edit mode content,
    )
    else if map_or_false (λ x. matches_content x s) a
    then (
      choose_content_mode m.inbound.update m.outbound.update use_client use_server (need_split m),
      edit_edit content mode,
    )
    else (
      choose_content_content m.inbound.update m.outbound.update (newer_than s c) use_client
          use_server (need_split m),
      edit_edit content content,
    )

-- The guards of the first two arms of the final `match`.
pub agree : Option FileData → Option FileData → Bool
agree none none = true
agree (some c) (some s) = matches c s
agree _ _ = false

abbrev pub is_special : Option FileData → Bool
is_special (some special) = true
is_special _ = false

-- The arms that are left. The first is shadowed by `agree`.
pub choose_arm :
    Option FileData
    → Option FileData
    → Option FileData
    → SyncMode
    → Reconciliation
    → Reconciliation
    → Reconciliation × Conflict
choose_arm none a none m use_client use_server = (in_sync, no_conflict)
choose_arm (some c) none none m use_client use_server =
    create_file m.outbound m.inbound use_client use_server
choose_arm none none (some s) m use_client use_server =
    create_file m.inbound m.outbound use_server use_client
choose_arm (some c) (some a) none m use_client use_server =
    delete_file a c server m.inbound m.outbound use_server use_client
choose_arm none (some a) (some s) m use_client use_server =
    delete_file a s client m.outbound m.inbound use_client use_server
choose_arm (some c) a (some s) m use_client use_server = update_file c a s m use_client use_server

pub choose_reconciliation :
    Option FileData → Option FileData → Option FileData → SyncMode → Reconciliation × Conflict
choose_reconciliation cli anc srv m =
    let use_server = replace_side cli client srv server in
    let use_client = replace_side srv server cli client in
    if agree cli srv
    then (in_sync, no_conflict)
    else if is_special cli || is_special srv
    then (unsync, no_conflict)
    else choose_arm cli anc srv m use_client use_server
