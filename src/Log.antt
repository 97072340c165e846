-- ===== src/Log.antt =====
-- src/log.rs: the entries of the log, with the levels at which they are sent.
use ensync.Base.{ℕ, Bool, if◌then◌else◌}
use ensync.Base.Text.{Text}
use ensync.FileData.{FileData}
use ensync.Reconcile.Choose.{Conflict, Reconciliation, ReconciliationSide, client, server}

abbrev pub LogLevel : Type 0
LogLevel = ℕ

abbrev pub error_level : LogLevel
error_level = 2

abbrev pub warn_level : LogLevel
warn_level = 3

abbrev pub edit_level : LogLevel
edit_level = 4

abbrev pub info_level : LogLevel
info_level = 5

pub data ReplicaSide : Type 0 where
  client_side ancestor_side server_side : ReplicaSide

-- `ReconciliationSide::into`
unfoldable pub into_side : ReconciliationSide → ReplicaSide
into_side client = client_side
into_side server = server_side

pub data ErrorOperation : Type 0 where
  list_op mark_clean_op rmdir_op : ErrorOperation
  chdir_op create_op update_op rename_op remove_op access_op : Text → ErrorOperation

pub data Log (E : Type 0) : Type 0 where
  inspect : Text → Text → Reconciliation → Conflict → Log E
  create : ReplicaSide → Text → Text → FileData → Log E
  update : ReplicaSide → Text → Text → FileData → FileData → Log E
  rename : ReplicaSide → Text → Text → Text → Log E
  remove : ReplicaSide → Text → Text → FileData → Log E
  rmdir recursive_delete : ReplicaSide → Text → Log E
  error : ReplicaSide → Text → ErrorOperation → E → Log E

abbrev pub fatal_level : LogLevel
fatal_level = 1

-- `Error::level`, of src/errors.rs, for an error that is fatal or not.
unfoldable pub level_of : Bool → LogLevel
level_of is_fatal = if is_fatal then fatal_level else error_level
