-- ===== src/Replica.antt =====
-- src/replica.rs: the interface of a replica. The state of a replica and a directory handle, which
-- `&mut Directory` lets an operation change, are passed on by each operation.
use ensync.Base.{Bool, List}
use ensync.Base.Text.{Text}
use ensync.Base.Map.{Map}
use ensync.FileData.{FileData, File, FileMode}

-- `Result` of the program.
pub data Answer (E A : Type 0) : Type 0 where
  ok : A → Answer E A
  err : E → Answer E A

-- What becomes of a call: an answer, a panic, or a recursion that was cut off.
pub data Run (A : Type 0) : Type 0 where
  done : A → Run A
  panic no_fuel : Run A

-- `Replica`, with `X` for what is transferred and `E` for the errors.
pub record Replica (X E : Type 0) : Type 1 where
  pub State : Type 0
  pub Directory : Type 0
  pub full_path : Directory → Text
  pub is_fatal : State → Bool
  pub is_dir_dirty : Directory → State → Bool
  pub set_dir_clean : Directory → State → Answer E Bool × State
  pub root : State → Answer E Directory × State
  pub list : Directory × State → Answer E (List (Text × FileData)) × (Directory × State)
  pub rename : Text → Text → Directory × State → Answer E Unit × (Directory × State)
  pub remove : File → Directory × State → Answer E Unit × (Directory × State)
  pub create : File → X → Directory × State → Answer E FileData × (Directory × State)
  pub update :
      Text → FileData → FileData → X → Directory × State → Answer E FileData × (Directory × State)
  pub chdir : Text → Directory × State → Answer E Directory × State
  pub synthdir : Text → FileMode → Directory × State → Directory × (Directory × State)
  pub rmdir : Directory × State → Answer E Unit × (Directory × State)
  pub transfer : File → Directory × State → Answer E X × State

-- `Replica + NullTransfer + Condemn`
pub record Ancestor (X E : Type 0) : Type 1 where
  pub replica : Replica X E
  pub null_transfer : FileData → X
  pub condemn :
      Text → replica.Directory × replica.State → Answer E Unit × (replica.Directory × replica.State)
  pub uncondemn :
      Text → replica.Directory × replica.State → Answer E Unit × (replica.Directory × replica.State)

-- `SingleDirContext` of src/reconcile/context.rs, with the state of its replica.
pub record End {X E : Type 0} (R : Replica X E) : Type 0 where
  pub dir : R.Directory
  pub files : Map FileData
  pub state : R.State
