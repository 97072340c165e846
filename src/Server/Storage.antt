-- ===== src/Server/Storage.antt =====
-- src/server/storage.rs: the operations of `Storage` that the lists of keys are kept with, as an
-- interface over a state `W`, and what their comments say of transactions. A call gives its answer
-- and the state after it; other sessions may change the state between calls.
use ensync.Base.{ℕ, ◌≡◌, Bool, true, false, Option, List, [], ◌∷◌, ◌++◌}
use ensync.Base.Text.{Bytes}
use ensync.FileData.{HashId}
use ensync.Server.Errors.{Answer, ok}

-- A call that may fail, on a state.
abbrev pub Call : Type 0 → Type 0 → Type 0
Call W A = W → Answer A × W

-- `Storage`
pub record Storage (W : Type 0) : Type 0 where
  pub getdir : HashId → Call W (Option (HashId × Bytes))
  pub start_tx : ℕ → Call W Unit
  pub commit : ℕ → Call W Bool
  pub abort : ℕ → Call W Unit
  pub mkdir : ℕ → HashId → HashId → HashId → Bytes → Call W Unit
  pub rmdir : ℕ → HashId → HashId → ℕ → Call W Unit

-- What a transaction is to do, with the arguments of the call that scheduled it.
pub data Op : Type 0 where
  make : (id version secret : HashId) (data' : Bytes) → Op
  remove : (id secret : HashId) (old_len : ℕ) → Op

-- A transaction buffers its edits, and only `commit` applies them, all or none: `buffer` is what the
-- transaction `tx` has scheduled, `applied` the transactions of this session that were applied.
pub record IsTransactional {W : Type 0} (s : Storage W) (tx : ℕ) : Type 0 where
  pub buffer : W → List Op
  pub applied : W → List (List Op)
  -- A new transaction is empty.
  pub start_tx : (w w' : W) → s.start_tx tx w ≡ (ok tt, w') → buffer w' ≡ []
  -- Reads do not touch it.
  pub getdir : (id : HashId) (w : W) → buffer (s.getdir id w).1 ≡ buffer w
  -- Edits are added to it.
  pub mkdir :
      (id v sv : HashId) (d : Bytes) (w w' : W)
      → s.mkdir tx id v sv d w ≡ (ok tt, w')
      → buffer w' ≡ buffer w ++ make id v sv d ∷ []
  pub rmdir :
      (id sv : HashId) (n : ℕ) (w w' : W)
      → s.rmdir tx id sv n w ≡ (ok tt, w')
      → buffer w' ≡ buffer w ++ remove id sv n ∷ []
  -- A commit that answers `true` applies it, one that answers `false` applies nothing.
  pub commit : (w w' : W) → s.commit tx w ≡ (ok true, w') → applied w' ≡ applied w ++ buffer w ∷ []
  pub rejected : (w w' : W) → s.commit tx w ≡ (ok false, w') → applied w' ≡ applied w
  -- Nothing else applies anything.
  pub start_tx_applied : (w : W) → applied (s.start_tx tx w).1 ≡ applied w
  pub getdir_applied : (id : HashId) (w : W) → applied (s.getdir id w).1 ≡ applied w
  pub mkdir_applied :
      (id v sv : HashId) (d : Bytes) (w : W) → applied (s.mkdir tx id v sv d w).1 ≡ applied w
  pub rmdir_applied :
      (id sv : HashId) (n : ℕ) (w : W) → applied (s.rmdir tx id sv n w).1 ≡ applied w
  pub abort_applied : (w : W) → applied (s.abort tx w).1 ≡ applied w
