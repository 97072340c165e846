-- ===== src/Server/LocalStorage.antt =====
-- src/server/local_storage.rs: transactions on the local disk. The tables of the database are maps, and
-- the files of a directory are found by the hash of their names; SHA3-256 is a parameter. Calls of the
-- file system and of the database succeed, but for files that are not there. The lists of what is dirty
-- or watched, and the objects that are put, are left out.
pub mod Readable
pub mod Rollback
pub mod Exchange
mod Tests
use ensync.Base.{
  ℕ, zero, suc, ◌+◌, ◌-◌, ◌^◌, ◌==◌, Bool, true, false, ◌&&◌, Option, none, some, List, [], ◌∷◌,
  ◌++◌, if◌then◌else◌, ltb, length, take, drop, replicate,
}
use ensync.Base.Text.{Text, text, Bytes, text_eq}
use ensync.Base.Map.{Map, lookup, insert, erase, contains_key}
use ensync.FileData.{HashId}
use ensync.DirHash.{xor_bytes}
use ensync.Server.Errors.{KeyError, other, Answer, ok, err}

-- The scheduled edits; `handle` is the contents of the open file.
pub data TxOp : Type 0 where
  mkdir : (id ver sver : HashId) (data' : Bytes) → TxOp
  updir : (id sver : HashId) (old_len : ℕ) (append : Bytes) → TxOp
  rmdir : (id sver : HashId) (old_len : ℕ) → TxOp
  link_obj : (id linkid : HashId) (handle : Bytes) → TxOp
  unlink_obj : (id linkid : HashId) → TxOp

-- A row of `dirs`.
pub record Row : Type 0 where
  pub ver : HashId
  pub sver : HashId
  pub len : ℕ

-- The tables `dirs` and `objs`, and the files under `dirdir` and `objdir`.
pub record Disk : Type 0 where
  pub dirs : Map Row
  pub objs : Map HashId
  pub dir_files : Map Bytes
  pub obj_files : Map Bytes

-- `LocalStorage`, with the transactions that are open.
pub record LocalStorage : Type 0 where
  pub disk : Disk
  pub txns : ℕ → Option (List TxOp)

-- How `do_commit` ends, with the disk as it is then: with all done, and the files to be removed; with a
-- condition that is not met; with an error.
pub data Commit : Type 0 where
  applied : Disk → List HashId → Commit
  refused : Disk → Commit
  failed : KeyError → Disk → Commit

-- `seek` to an offset and `write_all`; a gap is filled with zeros.
unfoldable pub write_at : ℕ → Bytes → Bytes → Bytes
write_at zero b f = b ++ drop (length b) f
write_at (suc n) b [] = 0 ∷ write_at n b []
write_at (suc n) b (x ∷ f) = x ∷ write_at n b f

-- A file of the length that its row has, which is looked for 256 times, and `read_exact`.
unfoldable pub read_file : ℕ → Option Bytes → Answer Bytes
read_file n o = if ltb (2 ^ 32 - 1) n then err (other (text "InvalidServerDirEntry")) else elim o [
  | none ↦ err (other (text "DanglingServerDirectoryRef"))
  | some f ↦ if ltb (length f) n then err (other (text "UnexpectedEof")) else ok (take n f)
]

abbrev pub set_tx : ℕ → Option (List TxOp) → (ℕ → Option (List TxOp)) → ℕ → Option (List TxOp)
set_tx tx o txns n = if n == tx then o else txns n

unfoldable pub get_ver_for_modify : Map Row → HashId → HashId → ℕ → Option HashId
unfolding lookup text_eq
get_ver_for_modify dirs id sver old_len = elim (lookup id dirs) [
  | none ↦ none
  | some row ↦ if text_eq row.sver sver && (row.len == old_len) then some row.ver else none
]

unfoldable pub update_ref : Map HashId → HashId → HashId → Answer (Map HashId)
unfolding lookup insert xor_bytes
update_ref objs id linkid = elim (lookup id objs) [
  | none ↦ ok (insert id linkid objs)
  | some refs ↦
      if length refs == 32
      then ok (insert id (xor_bytes refs linkid) objs)
      else err (other (text "InvalidRefVector"))
]

abbrev pub and_removed : HashId → Commit → Commit
and_removed path (applied d paths) = applied d (path ∷ paths)
and_removed path (refused d) = refused d
and_removed path (failed e d) = failed e d

abbrev pub remove_files : List HashId → Map Bytes → Map Bytes
remove_files [] files = files
remove_files (path ∷ paths) files = remove_files paths (erase path files)

module _ (sha3 : Bytes → HashId) where
  abbrev pub dir_path : HashId → HashId → HashId
  dir_path id v = sha3 (id ++ v)

  -- `do_commit(db, tx)`
  unfoldable pub do_commit : List TxOp → Disk → Commit
  unfolding lookup insert erase write_at get_ver_for_modify update_ref
  do_commit [] d = applied d []
  do_commit (mkdir id ver sver data' ∷ ops) d =
      let rest = do_commit ops (record d {
        dirs = insert id (record { ver = ver; sver = sver; len = length data' }) d.dirs;
        dir_files = insert (dir_path id ver) data' d.dir_files;
      }) in
      if contains_key id d.dirs then refused d else rest
  do_commit (updir id sver old_len append ∷ ops) d =
      elim (get_ver_for_modify d.dirs id sver old_len) [
        | none ↦ refused d
        | some ver ↦
            if ltb (2 ^ 32 - 1 - old_len) (length append)
            then failed (other (text "DirectoryTooLarge")) d
            else elim (lookup (dir_path id ver) d.dir_files) [
              | none ↦ failed (other (text "NotFound")) d
              | some f ↦ do_commit ops (record d {
                dirs =
                    insert id (record { ver = ver; sver = sver; len = old_len + length append })
                      d.dirs;
                dir_files = insert (dir_path id ver) (write_at old_len append f) d.dir_files;
              })
            ]
      ]
  do_commit (rmdir id sver old_len ∷ ops) d =
      let rest = do_commit ops (record d { dirs = erase id d.dirs }) in
      elim (get_ver_for_modify d.dirs id sver old_len) [
        | none ↦ refused d
        | some ver ↦ and_removed (dir_path id ver) rest
      ]
  do_commit (link_obj id linkid handle ∷ ops) d = elim (update_ref d.objs id linkid) [
    | err e ↦ failed e d
    | ok objs ↦ do_commit ops (record d {
      objs = objs;
      obj_files = if contains_key id d.obj_files then d.obj_files else insert id handle d.obj_files;
    })
  ]
  do_commit (unlink_obj id linkid ∷ ops) d = elim (update_ref d.objs id linkid) [
    | err e ↦ failed e d
    | ok objs ↦ do_commit ops (record d { objs = objs })
  ]

  -- The tables go back to what they were; the files do not.
  abbrev pub rolled_back : Disk → Disk → Disk
  rolled_back before d = record before { dir_files = d.dir_files; obj_files = d.obj_files }

  abbrev pub end_commit : LocalStorage → Commit → Answer Bool × LocalStorage
  end_commit s (applied d paths) =
      (ok true, record s { disk = record d { dir_files = remove_files paths d.dir_files } })
  end_commit s (refused d) = (ok false, record s { disk = rolled_back s.disk d })
  end_commit s (failed e d) = (err e, record s { disk = rolled_back s.disk d })

  -- `commit(tx)`
  unfoldable pub commit : ℕ → LocalStorage → Answer Bool × LocalStorage
  unfolding do_commit
  commit tx s = elim (s.txns tx) [
    | none ↦ (err (other (text "No such transaction")), s)
    | some ops ↦ end_commit (record s { txns = set_tx tx none s.txns }) (do_commit ops s.disk)
  ]

  -- `getdir(id)`
  unfoldable pub getdir : HashId → LocalStorage → Answer (Option (HashId × Bytes))
  unfolding lookup read_file
  getdir id s = elim (lookup id s.disk.dirs) [
    | none ↦ ok none
    | some row ↦ elim (read_file row.len (lookup (dir_path id row.ver) s.disk.dir_files)) [
      | ok b ↦ ok (some (row.ver, b))
      | err e ↦ err e
    ]
  ]

-- `start_tx(tx)`
unfoldable pub start_tx : ℕ → LocalStorage → Answer (Unit {0}) × LocalStorage
start_tx tx s = elim (s.txns tx) [
  | some ops ↦ (err (other (text "TransactionAlreadyInUse")), s)
  | none ↦ (ok tt, record s { txns = set_tx tx (some []) s.txns })
]

-- `tx_add(txid, op)`, by which the edits are scheduled.
unfoldable pub tx_add : ℕ → TxOp → LocalStorage → Answer (Unit {0}) × LocalStorage
tx_add tx op s = elim (s.txns tx) [
  | none ↦ (err (other (text "NoSuchTransaction")), s)
  | some ops ↦ (ok tt, record s { txns = set_tx tx (some (ops ++ op ∷ [])) s.txns })
]

-- `abort(tx)`
unfoldable pub abort : ℕ → LocalStorage → Answer (Unit {0}) × LocalStorage
abort tx s = elim (s.txns tx) [
  | none ↦ (err (other (text "No such transaction")), s)
  | some ops ↦ (ok tt, record s { txns = set_tx tx none s.txns })
]
