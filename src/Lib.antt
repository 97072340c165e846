-- ===== src/Lib.antt =====
-- Verification of ensync, an encrypted file synchroniser (src/).
--
-- ensync compares three views of a directory tree: the client, the server and the ancestor, which
-- records what both ends last agreed on. For each name, src/rules decides the sync mode, and
-- src/reconcile/compute.rs decides from the mode and the three states of the file what is to be done.
-- The trees are walked by the threads that share a stack of directories (src/work_stack.rs), and the
-- contents of files travel as blocks that are identified by their keyed hashes (src/block_xfer.rs).
--
-- Files and the code that they model:
--   Base            shared names, lists, texts, maps, decimal numerals
--   FileData        src/defs.rs: FileData and its comparisons
--   SyncMode        src/rules/defs.rs: settings, modes, their parser and printer
--   Reconcile       src/reconcile/compute.rs: choose_reconciliation (Choose) and
--                   gen_alternate_name (AlternateName); src/reconcile/mutate.rs: apply_reconciliation
--                   (Apply, proofs in Effects, Splits and SplitEffects) and the changes of a replica and
--                   of the ancestor (Mutate); src/reconcile/context.rs: DirContext (Context)
--                   and UnqueuedTasks (UnqueuedTasks);
--                   src/reconcile/tree_walk.rs: process_file and the directories it queues (TreeWalk,
--                   proofs in Files), the listing (TreeWalk/Listing, proofs in Opened) and the end
--                   of a directory (TreeWalk/Finish); replicas for tests (Plain)
--   Replica         src/replica.rs: the operations of a replica
--   Log             src/log.rs: levels and entries of the log
--   Rules           src/rules/engine.rs: the rule set and its evaluation (Engine), the engines of
--                   directories and files (Tree), the parser (Parse, with Values for the values and
--                   Reach for the check that all states are reachable)
--   BlockTransfer   src/block_xfer.rs: stream_to_blocks (proofs in Split), blocks_to_stream (Join),
--                   and both together (Transfer)
--   Watch           src/replica.rs: WatchHandle, as steps of threads, of which one waits (as in
--                   src/cli/cmd_sync.rs), and of the signal handler of
--                   src/interrupt.rs
--   WorkStack       src/work_stack.rs: push and run, as steps of threads (Quiescence)
--   DirConfig       src/server/dir_config.rs: the key groups of directories (Inherit)
--   Server          src/server/crypt.rs: the derivation of keys from passphrases (Crypt, proofs in
--                   Xor and Rings); src/server/keymgmt.rs: the requests that edit the list of keys
--                   (KeyMgmt with Groups, proofs in Done, DoneGroups, Held, Safe, Keys, Shared,
--                   Kept and Derives) and the transactions that store it (KeyMgmt/Transactions,
--                   proofs in Atomic, Stored and Swap); src/server/storage.rs: the interface of
--                   the storage (Storage); src/server/local_storage.rs: the transactions on the
--                   local disk (LocalStorage, proofs in Readable, Rollback and Exchange); maps in
--                   the order of their keys (Ordered)
--   DirHash         src/posix/dir.rs: the hash of a directory
--
-- Representation. Texts (OsString, String) are lists of code points and byte strings lists of bytes;
-- names are valid UTF-8, so that lossy conversions are the identity. Integers are natural numbers,
-- and i64 values are signed integers. A result is a value, an error with the fields of the source's
-- error, or a panic, which stands for an index out of range, a failed assertion or a failed expect.
-- The maps (BTreeMap, HashMap) are association lists.
--
-- Parameters. Regular expressions are a type with a test, or the lists of their captures, and TOML
-- values a type with the views that the parser takes. The hash function is any function of bytes. A
-- reader is the list of what its calls meet: bytes, interruptions, errors. The caller's functions of the
-- block transfer pass a state on.
--
-- For the lists of keys, SHA3-256, scrypt, the bytes of a name, the serialised form, what is drawn at
-- random, the time and the passphrases that are prompted for are parameters. The storage is a record
-- of operations on a state that other sessions may change, with what its comments say of transactions
-- as laws. Of SHA3-256 and scrypt it is only taken that they give 32 bytes: what would need that two
-- keys do not have the same hash says so, with the collision as the other case. A transaction has the
-- 16 rounds of its loop. On the local disk, the tables of the database are maps, and calls of the file
-- system succeed but for files that are not there.
--
-- The three replicas are records of operations that pass on their state and the directory handle,
-- which the source changes behind `&mut`. A call ends with an answer, a panic, or cut off; the log is
-- the list of the entries that were sent. An operation of a replica answers a value or an error. The
-- program's own replicas panic when they are to make a special file (src/ancestor/replica.rs,
-- src/posix/replica.rs, src/server/dir.rs); the one case that choose_reconciliation leads to, a
-- special file at both ends that the ancestor is to store, is a panic of apply_recon. For a
-- reconciliation the flag of src/interrupt.rs, and what makes an error fatal, are arguments.
--
-- Loops and fuel. The recursive removal of a directory of the ancestor is bounded by a depth, which is
-- enough if directories have a height that a subdirectory does not reach. The evaluation of rules is
-- bounded by the number of states, which no chain of inclusions exceeds; the reachability check by one
-- round more than there are states; the loops over a reader by its events and bytes, of which each call
-- takes one. gen_alternate_name has the 2^64 - 1 rounds of its loop, and the search for an unused id one
-- round more than there are tasks.
--
-- Not modelled: the loop over the names of a directory, and the tasks as they run (the rest of
-- src/reconcile/tree_walk.rs), which would stand on the parts modelled here; the replicas themselves,
-- the server's directories and protocol, the client's database and the encryption of objects and
-- directories, which are for the most part system calls, SQL, serialisation and calls of libraries; of
-- the storage, how objects are put and got, what is dirty or watched, and the cleaning; the command
-- line.
pub mod Base
pub mod FileData
pub mod SyncMode
pub mod Reconcile
pub mod Rules
pub mod BlockTransfer
pub mod Server
pub mod Watch
pub mod WorkStack
pub mod DirConfig
pub mod DirHash
pub mod Log
pub mod Replica
