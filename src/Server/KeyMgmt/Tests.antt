-- ===== src/Server/KeyMgmt/Tests.antt =====
-- Lists of two passphrases, with functions in place of SHA3-256 and scrypt that can be evaluated.
use ensync.Base.{
  ℕ, zero, suc, ◌%◌, ◌<◌, ◌≡◌, refl, sym, ap, Bool, true, false, Option, none, some, List, [], ◌∷◌,
  ◌++◌, length, All, ◌⊎◌, arith, replicate,
}
use ensync.Base.Text.{Text, text, Bytes, text_eq}
use ensync.Base.Map.{lookup, erase}
use ensync.FileData.{HashId}
use ensync.DirHash.{xor_bits, xor_bytes}
use ensync.Server.Ordered
use ensync.Server.Ordered.{text_lt, put, AllIn, put-AllIn, IsUnique}
use ensync.Server.Crypt.{
  KdfEntry, KeyChain, group_everyone, group_root, hmac, masked, opened, reassoc_keys, create_key,
  chain_key, try_derive_key_single, try_derive_key, scrypt_18_14_12_8_1, secret_dir_ver,
}
use ensync.Server.Crypt.Rings.{
  IsHash, IsSafe, Holds, ChainHolds, IsRing, Collides, SomeCollides, create_key-Holds,
}
use ensync.Server.Storage.{Storage, Op, make, remove, IsTransactional}
use ensync.Server.KeyMgmt.{
  Answer, ok, err, Moment, Edited, Request, add_key, change_key, edit, edit_add_key,
  edit_change_key, check, find_root, find, held, copy_keys, chain_root, real_name, change_chain,
}
use ensync.Server.KeyMgmt.Transactions.{
  perform, edit_kdflist, do_tx, rounds, end_round, edit_round, get_kdflist, decoded, put_kdflist,
  remove_old,
}
use ensync.Server.KeyMgmt.Transactions.Atomic.{Ends}
use ensync.Server.KeyMgmt.Transactions.Swap.{Swap, perform-Swap}
use ensync.Server.KeyMgmt.Keys.{put-ChainHolds}
use ensync.Server.KeyMgmt.Safe.{edit-held}
use ensync.Server.KeyMgmt.Kept.{Kept, edit-Kept}
use ensync.Server.KeyMgmt.Derives.{Added, add_key-Added, Changed, change_key-Changed}

-- The first bytes, filled up with zeros.
fit : ℕ → Bytes → Bytes
fit zero b = []
fit (suc n) [] = 0 ∷ fit n []
fit (suc n) (x ∷ b) = x % 256 ∷ fit n b

fit-IsHash : (n : ℕ) (b : Bytes) → (length (fit n b) ≡ n) × All (λ x. x < 256) (fit n b)
unfolding fit
fit-IsHash zero b = (refl, tt)
fit-IsHash (suc n) [] = let (l, a) = fit-IsHash n [] in (ap (λ n. suc n) l, (omega arith, a))
fit-IsHash (suc n) (x ∷ b) = let (l, a) = fit-IsHash n b in (ap (λ n. suc n) l, (omega arith, a))

sha3 : Bytes → HashId
sha3 b = fit 32 b

scrypt : ℕ → Bytes → HashId → HashId
scrypt n passphrase salt = fit 32 passphrase

abbrev as_bytes : Text → Bytes
as_bytes t = t

safe : IsSafe sha3 scrypt as_bytes
unfolding sha3 scrypt
safe = record { of_bytes = λ b. fit-IsHash 32 b; derived = λ n p salt. fit-IsHash 32 p }

keys : Text → HashId
keys g = fit 32 g

keys-IsHash : (g : Text) → IsHash (keys g)
unfolding keys
keys-IsHash g = fit-IsHash 32 g

abbrev chain : KeyChain
chain = record {
  keys = put group_everyone (keys group_everyone) (put group_root (keys group_root) []);
  derived = replicate 32 0;
}

chain-holds : ChainHolds keys chain.keys
unfolding lookup
chain-holds =
    put-ChainHolds keys group_everyone (put group_root (keys group_root) [])
      (put-ChainHolds keys group_root [] (λ g x q. cc))

entry : Text → KdfEntry
entry passphrase = create_key sha3 scrypt as_bytes passphrase chain 7 none (replicate 32 1)

entry-Holds : (passphrase : Text) → Holds sha3 scrypt as_bytes keys (entry passphrase)
unfolding entry
entry-Holds passphrase =
    create_key-Holds sha3 scrypt as_bytes safe keys keys-IsHash passphrase chain 7 none
      (replicate 32 1) chain-holds

abbrev before : Edited
before = record {
  list = (text "home", entry (text "plugh")) ∷ (text "work", entry (text "xyzzy")) ∷ [];
  root = none;
}

before-IsRing : IsRing sha3 scrypt as_bytes keys before.list
before-IsRing = (entry-Holds (text "plugh"), (entry-Holds (text "xyzzy"), tt))

abbrev moment : Moment
moment = record { random = λ i. fit 32 (i ∷ []); version = replicate 32 9; now = 8 }

abbrev edited : Answer Edited → Edited
edited (ok t) = t
edited (err e) = before

before-IsUnique : IsUnique before.list
unfolding lookup text_eq
before-IsUnique = (refl, (refl, tt))

moment-IsHash : (i : ℕ) → IsHash (moment.random i)
moment-IsHash i = fit-IsHash 32 (i ∷ [])

abbrev add_spare : Request
add_spare = add_key (text "plugh") (text "foo") (text "spare")

abbrev added : Answer Edited
added = edit sha3 scrypt as_bytes add_spare moment before

added_ok : added ≡ ok (edited added)
unfolding edit edit_add_key edit_change_key fit sha3 scrypt keys entry find held chain_root put
    text_lt text_eq lookup erase Ordered.remove hmac masked opened reassoc_keys create_key chain_key
    try_derive_key_single try_derive_key scrypt_18_14_12_8_1 xor_bits xor_bytes
added_ok = refl

abbrev changed : Answer Edited
changed =
    edit sha3 scrypt as_bytes (change_key (text "plugh") (text "foo") (some (text "work")) true)
      moment before

changed_ok : changed ≡ ok (edited changed)
unfolding edit edit_add_key edit_change_key fit sha3 scrypt keys entry find held chain_root put
    text_lt text_eq lookup erase Ordered.remove hmac masked opened reassoc_keys create_key chain_key
    try_derive_key_single try_derive_key scrypt_18_14_12_8_1 xor_bits xor_bytes copy_keys real_name
    change_chain
changed_ok = refl

edit-held_example : held group_root (edited added).list ≡ true
unfolding edit edit_add_key edit_change_key fit sha3 scrypt keys entry find held chain_root put
    text_lt text_eq lookup erase Ordered.remove hmac masked opened reassoc_keys create_key chain_key
    try_derive_key_single try_derive_key scrypt_18_14_12_8_1 xor_bits xor_bytes
edit-held_example =
    edit-held sha3 scrypt as_bytes group_root add_spare moment before (edited added) before-IsUnique
      added_ok refl refl

edit-Kept_example :
    Kept sha3 scrypt as_bytes safe keys keys-IsHash before (edited added)
    ⊎ SomeCollides sha3 scrypt as_bytes keys (text "plugh" ∷ []) before.list before-IsRing
edit-Kept_example =
    edit-Kept sha3 scrypt as_bytes safe keys keys-IsHash add_spare moment before (edited added)
      moment-IsHash before-IsRing before-IsUnique (λ x q. cc) added_ok

add_key-Added_example :
    Added sha3 scrypt as_bytes safe keys keys-IsHash
      (text "plugh")
      (text "foo")
      (text "spare")
      before
      (edited added)
    ⊎ Collides sha3 scrypt as_bytes keys (text "plugh") before.list before-IsRing
add_key-Added_example =
    add_key-Added sha3 scrypt as_bytes safe keys keys-IsHash (text "plugh") (text "foo")
      (text "spare") moment before (edited added) before-IsRing added_ok

change_key-Changed_example :
    Changed sha3 scrypt as_bytes safe keys keys-IsHash
      (text "foo")
      (some (text "work"))
      before
      (edited changed)
    ⊎ Collides sha3 scrypt as_bytes keys (text "plugh") before.list before-IsRing
change_key-Changed_example =
    change_key-Changed sha3 scrypt as_bytes safe keys keys-IsHash (text "plugh") (text "foo")
      (some (text "work")) true moment before (edited changed) before-IsRing changed_ok

-- A storage of one session, with the directory of keys only.
record TestDisk : Type 0 where
  dir : Option (HashId × HashId × Bytes)
  ops : List Op
  done : List (List Op)

do_op : Op → Option (HashId × HashId × Bytes) → Option (HashId × HashId × Bytes)
do_op (make id v sv d) dir = some (v, sv, d)
do_op (remove id sv n) dir = none

do_ops : List Op → Option (HashId × HashId × Bytes) → Option (HashId × HashId × Bytes)
do_ops [] dir = dir
do_ops (op ∷ ops) dir = do_ops ops (do_op op dir)

abbrev storage : Storage TestDisk
storage = record {
  getdir = λ id w. (ok (elim w.dir [ none ↦ none | some d ↦ some (d.0, d.2) ]), w);
  start_tx = λ tx w. (ok tt, record w { ops = [] });
  commit =
      λ tx w. (ok true, record { dir = do_ops w.ops w.dir; ops = []; done = w.done ++ w.ops ∷ [] });
  abort = λ tx w. (ok tt, w);
  mkdir = λ tx id v sv d w. (ok tt, record w { ops = w.ops ++ make id v sv d ∷ [] });
  rmdir = λ tx id sv n w. (ok tt, record w { ops = w.ops ++ remove id sv n ∷ [] });
}

storage-IsTransactional : IsTransactional storage 0
storage-IsTransactional = record {
  buffer = λ w. w.ops;
  applied = λ w. w.done;
  start_tx = λ w w' h. ap (λ (p : Answer (Unit {0}) × TestDisk). p.1.ops) (sym h);
  getdir = λ id w. refl;
  mkdir = λ id v sv d w w' h. ap (λ (p : Answer (Unit {0}) × TestDisk). p.1.ops) (sym h);
  rmdir = λ id sv n w w' h. ap (λ (p : Answer (Unit {0}) × TestDisk). p.1.ops) (sym h);
  commit = λ w w' h. ap (λ (p : Answer Bool × TestDisk). p.1.done) (sym h);
  rejected = λ w w' h. absurd (true_false (ap (λ (p : Answer Bool × TestDisk). p.0) h));
  start_tx_applied = λ w. refl;
  getdir_applied = λ id w. refl;
  mkdir_applied = λ id v sv d w. refl;
  rmdir_applied = λ id sv n w. refl;
  abort_applied = λ w. refl;
}
  where
    true_false : ok true ≡ ok false → ⊥
    true_false h = cc

abbrev start : TestDisk
start = record { dir = some (replicate 32 3, replicate 32 4, 5 ∷ []); ops = []; done = [] }

abbrev performed : Answer (Unit {0}) × TestDisk
performed =
    perform storage (λ b. ok before.list) (λ l. ok (length l ∷ [])) sha3 scrypt as_bytes
      (λ i. moment) (λ i. ok (text "plugh")) add_spare start

performed_ok : ◌≡◌ {A = Answer (Unit {0}) × TestDisk} performed (ok tt, performed.1)
unfolding edit edit_add_key edit_change_key fit sha3 scrypt keys entry find held chain_root put
    text_lt text_eq lookup erase Ordered.remove hmac masked opened reassoc_keys create_key chain_key
    try_derive_key_single try_derive_key scrypt_18_14_12_8_1 xor_bits xor_bytes perform check
    edit_kdflist do_tx rounds end_round edit_round get_kdflist decoded find_root put_kdflist
    remove_old secret_dir_ver
performed_ok = refl

perform-Swap_example :
    Ends storage storage-IsTransactional
      (λ _ ops.
        (check add_spare ≡ ok tt)
        × Swap storage storage-IsTransactional
            (λ b. ok before.list)
            (λ l. ok (length l ∷ []))
            sha3
            scrypt
            as_bytes
            (λ i. moment)
            (λ i. ok (text "plugh"))
            (edit sha3 scrypt as_bytes add_spare)
            ops)
      (ok tt)
      start
      performed.1
perform-Swap_example =
    perform-Swap storage storage-IsTransactional (λ b. ok before.list) (λ l. ok (length l ∷ []))
      sha3 scrypt as_bytes (λ i. moment) (λ i. ok (text "plugh")) add_spare (ok tt) start
      performed.1 performed_ok
