-- ===== src/Server/KeyMgmt/Transactions.antt =====
-- src/server/keymgmt.rs: the list of keys in the storage. The serialised form (`fourleaf`) is a
-- parameter. What each round of a transaction draws, and what the prompt for the passphrase of
-- `root` gives in it, are functions of the round's number.
pub mod Atomic
pub mod Stored
pub mod Swap
use ensync.Base.{
  ℕ, zero, suc, ◌+◌, ◌%◌, ◌^◌, Bool, true, false, Option, none, some, List, [], ◌∷◌, if◌then◌else◌,
  length, replicate,
}
use ensync.Base.Text.{Text, text, Bytes}
use ensync.FileData.{HashId}
use ensync.Server.Ordered.{put}
use ensync.Server.Storage.{Call, Storage}
use ensync.Server.Crypt.{
  KdfEntry, KdfList, KeyChain, group_root, generate_new, chain_key, create_key, try_derive_key,
  secret_dir_ver, scrypt_18_14_12_8_1,
}
use ensync.Server.KeyMgmt.{
  KeyError, kdf_list_not_exists, kdf_list_already_exists, passphrase_not_in_kdf_list,
  too_many_tx_retries, other, Answer, ok, err, or_err, refuse_if, key_names, find_root, Moment,
  Edited, Request, check, edit,
}

-- `DIRID_KEYS`
abbrev pub dirid_keys : HashId
dirid_keys = replicate 32 0

abbrev pub and_then : {W A B : Type 0} → (A → Call W B) → Answer A × W → Answer B × W
and_then f (ok a, w) = f a w
and_then f (err e, w) = (err e, w)

infixl 5 ◌>>=◌
abbrev pub ◌>>=◌ : {W A B : Type 0} → Call W A → (A → Call W B) → Call W B
◌>>=◌ m f w = and_then f (m w)

abbrev pub lift : {W A : Type 0} → Answer A → Call W A
lift r w = (r, w)

pub record KeyInfo : Type 0 where
  pub name : Text
  pub algorithm : Text
  pub created : ℕ
  pub updated : Option ℕ
  pub groups : List Text

unfoldable pub key_infos : KdfList → List KeyInfo
key_infos [] = []
key_infos ((name, e) ∷ list) =
    record {
      name = name;
      algorithm = e.algorithm;
      created = e.created;
      updated = e.updated;
      groups = key_names e.groups;
    }
    ∷ key_infos list

module _ {W : Type 0} (storage : Storage W) where
  module _ {R S : Type 0} (f : ℕ → S → Call W (R × S)) where
    -- The rest of a round, after `f(tx)`.
    unfoldable pub end_round : (S → Call W R) → Answer (R × S) → Call W R
    end_round retry (ok (r, state)) w =
        (storage.commit 0 >>= λ committed. if committed then lift (ok r) else retry state) w
    end_round retry (err e) w = (err e, (storage.abort 0 w).1)

    -- The rounds that are left, of `for _ in 0..16`. `f` keeps the variables that it captures.
    unfoldable pub rounds : ℕ → ℕ → S → Call W R
    unfolding end_round
    rounds zero i state = lift (err too_many_tx_retries)
    rounds (suc n) i state =
        let retry = rounds n (suc i) in
        storage.start_tx 0 >>= λ _ w. let (r, w') = f i state w in end_round retry r w'

    -- `do_tx(storage, f)`
    unfoldable pub do_tx : S → Call W R
    unfolding rounds
    do_tx state = rounds 16 0 state

  module _ (decode : Bytes → Answer KdfList) (encode : KdfList → Answer Bytes) where
    unfoldable pub decoded : Option (HashId × Bytes) → Call W (Option (KdfList × HashId × ℕ))
    decoded none = lift (ok none)
    decoded (some (ver, data')) =
        lift (decode data') >>= λ kdf. lift (ok (some (kdf, ver, length data' % 2 ^ 32)))

    -- `get_kdflist(storage)`
    unfoldable pub get_kdflist : Call W (Option (KdfList × HashId × ℕ))
    unfolding decoded
    get_kdflist w = (storage.getdir dirid_keys >>= decoded) w

    module _ (sha3 : Bytes → HashId) (scrypt : ℕ → Bytes → HashId → HashId)
        (as_bytes : Text → Bytes) where
      unfoldable pub remove_old : Option (HashId × ℕ) → HashId → Call W Unit
      unfolding secret_dir_ver
      remove_old none key = lift (ok tt)
      remove_old (some (old_ver, old_len)) key =
          storage.rmdir 0 dirid_keys (secret_dir_ver sha3 scrypt as_bytes old_ver key) old_len

      -- `put_kdflist(storage, kdf, tx, old, key)`, with the version that it draws.
      unfoldable pub put_kdflist :
          HashId → KdfList → Option (HashId × ℕ) → HashId → Call W (HashId × ℕ)
      unfolding remove_old secret_dir_ver
      put_kdflist new_ver kdf old key = lift (encode kdf) >>= λ new_data.
          remove_old old key >>= λ _.
          storage.mkdir 0 dirid_keys new_ver (secret_dir_ver sha3 scrypt as_bytes new_ver key)
            new_data
          >>= λ _. lift (ok (new_ver, length new_data % 2 ^ 32))

      module _ (moments : ℕ → Moment) (get_root_passphrase : ℕ → Answer Bytes) where
        -- One round of `edit_kdflist`; the cached `root` key stays from round to round.
        unfoldable pub edit_round :
            (Moment → Edited → Answer Edited) → ℕ → Option HashId → Call W (Unit × Option HashId)
        unfolding get_kdflist find_root put_kdflist
        edit_round f i root = get_kdflist >>= λ found.
            lift (or_err found kdf_list_not_exists) >>= λ (old : KdfList × HashId × ℕ).
            lift (f (moments i) (record { list = old.0; root = root })) >>= λ t.
            lift (find_root sha3 scrypt as_bytes (get_root_passphrase i) t) >>= λ root'.
            lift (or_err root' (other (text "Input key not in `root` group"))) >>= λ key.
            put_kdflist ((moments i).version) t.list (some (old.1, old.2)) key >>= λ _.
            lift (ok (tt, root'))

        -- `edit_kdflist(storage, get_root_passphrase, f)`
        unfoldable pub edit_kdflist : (Moment → Edited → Answer Edited) → Call W Unit
        unfolding do_tx edit_round
        edit_kdflist f = do_tx (edit_round f) none

        -- A request, as its function carries it out.
        unfoldable pub perform : Request → Call W Unit
        unfolding check edit edit_kdflist
        perform r = lift (check r) >>= λ _. edit_kdflist (edit sha3 scrypt as_bytes r)

        unfoldable pub init_round : Bytes → Text → ℕ → Unit {0} → Call W (KeyChain × Unit {0})
        unfolding get_kdflist generate_new create_key put put_kdflist chain_key
        init_round passphrase key_name i _ =
            let m = moments i in
            let chain = generate_new (m.random 0) (m.random 1) in
            let entry = create_key sha3 scrypt as_bytes passphrase chain m.now none (m.random 2) in
            get_kdflist >>= λ found.
            lift (refuse_if (elim found [ none ↦ false | some _ ↦ true ]) kdf_list_already_exists)
            >>= λ _.
                lift (
                  or_err (chain_key group_root chain)
                    (other (text "Created KeyChain with no `root` group")))
                >>= λ root. put_kdflist (m.version) (put key_name entry []) none root >>= λ _.
                    lift (
                      ok (
                        record chain {
                          derived =
                              scrypt_18_14_12_8_1 sha3 scrypt as_bytes passphrase (m.random 2);
                        },
                        tt,
                      ))

        -- `init_keys(storage, passphrase, key_name)`
        unfoldable pub init_keys : Bytes → Text → Call W KeyChain
        unfolding do_tx init_round
        init_keys passphrase key_name = do_tx (init_round passphrase key_name) tt

      -- `derive_key_chain(storage, passphrase)`
      unfoldable pub derive_key_chain : Bytes → Call W KeyChain
      unfolding get_kdflist try_derive_key
      derive_key_chain passphrase = get_kdflist >>= λ found.
          lift (or_err found kdf_list_not_exists) >>= λ (old : KdfList × HashId × ℕ).
          lift (
            or_err (try_derive_key sha3 scrypt as_bytes passphrase old.0)
              passphrase_not_in_kdf_list)

    -- `list_keys(storage)`
    unfoldable pub list_keys : Call W (List KeyInfo)
    unfolding get_kdflist key_infos
    list_keys =
        get_kdflist >>= λ found. lift (ok (elim found [ none ↦ [] | some old ↦ key_infos old.0 ]))
