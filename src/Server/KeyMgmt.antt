-- ===== src/Server/KeyMgmt.antt =====
-- src/server/keymgmt.rs: the requests that edit the list of passphrases. What an attempt draws at
-- random and the time are arguments.
pub mod Held
pub mod Done
pub mod DoneGroups
pub mod Safe
pub mod Keys
pub mod Shared
pub mod Kept
pub mod Derives
pub mod Transactions
mod Tests
use ensync.Base.{
  ℕ, zero, suc, ◌+◌, Bool, true, false, ◌||◌, not, Option, none, some, List, [], ◌∷◌, if◌then◌else◌,
}
use ensync.Base.Text.{Text, Bytes, text_eq}
use ensync.Base.Map.{Map, lookup, is_some, contains_key}
unfoldable pub use ensync.Server.Groups.{
  find, held, key_names, copy_keys, add_keys, new_keys, remove_groups, take_groups,
  remove_everywhere, destroy_all, real_name,
}
pub use ensync.Server.Errors.{
  KeyError, kdf_list_not_exists, kdf_list_already_exists, passphrase_not_in_kdf_list,
  passphrase_in_kdf_list, empty_key_name, empty_key_group_name, would_remove_last_kdf_entry,
  too_many_tx_retries, anon_change_key_but_multiple_kdf_entries,
  change_key_with_passphrase_mismatch, key_name_already_in_use, key_not_in_kdf_list,
  key_not_in_group, key_already_in_group, group_name_already_in_use, group_not_in_kdf_list,
  cannot_disassoc_group, cannot_destroy_group, would_disassoc_last_key_from_group, other, Answer,
  ok, err, ◌>>=◌, or_err, refuse_if, refuse_found,
}
use ensync.FileData.{HashId}
use ensync.Server.Ordered.{put, remove}
use ensync.Server.Crypt.{
  KdfEntry, KdfList, KeyChain, group_everyone, group_root, empty_chain, chain_key, reassoc_keys,
  create_key, try_derive_key_single, try_derive_key,
}

-- `RootKey::chain`
unfoldable pub chain_root : Option HashId → KeyChain → Option HashId
unfolding chain_key
chain_root none kc = chain_key group_root kc
chain_root (some key) kc = some key

-- What one attempt draws: the salts and keys in turn, the version of the list, and the time.
pub record Moment : Type 0 where
  pub random : ℕ → HashId
  pub version : HashId
  pub now : ℕ

-- The list as it is edited, and the cached `root` key.
pub record Edited : Type 0 where
  pub list : KdfList
  pub root : Option HashId

-- The requests, one for each function with its arguments; `names` is what the iterator gives.
pub data Request : Type 0 where
  add_key : (old_passphrase new_passphrase : Bytes) (new_name : Text) → Request
  del_key : (name : Text) → Request
  change_key :
      (old_passphrase new_passphrase : Bytes) (name : Option Text)
      (allow_change_via_other_passphrase : Bool)
      → Request
  create_group : (passphrase : Bytes) (names : List Text) → Request
  assoc_group : (src_passphrase dst_passphrase : Bytes) (names : List Text) → Request
  disassoc_group : (key : Text) (names : List Text) → Request
  destroy_group : (names : List Text) → Request

-- What each function tests before it reads the list.
unfoldable pub check : Request → Answer Unit
unfolding find text_eq
check (add_key old_passphrase new_passphrase new_name) =
    refuse_if (text_eq new_name []) empty_key_name
check (create_group passphrase names) =
    refuse_found (find (λ name. text_eq name []) names) (λ _. empty_key_group_name)
check (disassoc_group key names) =
    refuse_found (find (λ name. text_eq group_everyone name) names) cannot_disassoc_group
check (destroy_group names) =
    refuse_found (find (λ name. text_eq group_everyone name || text_eq group_root name) names)
      cannot_destroy_group
check (del_key name) = ok tt
check (change_key old_passphrase new_passphrase name allow) = ok tt
check (assoc_group src_passphrase dst_passphrase names) = ok tt

module _ (sha3 : Bytes → HashId) (scrypt : ℕ → Bytes → HashId → HashId)
    (as_bytes : Text → Bytes) where
  -- The first entry that the passphrase opens is given the keys that `f` makes of its chain; with
  -- the chain as it was.
  unfoldable pub edit_opened :
      Bytes → (KeyChain → Answer (Map HashId)) → KdfList → Answer (KdfList × KeyChain)
  unfolding try_derive_key_single reassoc_keys
  edit_opened passphrase f [] = err passphrase_not_in_kdf_list
  edit_opened passphrase f ((name, e) ∷ list) =
      let rest = edit_opened passphrase f list in
      elim (try_derive_key_single sha3 scrypt as_bytes passphrase e) [
        | some kc ↦ f kc >>= λ keys.
            ok ((name, reassoc_keys sha3 scrypt as_bytes e (record kc { keys = keys })) ∷ list, kc)
        | none ↦ rest >>= λ (w : KdfList × KeyChain). ok ((name, e) ∷ w.0, w.1)
      ]

  -- The chain with which `change_key` makes the new entry.
  unfoldable pub change_chain : Bytes → KdfEntry → KdfList → Bool → Answer KeyChain
  unfolding try_derive_key_single try_derive_key
  change_chain old_passphrase old_entry rest allow =
      elim (try_derive_key_single sha3 scrypt as_bytes old_passphrase old_entry) [
        | some kc ↦ ok kc
        | none ↦ elim (try_derive_key sha3 scrypt as_bytes old_passphrase rest) [
          | some kc ↦ if allow then ok kc else err change_key_with_passphrase_mismatch
          | none ↦ err passphrase_not_in_kdf_list
        ]
      ]

  -- `add_key`, from the arguments of its closure.
  unfoldable pub edit_add_key : Bytes → Bytes → Text → Moment → Edited → Answer Edited
  unfolding chain_root put try_derive_key create_key
  edit_add_key old_passphrase new_passphrase new_name m s =
      or_err (try_derive_key sha3 scrypt as_bytes old_passphrase s.list) passphrase_not_in_kdf_list
      >>= λ kc.
          refuse_if (is_some (try_derive_key sha3 scrypt as_bytes new_passphrase s.list))
            passphrase_in_kdf_list
          >>= λ _.
              refuse_if (contains_key new_name s.list) (key_name_already_in_use new_name) >>= λ _.
              ok (record {
                list =
                    put new_name
                      (create_key sha3 scrypt as_bytes new_passphrase kc m.now none (m.random 0))
                      s.list;
                root = chain_root s.root kc;
              })

  -- `del_key`, from the arguments of its closure.
  unfoldable pub edit_del_key : Text → Moment → Edited → Answer Edited
  unfolding find held remove
  edit_del_key name m s =
      or_err (remove name s.list) (key_not_in_kdf_list name) >>= λ (w : KdfEntry × KdfList).
      refuse_if (elim w.1 [ [] ↦ true | x ∷ l ↦ false ]) would_remove_last_kdf_entry >>= λ _.
      refuse_found (find (λ g. not (held g w.1)) (key_names w.0.groups))
        (would_disassoc_last_key_from_group name)
      >>= λ _. ok (record s { list = w.1 })

  -- `change_key`, from the arguments of its closure.
  unfoldable pub edit_change_key :
      Bytes → Bytes → Option Text → Bool → Moment → Edited → Answer Edited
  unfolding chain_root put remove try_derive_key create_key copy_keys real_name change_chain
  edit_change_key old_passphrase new_passphrase name allow m s = real_name name s.list >>= λ real.
      or_err (remove real s.list) (key_not_in_kdf_list real) >>= λ (w : KdfEntry × KdfList).
      refuse_if (is_some (try_derive_key sha3 scrypt as_bytes new_passphrase w.1))
        passphrase_in_kdf_list
      >>= λ _. change_chain old_passphrase w.0 w.1 allow >>= λ kc.
          copy_keys kc (key_names w.0.groups) [] >>= λ keys. ok (record {
            list =
                put real
                  (create_key sha3 scrypt as_bytes new_passphrase
                    (record empty_chain { keys = keys }) w.0.created (some m.now) (m.random 0))
                  w.1;
            root = chain_root s.root kc;
          })

  -- `create_group`, from the arguments of its closure.
  unfoldable pub edit_create_group : Bytes → List Text → Moment → Edited → Answer Edited
  unfolding find held chain_root new_keys edit_opened
  edit_create_group passphrase names m s =
      refuse_found (find (λ g. held g s.list) names) group_name_already_in_use >>= λ _.
      edit_opened passphrase (λ kc. ok (new_keys m.random 0 names kc.keys)) s.list
      >>= λ (w : KdfList × KeyChain). ok (record { list = w.0; root = chain_root s.root w.1 })

  -- `assoc_group`, from the arguments of its closure.
  unfoldable pub edit_assoc_group : Bytes → Bytes → List Text → Moment → Edited → Answer Edited
  unfolding chain_root try_derive_key add_keys edit_opened
  edit_assoc_group src_passphrase dst_passphrase names m s =
      or_err (try_derive_key sha3 scrypt as_bytes src_passphrase s.list) passphrase_not_in_kdf_list
      >>= λ src.
          edit_opened dst_passphrase (λ kc. add_keys src names kc.keys) s.list
          >>= λ (w : KdfList × KeyChain).
              ok (record { list = w.0; root = chain_root (chain_root s.root src) w.1 })

  -- `disassoc_group`, from the arguments of its closure.
  unfoldable pub edit_disassoc_group : Text → List Text → Moment → Edited → Answer Edited
  unfolding find held take_groups
  edit_disassoc_group key names m s = take_groups key names s.list >>= λ list.
      refuse_found (find (λ g. not (held g list)) names) (would_disassoc_last_key_from_group key)
      >>= λ _. ok (record s { list = list })

  -- `destroy_group`, from the arguments of its closure.
  unfoldable pub edit_destroy_group : List Text → Moment → Edited → Answer Edited
  unfolding destroy_all
  edit_destroy_group names m s = destroy_all names s.list >>= λ list. ok (record s { list = list })

  -- What the function of the request does with the list.
  unfoldable pub edit : Request → Moment → Edited → Answer Edited
  unfolding edit_add_key edit_del_key edit_change_key edit_create_group edit_assoc_group
      edit_disassoc_group edit_destroy_group
  edit (add_key old_passphrase new_passphrase new_name) m s =
      edit_add_key old_passphrase new_passphrase new_name m s
  edit (del_key name) m s = edit_del_key name m s
  edit (change_key old_passphrase new_passphrase name allow) m s =
      edit_change_key old_passphrase new_passphrase name allow m s
  edit (create_group passphrase names) m s = edit_create_group passphrase names m s
  edit (assoc_group src_passphrase dst_passphrase names) m s =
      edit_assoc_group src_passphrase dst_passphrase names m s
  edit (disassoc_group key names) m s = edit_disassoc_group key names m s
  edit (destroy_group names) m s = edit_destroy_group names m s

  -- The key of `root`, for which a passphrase is asked if it was not met.
  unfoldable pub find_root : Answer Bytes → Edited → Answer (Option HashId)
  unfolding chain_root try_derive_key
  find_root answer t = elim t.root [
    | some key ↦ ok (some key)
    | none ↦ elim answer [
      | err e ↦ err e
      | ok passphrase ↦ elim (try_derive_key sha3 scrypt as_bytes passphrase t.list) [
        | none ↦ err passphrase_not_in_kdf_list
        | some kc ↦ ok (chain_root none kc)
      ]
    ]
  ]
