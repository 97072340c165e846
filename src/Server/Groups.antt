-- ===== src/Server/Groups.antt =====
-- src/server/keymgmt.rs: the loops over entries, groups and names.
use ensync.Base.{ℕ, suc, Bool, false, ◌||◌, not, Option, none, some, List, [], ◌∷◌, if◌then◌else◌}
use ensync.Base.Text.{Text, text_eq}
use ensync.Base.Map.{Map, contains_key}
use ensync.Server.Errors.{
  anon_change_key_but_multiple_kdf_entries, key_not_in_kdf_list, key_not_in_group,
  key_already_in_group, group_not_in_kdf_list, Answer, ok, err, ◌>>=◌, or_err, refuse_if,
}
use ensync.FileData.{HashId}
use ensync.Server.Ordered.{put, remove}
use ensync.Server.Crypt.{KdfList, KeyChain, chain_key}

-- The first of the names for which the test holds.
unfoldable pub find : (Text → Bool) → List Text → Option Text
find p [] = none
find p (name ∷ names) = if p name then some name else find p names

-- `kdflist.keys.values().any(|e| e.groups.contains_key(g))`
unfoldable pub held : Text → KdfList → Bool
held g [] = false
held g ((name, e) ∷ list) = contains_key g e.groups || held g list

abbrev pub key_names : {V : Type 0} → Map V → List Text
key_names [] = []
key_names ((k, v) ∷ m) = k ∷ key_names m

-- The keys of the groups of an entry, into a chain.
unfoldable pub copy_keys : KeyChain → List Text → Map HashId → Answer (Map HashId)
unfolding chain_key put
copy_keys from [] keys = ok keys
copy_keys from (group ∷ groups) keys =
    or_err (chain_key group from) (key_not_in_group group) >>= λ key.
    copy_keys from groups (put group key keys)

-- The same, for groups that the chain must not have yet.
unfoldable pub add_keys : KeyChain → List Text → Map HashId → Answer (Map HashId)
unfolding chain_key put
add_keys from [] keys = ok keys
add_keys from (name ∷ names) keys =
    refuse_if (contains_key name keys) (key_already_in_group name) >>= λ _.
    or_err (chain_key name from) (key_not_in_group name) >>= λ key.
    add_keys from names (put name key keys)

-- New keys for the names.
unfoldable pub new_keys : (ℕ → HashId) → ℕ → List Text → Map HashId → Map HashId
unfolding put
new_keys random i [] keys = keys
new_keys random i (name ∷ names) keys = new_keys random (suc i) names (put name (random i) keys)

-- `entry.groups.remove(name)` for each name, which must be there.
unfoldable pub remove_groups : List Text → Map HashId → Answer (Map HashId)
unfolding remove
remove_groups [] groups = ok groups
remove_groups (name ∷ names) groups =
    or_err (remove name groups) (key_not_in_group name) >>= λ (w : HashId × Map HashId).
    remove_groups names w.1

-- `kdflist.keys.get_mut(key)`, to take groups from the entry.
unfoldable pub take_groups : Text → List Text → KdfList → Answer KdfList
unfolding remove_groups text_eq
take_groups key names [] = err (key_not_in_kdf_list key)
take_groups key names ((name, e) ∷ list) =
    let rest = take_groups key names list in
    if text_eq name key
    then (remove_groups names e.groups >>= λ groups.
        ok ((name, record e { groups = groups }) ∷ list))
    else (rest >>= λ l. ok ((name, e) ∷ l))

-- The group is removed from all entries.
unfoldable pub remove_everywhere : Text → KdfList → KdfList
unfolding remove
remove_everywhere g [] = []
remove_everywhere g ((name, e) ∷ list) =
    let rest = remove_everywhere g list in
    elim (remove g e.groups) [
      | none ↦ (name, e) ∷ rest
      | some (_, groups) ↦ (name, record e { groups = groups }) ∷ rest
    ]

unfoldable pub destroy_all : List Text → KdfList → Answer KdfList
unfolding held remove_everywhere
destroy_all [] list = ok list
destroy_all (name ∷ names) list =
    refuse_if (not (held name list)) (group_not_in_kdf_list name) >>= λ _.
    destroy_all names (remove_everywhere name list)

-- The name that `change_key` edits.
unfoldable pub real_name : Option Text → KdfList → Answer Text
real_name (some name) list = ok name
real_name none [] = err anon_change_key_but_multiple_kdf_entries
real_name none ((name, e) ∷ []) = ok name
real_name none (x ∷ y ∷ list) = err anon_change_key_but_multiple_kdf_entries
