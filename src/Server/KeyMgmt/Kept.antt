-- ===== src/Server/KeyMgmt/Kept.antt =====
-- src/server/keymgmt.rs: what all edits keep.
use ensync.Base.{
  ℕ, ◌≡◌, refl, ◌∙◌, true, Option, none, some, List, [], ◌∷◌, All, ◌⊎◌, arith, Bool-cases, inl, inr,
}
use mathlib.Core.Path.{subst}
use ensync.Base.Text.{Text, Bytes}
use ensync.Base.Map.{lookup, erase}
use ensync.FileData.{HashId}
use ensync.Server.Ordered.{
  erase-AllIn, put-AllIn, lookup-AllIn, IsUnique, erase-IsUnique, put-IsUnique,
}
use ensync.Server.Crypt.{group_root, empty_chain, create_key}
use ensync.Server.Crypt.Rings.{
  IsHash, IsSafe, Holds, Tried, IsTried, SomeCollides, All-IsTried-or_SomeCollides, ChainHolds,
  IsRing, create_key-Holds, try_derive_key-Found,
}
use ensync.Server.KeyMgmt.{
  ok, held, key_names, add_keys, new_keys, chain_root, Moment, Edited, Request, add_key, del_key,
  change_key, create_group, assoc_group, disassoc_group, destroy_group, edit,
}
use ensync.Server.KeyMgmt.Done.{edit-DoneAdd, edit-DoneDel, edit-DoneChange}
use ensync.Server.KeyMgmt.DoneGroups.{
  edit-DoneCreate, edit-DoneAssoc, edit-DoneDisassoc, edit-destroy_group,
}
use ensync.Server.KeyMgmt.Held.{listed, ok-eq, lookup-erase_self}
use ensync.Server.KeyMgmt.Keys.{
  chain_root-eq, drawn, drawn-other, drawn-IsHash, copy_keys-ChainHolds, add_keys-ChainHolds,
  new_keys-ChainHolds, key_names-IsUnique, key_names-take_groups, key_names-destroy_all,
}
use ensync.Server.KeyMgmt.Shared.{
  take_groups-IsRing, destroy_all-IsRing, other-Holds, edit_opened-EditedRing,
  change_chain-ChainHolds,
}

-- The passphrases with which an edit opens entries.
abbrev pub passphrases : Request → List Bytes
passphrases (add_key old_passphrase new_passphrase new_name) = old_passphrase ∷ []
passphrases (del_key name) = []
passphrases (change_key old_passphrase new_passphrase name allow) = old_passphrase ∷ []
passphrases (create_group passphrase names) = passphrase ∷ []
passphrases (assoc_group src_passphrase dst_passphrase names) = src_passphrase ∷ dst_passphrase ∷ []
passphrases (disassoc_group key names) = []
passphrases (destroy_group names) = []

module _ (sha3 : Bytes → HashId) (scrypt : ℕ → Bytes → HashId → HashId)
    (as_bytes : Text → Bytes) where
  module _ (safe : IsSafe sha3 scrypt as_bytes) where
    module _ (K : Text → HashId) (of_K : (g : Text) → IsHash (K g)) where
      -- A cached `root` key is that of the list.
      abbrev pub IsRoot : Option HashId → Type 0
      IsRoot o = (x : HashId) → o ≡ some x → x ≡ K group_root

      -- What an edit keeps.
      pub record Kept (s t : Edited) : Type 0 where
        pub keys : Text → HashId
        pub of_keys : (g : Text) → IsHash (keys g)
        pub same : (g : Text) → held g s.list ≡ true → keys g ≡ K g
        pub ring : IsRing sha3 scrypt as_bytes keys t.list
        pub unique : IsUnique t.list
        pub root : IsRoot t.root

      tried-Kept :
          (r : Request) (m : Moment) (s t : Edited)
          → ((i : ℕ) → IsHash (m.random i))
          → IsRing sha3 scrypt as_bytes K s.list
          → All (λ p. IsTried sha3 scrypt as_bytes K p s.list) (passphrases r)
          → IsUnique s.list
          → IsRoot s.root
          → edit sha3 scrypt as_bytes r m s ≡ ok t
          → Kept s t
      unfolding lookup
      tried-Kept (add_key old_passphrase new_passphrase new_name) m s t d r tries u f h =
          let a =
            edit-DoneAdd sha3 scrypt as_bytes old_passphrase new_passphrase new_name m s t h in
          let i =
            (try_derive_key-Found sha3 scrypt as_bytes safe K of_K old_passphrase s.list a.kc
              tries.0 a.derives).opens.holds in
          let e = create_key sha3 scrypt as_bytes new_passphrase a.kc m.now none (m.random 0) in
          subst (λ t. Kept s t) a.is
            (record {
              keys = K;
              of_keys = of_K;
              same = λ g q. refl;
              ring =
                  put-AllIn (λ _ e. Holds sha3 scrypt as_bytes K e) new_name e s.list r
                    (create_key-Holds sha3 scrypt as_bytes safe K of_K new_passphrase a.kc m.now
                      none (m.random 0) i);
              unique = put-IsUnique new_name e s.list u a.unused;
              root = chain_root-eq s.root a.kc (K group_root) f (λ x. i group_root x);
            })
      tried-Kept (del_key name) m s t d r tries u f h =
          let a = edit-DoneDel sha3 scrypt as_bytes name m s t h in
          subst (λ t. Kept s t) a.is
            (record {
              keys = K;
              of_keys = of_K;
              same = λ g q. refl;
              ring = erase-AllIn (λ _ e. Holds sha3 scrypt as_bytes K e) name s.list r;
              unique = erase-IsUnique name s.list u;
              root = f;
            })
      tried-Kept (change_key old_passphrase new_passphrase name allow) m s t d r tries u f h =
          let a =
            edit-DoneChange sha3 scrypt as_bytes old_passphrase new_passphrase name allow m s t h in
          let rest = erase a.real s.list in
          let ring = erase-AllIn (λ _ e. Holds sha3 scrypt as_bytes K e) a.real s.list r in
          let i =
            change_chain-ChainHolds sha3 scrypt as_bytes safe K of_K old_passphrase a.entry rest
              allow a.kc
              (lookup-AllIn (λ _ e. Tried sha3 scrypt as_bytes K old_passphrase e) a.real a.entry
                s.list tries.0 a.found)
              (erase-AllIn (λ _ e. Tried sha3 scrypt as_bytes K old_passphrase e) a.real s.list
                tries.0)
              a.chain in
          let kc = record empty_chain { keys = a.keys } in
          let e =
            create_key sha3 scrypt as_bytes new_passphrase kc a.entry.created (some m.now)
              (m.random 0) in
          subst (λ t. Kept s t) a.is
            (record {
              keys = K;
              of_keys = of_K;
              same = λ g q. refl;
              ring =
                  put-AllIn (λ _ e. Holds sha3 scrypt as_bytes K e) a.real e rest ring
                    (create_key-Holds sha3 scrypt as_bytes safe K of_K new_passphrase kc
                      a.entry.created (some m.now) (m.random 0)
                      (copy_keys-ChainHolds K a.kc (key_names a.entry.groups) [] a.keys i
                        (λ g x q. cc) a.copied));
              unique =
                  put-IsUnique a.real e rest (erase-IsUnique a.real s.list u)
                    (lookup-erase_self a.real s.list);
              root = chain_root-eq s.root a.kc (K group_root) f (λ x. i group_root x);
            })
      tried-Kept (create_group passphrase names) m s t d r tries u f h =
          let a = edit-DoneCreate sha3 scrypt as_bytes passphrase names m s t h in
          let L = λ (g : Text). drawn m.random 0 names K g in
          let same : (g : Text) → held g s.list ≡ true → L g ≡ K g = λ g q.
            drawn-other m.random 0 names K g (elim (Bool-cases (listed g names)) [
              | inl l ↦ absurd (ground (arith, a.unused g l, q))
              | inr l ↦ l
            ]) in
          let of_L = λ (g : Text). drawn-IsHash m.random d 0 names K of_K g in
          let i =
            edit_opened-EditedRing sha3 scrypt as_bytes safe K of_K L of_L passphrase
              (λ kc. ok (new_keys m.random 0 names kc.keys)) s.list a.result
              (λ kc keys q i.
                subst (λ m. ChainHolds L m) (ok-eq _ keys q)
                  (new_keys-ChainHolds m.random 0 names K kc.keys i))
              a.opened tries.0 (other-Holds sha3 scrypt as_bytes K L s.list same r) in
          subst (λ t. Kept s t) a.is
            (record {
              keys = L;
              of_keys = of_L;
              same = same;
              ring = i.ring;
              unique = key_names-IsUnique s.list (a.result).0 i.names u;
              root = chain_root-eq s.root (a.result).1 (K group_root) f (λ x. i.holds group_root x);
            })
      tried-Kept (assoc_group src_passphrase dst_passphrase names) m s t d r tries u f h =
          let a = edit-DoneAssoc sha3 scrypt as_bytes src_passphrase dst_passphrase names m s t h in
          let j =
            (try_derive_key-Found sha3 scrypt as_bytes safe K of_K src_passphrase s.list a.src
              tries.0 a.derives).opens.holds in
          let i =
            edit_opened-EditedRing sha3 scrypt as_bytes safe K of_K K of_K dst_passphrase
              (λ kc. add_keys a.src names kc.keys) s.list a.result
              (λ kc keys q i. add_keys-ChainHolds K a.src names kc.keys keys j i q) a.opened
              (tries.1).0 r in
          subst (λ t. Kept s t) a.is
            (record {
              keys = K;
              of_keys = of_K;
              same = λ g q. refl;
              ring = i.ring;
              unique = key_names-IsUnique s.list (a.result).0 i.names u;
              root =
                  chain_root-eq (chain_root s.root a.src) (a.result).1 (K group_root)
                    (chain_root-eq s.root a.src (K group_root) f (λ x. j group_root x))
                    (λ x. i.holds group_root x);
            })
      tried-Kept (disassoc_group key names) m s t d r tries u f h =
          let a = edit-DoneDisassoc sha3 scrypt as_bytes key names m s t h in
          record {
            keys = K;
            of_keys = of_K;
            same = λ g q. refl;
            ring = take_groups-IsRing sha3 scrypt as_bytes K key names s.list t.list a.taken r;
            unique =
                key_names-IsUnique s.list t.list
                  (key_names-take_groups key names s.list t.list a.taken) u;
            root = λ x q. f x (a.same_root ∙ q);
          }
      tried-Kept (destroy_group names) m s t d r tries u f h =
          let (a, b) = edit-destroy_group sha3 scrypt as_bytes names m s t h in
          record {
            keys = K;
            of_keys = of_K;
            same = λ g q. refl;
            ring = destroy_all-IsRing sha3 scrypt as_bytes K names s.list t.list a r;
            unique =
                key_names-IsUnique s.list t.list (key_names-destroy_all names s.list t.list a) u;
            root = λ x q. f x (b ∙ q);
          }

      -- After each edit, all the entries that have a group still give one internal key for it, and for
      -- each group that was held before, this is the key that they gave before. No two entries have
      -- the same name, and the cached `root` key is the one of the list; unless a passphrase of the edit
      -- derives from an entry's salt another key than the entry's secret, with the same hash. The keys, and
      -- what is drawn, hashed and derived, are of 32 bytes.
      pub edit-Kept :
          (r : Request) (m : Moment) (s t : Edited)
          → ((i : ℕ) → IsHash (m.random i))
          → (ring : IsRing sha3 scrypt as_bytes K s.list) → IsUnique s.list
          → IsRoot s.root
          → edit sha3 scrypt as_bytes r m s ≡ ok t
          → Kept s t ⊎ SomeCollides sha3 scrypt as_bytes K (passphrases r) s.list ring
      edit-Kept r m s t d ring u f h =
          elim (All-IsTried-or_SomeCollides sha3 scrypt as_bytes K (passphrases r) s.list ring) [
            | inl tries ↦ inl (tried-Kept r m s t d ring tries u f h)
            | inr c ↦ inr c
          ]
