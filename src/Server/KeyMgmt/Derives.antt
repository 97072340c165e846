-- ===== src/Server/KeyMgmt/Derives.antt =====
-- src/server/keymgmt.rs: what new passphrases give.
use ensync.Base.{
  ℕ, ◌≡◌, sym, ◌∙◌, Bool, false, Option, none, some, [], ◌∷◌, arith, Option-cases, ◌⊎◌, inl, inr,
}
use mathlib.Core.Path.{subst}
use ensync.Base.Text.{Text, Bytes, text_eq}
use ensync.Base.Map.{Map, lookup, contains_key, erase, lookup-erase}
use ensync.FileData.{HashId}
use ensync.Server.Ordered.{erase-AllIn, lookup-AllIn, put, lookup-put}
use ensync.Server.Crypt.{
  KdfEntry, KdfList, KeyChain, empty_chain, create_key, try_derive_key_single, try_derive_key,
}
use ensync.Server.Crypt.Rings.{
  IsHash, IsSafe, Tried, IsTried, Collides, IsTried-or_Collides, ChainHolds, IsRing,
  try_derive_key-Found, create_key-Reopens,
}
use ensync.Server.KeyMgmt.{ok, key_names, Moment, Edited, add_key, change_key, edit, real_name}
use ensync.Server.KeyMgmt.Done.{edit-DoneAdd, edit-DoneChange}
use ensync.Server.KeyMgmt.Held.{key_names-listed, contains_key-copy_keys}
use ensync.Server.KeyMgmt.Keys.{copy_keys-ChainHolds}
use ensync.Server.KeyMgmt.Shared.{change_chain-ChainHolds}

module _ (sha3 : Bytes → HashId) (scrypt : ℕ → Bytes → HashId → HashId)
    (as_bytes : Text → Bytes) where
  -- Of entries of which only the new one can be opened.
  try_derive_key-put :
      (passphrase : Bytes) (name : Text) (e : KdfEntry) (kc : KeyChain) (list : KdfList)
      → try_derive_key sha3 scrypt as_bytes passphrase list ≡ none
      → try_derive_key_single sha3 scrypt as_bytes passphrase e ≡ some kc
      → try_derive_key sha3 scrypt as_bytes passphrase (put name e list) ≡ some kc
  unfolding try_derive_key put
  try_derive_key-put passphrase name e kc [] n q = ground (arith, q)
  try_derive_key-put passphrase name e kc ((j, f) ∷ list) n q =
      elim (Option-cases (try_derive_key_single sha3 scrypt as_bytes passphrase f)) [
        | inr (k, m) ↦ absurd (ground (arith, m, n))
        | inl m ↦
            ground
              (arith, m, q, try_derive_key-put passphrase name e kc list (ground (arith, m, n)) q)
      ]

  module _ (safe : IsSafe sha3 scrypt as_bytes) (K : Text → HashId)
      (of_K : (g : Text) → IsHash (K g)) where
    -- The list gives the keys for the passphrase.
    pub record Gives (passphrase : Bytes) (list : KdfList) (keys : Map HashId) : Type 0 where
      pub chain : KeyChain
      pub derives : try_derive_key sha3 scrypt as_bytes passphrase list ≡ some chain
      pub same : (g : Text) → lookup g chain.keys ≡ lookup g keys

    create_key-Gives :
        (passphrase : Bytes) (name : Text) (kc : KeyChain) (created : ℕ) (updated : Option ℕ)
        (salt : HashId) (list : KdfList)
        → ChainHolds K kc.keys
        → try_derive_key sha3 scrypt as_bytes passphrase list ≡ none
        → Gives passphrase
            (put name (create_key sha3 scrypt as_bytes passphrase kc created updated salt) list)
            kc.keys
    create_key-Gives passphrase name kc created updated salt list h n =
        let r =
          create_key-Reopens sha3 scrypt as_bytes safe passphrase kc created updated salt
            (λ g k q. subst (λ y. IsHash y) (sym (h g k q)) (of_K g)) in
        let e = create_key sha3 scrypt as_bytes passphrase kc created updated salt in
        record {
          chain = r.chain;
          derives = try_derive_key-put passphrase name e r.chain list n r.opens;
          same = r.same;
        }

    pub record Added (old_passphrase new_passphrase : Bytes) (new_name : Text) (s t : Edited)
        : Type 0 where
      pub kc : KeyChain
      pub derives : try_derive_key sha3 scrypt as_bytes old_passphrase s.list ≡ some kc
      pub gives : Gives new_passphrase t.list kc.keys
      pub others :
          (name : Text) → text_eq new_name name ≡ false → lookup name t.list ≡ lookup name s.list

    tried-Added :
        (old_passphrase new_passphrase : Bytes) (new_name : Text) (m : Moment) (s t : Edited)
        → IsTried sha3 scrypt as_bytes K old_passphrase s.list
        → edit sha3 scrypt as_bytes (add_key old_passphrase new_passphrase new_name) m s ≡ ok t
        → Added old_passphrase new_passphrase new_name s t
    tried-Added old_passphrase new_passphrase new_name m s t r h =
        let a = edit-DoneAdd sha3 scrypt as_bytes old_passphrase new_passphrase new_name m s t h in
        let i =
          (try_derive_key-Found sha3 scrypt as_bytes safe K of_K old_passphrase s.list a.kc r
            a.derives).opens.holds in
        let e = create_key sha3 scrypt as_bytes new_passphrase a.kc m.now none (m.random 0) in
        subst (λ t. Added old_passphrase new_passphrase new_name s t) a.is
          (record {
            kc = a.kc;
            derives = a.derives;
            gives =
                create_key-Gives new_passphrase new_name a.kc m.now none (m.random 0) s.list i
                  a.absent;
            others = λ name n. ground (arith, lookup-put name new_name e s.list, n);
          })

    pub record Changed (new_passphrase : Bytes) (name : Option Text) (s t : Edited) : Type 0 where
      pub real : Text
      pub entry : KdfEntry
      pub keys : Map HashId
      pub named : real_name name s.list ≡ ok real
      pub found : lookup real s.list ≡ some entry
      pub holds : ChainHolds K keys
      pub groups : (g : Text) → contains_key g keys ≡ contains_key g entry.groups
      pub gives : Gives new_passphrase t.list keys
      pub others :
          (name : Text) → text_eq real name ≡ false → lookup name t.list ≡ lookup name s.list

    tried-Changed :
        (old_passphrase new_passphrase : Bytes) (name : Option Text) (allow : Bool) (m : Moment)
        (s t : Edited)
        → IsTried sha3 scrypt as_bytes K old_passphrase s.list
        → edit sha3 scrypt as_bytes (change_key old_passphrase new_passphrase name allow) m s ≡ ok t
        → Changed new_passphrase name s t
    unfolding lookup
    tried-Changed old_passphrase new_passphrase name allow m s t r h =
        let a =
          edit-DoneChange sha3 scrypt as_bytes old_passphrase new_passphrase name allow m s t h in
        let rest = erase a.real s.list in
        let i =
          change_chain-ChainHolds sha3 scrypt as_bytes safe K of_K old_passphrase a.entry rest allow
            a.kc
            (lookup-AllIn (λ _ e. Tried sha3 scrypt as_bytes K old_passphrase e) a.real a.entry
              s.list r a.found)
            (erase-AllIn (λ _ e. Tried sha3 scrypt as_bytes K old_passphrase e) a.real s.list r)
            a.chain in
        let kc = record empty_chain { keys = a.keys } in
        let e =
          create_key sha3 scrypt as_bytes new_passphrase kc a.entry.created (some m.now)
            (m.random 0) in
        let hold =
          copy_keys-ChainHolds K a.kc (key_names a.entry.groups) [] a.keys i (λ g x q. cc)
            a.copied in
        subst (λ t. Changed new_passphrase name s t) a.is
          (record {
            real = a.real;
            entry = a.entry;
            keys = a.keys;
            named = a.named;
            found = a.found;
            holds = hold;
            groups = λ g.
                contains_key-copy_keys g a.kc (key_names a.entry.groups) [] a.keys a.copied
                ∙ sym (key_names-listed g a.entry.groups);
            gives =
                create_key-Gives new_passphrase a.real kc a.entry.created (some m.now) (m.random 0)
                  rest hold a.absent;
            others =
                λ n q. ground (arith, lookup-put n a.real e rest, lookup-erase n a.real s.list, q);
          })

    -- A passphrase that was added gives the internal keys of the passphrase that it was added with, and
    -- no other entry has changed; unless that passphrase derives from an entry's salt another key than
    -- the entry's secret, with the same hash. The entries of the list give one key for each group; these
    -- keys, and what is hashed and derived, are of 32 bytes.
    pub add_key-Added :
        (old_passphrase new_passphrase : Bytes) (new_name : Text) (m : Moment) (s t : Edited)
        → (ring : IsRing sha3 scrypt as_bytes K s.list)
        → edit sha3 scrypt as_bytes (add_key old_passphrase new_passphrase new_name) m s ≡ ok t
        → Added old_passphrase new_passphrase new_name s t
          ⊎ Collides sha3 scrypt as_bytes K old_passphrase s.list ring
    add_key-Added old_passphrase new_passphrase new_name m s t ring h =
        elim (IsTried-or_Collides sha3 scrypt as_bytes K old_passphrase s.list ring) [
          | inl tries ↦ inl (tried-Added old_passphrase new_passphrase new_name m s t tries h)
          | inr c ↦ inr c
        ]

    -- A passphrase that was changed gives what the entry gave before: for just its groups, the internal
    -- keys of the list; and no other entry has changed; unless the old passphrase derives from an entry's
    -- salt another key than the entry's secret, with the same hash. The entries of the list give one key
    -- for each group; these keys, and what is hashed and derived, are of 32 bytes.
    pub change_key-Changed :
        (old_passphrase new_passphrase : Bytes) (name : Option Text) (allow : Bool) (m : Moment)
        (s t : Edited)
        → (ring : IsRing sha3 scrypt as_bytes K s.list)
        → edit sha3 scrypt as_bytes (change_key old_passphrase new_passphrase name allow) m s ≡ ok t
        → Changed new_passphrase name s t
          ⊎ Collides sha3 scrypt as_bytes K old_passphrase s.list ring
    change_key-Changed old_passphrase new_passphrase name allow m s t ring h =
        elim (IsTried-or_Collides sha3 scrypt as_bytes K old_passphrase s.list ring) [
          | inl tries ↦ inl (tried-Changed old_passphrase new_passphrase name allow m s t tries h)
          | inr c ↦ inr c
        ]
