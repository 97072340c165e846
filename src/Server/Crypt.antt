-- ===== src/Server/Crypt.antt =====
-- src/server/crypt.rs: how passphrases give access to the internal keys of groups. SHA3-256, scrypt
-- (with r = 8 and p = 1) and the bytes of a name are parameters; a salt is an argument where the
-- source draws it. `unknown` fields of the serialised form are left out.
pub mod Xor
pub mod Rings
use ensync.Base.{
  ℕ, ◌≡◌, ◌+◌, Option, none, some, Bool, List, [], ◌∷◌, ◌++◌, length, if◌then◌else◌, ltb, replicate,
  drop,
}
use ensync.Base.Text.{Text, text, Bytes, text_eq}
use ensync.Base.Map.{Map, lookup}
use ensync.FileData.{HashId}
use ensync.DirHash.{xor_bytes}
use ensync.Server.Ordered.{put}

abbrev pub algorithm_name : Text
algorithm_name = text "scrypt-18/14/12-8-1"

abbrev pub group_everyone : Text
group_everyone = text "everyone"

abbrev pub group_root : Text
group_root = text "root"

-- `UNKNOWN_HASH`
abbrev pub unknown_hash : HashId
unknown_hash = replicate 32 0

pub record KdfEntry : Type 0 where
  pub created : ℕ
  pub updated : Option ℕ
  pub algorithm : Text
  pub salt : HashId
  pub hash : HashId
  pub groups : Map HashId

-- `KdfList`, its `keys`.
abbrev pub KdfList : Type 0
KdfList = Map KdfEntry

-- `KeyChain`; an `InternalKey` is its bytes.
pub record KeyChain : Type 0 where
  pub keys : Map HashId
  pub derived : HashId

-- `KeyChain::empty`
abbrev pub empty_chain : KeyChain
empty_chain = record { keys = []; derived = unknown_hash }

-- `KeyChain::generate_new`, with the two keys that it draws.
unfoldable pub generate_new : HashId → HashId → KeyChain
unfolding put
generate_new root everyone = record {
  keys = put group_everyone everyone (put group_root root []);
  derived = unknown_hash;
}

-- `self.key(name)`, with `none` for its error.
unfoldable pub chain_key : Text → KeyChain → Option HashId
chain_key name self = lookup name self.keys

-- `hixor`, of hashes.
abbrev pub hixor : HashId → HashId → HashId
hixor = xor_bytes

module _ (sha3 : Bytes → HashId) (scrypt : ℕ → Bytes → HashId → HashId)
    (as_bytes : Text → Bytes) where
  -- `n` for the length of the passphrase.
  abbrev scrypt_n : Bytes → ℕ
  scrypt_n passphrase =
      if ltb (length passphrase) 64 then 18 else if ltb (length passphrase) 256 then 14 else 12

  unfoldable pub scrypt_18_14_12_8_1 : Bytes → HashId → HashId
  scrypt_18_14_12_8_1 passphrase salt = scrypt (scrypt_n passphrase) passphrase salt

  unfoldable pub hmac : Bytes → HashId → HashId
  hmac bytes secret = sha3 (bytes ++ secret)

  -- `secret_dir_ver(v, key)`; of a key, the bytes from 16 on are its secret.
  unfoldable pub secret_dir_ver : HashId → HashId → HashId
  unfolding hmac
  secret_dir_ver v key = hmac v (drop 16 key)

  -- Each key, combined with the hash of its name: the keys of a chain as the groups of an entry, and
  -- the groups of an entry as the keys of a chain.
  unfoldable pub masked : HashId → Map HashId → Map HashId
  unfolding hmac
  masked derived [] = []
  masked derived ((name, key) ∷ keys) =
      (name, hixor (hmac (as_bytes name) derived) key) ∷ masked derived keys

  -- `reassoc_keys(entry, chain)`
  unfoldable pub reassoc_keys : KdfEntry → KeyChain → KdfEntry
  unfolding masked
  reassoc_keys entry chain = record entry { groups = masked chain.derived chain.keys }

  -- `create_key(passphrase, chain, created, updated)`, with the salt that it draws.
  unfoldable pub create_key : Bytes → KeyChain → ℕ → Option ℕ → HashId → KdfEntry
  unfolding reassoc_keys scrypt_18_14_12_8_1
  create_key passphrase chain created updated salt =
      let derived = scrypt_18_14_12_8_1 passphrase salt in
      reassoc_keys
        (record {
          created = created;
          updated = updated;
          algorithm = algorithm_name;
          salt = salt;
          hash = sha3 derived;
          groups = [];
        })
        (record chain { derived = derived })

  unfoldable pub opened : KdfEntry → HashId → Option KeyChain
  unfolding masked text_eq
  opened entry derived =
      if text_eq (sha3 derived) entry.hash
      then some (record { keys = masked derived entry.groups; derived = derived })
      else none

  -- `try_derive_key_single(passphrase, entry)`
  unfoldable pub try_derive_key_single : Bytes → KdfEntry → Option KeyChain
  unfolding opened scrypt_18_14_12_8_1
  try_derive_key_single passphrase entry =
      if text_eq entry.algorithm algorithm_name
      then opened entry (scrypt_18_14_12_8_1 passphrase entry.salt)
      else none

  -- `try_derive_key(passphrase, keys)`
  unfoldable pub try_derive_key : Bytes → KdfList → Option KeyChain
  unfolding try_derive_key_single
  try_derive_key passphrase [] = none
  try_derive_key passphrase ((name, entry) ∷ keys) =
      let rest = try_derive_key passphrase keys in
      elim (try_derive_key_single passphrase entry) [ some chain ↦ some chain | none ↦ rest ]
