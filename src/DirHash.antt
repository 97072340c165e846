-- ===== src/DirHash.antt =====
-- src/posix/dir.rs: the hash of a directory, which its files toggle. SHA3-256 and the bytes of a name
-- (`OsStr::as_bytes`) are parameters.
mod Tests
use ensync.Base.{
  ℕ, zero, suc, ◌+◌, ◌*◌, ◌/◌, ◌%◌, ◌^◌, Option, none, some, List, [], ◌∷◌, ◌++◌, replicate,
}
use ensync.Base.Text.{Text, Bytes}
use ensync.FileData.{FileMode, HashId, FileData, regular, directory, symlink, special, File}

pub record DirContentMut : Type 0 where
  pub synth_mode : Option FileMode
  pub hash : HashId

-- `INIT_HASH`
abbrev pub init_hash : HashId
init_hash = replicate 32 0

-- The content of `DirHandle::root` and `DirHandle::subdir`.
abbrev pub new_content : Option FileMode → DirContentMut
new_content synth = record { synth_mode = synth; hash = init_hash }

abbrev pub reset_hash : DirContentMut → DirContentMut
reset_hash locked = record locked { hash = init_hash }

-- `a ^ b`, on the lowest bits.
unfoldable pub xor_bits : ℕ → ℕ → ℕ → ℕ
xor_bits zero a b = 0
xor_bits (suc n) a b = (a % 2 + b % 2) % 2 + 2 * xor_bits n (a / 2) (b / 2)

-- `for i in 0..32`
unfoldable pub xor_bytes : Bytes → Bytes → Bytes
xor_bytes (a ∷ as') (b ∷ bs) = xor_bits 8 a b ∷ xor_bytes as' bs
xor_bytes _ _ = []

-- `mode as u32`, from the lowest byte on.
unfoldable pub mode_bytes : FileMode → Bytes
mode_bytes mode =
    let m = mode % 2 ^ 32 in
    m % 256 ∷ (m / 256) % 256 ∷ (m / 65536) % 256 ∷ (m / 16777216) % 256 ∷ []

module _ (sha3 : Bytes → HashId) (as_bytes : Text → Bytes) where
  -- What is hashed of the data of a file.
  unfoldable pub data_bytes : FileData → Bytes
  unfolding mode_bytes
  data_bytes (regular mode _ _ h) = 0 ∷ mode_bytes mode ++ h
  data_bytes (directory mode) = 1 ∷ mode_bytes mode
  data_bytes (symlink target) = 2 ∷ as_bytes target ++ 0 ∷ []
  data_bytes special = 3 ∷ []

  unfoldable pub file_hash : File → HashId
  unfolding data_bytes
  file_hash file = sha3 (as_bytes file.name ++ 0 ∷ data_bytes file.fd)

  -- `self.toggle_file(file)`
  unfoldable pub toggle_file : File → DirContentMut → DirContentMut
  unfolding file_hash
  toggle_file file locked = record locked { hash = xor_bytes locked.hash (file_hash file) }
