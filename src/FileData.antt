-- ===== src/FileData.antt =====
-- src/defs.rs: the shallow data about a file, and the ways to compare it.
pub mod Compare
use ensync.Base.{ℕ, Bool, true, false, ◌&&◌, Option, none, some, ◌==◌}
use ensync.Base.Text.{Text, Bytes, text_eq}
use ensync.Base.Int.{ℤ, ltb_ℤ, eqb_ℤ}

-- `HashId`: 32 bytes.
abbrev pub HashId : Type 0
HashId = Bytes

abbrev pub FileMode : Type 0
FileMode = ℕ

abbrev pub FileSize : Type 0
FileSize = ℕ

-- `i64`
abbrev pub FileTime : Type 0
FileTime = ℤ

pub data FileData : Type 0 where
  directory : FileMode → FileData
  regular : FileMode → FileSize → FileTime → HashId → FileData
  symlink : Text → FileData
  special : FileData

-- `File<'a>(name, data)`
pub record File : Type 0 where
  pub name : Text
  pub fd : FileData

-- `self.transrich_unix_mode(other)`, with the new `self` returned.
unfoldable pub transrich_unix_mode : FileData → FileData → FileData
transrich_unix_mode (directory dst) (directory src) = directory src
transrich_unix_mode (directory dst) (regular src _ _ _) = directory src
transrich_unix_mode (regular dst n t h) (directory src) = regular src n t h
transrich_unix_mode (regular dst n t h) (regular src _ _ _) = regular src n t h
transrich_unix_mode self _ = self

-- `FileData::is_dir`
unfoldable pub is_dir_data : FileData → Bool
is_dir_data (directory _) = true
is_dir_data _ = false

-- The free function `is_dir`.
unfoldable pub is_dir : Option FileData → Bool
is_dir (some (directory _)) = true
is_dir _ = false

unfoldable pub newer_than : FileData → FileData → Bool
newer_than (regular _ _ tself _) (regular _ _ tother _) = ltb_ℤ tother tself
newer_than _ _ = false

unfoldable pub matches : FileData → FileData → Bool
matches (directory m1) (directory m2) = m1 == m2
matches (regular m1 _ t1 h1) (regular m2 _ t2 h2) = m1 == m2 && (eqb_ℤ t1 t2 && text_eq h1 h2)
matches (symlink t1) (symlink t2) = text_eq t1 t2
matches special special = true
matches _ _ = false

unfoldable pub matches_data : FileData → FileData → Bool
matches_data (directory m1) (directory m2) = m1 == m2
matches_data (regular m1 _ _ h1) (regular m2 _ _ h2) = m1 == m2 && text_eq h1 h2
matches_data (symlink t1) (symlink t2) = text_eq t1 t2
matches_data special special = true
matches_data _ _ = false

unfoldable pub matches_content : FileData → FileData → Bool
matches_content (directory _) (directory _) = true
matches_content (regular _ _ _ h1) (regular _ _ _ h2) = text_eq h1 h2
matches_content (symlink t1) (symlink t2) = text_eq t1 t2
matches_content special special = true
matches_content _ _ = false

-- The derived `==` of `FileData`.
unfoldable pub fd_eq : FileData → FileData → Bool
fd_eq (directory m1) (directory m2) = m1 == m2
fd_eq (regular m1 s1 t1 h1) (regular m2 s2 t2 h2) =
    m1 == m2 && (s1 == s2 && (eqb_ℤ t1 t2 && text_eq h1 h2))
fd_eq (symlink t1) (symlink t2) = text_eq t1 t2
fd_eq special special = true
fd_eq _ _ = false

-- `==` of `Option<&FileData>`.
unfoldable pub file_eq : Option FileData → Option FileData → Bool
unfolding fd_eq
file_eq none none = true
file_eq (some a) (some b) = fd_eq a b
file_eq _ _ = false
