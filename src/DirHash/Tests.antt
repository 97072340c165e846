-- ===== src/DirHash/Tests.antt =====
-- Tests for src/posix/dir.rs. A hash that repeats the length stands for SHA3-256.
use ensync.Base.{◌%◌, ◌≡◌, ◌≢◌, refl, none, length, replicate}
use ensync.Base.Text.{Text, text, Bytes}
use ensync.FileData.{HashId, File, directory, symlink}
use ensync.DirHash.{
  new_content, xor_bits, xor_bytes, toggle_file, file_hash, data_bytes, mode_bytes,
}

abbrev length_hash : Bytes → HashId
length_hash b = replicate 32 (length b % 256)

abbrev as_bytes : Text → Bytes
as_bytes t = t

abbrev a_dir : File
a_dir = record { name = text "foo"; fd = directory 493 }

abbrev a_link : File
a_link = record { name = text "bar"; fd = symlink (text "plugh") }

xor_some : xor_bits 8 202 85 ≡ 159
unfolding xor_bits
xor_some = refl

-- A directory toggled in and out leaves the hash as it was.
there_and_back :
    toggle_file length_hash as_bytes a_dir
      (toggle_file length_hash as_bytes a_dir (new_content none))
    ≡ new_content none
unfolding toggle_file file_hash data_bytes mode_bytes xor_bytes xor_bits
there_and_back = refl

link_counts :
    (toggle_file length_hash as_bytes a_link (new_content none)).hash ≢ (new_content none).hash
unfolding toggle_file file_hash data_bytes mode_bytes xor_bytes xor_bits
link_counts h = cc
