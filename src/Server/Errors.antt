-- ===== src/Server/Errors.antt =====
-- src/errors.rs: the errors of the lists of keys.
use ensync.Base.{Option, none, some, Bool, true, false}
use ensync.Base.Text.{Text}

-- The kinds of `ErrorKind` that are met here; `other` is an error with a text only, or one of the
-- storage.
pub data KeyError : Type 0 where
  kdf_list_not_exists kdf_list_already_exists passphrase_not_in_kdf_list passphrase_in_kdf_list :
      KeyError
  empty_key_name empty_key_group_name would_remove_last_kdf_entry too_many_tx_retries : KeyError
  anon_change_key_but_multiple_kdf_entries change_key_with_passphrase_mismatch : KeyError
  key_name_already_in_use key_not_in_kdf_list key_not_in_group key_already_in_group :
      Text → KeyError
  group_name_already_in_use group_not_in_kdf_list cannot_disassoc_group cannot_destroy_group :
      Text → KeyError
  would_disassoc_last_key_from_group : Text → Text → KeyError
  other : Text → KeyError

pub data Answer (A : Type 0) : Type 0 where
  ok : A → Answer A
  err : KeyError → Answer A

infixl 5 ◌>>=◌
abbrev pub ◌>>=◌ : {A B : Type 0} → Answer A → (A → Answer B) → Answer B
ok a >>= f = f a
err e >>= f = err e

abbrev pub or_err : {A : Type 0} → Option A → KeyError → Answer A
or_err none e = err e
or_err (some a) e = ok a

abbrev pub refuse_if : Bool → KeyError → Answer Unit
refuse_if true e = err e
refuse_if false e = ok tt

abbrev pub refuse_found : Option Text → (Text → KeyError) → Answer Unit
refuse_found none e = ok tt
refuse_found (some name) e = err (e name)
