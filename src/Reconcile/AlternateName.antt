-- ===== src/Reconcile/AlternateName.antt =====
-- src/reconcile/compute.rs: `gen_alternate_name`. Names are valid UTF-8, so the lossy conversions
-- are the identity, and they are single components other than "..", as directory listings give.
pub mod Laws
pub mod Family
mod Tests
use ensync.Base.{
  ℕ, zero, suc, ◌+◌, ◌-◌, ◌^◌, Bool, true, false, Option, none, some, List, [], ◌∷◌, ◌++◌,
}
use ensync.Base.{◌==◌, if◌then◌else◌}
use ensync.Base.Text.{Text}
use ensync.Base.Decimal.{decimal}

-- What stands before and after the last occurrence of `c`.
pub rsplit : ℕ → Text → Option (Text × Text)
rsplit c [] = none
rsplit c (x ∷ xs) = elim (rsplit c xs) [
  | some (before, after) ↦ some (x ∷ before, after)
  | none ↦ if x == c then some ([], xs) else none
]

-- `Path::file_stem`, and `Path::extension` with its dot: a leading dot starts no extension.
pub stem_of : Text → Option (Text × Text) → Text
stem_of name none = name
stem_of name (some ([], after)) = name
stem_of name (some (c ∷ before, after)) = c ∷ before

pub ext_of : Option (Text × Text) → Text
ext_of none = []
ext_of (some ([], after)) = []
ext_of (some (c ∷ before, after)) = b'.' ∷ after

pub file_stem : Text → Text
file_stem name = stem_of name (rsplit b'.' name)

pub extension : Text → Text
extension name = ext_of (rsplit b'.' name)

-- The stem, up to and with its last tilde, or with a tilde appended.
pub tilde_base : Text → Option (Text × Text) → Text
tilde_base stem none = stem ++ b'~' ∷ []
tilde_base stem (some (before, after)) = before ++ b'~' ∷ []

pub base_of : Text → Text
base_of orig = tilde_base (file_stem orig) (rsplit b'~' (file_stem orig))

-- `format!("{}{}{}", &base, n, &extension)`
pub candidate : Text → ℕ → Text
candidate orig n = base_of orig ++ (decimal n ++ extension orig)

-- `for n in 1u64..`, with the rounds that are left.
pub first_unused : (ℕ → Text) → (Text → Bool) → ℕ → ℕ → Option Text
first_unused name in_use zero n = none
first_unused name in_use (suc rounds) n =
    let rest = first_unused name in_use rounds (n + 1) in
    if in_use (name n) then rest else some (name n)

-- `none` is the panic after the last `u64`.
pub gen_alternate_name : Text → (Text → Bool) → Option Text
gen_alternate_name orig in_use = first_unused (candidate orig) in_use (2 ^ 64 - 1) 1
