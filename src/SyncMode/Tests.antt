-- ===== src/SyncMode/Tests.antt =====
-- src/rules/defs.rs: runs of the parser, and the theorems at concrete inputs.
use ensync.Base.{◌≡◌, ◌↔◌, refl}
use ensync.Base.Text.{text}
use ensync.SyncMode.{
  SyncMode, off, on, force, to_text, from_str, ok, err, must_be_7_characters, must_have_slash,
  illegal_character,
}
use ensync.SyncMode.RoundTrip.{from_str_iff, Spells}

-- The mode "Cu-/c-D".
abbrev mixed : SyncMode
mixed = record {
  inbound = record { create = force; update = on; delete = off };
  outbound = record { create = on; update = off; delete = force };
}

to_text-mixed : to_text mixed ≡ text "Cu-/c-D"
unfolding to_text
to_text-mixed = refl

from_str-mixed : from_str (text "Cu-/c-D") ≡ ok mixed
unfolding from_str
from_str-mixed = refl

from_str_errors :
    (from_str (text "cud/cu") ≡ err must_be_7_characters)
    × (from_str (text "cud:cud") ≡ err must_have_slash)
    × (from_str (text "dud/cud") ≡ err illegal_character)
unfolding from_str
from_str_errors = (refl, refl, refl)

from_str_iff_example : (from_str (text "Cu-/c-D") ≡ ok mixed) ↔ Spells (text "Cu-/c-D") mixed
from_str_iff_example = from_str_iff (text "Cu-/c-D") mixed
