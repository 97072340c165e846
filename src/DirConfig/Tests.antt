-- ===== src/DirConfig/Tests.antt =====
-- Tests and witnesses for src/server/dir_config.rs, for a name with the block "r=a,w=b,r=c". The
-- captures of the regular expressions are those of that name.
use ensync.Base.{◌≡◌, refl, Bool, true, List, [], ◌∷◌}
use ensync.Base.Text.{Text, text, text_eq}
use ensync.DirConfig.{dir_config_default, ok, bad_server_dir_config_key, sub_pairs, sub_blocks, sub}
use ensync.DirConfig.Inherit.{applied, all_pairs, Understood, sub-applied, sub-Understood}

abbrev block : Text
block = text "r=a,w=b,r=c"

abbrev name_captures : Text → List Text
name_captures name = block ∷ []

abbrev valid_config : Text → Bool
valid_config configs = true

abbrev pair_captures : Text → List (Text × Text)
pair_captures configs = (text "r", text "a") ∷ (text "w", text "b") ∷ (text "r", text "c") ∷ []

sub_both :
    sub name_captures valid_config pair_captures dir_config_default (text "x")
    ≡ ok (record { read_group = text "c"; write_group = text "b" })
unfolding sub sub_blocks sub_pairs text_eq
sub_both = refl

sub_unknown :
    sub name_captures valid_config
      (λ c. (text "thing", text "foo") ∷ [])
      dir_config_default
      (text "x")
    ≡ bad_server_dir_config_key block (text "thing")
unfolding sub sub_blocks sub_pairs text_eq
sub_unknown = refl

block-Understood : Understood name_captures valid_config pair_captures (block ∷ [])
unfolding text_eq
block-Understood = ((refl, (refl, (refl, (refl, tt)))), tt)

sub-applied_example :
    sub name_captures valid_config pair_captures dir_config_default (text "x")
    ≡ ok (applied (all_pairs pair_captures (block ∷ [])) dir_config_default)
sub-applied_example =
    sub-applied name_captures valid_config pair_captures dir_config_default (text "x")
      block-Understood

sub-Understood_example : Understood name_captures valid_config pair_captures (block ∷ [])
sub-Understood_example =
    sub-Understood name_captures valid_config pair_captures dir_config_default (text "x") _ sub_both
