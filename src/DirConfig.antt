-- ===== src/DirConfig.antt =====
-- src/server/dir_config.rs: the key groups of a directory on the server, which the names of
-- directories may change. The three regular expressions are parameters: what the captures of
-- NAME_PATTERN and PAIR_PATTERN are, and what VALID_CONFIG_PATTERN accepts.
mod Tests
pub mod Inherit
use ensync.Base.{Bool, true, false, List, [], ◌∷◌, ◌||◌, if◌then◌else◌}
use ensync.Base.Text.{Text, text, text_eq}

pub record DirConfig : Type 0 where
  pub read_group : Text
  pub write_group : Text

-- `DirConfig::default()`
abbrev pub dir_config_default : DirConfig
dir_config_default = record { read_group = text "everyone"; write_group = text "root" }

pub data Sub : Type 0 where
  ok : DirConfig → Sub
  bad_server_dir_config : Text → Sub
  bad_server_dir_config_key : Text → Text → Sub

-- The `match key`, and `for captures in PAIR_PATTERN.captures_iter(configs)` around it, before the
-- rest of the name.
unfoldable pub sub_pairs : (DirConfig → Sub) → Text → List (Text × Text) → DirConfig → Sub
sub_pairs next configs [] new = next new
sub_pairs next configs ((key, value) ∷ pairs) new =
    let rest_r = sub_pairs next configs pairs (record new { read_group = value }) in
    let rest_w = sub_pairs next configs pairs (record new { write_group = value }) in
    let rest_rw =
      sub_pairs next configs pairs (record { read_group = value; write_group = value }) in
    if text_eq key (text "r")
    then rest_r
    else if text_eq key (text "w")
    then rest_w
    else if text_eq key (text "rw") || text_eq key (text "wr")
    then rest_rw
    else bad_server_dir_config_key configs key

module _ (name_captures : Text → List Text) (valid_config : Text → Bool)
    (pair_captures : Text → List (Text × Text)) where
  -- `for captures in NAME_PATTERN.captures_iter(name)`
  unfoldable pub sub_blocks : List Text → DirConfig → Sub
  sub_blocks [] new = ok new
  sub_blocks (configs ∷ blocks) new =
      let rest = sub_pairs (sub_blocks blocks) configs (pair_captures configs) new in
      if valid_config configs then rest else bad_server_dir_config configs

  -- `self.sub(name)`
  unfoldable pub sub : DirConfig → Text → Sub
  sub self name = sub_blocks (name_captures name) self
