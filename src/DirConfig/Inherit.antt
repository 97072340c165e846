-- ===== src/DirConfig/Inherit.antt =====
-- src/server/dir_config.rs: what a subdirectory inherits, and what its name sets.
use ensync.Base.{
  ◌≡◌, refl, sym, ap, ◌∙◌, Bool, true, false, ◌||◌, List, [], ◌∷◌, ◌++◌, if◌then◌else◌, arith, All,
  Bool-cases, inl, inr,
}
use ensync.Base.Text.{Text, text, text_eq, eq_of_text_eq}
use ensync.DirConfig.{DirConfig, Sub, ok, bad_server_dir_config_key, sub_pairs, sub_blocks, sub}

-- The keys that set either group.
abbrev pub reads : Text → Bool
reads key = text_eq key (text "r") || (text_eq key (text "rw") || text_eq key (text "wr"))

abbrev pub writes : Text → Bool
writes key = text_eq key (text "w") || (text_eq key (text "rw") || text_eq key (text "wr"))

-- The value of the last of the pairs whose key is meant, or the given one.
unfoldable pub last_value : (Text → Bool) → List (Text × Text) → Text → Text
last_value meant [] group = group
last_value meant ((key, value) ∷ pairs) group =
    last_value meant pairs (if meant key then value else group)

-- All pairs of the blocks, in order.
unfoldable pub all_pairs : (Text → List (Text × Text)) → List Text → List (Text × Text)
all_pairs pair_captures [] = []
all_pairs pair_captures (configs ∷ blocks) = pair_captures configs ++ all_pairs pair_captures blocks

unfoldable pub applied : List (Text × Text) → DirConfig → DirConfig
unfolding last_value
applied pairs self = record {
  read_group = last_value reads pairs self.read_group;
  write_group = last_value writes pairs self.write_group;
}

-- A key that sets a group.
abbrev pub is_known : Text × Text → Bool
is_known (key, value) = reads key || writes key

-- The groups after one pair.
abbrev pub one_pair : Text → Text → DirConfig → DirConfig
one_pair key value self = record {
  read_group = if reads key then value else self.read_group;
  write_group = if writes key then value else self.write_group;
}

module _ (next : DirConfig → Sub) (configs : Text) (pairs : List (Text × Text)) (key value : Text)
    (self : DirConfig) where
  -- One pair either fails, on an unknown key, or sets the groups that its key names.
  sub_pairs-step : sub_pairs next configs ((key, value) ∷ pairs) self ≡ (
      if is_known (key, value)
      then sub_pairs next configs pairs (one_pair key value self)
      else bad_server_dir_config_key configs key)
  unfolding sub_pairs text_eq
  sub_pairs-step = elim (Bool-cases (text_eq key (text "r"))) [
    | inl r ↦ rw (r, not_w r, not_rw r, not_wr r) refl
    | inr r ↦ elim (Bool-cases (text_eq key (text "w"))) [
      | inl w ↦ rw (r, w, w_not_rw w, w_not_wr w) refl
      | inr w ↦ elim (Bool-cases (text_eq key (text "rw"))) [
        | inl rw' ↦ rw (r, w, rw') refl
        | inr rw' ↦ elim (Bool-cases (text_eq key (text "wr"))) [
          | inl wr ↦ rw (r, w, rw', wr) refl
          | inr wr ↦ rw (r, w, rw', wr) refl
        ]
      ]
    ]
  ]
    where
      not_w : text_eq key (text "r") ≡ true → text_eq key (text "w") ≡ false
      not_w r = ap (λ k. text_eq k (text "w")) (eq_of_text_eq key _ r)

      not_rw : text_eq key (text "r") ≡ true → text_eq key (text "rw") ≡ false
      not_rw r = ap (λ k. text_eq k (text "rw")) (eq_of_text_eq key _ r)

      not_wr : text_eq key (text "r") ≡ true → text_eq key (text "wr") ≡ false
      not_wr r = ap (λ k. text_eq k (text "wr")) (eq_of_text_eq key _ r)

      w_not_rw : text_eq key (text "w") ≡ true → text_eq key (text "rw") ≡ false
      w_not_rw w = ap (λ k. text_eq k (text "rw")) (eq_of_text_eq key _ w)

      w_not_wr : text_eq key (text "w") ≡ true → text_eq key (text "wr") ≡ false
      w_not_wr w = ap (λ k. text_eq k (text "wr")) (eq_of_text_eq key _ w)

module _ (name_captures : Text → List Text) (valid_config : Text → Bool)
    (pair_captures : Text → List (Text × Text)) where
  -- Every block is valid, and all of its keys are known.
  abbrev pub Understood : List Text → Type 0
  Understood blocks =
      All
        (λ configs.
          (valid_config configs ≡ true) × All (λ p. is_known p ≡ true) (pair_captures configs))
        blocks

  -- What is left of the name, after the pairs.
  Yields : (DirConfig → Sub) → List (Text × Text) → Type 0
  Yields next more = (self : DirConfig) → next self ≡ ok (applied more self)

  sub_pairs-Yields :
      (next : DirConfig → Sub) (configs : Text) (more : List (Text × Text))
      → Yields next more
      → (pairs : List (Text × Text)) → All (λ p. is_known p ≡ true) pairs
      → Yields (sub_pairs next configs pairs) (pairs ++ more)
  unfolding sub_pairs Yields applied last_value
  sub_pairs-Yields next configs more k [] h self = k self
  sub_pairs-Yields next configs more k ((key, value) ∷ pairs) h self =
      sub_pairs-step next configs pairs key value self
      ∙ rw h.0 (sub_pairs-Yields next configs more k pairs h.1 (one_pair key value self))

  sub_blocks-Yields :
      (blocks : List Text)
      → Understood blocks
      → Yields
          (sub_blocks name_captures valid_config pair_captures blocks)
          (all_pairs pair_captures blocks)
  unfolding sub_blocks Yields applied last_value all_pairs
  sub_blocks-Yields [] h self = refl
  sub_blocks-Yields (configs ∷ blocks) h self = rw h.0.0 (
      sub_pairs-Yields _ configs (all_pairs pair_captures blocks) (sub_blocks-Yields blocks h.1)
        (pair_captures configs) h.0.1 self)

  -- For every directory name whose configuration blocks are valid and have known keys only, the
  -- configuration is that of the parent, except that each group is the value of the last pair of the
  -- name that sets it, over all blocks in order.
  pub sub-applied :
      (self : DirConfig) (name : Text)
      → Understood (name_captures name)
      → sub name_captures valid_config pair_captures self name
        ≡ ok (applied (all_pairs pair_captures (name_captures name)) self)
  unfolding sub Yields
  sub-applied self name h = sub_blocks-Yields (name_captures name) h self

  sub_pairs-known :
      (next : DirConfig → Sub) (configs : Text) (new : DirConfig) (pairs : List (Text × Text))
      (self : DirConfig)
      → sub_pairs next configs pairs self ≡ ok new
      → All (λ p. is_known p ≡ true) pairs × (self' : DirConfig) × (next self' ≡ ok new)
  unfolding sub_pairs
  sub_pairs-known next configs new [] self e = (tt, self, e)
  sub_pairs-known next configs new ((key, value) ∷ pairs) self e =
      let q = sym (sub_pairs-step next configs pairs key value self) ∙ e in
      elim (Bool-cases (is_known (key, value))) [
        | inl k ↦
            let (h, self', e') =
              sub_pairs-known next configs new pairs (one_pair key value self)
                (ground (arith, k, q)) in
            ((k, h), self', e')
        | inr k ↦ absurd (ground (arith, k, q))
      ]

  sub_blocks-Understood :
      (new : DirConfig) (blocks : List Text) (self : DirConfig)
      → sub_blocks name_captures valid_config pair_captures blocks self ≡ ok new
      → Understood blocks
  unfolding sub_blocks
  sub_blocks-Understood new [] self e = tt
  sub_blocks-Understood new (configs ∷ blocks) self e = elim (Bool-cases (valid_config configs)) [
    | inl v ↦
        let (known, self', e') =
          sub_pairs-known (sub_blocks name_captures valid_config pair_captures blocks) configs new
            (pair_captures configs) self (ground (arith, v, e)) in
        ((v, known), sub_blocks-Understood new blocks self' e')
    | inr v ↦ absurd (ground (arith, v, e))
  ]

  -- A name is accepted only if all its configuration blocks are valid and have known keys only, so
  -- that no block that is not understood is passed over.
  pub sub-Understood :
      (self : DirConfig) (name : Text) (new : DirConfig)
      → sub name_captures valid_config pair_captures self name ≡ ok new
      → Understood (name_captures name)
  unfolding sub
  sub-Understood self name new e = sub_blocks-Understood new (name_captures name) self e
