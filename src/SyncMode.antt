-- ===== src/SyncMode.antt =====
-- src/rules/defs.rs: sync modes, with their parser and their printed form.
pub mod RoundTrip
mod Tests
use ensync.Base.{ℕ, Bool, true, false, List, [], ◌∷◌, ◌++◌, ◌||◌, ◌==◌, leb, length, not}
use ensync.Base.{if◌then◌else◌}
use ensync.Base.Text.{Text, text, text_eq}

pub data SyncModeSetting : Type 0 where
  off on force : SyncModeSetting

-- The derived `PartialOrd`: the position among the constructors.
unfoldable pub rank : SyncModeSetting → ℕ
rank off = 0
rank on = 1
rank force = 2

-- `self.on()`
unfoldable pub is_on : SyncModeSetting → Bool
unfolding rank
is_on self = leb (rank on) (rank self)

-- `self.force()`
unfoldable pub is_force : SyncModeSetting → Bool
unfolding rank
is_force self = leb (rank force) (rank self)

unfoldable pub ch : SyncModeSetting → ℕ → ℕ → ℕ
ch off when_on when_force = b'-'
ch on when_on when_force = when_on
ch force when_on when_force = when_force

pub record HalfSyncMode : Type 0 where
  pub create : SyncModeSetting
  pub update : SyncModeSetting
  pub delete : SyncModeSetting

-- `to_string` of a `HalfSyncMode`.
unfoldable pub half_to_text : HalfSyncMode → Text
unfolding ch
half_to_text self =
    ch self.create b'c' b'C' ∷ ch self.update b'u' b'U' ∷ ch self.delete b'd' b'D' ∷ []

pub record SyncMode : Type 0 where
  pub inbound : HalfSyncMode
  pub outbound : HalfSyncMode

-- `to_string` of a `SyncMode`.
unfoldable pub to_text : SyncMode → Text
unfolding half_to_text
to_text self = half_to_text self.inbound ++ (b'/' ∷ half_to_text self.outbound)

-- The `message` of a `SyncModeParseError`.
pub data SyncModeParseError : Type 0 where
  must_be_7_characters must_have_slash illegal_character : SyncModeParseError

pub data Parsed (A : Type 0) : Type 0 where
  ok : A → Parsed A
  err : SyncModeParseError → Parsed A

infixl 5 ◌>>=◌
abbrev pub ◌>>=◌ : {A B : Type 0} → Parsed A → (A → Parsed B) → Parsed B
ok a >>= f = f a
err e >>= f = err e

-- `Default` of a `HalfSyncMode`, and the same setting throughout.
abbrev pub all_of : SyncModeSetting → HalfSyncMode
all_of s = record { create = s; update = s; delete = s }

conv : ℕ → ℕ → ℕ → Parsed SyncModeSetting
conv when_on when_force actual =
    if b'-' == actual
    then ok off
    else if when_on == actual
    then ok on
    else if when_force == actual
    then ok force
    else err illegal_character

conv_half : ℕ → ℕ → ℕ → Parsed HalfSyncMode
conv_half c u d = do
  create ← conv b'c' b'C' c
  update ← conv b'u' b'U' u
  delete ← conv b'd' b'D' d
  ok (record { create = create; update = update; delete = delete })

-- After the aliases: the patterns are the test on `chars.len()`.
parse_chars : Text → Parsed SyncMode
parse_chars (c0 ∷ c1 ∷ c2 ∷ c3 ∷ c4 ∷ c5 ∷ c6 ∷ []) =
    if not (b'/' == c3) then err must_have_slash else do
      inbound ← conv_half c0 c1 c2
      outbound ← conv_half c4 c5 c6
      ok (record { inbound = inbound; outbound = outbound })
parse_chars _ = err must_be_7_characters

-- `SyncMode::from_str`
unfoldable pub from_str : Text → Parsed SyncMode
unfolding parse_chars conv_half conv text_eq
from_str s =
    if text_eq s (text "mirror") || text_eq s (text "reset-server")
    then ok (record { inbound = all_of off; outbound = all_of force })
    else if text_eq s (text "reset-client")
    then ok (record { inbound = all_of force; outbound = all_of off })
    else if text_eq s (text "conservative-sync") || text_eq s (text "sync")
    then ok (record { inbound = all_of on; outbound = all_of on })
    else if text_eq s (text "aggressive-sync")
    then ok (record { inbound = all_of force; outbound = all_of force })
    else parse_chars s
