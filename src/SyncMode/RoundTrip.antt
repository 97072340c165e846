-- ===== src/SyncMode/RoundTrip.antt =====
-- src/rules/defs.rs: the parser of sync modes and their printed form.
use ensync.Base.{◌≡◌, refl, arith, ℕ, ◌↔◌, ◌∷◌, ◌++◌, [], length, inl, inr, sym}
use ensync.Base.{Bool-cases, ap, ◌∙◌}
use ensync.Base.Text.{Text, text, text_eq, text_eq_of_length, eq_of_text_eq}
use ensync.SyncMode.{SyncModeSetting, SyncMode, HalfSyncMode, ch, conv, conv_half, half_to_text}
use ensync.SyncMode.{all_of, to_text, from_str, parse_chars, ok, off, on, force}

conv_half-half_to_text :
    (m : HalfSyncMode)
    → conv_half (ch m.create b'c' b'C') (ch m.update b'u' b'U') (ch m.delete b'd' b'D') ≡ ok m
unfolding conv_half conv ch
conv_half-half_to_text m = ground arith

-- No alias has seven characters.
from_str-parse_chars : (s : Text) → length s ≡ 7 → from_str s ≡ parse_chars s
unfolding from_str
from_str-parse_chars s h = ground (
  arith,
  text_eq_of_length s (text "mirror") (omega arith),
  text_eq_of_length s (text "reset-server") (omega arith),
  text_eq_of_length s (text "reset-client") (omega arith),
  text_eq_of_length s (text "conservative-sync") (omega arith),
  text_eq_of_length s (text "sync") (omega arith),
  text_eq_of_length s (text "aggressive-sync") (omega arith),
)

to_text_halves :
    (m : SyncMode) → to_text m ≡ half_to_text m.inbound ++ (b'/' ∷ half_to_text m.outbound)
unfolding to_text
to_text_halves m = refl

-- Parsing the printed form of any mode yields that mode.
from_str-to_text : (m : SyncMode) → from_str (to_text m) ≡ ok m
unfolding to_text parse_chars half_to_text
from_str-to_text m = rw (
  from_str-parse_chars (to_text m) refl,
  conv_half-half_to_text m.inbound,
  conv_half-half_to_text m.outbound,
)

ch-conv : (a b c : ℕ) (s : SyncModeSetting) → conv a b c ≡ ok s → ch s a b ≡ c
unfolding conv ch
ch-conv a b c s h = ground arith

half_to_text-conv_half :
    (c u d : ℕ) (m : HalfSyncMode) → conv_half c u d ≡ ok m → half_to_text m ≡ c ∷ u ∷ d ∷ []
unfolding conv_half conv half_to_text
half_to_text-conv_half c u d m h = ground arith

to_text-parse_chars : (s : Text) (m : SyncMode) → parse_chars s ≡ ok m → to_text m ≡ s
unfolding parse_chars
to_text-parse_chars (c0 ∷ c1 ∷ c2 ∷ c3 ∷ c4 ∷ c5 ∷ c6 ∷ []) m h = ground (
  arith,
  to_text_halves m,
  half_to_text-conv_half c0 c1 c2 m.inbound,
  half_to_text-conv_half c4 c5 c6 m.outbound,
)
to_text-parse_chars _ m h = ground arith

-- The spellings of a mode that the documentation lists.
pub data Spells (s : Text) (m : SyncMode) : Type 0 where
  printed : s ≡ to_text m → Spells s m
  mirror :
      s ≡ text "mirror" → m ≡ record { inbound = all_of off; outbound = all_of force } → Spells s m
  reset_server :
      s ≡ text "reset-server"
      → m ≡ record { inbound = all_of off; outbound = all_of force }
      → Spells s m
  reset_client :
      s ≡ text "reset-client"
      → m ≡ record { inbound = all_of force; outbound = all_of off }
      → Spells s m
  conservative_sync :
      s ≡ text "conservative-sync"
      → m ≡ record { inbound = all_of on; outbound = all_of on }
      → Spells s m
  sync : s ≡ text "sync" → m ≡ record { inbound = all_of on; outbound = all_of on } → Spells s m
  aggressive_sync :
      s ≡ text "aggressive-sync"
      → m ≡ record { inbound = all_of force; outbound = all_of force }
      → Spells s m

Spells-from_str : (s : Text) (m : SyncMode) → from_str s ≡ ok m → Spells s m
unfolding from_str
Spells-from_str s m h = elim (Bool-cases (text_eq s (text "mirror"))) [
  | inl e ↦ mirror (eq_of_text_eq s _ e) (ground arith)
  | inr e1 ↦ elim (Bool-cases (text_eq s (text "reset-server"))) [
    | inl e ↦ reset_server (eq_of_text_eq s _ e) (ground arith)
    | inr e2 ↦ elim (Bool-cases (text_eq s (text "reset-client"))) [
      | inl e ↦ reset_client (eq_of_text_eq s _ e) (ground arith)
      | inr e3 ↦ elim (Bool-cases (text_eq s (text "conservative-sync"))) [
        | inl e ↦ conservative_sync (eq_of_text_eq s _ e) (ground arith)
        | inr e4 ↦ elim (Bool-cases (text_eq s (text "sync"))) [
          | inl e ↦ sync (eq_of_text_eq s _ e) (ground arith)
          | inr e5 ↦ elim (Bool-cases (text_eq s (text "aggressive-sync"))) [
            | inl e ↦ aggressive_sync (eq_of_text_eq s _ e) (ground arith)
            | inr e6 ↦ printed (sym (to_text-parse_chars s m (ground arith)))
          ]
        ]
      ]
    ]
  ]
]

from_str-Spells : (s : Text) (m : SyncMode) → Spells s m → from_str s ≡ ok m
unfolding from_str
from_str-Spells s m (printed e) = ap from_str e ∙ from_str-to_text m
from_str-Spells s m (mirror e f) = rw (e, f)
from_str-Spells s m (reset_server e f) = rw (e, f)
from_str-Spells s m (reset_client e f) = rw (e, f)
from_str-Spells s m (conservative_sync e f) = rw (e, f)
from_str-Spells s m (sync e f) = rw (e, f)
from_str-Spells s m (aggressive_sync e f) = rw (e, f)

-- The parser accepts a text as a mode exactly when the text is the mode's printed form or one of
-- the six aliases of that mode.
pub from_str_iff : (s : Text) (m : SyncMode) → (from_str s ≡ ok m) ↔ Spells s m
from_str_iff s m = (Spells-from_str s m, from_str-Spells s m)
