-- ===== src/Server/Ordered.antt =====
-- Maps with texts as keys that are read in the order of their keys (`BTreeMap`).
use ensync.Base.{
  ◌==◌, ◌≡◌, refl, Bool, true, false, ◌&&◌, ◌||◌, Option, none, some, [], ◌∷◌, if◌then◌else◌, arith,
  ltb, Bool-cases, inl, inr,
}
use mathlib.Core.Path.{subst}
use ensync.Base.Text.{Text, text_eq, text_eq_iff}
use ensync.Base.Map.{Map, lookup, erase, lookup-erase}

-- The order of `String`.
unfoldable pub text_lt : Text → Text → Bool
text_lt [] [] = false
text_lt [] (b ∷ bs) = true
text_lt (a ∷ as') [] = false
text_lt (a ∷ as') (b ∷ bs) = ltb a b || (a == b && text_lt as' bs)

module _ {V : Type 0} where
  -- `map.insert(k, v)`
  unfoldable pub put : Text → V → Map V → Map V
  unfolding text_lt
  put k v [] = (k, v) ∷ []
  put k v ((j, w) ∷ m) =
      let rest = put k v m in
      if text_eq j k then (k, v) ∷ m else if text_lt k j then (k, v) ∷ (j, w) ∷ m else (j, w) ∷ rest

  pub lookup-put :
      (j k : Text) (v : V) (m : Map V)
      → lookup j (put k v m) ≡ (if text_eq k j then some v else lookup j m)
  unfolding lookup put
  lookup-put j k v [] = refl
  lookup-put j k v ((i, w) ∷ m) =
      ground (arith, text_eq_iff k j, text_eq_iff i k, text_eq_iff i j, lookup-put j k v m)

  -- What holds of all entries.
  abbrev pub AllIn : (Text → V → Type 0) → Map V → Type 0
  AllIn P [] = Unit
  AllIn P ((k, v) ∷ m) = P k v × AllIn P m

  pub lookup-AllIn :
      (P : Text → V → Type 0) (k : Text) (v : V) (m : Map V)
      → AllIn P m
      → lookup k m ≡ some v
      → P k v
  unfolding lookup
  lookup-AllIn P k v [] h e = cc
  lookup-AllIn P k v ((j, w) ∷ m) h e = elim (Bool-cases (text_eq j k)) [
    | inl q ↦
        let a : w ≡ v = ground arith in
        subst (λ x. P k x) a (subst (λ x. P x w) ((text_eq_iff j k).0 q) h.0)
    | inr q ↦ lookup-AllIn P k v m h.1 (ground arith)
  ]

  pub erase-AllIn : (P : Text → V → Type 0) (k : Text) (m : Map V) → AllIn P m → AllIn P (erase k m)
  unfolding erase
  erase-AllIn P k [] h = tt
  erase-AllIn P k ((j, w) ∷ m) h = ground (arith, erase-AllIn P k m)

  pub put-AllIn :
      (P : Text → V → Type 0) (k : Text) (v : V) (m : Map V)
      → AllIn P m
      → P k v
      → AllIn P (put k v m)
  unfolding put
  put-AllIn P k v [] h p = (p, tt)
  put-AllIn P k v ((j, w) ∷ m) h p = ground (arith, put-AllIn P k v m)

  pub AllIn-map :
      (P Q : Text → V → Type 0)
      → ((k : Text) (v : V) → P k v → Q k v)
      → (m : Map V) → AllIn P m
      → AllIn Q m
  AllIn-map P Q f [] h = tt
  AllIn-map P Q f ((k, v) ∷ m) h = (f k v h.0, AllIn-map P Q f m h.1)

  -- `map.remove(k)`, with the map that is left.
  unfoldable pub remove : Text → Map V → Option (V × Map V)
  unfolding erase
  remove k m = elim (lookup k m) [ none ↦ none | some v ↦ some (v, erase k m) ]

  -- No key occurs twice.
  abbrev pub IsUnique : Map V → Type 0
  IsUnique [] = Unit
  IsUnique ((k, v) ∷ m) = (lookup k m ≡ none) × IsUnique m

  pub erase-IsUnique : (k : Text) (m : Map V) → IsUnique m → IsUnique (erase k m)
  unfolding erase
  erase-IsUnique k [] h = tt
  erase-IsUnique k ((j, w) ∷ m) h = ground (arith, h, erase-IsUnique k m, lookup-erase j k m)

  pub put-IsUnique :
      (k : Text) (v : V) (m : Map V) → IsUnique m → lookup k m ≡ none → IsUnique (put k v m)
  unfolding put lookup
  put-IsUnique k v [] h n = (refl, tt)
  put-IsUnique k v ((j, w) ∷ m) h n =
      ground (arith, h, n, put-IsUnique k v m, lookup-put j k v m, text_eq_iff j k, text_eq_iff k j)

  pub erase-absent : (k : Text) (m : Map V) → lookup k m ≡ none → erase k m ≡ m
  unfolding erase lookup
  erase-absent k [] n = refl
  erase-absent k ((j, w) ∷ m) n = ground (arith, n, erase-absent k m)
