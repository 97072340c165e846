-- ===== src/Reconcile/AlternateName/Family.antt =====
-- src/reconcile/compute.rs: the names that `gen_alternate_name` tries for a name.
use ensync.Base.{ℕ, ◌≡◌, ◌≢◌, refl, ap}
use ensync.Base.{
  none, some, [], ◌∷◌, ◌++◌, arith, append_assoc, append-nil, All, All-append, Option-cases, inl,
  inr,
}
use ensync.Base.Text.{Text}
use ensync.Base.Decimal.{decimal, decimal-All, IsDigit}
use ensync.Reconcile.AlternateName.{
  rsplit, stem_of, ext_of, file_stem, extension, tilde_base, base_of, candidate,
}

-- The text does not hold `c`.
abbrev Lacks : ℕ → Text → Type 0
Lacks c = All (λ x. x ≢ c)

rsplit-none : (c : ℕ) (l : Text) → Lacks c l → rsplit c l ≡ none
unfolding rsplit
rsplit-none c [] h = refl
rsplit-none c (x ∷ l) h = ground (arith, rsplit-none c l h.1, h.0)

Lacks-of_rsplit-none : (c : ℕ) (l : Text) → rsplit c l ≡ none → Lacks c l
unfolding rsplit
Lacks-of_rsplit-none c [] h = tt
Lacks-of_rsplit-none c (x ∷ l) h = elim (Option-cases (rsplit c l)) [
  | inl e ↦ ((λ q. ground (arith, e, q)), Lacks-of_rsplit-none c l e)
  | inr (p, e) ↦ ground arith
]

-- The split is at the last occurrence.
rsplit_last :
    (c : ℕ) (before after : Text)
    → Lacks c after
    → rsplit c (before ++ c ∷ after) ≡ some (before, after)
unfolding rsplit
rsplit_last c [] after h = ground (arith, rsplit-none c after h)
rsplit_last c (x ∷ before) after h = rw (rsplit_last c before after h)

-- What a split returns.
rsplit-some :
    (c : ℕ) (l before after : Text)
    → rsplit c l ≡ some (before, after)
    → (l ≡ before ++ c ∷ after) × Lacks c after
unfolding rsplit
rsplit-some c [] before after h = cc
rsplit-some c (x ∷ l) before after h = elim (Option-cases (rsplit c l)) [
  | inl e ↦
      let b : before ≡ [] = ground (arith, e, h) in
      let a : after ≡ l = ground (arith, e, h) in
      let q : x ≡ c = ground (arith, e, h) in rw (a, b, q) (refl, Lacks-of_rsplit-none c l e)
  | inr ((b', a'), e) ↦
      let b : before ≡ x ∷ b' = ground (arith, e, h) in
      let a : after ≡ a' = ground (arith, e, h) in
      let ih = rsplit-some c l b' a' e in rw (a, b) (ap (λ t. x ∷ t) ih.0, ih.1)
]

-- Where a name is split.
record IsSplit (name stem ext : Text) : Type 0 where
  pub stem_eq : file_stem name ≡ stem
  pub ext_eq : extension name ≡ ext

IsSplit-of_Lacks : (name : Text) → Lacks b'.' name → IsSplit name name []
unfolding file_stem extension stem_of ext_of
IsSplit-of_Lacks name h =
    let e = rsplit-none b'.' name h in record { stem_eq = rw e; ext_eq = rw e }

IsSplit-hidden : (rest : Text) → Lacks b'.' rest → IsSplit (b'.' ∷ rest) (b'.' ∷ rest) []
unfolding file_stem extension stem_of ext_of
IsSplit-hidden rest h =
    let e = rsplit_last b'.' [] rest h in record { stem_eq = rw e; ext_eq = rw e }

IsSplit-dotted :
    (c : ℕ) (stem after : Text)
    → Lacks b'.' after
    → IsSplit (c ∷ stem ++ b'.' ∷ after) (c ∷ stem) (b'.' ∷ after)
unfolding file_stem extension stem_of ext_of
IsSplit-dotted c stem after h =
    let e = rsplit_last b'.' (c ∷ stem) after h in record { stem_eq = rw e; ext_eq = rw e }

Lacks-left : (c : ℕ) (xs ys : Text) → Lacks c (xs ++ ys) → Lacks c xs
Lacks-left c [] ys h = tt
Lacks-left c (x ∷ xs) ys h = (h.0, Lacks-left c xs ys h.1)

-- The base of a stem lacks what the stem lacks, but for the tilde.
abbrev base_from : Text → Text
base_from stem = tilde_base stem (rsplit b'~' stem)

base_from-Lacks : (stem : Text) → Lacks b'.' stem → Lacks b'.' (base_from stem)
unfolding tilde_base
base_from-Lacks stem h = elim (Option-cases (rsplit b'~' stem)) [
  | inl e ↦ rw e (All-append _ stem _ h (omega arith, tt))
  | inr ((b, a), e) ↦
      let f = rsplit-some b'~' stem b a e in
      rw e (All-append _ b _ (Lacks-left b'.' b _ (rw f.0 at h)) (omega arith, tt))
]

-- A leading dot is kept.
base_from-hidden : (rest : Text) → base_from (b'.' ∷ rest) ≡ b'.' ∷ base_from rest
unfolding tilde_base rsplit
base_from-hidden rest = ground arith

-- The base ends in a tilde.
base_from-tilde : (stem : Text) → (b : Text) × (base_from stem ≡ b ++ b'~' ∷ [])
unfolding tilde_base
base_from-tilde stem = elim (Option-cases (rsplit b'~' stem)) [
  | inl e ↦ (stem, rw e)
  | inr ((b, a), e) ↦ (b, rw e)
]

decimal-Lacks_dot : (n : ℕ) → Lacks b'.' (decimal n)
decimal-Lacks_dot n = go (decimal n) (decimal-All n)
  where
    go : (l : Text) → All IsDigit l → Lacks b'.' l
    go [] h = tt
    go (x ∷ l) h = (omega arith, go l h.1)

decimal-Lacks_tilde : (n : ℕ) → Lacks b'~' (decimal n)
decimal-Lacks_tilde n = go (decimal n) (decimal-All n)
  where
    go : (l : Text) → All IsDigit l → Lacks b'~' l
    go [] h = tt
    go (x ∷ l) h = (omega arith, go l h.1)

-- A name split into its stem and extension is dotless, hidden or dotted.
data Shape (name : Text) : Type 0 where
  dotless : Lacks b'.' name → Shape name
  hidden : (rest : Text) → name ≡ b'.' ∷ rest → Lacks b'.' rest → Shape name
  dotted :
      (c : ℕ) (stem after : Text) → name ≡ c ∷ stem ++ b'.' ∷ after → Lacks b'.' after → Shape name

shape : (name : Text) → Shape name
shape name = elim (Option-cases (rsplit b'.' name)) [
  | inl e ↦ dotless (Lacks-of_rsplit-none b'.' name e)
  | inr (([], after), e) ↦ let f = rsplit-some b'.' name [] after e in hidden after f.0 f.1
  | inr ((c ∷ stem, after), e) ↦
      let f = rsplit-some b'.' name (c ∷ stem) after e in dotted c stem after f.0 f.1
]

-- The names of a family, from the stem and the extension of the first one.
abbrev family : Text → Text → ℕ → Text
family stem ext n = base_from stem ++ (decimal n ++ ext)

candidate-family :
    {name stem ext : Text} → IsSplit name stem ext → (n : ℕ) → candidate name n ≡ family stem ext n
unfolding candidate base_of
candidate-family s n = rw (s.stem_eq, s.ext_eq)

Lacks-numbered : (stem : Text) (n : ℕ) → Lacks b'.' stem → Lacks b'.' (base_from stem ++ decimal n)
Lacks-numbered stem n h =
    All-append _ (base_from stem) _ (base_from-Lacks stem h) (decimal-Lacks_dot n)

IsSplit-family_dotless :
    (stem : Text) (n : ℕ)
    → Lacks b'.' stem
    → IsSplit (family stem [] n) (base_from stem ++ decimal n) []
IsSplit-family_dotless stem n h =
    rw append-nil (IsSplit-of_Lacks (base_from stem ++ decimal n) (Lacks-numbered stem n h))

IsSplit-family_hidden :
    (rest : Text) (n : ℕ)
    → Lacks b'.' rest
    → IsSplit (family (b'.' ∷ rest) [] n) (base_from (b'.' ∷ rest) ++ decimal n) []
IsSplit-family_hidden rest n h =
    rw (append-nil, base_from-hidden rest)
      (IsSplit-hidden (base_from rest ++ decimal n) (Lacks-numbered rest n h))

-- A base is never empty.
base_from-cons : (stem : Text) → (c : ℕ) × (t : Text) × (base_from stem ≡ c ∷ t)
base_from-cons stem = go (base_from-tilde stem).0 (base_from-tilde stem).1
  where
    go :
        (b : Text)
        → base_from stem ≡ b ++ b'~' ∷ []
        → (c : ℕ) × (t : Text) × (base_from stem ≡ c ∷ t)
    go [] e = (b'~', [], e)
    go (x ∷ b) e = (x, b ++ b'~' ∷ [], e)

IsSplit-family_dotted :
    (stem after : Text) (n : ℕ)
    → Lacks b'.' after
    → IsSplit (family stem (b'.' ∷ after) n) (base_from stem ++ decimal n) (b'.' ∷ after)
IsSplit-family_dotted stem after n h =
    let (c, t, e) = base_from-cons stem in
    rw (e, ← append_assoc t) (IsSplit-dotted c (t ++ decimal n) after h)

IsSplit-candidate :
    (orig : Text) (n : ℕ) → IsSplit (candidate orig n) (base_of orig ++ decimal n) (extension orig)
IsSplit-candidate orig n = by_shape (shape orig)
  where
    base_eq : {stem ext : Text} → IsSplit orig stem ext → base_of orig ≡ base_from stem
    base_eq s = unfold base_of in rw s.stem_eq

    from_split :
        {stem ext : Text}
        → IsSplit orig stem ext
        → IsSplit (family stem ext n) (base_from stem ++ decimal n) ext
        → IsSplit (candidate orig n) (base_of orig ++ decimal n) (extension orig)
    from_split s t = rw (candidate-family s n, base_eq s, s.ext_eq) t

    by_shape : Shape orig → IsSplit (candidate orig n) (base_of orig ++ decimal n) (extension orig)
    by_shape (dotless h) = from_split (IsSplit-of_Lacks orig h) (IsSplit-family_dotless orig n h)
    by_shape (hidden rest e h) =
        from_split (rw e (IsSplit-hidden rest h)) (IsSplit-family_hidden rest n h)
    by_shape (dotted c stem after e h) =
        from_split (rw e (IsSplit-dotted c stem after h))
          (IsSplit-family_dotted (c ∷ stem) after n h)

base_from-numbered :
    (stem : Text) (n : ℕ) → base_from (base_from stem ++ decimal n) ≡ base_from stem
base_from-numbered stem n =
    let (b, e) = base_from-tilde stem in rw (e, append_assoc b (b'~' ∷ []) (decimal n)) (go b)
  where
    go : (b : Text) → base_from (b ++ b'~' ∷ decimal n) ≡ b ++ b'~' ∷ []
    go b = unfold tilde_base in rw (rsplit_last b'~' b (decimal n) (decimal-Lacks_tilde n))

-- The alternatives of a name keep its extension, and an alternative of an alternative is an
-- alternative of the first name: tildes and numbers do not pile up.
pub candidate-candidate :
    (orig : Text) (k n : ℕ)
    → (extension (candidate orig k) ≡ extension orig)
      × (candidate (candidate orig k) n ≡ candidate orig n)
candidate-candidate orig k n = (s.ext_eq, same)
  where
    s : IsSplit (candidate orig k) (base_of orig ++ decimal k) (extension orig)
    s = IsSplit-candidate orig k

    same_base : base_of (candidate orig k) ≡ base_of orig
    same_base = unfold base_of in rw s.stem_eq (base_from-numbered (file_stem orig) k)

    same : candidate (candidate orig k) n ≡ candidate orig n
    same = unfold candidate in rw (same_base, s.ext_eq)
