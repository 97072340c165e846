-- ===== src/Reconcile/AlternateName/Laws.antt =====
-- src/reconcile/compute.rs: the name that `gen_alternate_name` returns.
use ensync.Base.{ℕ, zero, suc, ◌+◌, ◌-◌, ◌^◌, ◌≤◌, ◌<◌, ◌≡◌, ◌≢◌, Bool, true, false, ◌||◌}
use ensync.Base.{some, List, [], ◌∷◌, length, if◌then◌else◌, arith, Bool-cases, inl, inr}
use ensync.Base.Text.{Text, text_eq, text_eq_iff}
use ensync.Base.Decimal.{decimal-injective}
use mathlib.Core.List.{append_cancel_left, append_cancel_right}
use native.Mathlib.Decide.{dec_lt}
use ensync.Reconcile.AlternateName.{first_unused, candidate, gen_alternate_name, base_of, extension}

unfoldable pub contains : Text → List Text → Bool
contains x [] = false
contains x (y ∷ ys) = text_eq y x || contains x ys

-- The names without `x`.
without : Text → List Text → List Text
without x [] = []
without x (y ∷ ys) = let rest = without x ys in if text_eq y x then rest else y ∷ rest

length-without-le : (x : Text) (l : List Text) → length (without x l) ≤ length l
unfolding without
length-without-le x [] = omega arith
length-without-le x (y ∷ ys) = ground (arith, length-without-le x ys)

length-without : (x : Text) (l : List Text) → contains x l ≡ true → length (without x l) < length l
unfolding without contains
length-without x [] h = cc
length-without x (y ∷ ys) h = ground (arith, length-without x ys, length-without-le x ys)

contains-without :
    (x z : Text) (l : List Text) → x ≢ z → contains z l ≡ true → contains z (without x l) ≡ true
unfolding without contains
contains-without x z [] d h = h
contains-without x z (y ∷ ys) d h =
    ground (arith, text_eq_iff y x, text_eq_iff y z, contains-without x z ys d)

module _ (name : ℕ → Text) (in_use : Text → Bool) where
  -- The loop returns a free name, and passed only names in use.
  pub record IsFirst (n rounds : ℕ) (r : Text) : Type 0 where
    pub index : ℕ
    pub from_start : n ≤ index
    pub in_range : index < n + rounds
    pub is_name : r ≡ name index
    pub is_free : in_use r ≡ false
    pub passed : (j : ℕ) → n ≤ j → j < index → in_use (name j) ≡ true

  first_unused-IsFirst :
      (rounds n : ℕ) (r : Text) → first_unused name in_use rounds n ≡ some r → IsFirst n rounds r
  unfolding first_unused
  first_unused-IsFirst zero n r h = cc
  first_unused-IsFirst (suc rounds) n r h = elim (Bool-cases (in_use (name n))) [
    | inl used ↦ later used (first_unused-IsFirst rounds (n + 1) r (ground arith))
    | inr free ↦
        let e : r ≡ name n = ground arith in
        record {
          index = n;
          from_start = omega arith;
          in_range = omega arith;
          is_name = e;
          is_free = rw e free;
          passed = λ j p q. absurd (omega arith);
        }
  ]
    where
      later : in_use (name n) ≡ true → IsFirst (n + 1) rounds r → IsFirst n (suc rounds) r
      later used f = record {
        index = f.index;
        from_start = omega (arith, f.from_start);
        in_range = omega (arith, f.in_range);
        is_name = f.is_name;
        is_free = f.is_free;
        passed = λ j p q. elim (dec_lt n j) [
          | yes lt ↦ f.passed j (omega arith) q
          | no ge ↦ let e : j ≡ n = omega arith in rw e used
        ];
      }

  -- A loop over distinct names, of which only those in a shorter list are in use, ends.
  first_unused_total :
      ((i j : ℕ) → name i ≡ name j → i ≡ j)
      → (rounds n : ℕ) (l : List Text)
      → ((i : ℕ) → n ≤ i → in_use (name i) ≡ true → contains (name i) l ≡ true)
      → length l < rounds
      → (r : Text) × (first_unused name in_use rounds n ≡ some r)
  unfolding first_unused
  first_unused_total inj zero n l fits h = elim h [ ]
  first_unused_total inj (suc rounds) n l fits h = elim (Bool-cases (in_use (name n))) [
    | inr free ↦ (name n, rw free)
    | inl used ↦ rw used (
        first_unused_total inj rounds (n + 1) (without (name n) l)
          (λ i p u.
            contains-without (name n) (name i) l (λ e. let q = inj n i e in absurd (omega arith))
              (fits i (omega arith) u))
          (omega (arith, length-without (name n) l (fits n (omega arith) used))))
  ]

candidate-injective : (orig : Text) (i j : ℕ) → candidate orig i ≡ candidate orig j → i ≡ j
unfolding candidate
candidate-injective orig i j e =
    decimal-injective i j
      (append_cancel_right _ _ (extension orig) (append_cancel_left (base_of orig) _ _ e))

-- Where the names in use are among fewer than 2^64 - 1 names, a name is returned. It is not in use,
-- it is a name of the family of `orig`, and every name of the family with a smaller number is in
-- use.
pub gen_alternate_name_total :
    (orig : Text) (in_use : Text → Bool) (names : List Text)
    → ((x : Text) → in_use x ≡ true → contains x names ≡ true)
    → length names < 2 ^ 64 - 1
    → (r : Text) × (gen_alternate_name orig in_use ≡ some r)
      × IsFirst (candidate orig) in_use 1 (2 ^ 64 - 1) r
unfolding gen_alternate_name
gen_alternate_name_total orig in_use names fits h =
    let (r, e) =
      first_unused_total (candidate orig) in_use (candidate-injective orig) (2 ^ 64 - 1) 1 names
        (λ i _. fits (candidate orig i)) h in
    (r, e, first_unused-IsFirst (candidate orig) in_use (2 ^ 64 - 1) 1 r e)
