-- ===== src/Reconcile/AlternateName/Tests.antt =====
-- src/reconcile/compute.rs: cases of the source's own tests, and the theorems at concrete inputs.
use ensync.Base.{◌-◌, ◌^◌, ◌≡◌, refl, Bool, Option, some, List, [], ◌∷◌, arith}
use ensync.Base.Text.{Text, text, text_eq}
use ensync.Base.Decimal.{decimal}
use ensync.Reconcile.AlternateName.{
  rsplit, stem_of, ext_of, file_stem, extension, tilde_base, base_of, candidate, first_unused,
  gen_alternate_name,
}
use ensync.Reconcile.AlternateName.Laws.{contains, IsFirst, gen_alternate_name_total}
use ensync.Reconcile.AlternateName.Family.{candidate-candidate}

gen : Text → (Text → Bool) → Option Text
unfolding gen_alternate_name first_unused candidate base_of tilde_base file_stem extension stem_of
    ext_of rsplit decimal contains text_eq
gen = gen_alternate_name

abbrev taken : List Text
taken = text "foo.txt" ∷ text "foo~1.txt" ∷ []

simple : gen (text "foo") (λ x. contains x (text "foo" ∷ [])) ≡ some (text "foo~1")
unfolding gen
simple = refl

with_collision : gen (text "foo.txt") (λ x. contains x taken) ≡ some (text "foo~2.txt")
unfolding gen
with_collision = refl

reuses_tilde : gen (text "foo~1.txt") (λ x. contains x taken) ≡ some (text "foo~2.txt")
unfolding gen
reuses_tilde = refl

gen_alternate_name_total_example :
    (r : Text) × (gen_alternate_name (text "foo.txt") (λ x. contains x taken) ≡ some r)
    × IsFirst (candidate (text "foo.txt")) (λ x. contains x taken) 1 (2 ^ 64 - 1) r
gen_alternate_name_total_example =
    gen_alternate_name_total (text "foo.txt") (λ x. contains x taken) taken (λ x h. h) (omega arith)

candidate-candidate_example :
    (extension (candidate (text ".foo.txt") 3) ≡ extension (text ".foo.txt"))
    × (candidate (candidate (text ".foo.txt") 3) 7 ≡ candidate (text ".foo.txt") 7)
candidate-candidate_example = candidate-candidate (text ".foo.txt") 3 7
