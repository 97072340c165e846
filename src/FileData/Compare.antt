-- ===== src/FileData/Compare.antt =====
-- src/defs.rs: how the three comparisons of files are related.
use ensync.Base.{◌≡◌, refl, ap, true, false, Option, none, some, arith, Bool-cases, inl, inr}
use ensync.Base.Text.{text_eq_sym, text_eq_iff, text_eq_refl}
use ensync.FileData.{FileData, directory, regular, symlink, special, fd_eq, file_eq}
use ensync.FileData.{matches, matches_data, matches_content}

pub matches_refl : (f : FileData) → matches f f ≡ true
unfolding matches
matches_refl (directory m) = ground arith
matches_refl (regular m n t h) = ground (arith, text_eq_refl h)
matches_refl (symlink t) = text_eq_refl t
matches_refl special = refl

pub matches_sym : (f g : FileData) → matches f g ≡ matches g f
unfolding matches
matches_sym (regular m n t h) (regular m' n' t' h') = ground (arith, text_eq_sym h h')
matches_sym (symlink t) (symlink t') = text_eq_sym t t'
matches_sym (directory m) (directory m') = ground arith
matches_sym _ _ = ground arith

pub matches_data_sym : (f g : FileData) → matches_data f g ≡ matches_data g f
unfolding matches_data
matches_data_sym (regular m n t h) (regular m' n' t' h') = ground (arith, text_eq_sym h h')
matches_data_sym (symlink t) (symlink t') = text_eq_sym t t'
matches_data_sym (directory m) (directory m') = ground arith
matches_data_sym _ _ = ground arith

pub matches_content_sym : (f g : FileData) → matches_content f g ≡ matches_content g f
unfolding matches_content
matches_content_sym (regular m n t h) (regular m' n' t' h') = text_eq_sym h h'
matches_content_sym (symlink t) (symlink t') = text_eq_sym t t'
matches_content_sym _ _ = ground arith

pub matches→matches_data : (f g : FileData) → matches f g ≡ true → matches_data f g ≡ true
unfolding matches matches_data
matches→matches_data (directory m) (directory m') h = ground arith
matches→matches_data (regular m n t h) (regular m' n' t' h') e = ground arith
matches→matches_data _ _ h = ground arith

pub matches_data→matches_content :
    (f g : FileData) → matches_data f g ≡ true → matches_content f g ≡ true
unfolding matches_data matches_content
matches_data→matches_content (directory m) (directory m') h = refl
matches_data→matches_content (regular m n t h) (regular m' n' t' h') e = ground arith
matches_data→matches_content _ _ h = ground arith

pub matches→matches_content : (f g : FileData) → matches f g ≡ true → matches_content f g ≡ true
matches→matches_content f g h = matches_data→matches_content f g (matches→matches_data f g h)

pub matches_content_trans :
    (f g k : FileData)
    → matches_content f g ≡ true
    → matches_content g k ≡ true
    → matches_content f k ≡ true
unfolding matches_content
matches_content_trans (directory _) (directory _) (directory _) p q = refl
matches_content_trans (regular _ _ _ h) (regular _ _ _ h') (regular _ _ _ k) p q =
    ground (arith, text_eq_iff h h', text_eq_iff h' k, text_eq_iff h k)
matches_content_trans (symlink t) (symlink t') (symlink u) p q =
    ground (arith, text_eq_iff t t', text_eq_iff t' u, text_eq_iff t u)
matches_content_trans _ _ _ p q = ground arith

pub eq_of_fd_eq : (a b : FileData) → fd_eq a b ≡ true → a ≡ b
unfolding fd_eq
eq_of_fd_eq (directory m) (directory m') h = ground arith
eq_of_fd_eq (regular m n t x) (regular m' n' t' x') h = ground (arith, text_eq_iff x x')
eq_of_fd_eq (symlink t) (symlink t') h = ground (arith, text_eq_iff t t')
eq_of_fd_eq special special h = refl
eq_of_fd_eq (directory m) (regular _ _ _ _) h = cc
eq_of_fd_eq (directory m) (symlink _) h = cc
eq_of_fd_eq (directory m) special h = cc
eq_of_fd_eq (regular _ _ _ _) (directory _) h = cc
eq_of_fd_eq (regular _ _ _ _) (symlink _) h = cc
eq_of_fd_eq (regular _ _ _ _) special h = cc
eq_of_fd_eq (symlink _) (directory _) h = cc
eq_of_fd_eq (symlink _) (regular _ _ _ _) h = cc
eq_of_fd_eq (symlink _) special h = cc
eq_of_fd_eq special (directory _) h = cc
eq_of_fd_eq special (regular _ _ _ _) h = cc
eq_of_fd_eq special (symlink _) h = cc

pub eq_of_file_eq : (a b : Option FileData) → file_eq a b ≡ true → a ≡ b
unfolding file_eq
eq_of_file_eq none none h = refl
eq_of_file_eq none (some b) h = cc
eq_of_file_eq (some a) none h = cc
eq_of_file_eq (some a) (some b) h = ap some (eq_of_fd_eq a b h)

-- Files that are equal match.
pub not_equal : (a b : FileData) → matches a b ≡ false → fd_eq a b ≡ false
not_equal a b h = elim (Bool-cases (fd_eq a b)) [
  | inr f ↦ f
  | inl t ↦ let e = eq_of_fd_eq a b t in cc (matches_refl b, h, ap (λ x. matches x b) e)
]
