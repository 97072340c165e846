-- ===== src/Server/KeyMgmt/Held.antt =====
-- src/server/keymgmt.rs: the groups that some passphrase still has.
use ensync.Base.{
  ℕ, suc, ◌≡◌, refl, sym, ap, ◌∙◌, Bool, true, false, ◌||◌, not, Option, none, some, List, [], ◌∷◌,
  arith, Bool-cases, Option-cases, inl, inr,
}
use mathlib.Core.Path.{subst}
use ensync.Base.Text.{Text, text_eq, text_eq_iff, text_eq_refl}
use ensync.Base.Map.{Map, lookup, contains_key, erase, lookup-erase}
use ensync.FileData.{HashId}
use ensync.Server.Ordered.{put, remove, lookup-put, IsUnique, erase-absent}
use ensync.Server.Crypt.{KdfEntry, KdfList, KeyChain, chain_key}
use ensync.Server.KeyMgmt.{
  KeyError, key_not_in_group, key_already_in_group, group_not_in_kdf_list, Answer, ok, err, ◌>>=◌,
  or_err, refuse_if, refuse_found, find, held, key_names, copy_keys, add_keys, new_keys,
  remove_groups, take_groups, remove_everywhere, destroy_all,
}

-- Which names are in a list.
unfoldable pub listed : Text → List Text → Bool
listed g [] = false
listed g (name ∷ names) = text_eq name g || listed g names

pub ok-eq : {A : Type 0} (a b : A) → ok a ≡ ok b → a ≡ b
ok-eq a b h = ground arith

pub bind-ok :
    {A B : Type 0} (x : Answer A) (f : A → Answer B) (b : B)
    → (x >>= f) ≡ ok b
    → (a : A) × (x ≡ ok a) × (f a ≡ ok b)
bind-ok (ok a) f b h = (a, refl, h)
bind-ok (err e) f b h = cc

pub or_err-ok : {A : Type 0} (o : Option A) (e : KeyError) (a : A) → or_err o e ≡ ok a → o ≡ some a
or_err-ok none e a h = cc
or_err-ok (some x) e a h = cc

pub refuse_if-ok : (b : Bool) (e : KeyError) → refuse_if b e ≡ ok tt → b ≡ false
refuse_if-ok true e h = cc
refuse_if-ok false e h = refl

pub refuse_found-ok : (o : Option Text) (e : Text → KeyError) → refuse_found o e ≡ ok tt → o ≡ none
refuse_found-ok none e h = refl
refuse_found-ok (some name) e h = cc

pub find-none :
    (p : Text → Bool) (names : List Text) (g : Text)
    → find p names ≡ none
    → listed g names ≡ true
    → p g ≡ false
unfolding find listed
find-none p [] g n l = cc
find-none p (name ∷ names) g n l = elim (Bool-cases (p name)) [
  | inl t ↦ absurd (ground arith)
  | inr f ↦ elim (Bool-cases (text_eq name g)) [
    | inl q ↦ let a : name ≡ g = (text_eq_iff name g).0 q in ap (λ x. p x) (sym a) ∙ f
    | inr q ↦ find-none p names g (ground arith) (ground arith)
  ]
]

pub held-put :
    (g k : Text) (e : KdfEntry) (list : KdfList)
    → lookup k list ≡ none
    → held g (put k e list) ≡ (contains_key g e.groups || held g list)
unfolding held put lookup
held-put g k e [] n = refl
held-put g k e ((j, f) ∷ list) n = ground (arith, held-put g k e list, n)

pub held-erase :
    (g k : Text) (e : KdfEntry) (list : KdfList)
    → IsUnique list
    → lookup k list ≡ some e
    → held g list ≡ (contains_key g e.groups || held g (erase k list))
unfolding held erase lookup
held-erase g k e [] u n = cc
held-erase g k e ((j, f) ∷ list) u n = elim (Bool-cases (text_eq j k)) [
  | inl q ↦
      let a : f ≡ e = ground (arith, n) in
      let b : lookup k list ≡ none = ap (λ x. lookup x list) (sym ((text_eq_iff j k).0 q)) ∙ u.0 in
      rw q (rw (erase-absent k list b) (ap (λ x. contains_key g x.groups || held g list) a))
  | inr q ↦ rw q (ground (arith, held-erase g k e list u.1, n))
]

pub key_names-listed :
    {V : Type 0} (g : Text) (m : Map V) → contains_key g m ≡ listed g (key_names m)
unfolding listed lookup
key_names-listed g [] = refl
key_names-listed g ((k, v) ∷ m) = ground (arith, key_names-listed g m)

pub contains_key-new_keys :
    (g : Text) (random : ℕ → HashId) (i : ℕ) (names : List Text) (keys : Map HashId)
    → contains_key g keys ≡ true
    → contains_key g (new_keys random i names keys) ≡ true
unfolding new_keys
contains_key-new_keys g random i [] keys h = h
contains_key-new_keys g random i (name ∷ names) keys h =
    contains_key-new_keys g random (suc i) names (put name (random i) keys)
      (ground (arith, lookup-put g name (random i) keys))

pub contains_key-copy_keys :
    (g : Text) (from : KeyChain) (groups : List Text) (keys all : Map HashId)
    → copy_keys from groups keys ≡ ok all
    → contains_key g all ≡ (contains_key g keys || listed g groups)
unfolding copy_keys listed
contains_key-copy_keys g from [] keys all h = let a = ok-eq keys all h in rw a (ground arith)
contains_key-copy_keys g from (name ∷ groups) keys all h =
    let (k, a, b) =
      bind-ok (or_err (chain_key name from) (key_not_in_group name))
        (λ key. copy_keys from groups (put name key keys)) all h in
    ground (
      arith,
      contains_key-copy_keys g from groups (put name k keys) all b,
      lookup-put g name k keys,
    )

pub contains_key-add_keys :
    (g : Text) (from : KeyChain) (names : List Text) (keys all : Map HashId)
    → add_keys from names keys ≡ ok all
    → contains_key g keys ≡ true
    → contains_key g all ≡ true
unfolding add_keys
contains_key-add_keys g from [] keys all h c =
    subst (λ m. contains_key g m ≡ true) (ok-eq keys all h) c
contains_key-add_keys g from (name ∷ names) keys all h c =
    let (_, _, b) =
      bind-ok (refuse_if (contains_key name keys) (key_already_in_group name))
        (λ _. or_err (chain_key name from) (key_not_in_group name) >>= λ key.
          add_keys from names (put name key keys))
        all h in
    let (k, _, d) =
      bind-ok (or_err (chain_key name from) (key_not_in_group name))
        (λ key. add_keys from names (put name key keys)) all b in
    contains_key-add_keys g from names (put name k keys) all d
      (ground (arith, lookup-put g name k keys))

pub remove-ok :
    (k : Text) {V : Type 0} (m l : Map V) (v : V)
    → remove k m ≡ some (v, l)
    → (lookup k m ≡ some v) × (erase k m ≡ l)
unfolding remove
remove-ok k m l v h = elim (Option-cases (lookup k m)) [
  | inl n ↦ absurd (ground arith)
  | inr (w, n) ↦ ground arith
]

pub contains_key-remove_groups :
    (g : Text) (names : List Text) (groups left : Map HashId)
    → remove_groups names groups ≡ ok left
    → listed g names ≡ false
    → contains_key g left ≡ contains_key g groups
unfolding remove_groups listed
contains_key-remove_groups g [] groups left h n =
    ap (λ m. contains_key g m) (sym (ok-eq groups left h))
contains_key-remove_groups g (name ∷ names) groups left h n =
    let (w, a, b) =
      bind-ok (or_err (remove name groups) (key_not_in_group name))
        (λ (w : HashId × Map HashId). remove_groups names w.1) left h in
    let (c, d) =
      remove-ok name groups w.1 w.0 (or_err-ok (remove name groups) (key_not_in_group name) w a) in
    let f : listed g names ≡ false = ground arith in
    let q : text_eq name g ≡ false = ground arith in
    contains_key-remove_groups g names w.1 left b f
    ∙ ap (λ m. contains_key g m) (sym d)
    ∙ ground (arith, lookup-erase g name groups)

pub held-take_groups :
    (g key : Text) (names : List Text) (list left : KdfList)
    → take_groups key names list ≡ ok left
    → listed g names ≡ false
    → held g left ≡ held g list
unfolding take_groups held
held-take_groups g key names [] left h n = cc
held-take_groups g key names ((name, e) ∷ list) left h n = elim (Bool-cases (text_eq name key)) [
  | inl q ↦
      let (groups, a, b) =
        bind-ok (remove_groups names e.groups)
          (λ groups. ok ((name, record e { groups = groups }) ∷ list)) left (ground (arith, h)) in
      ap (λ l. held g l) (sym (ok-eq _ left b))
      ∙ ap (λ b. b || held g list) (contains_key-remove_groups g names e.groups groups a n)
  | inr q ↦
      let (l, a, b) =
        bind-ok (take_groups key names list) (λ l. ok ((name, e) ∷ l)) left (ground (arith, h)) in
      ap (λ l. held g l) (sym (ok-eq ((name, e) ∷ l) left b))
      ∙ ap (λ b. contains_key g e.groups || b) (held-take_groups g key names list l a n)
]

pub held-remove_everywhere :
    (g name : Text) (list : KdfList)
    → text_eq name g ≡ false
    → held g (remove_everywhere name list) ≡ held g list
unfolding remove_everywhere held remove
held-remove_everywhere g name [] n = refl
held-remove_everywhere g name ((k, e) ∷ list) n =
    ground (arith, held-remove_everywhere g name list n, lookup-erase g name e.groups)

pub held-destroy_all :
    (g : Text) (names : List Text) (list left : KdfList)
    → destroy_all names list ≡ ok left
    → listed g names ≡ false
    → held g left ≡ held g list
unfolding destroy_all listed
held-destroy_all g [] list left h n = ap (λ l. held g l) (sym (ok-eq list left h))
held-destroy_all g (name ∷ names) list left h n =
    let (_, _, b) =
      bind-ok (refuse_if (not (held name list)) (group_not_in_kdf_list name))
        (λ _. destroy_all names (remove_everywhere name list)) left h in
    held-destroy_all g names (remove_everywhere name list) left b (ground arith)
    ∙ held-remove_everywhere g name list (ground arith)

pub lookup-erase_self : (k : Text) (list : KdfList) → lookup k (erase k list) ≡ none
lookup-erase_self k list = ground (arith, lookup-erase k k list, text_eq_refl k)
