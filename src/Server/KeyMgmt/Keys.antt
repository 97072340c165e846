-- ===== src/Server/KeyMgmt/Keys.antt =====
-- src/server/keymgmt.rs: the internal keys that chains and entries hold, through each loop.
use ensync.Base.{
  ℕ, suc, ◌≡◌, refl, sym, ap, ◌∙◌, false, not, Option, none, some, List, [], ◌∷◌, if◌then◌else◌,
  arith, Bool-cases, inl, inr,
}
use mathlib.Core.Path.{subst}
use ensync.Base.Text.{Text, text_eq, text_eq_iff}
use ensync.Base.Map.{Map, lookup, is_some, contains_key, erase, lookup-erase}
use ensync.FileData.{HashId}
use ensync.Server.Ordered.{put, remove, lookup-put, IsUnique}
use ensync.Server.Crypt.{KdfList, KeyChain, group_root, chain_key}
use ensync.Server.Crypt.Rings.{IsHash, ChainHolds}
use ensync.Server.KeyMgmt.{
  ok, ◌>>=◌, or_err, refuse_if, held, key_names, copy_keys, add_keys, new_keys, remove_groups,
  take_groups, remove_everywhere, destroy_all, chain_root, key_not_in_group, key_already_in_group,
  group_not_in_kdf_list,
}
use ensync.Server.KeyMgmt.Held.{listed, bind-ok, ok-eq, or_err-ok, key_names-listed, remove-ok}

pub chain_root-eq :
    (o : Option HashId) (kc : KeyChain) (k : HashId)
    → ((x : HashId) → o ≡ some x → x ≡ k)
    → ((x : HashId) → lookup group_root kc.keys ≡ some x → x ≡ k)
    → (x : HashId) → chain_root o kc ≡ some x
    → x ≡ k
unfolding chain_root chain_key
chain_root-eq none kc k h c x e = c x e
chain_root-eq (some y) kc k h c x e = h x e

-- The keys, with the new ones for the names.
unfoldable pub drawn : (ℕ → HashId) → ℕ → List Text → (Text → HashId) → Text → HashId
drawn random i [] K g = K g
drawn random i (name ∷ names) K g =
    drawn random (suc i) names (λ h. if text_eq name h then random i else K h) g

pub drawn-other :
    (random : ℕ → HashId) (i : ℕ) (names : List Text) (K : Text → HashId) (g : Text)
    → listed g names ≡ false
    → drawn random i names K g ≡ K g
unfolding drawn listed
drawn-other random i [] K g h = refl
drawn-other random i (name ∷ names) K g h = elim (Bool-cases (text_eq name g)) [
  | inl e ↦ absurd (ground arith)
  | inr e ↦
      drawn-other random (suc i) names (λ h. if text_eq name h then random i else K h) g
        (ground arith)
      ∙ rw e refl
]

pub drawn-IsHash :
    (random : ℕ → HashId)
    → ((i : ℕ) → IsHash (random i))
    → (i : ℕ) (names : List Text) (K : Text → HashId) → ((g : Text) → IsHash (K g))
    → (g : Text) → IsHash (drawn random i names K g)
unfolding drawn
drawn-IsHash random r i [] K h g = h g
drawn-IsHash random r i (name ∷ names) K h g =
    drawn-IsHash random r (suc i) names (λ h. if text_eq name h then random i else K h)
      (λ j. elim (Bool-cases (text_eq name j)) [ inl e ↦ rw e (r i) | inr e ↦ rw e (h j) ]) g

pub put-ChainHolds :
    (K : Text → HashId) (name : Text) (keys : Map HashId)
    → ChainHolds K keys
    → ChainHolds K (put name (K name) keys)
put-ChainHolds K name keys h g x e = elim (Bool-cases (text_eq name g)) [
  | inl q ↦
      let a : K name ≡ x = ground (arith, lookup-put g name (K name) keys, e) in
      sym a ∙ ap (λ g. K g) ((text_eq_iff name g).0 q)
  | inr q ↦ h g x (ground (arith, lookup-put g name (K name) keys, e))
]

copied-ChainHolds :
    (K : Text → HashId) (name : Text) (from : KeyChain) (k : HashId) (keys : Map HashId)
    → ChainHolds K from.keys
    → chain_key name from ≡ some k
    → ChainHolds K keys
    → ChainHolds K (put name k keys)
unfolding chain_key
copied-ChainHolds K name from k keys f e h =
    subst (λ y. ChainHolds K (put name y keys)) (sym (f name k e)) (put-ChainHolds K name keys h)

pub copy_keys-ChainHolds :
    (K : Text → HashId) (from : KeyChain) (groups : List Text) (keys all : Map HashId)
    → ChainHolds K from.keys
    → ChainHolds K keys
    → copy_keys from groups keys ≡ ok all
    → ChainHolds K all
unfolding copy_keys
copy_keys-ChainHolds K from [] keys all f h e = subst (λ m. ChainHolds K m) (ok-eq keys all e) h
copy_keys-ChainHolds K from (name ∷ groups) keys all f h e =
    let (k, a, b) =
      bind-ok (or_err (chain_key name from) (key_not_in_group name))
        (λ key. copy_keys from groups (put name key keys)) all e in
    copy_keys-ChainHolds K from groups (put name k keys) all f
      (copied-ChainHolds K name from k keys f
        (or_err-ok (chain_key name from) (key_not_in_group name) k a) h)
      b

pub add_keys-ChainHolds :
    (K : Text → HashId) (from : KeyChain) (names : List Text) (keys all : Map HashId)
    → ChainHolds K from.keys
    → ChainHolds K keys
    → add_keys from names keys ≡ ok all
    → ChainHolds K all
unfolding add_keys
add_keys-ChainHolds K from [] keys all f h e = subst (λ m. ChainHolds K m) (ok-eq keys all e) h
add_keys-ChainHolds K from (name ∷ names) keys all f h e =
    let (_, _, b) =
      bind-ok (refuse_if (contains_key name keys) (key_already_in_group name))
        (λ _. or_err (chain_key name from) (key_not_in_group name) >>= λ key.
          add_keys from names (put name key keys))
        all e in
    let (k, c, d) =
      bind-ok (or_err (chain_key name from) (key_not_in_group name))
        (λ key. add_keys from names (put name key keys)) all b in
    add_keys-ChainHolds K from names (put name k keys) all f
      (copied-ChainHolds K name from k keys f
        (or_err-ok (chain_key name from) (key_not_in_group name) k c) h)
      d

pub new_keys-ChainHolds :
    (random : ℕ → HashId) (i : ℕ) (names : List Text) (K : Text → HashId) (keys : Map HashId)
    → ChainHolds K keys
    → ChainHolds (λ g. drawn random i names K g) (new_keys random i names keys)
unfolding new_keys drawn
new_keys-ChainHolds random i [] K keys h = h
new_keys-ChainHolds random i (name ∷ names) K keys h =
    let L = λ (h : Text). if text_eq name h then random i else K h in
    new_keys-ChainHolds random (suc i) names L (put name (random i) keys) λ g x e.
      elim (Bool-cases (text_eq name g)) [
        | inl q ↦
            let a : random i ≡ x = ground (arith, lookup-put g name (random i) keys, e) in
            rw q (sym a)
        | inr q ↦ rw q (h g x (ground (arith, lookup-put g name (random i) keys, e)))
      ]

pub remove_groups-lookup :
    (g : Text) (x : HashId) (names : List Text) (groups left : Map HashId)
    → remove_groups names groups ≡ ok left
    → lookup g left ≡ some x
    → lookup g groups ≡ some x
unfolding remove_groups
remove_groups-lookup g x [] groups left h e = ap (λ m. lookup g m) (ok-eq groups left h) ∙ e
remove_groups-lookup g x (name ∷ names) groups left h e =
    let (w, a, b) =
      bind-ok (or_err (remove name groups) (key_not_in_group name))
        (λ (w : HashId × Map HashId). remove_groups names w.1) left h in
    let (_, d) =
      remove-ok name groups w.1 w.0 (or_err-ok (remove name groups) (key_not_in_group name) w a) in
    let f = remove_groups-lookup g x names w.1 left b e in
    let q : lookup g (erase name groups) ≡ some x = ap (λ m. lookup g m) d ∙ f in
    ground (arith, lookup-erase g name groups, q)

-- The names of the entries.
pub key_names-IsUnique : (a b : KdfList) → key_names a ≡ key_names b → IsUnique a → IsUnique b
key_names-IsUnique a [] e u = tt
key_names-IsUnique [] ((k, v) ∷ b) e u = cc
key_names-IsUnique ((j, w) ∷ a) ((k, v) ∷ b) e u =
    let i : j ≡ k = ground arith in
    let r : key_names a ≡ key_names b = ground arith in
    let n : contains_key j a ≡ false = ap (λ o. is_some o) u.0 in
    let m : contains_key k b ≡ false =
      subst (λ i. contains_key i b ≡ false) i
        (key_names-listed j b ∙ ap (λ l. listed j l) (sym r) ∙ sym (key_names-listed j a) ∙ n) in
    (ground arith, key_names-IsUnique a b r u.1)

pub key_names-take_groups :
    (key : Text) (names : List Text) (list left : KdfList)
    → take_groups key names list ≡ ok left
    → key_names list ≡ key_names left
unfolding take_groups
key_names-take_groups key names [] left h = cc
key_names-take_groups key names ((name, e) ∷ list) left h = elim (Bool-cases (text_eq name key)) [
  | inl q ↦
      let (groups, a, b) =
        bind-ok (remove_groups names e.groups)
          (λ groups. ok ((name, record e { groups = groups }) ∷ list)) left (ground (arith, h)) in
      ap (λ (l : KdfList). key_names l) (ok-eq ((name, record e { groups = groups }) ∷ list) left b)
  | inr q ↦
      let (l, a, b) =
        bind-ok (take_groups key names list) (λ l. ok ((name, e) ∷ l)) left (ground (arith, h)) in
      ap (λ l. name ∷ l) (key_names-take_groups key names list l a)
      ∙ ap (λ (l : KdfList). key_names l) (ok-eq ((name, e) ∷ l) left b)
]

key_names-remove_everywhere :
    (name : Text) (list : KdfList) → key_names list ≡ key_names (remove_everywhere name list)
unfolding remove_everywhere
key_names-remove_everywhere name [] = refl
key_names-remove_everywhere name ((k, e) ∷ list) =
    ground (arith, key_names-remove_everywhere name list)

pub key_names-destroy_all :
    (names : List Text) (list left : KdfList)
    → destroy_all names list ≡ ok left
    → key_names list ≡ key_names left
unfolding destroy_all
key_names-destroy_all [] list left h = ap (λ (l : KdfList). key_names l) (ok-eq list left h)
key_names-destroy_all (name ∷ names) list left h =
    let (_, _, b) =
      bind-ok (refuse_if (not (held name list)) (group_not_in_kdf_list name))
        (λ _. destroy_all names (remove_everywhere name list)) left h in
    key_names-remove_everywhere name list
    ∙ key_names-destroy_all names (remove_everywhere name list) left b
