-- ===== src/Server/Crypt/Rings.antt =====
-- src/server/crypt.rs: entries that give the same internal keys.
use ensync.Base.{
  ℕ, ◌<◌, ◌≡◌, ◌≢◌, List, refl, sym, ap, ◌∙◌, Option, none, some, true, [], ◌∷◌, ◌++◌, length,
  arith, All, Bool-cases, Option-cases, ◌⊎◌, inl, inr,
}
use mathlib.Core.Path.{subst}
use ensync.Base.Text.{Text, Bytes, text_eq, text_eq_iff, text_eq_refl}
use ensync.Base.Map.{Map, lookup, is_some, contains_key}
use ensync.FileData.{HashId}
use ensync.Server.Crypt.{
  KdfEntry, KdfList, KeyChain, algorithm_name, hixor, hmac, masked, reassoc_keys, create_key,
  opened, try_derive_key_single, try_derive_key, scrypt_18_14_12_8_1,
}
use ensync.Server.Ordered.{AllIn}
use ensync.Server.Crypt.Xor.{xor_bytes-twice}

-- 32 bytes.
abbrev pub IsHash : HashId → Type 0
IsHash h = (length h ≡ 32) × All (λ b. b < 256) h

-- The chain has the keys of `K`.
abbrev pub ChainHolds : (Text → HashId) → Map HashId → Type 0
ChainHolds K keys = (g : Text) (x : HashId) → lookup g keys ≡ some x → x ≡ K g

module _ (sha3 : Bytes → HashId) (scrypt : ℕ → Bytes → HashId → HashId)
    (as_bytes : Text → Bytes) where
  -- A group's key, combined with the hash of its name.
  abbrev pub mask : HashId → Text → HashId → HashId
  mask d g k = hixor (hmac sha3 scrypt as_bytes (as_bytes g) d) k

  abbrev mask_some : HashId → Text → Option HashId → Option HashId
  mask_some d g none = none
  mask_some d g (some k) = some (mask d g k)

  pub lookup-masked :
      (g : Text) (d : HashId) (m : Map HashId)
      → lookup g (masked sha3 scrypt as_bytes d m) ≡ mask_some d g (lookup g m)
  unfolding lookup masked
  lookup-masked g d [] = refl
  lookup-masked g d ((j, k) ∷ m) = elim (Bool-cases (text_eq j g)) [
    | inl e ↦ let q = (text_eq_iff j g).0 e in rw (e, q) refl
    | inr e ↦ rw e (lookup-masked g d m)
  ]

  mask_some-eq :
      (d : HashId) (g : Text) (o : Option HashId) (x : HashId)
      → mask_some d g o ≡ some x
      → (k : HashId) × (o ≡ some k) × (x ≡ mask d g k)
  mask_some-eq d g none x h = cc
  mask_some-eq d g (some k) x h = (k, refl, sym (ap (λ o. or_x o) h))
    where
      or_x : Option HashId → HashId
      or_x none = x
      or_x (some y) = y

  mask_some-is_some :
      (d : HashId) (g : Text) (o : Option HashId) → is_some (mask_some d g o) ≡ is_some o
  mask_some-is_some d g none = refl
  mask_some-is_some d g (some k) = refl

  pub contains_key-masked :
      (g : Text) (d : HashId) (m : Map HashId)
      → contains_key g (masked sha3 scrypt as_bytes d m) ≡ contains_key g m
  contains_key-masked g d m =
      ap (λ o. is_some o) (lookup-masked g d m) ∙ mask_some-is_some d g (lookup g m)

  -- The groups of an entry are those of the chain that it gives.
  pub try_derive_key_single-groups :
      (g : Text) (passphrase : Bytes) (e : KdfEntry) (chain : KeyChain)
      → try_derive_key_single sha3 scrypt as_bytes passphrase e ≡ some chain
      → contains_key g chain.keys ≡ contains_key g e.groups
  unfolding try_derive_key_single opened scrypt_18_14_12_8_1
  try_derive_key_single-groups g passphrase e chain q =
      let d = scrypt_18_14_12_8_1 sha3 scrypt as_bytes passphrase e.salt in
      let c : masked sha3 scrypt as_bytes d e.groups ≡ chain.keys = ground arith in
      ap (λ m. contains_key g m) (sym c) ∙ contains_key-masked g d e.groups

  -- One of the entries.
  abbrev pub IsListed : KdfEntry → KdfList → Type 0
  IsListed e [] = ⊥
  IsListed e ((name, f) ∷ list) = (f ≡ e) ⊎ IsListed e list

  -- What is known of SHA3-256, and of scrypt as it is called: they give 32 bytes.
  pub record IsSafe : Type 0 where
    pub of_bytes : (b : Bytes) → IsHash (sha3 b)
    pub derived : (n : ℕ) (p : Bytes) (salt : HashId) → IsHash (scrypt n p salt)

  -- `d` unlocks the entry, which holds for each of its groups the group's key in `K`.
  pub record Holds (K : Text → HashId) (e : KdfEntry) : Type 0 where
    pub secret : HashId
    pub is_hash : IsHash secret
    pub unlocks : e.hash ≡ sha3 secret
    pub holds : (g : Text) (x : HashId) → lookup g e.groups ≡ some x → x ≡ mask secret g (K g)

  -- A list of entries that hold the same keys.
  abbrev pub IsRing : (Text → HashId) → KdfList → Type 0
  IsRing K list = AllIn (λ _ e. Holds K e) list

  -- The passphrase derives the secret of the entry, if it derives one with the same hash.
  abbrev pub Tried : (Text → HashId) → Bytes → KdfEntry → Type 0
  Tried K passphrase e =
      (h : Holds K e) × (sha3 h.secret
          ≡ sha3 (scrypt_18_14_12_8_1 sha3 scrypt as_bytes passphrase e.salt)
        → h.secret ≡ scrypt_18_14_12_8_1 sha3 scrypt as_bytes passphrase e.salt)

  abbrev pub IsTried : (Text → HashId) → Bytes → KdfList → Type 0
  IsTried K passphrase list = AllIn (λ _ e. Tried K passphrase e) list

  -- A collision of the hash function: for some entry the passphrase derives another key than its secret,
  -- with the same hash.
  abbrev pub Collides : (K : Text → HashId) → Bytes → (list : KdfList) → IsRing K list → Type 0
  Collides K passphrase [] r = ⊥
  Collides K passphrase ((name, e) ∷ list) r =
      ((sha3 (r.0).secret ≡ sha3 (scrypt_18_14_12_8_1 sha3 scrypt as_bytes passphrase e.salt))
        × ((r.0).secret ≢ scrypt_18_14_12_8_1 sha3 scrypt as_bytes passphrase e.salt))
      ⊎ Collides K passphrase list r.1

  -- For one of the passphrases.
  abbrev pub SomeCollides :
      (K : Text → HashId) → List Bytes → (list : KdfList) → IsRing K list → Type 0
  SomeCollides K [] list r = ⊥
  SomeCollides K (p ∷ ps) list r = Collides K p list r ⊎ SomeCollides K ps list r

  pub IsTried-or_Collides :
      (K : Text → HashId) (p : Bytes) (list : KdfList) (r : IsRing K list)
      → IsTried K p list ⊎ Collides K p list r
  IsTried-or_Collides K p [] r = inl tt
  IsTried-or_Collides K p ((name, e) ∷ list) r =
      let d = scrypt_18_14_12_8_1 sha3 scrypt as_bytes p e.salt in
      elim (IsTried-or_Collides K p list r.1) [
        | inr c ↦ inr (inr c)
        | inl t ↦ elim (Bool-cases (text_eq (r.0).secret d)) [
          | inl q ↦ inl ((r.0, λ _. (text_eq_iff (r.0).secret d).0 q), t)
          | inr q ↦
              let differs : (r.0).secret ≢ d =
                λ s. absurd (ground (arith, q, (text_eq_iff (r.0).secret d).1 s)) in
              elim (Bool-cases (text_eq (sha3 (r.0).secret) (sha3 d))) [
                | inl f ↦ inr (inl ((text_eq_iff (sha3 (r.0).secret) (sha3 d)).0 f, differs))
                | inr f ↦ inl (
                  (
                    r.0,
                    λ s. absurd (ground (arith, f, (text_eq_iff (sha3 (r.0).secret) (sha3 d)).1 s)),
                  ),
                  t,
                )
              ]
        ]
      ]

  pub All-IsTried-or_SomeCollides :
      (K : Text → HashId) (ps : List Bytes) (list : KdfList) (r : IsRing K list)
      → All (λ p. IsTried K p list) ps ⊎ SomeCollides K ps list r
  All-IsTried-or_SomeCollides K [] list r = inl tt
  All-IsTried-or_SomeCollides K (p ∷ ps) list r = elim (IsTried-or_Collides K p list r) [
    | inr c ↦ inr (inl c)
    | inl t ↦ elim (All-IsTried-or_SomeCollides K ps list r) [
      | inl a ↦ inl (t, a)
      | inr c ↦ inr (inr c)
    ]
  ]

  module _ (safe : IsSafe) where
    mask-twice : (d : HashId) (g : Text) (k : HashId) → IsHash k → mask d g (mask d g k) ≡ k
    unfolding hmac
    mask-twice d g k h =
        xor_bytes-twice (hmac sha3 scrypt as_bytes (as_bytes g) d) k
          ((safe.of_bytes (as_bytes g ++ d)).0 ∙ sym h.0) h.1

    -- A key that is masked twice is as it was.
    mask_some-twice :
        (d : HashId) (g : Text) (o : Option HashId)
        → ((k : HashId) → o ≡ some k → IsHash k)
        → mask_some d g (mask_some d g o) ≡ o
    mask_some-twice d g none h = refl
    mask_some-twice d g (some k) h = ap some (mask-twice d g k (h k refl))

    -- The passphrase with which an entry was created opens it again, with the internal keys of the
    -- chain that it was created for.
    pub record Reopens (passphrase : Bytes) (e : KdfEntry) (keys : Map HashId) : Type 0 where
      pub chain : KeyChain
      pub opens : try_derive_key_single sha3 scrypt as_bytes passphrase e ≡ some chain
      pub same : (g : Text) → lookup g chain.keys ≡ lookup g keys

    pub create_key-Reopens :
        (passphrase : Bytes) (chain : KeyChain) (created : ℕ) (updated : Option ℕ) (salt : HashId)
        → ((g : Text) (k : HashId) → lookup g chain.keys ≡ some k → IsHash k)
        → Reopens passphrase
            (create_key sha3 scrypt as_bytes passphrase chain created updated salt)
            chain.keys
    unfolding try_derive_key_single create_key opened reassoc_keys text_eq
    create_key-Reopens passphrase chain created updated salt h =
        let d = scrypt_18_14_12_8_1 sha3 scrypt as_bytes passphrase salt in
        let m = masked sha3 scrypt as_bytes d chain.keys in
        record {
          chain = record { keys = masked sha3 scrypt as_bytes d m; derived = d };
          opens = rw (text_eq_refl (sha3 d)) refl;
          same = λ g.
              lookup-masked g d m
              ∙ ap (λ o. mask_some d g o) (lookup-masked g d chain.keys)
              ∙ mask_some-twice d g (lookup g chain.keys) (λ k. h g k);
        }

    module _ (K : Text → HashId) (of_K : (g : Text) → IsHash (K g)) where
      -- What an entry gives to those who open it.
      pub record Opens (e : KdfEntry) (chain : KeyChain) : Type 0 where
        pub holds : ChainHolds K chain.keys
        pub is_hash : IsHash chain.derived
        pub unlocks : e.hash ≡ sha3 chain.derived
        pub same_groups : (g : Text) → contains_key g chain.keys ≡ contains_key g e.groups

      -- Keys that are masked twice are as they were, whichever way they go.
      masked-ChainHolds :
          (d : HashId) (m : Map HashId)
          → ((g : Text) (x : HashId) → lookup g m ≡ some x → x ≡ mask d g (K g))
          → ChainHolds K (masked sha3 scrypt as_bytes d m)
      masked-ChainHolds d m h g x f =
          let (k, at, r) = mask_some-eq d g (lookup g m) x (sym (lookup-masked g d m) ∙ f) in
          r ∙ ap (λ y. mask d g y) (h g k at) ∙ mask-twice d g (K g) (of_K g)

      masked-holds :
          (d : HashId) (m : Map HashId)
          → ChainHolds K m
          → (g : Text) (x : HashId) → lookup g (masked sha3 scrypt as_bytes d m) ≡ some x
          → x ≡ mask d g (K g)
      masked-holds d m h g x f =
          let (k, at, r) = mask_some-eq d g (lookup g m) x (sym (lookup-masked g d m) ∙ f) in
          r ∙ ap (λ y. mask d g y) (h g k at)

      opened-Opens :
          (e : KdfEntry) (d : HashId)
          → IsHash d
          → (h : Holds K e) → (sha3 h.secret ≡ sha3 d → h.secret ≡ d)
          → e.hash ≡ sha3 d
          → Opens e (record { keys = masked sha3 scrypt as_bytes d e.groups; derived = d })
      opened-Opens e d hd h only q =
          let same : h.secret ≡ d = only (sym h.unlocks ∙ q) in
          record {
            holds = masked-ChainHolds d e.groups (
                subst
                  (λ y. (g : Text) (x : HashId) → lookup g e.groups ≡ some x → x ≡ mask y g (K g))
                  same h.holds);
            is_hash = hd;
            unlocks = q;
            same_groups = λ g. contains_key-masked g d e.groups;
          }

      pub try_derive_key_single-Opens :
          (passphrase : Bytes) (e : KdfEntry) (chain : KeyChain)
          → Tried K passphrase e
          → try_derive_key_single sha3 scrypt as_bytes passphrase e ≡ some chain
          → Opens e chain
      unfolding try_derive_key_single opened scrypt_18_14_12_8_1
      try_derive_key_single-Opens passphrase e chain (h, only) q =
          let d = scrypt_18_14_12_8_1 sha3 scrypt as_bytes passphrase e.salt in
          let t : text_eq (sha3 d) e.hash ≡ true = ground arith in
          let c : record { keys = masked sha3 scrypt as_bytes d e.groups; derived = d } ≡ chain =
            ground arith in
          subst (λ c. Opens e c) c
            (opened-Opens e d (safe.derived _ passphrase e.salt) h only
              (sym ((text_eq_iff (sha3 d) e.hash).0 t)))

      pub reassoc_keys-Holds :
          (e : KdfEntry) (chain : KeyChain)
          → ChainHolds K chain.keys
          → IsHash chain.derived
          → e.hash ≡ sha3 chain.derived
          → Holds K (reassoc_keys sha3 scrypt as_bytes e chain)
      unfolding reassoc_keys
      reassoc_keys-Holds e chain h d q = record {
        secret = chain.derived;
        is_hash = d;
        unlocks = q;
        holds = masked-holds chain.derived chain.keys h;
      }

      pub create_key-Holds :
          (passphrase : Bytes) (chain : KeyChain) (created : ℕ) (updated : Option ℕ) (salt : HashId)
          → ChainHolds K chain.keys
          → Holds K (create_key sha3 scrypt as_bytes passphrase chain created updated salt)
      unfolding create_key scrypt_18_14_12_8_1
      create_key-Holds passphrase chain created updated salt h =
          let d = scrypt_18_14_12_8_1 sha3 scrypt as_bytes passphrase salt in
          reassoc_keys-Holds
            (record {
              created = created;
              updated = updated;
              algorithm = algorithm_name;
              salt = salt;
              hash = sha3 d;
              groups = [];
            })
            (record chain { derived = d }) h (safe.derived _ passphrase salt) refl

      -- Of a chain that the list gives, some entry was opened.
      pub record Found (list : KdfList) (chain : KeyChain) : Type 0 where
        pub entry : KdfEntry
        pub opens : Opens entry chain
        pub listed : IsListed entry list

      pub try_derive_key-Found :
          (passphrase : Bytes) (list : KdfList) (chain : KeyChain)
          → IsTried K passphrase list
          → try_derive_key sha3 scrypt as_bytes passphrase list ≡ some chain
          → Found list chain
      unfolding try_derive_key
      try_derive_key-Found passphrase [] chain h q = cc
      try_derive_key-Found passphrase ((name, e) ∷ list) chain h q =
          elim (Option-cases (try_derive_key_single sha3 scrypt as_bytes passphrase e)) [
            | inl f ↦
                let r = try_derive_key-Found passphrase list chain h.1 (ground (arith, f, q)) in
                record { entry = r.entry; opens = r.opens; listed = inr r.listed }
            | inr (c, f) ↦
                let s : c ≡ chain = ground arith in
                record {
                  entry = e;
                  opens = try_derive_key_single-Opens passphrase e chain h.0 (f ∙ ap some s);
                  listed = inl refl;
                }
          ]
