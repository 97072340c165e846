-- ===== src/Server/KeyMgmt/Shared.antt =====
-- src/server/keymgmt.rs: the passphrases of a group give the same internal key, also after an edit.
use ensync.Base.{
  ℕ, ◌≡◌, refl, sym, ap, ◌∙◌, Bool, true, not, some, List, [], ◌∷◌, arith, Bool-cases, Option-cases,
  inl, inr,
}
use mathlib.Core.Path.{subst}
use ensync.Base.Text.{Text, Bytes, text_eq}
use ensync.Base.Map.{Map, lookup, erase, lookup-erase}
use ensync.FileData.{HashId}
use ensync.Server.Ordered.{remove}
use ensync.Server.Crypt.{
  KdfEntry, KdfList, KeyChain, reassoc_keys, try_derive_key_single, try_derive_key,
}
use ensync.Server.Crypt.Rings.{
  IsHash, IsSafe, Tried, IsTried, Holds, ChainHolds, IsRing, mask, try_derive_key_single-Opens,
  reassoc_keys-Holds, try_derive_key-Found,
}
use ensync.Server.KeyMgmt.{
  Answer, ok, refuse_if, held, key_names, remove_groups, take_groups, remove_everywhere,
  destroy_all, edit_opened, change_chain, group_not_in_kdf_list,
}
use ensync.Server.KeyMgmt.Held.{bind-ok, ok-eq}
use ensync.Server.KeyMgmt.Keys.{remove_groups-lookup}

module _ (sha3 : Bytes → HashId) (scrypt : ℕ → Bytes → HashId → HashId)
    (as_bytes : Text → Bytes) where
  fewer-Holds :
      (K : Text → HashId) (e : KdfEntry) (groups : Map HashId)
      → ((g : Text) (x : HashId) → lookup g groups ≡ some x → lookup g e.groups ≡ some x)
      → Holds sha3 scrypt as_bytes K e
      → Holds sha3 scrypt as_bytes K (record e { groups = groups })
  fewer-Holds K e groups f h = record {
    secret = h.secret;
    is_hash = h.is_hash;
    unlocks = h.unlocks;
    holds = λ g x q. h.holds g x (f g x q);
  }

  pub take_groups-IsRing :
      (K : Text → HashId) (key : Text) (names : List Text) (list left : KdfList)
      → take_groups key names list ≡ ok left
      → IsRing sha3 scrypt as_bytes K list
      → IsRing sha3 scrypt as_bytes K left
  unfolding take_groups
  take_groups-IsRing K key names [] left h r = cc
  take_groups-IsRing K key names ((name, e) ∷ list) left h r =
      elim (Bool-cases (text_eq name key)) [
        | inl q ↦
            let (groups, a, b) =
              bind-ok (remove_groups names e.groups)
                (λ groups. ok ((name, record e { groups = groups }) ∷ list)) left
                (ground (arith, h)) in
            subst (λ l. IsRing sha3 scrypt as_bytes K l)
              (ok-eq ((name, record e { groups = groups }) ∷ list) left b)
              (
                fewer-Holds K e groups (λ g x. remove_groups-lookup g x names e.groups groups a)
                    r.0,
                r.1,
              )
        | inr q ↦
            let (l, a, b) =
              bind-ok (take_groups key names list) (λ l. ok ((name, e) ∷ l)) left
                (ground (arith, h)) in
            subst (λ l. IsRing sha3 scrypt as_bytes K l) (ok-eq ((name, e) ∷ l) left b)
              (r.0, take_groups-IsRing K key names list l a r.1)
      ]

  remove_everywhere-IsRing :
      (K : Text → HashId) (g : Text) (list : KdfList)
      → IsRing sha3 scrypt as_bytes K list
      → IsRing sha3 scrypt as_bytes K (remove_everywhere g list)
  unfolding remove_everywhere remove
  remove_everywhere-IsRing K g [] r = tt
  remove_everywhere-IsRing K g ((name, e) ∷ list) r = elim (Option-cases (lookup g e.groups)) [
    | inl n ↦
        let q : (name, e) ∷ remove_everywhere g list ≡ remove_everywhere g ((name, e) ∷ list) =
          ground (arith, n) in
        subst (λ l. IsRing sha3 scrypt as_bytes K l) q (r.0, remove_everywhere-IsRing K g list r.1)
    | inr (x, n) ↦
        let q : (name, record e { groups = erase g e.groups }) ∷ remove_everywhere g list
            ≡ remove_everywhere g ((name, e) ∷ list) =
          ground (arith, n) in
        subst (λ l. IsRing sha3 scrypt as_bytes K l) q
          (
            fewer-Holds K e (erase g e.groups)
                (λ h y q. ground (arith, lookup-erase h g e.groups, q)) r.0,
            remove_everywhere-IsRing K g list r.1,
          )
  ]

  pub destroy_all-IsRing :
      (K : Text → HashId) (names : List Text) (list left : KdfList)
      → destroy_all names list ≡ ok left
      → IsRing sha3 scrypt as_bytes K list
      → IsRing sha3 scrypt as_bytes K left
  unfolding destroy_all
  destroy_all-IsRing K [] list left h r =
      subst (λ l. IsRing sha3 scrypt as_bytes K l) (ok-eq list left h) r
  destroy_all-IsRing K (name ∷ names) list left h r =
      let (_, _, b) =
        bind-ok (refuse_if (not (held name list)) (group_not_in_kdf_list name))
          (λ _. destroy_all names (remove_everywhere name list)) left h in
      destroy_all-IsRing K names (remove_everywhere name list) left b
        (remove_everywhere-IsRing K name list r)

  -- Entries that hold the keys of `K` hold those of any `L` that agrees on the groups that are held.
  pub other-Holds :
      (K L : Text → HashId) (list : KdfList)
      → ((g : Text) → held g list ≡ true → L g ≡ K g)
      → IsRing sha3 scrypt as_bytes K list
      → IsRing sha3 scrypt as_bytes L list
  unfolding held
  other-Holds K L [] a r = tt
  other-Holds K L ((name, e) ∷ list) a r = (
    record {
      secret = r.0.secret;
      is_hash = r.0.is_hash;
      unlocks = r.0.unlocks;
      holds = λ g x q.
          r.0.holds g x q
          ∙ ap (λ k. mask sha3 scrypt as_bytes (r.0.secret) g k) (sym (a g (ground (arith, q))));
    },
    other-Holds K L list (λ g h. a g (ground (arith, h))) r.1,
  )

  module _ (safe : IsSafe sha3 scrypt as_bytes) where
    module _ (K : Text → HashId) (of_K : (g : Text) → IsHash (K g)) where
      -- What `edit_opened` gives, when `f` makes of keys of `K` keys of `L`.
      pub record EditedRing (L : Text → HashId) (list : KdfList) (w : KdfList × KeyChain)
          : Type 0 where
        pub ring : IsRing sha3 scrypt as_bytes L w.0
        pub holds : ChainHolds K (w.1).keys
        pub names : key_names list ≡ key_names w.0

      pub edit_opened-EditedRing :
          (L : Text → HashId) (of_L : (g : Text) → IsHash (L g)) (passphrase : Bytes)
          (f : KeyChain → Answer (Map HashId)) (list : KdfList) (w : KdfList × KeyChain)
          → ((kc : KeyChain) (keys : Map HashId)
              → f kc ≡ ok keys
              → ChainHolds K kc.keys
              → ChainHolds L keys)
          → edit_opened sha3 scrypt as_bytes passphrase f list ≡ ok w
          → IsTried sha3 scrypt as_bytes K passphrase list
          → IsRing sha3 scrypt as_bytes L list
          → EditedRing L list w
      unfolding edit_opened
      edit_opened-EditedRing L of_L passphrase f [] w k h r o = cc
      edit_opened-EditedRing L of_L passphrase f ((name, e) ∷ list) w k h r o =
          elim (Option-cases (try_derive_key_single sha3 scrypt as_bytes passphrase e)) [
            | inl n ↦
                let (v, a, b) =
                  bind-ok (edit_opened sha3 scrypt as_bytes passphrase f list)
                    (λ (w : KdfList × KeyChain). ok ((name, e) ∷ w.0, w.1)) w
                    (ground (arith, n, h)) in
                let i = edit_opened-EditedRing L of_L passphrase f list v k a r.1 o.1 in
                subst (λ w. EditedRing L ((name, e) ∷ list) w) (ok-eq ((name, e) ∷ v.0, v.1) w b)
                  (record {
                    ring = (o.0, i.ring);
                    holds = i.holds;
                    names = ap (λ l. name ∷ l) i.names;
                  })
            | inr (kc, n) ↦
                let (keys, a, b) =
                  bind-ok (f kc)
                    (λ keys. ok (
                      (name, reassoc_keys sha3 scrypt as_bytes e (record kc { keys = keys }))
                          ∷ list,
                      kc,
                    ))
                    w (ground (arith, n, h)) in
                let i =
                  try_derive_key_single-Opens sha3 scrypt as_bytes safe K of_K passphrase e kc r.0
                    n in
                subst (λ w. EditedRing L ((name, e) ∷ list) w)
                  (ok-eq
                    (
                      (name, reassoc_keys sha3 scrypt as_bytes e (record kc { keys = keys }))
                          ∷ list,
                      kc,
                    )
                    w b)
                  (record {
                    ring = (
                      reassoc_keys-Holds sha3 scrypt as_bytes safe L of_L e
                          (record kc { keys = keys }) (k kc keys a i.holds) i.is_hash i.unlocks,
                      o.1,
                    );
                    holds = i.holds;
                    names = refl;
                  })
          ]

      pub change_chain-ChainHolds :
          (old_passphrase : Bytes) (e : KdfEntry) (rest : KdfList) (allow : Bool) (kc : KeyChain)
          → Tried sha3 scrypt as_bytes K old_passphrase e
          → IsTried sha3 scrypt as_bytes K old_passphrase rest
          → change_chain sha3 scrypt as_bytes old_passphrase e rest allow ≡ ok kc
          → ChainHolds K kc.keys
      unfolding change_chain
      change_chain-ChainHolds old_passphrase e rest allow kc h r q =
          elim (Option-cases (try_derive_key_single sha3 scrypt as_bytes old_passphrase e)) [
            | inr (k, n) ↦
                let a : k ≡ kc = ground (arith, n, q) in
                (try_derive_key_single-Opens sha3 scrypt as_bytes safe K of_K old_passphrase e kc h
                  (n ∙ ap some a)).holds
            | inl n ↦
                elim (Option-cases (try_derive_key sha3 scrypt as_bytes old_passphrase rest)) [
                  | inl m ↦ absurd (ground (arith, n, m, q))
                  | inr (k, m) ↦
                      let a : k ≡ kc = ground (arith, n, m, q) in
                      (try_derive_key-Found sha3 scrypt as_bytes safe K of_K old_passphrase rest kc
                        r (m ∙ ap some a)).opens.holds
                ]
          ]
