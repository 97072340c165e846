-- ===== src/Server/KeyMgmt/Safe.antt =====
-- src/server/keymgmt.rs: no group loses its last passphrase unless it is destroyed.
use ensync.Base.{
  ℕ, ◌≡◌, refl, sym, ap, ◌∙◌, Bool, true, false, ◌||◌, Option, none, some, [], ◌∷◌, arith,
  Bool-cases, Option-cases, ◌⊎◌, inl, inr,
}
use mathlib.Core.Path.{subst}
use ensync.Base.Text.{Text, Bytes, text_eq, text_eq_iff}
use ensync.Base.Map.{Map, lookup, contains_key, erase}
use ensync.FileData.{HashId}
use ensync.Server.Ordered.{IsUnique}
use ensync.Server.Crypt.{
  KdfEntry, KdfList, KeyChain, group_everyone, group_root, empty_chain, reassoc_keys, create_key,
  try_derive_key_single,
}
use ensync.Server.Crypt.Rings.{try_derive_key_single-groups, contains_key-masked}
use ensync.Server.KeyMgmt.{
  Answer, ok, find, held, key_names, add_keys, new_keys, Moment, Edited, Request, add_key, del_key,
  change_key, create_group, assoc_group, disassoc_group, destroy_group, check, edit, edit_opened,
  cannot_destroy_group,
}
use ensync.Server.KeyMgmt.Done.{edit-DoneAdd, edit-DoneDel, edit-DoneChange}
use ensync.Server.KeyMgmt.DoneGroups.{
  edit-DoneCreate, edit-DoneAssoc, edit-DoneDisassoc, edit-destroy_group,
}
use ensync.Server.KeyMgmt.Held.{
  listed, bind-ok, ok-eq, refuse_found-ok, find-none, held-put, held-erase, lookup-erase_self,
  key_names-listed, contains_key-new_keys, contains_key-copy_keys, contains_key-add_keys,
  held-take_groups, held-destroy_all,
}

-- The groups that a request is to destroy.
abbrev pub destroys : Text → Request → Bool
destroys g (destroy_group names) = listed g names
destroys g (add_key old_passphrase new_passphrase new_name) = false
destroys g (del_key name) = false
destroys g (change_key old_passphrase new_passphrase name allow) = false
destroys g (create_group passphrase names) = false
destroys g (assoc_group src_passphrase dst_passphrase names) = false
destroys g (disassoc_group key names) = false

-- No request that passes its first check is to destroy the groups `everyone` and `root`.
check-destroys :
    (g : Text) (r : Request)
    → check r ≡ ok tt
    → (g ≡ group_everyone) ⊎ (g ≡ group_root)
    → destroys g r ≡ false
unfolding check
check-destroys g (destroy_group names) h o = elim (Bool-cases (listed g names)) [
  | inr l ↦ l
  | inl l ↦
      let p = λ (name : Text). text_eq group_everyone name || text_eq group_root name in
      let f = find-none p names g (refuse_found-ok (find p names) cannot_destroy_group h) l in
      elim o [
        | inl e ↦ absurd (ground (arith, f, text_eq_iff group_everyone g, e))
        | inr e ↦ absurd (ground (arith, f, text_eq_iff group_root g, e))
      ]
]
check-destroys g (add_key old_passphrase new_passphrase new_name) h o = refl
check-destroys g (del_key name) h o = refl
check-destroys g (change_key old_passphrase new_passphrase name allow) h o = refl
check-destroys g (create_group passphrase names) h o = refl
check-destroys g (assoc_group src_passphrase dst_passphrase names) h o = refl
check-destroys g (disassoc_group key names) h o = refl

module _ (sha3 : Bytes → HashId) (scrypt : ℕ → Bytes → HashId → HashId)
    (as_bytes : Text → Bytes) where
  contains_key-reassoc_keys :
      (g : Text) (e : KdfEntry) (kc : KeyChain)
      → contains_key g ((reassoc_keys sha3 scrypt as_bytes e kc).groups) ≡ contains_key g kc.keys
  unfolding reassoc_keys
  contains_key-reassoc_keys g e kc = contains_key-masked sha3 scrypt as_bytes g kc.derived kc.keys

  contains_key-create_key :
      (g : Text) (passphrase : Bytes) (kc : KeyChain) (created : ℕ) (updated : Option ℕ)
      (salt : HashId)
      → contains_key g ((create_key sha3 scrypt as_bytes passphrase kc created updated salt).groups)
        ≡ contains_key g kc.keys
  unfolding create_key reassoc_keys
  contains_key-create_key g passphrase kc created updated salt =
      contains_key-masked sha3 scrypt as_bytes g _ kc.keys

  held-edit_opened :
      (g : Text) (passphrase : Bytes) (f : KeyChain → Answer (Map HashId)) (list : KdfList)
      (w : KdfList × KeyChain)
      → ((kc : KeyChain) (keys : Map HashId)
          → f kc ≡ ok keys
          → contains_key g kc.keys ≡ true
          → contains_key g keys ≡ true)
      → edit_opened sha3 scrypt as_bytes passphrase f list ≡ ok w
      → held g list ≡ true
      → held g w.0 ≡ true
  unfolding edit_opened held
  held-edit_opened g passphrase f [] w k h q = cc
  held-edit_opened g passphrase f ((name, e) ∷ list) w k h q =
      elim (Option-cases (try_derive_key_single sha3 scrypt as_bytes passphrase e)) [
        | inl n ↦
            let (v, a, b) =
              bind-ok (edit_opened sha3 scrypt as_bytes passphrase f list)
                (λ (w : KdfList × KeyChain). ok ((name, e) ∷ w.0, w.1)) w (ground (arith, n, h)) in
            subst (λ (w : KdfList × KeyChain). held g w.0 ≡ true) (ok-eq ((name, e) ∷ v.0, v.1) w b)
              (ground (arith, held-edit_opened g passphrase f list v k a))
        | inr (kc, n) ↦
            let (keys, a, b) =
              bind-ok (f kc)
                (λ keys. ok (
                  (name, reassoc_keys sha3 scrypt as_bytes e (record kc { keys = keys })) ∷ list,
                  kc,
                ))
                w (ground (arith, n, h)) in
            subst (λ (w : KdfList × KeyChain). held g w.0 ≡ true)
              (ok-eq
                ((name, reassoc_keys sha3 scrypt as_bytes e (record kc { keys = keys })) ∷ list, kc)
                w b)
              (ground (
                arith,
                k kc keys a,
                contains_key-reassoc_keys g e (record kc { keys = keys }),
                try_derive_key_single-groups sha3 scrypt as_bytes g passphrase e kc n,
              ))
      ]

  -- A group that some passphrase has keeps one, whatever edit is made, unless the request is to
  -- destroy this very group. No two entries of the list have the same name.
  pub edit-held :
      (g : Text) (r : Request) (m : Moment) (s t : Edited)
      → IsUnique s.list
      → edit sha3 scrypt as_bytes r m s ≡ ok t
      → destroys g r ≡ false
      → held g s.list ≡ true
      → held g t.list ≡ true
  unfolding lookup
  edit-held g (add_key old_passphrase new_passphrase new_name) m s t u h n q =
      let d = edit-DoneAdd sha3 scrypt as_bytes old_passphrase new_passphrase new_name m s t h in
      subst (λ (t : Edited). held g t.list ≡ true) d.is
        (ground (
          arith,
          held-put g new_name
              (create_key sha3 scrypt as_bytes new_passphrase d.kc m.now none (m.random 0)) s.list
              d.unused,
          q,
        ))
  edit-held g (del_key name) m s t u h n q =
      let d = edit-DoneDel sha3 scrypt as_bytes name m s t h in
      subst (λ (t : Edited). held g t.list ≡ true) d.is
        (ground (arith, held-erase g name d.entry s.list u d.found, q, d.covered g))
  edit-held g (change_key old_passphrase new_passphrase name allow) m s t u h n q =
      let d =
        edit-DoneChange sha3 scrypt as_bytes old_passphrase new_passphrase name allow m s t h in
      let e =
        create_key sha3 scrypt as_bytes new_passphrase (record empty_chain { keys = d.keys })
          d.entry.created (some m.now) (m.random 0) in
      let same : contains_key g e.groups ≡ contains_key g d.entry.groups =
        contains_key-create_key g new_passphrase (record empty_chain { keys = d.keys })
          d.entry.created (some m.now) (m.random 0)
        ∙ contains_key-copy_keys g d.kc (key_names d.entry.groups) [] d.keys d.copied
        ∙ sym (key_names-listed g d.entry.groups) in
      subst (λ (t : Edited). held g t.list ≡ true) d.is
        (held-put g d.real e (erase d.real s.list) (lookup-erase_self d.real s.list)
          ∙ ap (λ b. b || held g (erase d.real s.list)) same
          ∙ sym (held-erase g d.real d.entry s.list u d.found)
          ∙ q)
  edit-held g (create_group passphrase names) m s t u h n q =
      let d = edit-DoneCreate sha3 scrypt as_bytes passphrase names m s t h in
      subst (λ (t : Edited). held g t.list ≡ true) d.is
        (held-edit_opened g passphrase (λ kc. ok (new_keys m.random 0 names kc.keys)) s.list
          d.result
          (λ kc keys e c.
            subst (λ m. contains_key g m ≡ true) (ok-eq _ keys e)
              (contains_key-new_keys g m.random 0 names kc.keys c))
          d.opened q)
  edit-held g (assoc_group src_passphrase dst_passphrase names) m s t u h n q =
      let d = edit-DoneAssoc sha3 scrypt as_bytes src_passphrase dst_passphrase names m s t h in
      subst (λ (t : Edited). held g t.list ≡ true) d.is
        (held-edit_opened g dst_passphrase (λ kc. add_keys d.src names kc.keys) s.list d.result
          (λ kc keys e c. contains_key-add_keys g d.src names kc.keys keys e c) d.opened q)
  edit-held g (disassoc_group key names) m s t u h n q =
      let d = edit-DoneDisassoc sha3 scrypt as_bytes key names m s t h in
      elim (Bool-cases (listed g names)) [
        | inl l ↦ d.covered g l
        | inr l ↦ held-take_groups g key names s.list t.list d.taken l ∙ q
      ]
  edit-held g (destroy_group names) m s t u h n q =
      held-destroy_all g names s.list t.list
        ((edit-destroy_group sha3 scrypt as_bytes names m s t h).0) n
      ∙ q
