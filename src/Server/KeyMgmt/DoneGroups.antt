-- ===== src/Server/KeyMgmt/DoneGroups.antt =====
-- src/server/keymgmt.rs: what an edit of groups found, and what it made, when it was not refused.
use ensync.Base.{ℕ, ◌≡◌, ap, ◌∙◌, true, false, not, some, List}
use mathlib.Core.Path.{subst}
use ensync.Base.Text.{Text, Bytes}
use ensync.FileData.{HashId}
use ensync.Server.Crypt.{KdfList, KeyChain, try_derive_key}
use ensync.Server.KeyMgmt.{
  ok, or_err, refuse_found, find, held, add_keys, new_keys, take_groups, destroy_all, chain_root,
  Moment, Edited, create_group, assoc_group, disassoc_group, destroy_group, edit, edit_create_group,
  edit_assoc_group, edit_disassoc_group, edit_destroy_group, edit_opened,
  passphrase_not_in_kdf_list, would_disassoc_last_key_from_group, group_name_already_in_use,
}
use ensync.Server.KeyMgmt.Held.{listed, bind-ok, ok-eq, or_err-ok, refuse_found-ok, find-none}
use ensync.Server.KeyMgmt.Done.{of_not}

module _ (sha3 : Bytes → HashId) (scrypt : ℕ → Bytes → HashId → HashId)
    (as_bytes : Text → Bytes) where
  pub record DoneCreate (passphrase : Bytes) (names : List Text) (m : Moment) (s t : Edited)
      : Type 0 where
    pub result : KdfList × KeyChain
    pub unused : (g : Text) → listed g names ≡ true → held g s.list ≡ false
    pub opened :
        edit_opened sha3 scrypt as_bytes passphrase
          (λ kc. ok (new_keys m.random 0 names kc.keys))
          s.list
        ≡ ok result
    pub is : record { list = result.0; root = chain_root s.root result.1 } ≡ t

  pub edit-DoneCreate :
      (passphrase : Bytes) (names : List Text) (m : Moment) (s t : Edited)
      → edit sha3 scrypt as_bytes (create_group passphrase names) m s ≡ ok t
      → DoneCreate passphrase names m s t
  unfolding edit edit_create_group
  edit-DoneCreate passphrase names m s t h =
      let (_, a, b) =
        bind-ok (refuse_found (find (λ g. held g s.list) names) group_name_already_in_use) _ t h in
      let (w, c, d) =
        bind-ok
          (edit_opened sha3 scrypt as_bytes passphrase
            (λ kc. ok (new_keys m.random 0 names kc.keys)) s.list)
          _ t b in
      record {
        result = w;
        unused = λ g.
            find-none (λ g. held g s.list) names g
              (refuse_found-ok (find (λ g. held g s.list) names) group_name_already_in_use a);
        opened = c;
        is = ok-eq _ t d;
      }

  pub record DoneAssoc (src_passphrase dst_passphrase : Bytes) (names : List Text) (s t : Edited)
      : Type 0 where
    pub src : KeyChain
    pub result : KdfList × KeyChain
    pub derives : try_derive_key sha3 scrypt as_bytes src_passphrase s.list ≡ some src
    pub opened :
        edit_opened sha3 scrypt as_bytes dst_passphrase (λ kc. add_keys src names kc.keys) s.list
        ≡ ok result
    pub is : record { list = result.0; root = chain_root (chain_root s.root src) result.1 } ≡ t

  pub edit-DoneAssoc :
      (src_passphrase dst_passphrase : Bytes) (names : List Text) (m : Moment) (s t : Edited)
      → edit sha3 scrypt as_bytes (assoc_group src_passphrase dst_passphrase names) m s ≡ ok t
      → DoneAssoc src_passphrase dst_passphrase names s t
  unfolding edit edit_assoc_group
  edit-DoneAssoc src_passphrase dst_passphrase names m s t h =
      let (src, a, b) =
        bind-ok
          (or_err (try_derive_key sha3 scrypt as_bytes src_passphrase s.list)
            passphrase_not_in_kdf_list)
          _ t h in
      let (w, c, d) =
        bind-ok
          (edit_opened sha3 scrypt as_bytes dst_passphrase (λ kc. add_keys src names kc.keys)
            s.list)
          _ t b in
      record {
        src = src;
        result = w;
        derives =
            or_err-ok (try_derive_key sha3 scrypt as_bytes src_passphrase s.list)
              passphrase_not_in_kdf_list src a;
        opened = c;
        is = ok-eq _ t d;
      }

  pub record DoneDisassoc (key : Text) (names : List Text) (s t : Edited) : Type 0 where
    pub taken : take_groups key names s.list ≡ ok t.list
    pub covered : (g : Text) → listed g names ≡ true → held g t.list ≡ true
    pub same_root : s.root ≡ t.root

  pub edit-DoneDisassoc :
      (key : Text) (names : List Text) (m : Moment) (s t : Edited)
      → edit sha3 scrypt as_bytes (disassoc_group key names) m s ≡ ok t
      → DoneDisassoc key names s t
  unfolding edit edit_disassoc_group
  edit-DoneDisassoc key names m s t h =
      let (l, a, b) = bind-ok (take_groups key names s.list) _ t h in
      let (_, c, d) =
        bind-ok
          (refuse_found (find (λ g. not (held g l)) names) (would_disassoc_last_key_from_group key))
          _ t b in
      let n =
        refuse_found-ok (find (λ g. not (held g l)) names) (would_disassoc_last_key_from_group key)
          c in
      let k : l ≡ t.list = ap (λ (t : Edited). t.list) (ok-eq _ t d) in
      record {
        taken = a ∙ ap (λ l. ok l) k;
        covered = λ g i.
            subst (λ l. held g l ≡ true) k
              (of_not (held g l) (find-none (λ g. not (held g l)) names g n i));
        same_root = ap (λ (t : Edited). t.root) (ok-eq _ t d);
      }

  pub edit-destroy_group :
      (names : List Text) (m : Moment) (s t : Edited)
      → edit sha3 scrypt as_bytes (destroy_group names) m s ≡ ok t
      → (destroy_all names s.list ≡ ok t.list) × (s.root ≡ t.root)
  unfolding edit edit_destroy_group
  edit-destroy_group names m s t h =
      let (l, a, b) = bind-ok (destroy_all names s.list) _ t h in
      (a ∙ ap (λ (t : Edited). ok t.list) (ok-eq _ t b), ap (λ (t : Edited). t.root) (ok-eq _ t b))
