-- ===== src/Server/KeyMgmt/Done.antt =====
-- src/server/keymgmt.rs: what an edit found, and what it made, when it was not refused.
use ensync.Base.{ℕ, ◌≡◌, refl, sym, ap, ◌∙◌, Bool, true, false, not, Option, none, some, [], ◌∷◌}
use mathlib.Core.Path.{subst}
use ensync.Base.Text.{Text, Bytes}
use ensync.Base.Map.{Map, lookup, is_some, contains_key, erase}
use ensync.FileData.{HashId}
use ensync.Server.Ordered.{put, remove}
use ensync.Server.Crypt.{KdfEntry, KeyChain, empty_chain, create_key, try_derive_key}
use ensync.Server.KeyMgmt.{
  KeyError, ok, or_err, refuse_if, refuse_found, find, held, key_names, copy_keys, chain_root,
  Moment, Edited, add_key, del_key, change_key, edit, edit_add_key, edit_del_key, edit_change_key,
  change_chain, real_name, passphrase_not_in_kdf_list, passphrase_in_kdf_list,
  key_name_already_in_use, key_not_in_kdf_list, would_remove_last_kdf_entry,
  would_disassoc_last_key_from_group,
}
use ensync.Server.KeyMgmt.Held.{
  bind-ok, ok-eq, or_err-ok, refuse_found-ok, find-none, key_names-listed, remove-ok,
}

not_some : {A : Type 0} (o : Option A) (e : KeyError) → refuse_if (is_some o) e ≡ ok tt → o ≡ none
not_some none e h = refl
not_some (some a) e h = cc

pub of_not : (b : Bool) → not b ≡ false → b ≡ true
of_not true h = refl
of_not false h = cc

module _ (sha3 : Bytes → HashId) (scrypt : ℕ → Bytes → HashId → HashId)
    (as_bytes : Text → Bytes) where
  pub record DoneAdd (old_passphrase new_passphrase : Bytes) (new_name : Text) (m : Moment)
      (s t : Edited) : Type 0 where
    pub kc : KeyChain
    pub derives : try_derive_key sha3 scrypt as_bytes old_passphrase s.list ≡ some kc
    pub absent : try_derive_key sha3 scrypt as_bytes new_passphrase s.list ≡ none
    pub unused : lookup new_name s.list ≡ none
    pub is :
        record {
          list =
              put new_name
                (create_key sha3 scrypt as_bytes new_passphrase kc m.now none (m.random 0))
                s.list;
          root = chain_root s.root kc;
        }
        ≡ t

  pub edit-DoneAdd :
      (old_passphrase new_passphrase : Bytes) (new_name : Text) (m : Moment) (s t : Edited)
      → edit sha3 scrypt as_bytes (add_key old_passphrase new_passphrase new_name) m s ≡ ok t
      → DoneAdd old_passphrase new_passphrase new_name m s t
  unfolding edit edit_add_key
  edit-DoneAdd old_passphrase new_passphrase new_name m s t h =
      let (kc, a, b) =
        bind-ok
          (or_err (try_derive_key sha3 scrypt as_bytes old_passphrase s.list)
            passphrase_not_in_kdf_list)
          _ t h in
      let (_, c, d) =
        bind-ok
          (refuse_if (is_some (try_derive_key sha3 scrypt as_bytes new_passphrase s.list))
            passphrase_in_kdf_list)
          _ t b in
      let (_, f, i) =
        bind-ok (refuse_if (contains_key new_name s.list) (key_name_already_in_use new_name)) _ t
          d in
      record {
        kc = kc;
        derives =
            or_err-ok (try_derive_key sha3 scrypt as_bytes old_passphrase s.list)
              passphrase_not_in_kdf_list kc a;
        absent =
            not_some (try_derive_key sha3 scrypt as_bytes new_passphrase s.list)
              passphrase_in_kdf_list c;
        unused = not_some (lookup new_name s.list) (key_name_already_in_use new_name) f;
        is = ok-eq _ t i;
      }

  pub record DoneDel (name : Text) (s t : Edited) : Type 0 where
    pub entry : KdfEntry
    pub found : lookup name s.list ≡ some entry
    pub covered :
        (g : Text) → contains_key g entry.groups ≡ true → held g (erase name s.list) ≡ true
    pub is : record { list = erase name s.list; root = s.root } ≡ t

  pub edit-DoneDel :
      (name : Text) (m : Moment) (s t : Edited)
      → edit sha3 scrypt as_bytes (del_key name) m s ≡ ok t
      → DoneDel name s t
  unfolding edit edit_del_key
  edit-DoneDel name m s t h =
      let (w, a, b) = bind-ok (or_err (remove name s.list) (key_not_in_kdf_list name)) _ t h in
      let (_, c, d) =
        bind-ok (refuse_if (elim w.1 [ [] ↦ true | x ∷ l ↦ false ]) would_remove_last_kdf_entry) _ t
          b in
      let (_, f, i) =
        bind-ok
          (refuse_found (find (λ g. not (held g w.1)) (key_names w.0.groups))
            (would_disassoc_last_key_from_group name))
          _ t d in
      let (j, k) =
        remove-ok name s.list w.1 w.0
          (or_err-ok (remove name s.list) (key_not_in_kdf_list name) w a) in
      record {
        entry = w.0;
        found = j;
        covered = λ g n.
            subst (λ l. held g l ≡ true) (sym k)
              (of_not (held g w.1) (
                find-none (λ g. not (held g w.1)) (key_names w.0.groups) g
                  (refuse_found-ok (find (λ g. not (held g w.1)) (key_names w.0.groups))
                    (would_disassoc_last_key_from_group name) f)
                  (sym (key_names-listed g w.0.groups) ∙ n)));
        is = ap (λ l. record { list = l; root = s.root }) k ∙ ok-eq _ t i;
      }

  pub record DoneChange (old_passphrase new_passphrase : Bytes) (name : Option Text) (allow : Bool)
      (m : Moment) (s t : Edited) : Type 0 where
    pub real : Text
    pub named : real_name name s.list ≡ ok real
    pub entry : KdfEntry
    pub kc : KeyChain
    pub keys : Map HashId
    pub found : lookup real s.list ≡ some entry
    pub absent : try_derive_key sha3 scrypt as_bytes new_passphrase (erase real s.list) ≡ none
    pub chain :
        change_chain sha3 scrypt as_bytes old_passphrase entry (erase real s.list) allow ≡ ok kc
    pub copied : copy_keys kc (key_names entry.groups) [] ≡ ok keys
    pub is :
        record {
          list =
              put real
                (create_key sha3 scrypt as_bytes new_passphrase
                  (record empty_chain { keys = keys })
                  entry.created
                  (some m.now)
                  (m.random 0))
                (erase real s.list);
          root = chain_root s.root kc;
        }
        ≡ t

  pub edit-DoneChange :
      (old_passphrase new_passphrase : Bytes) (name : Option Text) (allow : Bool) (m : Moment)
      (s t : Edited)
      → edit sha3 scrypt as_bytes (change_key old_passphrase new_passphrase name allow) m s ≡ ok t
      → DoneChange old_passphrase new_passphrase name allow m s t
  unfolding edit edit_change_key
  edit-DoneChange old_passphrase new_passphrase name allow m s t h =
      let (real, n0, b) = bind-ok (real_name name s.list) _ t h in
      let (w, c, d) = bind-ok (or_err (remove real s.list) (key_not_in_kdf_list real)) _ t b in
      let (_, f, i) =
        bind-ok
          (refuse_if (is_some (try_derive_key sha3 scrypt as_bytes new_passphrase w.1))
            passphrase_in_kdf_list)
          _ t d in
      let (kc, n, o) =
        bind-ok (change_chain sha3 scrypt as_bytes old_passphrase w.0 w.1 allow) _ t i in
      let (keys, p, q) = bind-ok (copy_keys kc (key_names w.0.groups) []) _ t o in
      let (j, k) =
        remove-ok real s.list w.1 w.0
          (or_err-ok (remove real s.list) (key_not_in_kdf_list real) w c) in
      record {
        real = real;
        named = n0;
        entry = w.0;
        kc = kc;
        keys = keys;
        found = j;
        absent =
            subst (λ l. try_derive_key sha3 scrypt as_bytes new_passphrase l ≡ none) (sym k)
              (not_some (try_derive_key sha3 scrypt as_bytes new_passphrase w.1)
                passphrase_in_kdf_list f);
        chain =
            subst (λ l. change_chain sha3 scrypt as_bytes old_passphrase w.0 l allow ≡ ok kc)
              (sym k) n;
        copied = p;
        is =
            ap
              (λ l. record {
                list =
                    put real
                      (create_key sha3 scrypt as_bytes new_passphrase
                        (record empty_chain { keys = keys }) w.0.created (some m.now) (m.random 0))
                      l;
                root = chain_root s.root kc;
              })
              k
            ∙ ok-eq _ t q;
      }
