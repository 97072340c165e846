-- ===== src/Server/KeyMgmt/Transactions/Swap.antt =====
-- src/server/keymgmt.rs: an edit of the list is one exchange of the directory that it is kept in.
use ensync.Base.{
  ℕ, ◌%◌, ◌^◌, ◌≡◌, refl, sym, ap, ◌∙◌, Option, none, some, List, [], ◌∷◌, length, inl,
}
use mathlib.Core.Path.{subst}
use ensync.Base.Text.{Text, text, Bytes}
use ensync.FileData.{HashId}
use ensync.Server.Storage.{Storage, Op, make, remove, IsTransactional}
use ensync.Server.Crypt.{KdfList, secret_dir_ver}
use ensync.Server.KeyMgmt.{
  kdf_list_not_exists, other, Answer, ok, err, or_err, find_root, Moment, Edited, Request, check,
  edit,
}
use ensync.Server.KeyMgmt.Held.{or_err-ok}
use ensync.Server.KeyMgmt.Transactions.{
  dirid_keys, ◌>>=◌, lift, get_kdflist, put_kdflist, edit_round, edit_kdflist, perform,
}
use ensync.Server.KeyMgmt.Transactions.Atomic.{
  bind-ok_lem, Untouched, bind-Untouched, Ends, do_tx-Ends,
}
use ensync.Server.KeyMgmt.Transactions.Stored.{
  lift-ok, scheduled, get_kdflist-Untouched, get_kdflist-Read, put_kdflist-Untouched,
  put_kdflist-Put,
}

module _ {W : Type 0} (storage : Storage W) (tx : IsTransactional storage 0)
    (decode : Bytes → Answer KdfList) (encode : KdfList → Answer Bytes) (sha3 : Bytes → HashId)
    (scrypt : ℕ → Bytes → HashId → HashId) (as_bytes : Text → Bytes) (moments : ℕ → Moment)
    (get_root_passphrase : ℕ → Answer Bytes) where
  -- The edit of a list that was read, with what it schedules: the directory of just the version and
  -- length that were read is replaced by one with the edited list, and both secret versions are made
  -- with one key, that of `root`.
  pub record Swap (f : Moment → Edited → Answer Edited) (ops : List Op) : Type 0 where
    pub round : ℕ
    pub cached : Option HashId
    pub list : KdfList
    pub version : HashId
    pub data' : Bytes
    pub edited : Edited
    pub key : HashId
    pub new_data : Bytes
    pub before : W
    pub read : (storage.getdir dirid_keys before).0 ≡ ok (some (version, data'))
    pub decodes : decode data' ≡ ok list
    pub edits : f (moments round) (record { list = list; root = cached }) ≡ ok edited
    pub root : find_root sha3 scrypt as_bytes (get_root_passphrase round) edited ≡ ok (some key)
    pub encodes : encode edited.list ≡ ok new_data
    pub is :
        ops
        ≡ remove dirid_keys
            (secret_dir_ver sha3 scrypt as_bytes version key)
            (length data' % 2 ^ 32)
          ∷ make dirid_keys
              ((moments round).version)
              (secret_dir_ver sha3 scrypt as_bytes ((moments round).version) key)
              new_data
          ∷ []

  module _ (f : Moment → Edited → Answer Edited) where
    edit_round-Untouched :
        (i : ℕ) (root : Option HashId)
        → Untouched storage tx (
            edit_round storage decode encode sha3 scrypt as_bytes moments get_root_passphrase f i
              root)
    unfolding edit_round
    edit_round-Untouched i root =
        bind-Untouched storage tx (get_kdflist storage decode encode) _
          (get_kdflist-Untouched storage tx decode encode)
          (λ found.
            bind-Untouched storage tx (lift (or_err found kdf_list_not_exists)) _ (λ w. refl)
              (λ (old : KdfList × HashId × ℕ).
                bind-Untouched storage tx
                  (lift (f (moments i) (record { list = old.0; root = root }))) _ (λ w. refl)
                  (λ t.
                    bind-Untouched storage tx
                      (lift (find_root sha3 scrypt as_bytes (get_root_passphrase i) t)) _
                      (λ w. refl)
                      (λ root'.
                        bind-Untouched storage tx
                          (lift (or_err root' (other (text "Input key not in `root` group")))) _
                          (λ w. refl)
                          (λ key.
                            bind-Untouched storage tx
                              (put_kdflist storage decode encode sha3 scrypt as_bytes
                                ((moments i).version) t.list (some (old.1, old.2)) key)
                              _
                              (put_kdflist-Untouched storage tx decode encode sha3 scrypt as_bytes
                                ((moments i).version) t.list (old.1, old.2) key)
                              (λ _ w. refl))))))

    edit_round-Swap :
        (i : ℕ) (root root' : Option HashId) (r : Unit {0}) (w w' : W)
        → tx.buffer w ≡ []
        → edit_round storage decode encode sha3 scrypt as_bytes moments get_root_passphrase f i root
            w
          ≡ (ok (r, root'), w')
        → Swap f (tx.buffer w')
    unfolding edit_round
    edit_round-Swap i root root' r w w' b h =
        let (o, w1, a1, h1) = bind-ok_lem (get_kdflist storage decode encode) _ w w' (r, root') h in
        let (old, w2, a2, h2) =
          bind-ok_lem (lift (or_err o kdf_list_not_exists)) _ w1 w' (r, root') h1 in
        let (t, w3, a3, h3) =
          bind-ok_lem (lift (f (moments i) (record { list = old.0; root = root }))) _ w2 w'
            (r, root') h2 in
        let (k, w4, a4, h4) =
          bind-ok_lem (lift (find_root sha3 scrypt as_bytes (get_root_passphrase i) t)) _ w3 w'
            (r, root') h3 in
        let (key, w5, a5, h5) =
          bind-ok_lem (lift (or_err k (other (text "Input key not in `root` group")))) _ w4 w'
            (r, root') h4 in
        let (p, w6, a6, h6) =
          bind-ok_lem
            (put_kdflist storage decode encode sha3 scrypt as_bytes ((moments i).version) t.list
              (some (old.1, old.2)) key)
            _ w5 w' (r, root') h5 in
        let (b2, c2) = lift-ok (or_err o kdf_list_not_exists) old w1 w2 a2 in
        let (b3, c3) = lift-ok (f (moments i) (record { list = old.0; root = root })) t w2 w3 a3 in
        let (b4, c4) =
          lift-ok (find_root sha3 scrypt as_bytes (get_root_passphrase i) t) k w3 w4 a4 in
        let (b5, c5) =
          lift-ok (or_err k (other (text "Input key not in `root` group"))) key w4 w5 a5 in
        let (_, c6) = lift-ok (ok (tt, k)) (r, root') w6 w' h6 in
        let got =
          get_kdflist-Read storage tx decode encode old w w1
            (a1 ∙ ap (λ o. (ok o, w1)) (or_err-ok o kdf_list_not_exists old b2)) in
        let done =
          put_kdflist-Put storage tx decode encode sha3 scrypt as_bytes ((moments i).version) t.list
            (old.1, old.2) key p w5 w6 a6 in
        let rm = λ (n : ℕ). remove dirid_keys (secret_dir_ver sha3 scrypt as_bytes old.1 key) n in
        let mk = λ (d : Bytes).
          make dirid_keys ((moments i).version)
            (secret_dir_ver sha3 scrypt as_bytes ((moments i).version) key) d in
        let start : tx.buffer w5 ≡ [] =
          ap (λ w. tx.buffer w) (sym (c2 ∙ c3 ∙ c4 ∙ c5)) ∙ got.buffer ∙ b in
        record {
          round = i;
          cached = root;
          list = old.0;
          version = old.1;
          data' = got.data';
          edited = t;
          key = key;
          new_data = done.new_data;
          before = w;
          read = got.read;
          decodes = got.decodes;
          edits = b3;
          root =
              b4
              ∙ ap (λ k. ok k) (or_err-ok k (other (text "Input key not in `root` group")) key b5);
          encodes = done.encodes;
          is =
              scheduled rm (mk done.new_data) old.2 (length got.data' % 2 ^ 32) (tx.buffer w5)
                (tx.buffer w6) (tx.buffer w') start done.buffer (ap (λ w. tx.buffer w) c6) got.size;
        }

    edit_kdflist-Swap :
        (a : Answer (Unit {0})) (w w' : W)
        → edit_kdflist storage decode encode sha3 scrypt as_bytes moments get_root_passphrase f w
          ≡ (a, w')
        → Ends storage tx (λ _ ops. Swap f ops) a w w'
    unfolding edit_kdflist
    edit_kdflist-Swap a w w' h =
        do_tx-Ends storage tx (λ _ ops. Swap f ops)
          (edit_round storage decode encode sha3 scrypt as_bytes moments get_root_passphrase f)
          edit_round-Untouched (λ i s t r w w'. edit_round-Swap i s t r w w') none a w w' h

  -- A request that succeeds has applied exactly one transaction: it passed its checks, a list was read,
  -- the request's edit of this list gave another, and the directory of the version and length that were
  -- read was replaced by one with that list; both secret versions are made with one key, the cached one of
  -- `root` or that of the passphrase asked for. A request that fails has applied nothing, unless a commit
  -- answered with the error. Other sessions may write to the storage in the meantime.
  pub perform-Swap :
      (r : Request) (a : Answer (Unit {0})) (w w' : W)
      → perform storage decode encode sha3 scrypt as_bytes moments get_root_passphrase r w ≡ (a, w')
      → Ends storage tx (λ _ ops. (check r ≡ ok tt) × Swap (edit sha3 scrypt as_bytes r) ops) a w w'
  unfolding perform
  perform-Swap r a w w' h = checked (check r) refl h
    where
      with_check :
          (a : Answer (Unit {0}))
          → check r ≡ ok tt
          → Ends storage tx (λ _ ops. Swap (edit sha3 scrypt as_bytes r) ops) a w w'
          → Ends storage tx
              (λ _ ops. (check r ≡ ok tt) × Swap (edit sha3 scrypt as_bytes r) ops)
              a
              w
              w'
      with_check (ok _) c o = record { ops = o.ops; allowed = (c, o.allowed); once = o.once }
      with_check (err e) c o = o

      checked :
          (c : Answer (Unit {0}))
          → check r ≡ c
          → (lift c >>= λ _.
                edit_kdflist storage decode encode sha3 scrypt as_bytes moments get_root_passphrase
                  (edit sha3 scrypt as_bytes r))
              w
            ≡ (a, w')
          → Ends storage tx
              (λ _ ops. (check r ≡ ok tt) × Swap (edit sha3 scrypt as_bytes r) ops)
              a
              w
              w'
      checked (ok _) c k = with_check a c (edit_kdflist-Swap (edit sha3 scrypt as_bytes r) a w w' k)
      checked (err e) c k =
          subst
            (λ (q : Answer (Unit {0}) × W).
              Ends storage tx (λ _ ops. (check r ≡ ok tt) × Swap (edit sha3 scrypt as_bytes r) ops)
                q.0 w q.1)
            k (inl refl)
