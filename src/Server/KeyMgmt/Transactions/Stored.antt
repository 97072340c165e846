-- ===== src/Server/KeyMgmt/Transactions/Stored.antt =====
-- src/server/keymgmt.rs: how the list is read from the storage, and what is scheduled to write it.
use ensync.Base.{
  ℕ, ◌%◌, ◌^◌, ◌≡◌, refl, sym, ap, ◌∙◌, Option, none, some, List, [], ◌∷◌, ◌++◌, length, arith,
}
use mathlib.Core.Path.{subst}
use ensync.Base.Text.{Text, Bytes}
use ensync.FileData.{HashId}
use ensync.Server.Storage.{Storage, Op, make, remove, IsTransactional}
use ensync.Server.Crypt.{KdfList, secret_dir_ver}
use ensync.Server.KeyMgmt.{Answer, ok}
use ensync.Server.KeyMgmt.Transactions.{
  dirid_keys, lift, decoded, get_kdflist, remove_old, put_kdflist,
}
use ensync.Server.KeyMgmt.Transactions.Atomic.{bind-ok_lem, Untouched, bind-Untouched}

pub lift-ok :
    {W A : Type 0} (r : Answer A) (a : A) (w w' : W)
    → lift {W = W} r w ≡ (ok a, w')
    → (r ≡ ok a) × (w ≡ w')
lift-ok {W = W} {A = A} r a w w' h =
    (ap (λ (p : Answer A × W). p.0) h, ap (λ (p : Answer A × W). p.1) h)

pub scheduled :
    (rm : ℕ → Op) (mk : Op) (m n : ℕ) (start middle end' : List Op)
    → start ≡ []
    → middle ≡ (start ++ rm m ∷ []) ++ mk ∷ []
    → middle ≡ end'
    → m ≡ n
    → end' ≡ rm n ∷ mk ∷ []
scheduled rm mk m n start middle end' s h e q = cc

module _ {W : Type 0} (storage : Storage W) (tx : IsTransactional storage 0)
    (decode : Bytes → Answer KdfList) (encode : KdfList → Answer Bytes) where
  lift-Untouched : {A : Type 0} (r : Answer A) → Untouched storage tx (lift r)
  lift-Untouched r w = refl

  pub get_kdflist-Untouched : Untouched storage tx (get_kdflist storage decode encode)
  unfolding get_kdflist decoded
  get_kdflist-Untouched =
      bind-Untouched storage tx (storage.getdir dirid_keys) (decoded storage decode encode)
        (tx.getdir_applied dirid_keys) decoded-Untouched
    where
      decoded-Untouched :
          (o : Option (HashId × Bytes)) → Untouched storage tx (decoded storage decode encode o)
      decoded-Untouched none w = refl
      decoded-Untouched (some (ver, data')) w =
          bind-Untouched storage tx (lift (decode data'))
            (λ kdf. lift (ok (some (kdf, ver, length data' % 2 ^ 32))))
            (lift-Untouched (decode data')) (λ kdf w. refl) w

  -- The directory that a list was read from.
  pub record Read (o : KdfList × HashId × ℕ) (w v : W) : Type 0 where
    pub data' : Bytes
    pub read : (storage.getdir dirid_keys w).0 ≡ ok (some (o.1, data'))
    pub decodes : decode data' ≡ ok o.0
    pub size : o.2 ≡ length data' % 2 ^ 32
    pub buffer : tx.buffer v ≡ tx.buffer w

  pub get_kdflist-Read :
      (o : KdfList × HashId × ℕ) (w v : W)
      → get_kdflist storage decode encode w ≡ (ok (some o), v)
      → Read o w v
  unfolding get_kdflist decoded
  get_kdflist-Read o w v h =
      let (d, u, e, k) =
        bind-ok_lem (storage.getdir dirid_keys) (decoded storage decode encode) w v (some o) h in
      go d u e k
    where
      go :
          (d : Option (HashId × Bytes)) (u : W)
          → storage.getdir dirid_keys w ≡ (ok d, u)
          → decoded storage decode encode d u ≡ (ok (some o), v)
          → Read o w v
      go none u e k =
          absurd (none-apart (ap (λ (p : Answer (Option (KdfList × HashId × ℕ)) × W). p.0) k))
        where
          none-apart : ok none ≡ ok (some o) → ⊥
          none-apart q = cc
      go (some (ver, data')) u e k =
          let (kdf, z, a, b) =
            bind-ok_lem (lift (decode data'))
              (λ kdf. lift (ok (some (kdf, ver, length data' % 2 ^ 32)))) u v (some o) k in
          let (c, d) = lift-ok (decode data') kdf u z a in
          let (f, g) = lift-ok (ok (some (kdf, ver, length data' % 2 ^ 32))) (some o) z v b in
          let same : ◌≡◌ {A = KdfList × HashId × ℕ} (kdf, ver, length data' % 2 ^ 32) o =
            ground arith in
          subst (λ o. Read o w v) same
            (record {
              data' = data';
              read = ap (λ (p : Answer (Option (HashId × Bytes)) × W). p.0) e;
              decodes = c;
              size = refl;
              buffer =
                  ap (λ w. tx.buffer w) (sym (d ∙ g))
                  ∙ ap (λ (p : Answer (Option (HashId × Bytes)) × W). tx.buffer p.1) (sym e)
                  ∙ tx.getdir dirid_keys w;
            })

  module _ (sha3 : Bytes → HashId) (scrypt : ℕ → Bytes → HashId → HashId)
      (as_bytes : Text → Bytes) where
    pub put_kdflist-Untouched :
        (v : HashId) (kdf : KdfList) (o : HashId × ℕ) (key : HashId)
        → Untouched storage tx
            (put_kdflist storage decode encode sha3 scrypt as_bytes v kdf (some o) key)
    unfolding put_kdflist remove_old
    put_kdflist-Untouched v kdf o key =
        bind-Untouched storage tx (lift (encode kdf)) _ (lift-Untouched (encode kdf)) (λ d.
          bind-Untouched storage tx
            (storage.rmdir 0 dirid_keys (secret_dir_ver sha3 scrypt as_bytes o.0 key) o.1) _
            (tx.rmdir_applied dirid_keys (secret_dir_ver sha3 scrypt as_bytes o.0 key) o.1)
            (λ _.
              bind-Untouched storage tx
                (storage.mkdir 0 dirid_keys v (secret_dir_ver sha3 scrypt as_bytes v key) d) _
                (tx.mkdir_applied dirid_keys v (secret_dir_ver sha3 scrypt as_bytes v key) d)
                (λ _ w. refl)))

    -- What `put_kdflist` schedules.
    pub record Put (v : HashId) (kdf : KdfList) (o : HashId × ℕ) (key : HashId) (w w' : W)
        : Type 0 where
      pub new_data : Bytes
      pub encodes : encode kdf ≡ ok new_data
      pub buffer :
          tx.buffer w'
          ≡ (tx.buffer w
              ++ remove dirid_keys (secret_dir_ver sha3 scrypt as_bytes o.0 key) o.1 ∷ [])
            ++ make dirid_keys v (secret_dir_ver sha3 scrypt as_bytes v key) new_data ∷ []

    pub put_kdflist-Put :
        (v : HashId) (kdf : KdfList) (o : HashId × ℕ) (key : HashId) (r : HashId × ℕ) (w w' : W)
        → put_kdflist storage decode encode sha3 scrypt as_bytes v kdf (some o) key w ≡ (ok r, w')
        → Put v kdf o key w w'
    unfolding put_kdflist remove_old
    put_kdflist-Put v kdf o key r w w' h =
        let sv = secret_dir_ver sha3 scrypt as_bytes o.0 key in
        let nv = secret_dir_ver sha3 scrypt as_bytes v key in
        let (d, w1, a, b) = bind-ok_lem (lift (encode kdf)) _ w w' r h in
        let (_, w2, c, e) = bind-ok_lem (storage.rmdir 0 dirid_keys sv o.1) _ w1 w' r b in
        let (_, w3, f, g) = bind-ok_lem (storage.mkdir 0 dirid_keys v nv d) _ w2 w' r e in
        let (i, j) = lift-ok (encode kdf) d w w1 a in
        let (_, k) = lift-ok (ok (v, length d % 2 ^ 32)) r w3 w' g in
        record {
          new_data = d;
          encodes = i;
          buffer =
              ap (λ w. tx.buffer w) (sym k)
              ∙ tx.mkdir dirid_keys v nv d w2 w3 f
              ∙ ap (λ l. l ++ make dirid_keys v nv d ∷ [])
                  (tx.rmdir dirid_keys sv o.1 w1 w2 c
                    ∙ ap (λ w. tx.buffer w ++ remove dirid_keys sv o.1 ∷ []) (sym j));
        }
