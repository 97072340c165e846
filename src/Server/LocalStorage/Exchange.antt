-- ===== src/Server/LocalStorage/Exchange.antt =====
-- src/server/local_storage.rs: a directory is removed and made again in one transaction.
use ensync.Base.{
  ℕ, ◌^◌, ◌<◌, ◌≡◌, refl, sym, ap, ◌∙◌, ◌==◌, Bool, true, false, ◌&&◌, Option, none, some, [], ◌∷◌,
  ◌++◌, length, take, arith, Bool-cases, Option-cases, inl, inr,
}
use mathlib.Core.Path.{subst}
use ensync.Base.Text.{Bytes, text_eq, text_eq_refl}
use ensync.Base.Map.{lookup, insert, erase, lookup-insert, lookup-erase, contains_key}
use ensync.FileData.{HashId}
use ensync.Server.Errors.{Answer, ok}
use ensync.Server.LocalStorage.{
  mkdir, rmdir, Row, LocalStorage, read_file, get_ver_for_modify, do_commit, commit, getdir, set_tx,
}

take-length : (b : Bytes) → take (length b) b ≡ b
take-length [] = refl
take-length (x ∷ b) = ap (λ l. x ∷ l) (take-length b)

read_file-all : (b : Bytes) → length b < 2 ^ 32 → read_file (length b) (some b) ≡ ok b
unfolding read_file
read_file-all b h = ground (arith, h, take-length b)

-- Whether the row has the secret version and the length.
abbrev pub is_current : Option Row → HashId → ℕ → Bool
is_current none sver n = false
is_current (some row) sver n = text_eq row.sver sver && (row.len == n)

module _ (sha3 : Bytes → HashId) where
  abbrev pub Exchanged :
      HashId → HashId → Bytes → LocalStorage → Answer Bool × LocalStorage → Bool → Type 0
  Exchanged id v b s r true = (r.0 ≡ ok true) × (getdir sha3 id r.1 ≡ ok (some (v, b)))
  Exchanged id v b s r false = (r.0 ≡ ok false) × (r.1.disk ≡ s.disk)

  -- The state after the exchange of a row.
  exchanged : HashId → HashId → HashId → Bytes → HashId → ℕ → LocalStorage → LocalStorage
  exchanged id v nv b old tx s = record {
    disk = record s.disk {
      dirs = insert id (record { ver = v; sver = nv; len = length b }) (erase id s.disk.dirs);
      dir_files = erase old (insert (sha3 (id ++ v)) b s.disk.dir_files);
    };
    txns = set_tx tx none s.txns;
  }

  commit-current :
      (tx : ℕ) (id sv v nv : HashId) (n : ℕ) (b : Bytes) (s : LocalStorage) (row : Row)
      → s.txns tx ≡ some (rmdir id sv n ∷ mkdir id v nv b ∷ [])
      → get_ver_for_modify s.disk.dirs id sv n ≡ some row.ver
      → commit sha3 tx s ≡ (ok true, exchanged id v nv b (sha3 (id ++ row.ver)) tx s)
  unfolding commit do_commit exchanged
  commit-current tx id sv v nv n b s row t g =
      let a : contains_key id (erase id s.disk.dirs) ≡ false =
        ground (arith, lookup-erase id id s.disk.dirs, text_eq_refl id) in
      ground (arith, t, g, a)

  commit-outdated :
      (tx : ℕ) (id sv v nv : HashId) (n : ℕ) (b : Bytes) (s : LocalStorage)
      → s.txns tx ≡ some (rmdir id sv n ∷ mkdir id v nv b ∷ [])
      → get_ver_for_modify s.disk.dirs id sv n ≡ none
      → commit sha3 tx s ≡ (ok false, record s { txns = set_tx tx none s.txns })
  unfolding commit do_commit
  commit-outdated tx id sv v nv n b s t g = ground (arith, t, g)

  getdir-exchanged :
      (id v nv : HashId) (b : Bytes) (old : HashId) (tx : ℕ) (s : LocalStorage)
      → text_eq old (sha3 (id ++ v)) ≡ false
      → length b < 2 ^ 32
      → getdir sha3 id (exchanged id v nv b old tx s) ≡ ok (some (v, b))
  unfolding getdir exchanged
  getdir-exchanged id v nv b old tx s h k =
      let new : Row = record { ver = v; sver = nv; len = length b } in
      let path = sha3 (id ++ v) in
      let a : lookup id (insert id new (erase id s.disk.dirs)) ≡ some new =
        ground (arith, lookup-insert id id new (erase id s.disk.dirs), text_eq_refl id) in
      let c : lookup path (erase old (insert path b s.disk.dir_files)) ≡ some b = ground (
        arith,
        h,
        lookup-erase path old (insert path b s.disk.dir_files),
        lookup-insert path path b s.disk.dir_files,
        text_eq_refl path,
      ) in
      ground (arith, a, c, read_file-all b k)

  -- A transaction that removes a directory and makes it again is applied just if the directory has the
  -- secret version and the length that it names: then the new version and contents are read, and else
  -- the disk is as it was. The hash of the id and the new version is not that of the old one, and
  -- the contents are of less than 2^32 bytes.
  pub commit-Exchanged :
      (tx : ℕ) (id sv v nv : HashId) (n : ℕ) (b : Bytes) (s : LocalStorage)
      → s.txns tx ≡ some (rmdir id sv n ∷ mkdir id v nv b ∷ [])
      → ((row : Row)
          → lookup id s.disk.dirs ≡ some row
          → text_eq (sha3 (id ++ row.ver)) (sha3 (id ++ v)) ≡ false)
      → length b < 2 ^ 32
      → Exchanged id v b s (commit sha3 tx s) (is_current (lookup id s.disk.dirs) sv n)
  unfolding get_ver_for_modify
  commit-Exchanged tx id sv v nv n b s t w k = elim (Option-cases (lookup id s.disk.dirs)) [
    | inl e ↦
        subst (λ o. Exchanged id v b s (commit sha3 tx s) (is_current o sv n)) (sym e)
          (outdated (commit-outdated tx id sv v nv n b s t (ground (arith, e))))
    | inr (row, e) ↦
        subst (λ o. Exchanged id v b s (commit sha3 tx s) (is_current o sv n)) (sym e)
          (elim (Bool-cases (text_eq row.sver sv && (row.len == n))) [
            | inl c ↦
                subst (λ z. Exchanged id v b s (commit sha3 tx s) z) (sym c)
                  (let r = commit-current tx id sv v nv n b s row t (ground (arith, e, c)) in
                    (
                      ap (λ (p : Answer Bool × LocalStorage). p.0) r,
                      ap (λ (p : Answer Bool × LocalStorage). getdir sha3 id p.1) r
                          ∙ getdir-exchanged id v nv b (sha3 (id ++ row.ver)) tx s (w row e) k,
                    ))
            | inr c ↦
                subst (λ z. Exchanged id v b s (commit sha3 tx s) z) (sym c)
                  (outdated (commit-outdated tx id sv v nv n b s t (ground (arith, e, c))))
          ])
  ]
    where
      outdated :
          commit sha3 tx s ≡ (ok false, record s { txns = set_tx tx none s.txns })
          → Exchanged id v b s (commit sha3 tx s) false
      outdated r = (
        ap (λ (p : Answer Bool × LocalStorage). p.0) r,
        ap (λ (p : Answer Bool × LocalStorage). p.1.disk) r,
      )
