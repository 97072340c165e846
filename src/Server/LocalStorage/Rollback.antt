-- ===== src/Server/LocalStorage/Rollback.antt =====
-- src/server/local_storage.rs: what can be read after a transaction that was not applied.
use ensync.Base.{
  ℕ, ◌≡◌, refl, sym, ap, ◌∙◌, ◌≢◌, Bool, true, Option, none, some, List, ◌++◌, ◌⊎◌, arith, All,
  Option-cases, inl, inr,
}
use mathlib.Core.Path.{subst}
use ensync.Base.Text.{Bytes}
use ensync.Base.Map.{Map, lookup}
use ensync.FileData.{HashId}
use ensync.Server.Errors.{Answer, ok}
use ensync.Server.LocalStorage.{
  TxOp, Row, LocalStorage, Commit, applied, refused, failed, read_file, do_commit, commit, getdir,
  end_commit, set_tx,
}
use ensync.Server.LocalStorage.Readable.{
  IsNew, IsMade, Answer-cases, disk_of, Readable, do_commit-Readable,
}

-- A directory of the table has the id and the version, or is to be made with them.
abbrev pub IsNamed : Map Row → List TxOp → HashId → HashId → Type 0
IsNamed dirs ops i v = ((row : Row) × (lookup i dirs ≡ some row) × (row.ver ≡ v)) ⊎ IsMade i v ops

-- The files of these directories are different ones.
abbrev pub IsApart : (Bytes → HashId) → Map Row → List TxOp → Type 0
IsApart sha3 dirs ops =
    (i v j w : HashId)
    → IsNamed dirs ops i v
    → IsNamed dirs ops j w
    → sha3 (i ++ v) ≡ sha3 (j ++ w)
    → (i ≡ j) × (v ≡ w)

module _ (sha3 : Bytes → HashId) where
  -- What can be seen of a storage is as it was.
  pub record IsUnseen (j : HashId) (o : Option (HashId × Bytes)) (s s' : LocalStorage)
      : Type 0 where
    pub dirs : s'.disk.dirs ≡ s.disk.dirs
    pub objs : s'.disk.objs ≡ s.disk.objs
    pub reads : getdir sha3 j s' ≡ ok o

  rolled_back-IsUnseen :
      (ops : List TxOp) (j : HashId) (o : Option (HashId × Bytes)) (s : LocalStorage)
      (txns : ℕ → Option (List TxOp))
      → IsApart sha3 s.disk.dirs ops
      → All (λ op. IsNew s.disk.dirs op) ops
      → getdir sha3 j s ≡ ok o
      → IsUnseen j o s (record {
        disk = record s.disk {
          dir_files = (disk_of (do_commit sha3 ops s.disk)).dir_files;
          obj_files = (disk_of (do_commit sha3 ops s.disk)).obj_files;
        };
        txns = txns;
      })
  unfolding getdir
  rolled_back-IsUnseen ops j o s txns apart n g = elim (Option-cases (lookup j s.disk.dirs)) [
    | inl e ↦ record { dirs = refl; objs = refl; reads = ground (arith, e, g) }
    | inr (row, e) ↦
        elim (Answer-cases (read_file row.len (lookup (sha3 (j ++ row.ver)) s.disk.dir_files))) [
          | inl (x, q) ↦ absurd (ground (arith, e, q, g))
          | inr (x, q) ↦
              let at : IsNamed s.disk.dirs ops j row.ver = inl (row, e, refl) in
              let start : Readable sha3 (λ i v. IsNamed s.disk.dirs ops i v) apart s.disk.dirs j row
                  x e at s.disk =
                record {
                  reads = q;
                  grown = λ k h v.
                      let a : row ≡ k = ground (arith, e, h) in
                      let b : row.len ≡ k.len = ap (λ (r : Row). r.len) a in omega (arith, b);
                  named = λ i k h. inl (k, h, refl);
                } in
              let r =
                do_commit-Readable sha3 (λ i v. IsNamed s.disk.dirs ops i v) apart s.disk.dirs j row
                  x e at ops s.disk n (λ i v m. inr m) start in
              record { dirs = refl; objs = refl; reads = ground (arith, e, q, g, r.reads) }
        ]
  ]

  -- A commit that does not answer `true` is not seen: the tables are as before, and each directory that
  -- could be read still gives its version and contents, though files were written. The directories to be
  -- made have versions that no directory with the same id has, and of all that are on the disk or to be
  -- made, no two that differ in id or version have the same hash of id and version.
  pub commit-IsUnseen :
      (tx : ℕ) (ops : List TxOp) (a : Answer Bool) (s s' : LocalStorage) (j : HashId)
      (o : Option (HashId × Bytes))
      → s.txns tx ≡ some ops
      → All (λ op. IsNew s.disk.dirs op) ops
      → commit sha3 tx s ≡ (a, s')
      → a ≢ ok true
      → IsApart sha3 s.disk.dirs ops
      → getdir sha3 j s ≡ ok o
      → IsUnseen j o s s'
  unfolding commit disk_of
  commit-IsUnseen tx ops a s s' j o t n h w apart g =
      ending (do_commit sha3 ops s.disk) refl (sym run ∙ h)
    where
      without : LocalStorage
      without = record s { txns = set_tx tx none s.txns }

      run :
          ◌≡◌ {A = Answer Bool × LocalStorage}
            (commit sha3 tx s)
            (end_commit sha3 without (do_commit sha3 ops s.disk))
      run = ground (arith, t)

      back : Commit → LocalStorage
      back c = record without {
        disk = record s.disk {
          dir_files = (disk_of c).dir_files;
          obj_files = (disk_of c).obj_files;
        };
      }

      seen : (c : Commit) → do_commit sha3 ops s.disk ≡ c → IsUnseen j o s (back c)
      seen c e =
          subst (λ c. IsUnseen j o s (back c)) e
            (rolled_back-IsUnseen ops j o s without.txns apart n g)

      ending :
          (c : Commit)
          → do_commit sha3 ops s.disk ≡ c
          → end_commit sha3 without c ≡ (a, s')
          → IsUnseen j o s s'
      ending (applied d paths) e k =
          absurd (w (sym (ap (λ (p : Answer Bool × LocalStorage). p.0) k)))
      ending (refused d) e k =
          subst (λ u. IsUnseen j o s u) (ap (λ (p : Answer Bool × LocalStorage). p.1) k)
            (seen (refused d) e)
      ending (failed x d) e k =
          subst (λ u. IsUnseen j o s u) (ap (λ (p : Answer Bool × LocalStorage). p.1) k)
            (seen (failed x d) e)
