-- ===== src/Server/LocalStorage/Readable.antt =====
-- src/server/local_storage.rs: what can be read while the edits of a transaction are made.
use ensync.Base.{
  ℕ, zero, suc, ◌+◌, ◌-◌, ◌^◌, ◌≤◌, ◌≡◌, refl, sym, ap, ◌∙◌, ◌≢◌, some, List, [], ◌∷◌, ◌++◌,
  if◌then◌else◌, ltb, length, take, arith, All, Bool-cases, Option-cases, ◌⊎◌, inl, inr,
}
use mathlib.Core.Path.{subst}
use ensync.Base.Text.{text, Bytes, text_eq, text_eq_iff}
use ensync.Base.Map.{Map, lookup, insert, erase, lookup-insert, lookup-erase, contains_key}
use ensync.FileData.{HashId}
use ensync.Server.Errors.{KeyError, other, Answer, ok, err}
use ensync.Server.LocalStorage.{
  TxOp, mkdir, updir, rmdir, link_obj, unlink_obj, Row, Disk, Commit, applied, refused, failed,
  write_at, read_file, get_ver_for_modify, update_ref, and_removed, do_commit,
}

-- A directory is made with a version that no directory with its id has.
abbrev pub IsNew : Map Row → TxOp → Type 0
IsNew dirs (mkdir id ver sver data') = (row : Row) → lookup id dirs ≡ some row → ver ≢ row.ver
IsNew dirs (updir id sver old_len append) = Unit
IsNew dirs (rmdir id sver old_len) = Unit
IsNew dirs (link_obj id linkid handle) = Unit
IsNew dirs (unlink_obj id linkid) = Unit

-- The id and version of a directory to be made.
abbrev pub IsMade : HashId → HashId → List TxOp → Type 0
IsMade i v [] = ⊥
IsMade i v (mkdir id ver sver data' ∷ ops) = ((id ≡ i) × (ver ≡ v)) ⊎ IsMade i v ops
IsMade i v (updir id sver old_len append ∷ ops) = IsMade i v ops
IsMade i v (rmdir id sver old_len ∷ ops) = IsMade i v ops
IsMade i v (link_obj id linkid handle ∷ ops) = IsMade i v ops
IsMade i v (unlink_obj id linkid ∷ ops) = IsMade i v ops

take-write_at : (m n : ℕ) (b f : Bytes) → m ≤ n → m ≤ length f → take m (write_at n b f) ≡ take m f
unfolding write_at
take-write_at zero n b f h k = refl
take-write_at (suc m) zero b f h k = absurd (omega (arith, h))
take-write_at (suc m) (suc n) b [] h k = absurd (omega (arith, k))
take-write_at (suc m) (suc n) b (x ∷ f) h k =
    ap (λ l. x ∷ l) (take-write_at m n b f (omega (arith, h)) (omega (arith, k)))

length-write_at : (m n : ℕ) (b f : Bytes) → m ≤ n → m ≤ length f → m ≤ length (write_at n b f)
unfolding write_at
length-write_at zero n b f h k = omega arith
length-write_at (suc m) zero b f h k = absurd (omega (arith, h))
length-write_at (suc m) (suc n) b [] h k = absurd (omega (arith, k))
length-write_at (suc m) (suc n) b (x ∷ f) h k =
    let r = length-write_at m n b f (omega (arith, h)) (omega (arith, k)) in omega (arith, r)

read_file-write_at :
    (m n : ℕ) (b f x : Bytes)
    → m ≤ n
    → read_file m (some f) ≡ ok x
    → read_file m (some (write_at n b f)) ≡ ok x
unfolding read_file
read_file-write_at m n b f x h e = elim (Bool-cases (ltb (2 ^ 32 - 1) m)) [
  | inl p ↦ absurd (ground (arith, p, e))
  | inr p ↦ elim (Bool-cases (ltb (length f) m)) [
    | inl q ↦ absurd (ground (arith, p, q, e))
    | inr q ↦
        let k : m ≤ length f = ground (arith, q) in
        ground (arith, p, q, e, length-write_at m n b f h k, take-write_at m n b f h k)
  ]
]

get_ver_for_modify-some :
    (dirs : Map Row) (id sver ver : HashId) (n : ℕ)
    → get_ver_for_modify dirs id sver n ≡ some ver
    → (row : Row) × (lookup id dirs ≡ some row) × (row.ver ≡ ver) × (row.len ≡ n)
unfolding get_ver_for_modify
get_ver_for_modify-some dirs id sver ver n h = elim (Option-cases (lookup id dirs)) [
  | inl e ↦ absurd (ground (arith, e, h))
  | inr (row, e) ↦ (row, e, ground (arith, e, h), ground (arith, e, h))
]

pub Answer-cases :
    {A : Type 0} (o : Answer A) → ((e : KeyError) × (o ≡ err e)) ⊎ ((a : A) × (o ≡ ok a))
Answer-cases (err e) = inl (e, refl)
Answer-cases (ok a) = inr (a, refl)

unfoldable pub disk_of : Commit → Disk
disk_of (applied d paths) = d
disk_of (refused d) = d
disk_of (failed e d) = d

disk_of-and_removed : (path : HashId) (c : Commit) → disk_of (and_removed path c) ≡ disk_of c
unfolding disk_of
disk_of-and_removed path (applied d paths) = refl
disk_of-and_removed path (refused d) = refl
disk_of-and_removed path (failed e d) = refl

module _ (sha3 : Bytes → HashId) (IsNamed : HashId → HashId → Type 0)
    (apart : (i v j w : HashId)
      → IsNamed i v
      → IsNamed j w
      → sha3 (i ++ v) ≡ sha3 (j ++ w)
      → (i ≡ j) × (v ≡ w)) where
  module _ (dirs : Map Row) (j : HashId) (row0 : Row) (x : Bytes)
      (found : lookup j dirs ≡ some row0) (named_j : IsNamed j row0.ver) where
    -- The contents of the directory can still be read, and what its file has been given is behind them.
    pub record Readable (d : Disk) : Type 0 where
      pub reads : read_file row0.len (lookup (sha3 (j ++ row0.ver)) d.dir_files) ≡ ok x
      pub grown : (row : Row) → lookup j d.dirs ≡ some row → row.ver ≡ row0.ver → row0.len ≤ row.len
      pub named : (i : HashId) (row : Row) → lookup i d.dirs ≡ some row → IsNamed i row.ver

    other_path :
        (id ver : HashId) (b : Bytes) (files : Map Bytes)
        → IsNamed id ver
        → (id ≡ j → ver ≢ row0.ver)
        → lookup (sha3 (j ++ row0.ver)) (insert (sha3 (id ++ ver)) b files)
          ≡ lookup (sha3 (j ++ row0.ver)) files
    other_path id ver b files l n =
        elim (Bool-cases (text_eq (sha3 (id ++ ver)) (sha3 (j ++ row0.ver)))) [
          | inl e ↦
              let (p, q) =
                apart id ver j row0.ver l named_j
                  ((text_eq_iff (sha3 (id ++ ver)) (sha3 (j ++ row0.ver))).0 e) in
              absurd (n p q)
          | inr e ↦
              ground (arith, e, lookup-insert (sha3 (j ++ row0.ver)) (sha3 (id ++ ver)) b files)
        ]

    mkdir-Readable :
        (id ver sver : HashId) (b : Bytes) (d : Disk)
        → IsNamed id ver
        → (id ≡ j → ver ≢ row0.ver)
        → Readable d
        → Readable (record d {
          dirs = insert id (record { ver = ver; sver = sver; len = length b }) d.dirs;
          dir_files = insert (sha3 (id ++ ver)) b d.dir_files;
        })
    mkdir-Readable id ver sver b d l n r = record {
      reads = ap (λ o. read_file row0.len o) (other_path id ver b d.dir_files l n) ∙ r.reads;
      grown = λ row e v. elim (Bool-cases (text_eq id j)) [
        | inl t ↦
            let a : ver ≡ row.ver = ground (
              arith,
              t,
              e,
              lookup-insert j id (record { ver = ver; sver = sver; len = length b }) d.dirs,
            ) in
            absurd (n ((text_eq_iff id j).0 t) (a ∙ v))
        | inr t ↦
            r.grown row
              (ground (
                arith,
                t,
                e,
                lookup-insert j id (record { ver = ver; sver = sver; len = length b }) d.dirs,
              ))
              v
      ];
      named = λ i row e. elim (Bool-cases (text_eq id i)) [
        | inl t ↦
            let a : ver ≡ row.ver = ground (
              arith,
              t,
              e,
              lookup-insert i id (record { ver = ver; sver = sver; len = length b }) d.dirs,
            ) in
            subst (λ v. IsNamed i v) a (subst (λ i. IsNamed i ver) ((text_eq_iff id i).0 t) l)
        | inr t ↦ r.named i row (
            ground (
              arith,
              t,
              e,
              lookup-insert i id (record { ver = ver; sver = sver; len = length b }) d.dirs,
            ))
      ];
    }

    updir-Readable :
        (id sver : HashId) (n : ℕ) (append f : Bytes) (d : Disk) (row : Row)
        → lookup id d.dirs ≡ some row
        → row.len ≡ n
        → lookup (sha3 (id ++ row.ver)) d.dir_files ≡ some f
        → Readable d
        → Readable (record d {
          dirs = insert id (record { ver = row.ver; sver = sver; len = n + length append }) d.dirs;
          dir_files = insert (sha3 (id ++ row.ver)) (write_at n append f) d.dir_files;
        })
    updir-Readable id sver n append f d row e q g r =
        let new : Row = record { ver = row.ver; sver = sver; len = n + length append } in
        let grows : (k : Row)
            → lookup j (insert id new d.dirs) ≡ some k
            → k.ver ≡ row0.ver
            → row0.len ≤ k.len =
          λ k h v. elim (Bool-cases (text_eq id j)) [
            | inl t ↦
                let a : new ≡ k = ground (arith, t, h, lookup-insert j id new d.dirs) in
                let i : lookup j d.dirs ≡ some row =
                  subst (λ i. lookup i d.dirs ≡ some row) ((text_eq_iff id j).0 t) e in
                let b = r.grown row i (ap (λ (k : Row). k.ver) a ∙ v) in
                let c : n + length append ≡ k.len = ap (λ (k : Row). k.len) a in
                omega (arith, b, c, q)
            | inr t ↦ r.grown k (ground (arith, t, h, lookup-insert j id new d.dirs)) v
          ] in
        let names : (i : HashId) (k : Row)
            → lookup i (insert id new d.dirs) ≡ some k
            → IsNamed i k.ver =
          λ i k h. elim (Bool-cases (text_eq id i)) [
            | inl t ↦
                let a : new ≡ k = ground (arith, t, h, lookup-insert i id new d.dirs) in
                subst (λ i. IsNamed i k.ver) ((text_eq_iff id i).0 t)
                  (subst (λ (k : Row). IsNamed id k.ver) a (r.named id row e))
            | inr t ↦ r.named i k (ground (arith, t, h, lookup-insert i id new d.dirs))
          ] in
        elim (Bool-cases (text_eq (sha3 (id ++ row.ver)) (sha3 (j ++ row0.ver)))) [
          | inl t ↦
              let p = (text_eq_iff (sha3 (id ++ row.ver)) (sha3 (j ++ row0.ver))).0 t in
              let (same, v) = apart id row.ver j row0.ver (r.named id row e) named_j p in
              let i : lookup j d.dirs ≡ some row = subst (λ i. lookup i d.dirs ≡ some row) same e in
              let m : row0.len ≤ n = omega (arith, r.grown row i v, q) in
              let now : lookup (sha3 (j ++ row0.ver))
                    (insert (sha3 (id ++ row.ver)) (write_at n append f) d.dir_files)
                  ≡ some (write_at n append f) =
                ground (
                  arith,
                  t,
                  lookup-insert (sha3 (j ++ row0.ver)) (sha3 (id ++ row.ver)) (write_at n append f)
                      d.dir_files,
                ) in
              let was : lookup (sha3 (j ++ row0.ver)) d.dir_files ≡ some f =
                subst (λ p. lookup p d.dir_files ≡ some f) p g in
              record {
                reads =
                    ap (λ o. read_file row0.len o) now
                    ∙ read_file-write_at row0.len n append f x m
                        (sym (ap (λ o. read_file row0.len o) was) ∙ r.reads);
                grown = grows;
                named = names;
              }
          | inr t ↦ record {
            reads =
                ap (λ o. read_file row0.len o)
                  (ground (
                    arith,
                    t,
                    lookup-insert (sha3 (j ++ row0.ver)) (sha3 (id ++ row.ver))
                        (write_at n append f) d.dir_files,
                  ))
                ∙ r.reads;
            grown = grows;
            named = names;
          }
        ]

    rmdir-Readable :
        (id : HashId) (d : Disk) → Readable d → Readable (record d { dirs = erase id d.dirs })
    rmdir-Readable id d r = record {
      reads = r.reads;
      grown = λ row e v. r.grown row (ground (arith, e, lookup-erase j id d.dirs)) v;
      named = λ i row e. r.named i row (ground (arith, e, lookup-erase i id d.dirs));
    }

    ended :
        (ops : List TxOp) (d : Disk) (c : Commit)
        → do_commit sha3 ops d ≡ c
        → Readable (disk_of c)
        → Readable (disk_of (do_commit sha3 ops d))
    ended ops d c e r = subst (λ c. Readable (disk_of c)) (sym e) r

    -- Whatever happens on the way, the directory can still be read.
    pub do_commit-Readable :
        (ops : List TxOp) (d : Disk)
        → All (λ op. IsNew dirs op) ops
        → ((i v : HashId) → IsMade i v ops → IsNamed i v)
        → Readable d
        → Readable (disk_of (do_commit sha3 ops d))
    unfolding do_commit disk_of
    do_commit-Readable [] d n k r = r
    do_commit-Readable (mkdir id ver sver b ∷ ops) d n k r =
        elim (Bool-cases (contains_key id d.dirs)) [
          | inl e ↦ rw e r
          | inr e ↦ rw e (
              do_commit-Readable ops _ n.1 (λ i v m. k i v (inr m))
                (mkdir-Readable id ver sver b d (k id ver (inl (refl, refl)))
                  (λ s. n.0 row0 (subst (λ i. lookup i dirs ≡ some row0) (sym s) found)) r))
        ]
    do_commit-Readable (updir id sver old_len append ∷ ops) d n k r =
        elim (Option-cases (get_ver_for_modify d.dirs id sver old_len)) [
          | inl e ↦ ended (updir id sver old_len append ∷ ops) d (refused d) (ground (arith, e)) r
          | inr (ver, e) ↦
              let (row, a, b, c) = get_ver_for_modify-some d.dirs id sver ver old_len e in
              let h : get_ver_for_modify d.dirs id sver old_len ≡ some row.ver =
                e ∙ ap some (sym b) in
              elim (Bool-cases (ltb (2 ^ 32 - 1 - old_len) (length append))) [
                | inl t ↦
                    ended (updir id sver old_len append ∷ ops) d
                      (failed (other (text "DirectoryTooLarge")) d) (ground (arith, h, t)) r
                | inr t ↦ elim (Option-cases (lookup (sha3 (id ++ row.ver)) d.dir_files)) [
                  | inl g ↦
                      ended (updir id sver old_len append ∷ ops) d
                        (failed (other (text "NotFound")) d) (ground (arith, h, t, g)) r
                  | inr (f, g) ↦
                      let d' : Disk = record d {
                        dirs =
                            insert id
                              (record { ver = row.ver; sver = sver; len = old_len + length append })
                              d.dirs;
                        dir_files =
                            insert (sha3 (id ++ row.ver)) (write_at old_len append f) d.dir_files;
                      } in
                      ended (updir id sver old_len append ∷ ops) d (do_commit sha3 ops d')
                        (ground (arith, h, t, g))
                        (do_commit-Readable ops d' n.1 (λ i v m. k i v m)
                          (updir-Readable id sver old_len append f d row a c g r))
                ]
              ]
        ]
    do_commit-Readable (rmdir id sver old_len ∷ ops) d n k r =
        elim (Option-cases (get_ver_for_modify d.dirs id sver old_len)) [
          | inl e ↦ ended (rmdir id sver old_len ∷ ops) d (refused d) (ground (arith, e)) r
          | inr (ver, e) ↦
              let d' : Disk = record d { dirs = erase id d.dirs } in
              ended (rmdir id sver old_len ∷ ops) d
                (and_removed (sha3 (id ++ ver)) (do_commit sha3 ops d')) (ground (arith, e))
                (subst (λ c. Readable c)
                  (sym (disk_of-and_removed (sha3 (id ++ ver)) (do_commit sha3 ops d')))
                  (do_commit-Readable ops d' n.1 (λ i v m. k i v m) (rmdir-Readable id d r)))
        ]
    do_commit-Readable (link_obj id linkid handle ∷ ops) d n k r =
        elim (Answer-cases (update_ref d.objs id linkid)) [
          | inl (x, e) ↦
              ended (link_obj id linkid handle ∷ ops) d (failed x d) (ground (arith, e)) r
          | inr (objs, e) ↦
              let d' : Disk = record d {
                objs = objs;
                obj_files =
                    if contains_key id d.obj_files
                    then d.obj_files
                    else insert id handle d.obj_files;
              } in
              ended (link_obj id linkid handle ∷ ops) d (do_commit sha3 ops d') (ground (arith, e))
                (do_commit-Readable ops d' n.1 (λ i v m. k i v m)
                  (record { reads = r.reads; grown = r.grown; named = r.named }))
        ]
    do_commit-Readable (unlink_obj id linkid ∷ ops) d n k r =
        elim (Answer-cases (update_ref d.objs id linkid)) [
          | inl (x, e) ↦ ended (unlink_obj id linkid ∷ ops) d (failed x d) (ground (arith, e)) r
          | inr (objs, e) ↦
              let d' : Disk = record d { objs = objs } in
              ended (unlink_obj id linkid ∷ ops) d (do_commit sha3 ops d') (ground (arith, e)) (
                do_commit-Readable ops d' n.1 (λ i v m. k i v m)
                  (record { reads = r.reads; grown = r.grown; named = r.named }))
        ]
