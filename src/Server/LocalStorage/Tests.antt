-- ===== src/Server/LocalStorage/Tests.antt =====
-- A storage with one directory, and a function into 32 bytes in place of SHA3-256.
use ensync.Base.{
  ℕ, zero, suc, ◌⊎◌, inl, inr, Bool-cases, ◌≡◌, ◌≢◌, refl, sym, ◌∙◌, ◌==◌, Bool, true, false, none,
  some, List, [], ◌∷◌, ◌++◌, if◌then◌else◌, arith, replicate,
}
use mathlib.Core.Path.{subst}
use ensync.Base.Text.{Bytes, text_eq, text_eq_iff}
use ensync.Base.Map.{lookup, insert, erase}
use ensync.FileData.{HashId}
use ensync.Server.Errors.{Answer, ok}
use ensync.Server.LocalStorage.{
  TxOp, mkdir, updir, rmdir, Row, LocalStorage, write_at, read_file, get_ver_for_modify, do_commit,
  commit, getdir,
}
use ensync.Server.LocalStorage.Rollback.{IsNamed, IsApart, IsUnseen, commit-IsUnseen}
use ensync.Server.LocalStorage.Exchange.{Exchanged, is_current, commit-Exchanged}

-- The first bytes, filled up with zeros.
fit : ℕ → Bytes → Bytes
fit zero b = []
fit (suc n) [] = 0 ∷ fit n []
fit (suc n) (x ∷ b) = x ∷ fit n b

skip : ℕ → Bytes → Bytes
skip zero b = b
skip (suc n) [] = []
skip (suc n) (x ∷ b) = skip n b

-- What comes after the id, which is the version, in 32 bytes.
sha3 : Bytes → HashId
sha3 b = fit 32 (skip 32 b)

abbrev id : HashId
id = replicate 32 7

abbrev store : List TxOp → LocalStorage
store ops = record {
  disk = record {
    dirs = (id, record { ver = 1 ∷ []; sver = 2 ∷ []; len = 3 }) ∷ [];
    objs = [];
    dir_files = (sha3 (id ++ 1 ∷ []), 10 ∷ 11 ∷ 12 ∷ []) ∷ [];
    obj_files = [];
  };
  txns = λ n. if n == 0 then some ops else none;
}

abbrev new_id : HashId
new_id = replicate 32 8

-- It makes a directory, appends to the old one, and then removes it with a length that it no longer has.
abbrev late : List TxOp
late =
    mkdir new_id (4 ∷ []) (5 ∷ []) (20 ∷ [])
    ∷ updir id (2 ∷ []) 3 (13 ∷ [])
    ∷ rmdir id (2 ∷ []) 3
    ∷ []

abbrev ended : Answer Bool × LocalStorage
ended = commit sha3 0 (store late)

ended_ok : ◌≡◌ {A = Answer Bool × LocalStorage} ended (ok false, ended.1)
unfolding commit do_commit sha3 fit skip lookup insert erase text_eq get_ver_for_modify write_at
ended_ok = refl

late_new : (row : Row) → lookup new_id (store late).disk.dirs ≡ some row → 4 ∷ [] ≢ row.ver
unfolding lookup text_eq
late_new row e = cc

not_true : ok false ≢ ok true
not_true h = cc

read_ok : getdir sha3 id (store late) ≡ ok (some (1 ∷ [], 10 ∷ 11 ∷ 12 ∷ []))
unfolding getdir sha3 fit skip lookup text_eq read_file
read_ok = refl

late_named :
    (i v : HashId)
    → IsNamed (store late).disk.dirs late i v
    → ((i ≡ id) × (v ≡ 1 ∷ [])) ⊎ ((i ≡ new_id) × (v ≡ 4 ∷ []))
unfolding lookup
late_named i v (inl (row, e, q)) = elim (Bool-cases (text_eq id i)) [
  | inl t ↦
      let a : 1 ∷ [] ≡ row.ver = ground (arith, t, e) in
      inl (sym ((text_eq_iff id i).0 t), sym (a ∙ q))
  | inr t ↦ absurd (ground (arith, t, e))
]
late_named i v (inr (inl (a, b))) = inr (sym a, sym b)
late_named i v (inr (inr m)) = absurd m

different : sha3 (id ++ 1 ∷ []) ≢ sha3 (new_id ++ 4 ∷ [])
unfolding sha3 fit skip
different h = cc

late-IsApart : IsApart sha3 (store late).disk.dirs late
late-IsApart i v j w a b h = elim (late_named i v a) [
  | inl (p, q) ↦ elim (late_named j w b) [
    | inl (r, t) ↦ (p ∙ sym r, q ∙ sym t)
    | inr (r, t) ↦
        absurd (different (sym (at i id v (1 ∷ []) p q) ∙ h ∙ at j new_id w (4 ∷ []) r t))
  ]
  | inr (p, q) ↦ elim (late_named j w b) [
    | inl (r, t) ↦
        absurd (different (sym (at j id w (1 ∷ []) r t) ∙ sym h ∙ at i new_id v (4 ∷ []) p q))
    | inr (r, t) ↦ (p ∙ sym r, q ∙ sym t)
  ]
]
  where
    at : (i j v w : HashId) → i ≡ j → v ≡ w → sha3 (i ++ v) ≡ sha3 (j ++ w)
    at i j v w p q = cc

commit-IsUnseen_example : IsUnseen sha3 id (some (1 ∷ [], 10 ∷ 11 ∷ 12 ∷ [])) (store late) ended.1
commit-IsUnseen_example =
    commit-IsUnseen sha3 0 late (ok false) (store late) ended.1 id
      (some (1 ∷ [], 10 ∷ 11 ∷ 12 ∷ [])) refl (late_new, (tt, (tt, tt))) ended_ok not_true
      late-IsApart read_ok

abbrev swap : List TxOp
swap = rmdir id (2 ∷ []) 3 ∷ mkdir id (4 ∷ []) (5 ∷ []) (20 ∷ []) ∷ []

new_path :
    (row : Row)
    → lookup id (store swap).disk.dirs ≡ some row
    → text_eq (sha3 (id ++ row.ver)) (sha3 (id ++ 4 ∷ [])) ≡ false
unfolding lookup text_eq sha3 fit skip
new_path row h =
    let a : 1 ∷ [] ≡ row.ver = ground arith in
    subst (λ v. text_eq (sha3 (id ++ v)) (sha3 (id ++ 4 ∷ [])) ≡ false) a refl

commit-Exchanged_example :
    Exchanged sha3 id
      (4 ∷ [])
      (20 ∷ [])
      (store swap)
      (commit sha3 0 (store swap))
      (is_current (lookup id (store swap).disk.dirs) (2 ∷ []) 3)
commit-Exchanged_example =
    commit-Exchanged sha3 0 id (2 ∷ []) (4 ∷ []) (5 ∷ []) 3 (20 ∷ []) (store swap) refl new_path
      (omega arith)
