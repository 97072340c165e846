-- ===== src/BlockTransfer/Join.antt =====
-- src/block_xfer.rs: what `blocks_to_stream` writes.
use ensync.Base.{
  ℕ, zero, suc, ◌<◌, ◌≡◌, refl, sym, ap, ◌∙◌, inl, inr, false, Option, none, some, List, [], ◌∷◌,
  ◌++◌, map, append_assoc, append-nil, if◌then◌else◌, leb, length, length-drop, take, drop,
  take-append-drop, arith, Bool-cases,
}
use ensync.Base.Text.{text, Bytes, text_eq, text_eq_refl, eq_of_text_eq}
use ensync.FileData.{HashId}
use ensync.BlockTransfer.{
  BlockList, Outcome, ok, err, no_fuel, ◌>>=◌, chunk, interrupted, failed, Reader, Read, got, again,
  broken, read, size, concat, hash_block, hash_total, write_or_fail, copy_step, copy_block,
  copy_blocks, blocks_to_stream, hmac_mismatch,
}
use ensync.BlockTransfer.Split.{IsStream, contents}

-- Inversion of a chain that succeeds.
pub >>=-eq-ok :
    {A B : Type 0} (m : Outcome A) (f : A → Outcome B) {b : B}
    → (m >>= f) ≡ ok b
    → (a : A) × (m ≡ ok a) × (f a ≡ ok b)
>>=-eq-ok no_fuel f h = cc
>>=-eq-ok (err e) f h = cc
>>=-eq-ok (ok a) f h = (a, refl, h)

-- One call of `read` on a stream without errors.
data Reads (es : Reader) : Read → Type 0 where
  at_end : {es' : Reader} → contents es ≡ [] → Reads es (got [] es')
  arrived :
      {b : ℕ} {bs : Bytes} {es' : Reader}
      → contents es ≡ b ∷ (bs ++ contents es')
      → IsStream es'
      → size es' < size es
      → Reads es (got (b ∷ bs) es')
  put_off :
      {es' : Reader}
      → contents es ≡ contents es'
      → IsStream es'
      → size es' < size es
      → Reads es (again es')

read-Reads : (m : ℕ) (es : Reader) → IsStream es → Reads es (read (suc m) es)
unfolding read
read-Reads m [] h = at_end refl
read-Reads m (interrupted ∷ es) h = put_off refl h.1 (omega arith)
read-Reads m (failed e ∷ es) h = elim h.0 [ ]
read-Reads m (chunk [] ∷ es) h = absurd (omega (arith, h.0))
read-Reads m (chunk (b ∷ bs) ∷ es) h = elim (Bool-cases (leb (length (b ∷ bs)) (suc m))) [
  | inl le ↦ rw le (arrived refl h.1 (omega arith))
  | inr gt ↦ rw gt (
      arrived
        (ap (λ t. b ∷ (t ++ contents es)) (sym (take-append-drop m bs))
          ∙ ap (λ t. b ∷ t) (append_assoc (take m bs) (drop m bs) (contents es)))
        (nonempty gt, h.1) (omega (arith, length-drop m bs)))
]
  where
    nonempty : leb (length (b ∷ bs)) (suc m) ≡ false → 0 < length (drop m bs)
    nonempty gt = ground (arith, gt, length-drop m bs)

module _ (sha3 : Bytes → HashId) (secret : Bytes) {W F : Type 0} (write_all : Bytes → W → Option W)
    (block_fetch : HashId → F → Outcome (Reader × F)) (written : W → Bytes)
    (appends : (b : Bytes) (w w' : W) → write_all b w ≡ some w' → written w' ≡ written w ++ b) where
  -- What is copied is what is hashed.
  Copied : Bytes → W → Bytes → W → Type 0
  Copied block w block' w' = (d : Bytes) × (block' ≡ block ++ d) × (written w' ≡ written w ++ d)

  CopiesAlike : (Bytes → W → Reader → Outcome (Bytes × W)) → Type 0
  CopiesAlike next =
      (block : Bytes) (w : W) (es : Reader) (block' : Bytes) (w' : W)
      → next block w es ≡ ok (block', w')
      → Copied block w block' w'

  copy_step-Copied :
      (next : Bytes → W → Reader → Outcome (Bytes × W))
      → CopiesAlike next
      → (block : Bytes) (w : W) (r : Read) (block' : Bytes) (w' : W)
      → copy_step sha3 secret write_all block_fetch next block w r ≡ ok (block', w')
      → Copied block w block' w'
  unfolding copy_step CopiesAlike Copied write_or_fail
  copy_step-Copied next k block w (got [] es) block' w' e =
      ([], ground (arith, e, append-nil block), ground (arith, e, append-nil (written w)))
  copy_step-Copied next k block w (got (b ∷ bs) es) block' w' e =
      let (w'', q, q') = write_or_fail-eq-ok (write_all (b ∷ bs) w) _ e in
      let (d, x, y) = k (block ++ b ∷ bs) w'' es block' w' q' in
      (
        (b ∷ bs) ++ d,
        x ∙ append_assoc block (b ∷ bs) d,
        y ∙ ap (λ t. t ++ d) (appends (b ∷ bs) w w'' q) ∙ append_assoc (written w) (b ∷ bs) d,
      )
    where
      write_or_fail-eq-ok :
          (o : Option W) (f : W → Outcome (Bytes × W))
          → (write_or_fail sha3 secret write_all block_fetch o >>= f) ≡ ok (block', w')
          → (w'' : W) × (o ≡ some w'') × (f w'' ≡ ok (block', w'))
      write_or_fail-eq-ok none f h = cc
      write_or_fail-eq-ok (some w'') f h = (w'', refl, h)
  copy_step-Copied next k block w (again es) block' w' e = k block w es block' w' e
  copy_step-Copied next k block w (broken x) block' w' e = cc

  copy_block-Copied : (fuel : ℕ) → CopiesAlike (copy_block sha3 secret write_all block_fetch fuel)
  unfolding CopiesAlike copy_block
  copy_block-Copied zero block w es block' w' e = cc
  copy_block-Copied (suc fuel) block w es block' w' e =
      copy_step-Copied _ (copy_block-Copied fuel) block w (read 4096 es) block' w' e

  -- The blocks that were written have the given hashes.
  copy_blocks-hashes :
      (ids : List HashId) (f : F) (w w' : W)
      → copy_blocks sha3 secret write_all block_fetch ids f w ≡ ok w'
      → (ds : List Bytes) × (map (hash_block sha3 secret) ds ≡ ids)
        × (written w' ≡ written w ++ concat ds)
  unfolding copy_blocks CopiesAlike Copied concat
  copy_blocks-hashes [] f w w' e = ([], refl, ground (arith, e, append-nil (written w)))
  copy_blocks-hashes (id ∷ ids) f w w' e =
      let ((reader, f'), q, e') = >>=-eq-ok (block_fetch id f) _ e in
      let ((block, w''), q', e'') =
        >>=-eq-ok (copy_block sha3 secret write_all block_fetch (suc (size reader)) [] w reader) _
          e' in
      let (same, e3) = verified id (hash_block sha3 secret block) _ w' e'' in
      let (d, x, y) = copy_block-Copied (suc (size reader)) [] w reader block w'' q' in
      let (ds, u, v) = copy_blocks-hashes ids f' w'' w' e3 in
      (
        d ∷ ds,
        ap (λ t. hash_block sha3 secret d ∷ t) u
            ∙ ap (λ t. t ∷ ids) (ap (hash_block sha3 secret) (sym x) ∙ same),
        v ∙ ap (λ t. t ++ concat ds) y ∙ append_assoc (written w) d (concat ds),
      )
    where
      verified :
          (id hash : HashId) (rest : Outcome W) (w' : W)
          → (if text_eq hash id then rest else err (hmac_mismatch (text "block") id hash)) ≡ ok w'
          → (hash ≡ id) × (rest ≡ ok w')
      verified id hash rest w' e = elim (Bool-cases (text_eq hash id)) [
        | inl t ↦ (eq_of_text_eq hash id t, ground (arith, t, e))
        | inr t ↦ absurd (ground (arith, t, e))
      ]

  -- The output of a call that succeeds consists of blocks whose hashes are those of the list, in
  -- order, and the hash of these is the list's total.
  pub blocks_to_stream-hashes :
      (input : BlockList) (f : F) (w w' : W)
      → blocks_to_stream sha3 secret write_all block_fetch input f w ≡ ok w'
      → (ds : List Bytes) × (map (hash_block sha3 secret) ds ≡ input.blocks)
        × (hash_total sha3 secret input.blocks ≡ input.total)
        × (written w' ≡ written w ++ concat ds)
  unfolding blocks_to_stream
  blocks_to_stream-hashes input f w w' e =
      elim (Bool-cases (text_eq (hash_total sha3 secret input.blocks) input.total)) [
        | inl t ↦
            let (ds, u, v) = copy_blocks-hashes input.blocks f w w' (ground (arith, t, e)) in
            (ds, u, eq_of_text_eq _ _ t, v)
        | inr t ↦ absurd (ground (arith, t, e))
      ]

  -- From a stream without errors, every byte is copied.
  module _ (accepts : (b : Bytes) (w : W) → (w' : W) × (write_all b w ≡ some w')) where
    CopiesAll : Bytes → W → Bytes → Outcome (Bytes × W) → Type 0
    CopiesAll block w c r = (w' : W) × (r ≡ ok (block ++ c, w')) × (written w' ≡ written w ++ c)

    NextCopies : Reader → (Bytes → W → Reader → Outcome (Bytes × W)) → Type 0
    NextCopies es next =
        (block : Bytes) (w : W) (es' : Reader)
        → IsStream es'
        → size es' < size es
        → CopiesAll block w (contents es') (next block w es')

    copy_step-CopiesAll :
        (es : Reader) (next : Bytes → W → Reader → Outcome (Bytes × W))
        → NextCopies es next
        → (block : Bytes) (w : W) (r : Read) → Reads es r
        → CopiesAll block w
            (contents es)
            (copy_step sha3 secret write_all block_fetch next block w r)
    unfolding copy_step CopiesAll NextCopies write_or_fail
    copy_step-CopiesAll es next k block w _ (at_end q) = (
      w,
      ap (λ t. ok (t, w)) (sym (append-nil block) ∙ ap (λ t. block ++ t) (sym q)),
      sym (append-nil (written w)) ∙ ap (λ t. written w ++ t) (sym q),
    )
    copy_step-CopiesAll es next k block w _ (arrived {b} {bs} {es'} q h lt) =
        let (w', e) = accepts (b ∷ bs) w in
        let (w'', x, y) = k (block ++ b ∷ bs) w' es' h lt in
        rw e (
          w'',
          x
              ∙ ap (λ t. ok (t, w''))
                  (append_assoc block (b ∷ bs) (contents es') ∙ ap (λ t. block ++ t) (sym q)),
          y
              ∙ ap (λ t. t ++ contents es') (appends (b ∷ bs) w w' e)
              ∙ append_assoc (written w) (b ∷ bs) (contents es')
              ∙ ap (λ t. written w ++ t) (sym q),
        )
    copy_step-CopiesAll es next k block w _ (put_off {es'} q h lt) =
        let (w', x, y) = k block w es' h lt in
        (w', x ∙ ap (λ t. ok (block ++ t, w')) (sym q), y ∙ ap (λ t. written w ++ t) (sym q))

    copy_block-CopiesAll :
        (fuel : ℕ) (block : Bytes) (w : W) (es : Reader)
        → IsStream es
        → size es < fuel
        → CopiesAll block w
            (contents es)
            (copy_block sha3 secret write_all block_fetch fuel block w es)
    unfolding copy_block CopiesAll NextCopies
    copy_block-CopiesAll zero block w es h lt = elim lt [ ]
    copy_block-CopiesAll (suc fuel) block w es h lt =
        copy_step-CopiesAll es _
          (λ block' w' es' h' lt'.
            copy_block-CopiesAll fuel block' w' es' h' (omega (arith, lt, lt')))
          block w (read 4096 es) (read-Reads 4095 es h)

    -- The caller's function delivers the blocks in turn, each by a stream without errors.
    unfoldable pub Serves : List Bytes → F → Type 0
    Serves [] f = Unit
    Serves (d ∷ ds) f =
        (reader : Reader) × (f' : F) × (block_fetch (hash_block sha3 secret d) f ≡ ok (reader, f'))
        × IsStream reader
        × (contents reader ≡ d)
        × Serves ds f'

    pub copy_blocks-Serves :
        (ds : List Bytes) (f : F) (w : W)
        → Serves ds f
        → (w' : W) × (copy_blocks sha3 secret write_all block_fetch
              (map (hash_block sha3 secret) ds)
              f
              w
            ≡ ok w')
          × (written w' ≡ written w ++ concat ds)
    unfolding copy_blocks Serves concat CopiesAll
    copy_blocks-Serves [] f w h = (w, refl, sym (append-nil (written w)))
    copy_blocks-Serves (d ∷ ds) f w (reader, f', e, h, c, more) =
        let (w', x, y) = copy_block-CopiesAll (suc (size reader)) [] w reader h (omega arith) in
        let (w'', x', y') = copy_blocks-Serves ds f' w' more in
        (
          w'',
          rw (e, x, c, text_eq_refl (hash_block sha3 secret d)) x',
          y'
              ∙ ap (λ t. t ++ concat ds) (y ∙ ap (λ t. written w ++ t) c)
              ∙ append_assoc (written w) d (concat ds),
        )
