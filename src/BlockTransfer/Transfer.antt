-- ===== src/BlockTransfer/Transfer.antt =====
-- src/block_xfer.rs: both operations together.
use ensync.Base.{
  ℕ, ◌<◌, ◌≡◌, refl, sym, ap, ◌∙◌, ◌≢◌, ◌⊎◌, inl, inr, false, Option, some, List, [], ◌∷◌, ◌++◌,
  map, arith, Bool-cases,
}
use ensync.Base.Text.{Bytes, text_eq, text_eq_refl, eq_of_text_eq}
use ensync.FileData.{HashId}
use ensync.BlockTransfer.{
  BlockList, Outcome, ok, Reader, concat, hash_block, hash_total, stream_to_blocks,
  blocks_to_stream,
}
use ensync.BlockTransfer.Split.{
  IsStream, contents, block_list, split, hand_out, stream_to_blocks-split,
}
use ensync.BlockTransfer.Join.{>>=-eq-ok, blocks_to_stream-hashes, Serves, copy_blocks-Serves}

-- Two blocks with one hash.
abbrev pub Collision : (Bytes → HashId) → Bytes → Type 0
Collision sha3 secret =
    (x : Bytes) × (y : Bytes) × (x ≢ y) × (hash_block sha3 secret x ≡ hash_block sha3 secret y)

module _ (sha3 : Bytes → HashId) (secret : Bytes) where
  same_or_Collision :
      (ds ds' : List Bytes)
      → map (hash_block sha3 secret) ds ≡ map (hash_block sha3 secret) ds'
      → (ds ≡ ds') ⊎ Collision sha3 secret
  same_or_Collision [] [] e = inl refl
  same_or_Collision [] (d' ∷ ds') e = cc
  same_or_Collision (d ∷ ds) [] e = cc
  same_or_Collision (d ∷ ds) (d' ∷ ds') e = elim (Bool-cases (text_eq d d')) [
    | inr f ↦ inr (d, d', (λ q. differ d d' f q), cc)
    | inl t ↦ elim (same_or_Collision ds ds' cc) [
      | inr c ↦ inr c
      | inl q ↦ inl (ap (λ l. d ∷ l) q ∙ ap (λ x. x ∷ ds') (eq_of_text_eq d d' t))
    ]
  ]
    where
      differ : (d d' : Bytes) → text_eq d d' ≡ false → d ≡ d' → ⊥
      differ d d' f q = ground (arith, f, ap (text_eq d) q, text_eq_refl d)

  module _ {S : Type 0} (block_out : HashId → Bytes → S → Outcome S) where
    -- The list that is returned is that of the blocks.
    block_list_of :
        (block_size : ℕ) (s s' : S) (input : Reader) (list : BlockList)
        → 0 < block_size
        → IsStream input
        → stream_to_blocks sha3 secret block_size block_out s input ≡ ok (list, s')
        → list ≡ block_list sha3 secret (split block_size (contents input))
    block_list_of block_size s s' input list pos h e =
        let (eq, _, _) = stream_to_blocks-split sha3 secret block_out block_size s input pos h in
        let (s'', _, q) =
          >>=-eq-ok (hand_out sha3 secret block_out (split block_size (contents input)) s) _
            (sym eq ∙ e) in
        ground (arith, q)

    module _ {W F : Type 0} (write_all : Bytes → W → Option W)
        (block_fetch : HashId → F → Outcome (Reader × F)) (written : W → Bytes)
        (appends : (b : Bytes) (w w' : W)
          → write_all b w ≡ some w'
          → written w' ≡ written w ++ b) where
      -- With the list that `stream_to_blocks` returned for a stream without errors, and a block size
      -- above 0, whatever blocks are fetched and however they are read: if `blocks_to_stream`
      -- succeeds, a writer that appends has received the contents of that stream and nothing else,
      -- or two different blocks with the same keyed hash are known.
      pub blocks_to_stream-stream_to_blocks :
          (block_size : ℕ) (s s' : S) (input : Reader) (list : BlockList) (f : F) (w w' : W)
          → 0 < block_size
          → IsStream input
          → stream_to_blocks sha3 secret block_size block_out s input ≡ ok (list, s')
          → blocks_to_stream sha3 secret write_all block_fetch list f w ≡ ok w'
          → (written w' ≡ written w ++ contents input) ⊎ Collision sha3 secret
      unfolding block_list
      blocks_to_stream-stream_to_blocks block_size s s' input list f w w' pos h e e' =
          let q = block_list_of block_size s s' input list pos h e in
          let (_, whole, _) =
            stream_to_blocks-split sha3 secret block_out block_size s input pos h in
          let (ds, x, _, y) =
            blocks_to_stream-hashes sha3 secret write_all block_fetch written appends list f w w'
              e' in
          elim (same_or_Collision ds (split block_size (contents input))
            (x ∙ ap (λ l. l.blocks) q)) [
              | inr c ↦ inr c
              | inl same ↦ inl (y ∙ ap (λ l. written w ++ l) (ap concat same ∙ whole))
            ]

      module _ (accepts : (b : Bytes) (w : W) → (w' : W) × (write_all b w ≡ some w')) where
        -- If the caller's function delivers each block in turn, by a stream without errors, and the
        -- writer takes everything, `blocks_to_stream` ends and succeeds on the list that
        -- `stream_to_blocks` returned for a stream without errors and a block size above 0, and the
        -- writer has received the contents of that stream.
        pub stream_to_blocks-roundtrip :
            (block_size : ℕ) (s s' : S) (input : Reader) (list : BlockList) (f : F) (w : W)
            → 0 < block_size
            → IsStream input
            → stream_to_blocks sha3 secret block_size block_out s input ≡ ok (list, s')
            → Serves sha3 secret write_all block_fetch written appends accepts
                (split block_size (contents input))
                f
            → (w' : W) × (blocks_to_stream sha3 secret write_all block_fetch list f w ≡ ok w')
              × (written w' ≡ written w ++ contents input)
        unfolding block_list blocks_to_stream
        stream_to_blocks-roundtrip block_size s s' input list f w pos h e serves =
            let q = block_list_of block_size s s' input list pos h e in
            let (_, whole, _) =
              stream_to_blocks-split sha3 secret block_out block_size s input pos h in
            let (w', x, y) =
              copy_blocks-Serves sha3 secret write_all block_fetch written appends accepts
                (split block_size (contents input)) f w serves in
            (
              w',
              rw
                  (
                    q,
                    text_eq_refl (
                        hash_total sha3 secret
                          (map (hash_block sha3 secret) (split block_size (contents input)))),
                  )
                  x,
              y ∙ ap (λ l. written w ++ l) whole,
            )
