-- ===== src/BlockTransfer/Split.antt =====
-- src/block_xfer.rs: the blocks that `stream_to_blocks` hands out.
use mathlib.Core.Path.{subst}
use ensync.Base.{
  ℕ, zero, suc, ◌+◌, ◌-◌, ◌≤◌, ◌<◌, ◌≡◌, refl, sym, ap, ◌∙◌, false, List, [], ◌∷◌, ◌++◌, map,
  append_assoc, append-nil, leb, length, length-append, length-take, length-drop, take, drop,
  take-append-drop, All, arith, Bool-cases, inl, inr,
}
use ensync.Base.Text.{Bytes}
use ensync.FileData.{HashId}
use ensync.BlockTransfer.{
  BlockList, Outcome, ok, err, no_fuel, ◌>>=◌, Event, chunk, interrupted, failed, Reader, read,
  size, concat, Filled, filled, fill_step, fill, hash_block, hash_total, block_step, blocks_loop,
  stream_to_blocks,
}

-- A stream without errors and without a read of no bytes before its end.
abbrev pub IsGood : Event → Type 0
IsGood (chunk b) = 0 < length b
IsGood interrupted = Unit
IsGood (failed e) = ⊥

abbrev pub IsStream : Reader → Type 0
IsStream es = All IsGood es

abbrev pub contents : Reader → Bytes
contents [] = []
contents (chunk b ∷ es) = b ++ contents es
contents (_ ∷ es) = contents es

-- The reference: blocks of `n` bytes, the last of which may be shorter.
unfoldable pub blocks_of : ℕ → ℕ → Bytes → List Bytes
blocks_of fuel n [] = []
blocks_of zero n (b ∷ bs) = []
blocks_of (suc fuel) n (b ∷ bs) = take n (b ∷ bs) ∷ blocks_of fuel n (drop n (b ∷ bs))

unfoldable pub split : ℕ → Bytes → List Bytes
unfolding blocks_of
split n b = blocks_of (length b) n b

take-append :
    {A : Type 0} (xs ys : List A) (n : ℕ)
    → length xs ≤ n
    → take n (xs ++ ys) ≡ xs ++ take (n - length xs) ys
take-append [] ys n h = ap (λ k. take k ys) (omega arith)
take-append (x ∷ xs) ys zero h = absurd (omega arith)
take-append (x ∷ xs) ys (suc n) h =
    ap (λ l. x ∷ l) (take-append xs ys n (omega arith) ∙ ap (λ k. xs ++ take k ys) (omega arith))

drop-append :
    {A : Type 0} (xs ys : List A) (n : ℕ)
    → length xs ≤ n
    → drop n (xs ++ ys) ≡ drop (n - length xs) ys
drop-append [] ys n h = ap (λ k. drop k ys) (omega arith)
drop-append (x ∷ xs) ys zero h = absurd (omega arith)
drop-append (x ∷ xs) ys (suc n) h =
    drop-append xs ys n (omega arith) ∙ ap (λ k. drop k ys) (omega arith)

take_within : {A : Type 0} (xs ys : List A) (n : ℕ) → n ≤ length xs → take n (xs ++ ys) ≡ take n xs
take_within xs ys zero h = refl
take_within [] ys (suc n) h = absurd (omega arith)
take_within (x ∷ xs) ys (suc n) h = ap (λ l. x ∷ l) (take_within xs ys n (omega arith))

drop_within :
    {A : Type 0} (xs ys : List A) (n : ℕ) → n ≤ length xs → drop n (xs ++ ys) ≡ drop n xs ++ ys
drop_within xs ys zero h = refl
drop_within [] ys (suc n) h = absurd (omega arith)
drop_within (x ∷ xs) ys (suc n) h = drop_within xs ys n (omega arith)

-- The block that is filled, and what is left of the stream.
record Fills (room : ℕ) (block : Bytes) (es : Reader) (r : Filled) : Type 0 where
  pub rest : Reader
  pub result : r ≡ filled (block ++ take room (contents es)) rest
  pub is_stream : IsStream rest
  pub left : contents rest ≡ drop room (contents es)
  pub smaller : size rest + length (take room (contents es)) ≤ size es

-- A chunk that fits into the room, and one that does not.
Fills-whole :
    (room : ℕ) (block b : Bytes) (es : Reader) (r : Filled)
    → length b ≤ room
    → Fills (room - length b) (block ++ b) es r
    → Fills room block (chunk b ∷ es) r
Fills-whole room block b es r h f = record {
  rest = f.rest;
  result =
      f.result
      ∙ ap (λ t. filled t f.rest)
          (append_assoc block b _
            ∙ ap (λ t. block ++ t) (sym (take-append b (contents es) room h)));
  is_stream = f.is_stream;
  left = f.left ∙ sym (drop-append b (contents es) room h);
  smaller = omega (
    arith,
    f.smaller,
    ap length (take-append b (contents es) room h),
    length-append b (take (room - length b) (contents es)),
  );
}

Fills-part :
    (room : ℕ) (block b : Bytes) (es : Reader)
    → room < length b
    → IsStream es
    → Fills room block (chunk b ∷ es) (filled (block ++ take room b) (chunk (drop room b) ∷ es))
Fills-part room block b es h s = record {
  rest = chunk (drop room b) ∷ es;
  result =
      ap (λ t. filled (block ++ t) (chunk (drop room b) ∷ es))
        (sym (take_within b (contents es) room (omega arith)));
  is_stream = (omega (arith, length-drop room b), s);
  left = sym (drop_within b (contents es) room (omega arith));
  smaller = omega (
    arith,
    length-drop room b,
    length-take room b,
    ap length (take_within b (contents es) room (omega arith)),
  );
}

fill-full :
    (fuel room : ℕ) (block : Bytes) (es : Reader)
    → room ≡ 0
    → fill fuel room block es ≡ filled block es
unfolding fill
fill-full fuel zero block es e = refl
fill-full fuel (suc room) block es e = absurd (omega (arith, e))

fill-Fills :
    (fuel room : ℕ) (block : Bytes) (es : Reader)
    → IsStream es
    → size es < fuel
    → Fills room block es (fill fuel room block es)
unfolding fill fill_step read
fill-Fills fuel zero block es h lt = record {
  rest = es;
  result = ap (λ t. filled t es) (sym (append-nil _));
  is_stream = h;
  left = refl;
  smaller = omega arith;
}
fill-Fills zero (suc room) block es h lt = elim lt [ ]
fill-Fills (suc fuel) (suc room) block [] h lt = record {
  rest = [];
  result = ap (λ t. filled t []) (sym (append-nil _));
  is_stream = tt;
  left = refl;
  smaller = omega arith;
}
fill-Fills (suc fuel) (suc room) block (interrupted ∷ es) h lt =
    let f = fill-Fills fuel (suc room) block es h.1 (omega arith) in
    record {
      rest = f.rest;
      result = f.result;
      is_stream = f.is_stream;
      left = f.left;
      smaller = omega (arith, f.smaller);
    }
fill-Fills (suc fuel) (suc room) block (failed e ∷ es) h lt = elim h.0 [ ]
fill-Fills (suc fuel) (suc room) block (chunk [] ∷ es) h lt = absurd (omega (arith, h.0))
fill-Fills (suc fuel) (suc room) block (chunk (b ∷ bs) ∷ es) h lt =
    elim (Bool-cases (leb (length (b ∷ bs)) (suc room))) [
      | inl le ↦ rw le (
          Fills-whole (suc room) block (b ∷ bs) es _ (ground (arith, le))
            (fill-Fills fuel (suc room - length (b ∷ bs)) (block ++ b ∷ bs) es h.1 (omega arith)))
      | inr gt ↦
          let none_left : suc room - suc (length (take room bs)) ≡ 0 =
            omega (arith, length-take room bs, ltb_of gt) in
          rw gt (
            subst (Fills (suc room) block (chunk (b ∷ bs) ∷ es))
              (sym (fill-full fuel _ _ _ none_left))
              (Fills-part (suc room) block (b ∷ bs) es (ltb_of gt) h.1))
    ]
  where
    ltb_of : {m n : ℕ} → leb m n ≡ false → n < m
    ltb_of e = ground (arith, e)

module _ (sha3 : Bytes → HashId) (secret : Bytes) where
  module _ {S : Type 0} (block_out : HashId → Bytes → S → Outcome S) where
    -- The caller's function receives the blocks in order, with their hashes.
    unfoldable pub hand_out : List Bytes → S → Outcome S
    hand_out [] s = ok s
    hand_out (b ∷ bs) s = block_out (hash_block sha3 secret b) b s >>= hand_out bs

    -- What is returned after `before` blocks.
    finish : List HashId → List Bytes → S → Outcome (BlockList × S)
    finish before bs s =
        let blocks = before ++ map (hash_block sha3 secret) bs in
        ok (record { total = hash_total sha3 secret blocks; blocks = blocks }, s)

    finish-snoc :
        (before : List HashId) (b : Bytes) (bs : List Bytes) (m : Outcome S)
        → (m >>= finish (before ++ hash_block sha3 secret b ∷ []) bs)
          ≡ (m >>= finish before (b ∷ bs))
    unfolding finish
    finish-snoc before b bs no_fuel = refl
    finish-snoc before b bs (err e) = refl
    finish-snoc before b bs (ok s) =
        ap (λ l. ok (record { total = hash_total sha3 secret l; blocks = l }, s))
          (append_assoc before (hash_block sha3 secret b ∷ []) (map (hash_block sha3 secret) bs))

    module _ (m : ℕ) where
      -- What the loop yields with the given fuel.
      LoopIs : ℕ → Type 0
      LoopIs fuel =
          (k : ℕ) (before : List HashId) (s : S) (es : Reader)
          → IsStream es
          → size es < fuel
          → length (contents es) ≤ k
          → blocks_loop sha3 secret (suc m) block_out fuel before s es ≡ (
              hand_out (blocks_of k (suc m) (contents es)) s
              >>= finish before (blocks_of k (suc m) (contents es)))

      after_fill :
          (fuel : ℕ)
          → LoopIs fuel
          → (k : ℕ) (before : List HashId) (s : S) (c : Bytes) (rest : Reader) → IsStream rest
          → contents rest ≡ drop (suc m) c
          → size rest + length (take (suc m) c) ≤ fuel
          → length c ≤ k
          → block_step sha3 secret
              (suc m)
              block_out
              (blocks_loop sha3 secret (suc m) block_out fuel)
              before
              s
              (filled (take (suc m) c) rest)
            ≡ (hand_out (blocks_of k (suc m) c) s >>= finish before (blocks_of k (suc m) c))
      unfolding LoopIs block_step hand_out blocks_of finish
      after_fill fuel loop k before s [] rest h q lt le =
          ap (λ l. ok (record { total = hash_total sha3 secret l; blocks = l }, s))
            (sym (append-nil before))
      after_fill fuel loop zero before s (c ∷ cs) rest h q lt le = absurd (omega arith)
      after_fill fuel loop (suc k) before s (c ∷ cs) rest h q lt le =
          by_result (block_out (hash_block sha3 secret (c ∷ take m cs)) (c ∷ take m cs) s)
        where
          by_result :
              (r : Outcome S)
              → (r >>= λ s'.
                  blocks_loop sha3 secret
                    (suc m)
                    block_out
                    fuel
                    (before ++ hash_block sha3 secret (c ∷ take m cs) ∷ [])
                    s'
                    rest)
                ≡ (r
                    >>= hand_out (blocks_of k (suc m) (drop m cs))
                    >>= finish before ((c ∷ take m cs) ∷ blocks_of k (suc m) (drop m cs)))
          by_result no_fuel = refl
          by_result (err e) = refl
          by_result (ok s') =
              loop k (before ++ hash_block sha3 secret (c ∷ take m cs) ∷ []) s' rest h (omega arith)
                (omega (arith, ap length q, length-drop m cs))
              ∙ ap
                  (λ t.
                    hand_out (blocks_of k (suc m) t) s'
                    >>= finish (before ++ hash_block sha3 secret (c ∷ take m cs) ∷ [])
                        (blocks_of k (suc m) t))
                  q
              ∙ finish-snoc before (c ∷ take m cs) (blocks_of k (suc m) (drop m cs))
                  (hand_out (blocks_of k (suc m) (drop m cs)) s')

      blocks_loop-LoopIs : (fuel : ℕ) → LoopIs fuel
      unfolding LoopIs blocks_loop
      blocks_loop-LoopIs zero k before s es h lt le = elim lt [ ]
      blocks_loop-LoopIs (suc fuel) k before s es h lt le =
          let f = fill-Fills (suc (size es)) (suc m) [] es h (omega arith) in
          rw f.result (
            after_fill fuel (blocks_loop-LoopIs fuel) k before s (contents es) f.rest f.is_stream
              f.left (omega (arith, f.smaller)) le)

-- Cutting loses nothing, and no block is empty or too long.
concat-blocks_of : (m k : ℕ) (c : Bytes) → length c ≤ k → concat (blocks_of k (suc m) c) ≡ c
unfolding concat blocks_of
concat-blocks_of m k [] h = refl
concat-blocks_of m zero (c ∷ cs) h = absurd (omega arith)
concat-blocks_of m (suc k) (c ∷ cs) h =
    ap (λ t. c ∷ (take m cs ++ t))
      (concat-blocks_of m k (drop m cs) (omega (arith, length-drop m cs)))
    ∙ ap (λ t. c ∷ t) (take-append-drop m cs)

-- A block is not empty, and has at most `n` bytes.
abbrev pub BlockFits : ℕ → Bytes → Type 0
BlockFits n b = (0 < length b) × (length b ≤ n)

blocks_of-All : (m k : ℕ) (c : Bytes) → All (BlockFits (suc m)) (blocks_of k (suc m) c)
unfolding blocks_of
blocks_of-All m k [] = tt
blocks_of-All m zero (c ∷ cs) = tt
blocks_of-All m (suc k) (c ∷ cs) =
    ((omega arith, omega (arith, length-take m cs)), blocks_of-All m k (drop m cs))

-- What the blocks identify: their hashes, and the hash of these.
unfoldable pub block_list : (sha3 : Bytes → HashId) (secret : Bytes) → List Bytes → BlockList
block_list sha3 secret bs =
    let blocks = map (hash_block sha3 secret) bs in
    record { total = hash_total sha3 secret blocks; blocks = blocks }

-- Of a stream without errors, however its bytes arrive and wherever it is interrupted, the blocks
-- are the contents cut every `block_size` bytes, for a `block_size` above 0: they are handed out in
-- order with their hashes, the loops end, and unless the caller's function fails the list of their
-- hashes with the hash of these is returned. The blocks give the contents again, and each has
-- between 1 and `block_size` bytes.
pub stream_to_blocks-split :
    (sha3 : Bytes → HashId) (secret : Bytes) {S : Type 0}
    (block_out : HashId → Bytes → S → Outcome S) (block_size : ℕ) (s : S) (input : Reader)
    → 0 < block_size
    → IsStream input
    → (stream_to_blocks sha3 secret block_size block_out s input ≡ (
        hand_out sha3 secret block_out (split block_size (contents input)) s >>= λ s'.
        ok (block_list sha3 secret (split block_size (contents input)), s')))
      × (concat (split block_size (contents input)) ≡ contents input)
      × All (BlockFits block_size) (split block_size (contents input))
unfolding stream_to_blocks split LoopIs finish block_list
stream_to_blocks-split sha3 secret block_out zero s input pos h = elim pos [ ]
stream_to_blocks-split sha3 secret block_out (suc m) s input pos h = (
  blocks_loop-LoopIs sha3 secret block_out m (suc (size input)) (length (contents input)) [] s input
      h (omega arith) (omega arith),
  concat-blocks_of m (length (contents input)) (contents input) (omega arith),
  blocks_of-All m (length (contents input)) (contents input),
)
