-- ===== src/BlockTransfer/Tests.antt =====
-- Tests and witnesses for src/block_xfer.rs: "hello world" in blocks of 4, as in the source's own
-- test. The identity stands for the hash function.
use ensync.Base.{◌≡◌, refl, ◌⊎◌, Option, some, List, [], ◌∷◌, ◌++◌, All, drop, arith}
use ensync.Base.Text.{Bytes, text, text_eq}
use ensync.FileData.{HashId}
use ensync.BlockTransfer.{
  BlockList, Outcome, ok, err, ◌>>=◌, chunk, interrupted, failed, io_error, hmac_mismatch, Reader,
  read, concat, fill_step, fill, hash_block, hash_total, block_step, blocks_loop, stream_to_blocks,
  write_or_fail, copy_step, copy_block, copy_blocks, blocks_to_stream,
}
use ensync.BlockTransfer.Split.{
  IsStream, contents, block_list, blocks_of, split, hand_out, BlockFits, stream_to_blocks-split,
}
use ensync.BlockTransfer.Join.{Serves}
use ensync.BlockTransfer.Transfer.{
  Collision, blocks_to_stream-stream_to_blocks, stream_to_blocks-roundtrip,
}

abbrev plain_hash : Bytes → HashId
plain_hash b = b

abbrev secret : Bytes
secret = text "k"

-- The blocks that went out.
abbrev record_block : HashId → Bytes → List Bytes → Outcome (List Bytes)
record_block id b out = ok (out ++ b ∷ [])

-- A store that knows the blocks, and delivers each with an interruption.
abbrev fetch : HashId → Unit {0} → Outcome (Reader × Unit {0})
fetch id f = ok (interrupted ∷ chunk (drop 1 id) ∷ [], f)

abbrev append : Bytes → Bytes → Option Bytes
append b w = some (w ++ b)

appends : (b w w' : Bytes) → append b w ≡ some w' → w' ≡ w ++ b
appends b w w' e = ground (arith, e)

abbrev accepts : (b w : Bytes) → (w' : Bytes) × (append b w ≡ some w')
accepts b w = (w ++ b, refl)

abbrev hello : Reader
hello = chunk (text "hel") ∷ interrupted ∷ chunk (text "lo world") ∷ []

abbrev hello-IsStream : IsStream hello
hello-IsStream = (omega arith, (tt, (omega arith, tt)))

abbrev hello_list : BlockList
hello_list = record {
  total = text "kkhellko wokrld";
  blocks = text "khell" ∷ text "ko wo" ∷ text "krld" ∷ [];
}

split_hello :
    stream_to_blocks plain_hash secret 4 record_block [] hello
    ≡ ok (hello_list, text "hell" ∷ text "o wo" ∷ text "rld" ∷ [])
unfolding stream_to_blocks blocks_loop block_step fill fill_step read hash_block hash_total concat
split_hello = refl

join_hello :
    blocks_to_stream plain_hash secret append fetch hello_list tt [] ≡ ok (text "hello world")
unfolding blocks_to_stream copy_blocks copy_block copy_step write_or_fail read hash_block hash_total
    concat text_eq
join_hello = refl

join_corrupt :
    blocks_to_stream plain_hash secret append
      (λ id f. ok (chunk (text "x") ∷ [], f))
      hello_list
      tt
      []
    ≡ err (hmac_mismatch (text "block") (text "khell") (text "kx"))
unfolding blocks_to_stream copy_blocks copy_block copy_step write_or_fail read hash_block hash_total
    concat text_eq
join_corrupt = refl

split_failed :
    stream_to_blocks plain_hash secret 4 record_block []
      (chunk (text "hello") ∷ failed (text "e") ∷ [])
    ≡ err (io_error (text "e"))
unfolding stream_to_blocks blocks_loop block_step fill fill_step read hash_block hash_total concat
split_failed = refl

stream_to_blocks-split_example :
    (stream_to_blocks plain_hash secret 4 record_block [] hello ≡ (
      hand_out plain_hash secret record_block (split 4 (contents hello)) [] >>= λ s'.
      ok (block_list plain_hash secret (split 4 (contents hello)), s')))
    × (concat (split 4 (contents hello)) ≡ contents hello)
    × All (BlockFits 4) (split 4 (contents hello))
stream_to_blocks-split_example =
    stream_to_blocks-split plain_hash secret record_block 4 [] hello (omega arith) hello-IsStream

blocks_to_stream-stream_to_blocks_example :
    (text "hello world" ≡ [] ++ contents hello) ⊎ Collision plain_hash secret
blocks_to_stream-stream_to_blocks_example =
    blocks_to_stream-stream_to_blocks plain_hash secret record_block append fetch (λ w. w) appends 4
      [] _ hello hello_list tt [] (text "hello world") (omega arith) hello-IsStream split_hello
      join_hello

hello-Serves :
    Serves plain_hash secret append fetch (λ w. w) appends accepts (split 4 (contents hello)) tt
unfolding Serves split blocks_of hash_block
hello-Serves = (
  _,
  tt,
  refl,
  (tt, (omega arith, tt)),
  refl,
  (_, tt, refl, (tt, (omega arith, tt)), refl, (_, tt, refl, (tt, (omega arith, tt)), refl, tt)),
)

stream_to_blocks-roundtrip_example :
    (w' : Bytes) × (blocks_to_stream plain_hash secret append fetch hello_list tt [] ≡ ok w')
    × (w' ≡ [] ++ contents hello)
stream_to_blocks-roundtrip_example =
    stream_to_blocks-roundtrip plain_hash secret record_block append fetch (λ w. w) appends accepts
      4 [] _ hello hello_list tt [] (omega arith) hello-IsStream split_hello hello-Serves
