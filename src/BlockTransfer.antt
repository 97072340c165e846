-- ===== src/BlockTransfer.antt =====
-- src/block_xfer.rs: a byte stream is split into blocks, and put together again. The hash function
-- (SHA3-256, of tiny_keccak) is a parameter; its updates concatenate. Streams are given by what the
-- calls of their `read` meet in turn.
pub mod Split
pub mod Join
pub mod Transfer
mod Tests
use ensync.Base.{
  ℕ, zero, suc, ◌+◌, ◌-◌, ◌<◌, Bool, true, false, Option, none, some, List, [], ◌∷◌, ◌++◌,
  if◌then◌else◌, leb, length, take, drop,
}
use ensync.Base.Text.{Text, text, Bytes, text_eq}
use ensync.FileData.{HashId}

-- `BlockList`
pub record BlockList : Type 0 where
  pub total : HashId
  pub blocks : List HashId

-- The errors of both operations: of a reader, of the writer, of the caller's functions.
pub data Error : Type 0 where
  io_error : Text → Error
  write_error : Error
  callback_error : Text → Error
  hmac_mismatch : Text → HashId → HashId → Error

-- `no_fuel` is a loop that was cut off.
pub data Outcome (A : Type 0) : Type 0 where
  ok : A → Outcome A
  err : Error → Outcome A
  no_fuel : Outcome A

infixl 5 ◌>>=◌
abbrev pub ◌>>=◌ : {A B : Type 0} → Outcome A → (A → Outcome B) → Outcome B
ok a >>= f = f a
err e >>= f = err e
no_fuel >>= f = no_fuel

-- What the calls of `read` meet: bytes that have arrived together (a read of no bytes if none have),
-- an interruption, an error. After the last of them the file is at its end.
pub data Event : Type 0 where
  chunk : Bytes → Event
  interrupted : Event
  failed : Text → Event

abbrev pub Reader : Type 0
Reader = List Event

pub data Read : Type 0 where
  got : Bytes → Reader → Read
  again : Reader → Read
  broken : Text → Read

-- `input.read(buf)`, with a buffer of `n` bytes. What does not fit is left for the next call.
unfoldable pub read : ℕ → Reader → Read
read n [] = got [] []
read n (chunk b ∷ es) =
    if leb (length b) n then got b es else got (take n b) (chunk (drop n b) ∷ es)
read n (interrupted ∷ es) = again es
read n (failed e ∷ es) = broken e

-- Each `read` into a buffer that is not empty takes away an event or a byte.
abbrev pub size : Reader → ℕ
size [] = 0
size (chunk b ∷ es) = suc (length b) + size es
size (_ ∷ es) = suc (size es)

unfoldable pub concat : List Bytes → Bytes
concat [] = []
concat (b ∷ bs) = b ++ concat bs

-- The bytes of a block, or an error, with the rest of the input.
pub data Filled : Type 0 where
  filled : Bytes → Reader → Filled
  read_failed : Text → Filled
  unfinished : Filled

-- One call of `read` in the loop that fills a block of which `room` bytes are free.
unfoldable pub fill_step : (ℕ → Bytes → Reader → Filled) → ℕ → Bytes → Read → Filled
fill_step next room block (got [] es) = filled block es
fill_step next room block (got (b ∷ bs) es) = next (room - length (b ∷ bs)) (block ++ b ∷ bs) es
fill_step next room block (again es) = next room block es
fill_step next room block (broken e) = read_failed e

-- `while off < block_size`
unfoldable pub fill : ℕ → ℕ → Bytes → Reader → Filled
fill fuel zero block es = filled block es
fill zero (suc room) block es = unfinished
fill (suc fuel) (suc room) block es = fill_step (fill fuel) (suc room) block (read (suc room) es)

module _ (sha3 : Bytes → HashId) (secret : Bytes) where
  unfoldable pub hash_block : Bytes → HashId
  hash_block block = sha3 (secret ++ block)

  -- The hash of the whole: of the hashes of the blocks, in order.
  unfoldable pub hash_total : List HashId → HashId
  hash_total blocks = sha3 (secret ++ concat blocks)

  module _ {S : Type 0} (block_size : ℕ) (block_out : HashId → Bytes → S → Outcome S) where
    -- After the loop that fills a block: the end, or the block goes out and the loop goes on.
    unfoldable pub block_step :
        (List HashId → S → Reader → Outcome (BlockList × S))
        → List HashId
        → S
        → Filled
        → Outcome (BlockList × S)
    block_step next blocks s unfinished = no_fuel
    block_step next blocks s (read_failed e) = err (io_error e)
    block_step next blocks s (filled [] es) =
        ok (record { total = hash_total blocks; blocks = blocks }, s)
    block_step next blocks s (filled (b ∷ bs) es) =
        let hash = hash_block (b ∷ bs) in
        block_out hash (b ∷ bs) s >>= λ s'. next (blocks ++ hash ∷ []) s' es

    unfoldable pub blocks_loop : ℕ → List HashId → S → Reader → Outcome (BlockList × S)
    blocks_loop zero blocks s es = no_fuel
    blocks_loop (suc fuel) blocks s es =
        block_step (blocks_loop fuel) blocks s (fill (suc (size es)) block_size [] es)

    -- `stream_to_blocks(input, block_size, secret, block_out)`
    unfoldable pub stream_to_blocks : S → Reader → Outcome (BlockList × S)
    stream_to_blocks s input = blocks_loop (suc (size input)) [] s input

  module _ {W F : Type 0} (write_all : Bytes → W → Option W)
      (block_fetch : HashId → F → Outcome (Reader × F)) where
    unfoldable pub write_or_fail : Option W → Outcome W
    write_or_fail none = err write_error
    write_or_fail (some w) = ok w

    -- One call of `read` in the loop that copies a block, of which `block` has been hashed.
    unfoldable pub copy_step :
        (Bytes → W → Reader → Outcome (Bytes × W)) → Bytes → W → Read → Outcome (Bytes × W)
    unfolding write_or_fail
    copy_step next block w (got [] es) = ok (block, w)
    copy_step next block w (got (b ∷ bs) es) =
        write_or_fail (write_all (b ∷ bs) w) >>= λ w'. next (block ++ b ∷ bs) w' es
    copy_step next block w (again es) = next block w es
    copy_step next block w (broken e) = err (io_error e)

    unfoldable pub copy_block : ℕ → Bytes → W → Reader → Outcome (Bytes × W)
    copy_block zero block w es = no_fuel
    copy_block (suc fuel) block w es = copy_step (copy_block fuel) block w (read 4096 es)

    -- `for id in &input.blocks`
    unfoldable pub copy_blocks : List HashId → F → W → Outcome W
    copy_blocks [] f w = ok w
    copy_blocks (id ∷ ids) f w = block_fetch id f >>= λ (reader, f').
        copy_block (suc (size reader)) [] w reader >>= λ (block, w').
        (let rest = copy_blocks ids f' w' in
          if text_eq (hash_block block) id
          then rest
          else err (hmac_mismatch (text "block") id (hash_block block)))

    -- `blocks_to_stream(input, output, secret, block_fetch)`
    unfoldable pub blocks_to_stream : BlockList → F → W → Outcome W
    blocks_to_stream input f w =
        let copied = copy_blocks input.blocks f w in
        if text_eq (hash_total input.blocks) input.total
        then copied
        else err (hmac_mismatch (text "total") input.total (hash_total input.blocks))
