-- ===== src/SnapshotFs/Cache.antt =====
-- `cachingReader` of range-reader.ts: a bounded cache of blocks in front of another reader.
-- The `Map` is a list of its entries in the order of iteration; each read hands it on. The loop of a
-- read counts down the bytes still wanted: each round takes one at least.
pub mod Blocks
pub mod Refinement
use cloudable.Base.{
  ℕ, zero, suc, ◌+◌, ◌-◌, ◌*◌, ◌/◌, min, List, [], ◌∷◌, ◌++◌, Option, none, some, not, Result, ok,
  err, filter, find, length, nat_beq, ltb, leb, if◌then◌else◌,
}
use cloudable.SnapshotFs.{Bytes, Failure, read_error, out_of_fuel, RangeReader}
use cloudable.SnapshotFs.Bytes.{slice, drop}

pub record Block : Type 0 where
  pub index : ℕ
  pub bytes : Bytes

abbrev pub Cached : Type 0 → Type 0
Cached A = Result Failure A × List Block

abbrev pub and_then : {A B : Type 0} → Cached A → (A → List Block → Cached B) → Cached B
and_then (ok a, blocks) f = f a blocks
and_then (err e, blocks) f = (err e, blocks)

abbrev pub without : ℕ → List Block → List Block
without index blocks = filter (λ b. not (nat_beq b.index index)) blocks

-- An entry added behind the others; where there are more than `max_blocks`, the first goes.
abbrev pub evict : ℕ → List Block → List Block
evict max_blocks [] = []
evict max_blocks (b ∷ blocks) = if ltb max_blocks (length (b ∷ blocks)) then blocks else b ∷ blocks

module _ (inner : RangeReader) (block_size max_blocks : ℕ) where
  pub keep_block : ℕ → List Block → Bytes → Cached Bytes
  keep_block index blocks bytes =
      (ok bytes, evict max_blocks (blocks ++ (record { index = index; bytes = bytes } ∷ [])))

  pub read_block : ℕ → List Block → Result Failure Bytes → Cached Bytes
  unfolding keep_block
  read_block index blocks (err e) = (err e, blocks)
  read_block index blocks (ok bytes) = keep_block index blocks bytes

  pub fetch_block : ℕ → List Block → Result Failure ℕ → Cached Bytes
  unfolding read_block
  fetch_block index blocks (err e) = (err e, blocks)
  fetch_block index blocks (ok total) =
      let offset = index * block_size in
      let n = min block_size (total - offset) in
      if leb n 0 then (err read_error, blocks) else read_block index blocks (inner.read offset n)

  pub use_block : ℕ → List Block → Option Block → Cached Bytes
  unfolding fetch_block
  use_block index blocks (some b) =
      (ok b.bytes, without index blocks ++ (record { index = index; bytes = b.bytes } ∷ []))
  use_block index blocks none = fetch_block index blocks inner.size

  pub block_at : ℕ → List Block → Cached Bytes
  unfolding use_block
  block_at index blocks = use_block index blocks (find (λ b. nat_beq b.index index) blocks)

  -- `out` is what the buffer holds below `written`, and `wanted` is `length - written`.
  pub read_loop : ℕ → ℕ → ℕ → Bytes → List Block → Cached Bytes
  unfolding block_at
  read_loop fuel offset zero out blocks = (ok out, blocks)
  read_loop zero offset (suc w) out blocks = (err out_of_fuel, blocks)
  read_loop (suc fuel) offset (suc w) out blocks =
      let absolute = offset + length out in
      let index = absolute / block_size in
      let within = absolute - index * block_size in
      and_then (block_at index blocks) (λ block later.
        let n = min (suc w) (length block - within) in
        let rest = read_loop fuel offset (suc w - n) (out ++ slice within n block) later in
        if leb n 0 then (err read_error, later) else rest)

  pub caching_read : ℕ → ℕ → List Block → Cached Bytes
  unfolding read_loop
  caching_read offset n blocks = read_loop n offset n [] blocks
