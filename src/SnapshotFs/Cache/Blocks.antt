-- ===== src/SnapshotFs/Cache/Blocks.antt =====
-- A block of the cache holds what the image has at its place, whether it was found or fetched.
use cloudable.Base.{
  Option-cases, length-append, All-filter_of, All-append, All-find, find-eq-some, nat_beq_iff, Bool,
  if_keeps, ℕ, suc, ◌+◌, ◌-◌, ◌*◌, ◌/◌, ◌≤◌, ◌<◌, ◌≡◌, refl, min, List, [], ◌∷◌, ◌++◌, none, some,
  not, Result, ok, err, filter, find, length, nat_beq, ltb, leb, if◌then◌else◌, All, arith, inl,
  inr, length-append,
}
use native.Mathlib.Nat.{div-add-mod}
use cloudable.SnapshotFs.{Bytes, Failure, read_error, RangeReader}
use cloudable.SnapshotFs.Outcome.{Serves}
use cloudable.SnapshotFs.Bytes.{slice}
use cloudable.SnapshotFs.Cache.{
  Block, Cached, without, evict, keep_block, read_block, fetch_block, use_block, block_at,
}

-- What a block of the cache holds.
abbrev pub BlockOf : Bytes → ℕ → Block → Type 0
BlockOf image block_size b =
    (b.index * block_size < length image)
    × (b.bytes
        ≡ slice (b.index * block_size) (min block_size (length image - b.index * block_size)) image)

pub record Coherent (image : Bytes) (block_size max_blocks : ℕ) (blocks : List Block) : Type 0 where
  pub each : All (BlockOf image block_size) blocks
  pub bounded : length blocks ≤ max_blocks

pub within_block : (a b : ℕ) → 0 < b → (a / b * b ≤ a) × (a < a / b * b + b)
within_block a b h = grind (arith, div-add-mod a b)

length-filter-le :
    (p : Block → Bool) (blocks : List Block) → length (filter p blocks) ≤ length blocks
length-filter-le p [] = omega arith
length-filter-le p (c ∷ blocks) = ground (arith, length-filter-le p blocks)

length-without :
    (p : Block → Bool) (blocks : List Block) (b : Block)
    → find p blocks ≡ some b
    → length (filter (λ c. not (p c)) blocks) < length blocks
length-without p [] b h = absurd (ground arith)
length-without p (c ∷ blocks) b h =
    ground (arith, length-filter-le (λ c. not (p c)) blocks, length-without p blocks b)

length-evict : (m : ℕ) (blocks : List Block) → length blocks ≤ suc m → length (evict m blocks) ≤ m
length-evict m [] h = omega arith
length-evict m (b ∷ blocks) h = ground arith

All-evict :
    (P : Block → Type 0) (m : ℕ) (blocks : List Block) → All P blocks → All P (evict m blocks)
All-evict P m [] h = tt
All-evict P m (b ∷ blocks) h =
    if_keeps (All P) (ltb m (length (b ∷ blocks))) blocks (b ∷ blocks) (λ _. h.1) (λ _. h)

module _ (image : Bytes) (inner : RangeReader) (serves : Serves image inner)
    (block_size max_blocks : ℕ) where
  abbrev pub image_block : ℕ → Result Failure Bytes
  image_block index =
      if ltb (index * block_size) (length image)
      then ok
          (slice (index * block_size) (min block_size (length image - index * block_size)) image)
      else err read_error

  abbrev pub AnswersBlock : ℕ → Cached Bytes → Type 0
  AnswersBlock index r = (r.0 ≡ image_block index) × Coherent image block_size max_blocks r.1

  hit :
      (index : ℕ) (blocks : List Block) (b : Block)
      → Coherent image block_size max_blocks blocks
      → find (λ b. nat_beq b.index index) blocks ≡ some b
      → AnswersBlock index (use_block inner block_size max_blocks index blocks (some b))
  unfolding use_block
  hit index blocks b c e =
      let same : b.index ≡ index =
        (nat_beq_iff b.index index).0 (find-eq-some (λ b. nat_beq b.index index) blocks b e) in
      let here : BlockOf image block_size b =
        All-find (BlockOf image block_size) (λ b. nat_beq b.index index) blocks b e c.each in
      let here' : BlockOf image block_size (record { index = index; bytes = b.bytes }) =
        rw same at here in
      (
        ground (arith, here'),
        record {
          each =
              All-append (BlockOf image block_size) (without index blocks)
                (record { index = index; bytes = b.bytes } ∷ [])
                (All-filter_of (BlockOf image block_size) (λ b. not (nat_beq b.index index)) blocks
                  c.each)
                (here', tt);
          bounded = omega (
            arith,
            c.bounded,
            length-without (λ b. nat_beq b.index index) blocks b e,
            length-append (without index blocks) (record { index = index; bytes = b.bytes } ∷ []),
          );
        },
      )

  fetched :
      (index : ℕ) (blocks : List Block)
      → Coherent image block_size max_blocks blocks
      → index * block_size < length image
      → AnswersBlock index (
          read_block inner block_size max_blocks index blocks
            (inner.read (index * block_size) (min block_size (length image - index * block_size))))
  unfolding read_block keep_block
  fetched index blocks c h =
      let n = min block_size (length image - index * block_size) in
      let bytes = slice (index * block_size) n image in
      let added : List Block = record { index = index; bytes = bytes } ∷ [] in
      rw (serves.part (index * block_size) n (omega arith)) (
        ground arith,
        record {
          each =
              All-evict (BlockOf image block_size) max_blocks (blocks ++ added)
                (All-append (BlockOf image block_size) blocks added c.each ((h, refl), tt));
          bounded =
              length-evict max_blocks (blocks ++ added)
                (omega (arith, c.bounded, length-append blocks added));
        },
      )

  miss :
      (index : ℕ) (blocks : List Block)
      → Coherent image block_size max_blocks blocks
      → 0 < block_size
      → AnswersBlock index (use_block inner block_size max_blocks index blocks none)
  unfolding use_block fetch_block
  miss index blocks c h = rw serves.whole (
      if_keeps (AnswersBlock index) (leb (min block_size (length image - index * block_size)) 0)
        (err read_error, blocks)
        (read_block inner block_size max_blocks index blocks
          (inner.read (index * block_size) (min block_size (length image - index * block_size))))
        (λ e. (ground arith, c)) (λ e. fetched index blocks c (ground arith)))

  pub block_at-Answers :
      (index : ℕ) (blocks : List Block)
      → Coherent image block_size max_blocks blocks
      → 0 < block_size
      → AnswersBlock index (block_at inner block_size max_blocks index blocks)
  unfolding block_at
  block_at-Answers index blocks c h =
      elim (Option-cases (find (λ (b : Block). nat_beq b.index index) blocks)) [
        | inl e ↦ rw e (miss index blocks c h)
        | inr (b, e) ↦ rw e (hit index blocks b c e)
      ]
