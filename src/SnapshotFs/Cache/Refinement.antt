-- ===== src/SnapshotFs/Cache/Refinement.antt =====
-- The cache answers as the image itself does, in any sequence of reads, and stays within its bound.
use cloudable.Base.{
  map, ap, length-append, if_keeps, ℕ, zero, suc, ◌+◌, ◌-◌, ◌*◌, ◌/◌, ◌≤◌, ◌<◌, ◌≡◌, refl, min,
  List, [], ◌∷◌, ◌++◌, Result, ok, err, length, nat_beq, leb, if◌then◌else◌, arith, ◌||◌, ap, ◌∙◌,
  length-append,
}
use cloudable.SnapshotFs.{Bytes, Failure, read_error, RangeReader}
use cloudable.SnapshotFs.Outcome.{image_read, Serves}
use cloudable.SnapshotFs.Bytes.{slice, length-slice, slice-slice, slice-append}
use cloudable.SnapshotFs.Cache.{Block, Cached, and_then, block_at, read_loop, caching_read}
use cloudable.SnapshotFs.Cache.Blocks.{Coherent, within_block, AnswersBlock, block_at-Answers}

module _ (image : Bytes) (inner : RangeReader) (serves : Serves image inner)
    (block_size max_blocks : ℕ) where
  -- What is left of a read of which `out` is done.
  abbrev Answers : ℕ → ℕ → ℕ → Cached Bytes → Type 0
  Answers offset done wanted r =
      (r.0 ≡ (
        if nat_beq wanted 0 || leb (offset + done + wanted) (length image)
        then ok (slice offset (done + wanted) image)
        else err read_error))
      × Coherent image block_size max_blocks r.1

  -- One more slice of the image behind what is there.
  extended :
      (offset index n : ℕ) (out block : Bytes)
      → index * block_size ≤ offset + length out
      → out ≡ slice offset (length out) image
      → block ≡ slice (index * block_size) (length block) image
      → offset + length out - index * block_size + n ≤ length block
      → index * block_size + length block ≤ length image
      → (length (out ++ slice (offset + length out - index * block_size) n block) ≡ length out + n)
        × (out ++ slice (offset + length out - index * block_size) n block
            ≡ slice offset (length out + n) image)
  extended offset index n out block h ho hb hn hl =
      let within = offset + length out - index * block_size in
      let at : index * block_size + within ≡ offset + length out = omega arith in
      let piece : slice within n block ≡ slice (offset + length out) n image =
        ap (λ (t : Bytes). slice within n t) hb
        ∙ slice-slice within n (index * block_size) (length block) image hn
        ∙ ap (λ (t : ℕ). slice t n image) at in
      (
        omega (arith, length-append out (slice within n block), length-slice within n block hn),
        rw piece (
            ap (λ (t : Bytes). t ++ slice (offset + length out) n image) ho
            ∙ slice-append offset (length out) n image),
      )

  copied :
      (fuel offset w index : ℕ) (out : Bytes) (r : Cached Bytes)
      → (index * block_size ≤ offset + length out)
        × (offset + length out < index * block_size + block_size)
      → out ≡ slice offset (length out) image
      → ((wanted : ℕ) (out' : Bytes) (later : List Block)
          → wanted < suc w
          → out' ≡ slice offset (length out') image
          → Coherent image block_size max_blocks later
          → Answers offset
              (length out')
              wanted
              (read_loop inner block_size max_blocks fuel offset wanted out' later))
      → AnswersBlock image inner serves block_size max_blocks index r
      → Answers offset (length out) (suc w) (
          and_then r (λ block later.
            let n = min (suc w) (length block - (offset + length out - index * block_size)) in
            let rest =
              read_loop inner block_size max_blocks fuel offset
                (suc w - n)
                (out ++ slice (offset + length out - index * block_size) n block)
                later in
            if leb n 0 then (err read_error, later) else rest))
  copied fuel offset w index out (err e, later) (lo, hi) ho next a = ground arith
  copied fuel offset w index out (ok block, later) (lo, hi) ho next a =
      let within = offset + length out - index * block_size in
      let n = min (suc w) (length block - within) in
      let held : (index * block_size < length image)
          × (block
              ≡ slice (index * block_size) (min block_size (length image - index * block_size))
                  image) =
        ground arith in
      let size : length block ≡ min block_size (length image - index * block_size) =
        ap length held.1
        ∙ length-slice (index * block_size) (min block_size (length image - index * block_size))
            image (omega arith) in
      if_keeps (Answers offset (length out) (suc w)) (leb n 0) (err read_error, later)
        (read_loop inner block_size max_blocks fuel offset (suc w - n) (out ++ slice within n block)
          later)
        (λ e. (ground arith, a.1))
        (λ e.
          let (longer, so_far) =
            extended offset index n out block lo ho (held.1 ∙ rw size refl) (ground arith)
              (omega arith) in
          let (answer, later_coherent) =
            next (suc w - n) (out ++ slice within n block) later (ground arith) (rw longer so_far)
              a.1 in
          let total : length (out ++ slice within n block) + (suc w - n) ≡ length out + suc w =
            omega arith in
          (answer ∙ rw total (ground arith), later_coherent))

  read_loop-Answers :
      (fuel offset wanted : ℕ) (out : Bytes) (blocks : List Block)
      → wanted ≤ fuel
      → 0 < block_size
      → out ≡ slice offset (length out) image
      → Coherent image block_size max_blocks blocks
      → Answers offset
          (length out)
          wanted
          (read_loop inner block_size max_blocks fuel offset wanted out blocks)
  unfolding read_loop
  read_loop-Answers fuel offset zero out blocks hf hb ho c =
      let e : length out + 0 ≡ length out = omega arith in (rw e (ap ok ho), c)
  read_loop-Answers zero offset (suc w) out blocks hf hb ho c = absurd (omega arith)
  read_loop-Answers (suc fuel) offset (suc w) out blocks hf hb ho c =
      let absolute = offset + length out in
      let index = absolute / block_size in
      copied fuel offset w index out (block_at inner block_size max_blocks index blocks)
        (within_block absolute block_size hb) ho
        (λ wanted out' later hf' ho' c'.
          read_loop-Answers fuel offset wanted out' later (omega arith) hb ho' c')
        (block_at-Answers image inner serves block_size max_blocks index blocks c hb)

module _ (inner : RangeReader) (block_size max_blocks : ℕ) where
  -- The answers to a sequence of reads, each with the cache that the one before it left.
  pub session : List (ℕ × ℕ) → List Block → List (Result Failure Bytes) × List Block
  session [] blocks = ([], blocks)
  session ((offset, n) ∷ reads) blocks =
      let (answer, later) = caching_read inner block_size max_blocks offset n blocks in
      let (answers, last) = session reads later in (answer ∷ answers, last)

module _ (image : Bytes) (inner : RangeReader) (serves : Serves image inner)
    (block_size max_blocks : ℕ) (positive : 0 < block_size) where
  session-Coherent :
      (reads : List (ℕ × ℕ)) (blocks : List Block)
      → Coherent image block_size max_blocks blocks
      → ((session inner block_size max_blocks reads blocks).0
          ≡ map (λ (r : ℕ × ℕ). image_read image r.0 r.1) reads)
        × Coherent image block_size max_blocks (session inner block_size max_blocks reads blocks).1
  unfolding session caching_read
  session-Coherent [] blocks c = (refl, c)
  session-Coherent ((offset, n) ∷ reads) blocks c =
      let (answer, later) =
        read_loop-Answers image inner serves block_size max_blocks n offset n [] blocks
          (omega arith) positive refl c in
      let (answers, last) =
        session-Coherent reads (caching_read inner block_size max_blocks offset n blocks).1 later in
      let e : offset + 0 ≡ offset = omega arith in
      let e' : 0 + n ≡ n = omega arith in (rw (rw (e, e') at answer, answers) refl, last)

  -- For any sequence of reads of an image through a cache that starts empty, with blocks of one byte at
  -- least: each is answered as the image itself answers it, with exactly the bytes at its offset or with
  -- an error where the image ends before them, and at the end at most `max_blocks` blocks are kept.
  pub session_refines_image :
      (reads : List (ℕ × ℕ))
      → ((session inner block_size max_blocks reads []).0
          ≡ map (λ (r : ℕ × ℕ). image_read image r.0 r.1) reads)
        × (length (session inner block_size max_blocks reads []).1 ≤ max_blocks)
  session_refines_image reads =
      let (answers, c) = session-Coherent reads [] (record { each = tt; bounded = omega arith }) in
      (answers, c.bounded)
