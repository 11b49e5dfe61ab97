-- ===== src/SnapshotFs/Extents/Runs.antt =====
-- One run of blocks of a read: what it copies, and the arithmetic of its blocks.
use cloudable.Base.{
  take, ◌++◌, ℕ, ◌+◌, ◌-◌, ◌*◌, ◌/◌, ◌%◌, ◌≤◌, ◌<◌, ◌≡◌, ◌∙◌, min, max, Bool, true, ◌&&◌, ◌||◌,
  List, [], ◌∷◌, ok, length, ltb, leb, if◌then◌else◌, arith,
}
use native.Mathlib.Nat.{div-add-mod', le-div_iff_mul-le, div-lt_iff_lt-mul}
use cloudable.SnapshotFs.{Bytes, RangeReader}
use cloudable.SnapshotFs.Bytes.{
  nth, slice, drop, zeroes, set_bytes, length-set_bytes, nth-set_bytes_before, nth-set_bytes_within,
  nth-set_bytes_after, nth-slice, length-slice, length-zeroes,
}
use cloudable.SnapshotFs.Outcome.{
  Returns→Yields, Ends-weaken, Ends-bind, Ends-if, gives, Yields, ReadsExactly, Returns,
}
use cloudable.SnapshotFs.Geometry.{Superblock}
use cloudable.SnapshotFs.Extents.{Extent, end_block, copy_run, read_run, read_runs, read_file_range}

-- A buffer of `n` bytes with given bytes.
abbrev pub Holds : ℕ → (ℕ → ℕ) → Bytes → Type 0
Holds n byte out = (length out ≡ n) × ((i : ℕ) → i < n → nth i out ≡ byte i)

pub set_bytes-Holds :
    (n at : ℕ) (bytes out : Bytes)
    → length out ≡ n
    → at + length bytes ≤ n
    → Returns
        (Holds n
          λ i. if leb at i && ltb i (at + length bytes) then nth (i - at) bytes else nth i out)
        (set_bytes out bytes at)
unfolding set_bytes
set_bytes-Holds n at bytes out len h =
    Ends-if (leb (at + length bytes) (length out))
      (λ e.
        let after = take at out ++ (bytes ++ drop (at + length bytes) out) in
        let done : set_bytes out bytes at ≡ ok after = ground arith in
        gives (
          length-set_bytes out bytes after at done ∙ len,
          λ i hi. ground (
            arith,
            nth-set_bytes_before out bytes after at done i,
            nth-set_bytes_within out bytes after at done i,
            nth-set_bytes_after out bytes after at done i,
          ),
        ))
      (λ e. absurd (ground arith))

pub copy_run-Holds :
    (start offset n : ℕ) (run out : Bytes)
    → length out ≡ n
    → Returns
        (Holds n λ i.
          if leb start (offset + i) && ltb (offset + i) (start + length run)
          then nth (offset + i - start) run
          else nth i out)
        (copy_run start offset n run out)
unfolding copy_run
copy_run-Holds start offset n run out len =
    let copy_from = max 0 (offset - start) in
    let copy_to = min (length run) (offset + n - start) in
    Ends-if (leb copy_to copy_from) (λ e. gives (len, λ i hi. ground arith))
      (λ e.
        let piece = slice copy_from (copy_to - copy_from) run in
        let size : length piece ≡ copy_to - copy_from =
          length-slice copy_from (copy_to - copy_from) run (ground arith) in
        Ends-weaken (set_bytes-Holds n (start + copy_from - offset) piece out len (ground arith))
          (λ after held. (
            held.0,
            λ i hi.
                held.1 i hi
                ∙ ground (
                  arith,
                  size,
                  nth-slice (i - (start + copy_from - offset)) copy_from (copy_to - copy_from) run,
                ),
          )))

-- A position lies in a run of blocks exactly if its block is one of them.
pub in_run :
    (block_size p from until : ℕ)
    → 0 < block_size
    → (leb (from * block_size) p && ltb p (until * block_size))
      ≡ (leb from (p / block_size) && ltb (p / block_size) until)
in_run block_size p from until positive = ground (
  arith,
  le-div_iff_mul-le {x = from} {y = p} positive,
  div-lt_iff_lt-mul {x = p} {y = until} positive,
)

div_mono : (a b k : ℕ) → 0 < k → a ≤ b → a / k ≤ b / k
div_mono a b k positive h =
    (le-div_iff_mul-le {x = a / k} {y = b} positive).1 (omega (arith, div-add-mod' a k))

-- The blocks that a read touches.
pub read_blocks :
    (block_size offset n i : ℕ)
    → 0 < block_size
    → i < n
    → (offset / block_size ≤ (offset + i) / block_size)
      × ((offset + i) / block_size < end_block block_size offset n)
read_blocks block_size offset n i positive h = (
  div_mono offset (offset + i) block_size positive (omega arith),
  ground (arith, div_mono (offset + i) (offset + n - 1) block_size positive),
)

pub blocks_to : (from until k : ℕ) → from ≤ until → from * k + (until - from) * k ≡ until * k
blocks_to from until k h = grind arith

times_add : (a b k : ℕ) → (a + b) * k ≡ a * k + b * k
times_add a b k = omega arith

times_sub : (a b k : ℕ) → b ≤ a → (a - b) * k + b * k ≡ a * k
times_sub a b k h = grind arith

times_le : (a b k : ℕ) → a ≤ b → a * k ≤ b * k
times_le a b k h = grind arith

pub if_same :
    (b c : Bool) (x y z : ℕ)
    → b ≡ c
    → (b ≡ true → x ≡ y)
    → (if b then x else z) ≡ (if c then y else z)
if_same b c x y z e h = ground arith

-- Where a block of a run starts in the image, from either end of the arithmetic.
pub place :
    (physical logical from p k : ℕ)
    → logical ≤ from
    → from ≤ p / k
    → (physical + (from - logical)) * k + (p - from * k)
      ≡ (physical + (p / k - logical)) * k + p % k
place physical logical from p k h h' =
    let near = from - logical in
    let beyond = p / k - from in
    let far : p / k - logical ≡ near + beyond = omega arith in
    rw far (
      omega (
        arith,
        times_add physical near k,
        times_add physical (near + beyond) k,
        times_add near beyond k,
        times_sub (p / k) from k h',
        div-add-mod' p k,
      ))

pub run_fits :
    (physical logical count from until k total : ℕ)
    → logical ≤ from
    → from ≤ until
    → until ≤ logical + count
    → (physical + count) * k ≤ total
    → (physical + (from - logical)) * k + (until - from) * k ≤ total
run_fits physical logical count from until k total h h' h'' room =
    let blocks = physical + (from - logical) + (until - from) in
    let within : blocks * k ≤ (physical + count) * k =
      times_le blocks (physical + count) k (omega arith) in
    omega (arith, times_add (physical + (from - logical)) (until - from) k)

-- On any image at all, a read of a file ends with as many bytes as it was asked for, or with an error
-- that the code means to raise.
module _ (reader : RangeReader) (promise : ReadsExactly reader) (sb : Superblock)
    (offset n : ℕ) where
  read_run-Yields :
      (e : Extent) (out : Bytes)
      → length out ≡ n
      → Yields (λ out'. length out' ≡ n) (read_run reader sb offset n e out)
  unfolding read_run
  read_run-Yields e out len =
      Ends-if
        (e.uninitialised
          || leb (min (e.logical_block + e.block_count) (end_block sb.block_size offset n))
              (max e.logical_block (offset / sb.block_size)))
        (λ _. gives len)
        (λ _. Ends-bind (promise.exact _ _) λ run _.
          Ends-weaken (Returns→Yields (copy_run-Holds _ offset n run out len))
            (λ out' held. held.0))

  read_runs-Yields :
      (extents : List Extent) (out : Bytes)
      → length out ≡ n
      → Yields (λ out'. length out' ≡ n) (read_runs reader sb offset n extents out)
  unfolding read_runs
  read_runs-Yields [] out len = gives len
  read_runs-Yields (e ∷ extents) out len =
      Ends-bind (read_run-Yields e out len) λ out' len'. read_runs-Yields extents out' len'

  pub read_file_range-Yields :
      (extents : List Extent)
      → Yields (λ out. length out ≡ n) (read_file_range reader sb extents offset n)
  unfolding read_file_range
  read_file_range-Yields extents = read_runs-Yields extents (zeroes n) (length-zeroes n)
