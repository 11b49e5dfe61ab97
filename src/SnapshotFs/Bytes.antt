-- ===== src/SnapshotFs/Bytes.antt =====
-- Byte buffers of the ext4 reader: `Uint8Array` and `DataView` on lists of numbers.
use cloudable.Base.{
  ap, ℕ, zero, suc, ◌+◌, ◌-◌, ◌*◌, ◌≤◌, ◌<◌, min, ◌≡◌, refl, [], ◌∷◌, ◌++◌, Result, ok, err, length,
  take, leb, if◌then◌else◌, arith, length-append,
}
use native.Mathlib.Numerals.{unary_clauses}
use cloudable.SnapshotFs.{Bytes, Failure, range_error}

abbrev pub drop : ℕ → Bytes → Bytes
drop zero xs = xs
drop (suc n) [] = []
drop (suc n) (x ∷ xs) = drop n xs

-- The `n` bytes from `offset` on, as far as there are any.
abbrev pub slice : ℕ → ℕ → Bytes → Bytes
slice offset n xs = take n (drop offset xs)

abbrev pub zeroes : ℕ → Bytes
zeroes zero = []
zeroes (suc n) = 0 ∷ zeroes n

-- The byte at an index, and zero behind the end.
abbrev pub nth : ℕ → Bytes → ℕ
nth i [] = 0
nth zero (x ∷ xs) = x
nth (suc i) (x ∷ xs) = nth i xs

-- `DataView.getUint8`, and the little-endian `getUint16` and `getUint32`.
unfoldable pub uint8 : Bytes → ℕ → Result Failure ℕ
uint8 [] at = err range_error
uint8 (x ∷ xs) zero = ok x
uint8 (x ∷ xs) (suc at) = uint8 xs at

unfoldable pub uint16 : Bytes → ℕ → Result Failure ℕ
uint16 view at =
    if leb (at + 2) (length view)
    then ok (nth at view + 256 * nth (at + 1) view)
    else err range_error

unfoldable pub uint32 : Bytes → ℕ → Result Failure ℕ
uint32 view at =
    if leb (at + 4) (length view)
    then (ok (
        nth at view
        + 256 * nth (at + 1) view
        + 65536 * nth (at + 2) view
        + 16777216 * nth (at + 3) view))
    else err range_error

-- `out.set(bytes, at)`.
unfoldable pub set_bytes : Bytes → Bytes → ℕ → Result Failure Bytes
set_bytes out bytes at =
    if leb (at + length bytes) (length out)
    then ok (take at out ++ (bytes ++ drop (at + length bytes) out))
    else err range_error

zero_add : (i : ℕ) → 0 + i ≡ i
zero_add i = omega arith

suc_add : (a b : ℕ) → suc a + b ≡ suc (a + b)
suc_add a b = omega arith

pub length-drop : (n : ℕ) (xs : Bytes) → length (drop n xs) ≡ length xs - n
length-drop zero xs = omega arith
length-drop (suc n) [] = omega arith
length-drop (suc n) (x ∷ xs) = omega (arith, length-drop n xs)

pub length-take : (n : ℕ) (xs : Bytes) → length (take n xs) ≡ min n (length xs)
length-take zero xs = omega arith
length-take (suc n) [] = omega arith
length-take (suc n) (x ∷ xs) = omega (arith, length-take n xs)

pub length-zeroes : (n : ℕ) → length (zeroes n) ≡ n
length-zeroes zero = refl
length-zeroes (suc n) = omega (arith, length-zeroes n)

pub length-slice : (o n : ℕ) (xs : Bytes) → o + n ≤ length xs → length (slice o n xs) ≡ n
length-slice o n xs h = omega (arith, length-take n (drop o xs), length-drop o xs)

pub nth-zeroes : (i n : ℕ) → nth i (zeroes n) ≡ 0
nth-zeroes i zero = refl
nth-zeroes zero (suc n) = refl
nth-zeroes (suc i) (suc n) = nth-zeroes i n

pub nth-drop : (i o : ℕ) (xs : Bytes) → nth i (drop o xs) ≡ nth (o + i) xs
nth-drop i zero xs = rw (zero_add i) refl
nth-drop zero (suc o) [] = refl
nth-drop (suc i) (suc o) [] = refl
nth-drop i (suc o) (x ∷ xs) = rw (suc_add o i) (nth-drop i o xs)

pub nth-take : (i n : ℕ) (xs : Bytes) → i < n → nth i (take n xs) ≡ nth i xs
nth-take i zero xs h = absurd (omega arith)
nth-take i (suc n) [] h = refl
nth-take zero (suc n) (x ∷ xs) h = refl
nth-take (suc i) (suc n) (x ∷ xs) h = nth-take i n xs (omega arith)

pub nth-slice : (i o n : ℕ) (xs : Bytes) → i < n → nth i (slice o n xs) ≡ nth (o + i) xs
nth-slice i o n xs h = omega (arith, nth-take i n (drop o xs) h, nth-drop i o xs)

pub nth-append_left : (i : ℕ) (xs ys : Bytes) → i < length xs → nth i (xs ++ ys) ≡ nth i xs
nth-append_left i [] ys h = absurd (omega arith)
nth-append_left zero (x ∷ xs) ys h = refl
nth-append_left (suc i) (x ∷ xs) ys h = nth-append_left i xs ys (omega arith)

pub nth-append_right :
    (i : ℕ) (xs ys : Bytes) → length xs ≤ i → nth i (xs ++ ys) ≡ nth (i - length xs) ys
nth-append_right i [] ys h = simp unary_clauses refl
nth-append_right zero (x ∷ xs) ys h = absurd (omega arith)
nth-append_right (suc i) (x ∷ xs) ys h = simp unary_clauses (nth-append_right i xs ys (omega arith))

-- Neighbouring slices join.
take-drop : (a b : ℕ) (xs : Bytes) → take a xs ++ take b (drop a xs) ≡ take (a + b) xs
take-drop zero b xs = rw (zero_add b) refl
take-drop (suc a) zero [] = simp unary_clauses refl
take-drop (suc a) (suc b) [] = simp unary_clauses refl
take-drop (suc a) b (x ∷ xs) = rw (suc_add a b, take-drop a b xs) refl

pub drop-drop : (a b : ℕ) (xs : Bytes) → drop b (drop a xs) ≡ drop (a + b) xs
drop-drop zero b xs = rw (zero_add b) refl
drop-drop (suc a) zero [] = simp unary_clauses refl
drop-drop (suc a) (suc b) [] = simp unary_clauses refl
drop-drop (suc a) b (x ∷ xs) = rw (suc_add a b) (drop-drop a b xs)

pub slice-append :
    (o a b : ℕ) (xs : Bytes) → slice o a xs ++ slice (o + a) b xs ≡ slice o (a + b) xs
slice-append o a b xs = rw (← drop-drop o a xs) (take-drop a b (drop o xs))

take-take : (t n : ℕ) (xs : Bytes) → t ≤ n → take t (take n xs) ≡ take t xs
take-take zero n xs h = refl
take-take (suc t) zero xs h = absurd (omega arith)
take-take (suc t) (suc n) [] h = refl
take-take (suc t) (suc n) (x ∷ xs) h = rw (take-take t n xs (omega arith)) refl

slice-take : (w t n : ℕ) (xs : Bytes) → w + t ≤ n → slice w t (take n xs) ≡ slice w t xs
slice-take zero t n xs h = take-take t n xs (omega arith)
slice-take (suc w) t zero xs h = absurd (omega arith)
slice-take (suc w) t (suc n) [] h = refl
slice-take (suc w) t (suc n) (x ∷ xs) h = slice-take w t n xs (omega arith)

-- A slice within a slice.
pub slice-slice :
    (w t o n : ℕ) (xs : Bytes) → w + t ≤ n → slice w t (slice o n xs) ≡ slice (o + w) t xs
slice-slice w t o n xs h = rw (slice-take w t n (drop o xs) h, drop-drop o w xs) refl

-- What a buffer holds after `set`.
module _ (out bytes after : Bytes) (at : ℕ) (done : set_bytes out bytes at ≡ ok after) where
  pub set_fits :
      (at + length bytes ≤ length out)
      × (after ≡ take at out ++ (bytes ++ drop (at + length bytes) out))
  unfolding set_bytes
  set_fits = ground arith

  pub length-set_bytes : length after ≡ length out
  length-set_bytes = omega (
    arith,
    set_fits.0,
    ap length set_fits.1,
    length-append (take at out) (bytes ++ drop (at + length bytes) out),
    length-append bytes (drop (at + length bytes) out),
    length-take at out,
    length-drop (at + length bytes) out,
  )

  pub nth-set_bytes_before : (i : ℕ) → i < at → nth i after ≡ nth i out
  nth-set_bytes_before i h = rw set_fits.1 (
      grind (
        arith,
        set_fits.0,
        length-take at out,
        nth-take i at out,
        nth-append_left i (take at out) (bytes ++ drop (at + length bytes) out),
      ))

  pub nth-set_bytes_within :
      (i : ℕ) → at ≤ i → i < at + length bytes → nth i after ≡ nth (i - at) bytes
  nth-set_bytes_within i h k = rw set_fits.1 (
      grind (
        arith,
        set_fits.0,
        length-take at out,
        nth-append_right i (take at out) (bytes ++ drop (at + length bytes) out),
        nth-append_left (i - at) bytes (drop (at + length bytes) out),
      ))

  pub nth-set_bytes_after : (i : ℕ) → at + length bytes ≤ i → nth i after ≡ nth i out
  nth-set_bytes_after i h = rw set_fits.1 (
      grind (
        arith,
        set_fits.0,
        length-take at out,
        nth-append_right i (take at out) (bytes ++ drop (at + length bytes) out),
        nth-append_right (i - at) bytes (drop (at + length bytes) out),
        nth-drop (i - at - length bytes) (at + length bytes) out,
      ))
