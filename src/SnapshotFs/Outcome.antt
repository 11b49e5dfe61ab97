-- ===== src/SnapshotFs/Outcome.antt =====
-- What a step of the ext4 reader can end with, and the rules for its steps.
use cloudable.Base.{
  if_keeps, sym, subst, ℕ, zero, suc, ◌+◌, ◌≤◌, ◌<◌, ◌≡◌, Bool, true, false, refl, [], ◌∷◌, Result,
  ok, err, length, arith, if◌then◌else◌, leb, nat_beq, ◌||◌,
}
use cloudable.SnapshotFs.{◌>>=◌, Bytes, Failure, read_error, range_error, out_of_fuel, RangeReader}
use cloudable.SnapshotFs.Bytes.{uint8, uint16, uint32, slice}

-- An error that the code means to raise: no access outside a buffer, and no lack of rounds.
abbrev pub Thrown : Failure → Type 0
Thrown range_error = ⊥
Thrown out_of_fuel = ⊥
Thrown _ = Unit

-- A value with `P`, or an error with `T`.
pub data Ends {ℓ} {A : Type ℓ} (T : Failure → Type 0) (P : A → Type 0)
    : Result Failure A → Type ℓ where
  gives : {a : A} → P a → Ends T P (ok a)
  throws : {e : Failure} → T e → Ends T P (err e)

-- A value with `P`, or an error that is meant.
abbrev pub Yields {ℓ} : {A : Type ℓ} → (A → Type 0) → Result Failure A → Type ℓ
Yields P m = Ends Thrown P m

-- A value with `P`, and no error.
abbrev pub Returns {ℓ} : {A : Type ℓ} → (A → Type 0) → Result Failure A → Type ℓ
Returns P m = Ends (λ _. ⊥) P m

module _ {ℓ κ} {A : Type ℓ} {B : Type κ} {T : Failure → Type 0} {P : A → Type 0}
    {Q : B → Type 0} where
  pub Ends-bind :
      {m : Result Failure A} {f : A → Result Failure B}
      → Ends T P m
      → ((a : A) → P a → Ends T Q (f a))
      → Ends T Q (m >>= f)
  unfolding ◌>>=◌
  Ends-bind (gives p) next = next _ p
  Ends-bind (throws t) next = throws t

module _ {ℓ} {A : Type ℓ} {T : Failure → Type 0} {P Q : A → Type 0} where
  pub Ends-weaken : {m : Result Failure A} → Ends T P m → ((a : A) → P a → Q a) → Ends T Q m
  Ends-weaken (gives p) next = gives (next _ p)
  Ends-weaken (throws t) next = throws t

-- A step that branches ends as its branches do, each under its test.
pub Ends-if {ℓ} :
    {A : Type ℓ} {T : Failure → Type 0} {P : A → Type 0} {x y : Result Failure A} (test : Bool)
    → (test ≡ true → Ends T P x)
    → (test ≡ false → Ends T P y)
    → Ends T P (if test then x else y)
Ends-if {T = T} {P = P} {x = x} {y = y} test p q = if_keeps (Ends T P) test x y p q

-- What every reader promises: exactly the bytes that were asked for, or an error.
pub record ReadsExactly (reader : RangeReader) : Type 0 where
  pub exact : (offset n : ℕ) → Yields (λ bytes. length bytes ≡ n) (reader.read offset n)

abbrev pub Anything {ℓ} : {A : Type ℓ} → A → Type 0
Anything a = Unit

pub uint8-Yields : (view : Bytes) (at : ℕ) → at < length view → Yields Anything (uint8 view at)
unfolding uint8
uint8-Yields [] at h = absurd (omega arith)
uint8-Yields (x ∷ xs) zero h = gives tt
uint8-Yields (x ∷ xs) (suc at) h = uint8-Yields xs at (omega arith)

pub uint16-Yields :
    (view : Bytes) (at : ℕ) → at + 2 ≤ length view → Yields Anything (uint16 view at)
unfolding uint16
uint16-Yields view at h =
    Ends-if (leb (at + 2) (length view)) (λ _. gives tt) (λ e. absurd (ground arith))

pub uint32-Yields :
    (view : Bytes) (at : ℕ) → at + 4 ≤ length view → Yields Anything (uint32 view at)
unfolding uint32
uint32-Yields view at h =
    Ends-if (leb (at + 4) (length view)) (λ _. gives tt) (λ e. absurd (ground arith))

-- The bytes of an image from `offset` on, where it has them all.
abbrev pub image_read : Bytes → ℕ → ℕ → Result Failure Bytes
image_read image offset n =
    if nat_beq n 0 || leb (offset + n) (length image)
    then ok (slice offset n image)
    else err read_error

-- A reader of the image.
pub record Serves (image : Bytes) (reader : RangeReader) : Type 0 where
  pub whole : reader.size ≡ ok (length image)
  pub part :
      (offset n : ℕ) → offset + n ≤ length image → reader.read offset n ≡ ok (slice offset n image)

pub Ends-eq :
    {A : Type 0} {T : Failure → Type 0} {m : Result Failure A} {a : A}
    → m ≡ ok a
    → Ends T (λ b. b ≡ a) m
Ends-eq {T = T} {a = a} e = subst (Ends T (λ b. b ≡ a)) (sym e) (gives refl)

pub Returns→Yields : {A : Type 0} {P : A → Type 0} {m : Result Failure A} → Returns P m → Yields P m
Returns→Yields (gives p) = gives p
Returns→Yields (throws t) = elim t [ ]
