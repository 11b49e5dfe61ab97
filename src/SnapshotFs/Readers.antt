-- ===== src/SnapshotFs/Readers.antt =====
-- range-reader.ts: the readers of a local file and of a page blob. The file handle and the HTTP client
-- are parameters.
use cloudable.Base.{
  ltb, ◌&&◌, ℕ, ◌+◌, ◌-◌, ◌≡◌, Option, none, some, Result, ok, err, length, nat_beq, leb,
  if◌then◌else◌, arith,
}
use cloudable.SnapshotFs.{◌>>=◌, Bytes, Failure, read_error, RangeReader}
use cloudable.SnapshotFs.Outcome.{ReadsExactly, Yields, gives, throws, Anything, Ends-if, Ends-bind}

unfoldable pub of_option {ℓ} : {A : Type ℓ} → Option A → Result Failure A
of_option none = err read_error
of_option (some a) = ok a

-- Both readers refuse an answer of another length than they asked for.
unfoldable pub of_length : ℕ → Bytes → Result Failure Bytes
of_length n bytes = if nat_beq (length bytes) n then ok bytes else err read_error

-- `handle_read offset n` is what the handle put into a buffer of `n` bytes; `none` is its own error.
unfoldable pub file_range_reader : Option ℕ → ((offset n : ℕ) → Option Bytes) → RangeReader
unfolding of_option of_length
file_range_reader stat_size handle_read = record {
  size = of_option stat_size;
  read = λ offset n. of_option (handle_read offset n) >>= of_length n;
}

pub record Response : Type 0 where
  pub status : ℕ
  pub content_length : Option ℕ
  pub body : Bytes

pub usable_length : Option ℕ → Result Failure ℕ
usable_length none = err read_error
usable_length (some n) = if leb n 0 then err read_error else ok n

pub http_size : Response → Result Failure ℕ
unfolding usable_length
http_size response =
    if leb 200 response.status && ltb response.status 300
    then usable_length response.content_length
    else err read_error

pub http_body : ℕ → Response → Result Failure Bytes
unfolding of_length
http_body n response =
    if nat_beq response.status 206 then of_length n response.body else err read_error

-- `get first last` is the answer to a request with `range: bytes=first-last`.
pub http_range_reader : Option Response → ((first last : ℕ) → Option Response) → RangeReader
unfolding of_option http_size http_body
http_range_reader head get = record {
  size = of_option head >>= http_size;
  read = λ offset n. of_option (get offset (offset + n - 1)) >>= http_body n;
}

-- `size` of the HTTP reader keeps what it learned: it asks again only after a failure.
pub remember : Result Failure ℕ → Result Failure ℕ × Option ℕ
remember (ok n) = (ok n, some n)
remember (err e) = (err e, none)

pub kept_size : (cached_size : Option ℕ) → Option Response → Result Failure ℕ × Option ℕ
unfolding remember
kept_size (some n) head = (ok n, some n)
kept_size none head = remember (of_option head >>= http_size)

of_length-Yields : (n : ℕ) (bytes : Bytes) → Yields (λ bs. length bs ≡ n) (of_length n bytes)
unfolding of_length
of_length-Yields n bytes =
    Ends-if (nat_beq (length bytes) n) (λ e. gives (ground arith)) (λ _. throws tt)

of_option-Yields {ℓ} : {A : Type ℓ} (o : Option A) → Yields Anything (of_option o)
unfolding of_option
of_option-Yields none = throws tt
of_option-Yields (some a) = gives tt

pub file_range_reader-ReadsExactly :
    (stat_size : Option ℕ) (handle_read : (offset n : ℕ) → Option Bytes)
    → ReadsExactly (file_range_reader stat_size handle_read)
unfolding file_range_reader
file_range_reader-ReadsExactly stat_size handle_read = record {
  exact = λ offset n.
      Ends-bind (of_option-Yields (handle_read offset n)) (λ bytes _. of_length-Yields n bytes);
}

http_body-Yields :
    (n : ℕ) (response : Response) → Yields (λ bs. length bs ≡ n) (http_body n response)
unfolding http_body
http_body-Yields n response =
    Ends-if (nat_beq response.status 206) (λ _. of_length-Yields n response.body) (λ _. throws tt)

pub http_range_reader-ReadsExactly :
    (head : Option Response) (get : (first last : ℕ) → Option Response)
    → ReadsExactly (http_range_reader head get)
unfolding http_range_reader
http_range_reader-ReadsExactly head get = record {
  exact = λ offset n.
      Ends-bind (of_option-Yields (get offset (offset + n - 1)))
        (λ response _. http_body-Yields n response);
}
