-- ===== src/Net/Buffer.antt =====
-- The byte buffer of a connection: `BaseBuffer` of net/buffer.hpp. The indices are of the 64-bit type
-- `size_t`; `size`, `writeable` and the numbers of bytes of `append`, `enable_bytes`, the two
-- `retrieve_` functions and `read_bytes` are of the 32-bit type `int`. `none` stands for the end of the
-- program's defined behaviour: `size` aborts (`log_fatal`) where the read index has passed the write
-- index, a string of a negative number of bytes is an exception, and copying such a number is undefined.
pub mod Queue
pub mod Bounds
pub mod Refine
use cortono.Prelude.{
  Text, List, [], ◌∷◌, ◌++◌, ℕ, suc, ◌+◌, ◌-◌, ◌%◌, ◌^◌, Option, none, some, ltb, ◌==◌,
  if◌then◌else◌, is_prefix, length, take, drop, replicate, min, Bool,
}
use cortono.Prelude.Int.{ℤ, pos, negsuc}

-- `read_idx_`, `write_idx_` and the vector `buffer_`.
pub record Buffer : Type 0 where
  pub read_idx : ℕ
  pub write_idx : ℕ
  pub buffer : Text

infixl 5 ◌>>=◌
abbrev pub ◌>>=◌ {ℓ κ} : {A : Type ℓ} {B : Type κ} → Option A → (A → Option B) → Option B
none >>= f = none
some a >>= f = f a

-- The constructor, with the template's `Size`.
abbrev pub created : ℕ → Buffer
created size = record { read_idx = 0; write_idx = 0; buffer = replicate size 0 }

unfoldable pub empty : Buffer → Bool
empty b = b.read_idx == b.write_idx

-- a `size_t` as an `int`
abbrev pub int_of : ℕ → ℤ
int_of n = let m = n % 2 ^ 32 in if ltb m (2 ^ 31) then pos m else negsuc (2 ^ 32 - 1 - m)

-- the number of places from `begin()` to `end()`
unfoldable pub span : Buffer → Option ℕ
span b = if ltb b.write_idx b.read_idx then none else some (b.write_idx - b.read_idx)

unfoldable pub size : Buffer → Option ℤ
unfolding span
size b = span b >>= λ n. some (int_of n)

-- an `int` as a number of bytes to copy
abbrev pub count : ℤ → Option ℕ
count (pos n) = some n
count (negsuc n) = none

unfoldable pub writeable : Buffer → ℤ
writeable b = int_of ((length b.buffer + 2 ^ 64 - b.write_idx) % 2 ^ 64)

-- `bytes - writeable()` where that is more than 0, which is `writeable() < bytes`; and 0 elsewhere
abbrev pub shortfall : ℤ → ℤ → ℕ
shortfall (pos a) (pos b) = b - a
shortfall (pos a) (negsuc b) = 0
shortfall (negsuc a) (pos b) = a + 1 + b
shortfall (negsuc a) (negsuc b) = a - b

unfoldable pub clear : Buffer → Buffer
clear b = record b { read_idx = 0; write_idx = 0 }

-- The two functions are called with numbers that are not negative.
unfoldable pub retrieve_read_bytes : ℕ → Buffer → Buffer
unfolding clear
retrieve_read_bytes bytes b =
    let b' = record b { read_idx = b.read_idx + bytes } in
    if b'.read_idx == b'.write_idx then clear b' else b'

unfoldable pub retrieve_write_bytes : ℕ → Buffer → Buffer
retrieve_write_bytes bytes b = record b { write_idx = b.write_idx + bytes }

-- `std::memmove(&buffer_[0], &buffer_[read_idx_], n)`
abbrev pub memmove : ℕ → Buffer → Text
memmove n b = take n (drop b.read_idx b.buffer) ++ drop n b.buffer

-- `buffer_.resize(n)`
abbrev pub resize : ℕ → Text → Text
resize n s = take n s ++ replicate (n - length s) 0

-- The unread bytes, `n` of them, at the beginning of the vector.
abbrev pub moved : Buffer → ℕ → Buffer
moved b n = record { read_idx = 0; write_idx = n; buffer = memmove n b }

-- `buffer_.resize(buffer_.size() + bytes - writeable())`, if the bytes do not fit yet
unfoldable pub grown : ℤ → Buffer → Buffer
unfolding writeable
grown bytes b =
    let more = shortfall (writeable b) bytes in
    if ltb 0 more then record b { buffer = resize (length b.buffer + more) b.buffer } else b

unfoldable pub enable_bytes : ℤ → Buffer → Option Buffer
unfolding size grown
enable_bytes bytes b =
    if ltb 0 (shortfall (writeable b) bytes)
    then (size b >>= λ n. (count n >>= λ k. some (grown bytes (moved b k))))
    else some b

-- a text over the bytes from a place on
abbrev pub write_at : ℕ → Text → Text → Text
write_at i s buffer = take i buffer ++ (s ++ drop (i + length s) buffer)

-- `std::move_backward` of a text to `end() + s`
abbrev pub move_backward : Text → ℕ → Buffer → Option Text
move_backward info s b =
    if ltb (b.write_idx + s) (length info)
    then none
    else some (write_at (b.write_idx + s - length info) info b.buffer)

unfoldable pub append : Text → Buffer → Option Buffer
unfolding enable_bytes retrieve_write_bytes
append info b = do
  let s = int_of (length info)
  b' ← enable_bytes s b
  k ← count s
  buffer ← move_backward info k b'
  some (retrieve_write_bytes k (record b' { buffer = buffer }))

-- `std::string(data(), n)`
abbrev pub copy : ℕ → Buffer → Text
copy n b = take n (drop b.read_idx b.buffer)

unfoldable pub to_string : Buffer → Option Text
unfolding size
to_string b = do n ← size b; k ← count n; some (copy k b)

-- A negative size is a number of type `size_t` above every length here, so reading it is undefined.
unfoldable pub read_string_view : Buffer → Option Text
unfolding size empty
read_string_view b = if empty b then some [] else (do n ← size b; k ← count n; some (copy k b))

unfoldable pub read_all : Buffer → Option (Text × Buffer)
unfolding size clear
read_all b = do n ← size b; k ← count n; some (copy k b, clear b)

-- `std::min` of two `int`s
abbrev pub min_int : ℤ → ℤ → ℤ
min_int (pos a) (pos b) = pos (min a b)
min_int (pos a) (negsuc b) = negsuc b
min_int (negsuc a) (pos b) = negsuc a
min_int (negsuc a) (negsuc b) = if ltb a b then negsuc b else negsuc a

unfoldable pub read_bytes : ℤ → Buffer → Option (Text × Buffer)
unfolding size retrieve_read_bytes
read_bytes n b = do s ← size b; k ← count (min_int n s); some (copy k b, retrieve_read_bytes k b)

-- `std::search`: how far from the beginning the pattern stands first, the length if nowhere.
abbrev pub search_in : Text → Text → ℕ
search_in p [] = 0
search_in p (c ∷ s) = if is_prefix p (c ∷ s) then 0 else suc (search_in p s)

-- `std::search` runs over `begin()` to `end()`.
unfoldable pub read_util : Text → Buffer → Option (Text × Buffer)
unfolding span read_all
read_util s b = do
  n ← span b
  let at = search_in s (copy n b)
  let found = copy (at + length s) b
  (if at == n then read_all b else some (found, record b { read_idx = b.read_idx + length found }))

unfoldable pub read_sv_util : Text → Buffer → Option Text
unfolding span
read_sv_util s b = do
  n ← span b
  let at = search_in s (copy n b)
  some (if at == n then [] else copy (at + length s) b)
