-- ===== src/Protocol/SlideWindow.antt =====
-- The sliding window of protocol/slide_window.hpp: the sender's and the receiver's place in a ring of
-- sequence numbers, and the receiver's ring of bytes.
pub mod Modular
pub mod Range
pub mod Follows
pub mod Receive
pub mod Read
pub mod Overrun
pub mod Arrive
pub mod Stream
pub mod Move
use cortono.Prelude.{
  Text, List, [], ◌∷◌, ◌++◌, ℕ, zero, suc, ◌+◌, ◌-◌, ◌%◌, ◌^◌, Option, none, some, ltb, leb, ◌==◌,
  if◌then◌else◌, Bool, true, false, ◌&&◌, ◌||◌, length, get_elem?, set, take, drop, replicate,
}

-- The window `[win_left_, win_right_)` of the ring, the reader's place, the number of bytes that
-- stand ready, the bits of the bytes that came early, and the bytes.
pub record SlideWindow : Type 0 where
  pub win_left : ℕ
  pub win_right : ℕ
  pub read_idx : ℕ
  pub readable_bytes : ℕ
  pub window : List Bool
  pub buffer : Text

-- A sum of two `std::uint64_t`.
abbrev pub add64 : ℕ → ℕ → ℕ
add64 a b = (a + b) % 2 ^ 64

-- `window_.test(i)`, for an index in the bit set.
abbrev pub test : List Bool → ℕ → Bool
test [] i = false
test (b ∷ bs) zero = b
test (b ∷ bs) (suc i) = test bs i

-- `window_.set(i)` and `buffer_[i] = c`
unfoldable pub store : ℕ → ℕ → SlideWindow → SlideWindow
store i c s = record s { window = set s.window i true; buffer = set s.buffer i c }

-- The template's `BufferSize` and `WindowSize`.
module _ (buffer_size window_size : ℕ) where
  abbrev pub created : SlideWindow
  created = record {
    win_left = 0;
    win_right = window_size;
    read_idx = 0;
    readable_bytes = 0;
    window = replicate buffer_size false;
    buffer = replicate buffer_size 0;
  }

  unfoldable pub full : SlideWindow → Bool
  full s = s.readable_bytes == buffer_size

module _ (buffer_size : ℕ) where
  unfoldable pub in_valid_range : SlideWindow → ℕ → ℕ → Bool
  in_valid_range s start_index end_index =
      let e = end_index % buffer_size in
      if ltb s.win_left s.win_right
      then (if ltb start_index s.win_left || ltb s.win_right e
          then false
          else if leb s.win_right start_index
          then false
          else if leb e s.win_left
          then false
          else true)
      else if ltb start_index s.win_left && leb s.win_right start_index
      then false
      else if ltb e s.win_left && leb s.win_right e
      then false
      else true

  -- One place to the right, for both bounds.
  abbrev pub shifted : SlideWindow → SlideWindow
  shifted s = record s {
    win_left = add64 s.win_left 1 % buffer_size;
    win_right = add64 s.win_right 1 % buffer_size;
  }

  -- The byte at the left bound is ready: its bit is reset, and the window goes on.
  unfoldable pub advance : SlideWindow → SlideWindow
  advance s = shifted (record s {
    window = set s.window s.win_left false;
    readable_bytes = add64 s.readable_bytes 1;
  })

  -- The body of the loop over the bytes of a packet.
  unfoldable pub store_byte : ℕ → ℕ → SlideWindow → SlideWindow
  unfolding store advance
  store_byte i c s = if s.win_left == i then advance (store i c s) else store i c s

  -- That loop, from the counter `i` on.
  unfoldable pub store_from : ℕ → ℕ → Text → SlideWindow → SlideWindow
  unfolding store_byte
  store_from start_index i [] s = s
  store_from start_index i (c ∷ bytes) s =
      store_from start_index (i + 1) bytes (store_byte (add64 start_index i % buffer_size) c s)

  -- `while(window_.test(win_left_))`. Each round resets a bit, and there are no more than
  -- `buffer_size`.
  unfoldable pub drain : ℕ → SlideWindow → SlideWindow
  unfolding advance
  drain zero s = s
  drain (suc fuel) s = elim (test s.window s.win_left) [ true ↦ drain fuel (advance s) | false ↦ s ]

  unfoldable pub set_flag_if_valid : Text → ℕ → SlideWindow → SlideWindow × Bool
  unfolding in_valid_range store_from drain
  set_flag_if_valid bytes start_index s =
      if in_valid_range s start_index (add64 start_index (length bytes) % buffer_size)
      then (drain buffer_size (store_from start_index 0 bytes s), true)
      else (s, false)

  -- `while(win_left_ != end_index)`; `none` means that the fuel ran out.
  unfoldable pub move : ℕ → ℕ → SlideWindow → Option SlideWindow
  move zero end_index s = if s.win_left == end_index then some s else none
  move (suc fuel) end_index s = elim (s.win_left == end_index) [
    | true ↦ some s
    | false ↦ move fuel end_index (shifted s)
  ]

  -- With fuel for one round of the ring.
  unfoldable pub move_if_valid : ℕ → SlideWindow → Option (SlideWindow × Bool)
  unfolding in_valid_range move
  move_if_valid end_index s =
      if in_valid_range s s.win_left end_index
      then (elim (move buffer_size end_index s) [ none ↦ none | some s' ↦ some (s', true) ])
      else some (s, false)

  unfoldable pub width : SlideWindow → ℕ
  width s =
      if ltb s.win_left s.win_right
      then s.win_right - s.win_left
      else buffer_size - s.win_left + s.win_right

  -- `recv_all`. Where the unread bytes do not wrap, `readable_bytes_` of them are copied from
  -- `read_idx_` on; `none` stands for a copy past the end of the ring.
  unfoldable pub recv_all : SlideWindow → Option (Text × SlideWindow)
  recv_all s =
      let n = s.readable_bytes in
      let rest = record s { read_idx = s.win_left; readable_bytes = 0 } in
      if n == 0
      then some ([], s)
      else if leb s.read_idx s.win_left
      then (if ltb buffer_size (s.read_idx + n)
          then none
          else some (take n (drop s.read_idx s.buffer), rest))
      else some (
        take (buffer_size - s.read_idx) (drop s.read_idx s.buffer) ++ take s.win_left s.buffer,
        rest,
      )
