-- ===== src/Net/Buffer/Queue.antt =====
-- What the buffer of net/buffer.hpp promises to a connection: a queue of bytes, whatever the storage.
use cortono.Prelude.{
  Text, List, [], ◌∷◌, ◌++◌, ℕ, ◌+◌, ◌==◌, if◌then◌else◌, length, take, drop, Option, some,
}
use cortono.Prelude.Int.{pos}
use cortono.Net.Buffer.{
  Buffer, search_in, append, read_bytes, read_all, read_util, read_sv_util, read_string_view,
  to_string, ◌>>=◌,
}

-- The calls of a connection: it appends what arrives, and reads by a number
-- that is not negative, all, or up to a mark.
pub data Op : Type 0 where
  put : Text → Op
  get : ℕ → Op
  get_all : Op
  get_until : Text → Op
  peek_until : Text → Op
  peek : Op
  print : Op

-- The bytes up to the mark and with it.
abbrev pub upto : Text → Text → ℕ
upto s q = search_in s q + length s

-- A call on the queue: what it returns, and the bytes that stay.
unfoldable pub step : Op → Text → Text × Text
step (put s) q = ([], q ++ s)
step (get n) q = (take n q, drop n q)
step get_all q = (q, [])
step (get_until s) q =
    if search_in s q == length q then (q, []) else (take (upto s q) q, drop (upto s q) q)
step (peek_until s) q = (if search_in s q == length q then [] else take (upto s q) q, q)
step peek q = (q, q)
step print q = (q, q)

unfoldable pub run : List Op → Text → List Text
run [] q = []
run (op ∷ ops) q = let (reply, q') = step op q in reply ∷ run ops q'

-- The same call on the buffer.
unfoldable pub buffer_step : Op → Buffer → Option (Text × Buffer)
buffer_step (put s) b = append s b >>= λ b'. some ([], b')
buffer_step (get n) b = read_bytes (pos n) b
buffer_step get_all b = read_all b
buffer_step (get_until s) b = read_util s b
buffer_step (peek_until s) b = read_sv_util s b >>= λ t. some (t, b)
buffer_step peek b = read_string_view b >>= λ t. some (t, b)
buffer_step print b = to_string b >>= λ t. some (t, b)

unfoldable pub buffer_run : List Op → Buffer → Option (List Text)
buffer_run [] b = some []
buffer_run (op ∷ ops) b = do
  (reply, b') ← buffer_step op b
  replies ← buffer_run ops b'
  some (reply ∷ replies)

-- The number of bytes that calls append.
abbrev pub appended : Op → ℕ
appended (put s) = length s
appended (get n) = 0
appended get_all = 0
appended (get_until s) = 0
appended (peek_until s) = 0
appended peek = 0
appended print = 0

abbrev pub all_appended : List Op → ℕ
all_appended [] = 0
all_appended (op ∷ ops) = appended op + all_appended ops
