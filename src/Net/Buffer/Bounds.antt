-- ===== src/Net/Buffer/Bounds.antt =====
-- The indices of the buffer of net/buffer.hpp stay in the vector, and how far the vector grows.
use Prim.Native.Nat.{max}
use cortono.Prelude.{
  Text, ◌++◌, ℕ, ◌+◌, ◌-◌, ◌≤◌, ◌≡◌, refl, ap, sym, ◌∙◌, some, arith, Bool-cases, inl, inr, length,
  take, drop, replicate, length-append, length-replicate, length-take_of_le, length-drop, take_all,
  take_exact, take-append_le, drop-append_le, drop-take, append_assoc, ltb→lt, ltb, ◌<◌, ◌%◌, ◌^◌,
  false,
}
use cortono.Prelude.Int.{pos}
use cortono.Net.Buffer.{
  Buffer, span, size, int_of, writeable, memmove, moved, resize, grown, enable_bytes, write_at,
  move_backward, append,
}

pub record IsValid (b : Buffer) : Type 0 where
  pub ordered : b.read_idx ≤ b.write_idx
  pub within : b.write_idx ≤ length b.buffer

-- The bytes that were written and not read yet.
abbrev pub contents : Buffer → Text
contents b = take (b.write_idx - b.read_idx) (drop b.read_idx b.buffer)

pub length-contents : (b : Buffer) → IsValid b → length (contents b) ≡ b.write_idx - b.read_idx
length-contents b v =
    length-take_of_le (b.write_idx - b.read_idx) (drop b.read_idx b.buffer)
      (omega (arith, length-drop b.read_idx b.buffer))

pub span-some : (b : Buffer) → IsValid b → span b ≡ some (b.write_idx - b.read_idx)
unfolding span
span-some b v = ground arith

-- A number below 2 ^ 31 is the same as an `int`.
pub int_of-pos : (n : ℕ) → n < 2 ^ 31 → int_of n ≡ pos n
int_of-pos n h = ground arith

pub size-some :
    (b : Buffer)
    → IsValid b
    → length b.buffer < 2 ^ 31
    → size b ≡ some (pos (b.write_idx - b.read_idx))
unfolding size
size-some b v h =
    rw (span-some b v, int_of-pos (b.write_idx - b.read_idx) (omega (arith, v.within))) refl

writeable-pos :
    (b : Buffer)
    → IsValid b
    → length b.buffer < 2 ^ 31
    → writeable b ≡ pos (length b.buffer - b.write_idx)
unfolding writeable
writeable-pos b v h =
    let e : (length b.buffer + 2 ^ 64 - b.write_idx) % 2 ^ 64 ≡ length b.buffer - b.write_idx =
      omega (arith, v.within) in
    ap int_of e ∙ int_of-pos (length b.buffer - b.write_idx) (omega arith)

length-memmove :
    (b : Buffer) → IsValid b → length (memmove (b.write_idx - b.read_idx) b) ≡ length b.buffer
length-memmove b v =
    let n = b.write_idx - b.read_idx in
    omega (
      arith,
      length-append (contents b) (drop n b.buffer),
      length-contents b v,
      length-drop n b.buffer,
    )

contents-moved :
    (b : Buffer) → IsValid b → contents (moved b (b.write_idx - b.read_idx)) ≡ contents b
contents-moved b v =
    take_exact (b.write_idx - b.read_idx - 0) (contents b)
      (drop (b.write_idx - b.read_idx) b.buffer) (omega (arith, length-contents b v))

resize_lem : (n : ℕ) (s : Text) → length s ≤ n → resize n s ≡ s ++ replicate (n - length s) 0
resize_lem n s h = ap (λ t. t ++ replicate (n - length s) 0) (take_all n s h)

length-resize : (n : ℕ) (s : Text) → length s ≤ n → length (resize n s) ≡ n
length-resize n s h = rw (resize_lem n s h) (
    omega (
      arith,
      length-append s (replicate (n - length s) 0),
      length-replicate {A = ℕ} (n - length s) 0,
    ))

-- Bytes past the write index do not count.
pub contents-append :
    (b : Buffer) (z : Text)
    → IsValid b
    → contents (record b { buffer = b.buffer ++ z }) ≡ contents b
contents-append b z v =
    let n = b.write_idx - b.read_idx in
    ap (take n) (drop-append_le b.read_idx b.buffer z (omega arith))
    ∙ take-append_le n (drop b.read_idx b.buffer) z (omega (arith, length-drop b.read_idx b.buffer))

-- What `enable_bytes` leaves: room for `n` more bytes, and the bytes that were there. The vector is
-- no longer than it was, or as long as the bytes need.
pub record Enables (n : ℕ) (b b' : Buffer) : Type 0 where
  pub valid : IsValid b'
  pub room : b'.write_idx + n ≤ length b'.buffer
  pub kept : contents b' ≡ contents b
  pub storage : length b'.buffer ≡ max (length b.buffer) (b.write_idx - b.read_idx + n)

grown-Enables :
    (n : ℕ) (b : Buffer)
    → IsValid b
    → length b.buffer + n < 2 ^ 31
    → b.read_idx ≡ 0
    → Enables n b (grown (pos n) b)
unfolding grown
grown-Enables n b v small h =
    let more = n - (length b.buffer - b.write_idx) in
    rw (writeable-pos b v (omega arith)) (elim (Bool-cases (ltb 0 more)) [
      | inl e ↦
          let lt : 0 < more = ltb→lt 0 more e in
          let len = length-resize (length b.buffer + more) b.buffer (omega arith) in
          rw e (record {
            valid = record { ordered = v.ordered; within = omega (arith, v.within) };
            room = omega (arith, v.within);
            kept =
                ap (λ t. contents (record b { buffer = t }))
                  (resize_lem (length b.buffer + more) b.buffer (omega arith))
                ∙ contents-append b (replicate (length b.buffer + more - length b.buffer) 0) v;
            storage = omega (arith, v.within);
          })
      | inr e ↦
          rw e (record { valid = v; room = ground arith; kept = refl; storage = ground arith })
    ])

moved-IsValid : (b : Buffer) → IsValid b → IsValid (moved b (b.write_idx - b.read_idx))
moved-IsValid b v = omega (arith, length-memmove b v)

-- `enable_bytes` makes room without a word lost.
pub enable_bytes-Enables :
    (n : ℕ) (b : Buffer)
    → IsValid b
    → length b.buffer + n < 2 ^ 31
    → (b' : Buffer) × (enable_bytes (pos n) b ≡ some b') × Enables n b b'
unfolding enable_bytes
enable_bytes-Enables n b v small =
    rw (writeable-pos b v (omega arith))
      (elim (Bool-cases (ltb 0 (n - (length b.buffer - b.write_idx)))) [
        | inl e ↦
            let m = moved b (b.write_idx - b.read_idx) in
            let len = length-memmove b v in
            let g = grown-Enables n m (moved-IsValid b v) (omega arith) refl in
            (
              grown (pos n) m,
              rw (e, size-some b v (omega arith)) refl,
              record {
                valid = g.valid;
                room = g.room;
                kept = g.kept ∙ contents-moved b v;
                storage = omega (arith, len, g.storage);
              },
            )
        | inr e ↦ (
          b,
          rw e refl,
          record { valid = v; room = ground arith; kept = refl; storage = ground arith },
        )
      ])

length-write_at :
    (i : ℕ) (s t : Text) → i + length s ≤ length t → length (write_at i s t) ≡ length t
length-write_at i s t h = omega (
  arith,
  length-append (take i t) (s ++ drop (i + length s) t),
  length-append s (drop (i + length s) t),
  length-take_of_le i t,
  length-drop (i + length s) t,
)

-- A text written at the write index follows the bytes that are there.
pub contents-write_at :
    (s : Text) (b : Buffer)
    → IsValid b
    → b.write_idx + length s ≤ length b.buffer
    → contents
        (record b { write_idx = b.write_idx + length s; buffer = write_at b.write_idx s b.buffer })
      ≡ contents b ++ s
contents-write_at s b v h =
    ap (take (b.write_idx + length s - b.read_idx)) split
    ∙ take_exact (b.write_idx + length s - b.read_idx) (contents b ++ s) rest
        (omega (arith, length-append (contents b) s, length-contents b v))
  where
    rest : Text
    rest = drop (b.write_idx + length s) b.buffer

    split : drop b.read_idx (write_at b.write_idx s b.buffer) ≡ (contents b ++ s) ++ rest
    split =
        drop-append_le b.read_idx (take b.write_idx b.buffer) (s ++ rest)
          (omega (arith, length-take_of_le b.write_idx b.buffer))
        ∙ ap (λ t. t ++ (s ++ rest)) (drop-take b.read_idx b.write_idx b.buffer)
        ∙ sym (append_assoc (contents b) s rest)

move_backward-some :
    (s : Text) (b : Buffer) → move_backward s (length s) b ≡ some (write_at b.write_idx s b.buffer)
move_backward-some s b =
    let enough : ltb (b.write_idx + length s) (length s) ≡ false = ground arith in
    let at : b.write_idx + length s - length s ≡ b.write_idx = omega arith in rw (enough, at) refl

-- Where the bytes of the vector and of the text are fewer than 2 ^ 31, appending to a valid buffer
-- does not abort, leaves a valid buffer with the text behind the unread bytes, and a vector as
-- long as it was, or as long as the unread bytes and the text need, whichever is more.
pub append_lem :
    (s : Text) (b : Buffer)
    → IsValid b
    → length b.buffer + length s < 2 ^ 31
    → (b' : Buffer) × (append s b ≡ some b')
      × IsValid b'
      × (contents b' ≡ contents b ++ s)
      × (length b'.buffer ≡ max (length b.buffer) (length (contents b) + length s))
unfolding append
append_lem s b v small =
    let (b', e, g) = enable_bytes-Enables (length s) b v small in
    let len = length-write_at b'.write_idx s b'.buffer g.room in
    (
      record b' { write_idx = b'.write_idx + length s; buffer = write_at b'.write_idx s b'.buffer },
      rw (int_of-pos (length s) (omega arith), e, move_backward-some s b') refl,
      omega (arith, g.valid.ordered, g.room),
      contents-write_at s b' g.valid g.room ∙ ap (λ t. t ++ s) g.kept,
      omega (arith, g.storage, length-contents b v),
    )
