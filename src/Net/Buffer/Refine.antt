-- ===== src/Net/Buffer/Refine.antt =====
-- The buffer of net/buffer.hpp behaves as the queue of its unread bytes, for every order of calls.
use cortono.Prelude.{
  Text, List, [], ◌∷◌, ℕ, ◌+◌, ◌-◌, ◌≤◌, ◌<◌, ◌^◌, ◌≡◌, refl, ap, sym, ◌∙◌, Option, some, arith,
  Bool-cases, inl, inr, length, take, drop, take-take_le, drop-take, drop-drop, take-min, drop-min,
  length-take_of_le, drop_all, true, false, min, is_prefix, ◌==◌, ==_iff,
}
use cortono.Prelude.Int.{pos}
use cortono.Net.Buffer.{
  Buffer, size, clear, copy, search_in, retrieve_read_bytes, read_bytes, read_all, read_util,
  read_sv_util, read_string_view, to_string,
}
use cortono.Net.Buffer.Queue.{
  Op, put, get, get_all, get_until, peek_until, peek, print, upto, step, run, buffer_step,
  buffer_run, appended, all_appended,
}
use cortono.Net.Buffer.Bounds.{
  IsValid, contents, length-contents, span-some, size-some, int_of-pos, append_lem,
}

-- A read within the unread bytes takes the first of them.
copy-contents : (n : ℕ) (b : Buffer) → n ≤ b.write_idx - b.read_idx → copy n b ≡ take n (contents b)
copy-contents n b h = sym (take-take_le n (b.write_idx - b.read_idx) (drop b.read_idx b.buffer) h)

abbrev skip : ℕ → Buffer → Buffer
skip n b = record b { read_idx = b.read_idx + n }

contents-skip : (n : ℕ) (b : Buffer) → contents (skip n b) ≡ drop n (contents b)
contents-skip n b = rw (← drop-drop b.read_idx n b.buffer) (
    ap (λ k. take k (drop n (drop b.read_idx b.buffer))) (omega arith)
    ∙ sym (drop-take n (b.write_idx - b.read_idx) (drop b.read_idx b.buffer)))

clear-IsValid : (b : Buffer) → IsValid (clear b)
unfolding clear
clear-IsValid b = omega arith

contents-clear : (b : Buffer) → contents (clear b) ≡ []
unfolding clear
contents-clear b = refl

retrieve_read_bytes-IsValid :
    (n : ℕ) (b : Buffer)
    → IsValid b
    → n ≤ b.write_idx - b.read_idx
    → IsValid (retrieve_read_bytes n b)
unfolding retrieve_read_bytes
retrieve_read_bytes-IsValid n b v h = ground arith

contents-retrieve_read_bytes :
    (n : ℕ) (b : Buffer)
    → IsValid b
    → n ≤ b.write_idx - b.read_idx
    → contents (retrieve_read_bytes n b) ≡ drop n (contents b)
unfolding retrieve_read_bytes
contents-retrieve_read_bytes n b v h = elim (Bool-cases (b.read_idx + n == b.write_idx)) [
  | inl e ↦ rw e (
      sym (
        drop_all n (contents b)
          (omega (arith, length-contents b v, (==_iff (b.read_idx + n) b.write_idx).0 e))))
  | inr e ↦ rw e (contents-skip n b)
]

-- The mark stands within the bytes that are searched, or their number is returned.
search_in-le : (p s : Text) → search_in p s ≤ length s
search_in-le p [] = omega arith
search_in-le p (c ∷ s) = ground (arith, search_in-le p s)

length-le_of_is_prefix : (p s : Text) → is_prefix p s ≡ true → length p ≤ length s
length-le_of_is_prefix [] s h = omega arith
length-le_of_is_prefix (a ∷ p) [] h = cc
length-le_of_is_prefix (a ∷ p) (b ∷ s) h = ground (arith, length-le_of_is_prefix p s)

upto-le : (p s : Text) → (search_in p s == length s) ≡ false → upto p s ≤ length s
upto-le p [] h = cc
upto-le p (c ∷ s) h = ground (arith, upto-le p s, length-le_of_is_prefix p (c ∷ s))

-- What a call returns and leaves: a vector that is longer by at most the bytes that it appends.
abbrev Holds : ℕ → Buffer → Option (Text × Buffer) → Text × Text → Type 0
Holds n b r out =
    (b' : Buffer) × (r ≡ some (out.0, b'))
    × IsValid b'
    × (contents b' ≡ out.1)
    × (length b'.buffer ≤ length b.buffer + n)

length-retrieve_read_bytes :
    (n : ℕ) (b : Buffer) → length (retrieve_read_bytes n b).buffer ≤ length b.buffer + 0
unfolding retrieve_read_bytes clear
length-retrieve_read_bytes n b = elim (Bool-cases (b.read_idx + n == b.write_idx)) [
  | inl e ↦ rw e (omega arith)
  | inr e ↦ rw e (omega arith)
]

module _ (b : Buffer) (v : IsValid b) (small : length b.buffer < 2 ^ 31) where
  sized : size b ≡ some (pos (b.write_idx - b.read_idx))
  sized = size-some b v small

  read_all_refines : Holds 0 b (read_all b) (contents b, [])
  unfolding read_all
  read_all_refines =
      (clear b, rw sized refl, clear-IsValid b, contents-clear b, unfold clear in omega arith)

  read_bytes_refines :
      (n : ℕ) → Holds 0 b (read_bytes (pos n) b) (take n (contents b), drop n (contents b))
  unfolding read_bytes
  read_bytes_refines n =
      let k = min n (b.write_idx - b.read_idx) in
      let e : k ≡ min n (length (contents b)) = omega (arith, length-contents b v) in
      let le : k ≤ b.write_idx - b.read_idx = omega arith in
      let taken : copy k b ≡ take n (contents b) =
        copy-contents k b le ∙ ap (λ i. take i (contents b)) e ∙ take-min n (contents b) in
      (
        retrieve_read_bytes k b,
        rw (sized, taken) refl,
        retrieve_read_bytes-IsValid k b v le,
        contents-retrieve_read_bytes k b v le
            ∙ ap (λ i. drop i (contents b)) e
            ∙ drop-min n (contents b),
        length-retrieve_read_bytes k b,
      )

  -- Past a mark that is there, the reader stands within the unread bytes.
  copy-upto :
      (s : Text)
      → (search_in s (contents b) == (b.write_idx - b.read_idx)) ≡ false
      → (copy (upto s (contents b)) b ≡ take (upto s (contents b)) (contents b))
        × (length (copy (upto s (contents b)) b) ≡ upto s (contents b))
        × (b.read_idx + upto s (contents b) ≤ b.write_idx)
  copy-upto s h =
      let len = length-contents b v in
      let le = upto-le s (contents b) (rw len h) in
      let e = copy-contents (upto s (contents b)) b (omega arith) in
      (
        e,
        ap length e ∙ length-take_of_le (upto s (contents b)) (contents b) le,
        omega (arith, v.ordered),
      )

  read_util_refines : (s : Text) → Holds 0 b (read_util s b) (step (get_until s) (contents b))
  unfolding read_util step
  read_util_refines s =
      rw (span-some b v, length-contents b v)
        (elim (Bool-cases (search_in s (contents b) == (b.write_idx - b.read_idx))) [
          | inl e ↦ rw e (
            clear b,
            rw (int_of-pos (b.write_idx - b.read_idx) (omega (arith, v.within))) refl,
            clear-IsValid b,
            contents-clear b,
            unfold clear in omega arith,
          )
          | inr e ↦
              let (taken, len, le) = copy-upto s e in
              rw e (
                skip (upto s (contents b)) b,
                rw (len, taken),
                record { ordered = le; within = v.within },
                contents-skip (upto s (contents b)) b,
                omega arith,
              )
        ])

  read_sv_util-some : (s : Text) → read_sv_util s b ≡ some (step (peek_until s) (contents b)).0
  unfolding read_sv_util step
  read_sv_util-some s =
      rw (span-some b v, length-contents b v)
        (elim (Bool-cases (search_in s (contents b) == (b.write_idx - b.read_idx))) [
          | inl e ↦ rw e
          | inr e ↦ rw (e, (copy-upto s e).0)
        ])

  to_string-some : to_string b ≡ some (contents b)
  unfolding to_string
  to_string-some = rw sized refl

  read_string_view-some : read_string_view b ≡ some (contents b)
  unfolding read_string_view
  read_string_view-some = elim (Bool-cases (b.read_idx == b.write_idx)) [
    | inl e ↦ rw e (ap (λ k. some (take k (drop b.read_idx b.buffer))) {x = 0} (ground arith))
    | inr e ↦ rw (e, sized) refl
  ]

-- A call on a valid buffer never aborts: it returns what the queue returns, and leaves a valid
-- buffer with the bytes that the queue keeps.
pub step_refines :
    (op : Op) (b : Buffer)
    → IsValid b
    → length b.buffer + appended op < 2 ^ 31
    → Holds (appended op) b (buffer_step op b) (step op (contents b))
unfolding step buffer_step
step_refines (put s) b v small =
    let (b', e, v', c, len) = append_lem s b v small in
    (b', rw e refl, v', c, omega (arith, len, length-contents b v, v.within))
step_refines (get n) b v small = read_bytes_refines b v (omega arith) n
step_refines get_all b v small = read_all_refines b v (omega arith)
step_refines (get_until s) b v small = read_util_refines b v (omega arith) s
step_refines (peek_until s) b v small =
    (b, rw (read_sv_util-some b v (omega arith) s) refl, v, refl, omega arith)
step_refines peek b v small =
    (b, rw (read_string_view-some b v (omega arith)) refl, v, refl, omega arith)
step_refines print b v small = (b, rw (to_string-some b v (omega arith)) refl, v, refl, omega arith)

-- Where the bytes of the vector and all that are appended are fewer than 2 ^ 31, so that each
-- number of bytes is an int: for every order of appends and reads (by a number that is not
-- negative, all, up to a mark, or only looked at), a valid buffer never aborts and returns what
-- the queue of its unread bytes returns.
pub run_refines :
    (ops : List Op) (b : Buffer)
    → IsValid b
    → length b.buffer + all_appended ops < 2 ^ 31
    → buffer_run ops b ≡ some (run ops (contents b))
unfolding buffer_run run
run_refines [] b v small = refl
run_refines (op ∷ ops) b v small =
    let (b', e, v', c, len) = step_refines op b v (omega arith) in
    rw (e, run_refines ops b' v' (omega arith), c) refl
