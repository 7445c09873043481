-- ===== src/Net/Timers/Order.antt =====
-- The order of `timers_`, a set of net/eventloop.hpp: strictly by the time of expiry.
use cortono.Prelude.{
  List, [], ◌∷◌, ℕ, ◌<◌, ◌≤◌, ◌≡◌, refl, ap, sym, ◌∙◌, arith, false, ltb, ◌==◌, Bool-cases, inl,
  inr, ltb→lt, if◌then◌else◌, ==_refl,
}
use cortono.Net.Timers.{Timer, emplace, erase}

-- Every timer expires after `n`, and after the one before it.
abbrev pub After : ℕ → List Timer → Type 0
After n [] = Unit
After n (t ∷ ts) = (n < t.expires_time) × After t.expires_time ts

abbrev pub Ordered : List Timer → Type 0
Ordered [] = Unit
Ordered (t ∷ ts) = After t.expires_time ts

pub After-le : (m n : ℕ) (ts : List Timer) → m ≤ n → After n ts → After m ts
After-le m n [] h a = a
After-le m n (t ∷ ts) h (b, c) = (omega arith, c)

pub After-Ordered : (n : ℕ) (ts : List Timer) → After n ts → Ordered ts
After-Ordered n [] a = a
After-Ordered n (t ∷ ts) (b, c) = c

emplace-After :
    (n : ℕ) (t : Timer) (ts : List Timer) → n < t.expires_time → After n ts → After n (emplace t ts)
unfolding emplace
emplace-After n t [] h a = (h, a)
emplace-After n t (u ∷ us) h (b, c) = elim (Bool-cases (ltb t.expires_time u.expires_time)) [
  | inl e ↦ rw e (h, (ltb→lt t.expires_time u.expires_time e, c))
  | inr e ↦ elim (Bool-cases (ltb u.expires_time t.expires_time)) [
    | inl f ↦
        rw (e, f) (b, emplace-After u.expires_time t us (ltb→lt u.expires_time t.expires_time f) c)
    | inr f ↦ rw (e, f) (b, c)
  ]
]

-- A timer goes to its place in the order, or stays out.
pub emplace-Ordered : (t : Timer) (ts : List Timer) → Ordered ts → Ordered (emplace t ts)
unfolding emplace
emplace-Ordered t [] a = a
emplace-Ordered t (u ∷ us) a = elim (Bool-cases (ltb t.expires_time u.expires_time)) [
  | inl e ↦ rw e (ltb→lt t.expires_time u.expires_time e, a)
  | inr e ↦ elim (Bool-cases (ltb u.expires_time t.expires_time)) [
    | inl f ↦
        rw (e, f) (emplace-After u.expires_time t us (ltb→lt u.expires_time t.expires_time f) a)
    | inr f ↦ rw (e, f) a
  ]
]

-- The timers that do not expire at `n`.
abbrev pub apart_from : ℕ → List Timer → List Timer
apart_from n [] = []
apart_from n (t ∷ ts) = let rest = apart_from n ts in if t.expires_time == n then rest else t ∷ rest

apart_from-After : (m n : ℕ) (ts : List Timer) → m ≤ n → After n ts → apart_from m ts ≡ ts
apart_from-After m n [] h a = refl
apart_from-After m n (t ∷ ts) h (b, c) =
    let e : (t.expires_time == m) ≡ false = ground arith in
    rw e (ap (t ∷◌) (apart_from-After m t.expires_time ts (omega arith) c))

-- In the order, `erase` leaves out the timers that expire when `t` does.
pub erase-Ordered :
    (t : Timer) (ts : List Timer) → Ordered ts → erase t ts ≡ apart_from t.expires_time ts
unfolding erase
erase-Ordered t [] a = refl
erase-Ordered t (u ∷ us) a = elim (Bool-cases (u.expires_time == t.expires_time)) [
  | inl e ↦
      let same : u.expires_time ≡ t.expires_time = ground arith in
      rw e (sym (apart_from-After t.expires_time u.expires_time us (omega arith) a))
  | inr e ↦ rw e (ap (u ∷◌) (erase-Ordered t us (After-Ordered u.expires_time us a)))
]

pub erase-After : (t : Timer) (ts : List Timer) → After t.expires_time ts → erase t ts ≡ ts
erase-After t ts a =
    erase-Ordered t ts (After-Ordered t.expires_time ts a)
    ∙ apart_from-After t.expires_time t.expires_time ts (omega arith) a

apart_from-emplace :
    (t : Timer) (ts : List Timer)
    → apart_from t.expires_time (emplace t ts) ≡ apart_from t.expires_time ts
unfolding emplace
apart_from-emplace t [] = rw (==_refl t.expires_time)
apart_from-emplace t (u ∷ us) = elim (Bool-cases (ltb t.expires_time u.expires_time)) [
  | inl e ↦ rw (e, ==_refl t.expires_time)
  | inr e ↦ elim (Bool-cases (ltb u.expires_time t.expires_time)) [
    | inl f ↦
        rw (e, f)
          (ap (λ r. if u.expires_time == t.expires_time then r else u ∷ r)
            (apart_from-emplace t us))
    | inr f ↦ rw (e, f)
  ]
]

-- A timer that goes in and out again takes those with it that expire when it does.
pub erase-emplace :
    (t : Timer) (ts : List Timer)
    → Ordered ts
    → erase t (emplace t ts) ≡ apart_from t.expires_time ts
erase-emplace t ts a =
    erase-Ordered t (emplace t ts) (emplace-Ordered t ts a) ∙ apart_from-emplace t ts
