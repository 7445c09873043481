-- ===== src/Next/Debounce.antt =====
-- The timer that `initSidebarDimension` of utils.js and scroll-cookie.js start again at each event:
-- `clearTimeout(timer); timer = setTimeout(…)`.
use cortono.Prelude.{
  ℕ, suc, List, [], ◌∷◌, Bool, true, false, ◌||◌, ◌==◌, ◌≡◌, refl, ap, sym, Option, none, some, ◌⊎◌,
  inl, inr, arith, if◌then◌else◌,
}

-- The timers that wait, by their names, the one that the variable holds, and the name of the next.
pub record Timers : Type 0 where
  pub waiting : List ℕ
  pub timer : Option ℕ
  pub next_timer : ℕ

-- no timer yet; names start from 1
abbrev pub idle : Timers
idle = record { waiting = []; timer = none; next_timer = 1 }

-- `clearTimeout` of a timer
unfoldable pub remove : ℕ → List ℕ → List ℕ
remove t [] = []
remove t (x ∷ xs) = let rest = remove t xs in if x == t then rest else x ∷ rest

-- `clearTimeout` of what the variable holds, which may be `undefined`
unfoldable pub clear : Option ℕ → List ℕ → List ℕ
unfolding remove
clear none xs = xs
clear (some t) xs = remove t xs

unfoldable pub restart : Timers → Timers
unfolding clear
restart s = record {
  waiting = s.next_timer ∷ clear s.timer s.waiting;
  timer = some s.next_timer;
  next_timer = suc s.next_timer;
}

unfoldable member : ℕ → List ℕ → Bool
member t [] = false
member t (x ∷ xs) = x == t || member t xs

-- whether a timer waits: the browser calls no other one
unfoldable pub is_waiting : ℕ → Timers → Bool
unfolding member
is_waiting t s = member t s.waiting

-- A timer that fires waits no longer.
unfoldable pub fire : ℕ → Timers → Timers
unfolding remove
fire t s = record s { waiting = remove t s.waiting }

-- At most one timer waits, the one that the variable holds.
unfoldable pub IsValid : Timers → Type 0
IsValid s = (s.waiting ≡ []) ⊎ ((t : ℕ) × (s.waiting ≡ t ∷ []) × (s.timer ≡ some t))

pub idle-IsValid : IsValid idle
unfolding IsValid
idle-IsValid = inl refl

remove_self : (t : ℕ) → remove t (t ∷ []) ≡ []
unfolding remove
remove_self t = grind arith

remove-nil : (t : ℕ) → remove t [] ≡ []
unfolding remove
remove-nil t = refl

member-one : (t u : ℕ) → member t (u ∷ []) ≡ true → u ≡ t
unfolding member
member-one t u h = grind arith

clear-nil : (o : Option ℕ) → clear o [] ≡ []
unfolding clear remove
clear-nil none = refl
clear-nil (some t) = refl

-- After a restart the new timer is the only one that waits.
pub restart-waiting : (s : Timers) → IsValid s → (restart s).waiting ≡ s.next_timer ∷ []
unfolding IsValid restart clear
restart-waiting s (inl none_waits) = rw none_waits (ap (s.next_timer ∷◌) (clear-nil s.timer))
restart-waiting s (inr (t, one, held)) = rw (one, held) (ap (s.next_timer ∷◌) (remove_self t))

member_self : (t : ℕ) → member t (t ∷ []) ≡ true
unfolding member
member_self t = grind arith

pub restart-is_waiting : (s : Timers) → IsValid s → is_waiting s.next_timer (restart s) ≡ true
unfolding is_waiting
restart-is_waiting s v = rw (restart-waiting s v) (member_self s.next_timer)

pub restart-IsValid : (s : Timers) → IsValid s → IsValid (restart s)
unfolding IsValid restart
restart-IsValid s v = inr (s.next_timer, restart-waiting s v, refl)

-- When a timer that waits has fired, none waits.
pub fire-waiting :
    (t : ℕ) (s : Timers) → IsValid s → is_waiting t s ≡ true → (fire t s).waiting ≡ []
unfolding IsValid fire is_waiting
fire-waiting t s (inl none_waits) h = rw none_waits (remove-nil t)
fire-waiting t s (inr (u, one, held)) h =
    rw (one, member-one t u (rw (sym (ap (member t) one)) h)) (remove_self t)

pub fire-IsValid : (t : ℕ) (s : Timers) → IsValid s → is_waiting t s ≡ true → IsValid (fire t s)
unfolding IsValid
fire-IsValid t s v h = inl (fire-waiting t s v h)
