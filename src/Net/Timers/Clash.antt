-- ===== src/Net/Timers/Clash.antt =====
-- Timers that are cancelled: net/eventloop.hpp, whose set knows a timer by the time of its expiry.
use cortono.Prelude.{
  List, [], ◌∷◌, ◌++◌, ℕ, ◌+◌, ◌%◌, ◌^◌, ◌≡◌, refl, ap, ap₂, sym, ◌∙◌, arith, none, some, true,
  ◌==◌, Bool-cases, inl, inr, ==_refl, if_false, if_true,
}
use cortono.Net.Timers.{
  Timer, Loop, emplace, erase, lookup_id, erase_id, emplace_id, set_timer, cancel_timer, put_back,
  round, new_timer,
}
use cortono.Net.Timers.Order.{Ordered, apart_from, erase-emplace, erase-After}

some-none : (t : Timer) → some t ≡ none → ⊥
some-none t h = grind arith

erase_id-none : (i : ℕ) (m : List (ℕ × Timer)) → lookup_id i m ≡ none → erase_id i m ≡ m
unfolding lookup_id erase_id
erase_id-none i [] h = refl
erase_id-none i ((j, t) ∷ m) h = elim (Bool-cases (i == j)) [
  | inl e ↦ elim (some-none t (sym (if_true (i == j) (some t) (lookup_id i m) e) ∙ h)) [ ]
  | inr e ↦
      rw e (
        ap ((j, t) ∷◌) (erase_id-none i m (sym (if_false (i == j) (some t) (lookup_id i m) e) ∙ h)))
]

erase_id_idempotent : (i : ℕ) (m : List (ℕ × Timer)) → erase_id i (erase_id i m) ≡ erase_id i m
unfolding erase_id
erase_id_idempotent i [] = refl
erase_id_idempotent i ((j, t) ∷ m) = elim (Bool-cases (i == j)) [
  | inl e ↦ rw e (erase_id_idempotent i m)
  | inr e ↦ rw (e, e) (ap ((j, t) ∷◌) (erase_id_idempotent i m))
]

-- A timer that is known is taken out.
cancel_timer-some :
    (i : ℕ) (t : Timer) (l : Loop)
    → lookup_id i l.id_to_timers ≡ some t
    → cancel_timer i l
      ≡ record l { timers = erase t l.timers; id_to_timers = erase_id i l.id_to_timers }
unfolding cancel_timer
cancel_timer-some i t l h = rw (cancel_timer, h)

set_timer-none :
    (point interval callback : ℕ) (l : Loop)
    → lookup_id l.timer_count l.id_to_timers ≡ none
    → (set_timer point interval callback l).0 ≡ record l {
      timers = emplace (new_timer point interval callback l.timer_count) l.timers;
      id_to_timers =
          (l.timer_count, new_timer point interval callback l.timer_count) ∷ l.id_to_timers;
      timer_count = (l.timer_count + 1) % 2 ^ 64;
    }
unfolding set_timer emplace_id
set_timer-none point interval callback l h = rw (set_timer, emplace_id, h)

-- With the timers in the order of their expiry and a number that no timer has: a timer that is set
-- and cancelled at once is gone, and so is every other timer that expires at the same time; the
-- map of the numbers is as before.
pub cancel_timer-set_timer :
    (point interval callback : ℕ) (l : Loop)
    → Ordered l.timers
    → lookup_id l.timer_count l.id_to_timers ≡ none
    → cancel_timer (set_timer point interval callback l).1 (set_timer point interval callback l).0
      ≡ record l { timers = apart_from point l.timers; timer_count = (l.timer_count + 1) % 2 ^ 64 }
unfolding set_timer lookup_id erase_id
cancel_timer-set_timer point interval callback l o h =
    ap (cancel_timer i) (set_timer-none point interval callback l h)
    ∙ cancel_timer-some i t
        (record l {
          timers = emplace t l.timers;
          id_to_timers = (i, t) ∷ l.id_to_timers;
          timer_count = (i + 1) % 2 ^ 64;
        })
        (if_true (i == i) (some t) (lookup_id i l.id_to_timers) (==_refl i))
    ∙ ap₂ (λ ts m. record l { timers = ts; id_to_timers = m; timer_count = (i + 1) % 2 ^ 64 })
        (erase-emplace t l.timers o)
        (if_true (i == i) (erase_id i l.id_to_timers) ((i, t) ∷ erase_id i l.id_to_timers)
            (==_refl i)
          ∙ erase_id-none i l.id_to_timers h)
  where
    i : ℕ
    i = l.timer_count

    t : Timer
    t = new_timer point interval callback l.timer_count

-- With the timers in the order of their expiry: the round of a periodic timer that is known by its
-- number and whose callback cancels the timer itself ends as if the callback did nothing.
pub round-cancel_timer :
    (t : Timer) (ts : List Timer) (l : Loop)
    → Ordered (t ∷ ts)
    → lookup_id t.id l.id_to_timers ≡ some t
    → t.periodic ≡ true
    → round (λ c. cancel_timer t.id) t ts l ≡ round (λ c k. k) t ts l
unfolding round put_back
round-cancel_timer t ts l o h p =
    ap (put_back t)
      (cancel_timer-some t.id t (record l { timers = ts; ran = l.ran ++ t.callback ∷ [] }) h)
    ∙ rw (erase-After t ts o, put_back, p, erase_id_idempotent t.id l.id_to_timers)
