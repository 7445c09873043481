-- ===== src/Net/Timers/Kept.antt =====
-- What net/eventloop.hpp does keeps the timers in the order of their expiry.
use cortono.Prelude.{
  List, [], ◌∷◌, ◌++◌, ℕ, ◌≡◌, refl, sym, ◌∙◌, arith, some, leb, ◌==◌, Bool-cases, Option-cases,
  inl, inr, if_elim,
}
use cortono.Net.Timers.{
  Timer, Loop, erase, lookup_id, set_timer, cancel_timer, later, put_back, round, handle_time_func,
  new_timer,
}
use cortono.Net.Timers.Rounds.{handle-empty, handle-due, handle-waits}
use cortono.Net.Timers.Order.{
  After, Ordered, After-le, After-Ordered, apart_from, erase-Ordered, emplace-Ordered,
}

apart_from-keeps : (n m : ℕ) (ts : List Timer) → After m ts → After m (apart_from n ts)
apart_from-keeps n m [] a = a
apart_from-keeps n m (t ∷ ts) (b, c) = elim (Bool-cases (t.expires_time == n)) [
  | inl e ↦ rw e (
      After-le m t.expires_time (apart_from n ts) (omega arith)
        (apart_from-keeps n t.expires_time ts c))
  | inr e ↦ rw e (b, apart_from-keeps n t.expires_time ts c)
]

erase-keeps : (t : Timer) (ts : List Timer) → Ordered ts → Ordered (erase t ts)
erase-keeps t ts o = rw (erase-Ordered t ts o) (kept t.expires_time ts o)
  where
    kept : (n : ℕ) (ts : List Timer) → Ordered ts → Ordered (apart_from n ts)
    kept n [] a = a
    kept n (t ∷ ts) a = elim (Bool-cases (t.expires_time == n)) [
      | inl e ↦
          rw e (
            After-Ordered t.expires_time (apart_from n ts) (apart_from-keeps n t.expires_time ts a))
      | inr e ↦ rw e (apart_from-keeps n t.expires_time ts a)
    ]

pub set_timer-Ordered :
    (point interval callback : ℕ) (l : Loop)
    → Ordered l.timers
    → Ordered (set_timer point interval callback l).0.timers
unfolding set_timer
set_timer-Ordered point interval callback l o =
    emplace-Ordered (new_timer point interval callback l.timer_count) l.timers o

pub cancel_timer-Ordered : (i : ℕ) (l : Loop) → Ordered l.timers → Ordered (cancel_timer i l).timers
unfolding cancel_timer
cancel_timer-Ordered i l o = elim (Option-cases (lookup_id i l.id_to_timers)) [
  | inl h ↦ rw (cancel_timer, h) o
  | inr (t, h) ↦ rw (cancel_timer, h) (erase-keeps t l.timers o)
]

put_back-Ordered : (t : Timer) (l : Loop) → Ordered l.timers → Ordered (put_back t l).timers
unfolding put_back
put_back-Ordered t l o =
    if_elim (λ (k : Loop). Ordered k.timers) t.periodic (λ h. emplace-Ordered (later t) l.timers o)
      (λ h. o)

module _ (run : ℕ → Loop → Loop)
    (keeps : (c : ℕ) (l : Loop) → Ordered l.timers → Ordered (run c l).timers) where
  round-Ordered :
      (t : Timer) (ts : List Timer) (l : Loop)
      → Ordered (t ∷ ts)
      → Ordered (round run t ts l).timers
  unfolding round
  round-Ordered t ts l o =
      let l' : Loop = record l { timers = ts; ran = l.ran ++ t.callback ∷ [] } in
      put_back-Ordered t (run t.callback l')
        (keeps t.callback l' (After-Ordered t.expires_time ts o))

  kept :
      (clock : List ℕ) (ts : List Timer) (l l' : Loop)
      → l.timers ≡ ts
      → Ordered ts
      → handle_time_func run clock l ≡ some l'
      → Ordered l'.timers
  unfolding handle_time_func
  kept [] ts l l' e o h = absurd (grind arith)
  kept (n ∷ clock) [] l l' e o h =
      let same : l ≡ l' = grind (arith, handle-empty run n clock l e, h) in rw (← same, e) tt
  kept (n ∷ clock) (t ∷ ts) l l' e o h = elim (Bool-cases (leb t.expires_time n)) [
    | inl d ↦
        kept clock (round run t ts l).timers (round run t ts l) l' refl (round-Ordered t ts l o)
          (sym (handle-due run t ts n clock l e d) ∙ h)
    | inr d ↦
        let same : l ≡ l' = grind (arith, handle-waits run t ts n clock l e d, h) in
        rw (← same, e) o
  ]

  -- The timers that are due run, and what waits then is in order if it was and the callbacks keep
  -- it, as `set_timer` and `cancel_timer` do.
  pub handle_time_func-Ordered :
      (clock : List ℕ) (l l' : Loop)
      → Ordered l.timers
      → handle_time_func run clock l ≡ some l'
      → Ordered l'.timers
  handle_time_func-Ordered clock l l' o h = kept clock l.timers l l' refl o h
