-- ===== src/Tests/Loops.antt =====
-- The timers of net/eventloop.hpp at concrete inputs.
use cortono.Prelude.{[], ◌∷◌, ℕ, ◌+◌, ◌%◌, ◌^◌, ◌≡◌, refl, some, none, arith}
use cortono.Net.Timers.{
  Timer, Loop, new_timer, emplace, erase, lookup_id, erase_id, emplace_id, set_timer, run_after,
  run_every, cancel_timer, put_back, round, handle_time_func,
}
use cortono.Net.Timers.Order.{apart_from}
use cortono.Net.Timers.Clash.{cancel_timer-set_timer, round-cancel_timer}
use cortono.Net.Timers.Runs.{Ran, handle_time_func-Ran}

abbrev no_timers : Loop
no_timers = record { timers = []; id_to_timers = []; timer_count = 0; ran = [] }

abbrev late : Timer
late = new_timer 30 0 7 0

abbrev early : Timer
early = new_timer 15 0 8 1

-- Two timers, set at the time 10.
abbrev waiting : Loop
waiting = record {
  timers = early ∷ late ∷ [];
  id_to_timers = (1, early) ∷ (0, late) ∷ [];
  timer_count = 2;
  ran = [];
}

waiting_lem : (run_after 10 5 8 (run_after 10 20 7 no_timers).0).0 ≡ waiting
unfolding run_after set_timer emplace emplace_id lookup_id
waiting_lem = refl

abbrev quiet : ℕ → Loop → Loop
quiet c l = l

-- The clock is read at 16, 17 and 18.
early_runs :
    handle_time_func quiet (16 ∷ 17 ∷ 18 ∷ []) waiting
    ≡ some (record {
      timers = late ∷ [];
      id_to_timers = (0, late) ∷ [];
      timer_count = 2;
      ran = 8 ∷ [];
    })
unfolding handle_time_func round put_back erase_id
early_runs = refl

handle_time_func-Ran_example :
    (l : Loop) × (handle_time_func quiet (16 ∷ 17 ∷ 18 ∷ []) waiting ≡ some l) × Ran 16 18 waiting l
handle_time_func-Ran_example =
    handle_time_func-Ran quiet (λ c l. (refl, refl)) (16 ∷ 17 ∷ 18 ∷ []) 16 18 waiting
      (omega arith, tt) (refl, (refl, tt)) (omega arith)
      ((omega arith, omega arith), ((omega arith, omega arith), ((omega arith, omega arith), tt)))

unknown : lookup_id 2 waiting.id_to_timers ≡ none
unfolding lookup_id
unknown = refl

-- At 30 another timer waits.
clash : (cancel_timer 2 (set_timer 30 0 9 waiting).0).timers ≡ early ∷ []
unfolding cancel_timer set_timer emplace emplace_id lookup_id erase erase_id
clash = refl

cancel_timer-set_timer_example :
    cancel_timer (set_timer 30 0 9 waiting).1 (set_timer 30 0 9 waiting).0
    ≡ record waiting { timers = apart_from 30 waiting.timers; timer_count = (2 + 1) % 2 ^ 64 }
cancel_timer-set_timer_example = cancel_timer-set_timer 30 0 9 waiting (omega arith, tt) unknown

-- A timer of every 5 ticks.
abbrev ticking : Timer
ticking = new_timer 15 5 6 0

abbrev ticking_loop : Loop
ticking_loop = record {
  timers = ticking ∷ [];
  id_to_timers = (0, ticking) ∷ [];
  timer_count = 1;
  ran = [];
}

ticking_lem : (run_every 10 5 6 no_timers).0 ≡ ticking_loop
unfolding run_every set_timer emplace emplace_id lookup_id
ticking_lem = refl

ticking_known : lookup_id 0 ticking_loop.id_to_timers ≡ some ticking
unfolding lookup_id
ticking_known = refl

round-cancel_timer_example :
    round (λ c. cancel_timer 0) ticking [] ticking_loop ≡ round (λ c k. k) ticking [] ticking_loop
round-cancel_timer_example = round-cancel_timer ticking [] ticking_loop tt ticking_known refl
