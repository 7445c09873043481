-- ===== src/Net/Timers.antt =====
-- The timers of an event loop: net/timer.hpp, and `set_timer`, `cancel_timer` and `handle_time_func` of
-- net/eventloop.hpp on the loop's own thread. A time is a number of ticks of the clock.
pub mod Order
pub mod Clash
pub mod Rounds
pub mod Runs
pub mod Kept
use cortono.Prelude.{
  List, [], ◌∷◌, ◌++◌, ℕ, ◌+◌, ◌%◌, ◌^◌, Option, none, some, Bool, true, false, not, ltb, leb, ◌==◌,
  if◌then◌else◌,
}

-- `Timer`. A callback goes by its number.
pub record Timer : Type 0 where
  pub periodic : Bool
  pub expires_time : ℕ
  pub interval : ℕ
  pub callback : ℕ
  pub id : ℕ

-- `timers_`, a set in the order of `operator<`; `id_to_timers_`; the static `timer_count`; and the
-- callbacks that ran, in their order.
pub record Loop : Type 0 where
  pub timers : List Timer
  pub id_to_timers : List (ℕ × Timer)
  pub timer_count : ℕ
  pub ran : List ℕ

-- `timers_.emplace`: the set takes no second timer that expires at the same time.
unfoldable pub emplace : Timer → List Timer → List Timer
emplace t [] = t ∷ []
emplace t (u ∷ us) =
    let rest = emplace t us in
    if ltb t.expires_time u.expires_time
    then t ∷ u ∷ us
    else if ltb u.expires_time t.expires_time
    then u ∷ rest
    else u ∷ us

-- `timers_.erase(t)`: the timer that expires when `t` does.
unfoldable pub erase : Timer → List Timer → List Timer
erase t [] = []
erase t (u ∷ us) =
    let rest = erase t us in if u.expires_time == t.expires_time then us else u ∷ rest

unfoldable pub lookup_id : ℕ → List (ℕ × Timer) → Option Timer
lookup_id i [] = none
lookup_id i ((j, t) ∷ m) = let rest = lookup_id i m in if i == j then some t else rest

-- `id_to_timers_.erase(id)`
unfoldable pub erase_id : ℕ → List (ℕ × Timer) → List (ℕ × Timer)
erase_id i [] = []
erase_id i ((j, t) ∷ m) = let rest = erase_id i m in if i == j then rest else (j, t) ∷ rest

-- `id_to_timers_.emplace(id, t)`, which keeps an entry that is there.
unfoldable pub emplace_id : ℕ → Timer → List (ℕ × Timer) → List (ℕ × Timer)
unfolding lookup_id
emplace_id i t m = elim (lookup_id i m) [ some _ ↦ m | none ↦ (i, t) ∷ m ]

-- `Timer(point, interval, cb)`
abbrev pub new_timer : ℕ → ℕ → ℕ → ℕ → Timer
new_timer point interval callback id = record {
  periodic = not (interval == 0);
  expires_time = point;
  interval = interval;
  callback = callback;
  id = id;
}

-- The loop with the timer, and the timer's number.
unfoldable pub set_timer : ℕ → ℕ → ℕ → Loop → Loop × ℕ
unfolding emplace emplace_id
set_timer point interval callback l =
    let id = l.timer_count in
    let t = new_timer point interval callback id in
    (
      record l {
        timers = emplace t l.timers;
        id_to_timers = emplace_id id t l.id_to_timers;
        timer_count = (id + 1) % 2 ^ 64;
      },
      id,
    )

-- At the time `now`.
unfoldable pub run_after : ℕ → ℕ → ℕ → Loop → Loop × ℕ
unfolding set_timer
run_after now interval callback l = set_timer (now + interval) 0 callback l

unfoldable pub run_every : ℕ → ℕ → ℕ → Loop → Loop × ℕ
unfolding set_timer
run_every now interval callback l = set_timer (now + interval) interval callback l

unfoldable pub cancel_timer : ℕ → Loop → Loop
unfolding erase erase_id lookup_id
cancel_timer i l = elim (lookup_id i l.id_to_timers) [
  | some t ↦ record l { timers = erase t l.timers; id_to_timers = erase_id i l.id_to_timers }
  | none ↦ l
]

-- `update_time`
abbrev pub later : Timer → Timer
later t = record t { expires_time = t.expires_time + t.interval }

-- The end of a round: a periodic timer goes back, any other is forgotten. `id_to_timers_[id] = t`
-- stores the timer without its callback, which moved into the set; nothing calls it there.
unfoldable pub put_back : Timer → Loop → Loop
unfolding emplace erase_id
put_back t l =
    if t.periodic
    then record l {
      timers = emplace (later t) l.timers;
      id_to_timers = (t.id, later t) ∷ erase_id t.id l.id_to_timers;
    }
    else record l { id_to_timers = erase_id t.id l.id_to_timers }

-- What the callbacks do to the loop.
module _ (run : ℕ → Loop → Loop) where
  -- A round of `handle_time_func` for the timer `t`, with `ts` behind it.
  unfoldable pub round : Timer → List Timer → Loop → Loop
  unfolding put_back
  round t ts l =
      put_back t (run t.callback (record l { timers = ts; ran = l.ran ++ t.callback ∷ [] }))

  -- Each test of the loop reads the clock; `none` means that the readings are used up.
  unfoldable pub handle_time_func : List ℕ → Loop → Option Loop
  unfolding round
  handle_time_func [] l = none
  handle_time_func (now ∷ clock) l = elim l.timers [
    | [] ↦ some l
    | t ∷ ts ↦ elim (leb t.expires_time now) [
      | true ↦ handle_time_func clock (round t ts l)
      | false ↦ some l
    ]
  ]
