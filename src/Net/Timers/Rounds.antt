-- ===== src/Net/Timers/Rounds.antt =====
-- The loop of `handle_time_func` of net/eventloop.hpp, round by round.
use cortono.Prelude.{List, [], ◌∷◌, ℕ, ◌≡◌, some, true, false, leb}
use cortono.Net.Timers.{Timer, Loop, round, handle_time_func}

module _ (run : ℕ → Loop → Loop) where
  pub handle-empty :
      (n : ℕ) (clock : List ℕ) (l : Loop)
      → l.timers ≡ []
      → handle_time_func run (n ∷ clock) l ≡ some l
  unfolding handle_time_func
  handle-empty n clock l e = simp (handle_time_func, e)

  pub handle-due :
      (t : Timer) (ts : List Timer) (n : ℕ) (clock : List ℕ) (l : Loop)
      → l.timers ≡ t ∷ ts
      → leb t.expires_time n ≡ true
      → handle_time_func run (n ∷ clock) l ≡ handle_time_func run clock (round run t ts l)
  unfolding handle_time_func
  handle-due t ts n clock l e d = rw (handle_time_func, e, d)

  pub handle-waits :
      (t : Timer) (ts : List Timer) (n : ℕ) (clock : List ℕ) (l : Loop)
      → l.timers ≡ t ∷ ts
      → leb t.expires_time n ≡ false
      → handle_time_func run (n ∷ clock) l ≡ some l
  unfolding handle_time_func
  handle-waits t ts n clock l e d = simp (handle_time_func, e, d)
