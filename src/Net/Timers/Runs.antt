-- ===== src/Net/Timers/Runs.antt =====
-- `handle_time_func` of net/eventloop.hpp: which timers run.
use cortono.Prelude.{
  List, [], ◌∷◌, ◌++◌, ℕ, ◌<◌, ◌≤◌, ◌≡◌, refl, ap, sym, ◌∙◌, arith, some, false, leb, Bool-cases,
  inl, inr, All, map, length, append_assoc, append-nil,
}
use cortono.Net.Timers.{Timer, Loop, put_back, round, handle_time_func}
use cortono.Net.Timers.Rounds.{handle-empty, handle-due, handle-waits}
use cortono.Net.Timers.Order.{After, Ordered, After-Ordered}

-- A callback that sets and cancels no timer.
abbrev pub IsQuiet : (ℕ → Loop → Loop) → Type 0
IsQuiet run = (c : ℕ) (l : Loop) → ((run c l).timers ≡ l.timers) × ((run c l).ran ≡ l.ran)

-- `done` are the timers that ran between `l` and `l'`, whose clock was between the two times.
pub record Ran (now end : ℕ) (l l' : Loop) : Type 0 where
  pub done : List Timer
  pub timers : l.timers ≡ done ++ l'.timers
  pub order : l'.ran ≡ l.ran ++ map Timer.callback done
  pub due : All (λ t. t.expires_time ≤ end) done
  pub waits : After now l'.timers

module _ (run : ℕ → Loop → Loop) (quiet : IsQuiet run) where
  round-timers :
      (t : Timer) (ts : List Timer) (l : Loop)
      → t.periodic ≡ false
      → ((round run t ts l).timers ≡ ts) × ((round run t ts l).ran ≡ l.ran ++ t.callback ∷ [])
  unfolding round put_back
  round-timers t ts l h =
      let (a, b) = quiet t.callback (record l { timers = ts; ran = l.ran ++ t.callback ∷ [] }) in
      (rw h a, rw h b)

  later_waits :
      (now n : ℕ) (t : Timer) (ts : List Timer)
      → Ordered (t ∷ ts)
      → now ≤ n
      → leb t.expires_time n ≡ false
      → After now (t ∷ ts)
  later_waits now n t ts o h e = (ground arith, o)

  Ran-round :
      (t : Timer) (ts : List Timer) (now end : ℕ) (l l' : Loop)
      → l.timers ≡ t ∷ ts
      → ((round run t ts l).timers ≡ ts) × ((round run t ts l).ran ≡ l.ran ++ t.callback ∷ [])
      → t.expires_time ≤ end
      → Ran now end (round run t ts l) l'
      → Ran now end l l'
  Ran-round t ts now end l l' e (a, b) h x = record {
    done = t ∷ x.done;
    timers = e ∙ ap (t ∷◌) (sym a ∙ x.timers);
    order =
        x.order
        ∙ ap (λ r. r ++ map Timer.callback x.done) b
        ∙ append_assoc l.ran (t.callback ∷ []) (map Timer.callback x.done);
    due = (h, x.due);
    waits = x.waits;
  }

  ran :
      (ts : List Timer) (clock : List ℕ) (now end : ℕ) (l : Loop)
      → l.timers ≡ ts
      → Ordered ts
      → All (λ t. t.periodic ≡ false) ts
      → length ts < length clock
      → All (λ n. (now ≤ n) × (n ≤ end)) clock
      → (l' : Loop) × (handle_time_func run clock l ≡ some l') × Ran now end l l'
  unfolding handle_time_func
  ran ts [] now end l e o p h c = absurd (omega arith)
  ran [] (n ∷ clock) now end l e o p h c = (
    l,
    handle-empty run n clock l e,
    record { done = []; timers = refl; order = sym (append-nil l.ran); due = tt; waits = rw e tt },
  )
  ran (t ∷ ts) (n ∷ clock) now end l e o (q, p) h ((a, b), c) =
      elim (Bool-cases (leb t.expires_time n)) [
        | inl d ↦
            let r = round-timers t ts l q in
            let (l', f, x) =
              ran ts clock now end (round run t ts l) r.0 (After-Ordered t.expires_time ts o) p
                (omega arith) c in
            (
              l',
              handle-due run t ts n clock l e d ∙ f,
              Ran-round t ts now end l l' e r (ground arith) x,
            )
        | inr d ↦ (
          l,
          handle-waits run t ts n clock l e d,
          record {
            done = [];
            timers = refl;
            order = sym (append-nil l.ran);
            due = tt;
            waits = rw e (later_waits now n t ts o a d);
          },
        )
      ]

  -- With timers that run once and callbacks that set and cancel none: the loop ends after at most
  -- one round for each timer. The timers that ran are the first ones, in the order of their
  -- expiry, each due by the clock's last reading, and no timer is left that was due at its first.
  pub handle_time_func-Ran :
      (clock : List ℕ) (now end : ℕ) (l : Loop)
      → Ordered l.timers
      → All (λ t. t.periodic ≡ false) l.timers
      → length l.timers < length clock
      → All (λ n. (now ≤ n) × (n ≤ end)) clock
      → (l' : Loop) × (handle_time_func run clock l ≡ some l') × Ran now end l l'
  handle_time_func-Ran clock now end l = ran l.timers clock now end l refl
