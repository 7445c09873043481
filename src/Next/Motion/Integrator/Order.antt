-- ===== src/Next/Motion/Integrator/Order.antt =====
-- The order in which the integrator of motion.js runs the motions, and that its calls within calls end.
use cortono.Prelude.{
  codes, List, [], ◌∷◌, ◌++◌, ℕ, zero, suc, ◌+◌, ◌<◌, ◌≤◌, ◌≡◌, refl, sym, ap, ◌∙◌, Option, some,
  arith, if_elim, length, get_elem?, take, take-suc-some, take-suc-none, Option-cases, inl, inr,
  lt-length_of_get_elem?, ltb, text_eq,
}
use cortono.Next.Page.{Config}
use cortono.Next.Motion.Integrator.{
  MiddleWare, logo, menu, post_list, sidebar, sidebar_of_post, Elements, Integrator, initial,
  run_middle_ware, next_fuel, next, complete, next_if_async, logo_sequence, is_empty_list, finished,
  ◌>>=◌,
}

-- The motions that ran are the first of the queue, as many as `next` was called; past the end of the
-- queue a call runs nothing.
pub record IsValid (q : List MiddleWare) (st : Integrator) : Type 0 where
  pub queue : st.queue ≡ q
  pub in_order : st.ran ≡ take st.called q

-- A result that is valid, with at least `n` calls of `next` made.
abbrev pub Reaches : List MiddleWare → ℕ → Option Integrator → Type 0
Reaches q n r = (st : Integrator) × (r ≡ some st) × IsValid q st × (n ≤ st.called)

-- `next` works on states in which at least `n` calls were made.
abbrev Works : List MiddleWare → ℕ → (Integrator → Option Integrator) → Type 0
Works q n next =
    (st : Integrator) → IsValid q st → n ≤ st.called → Reaches q (suc st.called) (next st)

Reaches-weaken :
    (q : List MiddleWare) (m n : ℕ) (r : Option Integrator) → m ≤ n → Reaches q n r → Reaches q m r
Reaches-weaken q m n r h (st, e, v, k) = (st, e, v, omega arith)

module _ (c : Config) (el : Elements) (q : List MiddleWare) (n : ℕ) where
  next_if_async-Reaches :
      (next : Integrator → Option Integrator) (st : Integrator)
      → Works q n next
      → IsValid q st
      → n ≤ st.called
      → Reaches q st.called (next_if_async c el next st)
  next_if_async-Reaches next st works v h =
      if_elim (Reaches q st.called) c.motion_async
        (λ _. Reaches-weaken q st.called (suc st.called) (next st) (omega arith) (works st v h))
        (λ _. (st, refl, v, omega arith))

Reaches-bind :
    (q : List MiddleWare) (m n : ℕ) (r : Option Integrator) (f : Integrator → Option Integrator)
    → Reaches q m r
    → ((st : Integrator) → IsValid q st → m ≤ st.called → Reaches q n (f st))
    → Reaches q n (r >>= f)
Reaches-bind q m n r f (st, e, v, h) k = rw e (k st v h)

module _ (c : Config) (el : Elements) (q : List MiddleWare) (n : ℕ) where
  run_middle_ware-Reaches :
      (next : Integrator → Option Integrator) (fn : MiddleWare) (st : Integrator)
      → Works q n next
      → IsValid q st
      → n ≤ st.called
      → Reaches q n (run_middle_ware c el next fn st)
  unfolding run_middle_ware
  run_middle_ware-Reaches next logo st works v h =
      Reaches-bind q n n _ _
        (Reaches-weaken q n st.called _ h (next_if_async-Reaches c el q n next st works v h))
        λ st' v' h'.
          if_elim (Reaches q n) (is_empty_list (logo_sequence c el))
            (λ _. Reaches-weaken q n (suc st'.called) (next st') (omega arith) (works st' v' h'))
            (λ _. (_, refl, record { queue = v'.queue; in_order = v'.in_order }, h'))
  run_middle_ware-Reaches next menu st works v h =
      Reaches-bind q n n _ _
        (Reaches-weaken q n st.called _ h (next_if_async-Reaches c el q n next st works v h))
        λ st' v' h'. (_, refl, record { queue = v'.queue; in_order = v'.in_order }, h')
  run_middle_ware-Reaches next post_list st works v h =
      Reaches-bind q n n _ _
        (if_elim (Reaches q n) (ltb 0 el.post_block)
          (λ _. (_, refl, record { queue = v.queue; in_order = v.in_order }, h))
          (λ _. Reaches-weaken q n (suc st.called) (next st) (omega arith) (works st v h)))
        λ st' v' h'.
          Reaches-weaken q n st'.called _ h' (next_if_async-Reaches c el q n next st' works v' h')
  run_middle_ware-Reaches next sidebar st works v h =
      if_elim (λ (s : Integrator). Reaches q n (next s))
        (text_eq c.sidebar_display (codes "always"))
        (λ _.
          Reaches-weaken q n (suc st.called) _ (omega arith)
            (works _ (record { queue = v.queue; in_order = v.in_order }) h))
        (λ _. Reaches-weaken q n (suc st.called) _ (omega arith) (works st v h))
  run_middle_ware-Reaches next sidebar_of_post st works v h =
      (_, refl, record { queue = v.queue; in_order = v.in_order }, h)

module _ (c : Config) (el : Elements) (q : List MiddleWare) where
  next_fuel-Reaches :
      (fuel : ℕ) (st : Integrator)
      → 0 < fuel
      → length q < fuel + st.called
      → IsValid q st
      → Reaches q (suc st.called) (next_fuel c el fuel st)
  unfolding next_fuel
  next_fuel-Reaches zero st p h v = elim p [ ]
  next_fuel-Reaches (suc fuel) st p h v = elim (Option-cases (get_elem? q st.called)) [
    | inl over ↦
        rw (v.queue, next_fuel, over)
          (
            _,
            refl,
            record {
              queue = v.queue;
              in_order = v.in_order ∙ sym (take-suc-none q st.called over);
            },
            omega arith,
          )
    | inr (fn, found) ↦
        let within = lt-length_of_get_elem? q st.called found in
        rw (v.queue, next_fuel, found)
          (run_middle_ware-Reaches c el q (suc st.called) (next_fuel c el fuel) fn _
            (λ st' v' h'. next_fuel-Reaches fuel st' (omega arith) (omega arith) v')
            (record {
              queue = v.queue;
              in_order =
                  ap (λ (ms : List MiddleWare). ms ++ fn ∷ []) v.in_order
                  ∙ sym (take-suc-some q st.called fn found);
            })
            (omega arith))
  ]

  next-Reaches : (st : Integrator) → IsValid q st → Reaches q (suc st.called) (next c el st)
  unfolding next
  next-Reaches st v =
      next_fuel-Reaches (suc (length st.queue)) st (omega arith) (rw v.queue (omega arith)) v

  finished-IsValid :
      (fn : MiddleWare) (st : Integrator) → IsValid q st → IsValid q (finished c el fn st)
  finished-IsValid logo st v = v
  finished-IsValid menu st v = v
  finished-IsValid post_list st v =
      if_elim (IsValid q) _ (λ _. record { queue = v.queue; in_order = v.in_order }) (λ _. v)
  finished-IsValid sidebar st v = v
  finished-IsValid sidebar_of_post st v = v

  complete-Reaches : (i : ℕ) (st : Integrator) → IsValid q st → Reaches q 0 (complete c el i st)
  unfolding complete
  complete-Reaches i st v = elim (Option-cases (get_elem? st.owed i)) [
    | inl nothing ↦ rw (nothing, complete) (st, refl, v, omega arith)
    | inr (fn, owes) ↦
        rw (owes, complete)
          (Reaches-weaken q 0 _ _ (omega arith) (
            next-Reaches _
              (finished-IsValid fn _ (record { queue = v.queue; in_order = v.in_order }))))
  ]

module _ (c : Config) (el : Elements) where
  -- Motions complete, one after the other, in an order that the page chooses.
  abbrev pub complete_all : List ℕ → Integrator → Option Integrator
  complete_all [] st = some st
  complete_all (i ∷ is) st = complete c el i st >>= complete_all is

  -- `bootstrap`, and the completions that follow.
  abbrev pub play : List MiddleWare → List ℕ → Option Integrator
  play q is = next c el (record initial { queue = q }) >>= complete_all is

  complete_all-Reaches :
      (q : List MiddleWare) (is : List ℕ) (st : Integrator)
      → IsValid q st
      → Reaches q 0 (complete_all is st)
  complete_all-Reaches q [] st v = (st, refl, v, omega arith)
  complete_all-Reaches q (i ∷ is) st v =
      Reaches-bind q 0 0 _ (complete_all is) (complete-Reaches c el q i st v)
        (λ st' v' _. complete_all-Reaches q is st' v')

-- For every page, setting and order in which motions complete, the calls of next end, and the
-- motions that ran are the first of the queue, in its order and each once.
pub play_in_order :
    (c : Config) (el : Elements) (q : List MiddleWare) (is : List ℕ)
    → (st : Integrator) × (play c el q is ≡ some st) × (st.ran ≡ take st.called q)
play_in_order c el q is =
    let start : IsValid q (record initial { queue = q }) = record {
      queue = refl;
      in_order = refl;
    } in
    let (st, e, v, _) =
      Reaches-bind q 1 0 _ (complete_all c el is) (next-Reaches c el q _ start)
        (λ st v _. complete_all-Reaches c el q is st v) in
    (st, e, v.in_order)
