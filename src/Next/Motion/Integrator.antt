-- ===== src/Next/Motion/Integrator.antt =====
-- motion.js: `NexT.motion.integrator`, which runs the motions of a page one after the other, and the
-- motions themselves, `NexT.motion.middleWares`.
pub mod Order
use Prim.Native.String.{String}
use cortono.Prelude.{
  Text, codes, List, [], ◌∷◌, ◌++◌, ℕ, zero, suc, ◌+◌, ◌≡◌, refl, Bool, true, false, ◌&&◌, ◌||◌,
  Option, none, some, if◌then◌else◌, ltb, length, get_elem?, erase_idx, map, all, text_eq,
}
use cortono.Next.Page.{Config, is_mist, is_pisces, is_gemini, Call, animate, transition, css}

-- The motions, by name. A post's page puts one in place of `sidebar` that calls no next motion.
pub data MiddleWare : Type 0 where
  logo menu post_list sidebar sidebar_of_post : MiddleWare

-- What the motions find on the page: how many elements each selector has.
pub record Elements : Type 0 where
  pub brand : ℕ
  pub title : ℕ
  pub subtitle : ℕ
  pub logo_line_top : ℕ
  pub logo_line_bottom : ℕ
  pub post_block : ℕ

-- The integrator: its queue, how many entries were called (its cursor is one less), which motions ran,
-- which running motions still owe a call of `next` on their completion, the calls of the page, and
-- how often the sidebar was displayed.
pub record Integrator : Type 0 where
  pub queue : List MiddleWare
  pub called : ℕ
  pub ran : List MiddleWare
  pub owed : List MiddleWare
  pub calls : List Call
  pub displayed : ℕ

abbrev pub initial : Integrator
initial = record { queue = []; called = 0; ran = []; owed = []; calls = []; displayed = 0 }

-- `add`
unfoldable pub add : MiddleWare → Integrator → Integrator
add fn st = record st { queue = st.queue ++ fn ∷ [] }

-- `hasElement`
abbrev pub has_element : List ℕ → Bool
has_element counts = all (λ n. ltb 0 n) counts

abbrev when : Bool → List Call → List Call
when b calls = if b then calls else []

-- `getMistLineSettings`
abbrev mist_line_settings : String → String → Call
mist_line_settings element translate_x =
    animate element (("translateX", translate_x) ∷ [])
      (("duration", "500") ∷ ("sequenceQueue", "false") ∷ [])

-- `sequence` of the logo's motion
unfoldable pub logo_sequence : Config → Elements → List Call
logo_sequence c el =
    when (ltb 0 el.brand) (animate ".brand" (("opacity", "1") ∷ []) (("duration", "200") ∷ []) ∷ [])
    ++ (when (is_mist c && has_element (el.logo_line_top ∷ el.logo_line_bottom ∷ [])) (
          mist_line_settings ".logo-line-before i" "100%"
          ∷ mist_line_settings ".logo-line-after i" "-100%"
          ∷ [])
        ++ (when (has_element (el.title ∷ [])) (
              animate ".site-title" (("opacity", "1") ∷ ("top", "0") ∷ [])
                (("duration", "200") ∷ [])
              ∷ [])
            ++ when (has_element (el.subtitle ∷ [])) (
                animate ".site-subtitle" (("opacity", "1") ∷ ("top", "0") ∷ [])
                  (("duration", "200") ∷ [])
                ∷ [])))

abbrev is_empty_list : List Call → Bool
is_empty_list [] = true
is_empty_list (_ ∷ _) = false

abbrev is_given : Text → Bool
is_given [] = false
is_given (_ ∷ _) = true

abbrev post_transition : String → Text → List Call
post_transition el name =
    when (is_given name) (
      transition el (codes "transition." ++ name) (("stagger", "100") ∷ ("drag", "true") ∷ []) ∷ [])

-- The motions that `postMotion` starts, where the page sets no options of its own. All have one
-- object of options, so each calls `next` when it is complete.
unfoldable pub post_motion : Config → List Call
post_motion c =
    post_transition ".post-block, .pagination, .comments" c.transition_post_block
    ++ (post_transition ".post-header" c.transition_post_header
        ++ (post_transition ".post-body" c.transition_post_body
            ++ (post_transition ".collection-title, .archive-year" c.transition_coll_header
                ++ when (is_given c.transition_sidebar && (is_pisces c || is_gemini c))
                    (post_transition ".sidebar-inner" c.transition_sidebar))))

infixl 5 ◌>>=◌
abbrev pub ◌>>=◌ : Option Integrator → (Integrator → Option Integrator) → Option Integrator
none >>= k = none
some st >>= k = k st

module _ (c : Config) (el : Elements) where
  -- `next` where the motion is asynchronous
  abbrev next_if_async : (Integrator → Option Integrator) → Integrator → Option Integrator
  next_if_async next st = if c.motion_async then next st else some st

  -- Motions of `fn` are started; each owes a call of `next`.
  abbrev start : MiddleWare → List Call → Integrator → Integrator
  start fn calls st = record st { calls = st.calls ++ calls; owed = st.owed ++ map (λ _. fn) calls }

  -- The body of a motion, given `next`. The sequence of the logo owes one call.
  run_middle_ware : (Integrator → Option Integrator) → MiddleWare → Integrator → Option Integrator
  run_middle_ware next logo st = do
    st' ← next_if_async next st
    if is_empty_list (logo_sequence c el)
        then next st'
        else some
            (record st' { calls = st'.calls ++ logo_sequence c el; owed = st'.owed ++ logo ∷ [] })
  run_middle_ware next menu st = do
    st' ← next_if_async next st
    some (
        start menu
          (transition ".menu-item" (codes "transition.slideDownIn") (("duration", "200") ∷ []) ∷ [])
          st')
  run_middle_ware next post_list st = do
    st' ← if ltb 0 el.post_block then some (start post_list (post_motion c) st) else next st
    next_if_async next st'
  run_middle_ware next sidebar st = next (
      if text_eq c.sidebar_display (codes "always")
      then record st { displayed = st.displayed + 1 }
      else st)
  run_middle_ware next sidebar_of_post st = some (record st { displayed = st.displayed + 1 })

  -- `next`, on fuel for the calls within calls; `none` means that the fuel ran out.
  next_fuel : ℕ → Integrator → Option Integrator
  next_fuel zero st = none
  next_fuel (suc fuel) st = elim (get_elem? st.queue st.called) [
    | none ↦ some (record st { called = suc st.called })
    | some fn ↦
        run_middle_ware (next_fuel fuel) fn
          (record st { called = suc st.called; ran = st.ran ++ fn ∷ [] })
  ]

  -- Each call within a call goes on in the queue, so its length is fuel enough.
  unfoldable pub next : Integrator → Option Integrator
  unfolding next_fuel run_middle_ware
  next st = next_fuel (suc (length st.queue)) st

  -- The callback of a motion that is complete. The motions of the posts free the sidebar before.
  abbrev finished : MiddleWare → Integrator → Integrator
  finished post_list st =
      if is_given c.transition_sidebar && (is_pisces c || is_gemini c)
      then record st { calls = st.calls ++ css ".sidebar-inner" "transform" (codes "initial") ∷ [] }
      else st
  finished fn st = st

  -- One of the running motions is complete: the one at this place among those that owe a call.
  unfoldable pub complete : ℕ → Integrator → Option Integrator
  complete i st = elim (get_elem? st.owed i) [
    | none ↦ some st
    | some fn ↦ next (finished fn (record st { owed = erase_idx st.owed i }))
  ]
