-- ===== src/Next/SidebarRoom.antt =====
-- utils.js: the room that the sidebar's content has, `getSidebarSchemePadding` and
-- `initSidebarDimension`. Lengths are whole numbers of pixels; since the padding may be a half, it and
-- what is computed from it count half pixels.
use cortono.Prelude.{
  ℕ, ◌+◌, ◌-◌, ◌*◌, ◌≡◌, refl, Bool, true, false, ◌||◌, inl, inr, Bool-cases, ◌++◌, if_true,
  if_false, ltb, if◌then◌else◌, zero, suc, List, [], ◌∷◌, ap, Option, none, some, ◌∙◌,
}
use cortono.Prelude.Int.{ℤ, pos, negsuc, sub_ℕ}
use cortono.Next.Debounce.{
  Timers, idle, restart, fire, is_waiting, IsValid, idle-IsValid, restart-IsValid,
  restart-is_waiting, restart-waiting, fire-waiting, fire-IsValid,
}
use cortono.Next.Page.{Config, is_pisces, is_gemini}

-- What the scripts measure of the sidebar: whether `.sidebar-nav` is shown as a block and its outer
-- height, the inner width and the width of `.sidebar-inner`, the heights of `.back-to-top`, of the two
-- wrappers and of the body, and the widths of the measuring element.
pub record Sizes : Type 0 where
  pub nav_is_block : Bool
  pub nav_outer_height : ℕ
  pub inner_width : ℕ
  pub width : ℕ
  pub back_to_top_height : ℕ
  pub site_overview_wrap : ℕ
  pub post_toc_wrap : ℕ
  pub body_client_height : ℕ
  pub measure_offset_width : ℕ
  pub measure_client_width : ℕ

unfoldable pub get_scrollbar_width : Sizes → ℤ
get_scrollbar_width z = sub_ℕ z.measure_offset_width z.measure_client_width

unfoldable pub get_sidebarb2t_height : Config → Sizes → ℕ
get_sidebarb2t_height c z = if c.sidebar_b2t then z.back_to_top_height else 0

unfoldable pub sidebar_nav_height : Sizes → ℕ
sidebar_nav_height z = if z.nav_is_block then z.nav_outer_height else 0

-- an inner width is the width with the paddings
unfoldable pub sidebar_padding : Sizes → ℕ
sidebar_padding z = z.inner_width - z.width

-- in half pixels
unfoldable pub get_sidebar_scheme_padding : Config → Sizes → ℕ
unfolding sidebar_nav_height get_sidebarb2t_height sidebar_padding
get_sidebar_scheme_padding c z =
    if is_pisces c || is_gemini c
    then 2
      * (sidebar_padding z * 2
          + sidebar_nav_height z
          + c.sidebar_offset * 2
          + get_sidebarb2t_height c z)
    else 2 * (sidebar_padding z * 2) + sidebar_nav_height z

-- `max-height` as it is set: `0 || 'auto'` is 'auto'
pub data MaxHeight : Type 0 where
  auto : MaxHeight
  half_pixels : ℤ → MaxHeight

unfoldable pub update_sidebar_height : ℤ → MaxHeight
update_sidebar_height (pos zero) = auto
update_sidebar_height (pos (suc n)) = half_pixels (pos (suc n))
update_sidebar_height (negsuc n) = half_pixels (negsuc n)

-- `document.body.clientHeight - NexT.utils.getSidebarSchemePadding()`, in half pixels
unfoldable pub sidebar_wrapper_height : Config → Sizes → ℤ
unfolding get_sidebar_scheme_padding
sidebar_wrapper_height c z = sub_ℕ (2 * z.body_client_height) (get_sidebar_scheme_padding c z)

-- The sidebar's content: the widths 'calc(100% + …px)' that are set, if any, and `max-height`; with it
-- the timers of `updateSidebarHeightTimer`.
pub record State : Type 0 where
  pub site_overview_extra : Option ℤ
  pub post_toc_extra : Option ℤ
  pub max_height : MaxHeight
  pub timers : Timers

unfoldable pub extra_width : Config → Sizes → ℕ → Option ℤ
unfolding get_scrollbar_width get_sidebar_scheme_padding
extra_width c z wrap =
    if ltb (2 * z.body_client_height) (2 * wrap + get_sidebar_scheme_padding c z)
    then some (get_scrollbar_width z)
    else none

unfoldable pub init : Config → Sizes → State
unfolding extra_width update_sidebar_height sidebar_wrapper_height
init c z = record {
  site_overview_extra = extra_width c z z.site_overview_wrap;
  post_toc_extra = extra_width c z z.post_toc_wrap;
  max_height = update_sidebar_height (sidebar_wrapper_height c z);
  timers = idle;
}

-- What happens to the window: it is resized, or a timer fires, with what is measured then.
pub data Event : Type 0 where
  resize : Event
  timeout : ℕ → Sizes → Event

unfoldable pub handle : Config → Event → State → State
unfolding restart fire update_sidebar_height sidebar_wrapper_height
handle c resize s = record s { timers = restart s.timers }
handle c (timeout t z) s =
    if is_waiting t s.timers
    then record s {
      timers = fire t s.timers;
      max_height = update_sidebar_height (sidebar_wrapper_height c z);
    }
    else s

unfoldable pub session : Config → List Event → State → State
unfolding handle
session c [] s = s
session c (e ∷ es) s = session c es (handle c e s)

timeout-waiting :
    (c : Config) (t : ℕ) (z : Sizes) (s : State)
    → is_waiting t s.timers ≡ true
    → handle c (timeout t z) s ≡ record s {
      timers = fire t s.timers;
      max_height = update_sidebar_height (sidebar_wrapper_height c z);
    }
unfolding handle
timeout-waiting c t z s h = if_true (is_waiting t s.timers) _ _ h

timeout_idle :
    (c : Config) (t : ℕ) (z : Sizes) (s : State)
    → is_waiting t s.timers ≡ false
    → handle c (timeout t z) s ≡ s
unfolding handle
timeout_idle c t z s h = if_false (is_waiting t s.timers) _ _ h

handle-IsValid :
    (c : Config) (e : Event) (s : State) → IsValid s.timers → IsValid (handle c e s).timers
unfolding handle
handle-IsValid c resize s v = restart-IsValid s.timers v
handle-IsValid c (timeout t z) s v = elim (Bool-cases (is_waiting t s.timers)) [
  | inl h ↦ rw (timeout-waiting c t z s h) (fire-IsValid t s.timers v h)
  | inr h ↦ rw (timeout_idle c t z s h) v
]

session-timers :
    (c : Config) (es : List Event) (s : State) → IsValid s.timers → IsValid (session c es s).timers
unfolding session
session-timers c [] s v = v
session-timers c (e ∷ es) s v = session-timers c es (handle c e s) (handle-IsValid c e s v)

session-append :
    (c : Config) (es fs : List Event) (s : State)
    → session c (es ++ fs) s ≡ session c fs (session c es s)
unfolding session
session-append c [] fs s = refl
session-append c (e ∷ es) fs s = session-append c es fs (handle c e s)

-- what a resize and its timer leave, from a state in which at most one timer waits
resized :
    (c : Config) (now : Sizes) (s : State)
    → IsValid s.timers
    → (t : ℕ) × ((session c (resize ∷ []) s).timers.waiting ≡ t ∷ [])
      × ((session c (resize ∷ timeout t now ∷ []) s).max_height
          ≡ update_sidebar_height (sidebar_wrapper_height c now))
      × ((session c (resize ∷ timeout t now ∷ []) s).timers.waiting ≡ [])
unfolding session handle
resized c now s v =
    let t = s.timers.next_timer in
    let waits = restart-is_waiting s.timers v in
    let fired : handle c (timeout t now) (handle c resize s) ≡ record s {
      timers = fire t (restart s.timers);
      max_height = update_sidebar_height (sidebar_wrapper_height c now);
    } =
      timeout-waiting c t now (handle c resize s) waits in
    (
      t,
      restart-waiting s.timers v,
      ap (λ (x : State). x.max_height) fired,
      ap (λ (x : State). x.timers.waiting) fired
          ∙ fire-waiting t (restart s.timers) (restart-IsValid s.timers v) waits,
    )

-- Whatever happened since the page was loaded, after a resize one timer waits; when it fires, the
-- sidebar's maximal height is the one of what is measured then, and no timer waits.
pub resize_timeout :
    (c : Config) (z : Sizes) (es : List Event) (now : Sizes)
    → (t : ℕ) × ((session c (es ++ resize ∷ []) (init c z)).timers.waiting ≡ t ∷ [])
      × ((session c (es ++ resize ∷ timeout t now ∷ []) (init c z)).max_height
          ≡ update_sidebar_height (sidebar_wrapper_height c now))
      × ((session c (es ++ resize ∷ timeout t now ∷ []) (init c z)).timers.waiting ≡ [])
unfolding init
resize_timeout c z es now =
    let v = session-timers c es (init c z) idle-IsValid in
    let (t, waits, height, none_waits) = resized c now (session c es (init c z)) v in
    (
      t,
      rw (session-append c es) waits,
      rw (session-append c es) height,
      rw (session-append c es) none_waits,
    )
