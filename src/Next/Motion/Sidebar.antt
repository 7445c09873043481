-- ===== src/Next/Motion/Sidebar.antt =====
-- motion.js: `sidebarToggleMotion`, the opening and closing of the sidebar.
use Prim.Native.String.{String}
use cortono.Prelude.{
  codes, List, [], ◌∷◌, ◌++◌, ℕ, ◌+◌, ◌≡◌, Bool, true, false, not, ◌&&◌, Option, none, some, arith,
  ltb, if◌then◌else◌,
}
use cortono.Next.Page.{Call, stop, animate, transition, add_class, remove_class, css, trigger}
use cortono.Next.Motion.Lines.{Status, toggle_lines, move_all}

-- What the handlers ask of the page: `NexT.utils.isDesktop()`, and whether the overview is displayed.
pub record Env : Type 0 where
  pub desktop : Bool
  pub overview_block : Bool

-- `isSidebarVisible`, the place of the last touch, and what the calls have made of the page: where the
-- lines were moved to, whether the opening runs, whether the sidebar has the class `sidebar-active`,
-- whether the body was given room for the sidebar, and all calls.
pub record Sidebar : Type 0 where
  pub is_sidebar_visible : Bool
  pub touched : Option (ℕ × ℕ)
  pub lines : Status
  pub opening : Bool
  pub active : Bool
  pub padded : Bool
  pub calls : List Call

abbrev pub initial : Sidebar
initial = record {
  is_sidebar_visible = false;
  touched = none;
  lines = Status.init;
  opening = false;
  active = false;
  padded = false;
  calls = [];
}

abbrev sidebar_width : String
sidebar_width = "320px"

-- The calls of the handler of `sidebar.isShowing`.
abbrev showing_calls : Env → List Call
showing_calls env =
    if env.desktop
    then stop "body"
      ∷ animate "body" (("paddingRight", sidebar_width) ∷ []) (("duration", "200") ∷ [])
      ∷ []
    else []

-- `showSidebar`
unfoldable pub show_sidebar : Env → Sidebar → Sidebar
show_sidebar env s = record s {
  lines = Status.close;
  opening = true;
  padded = if env.desktop then true else s.padded;
  calls =
      s.calls
      ++ (move_all Status.close toggle_lines
          ++ (stop ".sidebar"
              ∷ animate ".sidebar" (("width", sidebar_width) ∷ [])
                  (("display", "block") ∷ ("duration", "200") ∷ [])
              ∷ trigger ".sidebar" "sidebar.isShowing"
              ∷ showing_calls env));
}

-- The calls at the end of `hideSidebar`; a jQuery object counts as true, also an empty one.
abbrev toc_calls : Env → List Call
toc_calls env =
    if env.overview_block
    then remove_class ".post-toc-wrap" "motion-element" ∷ []
    else add_class ".post-toc-wrap" "motion-element" ∷ []

-- `hideSidebar`; stopping the sidebar's motion ends an opening that still runs, without its `complete`.
unfoldable pub hide_sidebar : Env → Sidebar → Sidebar
hide_sidebar env s = record s {
  lines = Status.init;
  opening = false;
  active = false;
  padded = if env.desktop then false else s.padded;
  calls =
      s.calls
      ++ ((if env.desktop
            then stop "body" ∷ animate "body" (("paddingRight", "0") ∷ []) [] ∷ []
            else [])
          ++ (stop ".sidebar .motion-element"
              ∷ css ".sidebar .motion-element" "display" (codes "none")
              ∷ stop ".sidebar"
              ∷ animate ".sidebar" (("width", "0") ∷ []) (("display", "none") ∷ [])
              ∷ (move_all Status.init toggle_lines
                  ++ (remove_class ".sidebar" "sidebar-active"
                      ∷ trigger ".sidebar" "sidebar.isHiding"
                      ∷ toc_calls env))));
}

unfoldable pub click_handler : Env → Sidebar → Sidebar
unfolding show_sidebar hide_sidebar
click_handler env s =
    let s' = if s.is_sidebar_visible then hide_sidebar env s else show_sidebar env s in
    record s' { is_sidebar_visible = not s.is_sidebar_visible }

unfoldable pub mouse_enter_handler : Sidebar → Sidebar
mouse_enter_handler s =
    if s.is_sidebar_visible
    then s
    else record s { lines = Status.arrow; calls = s.calls ++ move_all Status.arrow toggle_lines }

unfoldable pub mouse_leave_handler : Sidebar → Sidebar
mouse_leave_handler s =
    if s.is_sidebar_visible
    then s
    else record s { lines = Status.init; calls = s.calls ++ move_all Status.init toggle_lines }

unfoldable pub touchstart_handler : ℕ → ℕ → Sidebar → Sidebar
touchstart_handler x y s = record s { touched = some (x, y) }

-- The test of `touchendHandler`, which fails where no touch began: more than 30 to the right, and less
-- than 20 up or down.
abbrev pub is_swipe : Option (ℕ × ℕ) → ℕ → ℕ → Bool
is_swipe none x' y' = false
is_swipe (some (x, y)) x' y' = ltb (x + 30) x' && (ltb y' (y + 20) && ltb y (y' + 20))

unfoldable pub touchend_handler : Env → ℕ → ℕ → Sidebar → Sidebar
unfolding click_handler
touchend_handler env x y s = if is_swipe s.touched x y then click_handler env s else s

-- The callbacks of the opening's motion.
unfoldable pub on_begin : Sidebar → Sidebar
on_begin s =
    if s.opening
    then record s {
      calls =
          s.calls
          ++ transition ".sidebar .motion-element" (codes "transition.slideRightIn")
              (("stagger", "50") ∷ ("drag", "true") ∷ [])
            ∷ [];
    }
    else s

unfoldable pub on_complete : Sidebar → Sidebar
on_complete s =
    if s.opening
    then record s {
      opening = false;
      active = true;
      calls =
          s.calls
          ++ add_class ".sidebar" "sidebar-active" ∷ trigger ".sidebar" "sidebar.didShow" ∷ [];
    }
    else s

-- the innermost callback of `begin`
unfoldable pub on_motion_complete : Sidebar → Sidebar
on_motion_complete s = record s {
  calls = s.calls ++ trigger ".sidebar" "sidebar.motion.complete" ∷ [];
}

-- What can happen to the sidebar; the dimmer's and the toggle's clicks have one handler, and the
-- listener of `touchmove` does nothing but keep the browser from scrolling.
pub data Event : Type 0 where
  click mouse_enter mouse_leave begin complete motion_complete touch_move : Event
  touch_start touch_end : ℕ → ℕ → Event

unfoldable pub handle : Env → Event → Sidebar → Sidebar
unfolding click_handler mouse_enter_handler mouse_leave_handler touchstart_handler touchend_handler
    on_begin on_complete on_motion_complete
handle env click s = click_handler env s
handle env mouse_enter s = mouse_enter_handler s
handle env mouse_leave s = mouse_leave_handler s
handle env begin s = on_begin s
handle env complete s = on_complete s
handle env motion_complete s = on_motion_complete s
handle env touch_move s = s
handle env (touch_start x y) s = touchstart_handler x y s
handle env (touch_end x y) s = touchend_handler env x y s

abbrev is_close : Status → Bool
is_close Status.close = true
is_close _ = false

-- The lines are a cross exactly while the sidebar is visible, on a desktop the body leaves room for it
-- just then, elsewhere never; a hidden sidebar is neither opening nor active, and a visible one is
-- exactly one of both.
pub record IsValid (desktop : Bool) (s : Sidebar) : Type 0 where
  pub cross : is_close s.lines ≡ s.is_sidebar_visible
  pub room : s.padded ≡ (desktop && s.is_sidebar_visible)
  pub hidden : s.is_sidebar_visible ≡ false → (s.opening ≡ false) × (s.active ≡ false)
  pub visible : s.is_sidebar_visible ≡ true → s.active ≡ not s.opening

-- Every event keeps the parts of the sidebar in step, on a device that stays one kind of device.
pub handle-IsValid :
    (env : Env) (e : Event) (s : Sidebar)
    → IsValid env.desktop s
    → IsValid env.desktop (handle env e s)
unfolding handle
handle-IsValid env click s v = ground arith
handle-IsValid env mouse_enter s v = ground arith
handle-IsValid env mouse_leave s v = ground arith
handle-IsValid env begin s v = ground arith
handle-IsValid env complete s v = ground arith
handle-IsValid env motion_complete s v = ground arith
handle-IsValid env touch_move s v = v
handle-IsValid env (touch_start x y) s v = ground arith
handle-IsValid env (touch_end x y) s v = ground arith

initial-IsValid : (desktop : Bool) → IsValid desktop initial
initial-IsValid desktop = ground arith

abbrev pub session : Env → List Event → Sidebar → Sidebar
session env [] s = s
session env (e ∷ es) s = session env es (handle env e s)

session-IsValid_from :
    (env : Env) (es : List Event) (s : Sidebar)
    → IsValid env.desktop s
    → IsValid env.desktop (session env es s)
session-IsValid_from env [] s v = v
session-IsValid_from env (e ∷ es) s v =
    session-IsValid_from env es (handle env e s) (handle-IsValid env e s v)

-- However the user clicks, swipes and moves the mouse, and whenever the opening's callbacks come:
-- the lines are a cross exactly while the sidebar is visible; on a desktop the body leaves room
-- for it just then, and elsewhere never; a hidden sidebar is neither opening nor active, and a
-- visible one is exactly one of both.
pub session-IsValid : (env : Env) (es : List Event) → IsValid env.desktop (session env es initial)
session-IsValid env es = session-IsValid_from env es initial (initial-IsValid env.desktop)
