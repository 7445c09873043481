-- ===== src/Next/Motion/Lines.antt =====
-- motion.js: the three lines of the sidebar's toggle.
use Prim.Native.String.{String}
use cortono.Prelude.{List, [], ◌∷◌, ◌++◌}
use cortono.Next.Page.{Call, stop, animate}

-- The positions of the lines: at rest, as an arrow, and as a cross.
pub data Status : Type 0 where
  init arrow close : Status

pub record ToggleLine : Type 0 where
  pub el : String
  pub init : List (String × String)
  pub arrow : List (String × String)
  pub close : List (String × String)

-- `new SidebarToggleLine`: every line has the same properties at rest.
unfoldable pub new_line : String → List (String × String) → List (String × String) → ToggleLine
new_line el arrow_status close_status = record {
  el = el;
  init =
      ("width", "100%") ∷ ("opacity", "1") ∷ ("left", "0") ∷ ("rotateZ", "0") ∷ ("top", "0") ∷ [];
  arrow = arrow_status;
  close = close_status;
}

unfoldable pub status_of : Status → ToggleLine → List (String × String)
status_of Status.init line = line.init
status_of Status.arrow line = line.arrow
status_of Status.close line = line.close

-- `transform`
unfoldable pub transform : Status → ToggleLine → List Call
transform status line = stop line.el ∷ animate line.el (status_of status line) [] ∷ []

unfoldable pub toggle_lines : List ToggleLine
unfolding new_line
toggle_lines =
    new_line ".sidebar-toggle-line-first"
      (("width", "50%") ∷ ("rotateZ", "-45deg") ∷ ("top", "2px") ∷ [])
      (("width", "100%") ∷ ("rotateZ", "-45deg") ∷ ("top", "5px") ∷ [])
    ∷ new_line ".sidebar-toggle-line-middle" (("width", "90%") ∷ []) (("opacity", "0") ∷ [])
    ∷ new_line ".sidebar-toggle-line-last"
        (("width", "50%") ∷ ("rotateZ", "45deg") ∷ ("top", "-2px") ∷ [])
        (("width", "100%") ∷ ("rotateZ", "45deg") ∷ ("top", "-5px") ∷ [])
    ∷ []

-- `init`, `arrow` and `close` of the three lines
unfoldable pub move_all : Status → List ToggleLine → List Call
unfolding transform status_of
move_all status [] = []
move_all status (line ∷ lines) = transform status line ++ move_all status lines
