-- ===== src/Next/Page.antt =====
-- What the theme's scripts share: the page's settings, and the calls of jQuery, Velocity and the
-- browser that they make. These libraries are no part of the theme: a call is recorded as a value.
use Prim.Native.String.{String}
use cortono.Prelude.{Text, codes, List, ℕ, Bool, text_eq}

-- `CONFIG`, as far as the scripts read it.
pub record Config : Type 0 where
  pub scheme : Text
  pub sidebar_display : Text
  pub sidebar_offset : ℕ
  pub sidebar_b2t : Bool
  pub motion_enable : Bool
  pub motion_async : Bool
  pub transition_post_block : Text
  pub transition_post_header : Text
  pub transition_post_body : Text
  pub transition_coll_header : Text
  pub transition_sidebar : Text
  pub fastclick : Bool
  pub lazyload : Bool
  pub fancybox : Bool
  pub tabs : Bool

-- `NexT.utils.isMist`, `isPisces`, `isGemini`
unfoldable pub is_mist : Config → Bool
is_mist c = text_eq c.scheme (codes "Mist")

unfoldable pub is_pisces : Config → Bool
is_pisces c = text_eq c.scheme (codes "Pisces")

unfoldable pub is_gemini : Config → Bool
is_gemini c = text_eq c.scheme (codes "Gemini")

-- A call on the elements that a selector finds; options and properties are written as in the source.
pub data Call : Type 0 where
  stop : String → Call
  animate : String → List (String × String) → List (String × String) → Call
  transition : String → Text → List (String × String) → Call
  add_class : String → String → Call
  remove_class : String → String → Call
  css : String → String → Text → Call
  trigger : String → String → Call
