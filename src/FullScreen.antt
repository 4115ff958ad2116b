-- ===== src/FullScreen.antt =====
-- frontend/src/context/PresentationModeContext.tsx: the presentation mode and the browser's full
-- screen, which the browser enters and leaves on its own time.
use industrial_safety_intell.Prelude.{String, Bool, true, false, not, ◌&&◌, if◌then◌else◌}
use industrial_safety_intell.Prelude.Eq.{◌==◌, string_eq}
use industrial_safety_intell.Prelude.Words.{Words}

-- The element that an event goes to, where it is one of the page.
pub record Target : Type 0 where
  pub is_element : Bool
  pub tag_name : String
  pub is_content_editable : Bool

unfoldable pub is_typing_target : Target → Bool
is_typing_target t =
    if t.is_element
    then if t.tag_name == "INPUT"
      then true
      else if t.tag_name == "TEXTAREA"
      then true
      else if t.tag_name == "SELECT"
      then true
      else t.is_content_editable
    else false

-- What the provider asks of the browser.
pub data ScreenRequest : Type 0 where
  nothing enter_full_screen exit_full_screen : ScreenRequest

-- `active`, and what is asked.
pub record Reaction : Type 0 where
  pub active : Bool
  pub asked : ScreenRequest

abbrev pub enter : Reaction
enter = record { active = true; asked = ScreenRequest.enter_full_screen }

-- `full_screen` says whether the document has a full-screen element.
abbrev pub exit : Bool → Reaction
exit full_screen = record {
  active = false;
  asked = if full_screen then ScreenRequest.exit_full_screen else ScreenRequest.nothing;
}

unfoldable pub toggle : Bool → Bool → Reaction
toggle active full_screen = if active then exit full_screen else enter

abbrev stay : Bool → Reaction
stay active = record { active = active; asked = ScreenRequest.nothing }

unfoldable pub handle_key_down : Words → Bool → Bool → Target → String → Reaction
unfolding is_typing_target toggle
handle_key_down w active full_screen target key =
    if is_typing_target target
    then stay active
    else if w.lower key == "p"
    then toggle active full_screen
    else if key == "Escape" && active
    then exit full_screen
    else stay active

unfoldable pub handle_fullscreen_change : Bool → Bool → Bool
handle_fullscreen_change active full_screen = if not full_screen then false else active
