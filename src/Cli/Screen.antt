-- ===== src/Cli/Screen.antt =====
-- cli/src/fancy_tui.rs: `draw`, what the fancy interface shows of its state. The layout of the
-- terminal and how wide a text is are of other packages, and a widget is what it is built from.
use peer_to_peer_chat_system.Prelude.{
  ℕ, ◌≡◌, ◌≤◌, ◌<◌, ◌^◌, refl, ◌∙◌, ◌+◌, ◌-◌, ◌%◌, Bool, true, false, Option, none, some, List, [],
  ◌∷◌, ◌++◌, length, arith, ◌≢◌,
}
use peer_to_peer_chat_system.Prelude.Text.{Text, codes}
use peer_to_peer_chat_system.Cli.Fancy
use peer_to_peer_chat_system.Cli.Fancy.{
  State, InputMode, normal, editing, MenuItem, home, logs, fit_messages, message_list, numbered,
}
use peer_to_peer_chat_system.Cli.Keys.{fit_messages-kept}

-- What `draw` uses of the areas that `build_chunks` makes: the lines at which that of the messages
-- begins and ends, and where that of the input begins. They are of type `u16`.
pub record Chunks : Type 0 where
  pub body_top : ℕ
  pub body_bottom : ℕ
  pub input_x : ℕ
  pub input_y : ℕ

abbrev pub u16_mod : ℕ
u16_mod = 2 ^ 16

-- `a - b` and `a + b` of a `u16`, built for release.
abbrev pub sub_u16 : ℕ → ℕ → ℕ
sub_u16 a b = (a + u16_mod - b) % u16_mod

abbrev pub add_u16 : ℕ → ℕ → ℕ
add_u16 a b = (a + b) % u16_mod

unfoldable pub num_ui_lines : Chunks → ℕ
num_ui_lines chunks = sub_u16 (sub_u16 chunks.body_bottom chunks.body_top) 2

-- `From<MenuItem> for usize`
unfoldable pub tab : MenuItem → ℕ
tab home = 0
tab logs = 1

-- `get_input_box`: the text, and whether it is yellow.
unfoldable pub get_input_box : Text → InputMode → Text × Bool
get_input_box input_string normal = (input_string, false)
get_input_box input_string editing = (input_string, true)

-- A part of a line, and whether it is bold.
abbrev pub Span : Type 0
Span = Text × Bool

-- The parts of the help, and whether it blinks.
unfoldable pub get_input_mode_message : InputMode → List Span × Bool
get_input_mode_message normal = (
  (codes "Press ", false)
      ∷ (codes "q", true)
      ∷ (codes " to exit, ", false)
      ∷ (codes "e", true)
      ∷ (codes " to start editing.", false)
      ∷ [],
  true,
)
get_input_mode_message editing = (
  (codes "Press ", false)
      ∷ (codes "Esc", true)
      ∷ (codes " to stop editing, ", false)
      ∷ (codes "Enter", true)
      ∷ (codes " to record the message", false)
      ∷ [],
  false,
)

-- What stands between the tabs and the input.
pub data Body : Type 0 where
  messages : List Text → Body
  logger : Body

-- The widgets that `draw` renders, and where the cursor is set, if it is. The help is not among
-- them: `draw` makes it and does not render it.
pub record Screen : Type 0 where
  pub selected : ℕ
  pub body : Body
  pub input : Text × Bool
  pub cursor : Option (ℕ × ℕ)
  pub banner : Text

unfoldable pub cursor_of : (Text → ℕ) → Chunks → Text → InputMode → Option (ℕ × ℕ)
cursor_of width chunks input_string normal = none
cursor_of width chunks input_string editing =
    some
      (add_u16 (add_u16 chunks.input_x (width input_string % u16_mod)) 1, add_u16 chunks.input_y 1)

unfoldable pub body_of : MenuItem → List Text → Body
body_of home lines = messages lines
body_of logs lines = logger

-- `width` is the width of a text on the terminal.
unfoldable pub draw : (Text → ℕ) → Chunks → State → Screen × State
unfolding num_ui_lines tab get_input_box cursor_of body_of
draw width chunks st =
    let st' = fit_messages (num_ui_lines chunks) st in
    (
      record {
        selected = tab st'.active_menu_item;
        body = body_of st'.active_menu_item (message_list st');
        input = get_input_box st.input_string st.input_mode;
        cursor = cursor_of width chunks st.input_string st.input_mode;
        banner = codes "BING2BING";
      },
      st',
    )

module _ (width : Text → ℕ) (chunks : Chunks) (st : State) where
  lines_between :
      chunks.body_top + 2 ≤ chunks.body_bottom
      → chunks.body_bottom < u16_mod
      → num_ui_lines chunks ≡ chunks.body_bottom - chunks.body_top - 2
  unfolding num_ui_lines
  lines_between h b = omega arith

  menu-fit_messages : (n : ℕ) → (fit_messages n st).active_menu_item ≡ st.active_menu_item
  unfolding fit_messages Fancy.drain_messages
  menu-fit_messages n = ground arith

  -- In an area for the messages with its border and the lines between, the first tab shows the
  -- newest messages, each behind its number from 0: as many as there are lines, or all of them if
  -- they fit. Those that are not shown are dropped from the state, and no others.
  pub draw_shows :
      chunks.body_top + 2 ≤ chunks.body_bottom
      → chunks.body_bottom < u16_mod
      → st.active_menu_item ≡ home
      → let lines = chunks.body_bottom - chunks.body_top - 2 in
        let shown = (draw width chunks st).1.messages in
        ((draw width chunks st).0.body ≡ messages (numbered 0 shown))
        × ((draw width chunks st).0.selected ≡ 0)
        × (length shown ≤ lines)
        × ((dropped : List Text) × (dropped ++ shown ≡ st.messages)
            × (length dropped ≢ 0 → length shown ≡ lines))
  unfolding draw tab message_list body_of
  draw_shows h b m =
      let n = chunks.body_bottom - chunks.body_top - 2 in
      let here = menu-fit_messages n ∙ m in
      let (fits, dropped, e, used) = fit_messages-kept n st in
      rw (lines_between h b) (rw here refl, rw here refl, fits, (dropped, e, used))
