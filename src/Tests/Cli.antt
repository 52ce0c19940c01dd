-- ===== src/Tests/Cli.antt =====
-- cli/src/simple_tui.rs and cli/src/fancy_tui.rs on concrete inputs.
use peer_to_peer_chat_system.Prelude.{
  ℕ, ◌≡◌, ◌↔◌, ◌^◌, refl, true, none, List, [], ◌∷◌, ◌++◌, map, All, arith,
}
use peer_to_peer_chat_system.Prelude.Text.{codes}
use peer_to_peer_chat_system.Prelude.Search.{starts_with, strip_prefix}
use peer_to_peer_chat_system.Frame.{ClientServerMessage}
use peer_to_peer_chat_system.Cmd
use peer_to_peer_chat_system.Cmd.Pong.{Pong}
use peer_to_peer_chat_system.Server.{dispatch}
use peer_to_peer_chat_system.Cli.{Display}
use peer_to_peer_chat_system.Cli.Simple
use peer_to_peer_chat_system.Cli.Fancy
use peer_to_peer_chat_system.Cli.Lines.{
  Request, to_extend, to_say, to_whisper, written, IsUnparted, parse_line-written,
  parse_line-panics,
}
use peer_to_peer_chat_system.Cli.Session.{typed, asked, start_ui-typed}
use peer_to_peer_chat_system.Cli.Agree.{Agree, parse_line-Agree}
use peer_to_peer_chat_system.Cli.Keys.{
  Stroke, put, slip, typed_lines, say_lines, with_input, run-typed_lines, quits,
}
use peer_to_peer_chat_system.Cli.Told.{IsShown, dispatch-IsShown, late_pong_panics}
use peer_to_peer_chat_system.Tests.Server.{env, node}

parse_line-written_example :
    Simple.parse_line 7 (written (to_extend 42 (codes "hi")))
    ≡ Simple.send (Simple.extension 42 (codes "hi"))
parse_line-written_example = parse_line-written 7 (to_extend 42 (codes "hi")) (omega arith)

-- What is typed before `/quit`, and a line behind it.
abbrev requests : List (ℕ × Request)
requests = (1, to_say (codes "hi")) ∷ (2, to_whisper (codes "ann") (codes "psst")) ∷ []

abbrev quit_line : Simple.Line
quit_line = record { now = 3; text = codes "/quit"; send_ok = true }

abbrev late_line : Simple.Line
late_line = record { now = 4; text = codes "/say late"; send_ok = true }

start_ui-typed_example :
    (Simple.start_ui (map typed requests) ≡ (map asked requests, Simple.end_of_input))
    × (Simple.start_ui (map typed requests ++ quit_line ∷ late_line ∷ [])
        ≡ (map asked requests, Simple.quitted))
start_ui-typed_example =
    start_ui-typed requests quit_line Simple.quitted (late_line ∷ [])
      (tt, (((λ e. omega arith), ((λ e. omega arith), ((λ e. omega arith), tt))), tt)) refl

parse_line-panics_example :
    (Simple.parse_line 7 (codes "/whisper bob") ≡ Simple.panic) ↔ IsUnparted (codes "/whisper bob")
parse_line-panics_example = parse_line-panics 7 (codes "/whisper bob")

parse_line-Agree_example :
    Agree
      (codes "/extension x y")
      (Fancy.parse_line 7 (codes "/extension x y"))
      (Simple.parse_line 7 (codes "/extension x y"))
unfolding starts_with strip_prefix
parse_line-Agree_example = parse_line-Agree 7 (codes "/extension x y") ((λ e. cc), refl, refl)

-- `hi`, with an `o` erased, and a line that panics.
abbrev lines : List (ℕ × List Stroke)
lines = (3, put b'h' ∷ slip b'o' ∷ put b'i' ∷ []) ∷ (4, put b'!' ∷ []) ∷ []

run-typed_lines_example :
    Fancy.run (typed_lines lines) (with_input [] Fancy.new)
    ≡ say_lines lines (with_input [] Fancy.new)
run-typed_lines_example = run-typed_lines lines Fancy.new

abbrev hints : List Fancy.Event
hints = Fancy.input 0 (Fancy.char b'e') ∷ Fancy.input 0 (Fancy.char b'x') ∷ []

quits_example :
    Fancy.run
      (hints ++ Fancy.input 1 Fancy.esc ∷ Fancy.input 1 (Fancy.char b'q') ∷ Fancy.tick ∷ [])
      Fancy.new
    ≡ (
      Fancy.ended,
      [],
      record (with_input (codes "x") Fancy.new) { input_mode = Fancy.normal; shut_down = true },
    )
unfolding Fancy.new Fancy.run Fancy.handle_event Fancy.handle_in Fancy.handle_editing
    Fancy.handle_normal Fancy.handle_char Fancy.set_input_mode Fancy.input_string_push
    Fancy.after_event
quits_example = quits 1 hints (Fancy.tick ∷ []) Fancy.new (with_input (codes "x") Fancy.new) [] refl

abbrev display : Display
display = record {
  local_time = codes "now";
  latency = λ n. [];
  timestamp_ok = λ n. true;
  debug_frame = λ f. [];
  debug_vec = λ b. [];
  debug_bytes = λ b. [];
}

abbrev late : Pong
late = record {
  source = codes "ann";
  destination = codes "me";
  sequence_number = 4;
  sent_at = 2 ^ 63;
}

abbrev early : Pong
early = record late { sent_at = 5 }

dispatch-IsShown_example :
    (told : List ClientServerMessage) × ((dispatch env (codes "me") (Cmd.pong early) node).1.events
      ≡ [] ++ told)
    × All (IsShown display) told
dispatch-IsShown_example = dispatch-IsShown display env (codes "me") (Cmd.pong early) node refl refl

late_pong_panics_example :
    ((dispatch env (codes "me") (Cmd.pong late) node).1.events
      ≡ [] ++ ClientServerMessage.pong (codes "ann") (2 ^ 63) ∷ [])
    × (Simple.print display (ClientServerMessage.pong (codes "ann") (2 ^ 63)) ≡ none)
    × (Fancy.show display (ClientServerMessage.pong (codes "ann") (2 ^ 63)) Fancy.new ≡ none)
late_pong_panics_example = late_pong_panics display env node Fancy.new late refl (omega arith)
