-- ===== src/Cli/Session.antt =====
-- What a user types into the simple interface, cli/src/simple_tui.rs, until it ends.
use mathlib.Core.Path.{subst}
use mathlib.Core.List.{append-nil}
use peer_to_peer_chat_system.Prelude.{
  ℕ, ◌≡◌, refl, ◌∙◌, ◌⊎◌, inl, inr, true, false, List, [], ◌∷◌, ◌++◌, map, All,
}
use peer_to_peer_chat_system.Prelude.Text.{codes, text_eq}
use peer_to_peer_chat_system.Cli.Simple.{
  UiClientMessage, quit, Ending, quitted, end_of_input, panicked, Line, after_input, parse_line,
  start_ui,
}
use peer_to_peer_chat_system.Cli.Lines.{
  Request, written, message_of, IsWritable, IsUnparted, parse_line-written, unparted_panics,
}

-- The line of a request, at an instant and with the channel open.
abbrev pub typed : ℕ × Request → Line
typed (now, r) = record { now = now; text = written r; send_ok = true }

abbrev pub asked : ℕ × Request → UiClientMessage
asked (now, r) = message_of now r

-- A request whose message nobody takes.
abbrev pub IsUntaken : Line → Type 0
IsUntaken l = (l.send_ok ≡ false) × (r : Request) × IsWritable r × (l.text ≡ written r)

-- How a line ends the interface.
abbrev pub Ends : Line → Ending → Type 0
Ends l quitted = l.text ≡ codes "/quit"
Ends l panicked = IsUnparted l.text ⊎ IsUntaken l
Ends l end_of_input = ⊥

line-Ends :
    (l : Line) (e : Ending) (rest : List UiClientMessage × Ending)
    → Ends l e
    → after_input l.send_ok (parse_line l.now l.text) rest ≡ ([], e)
unfolding after_input
line-Ends l quitted rest h =
    let quits : parse_line l.now l.text ≡ quit = rw h (unfold parse_line text_eq in refl) in
    rw quits refl
line-Ends l panicked rest (inl h) = rw (unparted_panics l.now l.text h) refl
line-Ends l panicked rest (inr (closed, r, w, e)) =
    rw (e, parse_line-written l.now r w, closed) refl
line-Ends l end_of_input rest h = absurd h

typed_lines_sent :
    (requests : List (ℕ × Request)) (lines : List Line)
    → All (λ r. IsWritable r.1) requests
    → start_ui (map typed requests ++ lines)
      ≡ (map asked requests ++ (start_ui lines).0, (start_ui lines).1)
unfolding start_ui after_input
typed_lines_sent [] lines h = refl
typed_lines_sent ((now, r) ∷ rs) lines (w, h) =
    rw (parse_line-written now r w, typed_lines_sent rs lines h) refl

-- The simple interface sends what the user asks for line by line, in that order and each once, where
-- a name in front of another text is without spaces, the number of an extension is a u64 and the
-- channel is open. It ends at the end of the input; or at a line `/quit`, or in a panic at a whisper
-- or a delivery whose two arguments are not parted by a space, or at such a request that is not
-- taken since the receiver is gone. Of that line and of those behind it nothing is sent.
pub start_ui-typed :
    (requests : List (ℕ × Request)) (l : Line) (e : Ending) (lines : List Line)
    → All (λ r. IsWritable r.1) requests
    → Ends l e
    → (start_ui (map typed requests) ≡ (map asked requests, end_of_input))
      × (start_ui (map typed requests ++ l ∷ lines) ≡ (map asked requests, e))
unfolding start_ui
start_ui-typed requests l e lines h end = (
  subst (λ (ls : List Line). start_ui ls ≡ (map asked requests, end_of_input))
      (append-nil (map typed requests)) (typed_lines_sent requests [] h ∙ rw append-nil refl),
  typed_lines_sent requests (l ∷ lines) h
      ∙ rw (line-Ends l e (start_ui lines) end, append-nil) refl,
)
