-- ===== src/Tests/Cmd.antt =====
-- core/src/cmd.rs on concrete inputs.
use peer_to_peer_chat_system.Prelude.{◌≡◌, refl, [], ◌∷◌}
use peer_to_peer_chat_system.Prelude.Text.{Text, codes, text_eq}
use peer_to_peer_chat_system.Frame.{Frame, Frames, array, cons, text, number, vec}
use peer_to_peer_chat_system.Result.{ok}
use peer_to_peer_chat_system.Parser
use peer_to_peer_chat_system.Cmd.Say
use peer_to_peer_chat_system.Cmd.Say.{Say}
use peer_to_peer_chat_system.Cmd.{
  say, from_frame, to_frame, to_lowercase, parser_for, parse_command,
}
use peer_to_peer_chat_system.Cmd.RoundTrip.{from_frame-to_frame, to_frame-from_frame}

-- `[name, "bob", 7, "hi"]`
abbrev said : Text → Frame
said name = array (vec (text name ∷ text (codes "bob") ∷ number 7 ∷ text (codes "hi") ∷ []))

abbrev hello : Say
hello = record { source = codes "bob"; sequence_number = 7; message = codes "hi" }

abbrev again : Say
again = record { source = codes "bob"; sequence_number = 8; message = codes "hi" }

from_frame-to_frame_example : from_frame (said (codes "say")) ≡ ok (say hello)
unfolding to_frame Say.into_frame
from_frame-to_frame_example = from_frame-to_frame (say hello) (said (codes "say")) refl

to_frame-from_frame_example :
    (name : Text) × (rest : Frames) × (said (codes "SAY") ≡ array (cons (text name) rest))
    × (said (codes "say") ≡ array (cons (text (to_lowercase name)) rest))
unfolding from_frame to_frame Say.into_frame Say.parse_frames Say.new parser_for text_eq
    to_lowercase Parser.new Parser.next_text Parser.next_number Parser.finish parse_command
to_frame-from_frame_example =
    to_frame-from_frame (said (codes "SAY")) (said (codes "say")) (say hello) refl refl
