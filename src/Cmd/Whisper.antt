-- ===== src/Cmd/Whisper.antt =====
-- core/src/cmd/whisper.rs: the record, its frame and its parser. How it is applied is in Apply.
use peer_to_peer_chat_system.Prelude.{ℕ, ◌≡◌, refl, [], ◌∷◌, arith}
use peer_to_peer_chat_system.Prelude.Text.{Text, codes}
use peer_to_peer_chat_system.Frame.{Frame, Frames, number, text, array, nil, cons, vec}
use peer_to_peer_chat_system.Result.{ok}
use peer_to_peer_chat_system.Parser.{Parser, ◌>>=◌, ◌>>◌, pure, next_number, next_text, finish}
use peer_to_peer_chat_system.Parser.Inversion.{next_number-eq_ok, next_text-eq_ok, finish-eq_ok}

pub record Whisper : Type 0 where
  pub source : Text
  pub sequence_number : ℕ
  pub destination : Text
  pub message : Text

unfoldable pub new : Text → ℕ → Text → Text → Whisper
new source sequence_number destination message = record {
  source = source;
  sequence_number = sequence_number;
  destination = destination;
  message = message;
}

unfoldable pub into_frame : Whisper → Frame
into_frame w = array (
    vec (
      text (codes "whisper")
      ∷ text w.source
      ∷ number w.sequence_number
      ∷ text w.destination
      ∷ text w.message
      ∷ []))

unfoldable pub parse_frames : Parser Whisper
unfolding new
parse_frames = do
  source ← next_text
  sequence_number ← next_number
  destination ← next_text
  message ← next_text
  finish
  pure (new source sequence_number destination message)

-- The parser reads back what the frame holds behind the name.
pub parse_frames-into_frame :
    (w : Whisper)
    → (rest : Frames) × (into_frame w ≡ array (cons (text (codes "whisper")) rest))
      × (parse_frames rest ≡ ok (w, nil))
unfolding into_frame parse_frames next_number next_text finish
parse_frames-into_frame w = (
  vec (text w.source ∷ number w.sequence_number ∷ text w.destination ∷ text w.message ∷ []),
  refl,
  refl,
)

-- What the parser accepts is what the frame holds behind the name.
pub parse_frames-eq_ok :
    (w : Whisper) (rest : Frames)
    → parse_frames rest ≡ ok (w, nil)
    → into_frame w ≡ array (cons (text (codes "whisper")) rest)
unfolding into_frame parse_frames
parse_frames-eq_ok w rest h = grind (arith, next_number-eq_ok, next_text-eq_ok, finish-eq_ok)
