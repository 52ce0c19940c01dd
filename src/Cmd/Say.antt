-- ===== src/Cmd/Say.antt =====
-- core/src/cmd/say.rs: the record, its frame and its parser. How it is applied is in Apply.
use peer_to_peer_chat_system.Prelude.{ℕ, ◌≡◌, refl, [], ◌∷◌, arith}
use peer_to_peer_chat_system.Prelude.Text.{Text, codes}
use peer_to_peer_chat_system.Frame.{Frame, Frames, number, text, array, nil, cons, vec}
use peer_to_peer_chat_system.Result.{ok}
use peer_to_peer_chat_system.Parser.{Parser, ◌>>=◌, ◌>>◌, pure, next_number, next_text, finish}
use peer_to_peer_chat_system.Parser.Inversion.{next_number-eq_ok, next_text-eq_ok, finish-eq_ok}

pub record Say : Type 0 where
  pub source : Text
  pub sequence_number : ℕ
  pub message : Text

unfoldable pub new : Text → ℕ → Text → Say
new source sequence_number message = record {
  source = source;
  sequence_number = sequence_number;
  message = message;
}

unfoldable pub into_frame : Say → Frame
into_frame s =
    array
      (vec (text (codes "say") ∷ text s.source ∷ number s.sequence_number ∷ text s.message ∷ []))

unfoldable pub parse_frames : Parser Say
unfolding new
parse_frames = do
  source ← next_text
  sequence_number ← next_number
  message ← next_text
  finish
  pure (new source sequence_number message)

-- The parser reads back what the frame holds behind the name.
pub parse_frames-into_frame :
    (s : Say)
    → (rest : Frames) × (into_frame s ≡ array (cons (text (codes "say")) rest))
      × (parse_frames rest ≡ ok (s, nil))
unfolding into_frame parse_frames next_number next_text finish
parse_frames-into_frame s =
    (vec (text s.source ∷ number s.sequence_number ∷ text s.message ∷ []), refl, refl)

-- What the parser accepts is what the frame holds behind the name.
pub parse_frames-eq_ok :
    (s : Say) (rest : Frames)
    → parse_frames rest ≡ ok (s, nil)
    → into_frame s ≡ array (cons (text (codes "say")) rest)
unfolding into_frame parse_frames
parse_frames-eq_ok s rest h = grind (arith, next_number-eq_ok, next_text-eq_ok, finish-eq_ok)
