-- ===== src/Cmd/Deliver.antt =====
-- core/src/cmd/deliver.rs: the record, its frame and its parser. How it is applied is in Apply.
use peer_to_peer_chat_system.Prelude.{ℕ, ◌≡◌, refl, [], ◌∷◌, arith}
use peer_to_peer_chat_system.Prelude.Text.{Text, codes}
use peer_to_peer_chat_system.Frame.{Frame, Frames, Bytes, bulk, number, text, array, nil, cons, vec}
use peer_to_peer_chat_system.Result.{ok}
use peer_to_peer_chat_system.Parser.{
  Parser, ◌>>=◌, ◌>>◌, pure, next_bytes, next_number, next_text, finish,
}
use peer_to_peer_chat_system.Parser.Inversion.{
  next_bytes-eq_ok, next_number-eq_ok, next_text-eq_ok, finish-eq_ok,
}

pub record Deliver : Type 0 where
  pub source : Text
  pub sequence_number : ℕ
  pub destination : Text
  pub bytes : Bytes

unfoldable pub new : Text → ℕ → Text → Bytes → Deliver
new source sequence_number destination bytes = record {
  source = source;
  sequence_number = sequence_number;
  destination = destination;
  bytes = bytes;
}

unfoldable pub into_frame : Deliver → Frame
into_frame d = array (
    vec (
      text (codes "deliver")
      ∷ text d.source
      ∷ number d.sequence_number
      ∷ text d.destination
      ∷ bulk d.bytes
      ∷ []))

unfoldable pub parse_frames : Parser Deliver
unfolding new
parse_frames = do
  source ← next_text
  sequence_number ← next_number
  destination ← next_text
  bytes ← next_bytes
  finish
  pure (new source sequence_number destination bytes)

-- The parser reads back what the frame holds behind the name.
pub parse_frames-into_frame :
    (d : Deliver)
    → (rest : Frames) × (into_frame d ≡ array (cons (text (codes "deliver")) rest))
      × (parse_frames rest ≡ ok (d, nil))
unfolding into_frame parse_frames next_bytes next_number next_text finish
parse_frames-into_frame d = (
  vec (text d.source ∷ number d.sequence_number ∷ text d.destination ∷ bulk d.bytes ∷ []),
  refl,
  refl,
)

-- What the parser accepts is what the frame holds behind the name.
pub parse_frames-eq_ok :
    (d : Deliver) (rest : Frames)
    → parse_frames rest ≡ ok (d, nil)
    → into_frame d ≡ array (cons (text (codes "deliver")) rest)
unfolding into_frame parse_frames
parse_frames-eq_ok d rest h =
    grind (arith, next_bytes-eq_ok, next_number-eq_ok, next_text-eq_ok, finish-eq_ok)
