-- ===== src/Cmd/Ping.antt =====
-- core/src/cmd/ping.rs: the record, its frame and its parser. How it is applied is in Apply.
use peer_to_peer_chat_system.Prelude.{ℕ, ◌≡◌, refl, [], ◌∷◌, arith}
use peer_to_peer_chat_system.Prelude.Text.{Text, codes}
use peer_to_peer_chat_system.Frame.{Frame, Frames, number, text, array, nil, cons, vec}
use peer_to_peer_chat_system.Result.{ok}
use peer_to_peer_chat_system.Parser.{Parser, ◌>>=◌, ◌>>◌, pure, next_number, next_text, finish}
use peer_to_peer_chat_system.Parser.Inversion.{next_number-eq_ok, next_text-eq_ok, finish-eq_ok}

pub record Ping : Type 0 where
  pub source : Text
  pub destination : Text
  pub sequence_number : ℕ
  pub sent_at : ℕ

unfoldable pub new : Text → Text → ℕ → ℕ → Ping
new source destination sequence_number sent_at = record {
  source = source;
  destination = destination;
  sequence_number = sequence_number;
  sent_at = sent_at;
}

unfoldable pub into_frame : Ping → Frame
into_frame p = array (
    vec (
      text (codes "ping")
      ∷ text p.source
      ∷ text p.destination
      ∷ number p.sequence_number
      ∷ number p.sent_at
      ∷ []))

unfoldable pub parse_frames : Parser Ping
unfolding new
parse_frames = do
  source ← next_text
  destination ← next_text
  sequence_number ← next_number
  sent_at ← next_number
  finish
  pure (new source destination sequence_number sent_at)

-- The parser reads back what the frame holds behind the name.
pub parse_frames-into_frame :
    (p : Ping)
    → (rest : Frames) × (into_frame p ≡ array (cons (text (codes "ping")) rest))
      × (parse_frames rest ≡ ok (p, nil))
unfolding into_frame parse_frames next_number next_text finish
parse_frames-into_frame p = (
  vec (text p.source ∷ text p.destination ∷ number p.sequence_number ∷ number p.sent_at ∷ []),
  refl,
  refl,
)

-- What the parser accepts is what the frame holds behind the name.
pub parse_frames-eq_ok :
    (p : Ping) (rest : Frames)
    → parse_frames rest ≡ ok (p, nil)
    → into_frame p ≡ array (cons (text (codes "ping")) rest)
unfolding into_frame parse_frames
parse_frames-eq_ok p rest h = grind (arith, next_number-eq_ok, next_text-eq_ok, finish-eq_ok)
