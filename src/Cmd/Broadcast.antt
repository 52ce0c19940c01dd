-- ===== src/Cmd/Broadcast.antt =====
-- core/src/cmd/broadcast.rs: the record, its frame and its parser. How it is applied is in Apply.
use peer_to_peer_chat_system.Prelude.{ℕ, ◌≡◌, refl, [], ◌∷◌, arith}
use peer_to_peer_chat_system.Prelude.Text.{Text, codes}
use peer_to_peer_chat_system.Frame.{Frame, Frames, Bytes, bulk, number, text, array, nil, cons, vec}
use peer_to_peer_chat_system.Result.{ok}
use peer_to_peer_chat_system.Parser.{
  Parser, ◌>>=◌, ◌>>◌, pure, next_bytes, next_number, next_text, finish,
}
use peer_to_peer_chat_system.Parser.Inversion.{
  next_bytes-eq_ok, next_number-eq_ok, next_text-eq_ok, finish-eq_ok,
}

pub record Broadcast : Type 0 where
  pub source : Text
  pub sequence_number : ℕ
  pub bytes : Bytes

unfoldable pub new : Text → ℕ → Bytes → Broadcast
new source sequence_number bytes = record {
  source = source;
  sequence_number = sequence_number;
  bytes = bytes;
}

unfoldable pub into_frame : Broadcast → Frame
into_frame b =
    array (
      vec (text (codes "broadcast") ∷ text b.source ∷ number b.sequence_number ∷ bulk b.bytes ∷ []))

unfoldable pub parse_frames : Parser Broadcast
unfolding new
parse_frames = do
  source ← next_text
  sequence_number ← next_number
  bytes ← next_bytes
  finish
  pure (new source sequence_number bytes)

-- The parser reads back what the frame holds behind the name.
pub parse_frames-into_frame :
    (b : Broadcast)
    → (rest : Frames) × (into_frame b ≡ array (cons (text (codes "broadcast")) rest))
      × (parse_frames rest ≡ ok (b, nil))
unfolding into_frame parse_frames next_bytes next_number next_text finish
parse_frames-into_frame b =
    (vec (text b.source ∷ number b.sequence_number ∷ bulk b.bytes ∷ []), refl, refl)

-- What the parser accepts is what the frame holds behind the name.
pub parse_frames-eq_ok :
    (b : Broadcast) (rest : Frames)
    → parse_frames rest ≡ ok (b, nil)
    → into_frame b ≡ array (cons (text (codes "broadcast")) rest)
unfolding into_frame parse_frames
parse_frames-eq_ok b rest h =
    grind (arith, next_bytes-eq_ok, next_number-eq_ok, next_text-eq_ok, finish-eq_ok)
