-- ===== src/Cmd/Extension.antt =====
-- core/src/cmd/extension.rs: the record, its frame and its parser. How it is applied is in Apply.
use peer_to_peer_chat_system.Prelude.{ℕ, ◌≡◌, refl, [], ◌∷◌, arith}
use peer_to_peer_chat_system.Prelude.Text.{Text, codes}
use peer_to_peer_chat_system.Frame.{Frame, Frames, number, text, array, nil, cons, vec}
use peer_to_peer_chat_system.Result.{ok}
use peer_to_peer_chat_system.Parser.{
  Parser, ◌>>=◌, ◌>>◌, pure, next, next_number, next_text, finish,
}
use peer_to_peer_chat_system.Parser.Inversion.{
  next-eq_ok, next_number-eq_ok, next_text-eq_ok, finish-eq_ok,
}

pub record Extension : Type 0 where
  pub source : Text
  pub sequence_number : ℕ
  pub extension_id : ℕ
  pub payload : Frame

unfoldable pub new : Text → ℕ → ℕ → Frame → Extension
new source sequence_number extension_id payload = record {
  source = source;
  sequence_number = sequence_number;
  extension_id = extension_id;
  payload = payload;
}

unfoldable pub into_frame : Extension → Frame
into_frame e = array (
    vec (
      text (codes "extension")
      ∷ text e.source
      ∷ number e.sequence_number
      ∷ number e.extension_id
      ∷ e.payload
      ∷ []))

unfoldable pub parse_frames : Parser Extension
unfolding new
parse_frames = do
  source ← next_text
  sequence_number ← next_number
  extension_id ← next_number
  payload ← next
  finish
  pure (new source sequence_number extension_id payload)

-- The parser reads back what the frame holds behind the name.
pub parse_frames-into_frame :
    (e : Extension)
    → (rest : Frames) × (into_frame e ≡ array (cons (text (codes "extension")) rest))
      × (parse_frames rest ≡ ok (e, nil))
unfolding into_frame parse_frames next next_number next_text finish
parse_frames-into_frame e = (
  vec (text e.source ∷ number e.sequence_number ∷ number e.extension_id ∷ e.payload ∷ []),
  refl,
  refl,
)

-- What the parser accepts is what the frame holds behind the name.
pub parse_frames-eq_ok :
    (e : Extension) (rest : Frames)
    → parse_frames rest ≡ ok (e, nil)
    → into_frame e ≡ array (cons (text (codes "extension")) rest)
unfolding into_frame parse_frames
parse_frames-eq_ok e rest h =
    grind (arith, next-eq_ok, next_number-eq_ok, next_text-eq_ok, finish-eq_ok)
