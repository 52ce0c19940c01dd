-- ===== src/Cmd/Register.antt =====
-- core/src/cmd/register.rs: the record, its frame and its parser. How it is applied is in Apply.
use peer_to_peer_chat_system.Prelude.{ℕ, ◌≡◌, refl, [], ◌∷◌, arith}
use peer_to_peer_chat_system.Prelude.Text.{Text, codes}
use peer_to_peer_chat_system.Frame.{Frame, Frames, number, text, array, nil, cons, vec}
use peer_to_peer_chat_system.Result.{ok}
use peer_to_peer_chat_system.Parser.{Parser, ◌>>=◌, pure, next_number, next_text}
use peer_to_peer_chat_system.Parser.Inversion.{next_number-eq_ok, next_text-eq_ok, finish-eq_ok}

pub record Register : Type 0 where
  pub peer_name : Text
  pub sequence_number : ℕ
  pub ip_address : Text
  pub port : Text

unfoldable pub new : Text → ℕ → Text → Text → Register
new peer_name sequence_number ip_address port = record {
  peer_name = peer_name;
  sequence_number = sequence_number;
  ip_address = ip_address;
  port = port;
}

unfoldable pub into_frame : Register → Frame
into_frame r = array (
    vec (
      text (codes "register")
      ∷ text r.peer_name
      ∷ number r.sequence_number
      ∷ text r.ip_address
      ∷ text r.port
      ∷ []))

unfoldable pub parse_frames : Parser Register
unfolding new
parse_frames = do
  peer_name ← next_text
  sequence_number ← next_number
  ip_address ← next_text
  port ← next_text
  pure (new peer_name sequence_number ip_address port)

-- The parser reads back what the frame holds behind the name.
pub parse_frames-into_frame :
    (r : Register)
    → (rest : Frames) × (into_frame r ≡ array (cons (text (codes "register")) rest))
      × (parse_frames rest ≡ ok (r, nil))
unfolding into_frame parse_frames next_number next_text
parse_frames-into_frame r = (
  vec (text r.peer_name ∷ number r.sequence_number ∷ text r.ip_address ∷ text r.port ∷ []),
  refl,
  refl,
)

-- What the parser accepts is what the frame holds behind the name.
pub parse_frames-eq_ok :
    (r : Register) (rest : Frames)
    → parse_frames rest ≡ ok (r, nil)
    → into_frame r ≡ array (cons (text (codes "register")) rest)
unfolding into_frame parse_frames
parse_frames-eq_ok r rest h = grind (arith, next_number-eq_ok, next_text-eq_ok, finish-eq_ok)
