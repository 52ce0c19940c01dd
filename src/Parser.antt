-- ===== src/Parser.antt =====
-- core/src/parser.rs: `Parser`, the frames of an array that are still to be read. A method returns
-- what it read with the parser after it; where it fails, no caller reads the parser again.
pub mod Inversion
use peer_to_peer_chat_system.Prelude.{ℕ, ◌≡◌, refl}
use peer_to_peer_chat_system.Prelude.Text.{Text}
use peer_to_peer_chat_system.Frame.{
  Frame, Frames, F64, Bytes, text, error, number, bulk, bool, null, array, float, nil, cons,
}
use peer_to_peer_chat_system.Result
use peer_to_peer_chat_system.Result.{
  Result, ok, err, end_of_stream, expected, more_data, array_kind, float_kind, text_kind, bulk_kind,
  number_kind,
}

abbrev pub Parser : Type 0 → Type 0
Parser A = Frames → Result (A × Frames)

infixl 5 ◌>>=◌ ◌>>◌
abbrev pub ◌>>=◌ : {A B : Type 0} → Parser A → (A → Parser B) → Parser B
◌>>=◌ p f parts = Result.◌>>=◌ (p parts) (λ r. f r.0 r.1)

abbrev pub ◌>>◌ : {B : Type 0} → Parser (Unit {0}) → Parser B → Parser B
p >> q = p >>= λ _. q

abbrev pub pure : {A : Type 0} → A → Parser A
pure a parts = ok (a, parts)

abbrev pub lift : {A : Type 0} → Result A → Parser A
lift r parts = Result.◌>>=◌ r (λ a. ok (a, parts))

unfoldable pub new : Frame → Result Frames
new (array parts) = ok parts
new frame = err (expected array_kind frame)

unfoldable pub next : Parser Frame
next nil = err end_of_stream
next (cons frame rest) = ok (frame, rest)

as_float : Frame → Result F64
as_float (float x) = ok x
as_float frame = err (expected float_kind frame)

unfoldable pub next_float : Parser F64
unfolding next as_float
next_float = do frame ← next; lift (as_float frame)

as_text : Frame → Result Text
as_text (text x) = ok x
as_text frame = err (expected text_kind frame)

unfoldable pub next_text : Parser Text
unfolding next as_text
next_text = do frame ← next; lift (as_text frame)

as_bytes : Frame → Result Bytes
as_bytes (bulk x) = ok x
as_bytes frame = err (expected bulk_kind frame)

unfoldable pub next_bytes : Parser Bytes
unfolding next as_bytes
next_bytes = do frame ← next; lift (as_bytes frame)

as_number : Frame → Result ℕ
as_number (number x) = ok x
as_number frame = err (expected number_kind frame)

unfoldable pub next_number : Parser ℕ
unfolding next as_number
next_number = do frame ← next; lift (as_number frame)

as_array : Frame → Result Frames
as_array (array x) = ok x
as_array frame = err (expected array_kind frame)

unfoldable pub next_array : Parser Frames
unfolding next as_array
next_array = do frame ← next; lift (as_array frame)

unfoldable pub finish : Parser (Unit {0})
finish nil = ok (tt, nil)
finish (cons frame rest) = err more_data
