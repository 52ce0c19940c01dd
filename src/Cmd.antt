-- ===== src/Cmd.antt =====
-- core/src/cmd.rs: the commands of the protocol, read from frames, and the table of the commands
-- that were processed.
pub mod Ping
pub mod Pong
pub mod Say
pub mod Whisper
pub mod Broadcast
pub mod Deliver
pub mod Register
pub mod Extension
pub mod Announce
pub mod RoundTrip
pub mod Duplicates
use Prim.Native.String.{String}
use peer_to_peer_chat_system.Prelude.{
  ℕ, ◌+◌, Bool, true, false, Option, none, some, List, [], ◌∷◌, ◌++◌, ◌&&◌, leb, map, if◌then◌else◌,
}
use peer_to_peer_chat_system.Prelude.Text.{Text, codes, text_eq}
use peer_to_peer_chat_system.Prelude.Decimal.{to_decimal}
use peer_to_peer_chat_system.Frame.{Frame, Frames}
use peer_to_peer_chat_system.Result
use peer_to_peer_chat_system.Result.{Result, ok}
use peer_to_peer_chat_system.Parser
use peer_to_peer_chat_system.Parser.{Parser, pure}
use peer_to_peer_chat_system.Util.TtlMap
use peer_to_peer_chat_system.Util.TtlMap.{State}

-- `Bing2BingCommand`
pub data Command : Type 0 where
  broadcast : Broadcast.Broadcast → Command
  ping : Ping.Ping → Command
  pong : Pong.Pong → Command
  register : Register.Register → Command
  say : Say.Say → Command
  deliver : Deliver.Deliver → Command
  announce : Announce.Announce → Command
  whisper : Whisper.Whisper → Command
  extension : Extension.Extension → Command
  unknown : Command

-- `to_lowercase` on the letters of ASCII. The result is only compared with the names below, and no
-- letter outside ASCII is lowered to a letter of theirs.
lower : ℕ → ℕ
lower c = if leb b'A' c && leb c b'Z' then c + 32 else c

unfoldable pub to_lowercase : Text → Text
unfolding lower
to_lowercase = map lower

-- The command read by the parser of its kind, behind its name.
abbrev parse_as : {A : Type 0} → (A → Command) → Parser A → Parser Command
parse_as make p = Parser.◌>>=◌ p (λ a. pure (make a))

-- The `match` on the name in `from_frame`.
unfoldable pub parser_for : Text → Option (Parser Command)
parser_for name =
    if text_eq name (codes "broadcast")
    then some (parse_as broadcast Broadcast.parse_frames)
    else if text_eq name (codes "ping")
    then some (parse_as ping Ping.parse_frames)
    else if text_eq name (codes "pong")
    then some (parse_as pong Pong.parse_frames)
    else if text_eq name (codes "register")
    then some (parse_as register Register.parse_frames)
    else if text_eq name (codes "say")
    then some (parse_as say Say.parse_frames)
    else if text_eq name (codes "deliver")
    then some (parse_as deliver Deliver.parse_frames)
    else if text_eq name (codes "announce")
    then some (parse_as announce Announce.parse_frames)
    else if text_eq name (codes "whisper")
    then some (parse_as whisper Whisper.parse_frames)
    else if text_eq name (codes "extension")
    then some (parse_as extension Extension.parse_frames)
    else none

unfoldable pub parse_command : Option (Parser Command) → Frames → Result Command
parse_command none rest = ok unknown
parse_command (some p) rest =
    Result.◌>>=◌ (p rest) (λ r. Result.◌>>=◌ (Parser.finish r.1) (λ _. ok r.0))

unfoldable pub from_frame : Frame → Result Command
unfolding parse_command parser_for
from_frame frame = Result.◌>>=◌ (Parser.new frame) (λ parts.
    Result.◌>>=◌ (Parser.next_text parts) (λ r. parse_command (parser_for (to_lowercase r.0)) r.1))

-- The frames that the commands turn into, `Bing2BingFrame::from`; there is none for `Unknown`.
unfoldable pub to_frame : Command → Option Frame
to_frame (broadcast c) = some (Broadcast.into_frame c)
to_frame (ping c) = some (Ping.into_frame c)
to_frame (pong c) = some (Pong.into_frame c)
to_frame (register c) = some (Register.into_frame c)
to_frame (say c) = some (Say.into_frame c)
to_frame (deliver c) = some (Deliver.into_frame c)
to_frame (announce c) = some (Announce.into_frame c)
to_frame (whisper c) = some (Whisper.into_frame c)
to_frame (extension c) = some (Extension.into_frame c)
to_frame unknown = none

-- `Bing2BingCommand::into_frame`, where `none` is the panic of `todo!()`.
unfoldable pub into_frame : Command → Option Frame
into_frame (ping c) = some (Ping.into_frame c)
into_frame c = none

-- The source and the sequence number by which a command is known, of all but `Unknown`.
unfoldable pub origin : Command → Option (Text × ℕ)
origin (broadcast c) = some (c.source, c.sequence_number)
origin (ping c) = some (c.source, c.sequence_number)
origin (pong c) = some (c.source, c.sequence_number)
origin (register c) = some (c.peer_name, c.sequence_number)
origin (say c) = some (c.source, c.sequence_number)
origin (deliver c) = some (c.source, c.sequence_number)
origin (announce c) = some (c.source, c.sequence_number)
origin (whisper c) = some (c.source, c.sequence_number)
origin (extension c) = some (c.source, c.sequence_number)
origin unknown = none

-- `format!("{}-{}", source, sequence_number)`
unfoldable pub processed_key : Text → ℕ → Text
processed_key source sequence_number = source ++ b'-' ∷ to_decimal sequence_number

abbrev is_some : Option Bool → Bool
is_some none = false
is_some (some b) = true

unfoldable pub check_duplicate_of : Option (Text × ℕ) → State Bool → Bool
check_duplicate_of none processed = false
check_duplicate_of (some o) processed = is_some (TtlMap.get (processed_key o.0 o.1) processed)

unfoldable pub check_duplicate : Command → State Bool → Bool
unfolding check_duplicate_of
check_duplicate c processed = check_duplicate_of (origin c) processed

-- An instant counts nanoseconds: 30 seconds.
abbrev pub lifetime : ℕ
lifetime = 30_000_000_000

unfoldable pub set_processed_of : ℕ → Option (Text × ℕ) → State Bool → State Bool
set_processed_of now none processed = processed
set_processed_of now (some o) processed =
    (TtlMap.set now (processed_key o.0 o.1) true (some lifetime) processed).0

unfoldable pub set_processed : ℕ → Command → State Bool → State Bool
unfolding set_processed_of
set_processed now c processed = set_processed_of now (origin c) processed
