-- ===== src/Cli/Simple.antt =====
-- cli/src/simple_tui.rs: the interface of lines.
use peer_to_peer_chat_system.Prelude.{
  ℕ, Bool, true, false, Option, none, some, List, [], ◌∷◌, ◌++◌, if◌then◌else◌,
}
use peer_to_peer_chat_system.Prelude.Text.{Text, codes, text_eq}
use peer_to_peer_chat_system.Prelude.Search.{split_once}
use peer_to_peer_chat_system.Prelude.Number.{parse_u64, as_bytes}
use peer_to_peer_chat_system.Prelude.Decimal.{to_decimal}
use peer_to_peer_chat_system.Frame
use peer_to_peer_chat_system.Frame.{Bytes, ClientServerMessage}
use peer_to_peer_chat_system.Client
use peer_to_peer_chat_system.Client.{Client}
use peer_to_peer_chat_system.Cli.{Display, on_prefix, stamp, is_instant, newline}

pub data UiClientMessage : Type 0 where
  say : Text → UiClientMessage
  whisper : Text → Text → UiClientMessage
  ping : Text → ℕ → UiClientMessage
  extension : ℕ → Text → UiClientMessage
  deliver : Text → Bytes → UiClientMessage
  broadcast : Text → Bytes → UiClientMessage

-- What the loop of `start_ui` does with a line: it stops, sends a message, or panics.
pub data Input : Type 0 where
  quit : Input
  send : UiClientMessage → Input
  panic : Input

-- `split_once(' ').unwrap()`
unfoldable pub unwrap_pair : Option (Text × Text) → (Text → Text → UiClientMessage) → Input
unwrap_pair none f = panic
unwrap_pair (some (a, b)) f = send (f a b)

-- `id.parse::<u64>().unwrap_or(0)`
unfoldable pub unwrap_or_zero : Option ℕ → ℕ
unwrap_or_zero none = 0
unwrap_or_zero (some n) = n

-- `split_once(' ').map_or((0, ""), …)`
unfoldable pub extension_of : Option (Text × Text) → UiClientMessage
unfolding unwrap_or_zero
extension_of none = extension 0 []
extension_of (some (id, payload)) = extension (unwrap_or_zero (parse_u64 id)) payload

-- A line, entered at the instant `now` in milliseconds.
unfoldable pub parse_line : ℕ → Text → Input
unfolding unwrap_pair extension_of
parse_line now line =
    if text_eq line (codes "/quit")
    then quit
    else on_prefix (codes "/say ") line (λ rest. send (say rest))
        (on_prefix (codes "/whisper ") line (λ rest. unwrap_pair (split_once b' ' rest) whisper)
          (on_prefix (codes "/ping ") line (λ rest. send (ping rest now))
            (on_prefix (codes "/extension ") line
              (λ rest. send (extension_of (split_once b' ' rest)))
              (on_prefix (codes "/deliver ") line
                (λ rest.
                  unwrap_pair (split_once b' ' rest) (λ to bytes. deliver to (as_bytes bytes)))
                (on_prefix (codes "/broadcast ") line (λ rest. send (broadcast [] (as_bytes rest)))
                  (send (say line)))))))

-- How the loop of `start_ui` ended: by `/quit`, at the end of the input, or in a panic.
pub data Ending : Type 0 where
  quitted end_of_input panicked : Ending

-- A line with its instant, and whether the receiver of the channel is alive, which `send` unwraps.
pub record Line : Type 0 where
  pub now : ℕ
  pub text : Text
  pub send_ok : Bool

unfoldable pub after_input :
    Bool → Input → List UiClientMessage × Ending → List UiClientMessage × Ending
after_input send_ok quit rest = ([], quitted)
after_input true (send m) (ms, ending) = (m ∷ ms, ending)
after_input false (send m) rest = ([], panicked)
after_input send_ok panic rest = ([], panicked)

-- The messages sent for the lines.
unfoldable pub start_ui : List Line → List UiClientMessage × Ending
unfolding after_input
start_ui [] = ([], end_of_input)
start_ui (l ∷ lines) = after_input l.send_ok (parse_line l.now l.text) (start_ui lines)

-- The task of `start_peer` that passes messages on to the client; `none` is a panic.
unfoldable pub forward : UiClientMessage → Client → Option Client
forward (whisper to message) c = Client.whisper to message c
forward (say message) c = Client.say message c
forward (ping to sent_at) c = Client.ping to sent_at c
forward (extension id payload) c = Client.send_extension id (Frame.text payload) c
forward (deliver to bytes) c = Client.deliver to bytes c
forward (broadcast from bytes) c = Client.broadcast bytes c

-- The task of `start_peer` that prints what the client is told; `none` is a panic.
unfoldable pub print : Display → ClientServerMessage → Option Text
print d (ClientServerMessage.ping from to sent_at) = none
print d (ClientServerMessage.pong from sent_at) =
    if is_instant d sent_at
    then some (
        stamp d
        ++ codes "PONG response from "
        ++ from
        ++ codes "; latency: "
        ++ d.latency sent_at
        ++ newline)
    else none
print d (ClientServerMessage.whisper from to message) =
    some (stamp d ++ from ++ codes " whispered to you: " ++ message ++ newline)
print d (ClientServerMessage.say from message) =
    some (stamp d ++ from ++ codes ": " ++ message ++ newline)
print d (ClientServerMessage.extension from id payload) = some (
    stamp d
    ++ from
    ++ codes " sent extension "
    ++ to_decimal id
    ++ codes ": "
    ++ d.debug_frame payload
    ++ newline)
print d (ClientServerMessage.deliver from to bytes) =
    some (
      stamp d ++ from ++ codes " delivered to " ++ to ++ codes ": " ++ d.debug_vec bytes ++ newline)
print d (ClientServerMessage.broadcast from bytes) =
    some (stamp d ++ from ++ codes " broadcasted: " ++ d.debug_bytes bytes ++ newline)
