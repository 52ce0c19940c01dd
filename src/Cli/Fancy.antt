-- ===== src/Cli/Fancy.antt =====
-- cli/src/fancy_tui.rs: the interface of keys, with the state `App` that its tasks share.
use peer_to_peer_chat_system.Prelude.{
  ℕ, ◌+◌, ◌-◌, ◌==◌, Bool, true, false, Option, none, some, List, [], ◌∷◌, ◌++◌, length, drop, ltb,
  if◌then◌else◌,
}
use peer_to_peer_chat_system.Prelude.Text.{Text, codes}
use peer_to_peer_chat_system.Prelude.Search.{split_once}
use peer_to_peer_chat_system.Prelude.Number.{parse_u64, as_bytes}
use peer_to_peer_chat_system.Prelude.Decimal.{to_decimal}
use peer_to_peer_chat_system.Frame
use peer_to_peer_chat_system.Frame.{ClientServerMessage}
use peer_to_peer_chat_system.Client
use peer_to_peer_chat_system.Client.{Client}
use peer_to_peer_chat_system.Cli.{
  UiClientMessage, say, whisper, ping, extension, deliver, Display, on_prefix, stamp, is_instant,
  newline,
}

pub data InputMode : Type 0 where
  normal editing : InputMode

pub data MenuItem : Type 0 where
  home logs : MenuItem

pub record State : Type 0 where
  pub messages : List Text
  pub input_mode : InputMode
  pub active_menu_item : MenuItem
  pub input_string : Text
  pub shut_down : Bool

unfoldable pub new : State
new = record {
  messages = [];
  input_mode = normal;
  active_menu_item = home;
  input_string = [];
  shut_down = false;
}

-- The methods of `App`, each under the lock.
unfoldable pub input_string_push : ℕ → State → State
input_string_push c st = record st { input_string = st.input_string ++ c ∷ [] }

-- `String::pop`
unfoldable pub pop : Text → Text
pop [] = []
pop (c ∷ []) = []
pop (c ∷ d ∷ s) = c ∷ pop (d ∷ s)

unfoldable pub input_string_pop : State → State
unfolding pop
input_string_pop st = record st { input_string = pop st.input_string }

unfoldable pub input_string_drain : State → Text × State
input_string_drain st = (st.input_string, record st { input_string = [] })

unfoldable pub add_message : Text → State → State
add_message message st = record st { messages = st.messages ++ message ∷ [] }

unfoldable pub set_input_mode : InputMode → State → State
set_input_mode m st = record st { input_mode = m }

unfoldable pub set_active_menu_item : MenuItem → State → State
set_active_menu_item m st = record st { active_menu_item = m }

-- `drain(..n)`, which panics for more than there are; `draw` asks for fewer.
unfoldable pub drain_messages : ℕ → State → State
drain_messages n st = record st { messages = drop n st.messages }

unfoldable pub shutdown : State → State
shutdown st = record st { shut_down = true }

unfoldable pub numbered : ℕ → List Text → List Text
numbered i [] = []
numbered i (v ∷ vs) = (to_decimal i ++ codes ": " ++ v) ∷ numbered (i + 1) vs

unfoldable pub message_list : State → List Text
unfolding numbered
message_list st = numbered 0 st.messages

-- What `draw` does to the state: with `num_ui_lines` on the screen, the oldest messages that do not
-- fit are dropped.
unfoldable pub fit_messages : ℕ → State → State
fit_messages num_ui_lines st =
    if ltb num_ui_lines (length st.messages)
    then drain_messages (length st.messages - num_ui_lines) st
    else st

-- `split_once(' ').unwrap()`, where `none` is a panic.
unfoldable pub with_pair :
    Option (Text × Text) → (Text → Text → Option UiClientMessage) → Option UiClientMessage
with_pair none f = none
with_pair (some (a, b)) f = f a b

-- `id.parse().unwrap()`
unfoldable pub extension_of : Option ℕ → Text → Option UiClientMessage
extension_of none payload = none
extension_of (some id) payload = some (extension id payload)

-- The message that a line stands for, entered at the instant `now`; `none` is a panic.
unfoldable pub parse_line : ℕ → Text → Option UiClientMessage
unfolding with_pair extension_of
parse_line now line =
    on_prefix (codes "/whisper ") line
      (λ rest. with_pair (split_once b' ' rest) (λ to message. some (whisper to message)))
      (on_prefix (codes "/ping ") line (λ rest. some (ping rest now))
        (on_prefix (codes "/extension ") line
          (λ rest.
            with_pair (split_once b' ' rest) (λ id payload. extension_of (parse_u64 id) payload))
          (on_prefix (codes "/deliver ") line
            (λ rest.
              with_pair (split_once b' ' rest) (λ to bytes. some (deliver to (as_bytes bytes))))
            (some (say line)))))

-- The keys that the interface tells apart: `KeyCode` of crossterm.
pub data KeyCode : Type 0 where
  enter backspace esc other : KeyCode
  char : ℕ → KeyCode

-- After a key the task goes on, or ends, or panics. The messages sent for the key come with it.
pub data Flow : Type 0 where
  goes_on ended panicked : Flow

abbrev pub Outcome : Type 0
Outcome = Flow × List UiClientMessage × State

-- The end of the branch of Enter.
unfoldable pub send_parsed : Option UiClientMessage → State → Outcome
send_parsed none st = (panicked, [], st)
send_parsed (some m) st = (goes_on, m ∷ [], st)

unfoldable pub press_enter : ℕ → State → Outcome
unfolding send_parsed input_string_drain add_message
press_enter now st =
    let (to_say, st') = input_string_drain st in
    send_parsed (parse_line now to_say) (add_message to_say st')

unfoldable pub handle_editing : ℕ → KeyCode → State → Outcome
unfolding press_enter input_string_push input_string_pop set_input_mode
handle_editing now enter st = press_enter now st
handle_editing now (char c) st = (goes_on, [], input_string_push c st)
handle_editing now backspace st = (goes_on, [], input_string_pop st)
handle_editing now esc st = (goes_on, [], set_input_mode normal st)
handle_editing now other st = (goes_on, [], st)

unfoldable pub handle_char : ℕ → State → Outcome
unfolding set_input_mode shutdown set_active_menu_item
handle_char c st =
    if c == b'e'
    then (goes_on, [], set_input_mode editing st)
    else if c == b'q'
    then (ended, [], shutdown st)
    else if c == b'h'
    then (goes_on, [], set_active_menu_item home st)
    else if c == b'l'
    then (goes_on, [], set_active_menu_item logs st)
    else (goes_on, [], st)

unfoldable pub handle_normal : KeyCode → State → Outcome
unfolding handle_char
handle_normal (char c) st = handle_char c st
handle_normal key st = (goes_on, [], st)

unfoldable pub handle_in : InputMode → ℕ → KeyCode → State → Outcome
unfolding handle_editing handle_normal
handle_in editing now key st = handle_editing now key st
handle_in normal now key st = handle_normal key st

-- `Event<I>`: a key with its instant, or a tick.
pub data Event : Type 0 where
  input : ℕ → KeyCode → Event
  tick : Event

unfoldable pub handle_event : Event → State → Outcome
unfolding handle_in
handle_event (input now key) st = handle_in st.input_mode now key st
handle_event tick st = (goes_on, [], st)

unfoldable pub after_event : Outcome → (State → Outcome) → Outcome
after_event (goes_on, ms, st) rest = let (flow, ms', st') = rest st in (flow, ms ++ ms', st')
after_event (ended, ms, st) rest = (ended, ms, st)
after_event (panicked, ms, st) rest = (panicked, ms, st)

-- The task of `start` on the events that the input thread sends. The terminal works, and the
-- receiver of the messages is alive.
unfoldable pub run : List Event → State → Outcome
unfolding handle_event after_event
run [] st = (goes_on, [], st)
run (e ∷ es) st = after_event (handle_event e st) (run es)

-- The task of `start_peer` that passes messages on to the client; `none` is a panic.
unfoldable pub forward : UiClientMessage → Client → Option Client
forward (ping to sent_at) c = Client.ping to sent_at c
forward (whisper to message) c = Client.whisper to message c
forward (say message) c = Client.say message c
forward (extension id payload) c = Client.send_extension id (Frame.text payload) c
forward (deliver to bytes) c = Client.deliver to bytes c

-- The line for a message from the client; `none` is a panic.
unfoldable pub format : Display → ClientServerMessage → Option Text
format d (ClientServerMessage.ping from to sent_at) = none
format d (ClientServerMessage.pong from sent_at) =
    if is_instant d sent_at
    then some (
        stamp d
        ++ codes "PONG response from "
        ++ from
        ++ codes "; latency: "
        ++ d.latency sent_at
        ++ newline)
    else none
format d (ClientServerMessage.whisper from to message) =
    some (stamp d ++ from ++ codes " whispered to you: " ++ message ++ newline)
format d (ClientServerMessage.say from message) =
    some (stamp d ++ from ++ codes ": " ++ message ++ newline)
format d (ClientServerMessage.extension source id payload) = some (
    stamp d
    ++ codes "sent extension "
    ++ to_decimal id
    ++ codes ": "
    ++ d.debug_frame payload
    ++ newline)
format d (ClientServerMessage.deliver from to bytes) =
    some (
      stamp d ++ from ++ codes " delivered to " ++ to ++ codes ": " ++ d.debug_vec bytes ++ newline)
format d (ClientServerMessage.broadcast from bytes) =
    some (stamp d ++ from ++ codes " broadcasted: " ++ d.debug_bytes bytes ++ newline)

unfoldable pub show_text : Option Text → State → Option State
show_text none st = none
show_text (some line) st = some (add_message line st)

-- The task of `start_peer` that shows what the client is told; `none` is a panic.
unfoldable pub show : Display → ClientServerMessage → State → Option State
unfolding format show_text
show d m st = show_text (format d m) st
