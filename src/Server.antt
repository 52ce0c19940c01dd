-- ===== src/Server.antt =====
-- core/src/server.rs: an incoming connection, from its frames to its end.
pub mod Start
pub mod Joining
pub mod Announced
pub mod Stable
pub mod Once
pub mod Loop
pub mod Flood
pub mod Local
pub mod Messages
pub mod Relay
pub mod Listen
pub mod Emits
pub mod Race
pub mod Whispers
use peer_to_peer_chat_system.Prelude.{
  ℕ, zero, suc, ◌==◌, Bool, true, false, Option, none, some, List, [], ◌∷◌, if◌then◌else◌,
}
use peer_to_peer_chat_system.Prelude.Text.{Text, text_eq}
use peer_to_peer_chat_system.Frame
use peer_to_peer_chat_system.Frame.{Frame, ClientServerMessage}
use peer_to_peer_chat_system.Result.{Result, ok, err}
use peer_to_peer_chat_system.Connection
use peer_to_peer_chat_system.Connection.{Read}
use peer_to_peer_chat_system.Cmd.{
  Command, broadcast, ping, pong, register, say, deliver, announce, whisper, extension, unknown,
  from_frame, check_duplicate, set_processed,
}
use peer_to_peer_chat_system.Cmd.Pong
use peer_to_peer_chat_system.Apply.{
  apply_ping, apply_pong, apply_say, apply_broadcast, apply_deliver, apply_whisper, apply_announce,
}
use peer_to_peer_chat_system.Apply.Extensions.{apply_extension}
use peer_to_peer_chat_system.Node.{
  Node, Env, Exec, ◌>>=◌, ◌>>◌, pure, lift, gets, send_client, next_sequence_number,
}

-- The `match` on the command in `handle_connection`.
unfoldable pub dispatch : Env → Text → Command → Exec (Unit {0})
dispatch env my_name (pong c) =
    if text_eq c.destination my_name
    then send_client env (ClientServerMessage.pong c.source c.sent_at)
    else apply_pong c
dispatch env my_name (ping c) =
    if text_eq c.destination my_name
    then (do
      sequence_number ← next_sequence_number
      apply_pong (Pong.new my_name c.source sequence_number c.sent_at))
    else apply_ping c
dispatch env my_name (say c) = do
  send_client env (ClientServerMessage.say c.source c.message)
  apply_say c
dispatch env my_name (announce c) = apply_announce env c
dispatch env my_name (broadcast c) = do
  send_client env (ClientServerMessage.broadcast c.source c.bytes)
  apply_broadcast c
dispatch env my_name (deliver c) =
    if text_eq c.destination my_name
    then send_client env (ClientServerMessage.deliver c.source c.destination c.bytes)
    else apply_deliver c
dispatch env my_name (whisper c) =
    if text_eq c.destination my_name
    then send_client env (ClientServerMessage.whisper c.source c.destination c.message)
    else apply_whisper env c
dispatch env my_name (extension c) = do
  sequence_number ← next_sequence_number
  (if c.sequence_number == sequence_number
      then send_client env (ClientServerMessage.extension c.source c.extension_id c.payload)
      else apply_extension env c)
dispatch env my_name (register c) = pure tt
dispatch env my_name unknown = pure tt

unfoldable pub mark_processed : Env → Command → Exec (Unit {0})
mark_processed env c n =
    (ok tt, record n { processed_commands = set_processed env.now c n.processed_commands })

-- A command that is no duplicate is marked, and then dispatched.
unfoldable pub handle_unless : Bool → Env → Text → Command → Exec (Unit {0})
handle_unless true env my_name c = pure tt
handle_unless false env my_name c = do mark_processed env c; dispatch env my_name c

unfoldable pub handle_command : Env → Text → Command → Exec (Unit {0})
unfolding handle_unless
handle_command env my_name c = do
  duplicate ← gets (λ n. check_duplicate c n.processed_commands)
  handle_unless duplicate env my_name c

-- One round of the loop on a frame.
unfoldable pub handle_frame : Env → Text → Frame → Exec (Unit {0})
handle_frame env my_name f = do c ← lift (from_frame f); handle_command env my_name c

abbrev pub after_take : Node → Result (Option Frame) × List Read → Result (Option Frame) × Node
after_take n t = (t.0, record n { connection = record n.connection { incoming = t.1 } })

-- `connection_data.connection.read_frame()`
unfoldable pub read_frame : Node → Result (Option Frame) × Node
unfolding Connection.read_frame
read_frame n = let (r, c) = Connection.read_frame n.connection in (r, record n { connection = c })

abbrev pub Outcome : Type 0
Outcome = Option (Result (Unit {0}) × Node)

-- The round goes on after a frame that was handled, `rest` being the rounds that follow.
abbrev pub after_frame : (Node → Outcome) → Result (Unit {0}) → Node → Outcome
after_frame rest (ok _) n = rest n
after_frame rest (err e) n = some (err e, n)

abbrev pub after_read : (Node → Outcome) → Env → Text → Result (Option Frame) → Node → Outcome
after_read rest env my_name (err e) n = some (err e, n)
after_read rest env my_name (ok none) n = some (ok tt, n)
after_read rest env my_name (ok (some f)) n =
    let (r, n') = handle_frame env my_name f n in after_frame rest r n'

-- The loop of `handle_connection`. The fuel is spent one unit for each frame and one for the end of
-- the stream; `none` means that it ran out. Each round has its environment.
unfoldable pub handle_connection : ℕ → (ℕ → Env) → Text → Node → Outcome
handle_connection zero env my_name n = none
handle_connection (suc fuel) env my_name n =
    let (r, n') = read_frame n in
    after_read (handle_connection fuel env my_name) (env fuel) my_name r n'
