-- ===== src/Server/Messages.antt =====
-- core/src/server.rs: what the server does with the messages of its client.
use peer_to_peer_chat_system.Prelude.{
  ℕ, ◌≡◌, refl, ◌∙◌, Option, none, some, ◌++◌, arith, false, true,
}
use peer_to_peer_chat_system.Prelude.Text.{Text, text_eq}
use peer_to_peer_chat_system.Prelude.HashMap
use peer_to_peer_chat_system.Frame
use peer_to_peer_chat_system.Frame.{
  Frame, Bytes, ClientServerMessage, say, whisper, ping, pong, extension, deliver, broadcast,
}
use peer_to_peer_chat_system.Result.{ok}
use peer_to_peer_chat_system.Util.Counters
use peer_to_peer_chat_system.PeerMap
use peer_to_peer_chat_system.PeerMap.{PeerMap, push}
use peer_to_peer_chat_system.PeerMap.Distinct.{IsValid}
use peer_to_peer_chat_system.PeerMap.Broadcast.{broadcast-get}
use peer_to_peer_chat_system.Cmd
use peer_to_peer_chat_system.Cmd.{Command, from_frame, to_frame, check_duplicate}
use peer_to_peer_chat_system.Cmd.Say
use peer_to_peer_chat_system.Cmd.Ping
use peer_to_peer_chat_system.Cmd.Pong
use peer_to_peer_chat_system.Cmd.Whisper
use peer_to_peer_chat_system.Cmd.Extension
use peer_to_peer_chat_system.Cmd.Deliver
use peer_to_peer_chat_system.Cmd.Broadcast
use peer_to_peer_chat_system.Cmd.RoundTrip.{from_frame-to_frame}
use peer_to_peer_chat_system.Node.{Node, Env}
use peer_to_peer_chat_system.Server.{mark_processed, handle_unless, handle_command, handle_frame}
use peer_to_peer_chat_system.Server.Local.{local_message, dispatch_tells}

-- `Server::say` and the functions like it.
unfoldable pub send_say : Text → Text → ℕ → PeerMap → PeerMap
send_say from message sequence_number =
    PeerMap.broadcast from (Say.into_frame (Say.new from sequence_number message))

unfoldable pub send_ping : Text → Text → ℕ → ℕ → PeerMap → PeerMap
send_ping from to sequence_number sent_at =
    PeerMap.broadcast from (Ping.into_frame (Ping.new from to sequence_number sent_at))

unfoldable pub send_pong : Text → Text → ℕ → ℕ → PeerMap → PeerMap
send_pong from to sequence_number sent_at =
    PeerMap.broadcast from (Pong.into_frame (Pong.new from to sequence_number sent_at))

unfoldable pub send_whisper : Text → Text → Text → ℕ → PeerMap → PeerMap
send_whisper from to message sequence_number =
    PeerMap.broadcast from (Whisper.into_frame (Whisper.new from sequence_number to message))

unfoldable pub send_extension : Text → ℕ → Frame → ℕ → PeerMap → PeerMap
send_extension from extension_id payload sequence_number =
    PeerMap.broadcast from
      (Extension.into_frame (Extension.new from sequence_number extension_id payload))

unfoldable pub send_deliver : Text → ℕ → Text → Bytes → PeerMap → PeerMap
send_deliver from sequence_number to bytes =
    PeerMap.broadcast from (Deliver.into_frame (Deliver.new from sequence_number to bytes))

unfoldable pub send_broadcast : Text → ℕ → Bytes → PeerMap → PeerMap
send_broadcast from sequence_number bytes =
    PeerMap.broadcast from (Broadcast.into_frame (Broadcast.new from sequence_number bytes))

-- `next_sequence_number.next()`, and then a function above on that number.
abbrev pub numbered : (ℕ → PeerMap → PeerMap) → Node → Node
numbered send n =
    let (number, c) = Counters.next n.sequence_numbers in
    record n { sequence_numbers = c; peers = send number n.peers }

-- One round of the loop of `client_message_handler`; `none` is the panic on a pong.
unfoldable pub handle_message : ClientServerMessage → Node → Option Node
handle_message (ping from to sent_at) n = some (numbered (λ k. send_ping from to k sent_at) n)
handle_message (pong from sent_at) n = none
handle_message (whisper from to message) n = some (numbered (send_whisper from to message) n)
handle_message (say from message) n = some (numbered (send_say from message) n)
handle_message (extension from extension_id payload) n =
    some (numbered (send_extension from extension_id payload) n)
handle_message (deliver from to bytes) n = some (numbered (λ k. send_deliver from k to bytes) n)
handle_message (broadcast from bytes) n = some (numbered (λ k. send_broadcast from k bytes) n)

-- The command that a message of the client asks for, under the number `k`.
abbrev pub command_of : ClientServerMessage → ℕ → Option Command
command_of (ping from to sent_at) k =
    some (
      Cmd.ping (record { source = from; destination = to; sequence_number = k; sent_at = sent_at }))
command_of (pong from sent_at) k = none
command_of (whisper from to message) k = some (
    Cmd.whisper
      (record { source = from; sequence_number = k; destination = to; message = message }))
command_of (say from message) k =
    some (Cmd.say (record { source = from; sequence_number = k; message = message }))
command_of (extension from extension_id payload) k = some (
    Cmd.extension (record {
      source = from;
      sequence_number = k;
      extension_id = extension_id;
      payload = payload;
    }))
command_of (deliver from to bytes) k =
    some
      (Cmd.deliver (record { source = from; sequence_number = k; destination = to; bytes = bytes }))
command_of (broadcast from bytes) k =
    some (Cmd.broadcast (record { source = from; sequence_number = k; bytes = bytes }))

abbrev pub sender : ClientServerMessage → Text
sender (ping from to sent_at) = from
sender (pong from sent_at) = from
sender (whisper from to message) = from
sender (say from message) = from
sender (extension from extension_id payload) = from
sender (deliver from to bytes) = from
sender (broadcast from bytes) = from

-- The message is broadcast as the frame of its command.
pub handle_message-eq_some :
    (m : ClientServerMessage) (n : Node) (x : Command) (g : Frame)
    → command_of m (Counters.next n.sequence_numbers).0 ≡ some x
    → to_frame x ≡ some g
    → handle_message m n ≡ some (numbered (λ k. PeerMap.broadcast (sender m) g) n)
unfolding handle_message send_say send_ping send_whisper send_extension send_deliver send_broadcast
    to_frame Say.new Ping.new Whisper.new Extension.new Deliver.new Broadcast.new
handle_message-eq_some (ping from to sent_at) n x g h k = cc
handle_message-eq_some (pong from sent_at) n x g h k = cc
handle_message-eq_some (whisper from to message) n x g h k = cc
handle_message-eq_some (say from message) n x g h k = cc
handle_message-eq_some (extension from extension_id payload) n x g h k = cc
handle_message-eq_some (deliver from to bytes) n x g h k = cc
handle_message-eq_some (broadcast from bytes) n x g h k = cc

-- What a peer tells its client of a frame that it takes for a command which is no duplicate.
handle_frame_tells :
    (env : Env) (my_name : Text) (x : Command) (g : Frame) (n : Node)
    → env.client_open ≡ true
    → from_frame g ≡ ok x
    → check_duplicate x n.processed_commands ≡ false
    → (handle_frame env my_name g n).1.events
      ≡ n.events ++ local_message my_name (Counters.next n.sequence_numbers).0 x
unfolding handle_frame handle_command handle_unless mark_processed
handle_frame_tells env my_name x g n o r d =
    rw (r, d) (dispatch_tells env my_name x (mark_processed env x n).1 o)

-- From a client to a client. A message but a pong that the client of `a`, whose peer map is valid,
-- passes to its server is numbered and put once, as the frame of its command, into the channel of each peer of `a` that does not have the
-- sender's name and whose receiver is alive. A peer named `my_name` that takes this frame for the
-- first time tells its client what the command says for it, while the channel to that is open.
pub handle_message_arrives :
    (env : Env) (my_name : Text) (m : ClientServerMessage) (a b : Node) (x : Command) (g : Frame)
    (k : Text) (c : ℕ)
    → command_of m (Counters.next a.sequence_numbers).0 ≡ some x
    → to_frame x ≡ some g
    → IsValid a.peers
    → HashMap.get k a.peers.entries ≡ some c
    → text_eq k (sender m) ≡ false
    → env.client_open ≡ true
    → check_duplicate x b.processed_commands ≡ false
    → (a' : Node) × (handle_message m a ≡ some a')
      × (a'.sequence_numbers ≡ (Counters.next a.sequence_numbers).1)
      × (a'.peers.channels c ≡ push (Frame.frame g) (a.peers.channels c))
      × ((handle_frame env my_name g b).1.events
          ≡ b.events ++ local_message my_name (Counters.next b.sequence_numbers).0 x)
handle_message_arrives env my_name m a b x g k c hx hg v e d o fresh = (
  numbered (λ j. PeerMap.broadcast (sender m) g) a,
  handle_message-eq_some m a x g hx hg,
  refl,
  broadcast-get (sender m) g a.peers k c v e ∙ ground arith,
  handle_frame_tells env my_name x g b o (from_frame-to_frame x g hg) fresh,
)
