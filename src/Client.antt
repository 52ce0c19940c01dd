-- ===== src/Client.antt =====
-- core/src/client.rs: `Client`, what the terminal calls. Its methods pass messages to the server
-- over one channel and read them from another; a channel is the list of what waits in it.
use peer_to_peer_chat_system.Prelude.{
  ℕ, Bool, true, Option, none, some, List, [], ◌∷◌, ◌++◌, if◌then◌else◌,
}
use peer_to_peer_chat_system.Prelude.Text.{Text}
use peer_to_peer_chat_system.Frame.{Frame, Bytes, ClientServerMessage}

pub record Client : Type 0 where
  pub name : Text
  -- the messages to the server, and whether the server's end is alive
  pub server_tx : List ClientServerMessage
  pub server_open : Bool
  -- the messages from the server
  pub rx : List ClientServerMessage

-- With fresh channels.
unfoldable pub new : Text → Client
new name = record { name = name; server_tx = []; server_open = true; rx = [] }

-- `server_tx.send(message).await.unwrap()`, where `none` is a panic.
unfoldable pub send : ClientServerMessage → Client → Option Client
send message c =
    if c.server_open then some (record c { server_tx = c.server_tx ++ message ∷ [] }) else none

unfoldable pub say : Text → Client → Option Client
unfolding send
say message c = send (ClientServerMessage.say c.name message) c

unfoldable pub whisper : Text → Text → Client → Option Client
unfolding send
whisper to message c = send (ClientServerMessage.whisper c.name to message) c

unfoldable pub ping : Text → ℕ → Client → Option Client
unfolding send
ping to sent_at_millis c = send (ClientServerMessage.ping c.name to sent_at_millis) c

unfoldable pub send_extension : ℕ → Frame → Client → Option Client
unfolding send
send_extension extension_id payload c =
    send (ClientServerMessage.extension c.name extension_id payload) c

unfoldable pub deliver : Text → Bytes → Client → Option Client
unfolding send
deliver to bytes c = send (ClientServerMessage.deliver c.name to bytes) c

unfoldable pub broadcast : Bytes → Client → Option Client
unfolding send
broadcast bytes c = send (ClientServerMessage.broadcast c.name bytes) c

take_message : List ClientServerMessage → Client → Option (ClientServerMessage × Client)
take_message [] c = none
take_message (message ∷ rest) c = some (message, record c { rx = rest })

-- `none` where the client goes on waiting.
unfoldable pub next_message : Client → Option (ClientServerMessage × Client)
unfolding take_message
next_message c = take_message c.rx c
