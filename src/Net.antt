-- ===== src/Net.antt =====
-- Servers of core/src/server.rs that are connected to each other. A frame that the task of an
-- outgoing connection, core/src/peer.rs, takes from its channel is read and handled by the server at
-- the other end.
pub mod Pending
pub mod Handle
pub mod Sent
pub mod Speaks
pub mod Spreads
pub mod Flooding
pub mod Bounded
use peer_to_peer_chat_system.Prelude.{ℕ, ◌≡◌, ◌⊎◌, true, false, some, List, [], ◌∷◌, if◌then◌else◌}
use peer_to_peer_chat_system.Prelude.Text.{Text, text_eq}
use peer_to_peer_chat_system.Prelude.HashMap
use peer_to_peer_chat_system.Frame
use peer_to_peer_chat_system.Frame.{Frame, PeerControlMessage, ClientServerMessage}
use peer_to_peer_chat_system.Result.{ok}
use peer_to_peer_chat_system.Cmd.{Command, from_frame, origin, check_duplicate}
use peer_to_peer_chat_system.Peer
use peer_to_peer_chat_system.Util.Counters
use peer_to_peer_chat_system.PeerMap.Distinct.{IsValid}
use peer_to_peer_chat_system.Node.{Node, Env}
use peer_to_peer_chat_system.Server.{handle_frame}
use peer_to_peer_chat_system.Server.Messages.{handle_message, command_of}

-- The server of each name.
abbrev pub Network : Type 0
Network = Text → Node

abbrev pub update : Text → Node → Network → Network
update a n net b = if text_eq b a then n else net b

-- A round of the task whose channel is `c`, in its loop, while the network takes frames.
unfoldable pub send_next : Text → ℕ → Node → Node
send_next name c n =
    let t : Peer.Task = record { name = name; channel = c; phase = Peer.serving; sent = [] } in
    record n { peers = (Peer.round true t n.peers).0 }

-- `a` sends the next frame `g` of its channel `c` to `b`, which handles it.
unfoldable pub deliver : Text → Text → ℕ → Frame → Env → Network → Network
unfolding send_next
deliver a b c g env net =
    let net' = update a (send_next b c (net a)) net in
    update b (handle_frame env b g (net' b)).1 net'

-- The runs in which the client of the server `o.0` speaks `m`, which is the command `x`, and then
-- clients speak and servers send and handle frames, in any order. Before, the command is no
-- duplicate anywhere and the peer maps are valid. The channels to the clients are open, no other
-- command with the source and sequence number `o` of `x` arrives, no connection begins or ends, and
-- no entry of the tables expires. Each server handles a frame as a whole, and no server announces
-- itself.
pub data Runs (m : ClientServerMessage) (x : Command) (o : Text × ℕ) : Network → Type 0 where
  speaks :
      (net : Network) (n : Node)
      → ((a : Text) → check_duplicate x (net a).processed_commands ≡ false)
      → ((a : Text) → IsValid (net a).peers)
      → command_of m (Counters.next (net o.0).sequence_numbers).0 ≡ some x
      → handle_message m (net o.0) ≡ some n
      → Runs m x o (update o.0 n net)
  speaks_too :
      {net : Network} (a : Text) (other : ClientServerMessage) (n : Node)
      → Runs m x o net
      → handle_message other (net a) ≡ some n
      → Runs m x o (update a n net)
  delivers :
      {net : Network} (a b : Text) (c : ℕ) (g : Frame) (rest : List PeerControlMessage) (env : Env)
      → Runs m x o net
      → HashMap.get b (net a).peers.entries ≡ some c
      → ((net a).peers.channels c).queue ≡ Frame.frame g ∷ rest
      → env.client_open ≡ true
      → ((y : Command) → from_frame g ≡ ok y → origin y ≡ some o → y ≡ x)
      → Runs m x o (deliver a b c g env net)

-- The frame stands in the queue.
abbrev pub InQueue : Frame → List PeerControlMessage → Type 0
InQueue f [] = ⊥
InQueue f (m ∷ l) = (m ≡ Frame.frame f) ⊎ InQueue f l

-- The message was told to the client.
abbrev pub InEvents : ClientServerMessage → List ClientServerMessage → Type 0
InEvents m [] = ⊥
InEvents m (e ∷ l) = (e ≡ m) ⊎ InEvents m l

-- No channel to a peer holds the frame any more.
abbrev pub Quiet : Frame → Network → Type 0
Quiet f net =
    (a b : Text) (c : ℕ)
    → HashMap.get b (net a).peers.entries ≡ some c
    → InQueue f ((net a).peers.channels c).queue
    → ⊥

-- Reached over connections whose receivers are alive.
pub data Connected (net : Network) (a : Text) : Text → Type 0 where
  self : Connected net a a
  link :
      {b : Text} (d : Text) (c : ℕ)
      → Connected net a b
      → HashMap.get d (net b).peers.entries ≡ some c
      → ((net b).peers.channels c).receiving ≡ true
      → Connected net a d
