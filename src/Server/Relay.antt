-- ===== src/Server/Relay.antt =====
-- What core/src/server.rs passes on to the other peers and to the client when it dispatches a
-- command.
use peer_to_peer_chat_system.Prelude.{
  ℕ, ◌≡◌, refl, ap, ◌∙◌, Bool, true, false, not, some, arith, if◌then◌else◌,
}
use peer_to_peer_chat_system.Prelude.Text.{Text, text_eq}
use peer_to_peer_chat_system.Prelude.HashMap
use peer_to_peer_chat_system.Frame
use peer_to_peer_chat_system.Frame.{Frame, ClientServerMessage}
use peer_to_peer_chat_system.PeerMap
use peer_to_peer_chat_system.PeerMap.{PeerMap, Channel, push}
use peer_to_peer_chat_system.PeerMap.Distinct.{IsValid}
use peer_to_peer_chat_system.PeerMap.Broadcast.{broadcast-get}
use peer_to_peer_chat_system.Cmd.Announce.{Announce}
use peer_to_peer_chat_system.Cmd.Announce
use peer_to_peer_chat_system.Cmd.{
  Command, broadcast, ping, pong, register, say, deliver, announce, whisper, extension, unknown,
  origin, to_frame, check_duplicate,
}
use peer_to_peer_chat_system.Apply.Spares.{peers-consider}
use peer_to_peer_chat_system.Apply.{
  apply_ping, apply_pong, apply_say, apply_broadcast, apply_deliver, apply_announce,
}
use peer_to_peer_chat_system.Node
use peer_to_peer_chat_system.Node.{
  Node, Env, Exec, send_client, send_client_if, set_adjacent, connect_to_peer,
}
use peer_to_peer_chat_system.Server.{dispatch, mark_processed, handle_unless, handle_command}

-- The commands that are passed on: those that are for everybody, and those for another peer that
-- are flooded.
abbrev pub is_relayed : Text → Command → Bool
is_relayed my_name (say c) = true
is_relayed my_name (broadcast c) = true
is_relayed my_name (announce c) = true
is_relayed my_name (ping c) = not (text_eq c.destination my_name)
is_relayed my_name (pong c) = not (text_eq c.destination my_name)
is_relayed my_name (deliver c) = not (text_eq c.destination my_name)
is_relayed my_name c = false

module _ (env : Env) (my_name : Text) (n : Node) (open_client : env.client_open ≡ true) where
  peers-announce :
      (c : Announce)
      → (apply_announce env c n).1.peers
        ≡ PeerMap.broadcast c.source (Announce.into_frame c) n.peers
  unfolding apply_announce set_adjacent Node.broadcast
  peers-announce c = peers-consider env c _ _ _

  -- A relayed command is broadcast, in its source's name, as the frame that it turns into.
  pub peers-dispatch :
      (x : Command) (o : Text × ℕ) (g : Frame)
      → is_relayed my_name x ≡ true
      → origin x ≡ some o
      → to_frame x ≡ some g
      → (dispatch env my_name x n).1.peers ≡ PeerMap.broadcast o.0 g n.peers
  unfolding dispatch origin to_frame send_client send_client_if Node.broadcast apply_ping apply_pong
      apply_say apply_broadcast apply_deliver
  peers-dispatch (say x) o g r h k = rw open_client ground arith
  peers-dispatch (broadcast x) o g r h k = rw open_client ground arith
  peers-dispatch (announce x) o g r h k = peers-announce x ∙ ground arith
  peers-dispatch (ping x) o g r h k = ground arith
  peers-dispatch (pong x) o g r h k = ground arith
  peers-dispatch (deliver x) o g r h k = ground arith
  peers-dispatch (register x) o g r h k = cc
  peers-dispatch (whisper x) o g r h k = cc
  peers-dispatch (extension x) o g r h k = cc
  peers-dispatch unknown o g r h k = cc

pub peers-handle_command :
    (env : Env) (my_name : Text) (x : Command) (n : Node)
    → check_duplicate x n.processed_commands ≡ false
    → (handle_command env my_name x n).1 ≡ (dispatch env my_name x (mark_processed env x n).1).1
unfolding handle_command mark_processed handle_unless
peers-handle_command env my_name x n h = rw h refl

-- While the client's channel is open and the peer map is valid, a relayed command that is no
-- duplicate is put, as the frame that it turns into, at the end of the channel of each peer whose
-- receiver is alive, once, and not in the channel of the peer that is its source.
pub handle_command_relays :
    (env : Env) (my_name : Text) (x : Command) (o : Text × ℕ) (g : Frame) (n : Node) (k : Text)
    (c : ℕ)
    → env.client_open ≡ true
    → is_relayed my_name x ≡ true
    → origin x ≡ some o
    → to_frame x ≡ some g
    → check_duplicate x n.processed_commands ≡ false
    → IsValid n.peers
    → HashMap.get k n.peers.entries ≡ some c
    → (handle_command env my_name x n).1.peers.channels c
      ≡ (if text_eq k o.0 then n.peers.channels c else push (Frame.frame g) (n.peers.channels c))
unfolding mark_processed
handle_command_relays env my_name x o g n k c open_client r ho hg new v e =
    let marked = (mark_processed env x n).1 in
    ap (λ m. m.peers.channels c) (peers-handle_command env my_name x n new)
    ∙ ap (λ p. p.channels c) (peers-dispatch env my_name marked open_client x o g r ho hg)
    ∙ broadcast-get o.0 g n.peers k c v e
