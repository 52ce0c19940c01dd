-- ===== src/Node/Peers.antt =====
-- Which actions of Node touch the peer map: `broadcast` alone.
use peer_to_peer_chat_system.Prelude.{ℕ, Bool, true, false}
use peer_to_peer_chat_system.Prelude.Text.{Text}
use peer_to_peer_chat_system.Frame.{Frame, ClientServerMessage}
use peer_to_peer_chat_system.Peer.{PeerData}
use peer_to_peer_chat_system.PeerMap
use peer_to_peer_chat_system.PeerMap.{PeerMap}
use peer_to_peer_chat_system.Node.{
  Node, Env, broadcast, send_client, write_frame, next_sequence_number, append_to_file,
  set_adjacent, connect_to_peer, append_if, send_client_if,
}
use peer_to_peer_chat_system.Node.Keeps.{Keeps}

-- A property of the peer map.
abbrev pub OfPeers : (PeerMap → Type 0) → Node → Type 0
OfPeers Q n = Q n.peers

module _ (Q : PeerMap → Type 0) where
  pub broadcast-OfPeers :
      (s : Text) (f : Frame)
      → ((p : PeerMap) → Q p → Q (PeerMap.broadcast s f p))
      → Keeps (OfPeers Q) (broadcast s f)
  unfolding broadcast
  broadcast-OfPeers s f h = record { after = λ n q. h n.peers q }

  send_client_if-OfPeers :
      (b : Bool) (x : ClientServerMessage) (n : Node) → Q n.peers → Q (send_client_if b x n).1.peers
  unfolding send_client_if
  send_client_if-OfPeers true x n q = q
  send_client_if-OfPeers false x n q = q

  pub send_client-OfPeers :
      (env : Env) (x : ClientServerMessage) → Keeps (OfPeers Q) (send_client env x)
  unfolding send_client
  send_client-OfPeers env x = record { after = send_client_if-OfPeers env.client_open x }

  pub write_frame-OfPeers : (env : Env) (f : Frame) → Keeps (OfPeers Q) (write_frame env f)
  unfolding write_frame
  write_frame-OfPeers env f = record { after = λ n q. q }

  pub next_sequence_number-OfPeers : Keeps (OfPeers Q) next_sequence_number
  unfolding next_sequence_number
  next_sequence_number-OfPeers = record { after = λ n q. q }

  append_if-OfPeers :
      (a b : Bool) (file line : Text) (n : Node) → Q n.peers → Q (append_if a b file line n).1.peers
  unfolding append_if
  append_if-OfPeers true true file line n q = q
  append_if-OfPeers true false file line n q = q
  append_if-OfPeers false b file line n q = q

  pub append_to_file-OfPeers :
      (env : Env) (file line : Text) → Keeps (OfPeers Q) (append_to_file env file line)
  unfolding append_to_file
  append_to_file-OfPeers env file line = record {
    after = append_if-OfPeers env.open_ok env.append_ok file line;
  }

  pub set_adjacent-OfPeers :
      (env : Env) (s : Text) (d : PeerData) (t : ℕ) → Keeps (OfPeers Q) (set_adjacent env s d t)
  unfolding set_adjacent
  set_adjacent-OfPeers env s d t = record { after = λ n q. q }

  pub connect_to_peer-OfPeers :
      (name ip_address port : Text) → Keeps (OfPeers Q) (connect_to_peer name ip_address port)
  unfolding connect_to_peer
  connect_to_peer-OfPeers name ip_address port = record { after = λ n q. q }
