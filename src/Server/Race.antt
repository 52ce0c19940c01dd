-- ===== src/Server/Race.antt =====
-- core/src/server.rs: `check_duplicate` and `set_processed` take the lock of the table in turn, so
-- that the tasks of two connections may both check a command before either has marked it.
use peer_to_peer_chat_system.Prelude.{ℕ, ◌≡◌, refl, true, false, some}
use peer_to_peer_chat_system.Prelude.Text.{Text, text_eq}
use peer_to_peer_chat_system.Prelude.HashMap
use peer_to_peer_chat_system.Frame
use peer_to_peer_chat_system.Frame.{Frame}
use peer_to_peer_chat_system.PeerMap
use peer_to_peer_chat_system.PeerMap.{PeerMap, push}
use peer_to_peer_chat_system.PeerMap.Distinct.{IsValid}
use peer_to_peer_chat_system.PeerMap.Broadcast.{broadcast-get}
use peer_to_peer_chat_system.Cmd.{Command, origin, to_frame, check_duplicate}
use peer_to_peer_chat_system.Node.{Node, Env}
use peer_to_peer_chat_system.Server.{mark_processed, handle_unless}
use peer_to_peer_chat_system.Server.Relay.{is_relayed, peers-dispatch}

broadcast-IsValid :
    (s : Text) (f : Frame) (p : PeerMap) → IsValid p → IsValid (PeerMap.broadcast s f p)
unfolding PeerMap.broadcast
broadcast-IsValid s f p h = record { distinct = h.distinct; created = h.created }

entries-broadcast :
    (s : Text) (f : Frame) (p : PeerMap) → (PeerMap.broadcast s f p).entries ≡ p.entries
unfolding PeerMap.broadcast
entries-broadcast s f p = refl

module _ (env : Env) (my_name : Text) (x : Command) (o : Text × ℕ) (g : Frame) where
  peers-handle_unless :
      (n : Node)
      → env.client_open ≡ true
      → is_relayed my_name x ≡ true
      → origin x ≡ some o
      → to_frame x ≡ some g
      → (handle_unless false env my_name x n).1.peers ≡ PeerMap.broadcast o.0 g n.peers
  unfolding handle_unless mark_processed
  peers-handle_unless n open_client r h k =
      peers-dispatch env my_name (mark_processed env x n).1 open_client x o g r h k

  -- If the tasks of two connections check a relayed command that is new, and both then act on what
  -- they saw, one after the other, the command is passed on twice to each peer but its source, while
  -- the client's channel is open and the peer map is valid.
  pub handle_unless_twice :
      (n : Node) (k : Text) (c : ℕ)
      → env.client_open ≡ true
      → is_relayed my_name x ≡ true
      → origin x ≡ some o
      → to_frame x ≡ some g
      → IsValid n.peers
      → HashMap.get k n.peers.entries ≡ some c
      → text_eq k o.0 ≡ false
      → check_duplicate x n.processed_commands ≡ false
      → let seen = check_duplicate x n.processed_commands in
        let n' = (handle_unless seen env my_name x n).1 in
        (handle_unless seen env my_name x n').1.peers.channels c
        ≡ push (Frame.frame g) (push (Frame.frame g) (n.peers.channels c))
  handle_unless_twice n k c open_client r h q v e apart new =
      let n' = (handle_unless false env my_name x n).1 in
      let p = peers-handle_unless n open_client r h q in
      let p' = peers-handle_unless n' open_client r h q in
      let once = broadcast-get o.0 g n.peers k c v e in
      let here : HashMap.get k (PeerMap.broadcast o.0 g n.peers).entries ≡ some c =
        rw entries-broadcast e in
      let twice =
        broadcast-get o.0 g (PeerMap.broadcast o.0 g n.peers) k c
          (broadcast-IsValid o.0 g n.peers v) here in
      rw new (rw (p', p, twice, once, apart) refl)
