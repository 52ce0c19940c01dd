-- ===== src/Server/Announced.antt =====
-- core/src/server.rs and core/src/cmd/announce.rs: an announce, from `start_announce` of one peer to
-- the adjacency list of another.

use peer_to_peer_chat_system.Prelude.{
  ℕ, zero, suc, ◌≡◌, refl, ◌+◌, ◌≤◌, some, arith, Bool, true, false,
}
use peer_to_peer_chat_system.Prelude.Text.{Text, text_eq_iff}
use peer_to_peer_chat_system.Frame.{Frame}
use peer_to_peer_chat_system.Result.{ok}
use peer_to_peer_chat_system.Util.Counters
use peer_to_peer_chat_system.Util.TtlMap
use peer_to_peer_chat_system.Util.TtlMap.Lookup.{get-set}
use peer_to_peer_chat_system.Peer
use peer_to_peer_chat_system.Peer.{PeerData}
use peer_to_peer_chat_system.PeerMap
use peer_to_peer_chat_system.Cmd
use peer_to_peer_chat_system.Cmd.{from_frame, to_frame, check_duplicate, lifetime}
use peer_to_peer_chat_system.Cmd.Announce
use peer_to_peer_chat_system.Cmd.Announce.{Announce}
use peer_to_peer_chat_system.Cmd.RoundTrip.{from_frame-to_frame}
use peer_to_peer_chat_system.Apply.{apply_announce, consider, roll_for}
use peer_to_peer_chat_system.Node
use peer_to_peer_chat_system.Node.{Node, Env, set_adjacent, connect_to_peer}
use peer_to_peer_chat_system.Server.{
  dispatch, mark_processed, handle_unless, handle_command, handle_frame,
}
use peer_to_peer_chat_system.Server.Start.{announce, available_incoming}

module _ (env : Env) (c : Announce) where
  adjacent-roll_for : (k : ℕ) (n : Node) → (roll_for env c k n).1.adjacency_list ≡ n.adjacency_list
  unfolding roll_for connect_to_peer
  adjacent-roll_for zero n = refl
  adjacent-roll_for (suc k) n = ground arith

  adjacent-consider :
      (known empty : Bool) (n : Node)
      → (consider env c known empty n).1.adjacency_list ≡ n.adjacency_list
  unfolding consider
  adjacent-consider true empty n = refl
  adjacent-consider false true n = adjacent-roll_for 10 n
  adjacent-consider false false n = adjacent-roll_for c.available_incoming n

  -- The announcing peer is known under its name, with what it said of itself.
  get-apply_announce :
      (n : Node)
      → TtlMap.get c.source (apply_announce env c n).1.adjacency_list
        ≡ some (Peer.new c.city c.lat c.lng c.peers)
  unfolding apply_announce set_adjacent Node.broadcast
  get-apply_announce n =
      rw adjacent-consider (rw get-set (ground (arith, text_eq_iff c.source c.source)))

get-handle_frame :
    (env : Env) (my_name : Text) (c : Announce) (g : Frame) (n : Node)
    → from_frame g ≡ ok (Cmd.announce c)
    → check_duplicate (Cmd.announce c) n.processed_commands ≡ false
    → TtlMap.get c.source (handle_frame env my_name g n).1.adjacency_list
      ≡ some (Peer.new c.city c.lat c.lng c.peers)
unfolding handle_frame handle_command handle_unless mark_processed dispatch
get-handle_frame env my_name c g n r d =
    rw (r, d) (get-apply_announce env c (mark_processed env (Cmd.announce c) n).1)

-- A round of announcing broadcasts one frame in the peer's own name under the next sequence number.
-- It is read as an announce of the peer's place, data and names of peers, whose number of available
-- connections is what the open ones leave of the maximum, if they do not exceed it. If the command
-- is no duplicate at another peer, that peer knows the announcing one with this data afterwards.
pub announce_arrives :
    (env : Env) (my_name name ip_address : Text) (port open_conns max_conns : ℕ) (d : PeerData)
    (a b : Node)
    → let x =
        Announce.new name
          (Counters.next a.sequence_numbers).0
          ip_address
          port
          (available_incoming open_conns max_conns)
          d.city
          d.lat
          d.lng
          (PeerMap.peer_names a.peers) in
      check_duplicate (Cmd.announce x) b.processed_commands ≡ false
      → (g : Frame) × ((announce name ip_address port open_conns max_conns d a).peers
          ≡ PeerMap.broadcast name g a.peers)
        × (from_frame g ≡ ok (Cmd.announce x))
        × (open_conns ≤ max_conns → x.available_incoming + open_conns ≡ max_conns)
        × (TtlMap.get name (handle_frame env my_name g b).1.adjacency_list
            ≡ some (Peer.new d.city d.lat d.lng (PeerMap.peer_names a.peers)))
unfolding announce to_frame Announce.new available_incoming
announce_arrives env my_name name ip port k m d a b fresh =
    let x =
      Announce.new name (Counters.next a.sequence_numbers).0 ip port (available_incoming k m) d.city
        d.lat d.lng (PeerMap.peer_names a.peers) in
    let read = from_frame-to_frame (Cmd.announce x) (Announce.into_frame x) refl in
    (
      Announce.into_frame x,
      refl,
      read,
      (λ h. ground arith),
      get-handle_frame env my_name x (Announce.into_frame x) b read fresh,
    )
