-- ===== src/Server/Start.antt =====
-- core/src/server.rs: what a server does beside its connections. It reads the tracker's answer,
-- connects to the peers in it, and announces itself.
use peer_to_peer_chat_system.Prelude.{ℕ, ◌-◌, ltb, List, [], ◌∷◌, if◌then◌else◌}
use peer_to_peer_chat_system.Prelude.Text.{Text, text_eq}
use peer_to_peer_chat_system.Frame.{Frame, Frames, array, nil, cons}
use peer_to_peer_chat_system.Result
use peer_to_peer_chat_system.Result.{Result, ok, err, not_an_array}
use peer_to_peer_chat_system.Parser
use peer_to_peer_chat_system.Parser.{Parser, ◌>>=◌, ◌>>◌, pure, next_text, finish}
use peer_to_peer_chat_system.Util.Counters
use peer_to_peer_chat_system.Peer.{PeerData}
use peer_to_peer_chat_system.PeerMap
use peer_to_peer_chat_system.Cmd.Announce
use peer_to_peer_chat_system.Node.{Node, connect_to_peer}

-- The name, the address and the port of a peer.
abbrev pub Place : Type 0
Place = Text × Text × Text

unfoldable pub parse_peer : Parser Place
parse_peer = do
  peer_name ← next_text
  ip_address ← next_text
  port ← next_text
  finish
  pure (peer_name, ip_address, port)

-- The loop of `parse_register_response`.
unfoldable pub parse_peers : Frames → Result (List Place)
parse_peers nil = ok []
parse_peers (cons (array peer) rest) =
    let others = parse_peers rest in
    Result.◌>>=◌ (parse_peer peer) (λ r. Result.◌>>=◌ others (λ places. ok (r.0 ∷ places)))
parse_peers (cons frame rest) = err not_an_array

unfoldable pub parse_register_response : Frame → Result (List Place)
parse_register_response response = Result.◌>>=◌ (Parser.new response) parse_peers

-- The loop of `start` over the peers in the answer: connections to all but itself.
unfoldable pub connect_to_peers : Text → List Place → Node → Node
connect_to_peers my_name [] n = n
connect_to_peers my_name ((name, ip, port) ∷ places) n =
    connect_to_peers my_name places
      (if text_eq name my_name then n else (connect_to_peer name ip port n).1)

-- Subtraction guarded by the comparison.
unfoldable pub available_incoming : ℕ → ℕ → ℕ
available_incoming num_incoming_conns max_incoming_conns =
    if ltb num_incoming_conns max_incoming_conns then max_incoming_conns - num_incoming_conns else 0

-- One round of the loop of `start_announce`.
unfoldable pub announce : Text → Text → ℕ → ℕ → ℕ → PeerData → Node → Node
unfolding available_incoming
announce name ip_address port num_incoming_conns max_incoming_conns d n =
    let (sequence_number, c) = Counters.next n.sequence_numbers in
    let command =
      Announce.new name sequence_number ip_address port
        (available_incoming num_incoming_conns max_incoming_conns) d.city d.lat d.lng
        (PeerMap.peer_names n.peers) in
    record n {
      sequence_numbers = c;
      peers = PeerMap.broadcast name (Announce.into_frame command) n.peers;
    }
